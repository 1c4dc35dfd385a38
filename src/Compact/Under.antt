-- ===== src/Compact/Under.antt =====
-- The state of the loops of `mergeRuns` against the runs before them (segments.go).
use osmem.Prelude.{
  ℕ, ◌+◌, ◌≤◌, ◌<◌, String, Bool, true, false, none, some, List, [], ◌∷◌, ◌≡◌, All, if◌then◌else◌,
  length, ltb, ◌⊎◌,
}
use osmem.Prelude.Dict.{◌==◌, string_keys, nat_keys, lookup, member}
use osmem.Segment.{Segments, RootOp, size_class}
use osmem.Segment.Counts.{IsTidy}
use osmem.Segment.Sums.{total}
use osmem.Segment.Moving.{ListsIds, Moves, live_of, ids_of}
use osmem.Index.{Index}

abbrev pub is_nil {ℓ} : {A : Type ℓ} → List A → Bool
is_nil [] = true
is_nil (x ∷ xs) = false

-- A document that a run holds is stored.
abbrev pub IsStored : Index → Type 0
IsStored ix =
    (id : String) (r : ℕ) → lookup id ix.segments.run_of ≡ some r → ¬ (lookup id ix.docs ≡ none)

-- One for a run of the size classes that are merged together.
abbrev pub one_if_small : ℕ → ℕ
one_if_small n = if ltb (size_class n) 3 then 1 else 0

abbrev pub small : Segments → ℕ → ℕ
small s q = one_if_small (live_of s q)

-- A run of at most `m` documents has fewer, or adds at most `k` small ones.
abbrev pub Grown : ℕ → ℕ → Type 0
Grown m k = (n : ℕ) → n ≤ m → (n < m) ⊎ (one_if_small n ≤ k)

abbrev pub names_root : String → List RootOp → Bool
names_root id [] = false
names_root id (op ∷ ops) = if op.id == id then true else names_root id ops

abbrev pub Pairs : Type 1
Pairs = ℕ → String → Type 0

-- The segments `s` came from `s₀` by moving documents of the runs of the group into the runs `news`,
-- after `d` documents of the group's runs were looked at, those of `Seen`; `k` small runs are new.
pub record Under (s₀ : Segments) (g : List ℕ) (Seen : Pairs) (ix : Index) (roots : List RootOp)
    (d k : ℕ) : Type 0 where
  pub news : List ℕ
  pub tidy : IsTidy ix.segments
  pub lists : ListsIds ix.segments
  pub stored : IsStored ix
  pub next : s₀.next_run ≤ ix.segments.next_run
  pub gen_same : ix.segments.mapping_gen ≡ s₀.mapping_gen
  pub old_ids : (q : ℕ) → q < s₀.next_run → (ix.segments.run_at q).ids ≡ (s₀.run_at q).ids
  pub old_gen : (q : ℕ) → q < s₀.next_run → (ix.segments.run_at q).gen ≡ (s₀.run_at q).gen
  pub old_pinned :
      (q : ℕ)
      → q < s₀.next_run
      → (ix.segments.run_at q).pinned ≡ false
      → (s₀.run_at q).pinned ≡ false
  pub old_live :
      (q : ℕ) → q < s₀.next_run → member q g ≡ false → live_of ix.segments q ≡ live_of s₀ q
  pub within : (f : ℕ → ℕ) → total f ix.segments.runs ≤ total f s₀.runs + total f news
  pub news_new : (q : ℕ) → member q news ≡ true → (s₀.next_run ≤ q) × (q < ix.segments.next_run)
  pub news_full : (q : ℕ) → member q news ≡ true → ids_of ix.segments q ≡ live_of ix.segments q
  pub moved : total (live_of ix.segments) g + total (ids_of ix.segments) news ≤ total (live_of s₀) g
  pub count : total (ids_of ix.segments) news + length roots ≤ d
  pub few_small :
      (total (ids_of ix.segments) news + length roots < d) ⊎ (total (small ix.segments) news ≤ k)
  pub moves : All (Moves ix.segments g) roots
  pub seen :
      (r : ℕ) (id : String)
      → r < s₀.next_run
      → Seen r id
      → (¬ (lookup id ix.segments.run_of ≡ some r)) ⊎ (names_root id roots ≡ true)
