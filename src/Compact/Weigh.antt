-- ===== src/Compact/Weigh.antt =====
-- How much is left to merge falls with each merge (segments.go, `compactRuns`).
use osmem.Prelude.{
  ℕ, ◌+◌, ◌≤◌, ◌<◌, String, true, false, some, List, [], ◌∷◌, ◌≡◌, sym, ap, ◌∙◌, arith, eqb,
  eqb_iff, ltb, All, if◌then◌else◌, length, ◌⊎◌, inl, inr, Bool-cases,
}
use osmem.Prelude.Dict.{Dict, string_keys, nat_keys, lookup, member}
use osmem.Prelude.Distinct.{Distinct, holders}
use text.Mathlib.TextEquality.{eq_iff}
use osmem.Segment.{Segments, mergeable}
use osmem.Segment.Counts.{HoldsSome, IsTidy}
use osmem.Segment.Sums.{total, total_mono, total-zero, IsPart}
use osmem.Segment.Moving.{live_of, ids_of}
use osmem.Index.{Index}
use osmem.Compact.Under.{Under, Pairs, small, one_if_small}

-- The documents that the mergeable runs once indexed, and the small ones among these runs.
abbrev pub weight : Segments → ℕ → ℕ
weight s q = if mergeable s (s.run_at q) then ids_of s q else 0

abbrev pub smalls : Segments → ℕ → ℕ
smalls s q = if mergeable s (s.run_at q) then small s q else 0

abbrev pub all_weight : Segments → ℕ
all_weight s = total (weight s) s.runs

abbrev pub all_smalls : Segments → ℕ
all_smalls s = total (smalls s) s.runs

-- Some document is in a run that has one.
holders-some :
    (r : ℕ) (m : Dict String ℕ)
    → Distinct m
    → 0 < holders r m
    → (id : String) × (lookup id m ≡ some r)
unfolding holders lookup
holders-some r [] d h = absurd (omega (arith, h))
holders-some r ((j, w) ∷ m) d h = elim (Bool-cases (eqb w r)) [
  | inl b ↦ (j, ground (arith, b, eqb_iff w r, eq_iff j j))
  | inr b ↦
      let later = holders-some r m d.1 (ground (arith, h, b)) in
      (later.0, ground (arith, later.1, d.0, eq_iff j later.0))
]

All-member :
    (s : Segments) (q : ℕ) (l : List ℕ) → All (HoldsSome s) l → member q l ≡ true → 0 < live_of s q
unfolding member
All-member s q [] a m = absurd (cc m)
All-member s q (r ∷ l) a m = ground (arith, a.0, m, eqb_iff r q, All-member s q l a.1)

live-old : (s : Segments) (q : ℕ) → IsTidy s → 0 < live_of s q → q < s.next_run
live-old s q t h = ground (arith, h, t.counted.live q, t.counted.fresh q)

pub runs-old :
    (s : Segments) (l : List ℕ) → IsTidy s → All (HoldsSome s) l → All (λ q. q < s.next_run) l
runs-old s [] t a = tt
runs-old s (q ∷ l) t a = (live-old s q t a.0, runs-old s l t a.1)

-- A run of which all documents were seen holds none.
pub seen-dead :
    (s₀ : Segments) (g : List ℕ) (Seen : Pairs) (ix : Index) (d k q : ℕ)
    → Under s₀ g Seen ix [] d k
    → q < s₀.next_run
    → ((id : String) → member id (s₀.run_at q).ids ≡ true → Seen q id)
    → live_of ix.segments q ≡ 0
seen-dead s₀ g Seen ix d k q u old all = elim (Bool-cases (eqb (live_of ix.segments q) 0)) [
  | inl b ↦ (eqb_iff (live_of ix.segments q) 0).0 b
  | inr b ↦
      let held =
        holders-some q ix.segments.run_of u.tidy.counted.distinct
          (ground (arith, b, u.tidy.counted.live q, eqb_iff (live_of ix.segments q) 0)) in
      let listed =
        ap (λ ids. member held.0 ids) (sym (u.old_ids q old)) ∙ u.lists held.0 q held.1 in
      absurd (not_held held.0 held.1 (u.seen q held.0 old (all held.0 listed)))
]
  where
    not_held :
        (id : String)
        → lookup id ix.segments.run_of ≡ some q
        → (¬ (lookup id ix.segments.run_of ≡ some q)) ⊎ (false ≡ true)
        → ⊥
    not_held id e (inl h) = h e
    not_held id e (inr h) = cc h

abbrev if_live : Segments → (ℕ → ℕ) → ℕ → ℕ
if_live s f q = if ltb 0 (live_of s q) then f q else 0

abbrev if_old : ℕ → (ℕ → ℕ) → ℕ → ℕ
if_old n f q = if ltb q n then f q else 0

-- What a merge adds to a sum over the runs and takes from it.
pub account :
    (s₀ : Segments) (g : List ℕ) (Seen : Pairs) (ix : Index) (d k : ℕ) (part : List ℕ)
    (before after : ℕ → ℕ)
    → IsTidy s₀
    → (u : Under s₀ g Seen ix [] d k) → IsPart part s₀.runs
    → ((q : ℕ) → q < s₀.next_run → 0 < live_of ix.segments q → after q ≤ before q)
    → ((q : ℕ) → member q part ≡ true → 0 < live_of ix.segments q → after q ≡ 0)
    → total after ix.segments.runs + total before part ≤ total before s₀.runs + total after u.news
account s₀ g Seen ix d k part before after tidy u is_part falls gone =
    omega (arith, alive, u.within live, only_old, is_part before old lower, gone_part, fewer_news)
  where
    live : ℕ → ℕ
    live = if_live ix.segments after

    old : ℕ → ℕ
    old = if_old s₀.next_run live

    alive : total after ix.segments.runs ≤ total live ix.segments.runs
    alive =
        total_mono after live ix.segments.runs
          (λ q m. ground (arith, All-member ix.segments q ix.segments.runs u.tidy.living m))

    only_old : total live s₀.runs ≤ total old s₀.runs
    only_old =
        total_mono live old s₀.runs
          (λ q m. ground (arith, live-old s₀ q tidy (All-member s₀ q s₀.runs tidy.living m)))

    lower : (q : ℕ) → old q ≤ before q
    lower q = ground (arith, falls q)

    gone_part : total old part ≡ 0
    gone_part = total-zero old part (λ q m. ground (arith, gone q m))

    fewer_news : total live u.news ≤ total after u.news
    fewer_news = total_mono live after u.news (λ q m. ground arith)

weight-falls :
    (s₀ : Segments) (g : List ℕ) (Seen : Pairs) (ix : Index) (d k q : ℕ)
    → Under s₀ g Seen ix [] d k
    → q < s₀.next_run
    → weight ix.segments q ≤ weight s₀ q
unfolding mergeable
weight-falls s₀ g Seen ix d k q u old =
    ground (arith, u.old_pinned q old, u.old_gen q old, u.gen_same, ap length (u.old_ids q old))

weight-news : (s : Segments) (l : List ℕ) → total (weight s) l ≤ total (ids_of s) l
weight-news s l = total_mono (weight s) (ids_of s) l (λ q m. ground arith)

smalls-news : (s : Segments) (l : List ℕ) → total (smalls s) l ≤ total (small s) l
smalls-news s l = total_mono (smalls s) (small s) l (λ q m. ground arith)

-- The mergeable runs of a part are all their documents.
pub weight-part :
    (s : Segments) (part : List ℕ)
    → ((q : ℕ) → member q part ≡ true → mergeable s (s.run_at q) ≡ true)
    → total (ids_of s) part ≤ total (weight s) part
weight-part s part m = total_mono (ids_of s) (weight s) part (λ q i. ground (arith, m q i))

-- The weight that a merge leaves.
pub weight-left :
    (s₀ : Segments) (g : List ℕ) (Seen : Pairs) (ix : Index) (d k : ℕ) (part : List ℕ)
    → IsTidy s₀
    → (u : Under s₀ g Seen ix [] d k) → IsPart part s₀.runs
    → ((q : ℕ) → member q part ≡ true → mergeable s₀ (s₀.run_at q) ≡ true)
    → ((q : ℕ) → member q part ≡ true → 0 < live_of ix.segments q → weight ix.segments q ≡ 0)
    → all_weight ix.segments + total (ids_of s₀) part
      ≤ all_weight s₀ + total (ids_of ix.segments) u.news
weight-left s₀ g Seen ix d k part tidy u is_part merge gone = omega (
  arith,
  account s₀ g Seen ix d k part (weight s₀) (weight ix.segments) tidy u is_part
      (λ q old alive. weight-falls s₀ g Seen ix d k q u old) gone,
  weight-part s₀ part merge,
  weight-news ix.segments u.news,
)

smalls-falls :
    (s₀ : Segments) (g : List ℕ) (Seen : Pairs) (ix : Index) (d k q : ℕ)
    → Under s₀ g Seen ix [] d k
    → q < s₀.next_run
    → member q g ≡ false
    → smalls ix.segments q ≤ smalls s₀ q
unfolding mergeable
smalls-falls s₀ g Seen ix d k q u old out =
    ground (
      arith,
      u.old_pinned q old,
      u.old_gen q old,
      u.gen_same,
      ap one_if_small (u.old_live q old out),
    )

-- The small runs that a merge of small runs leaves.
pub smalls-left :
    (s₀ : Segments) (g : List ℕ) (Seen : Pairs) (ix : Index) (d k : ℕ)
    → IsTidy s₀
    → (u : Under s₀ g Seen ix [] d k) → IsPart g s₀.runs
    → ((q : ℕ) → member q g ≡ true → live_of ix.segments q ≡ 0)
    → all_smalls ix.segments + total (smalls s₀) g
      ≤ all_smalls s₀ + total (small ix.segments) u.news
smalls-left s₀ g Seen ix d k tidy u is_part dead = omega (
  arith,
  account s₀ g Seen ix d k g (smalls s₀) (smalls ix.segments) tidy u is_part falls
      (λ q m alive. absurd (omega (arith, alive, dead q m))),
  smalls-news ix.segments u.news,
)
  where
    falls :
        (q : ℕ) → q < s₀.next_run → 0 < live_of ix.segments q → smalls ix.segments q ≤ smalls s₀ q
    falls q old alive = elim (Bool-cases (member q g)) [
      | inl m ↦ absurd (omega (arith, alive, dead q m))
      | inr out ↦ smalls-falls s₀ g Seen ix d k q u old out
    ]
