-- ===== src/Cluster/Sums.antt =====
-- How many references the clusters and their points in time hold on an index (cluster.go).
use osmem.Prelude.{
  ℕ, zero, suc, ◌+◌, ◌-◌, ◌≤◌, ◌<◌, String, true, false, Option, none, some, List, [], ◌∷◌, ◌≡◌,
  refl, sym, ap, inl, inr, Bool-cases, arith, if◌then◌else◌, eqb, eqb_iff,
}
use osmem.Prelude.Dict.{Dict, string_keys, lookup, insert, remove}
use osmem.Prelude.Distinct.{Distinct, holders, remove-absent}
use osmem.Cluster.{
  Pit, has_target, drop_context, drop_pit_contexts, Counts, Cluster, put_at, retain, release,
  retain_all, release_all, release_pits, handles,
}
use osmem.Index.{Index}
use text.Mathlib.TextEquality.{eq_iff}

unfoldable pub occurrences : ℕ → List ℕ → ℕ
occurrences h [] = 0
occurrences h (r ∷ rs) = (if eqb r h then 1 else 0) + occurrences h rs

unfoldable pub pit_holds : ℕ → Dict String Pit → ℕ
unfolding occurrences
pit_holds h [] = 0
pit_holds h (pit ∷ pits) = occurrences h pit.1.targets + pit_holds h pits

abbrev pub held : ℕ → Cluster → ℕ
held h k = holders h k.indices + pit_holds h k.pits

unfoldable pub total : ℕ → (ℕ → Cluster) → ℕ → ℕ
total h cl zero = 0
total h cl (suc n) = held h (cl n) + total h cl n

pub retain_all-refs :
    (s : Counts) (hs : List ℕ) (h : ℕ) → (retain_all s hs).refs h ≡ s.refs h + occurrences h hs
unfolding retain_all occurrences
retain_all-refs s [] h = omega arith
retain_all-refs s (r ∷ rs) h = ground (arith, retain_all-refs (retain s r) rs h, eqb_iff r h)

pub release_all-refs :
    (s : Counts) (hs : List ℕ) (h : ℕ) → (release_all s hs).refs h ≡ s.refs h - occurrences h hs
unfolding release_all occurrences
release_all-refs s [] h = omega arith
release_all-refs s (r ∷ rs) h = ground (arith, release_all-refs (release s r) rs h, eqb_iff r h)

pub release_pits-refs :
    (s : Counts) (pits : Dict String Pit) (h : ℕ)
    → (release_pits s pits).refs h ≡ s.refs h - pit_holds h pits
unfolding release_pits pit_holds
release_pits-refs s [] h = omega arith
release_pits-refs s (pit ∷ pits) h = omega (
  arith,
  release_pits-refs (release_all s pit.1.targets) pits h,
  release_all-refs s pit.1.targets h,
)

pub occurrences-handles : (h : ℕ) (m : Dict String ℕ) → occurrences h (handles m) ≡ holders h m
unfolding occurrences handles holders
occurrences-handles h [] = refl
occurrences-handles h (entry ∷ m) = ground (arith, occurrences-handles h m)

pub total-beyond :
    (h : ℕ) (cl : ℕ → Cluster) (c : ℕ) (k : Cluster) (n : ℕ)
    → n ≤ c
    → total h (put_at cl c k) n ≡ total h cl n
unfolding total put_at
total-beyond h cl c k zero le = refl
total-beyond h cl c k (suc n) le = ground (arith, total-beyond h cl c k n, eqb_iff c n)

same_place : (c : ℕ) → eqb c c ≡ true
same_place c = ground (arith, eqb_iff c c)

before : (c n : ℕ) → c < suc n → eqb c n ≡ false → c < n
before c n lt b = ground (arith, eqb_iff c n)

pub held-put :
    (h : ℕ) (cl : ℕ → Cluster) (c : ℕ) (k : Cluster) → held h (put_at cl c k c) ≡ held h k
unfolding put_at
held-put h cl c k = rw (same_place c) refl

not_before : (c n : ℕ) → eqb c n ≡ true → n ≤ c
not_before c n b = ground (arith, eqb_iff c n)

put-here :
    (h : ℕ) (cl : ℕ → Cluster) (c : ℕ) (k : Cluster) (n : ℕ)
    → eqb c n ≡ true
    → (held h (put_at cl c k n) ≡ held h k) × (held h (cl n) ≡ held h (cl c))
unfolding put_at
put-here h cl c k n b = (rw b refl, ap (λ i. held h (cl i)) (sym ((eqb_iff c n).0 b)))

put-there :
    (h : ℕ) (cl : ℕ → Cluster) (c : ℕ) (k : Cluster) (n : ℕ)
    → eqb c n ≡ false
    → held h (put_at cl c k n) ≡ held h (cl n)
unfolding put_at
put-there h cl c k n b = rw b refl

pub total-put :
    (h : ℕ) (cl : ℕ → Cluster) (c : ℕ) (k : Cluster) (n : ℕ)
    → c < n
    → total h (put_at cl c k) n + held h (cl c) ≡ total h cl n + held h k
unfolding total put_at
total-put h cl c k zero lt = absurd (omega arith)
total-put h cl c k (suc n) lt = elim (Bool-cases (eqb c n)) [
  | inl b ↦
      let (here, old) = put-here h cl c k n b in
      omega (arith, here, old, total-beyond h cl c k n (not_before c n b))
  | inr b ↦ omega (arith, put-there h cl c k n b, total-put h cl c k n (before c n lt b))
]

pub held-le-total : (h : ℕ) (cl : ℕ → Cluster) (c n : ℕ) → c < n → held h (cl c) ≤ total h cl n
unfolding total
held-le-total h cl c zero lt = absurd (omega arith)
held-le-total h cl c (suc n) lt = elim (Bool-cases (eqb c n)) [
  | inl b ↦ omega (arith, ap (λ i. held h (cl i)) ((eqb_iff c n).0 b))
  | inr b ↦ omega (arith, held-le-total h cl c n (before c n lt b))
]

pub pit_holds-insert :
    (h : ℕ) (id : String) (p : Pit) (pits : Dict String Pit)
    → lookup id pits ≡ none
    → pit_holds h (insert id p pits) ≡ occurrences h p.targets + pit_holds h pits
unfolding pit_holds insert lookup
pit_holds-insert h id p [] e = refl
pit_holds-insert h id p (pit ∷ pits) e = ground (arith, pit_holds-insert h id p pits)

abbrev pub pinned : ℕ → Option Pit → ℕ
pinned h none = 0
pinned h (some pit) = occurrences h pit.targets

pub pit_holds-remove :
    (h : ℕ) (id : String) (pits : Dict String Pit)
    → Distinct pits
    → pit_holds h (remove id pits) + pinned h (lookup id pits) ≡ pit_holds h pits
unfolding pit_holds remove lookup
pit_holds-remove h id [] d = refl
pit_holds-remove h id (pit ∷ pits) d =
    ground (arith, pit_holds-remove h id pits d.1, remove-absent id pits, eq_iff pit.0 id)

-- A deletion marks the points in time and leaves their references.
drop_context-targets :
    (at : ℕ → Index) (name : String) (pit : Pit) → (drop_context at name pit).targets ≡ pit.targets
unfolding drop_context
drop_context-targets at name pit = elim (Bool-cases (has_target at name pit.targets)) [
  | inl b ↦ rw b refl
  | inr b ↦ rw b refl
]

pub pit_holds-drop :
    (h : ℕ) (at : ℕ → Index) (name : String) (pits : Dict String Pit)
    → pit_holds h (drop_pit_contexts at name pits) ≡ pit_holds h pits
unfolding pit_holds drop_pit_contexts
pit_holds-drop h at name [] = refl
pit_holds-drop h at name (pit ∷ pits) =
    omega (
      arith,
      ap (occurrences h) (drop_context-targets at name pit.1),
      pit_holds-drop h at name pits,
    )

absent-drop :
    (at : ℕ → Index) (name id : String) (pits : Dict String Pit)
    → lookup id pits ≡ none
    → lookup id (drop_pit_contexts at name pits) ≡ none
unfolding lookup drop_pit_contexts
absent-drop at name id [] e = refl
absent-drop at name id (pit ∷ pits) e = ground (arith, absent-drop at name id pits, e)

pub Distinct-drop :
    (at : ℕ → Index) (name : String) (pits : Dict String Pit)
    → Distinct pits
    → Distinct (drop_pit_contexts at name pits)
unfolding drop_pit_contexts
Distinct-drop at name [] d = tt
Distinct-drop at name (pit ∷ pits) d =
    (absent-drop at name pit.0 pits d.0, Distinct-drop at name pits d.1)
