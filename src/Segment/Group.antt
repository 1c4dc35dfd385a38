-- ===== src/Segment/Group.antt =====
-- Which runs are merged next (segments.go, `runsToMerge` and `sizeClass`).
use osmem.Prelude.{
  ℕ, suc, ◌+◌, ◌*◌, ◌≤◌, ◌<◌, true, false, some, List, [], ◌∷◌, ◌≡◌, sym, ◌∙◌, subst, inl, inr,
  Bool-cases, arith, ltb, leb, leb→le, ltb→lt, eqb_iff, length,
}
use osmem.Prelude.Dict.{nat_keys, member}
use osmem.Segment.{
  Segments, ClassCounts, mergeable, size_class, class_runs, bump, find_group, runs_to_merge,
}

abbrev pub run_live : Segments → ℕ → ℕ
run_live s r = (s.run_at r).live

-- The mergeable run is large, and its batch indexed more than twice what it still holds.
abbrev pub IsObsolete : Segments → ℕ → Type 0
IsObsolete s r =
    (mergeable s (s.run_at r) ≡ true)
    × (3 ≤ size_class (run_live s r))
    × (2 * run_live s r < length (s.run_at r).ids)

-- What a group is: one obsolete run, or all mergeable runs of a class that has ten of them.
pub data Group (s : Segments) : List ℕ → Type 0 where
  large : (r : ℕ) → member r s.runs ≡ true → IsObsolete s r → Group s (r ∷ [])
  full : (c : ℕ) → c < 3 → 10 ≤ length (class_runs s c s.runs) → Group s (class_runs s c s.runs)

member-cons : (q r : ℕ) (rs : List ℕ) → member q rs ≡ true → member q (r ∷ rs) ≡ true
unfolding member
member-cons q r rs m = ground arith

member-head : (r : ℕ) (rs : List ℕ) → member r (r ∷ rs) ≡ true
unfolding member
member-head r rs = ground (arith, eqb_iff r r)

-- What stays unseen when the loop has come to `rest`.
abbrev Seen : Segments → ClassCounts → List ℕ → Type 0
Seen s counts rest =
    (c : ℕ) → c < 3 → counts c + length (class_runs s c rest) ≤ length (class_runs s c s.runs)

-- The ways of a round of the loop.
pub data Way (s : Segments) (counts : ClassCounts) (r : ℕ) (rest : List ℕ) : Type 0 where
  passed :
      mergeable s (s.run_at r) ≡ false
      → find_group s counts (r ∷ rest) ≡ find_group s counts rest
      → Way s counts r rest
  obsolete : IsObsolete s r → find_group s counts (r ∷ rest) ≡ some (r ∷ []) → Way s counts r rest
  compact :
      3 ≤ size_class (run_live s r)
      → length (s.run_at r).ids ≤ 2 * run_live s r
      → find_group s counts (r ∷ rest) ≡ find_group s counts rest
      → Way s counts r rest
  counted :
      mergeable s (s.run_at r) ≡ true
      → size_class (run_live s r) < 3
      → suc (counts (size_class (run_live s r))) < 10
      → find_group s counts (r ∷ rest) ≡ find_group s (bump counts (size_class (run_live s r))) rest
      → Way s counts r rest
  reached :
      mergeable s (s.run_at r) ≡ true
      → size_class (run_live s r) < 3
      → 10 ≤ suc (counts (size_class (run_live s r)))
      → find_group s counts (r ∷ rest) ≡ some (class_runs s (size_class (run_live s r)) s.runs)
      → Way s counts r rest

pub way : (s : Segments) (counts : ClassCounts) (r : ℕ) (rest : List ℕ) → Way s counts r rest
unfolding find_group
way s counts r rest = elim (Bool-cases (mergeable s (s.run_at r))) [
  | inr m ↦ passed m (rw m)
  | inl m ↦ elim (Bool-cases (leb 3 (size_class (run_live s r)))) [
    | inl l ↦ elim (Bool-cases (ltb (2 * run_live s r) (length (s.run_at r).ids))) [
      | inl o ↦ obsolete (m, leb→le _ _ l, ltb→lt _ _ o) (rw (m, l, o))
      | inr o ↦ compact (leb→le _ _ l) (ground arith) (rw (m, l, o))
    ]
    | inr l ↦ elim (Bool-cases (ltb (suc (counts (size_class (run_live s r)))) 10)) [
      | inl o ↦ counted m (ground arith) (ltb→lt _ _ o) (rw (m, l, o))
      | inr o ↦ reached m (ground arith) (ground arith) (rw (m, l, o))
    ]
  ]
]

class_runs-skip :
    (s : Segments) (c r : ℕ) (rest : List ℕ)
    → length (class_runs s c rest) ≤ length (class_runs s c (r ∷ rest))
unfolding class_runs
class_runs-skip s c r rest = ground arith

pub class_runs-counted :
    (s : Segments) (counts : ClassCounts) (c r : ℕ) (rest : List ℕ)
    → mergeable s (s.run_at r) ≡ true
    → counts c + length (class_runs s c (r ∷ rest))
      ≡ bump counts (size_class (run_live s r)) c + length (class_runs s c rest)
unfolding class_runs bump
class_runs-counted s counts c r rest m = ground arith

class_runs-first :
    (s : Segments) (r : ℕ) (rest : List ℕ)
    → mergeable s (s.run_at r) ≡ true
    → 0 < length (class_runs s (size_class (run_live s r)) (r ∷ rest))
unfolding class_runs
class_runs-first s r rest m = ground arith

same_group : {g h : List ℕ} → some g ≡ some h → g ≡ h
same_group e = cc

find_group-Group :
    (s : Segments) (counts : ClassCounts) (rest g : List ℕ)
    → Seen s counts rest
    → ((r : ℕ) → member r rest ≡ true → member r s.runs ≡ true)
    → find_group s counts rest ≡ some g
    → Group s g
find_group-Group s counts [] g seen listed h = unfold find_group in cc
find_group-Group s counts (r ∷ rest) g seen listed h = elim (way s counts r rest) [
  | passed m e ↦ find_group-Group s counts rest g less later (sym e ∙ h)
  | obsolete o e ↦ subst (Group s) (same_group (sym e ∙ h)) (large r first o)
  | compact l o e ↦ find_group-Group s counts rest g less later (sym e ∙ h)
  | counted m l o e ↦
      find_group-Group s (bump counts (size_class (run_live s r))) rest g
        (λ c small. omega (arith, seen c small, class_runs-counted s counts c r rest m)) later
        (sym e ∙ h)
  | reached m l o e ↦ subst (Group s) (same_group (sym e ∙ h)) (
      full (size_class (run_live s r)) l
        (omega (arith, seen (size_class (run_live s r)) l, class_runs-first s r rest m)))
]
  where
    less : Seen s counts rest
    less c small = omega (arith, seen c small, class_runs-skip s c r rest)

    later : (q : ℕ) → member q rest ≡ true → member q s.runs ≡ true
    later q m = listed q (member-cons q r rest m)

    first : member r s.runs ≡ true
    first = listed r (member-head r rest)

-- A group that `runsToMerge` returns is one obsolete large run, or all the mergeable runs of a size
-- class that holds ten of them or more.
pub runs_to_merge-Group : (s : Segments) {g : List ℕ} → runs_to_merge s ≡ some g → Group s g
unfolding runs_to_merge
runs_to_merge-Group s {g} h =
    find_group-Group s (λ c. 0) s.runs g (λ c small. omega arith) (λ r m. m) h
