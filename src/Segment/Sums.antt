-- ===== src/Segment/Sums.antt =====
-- Sums over lists of runs, and over the runs that a group takes from them (segments.go).
use osmem.Prelude.{
  ℕ, suc, Bool-cases, inl, inr, ap, ◌+◌, ◌≤◌, ◌<◌, true, List, [], ◌∷◌, ◌++◌, ◌≡◌, refl, arith, eqb,
  eqb_iff, All, if◌then◌else◌, length, ◌⊎◌,
}
use osmem.Prelude.Dict.{nat_keys, member}
use osmem.Segment.{Segments, class_runs, mergeable, size_class}

abbrev pub total : (ℕ → ℕ) → List ℕ → ℕ
total f [] = 0
total f (q ∷ qs) = f q + total f qs

pub total-append : (f : ℕ → ℕ) (a b : List ℕ) → total f (a ++ b) ≡ total f a + total f b
total-append f [] b = omega arith
total-append f (q ∷ a) b = omega (arith, total-append f a b)

pub total_mono :
    (f h : ℕ → ℕ) (l : List ℕ) → ((q : ℕ) → member q l ≡ true → f q ≤ h q) → total f l ≤ total h l
unfolding member
total_mono f h [] le = omega arith
total_mono f h (q ∷ l) le =
    omega (
      arith,
      le q (ground (arith, eqb_iff q q)),
      total_mono f h l (λ p m. le p (ground (arith, m))),
    )

-- The group is taken from the list: what falls over the group falls over the list.
abbrev pub IsPart : List ℕ → List ℕ → Type 0
IsPart g l = (f h : ℕ → ℕ) → ((q : ℕ) → h q ≤ f q) → total h l + total f g ≤ total f l + total h g

pub one-IsPart : (r : ℕ) (l : List ℕ) → member r l ≡ true → IsPart (r ∷ []) l
unfolding member
one-IsPart r [] m f h le = absurd (cc)
one-IsPart r (q ∷ l) m f h le = elim (Bool-cases (eqb q r)) [
  | inl e ↦
      omega
        (arith, total_mono h f l (λ p i. le p), ap f ((eqb_iff q r).0 e), ap h ((eqb_iff q r).0 e))
  | inr e ↦ omega (arith, le q, one-IsPart r l (ground (arith, m, e)) f h le)
]

pub class_runs-IsPart : (s : Segments) (c : ℕ) (l : List ℕ) → IsPart (class_runs s c l) l
unfolding class_runs
class_runs-IsPart s c [] f h le = omega arith
class_runs-IsPart s c (r ∷ l) f h le = ground (arith, le r, class_runs-IsPart s c l f h le)

pub All-below : (base p : ℕ) (l : List ℕ) → All (λ q. q < base) l → member p l ≡ true → p < base
unfolding member
All-below base p [] below m = absurd (cc)
All-below base p (q ∷ l) below m = ground (arith, eqb_iff q p, below.0, All-below base p l below.1)

-- One member of the list loses one.
pub total-less :
    (f h : ℕ → ℕ) (p base : ℕ) (l : List ℕ)
    → All (λ q. q < base) l
    → member p l ≡ true
    → ((q : ℕ) → q < base → h q + (if eqb p q then 1 else 0) ≡ f q)
    → suc (total h l) ≤ total f l
unfolding member
total-less f h p base [] below m step = absurd (cc)
total-less f h p base (q ∷ l) below m step = elim (Bool-cases (eqb q p)) [
  | inl e ↦ ground (
    arith,
    e,
    step q below.0,
    eqb_iff q p,
    eqb_iff p q,
    total_mono h f l (λ x i. lower x (All-below base x l below.1 i)),
  )
  | inr e ↦ ground (
    arith,
    e,
    step q below.0,
    lower q below.0,
    total-less f h p base l below.1 (ground (arith, m, e)) step,
  )
]
  where
    lower : (x : ℕ) → x < base → h x ≤ f x
    lower x b = ground (arith, step x b)

pub total-zero : (f : ℕ → ℕ) (l : List ℕ) → ((q : ℕ) → member q l ≡ true → f q ≡ 0) → total f l ≡ 0
unfolding member
total-zero f [] z = refl
total-zero f (q ∷ l) z =
    omega
      (arith, z q (ground (arith, eqb_iff q q)), total-zero f l (λ p m. z p (ground (arith, m))))

-- The first of two parts is a part.
pub IsPart-first : (a b l : List ℕ) → IsPart (a ++ b) l → IsPart a l
IsPart-first a b l p f h le =
    omega (arith, p f h le, total-append f a b, total-append h a b, total_mono h f b (λ q m. le q))

-- What the runs of a class have in common.
pub class_runs-member :
    (s : Segments) (c q : ℕ) (l : List ℕ)
    → member q (class_runs s c l) ≡ true
    → (member q l ≡ true) × (mergeable s (s.run_at q) ≡ true) × (size_class (s.run_at q).live ≡ c)
unfolding class_runs member
class_runs-member s c q [] m = absurd (cc m)
class_runs-member s c q (r ∷ l) m = ground (
  arith,
  m,
  eqb_iff r q,
  eqb_iff (size_class (s.run_at r).live) c,
  ap (λ x. mergeable s (s.run_at x)) {x = r} {y = q},
  ap (λ x. size_class (s.run_at x).live) {x = r} {y = q},
  class_runs-member s c q l,
)

pub member-last :
    (q : ℕ) (l : List ℕ) (r : ℕ) → member q (l ++ (r ∷ [])) ≡ true → (member q l ≡ true) ⊎ (q ≡ r)
unfolding member
member-last q [] r m = ground (arith, m, eqb_iff r q)
member-last q (x ∷ l) r m = ground (arith, m, member-last q l r)

pub member-first : (q : ℕ) (a b : List ℕ) → member q a ≡ true → member q (a ++ b) ≡ true
unfolding member
member-first q [] b m = absurd (cc m)
member-first q (x ∷ a) b m = ground (arith, m, member-first q a b)

pub All-members : (P : ℕ → Type 0) (l : List ℕ) → ((q : ℕ) → member q l ≡ true → P q) → All P l
unfolding member
All-members P [] h = tt
All-members P (q ∷ l) h =
    (h q (ground (arith, eqb_iff q q)), All-members P l (λ x m. h x (ground (arith, m))))

pub total-ones :
    (f : ℕ → ℕ) (l : List ℕ) → ((q : ℕ) → member q l ≡ true → f q ≡ 1) → total f l ≡ length l
unfolding member
total-ones f [] one = refl
total-ones f (q ∷ l) one =
    omega (
      arith,
      one q (ground (arith, eqb_iff q q)),
      total-ones f l (λ p m. one p (ground (arith, m))),
    )
