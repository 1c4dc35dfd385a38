-- ===== src/Glob/Reference.antt =====
-- What a pattern means: a star stands for any run of bytes, every other byte for itself.
use osmem.Prelude.{
  ℕ, Bool, true, false, ◌&&◌, Option, none, some, [], ◌∷◌, ◌≡◌, refl, sym, ap, subst, ◌∙◌, arith,
  if◌then◌else◌, eqb, eqb_iff, Bool-cases, inl, inr,
}
use osmem.Glob.{
  Bytes, passes, star, cut, same_bytes, drop_prefix, any_suffix, skip_stars, after_prefix,
}

-- The text starts with the byte, and the test holds of the rest.
abbrev pub starts : ℕ → (Bytes → Bool) → Bytes → Bool
starts c test [] = false
starts c test (d ∷ s) = eqb c d && test s

unfoldable pub matches : Bytes → Bytes → Bool
unfolding any_suffix
matches [] [] = true
matches [] (d ∷ s) = false
matches (c ∷ p) s = if eqb c star then any_suffix (matches p) s else starts c (matches p) s

pub any_suffix-ext :
    (f g : Bytes → Bool) (s : Bytes) → ((t : Bytes) → f t ≡ g t) → any_suffix f s ≡ any_suffix g s
unfolding any_suffix
any_suffix-ext f g [] e = e []
any_suffix-ext f g (c ∷ s) e = ground (arith, e (c ∷ s), any_suffix-ext f g s e)

-- A pattern is its bytes before the first star, and from the star on.
abbrev pub by_pieces : Bytes → Bytes × Option Bytes → Bytes → Bool
by_pieces p (before, none) s = same_bytes p s
by_pieces p (before, some after) s = after_prefix before (matches (star ∷ after)) s

guarded :
    (b : Bool) (rest : Option Bytes) (test : Bytes → Bool)
    → passes test (if b then rest else none) ≡ (b && passes test rest)
guarded true rest test = refl
guarded false rest test = refl

pub after_prefix-cons :
    (c : ℕ) (part : Bytes) (test : Bytes → Bool) (d : ℕ) (s : Bytes)
    → after_prefix (c ∷ part) test (d ∷ s) ≡ (eqb c d && after_prefix part test s)
unfolding drop_prefix
after_prefix-cons c part test d s = guarded (eqb c d) (drop_prefix part s) test

-- The same with one more byte in front, by what the cut of the rest is.
by_pieces-later :
    (c : ℕ) (p : Bytes) (pieces : Bytes × Option Bytes)
    → ((s : Bytes) → matches p s ≡ by_pieces p pieces s)
    → (s : Bytes) → starts c (matches p) s ≡ by_pieces (c ∷ p) (c ∷ pieces.0, pieces.1) s
unfolding same_bytes drop_prefix
by_pieces-later c p (before, none) later [] = refl
by_pieces-later c p (before, none) later (d ∷ s) = ap (λ b. eqb c d && b) (later s)
by_pieces-later c p (before, some after) later [] = refl
by_pieces-later c p (before, some after) later (d ∷ s) =
    ap (λ b. eqb c d && b) (later s) ∙ sym (after_prefix-cons c before (matches (star ∷ after)) d s)

pub matches-cut : (p s : Bytes) → matches p s ≡ by_pieces p (cut p) s
unfolding matches cut same_bytes drop_prefix
matches-cut [] [] = refl
matches-cut [] (d ∷ s) = refl
matches-cut (c ∷ p) s = elim (Bool-cases (eqb c star)) [
  | inl e ↦
      subst (λ d. matches (d ∷ p) s ≡ by_pieces (d ∷ p) (cut (d ∷ p)) s)
        (sym ((eqb_iff c star).0 e)) refl
  | inr e ↦ rw e (by_pieces-later c p (cut p) (matches-cut p) s)
]

pub matches-two_stars : (p s : Bytes) → matches (star ∷ star ∷ p) s ≡ matches (star ∷ p) s
unfolding matches any_suffix
matches-two_stars p [] = refl
matches-two_stars p (d ∷ s) = ground (arith, matches-two_stars p s)

pub matches-skip_stars : (p s : Bytes) → matches (star ∷ skip_stars p) s ≡ matches (star ∷ p) s
unfolding skip_stars
matches-skip_stars [] s = refl
matches-skip_stars (c ∷ p) s = elim (Bool-cases (eqb c star)) [
  | inl e ↦ rw (e, (eqb_iff c star).0 e) (matches-skip_stars p s ∙ sym (matches-two_stars p s))
  | inr e ↦ rw e refl
]

pub matches-all : (s : Bytes) → matches (star ∷ []) s ≡ true
unfolding matches any_suffix
matches-all [] = refl
matches-all (d ∷ s) = ground (arith, matches-all s)

pub after_prefix-ext :
    (part : Bytes) (f g : Bytes → Bool) (s : Bytes)
    → ((t : Bytes) → f t ≡ g t)
    → after_prefix part f s ≡ after_prefix part g s
after_prefix-ext part f g s e = after_option (drop_prefix part s)
  where
    after_option : (o : Option Bytes) → passes f o ≡ passes g o
    after_option none = refl
    after_option (some t) = e t
