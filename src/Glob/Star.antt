-- ===== src/Glob/Star.antt =====
-- `starMatch` and `globMatch` compute what the pattern means, on the fuel that they are given.
use osmem.Prelude.{
  ℕ, zero, suc, ◌+◌, ◌≤◌, ◌<◌, Bool, Option, none, some, [], ◌∷◌, ◌++◌, ◌≡◌, refl, sym, ap, subst,
  ◌∙◌, arith, eqb, eqb_iff, length, length-append, Bool-cases, inl, inr,
}
use osmem.Glob.{
  Bytes, star, cut, same_bytes, drop_prefix, has_suffix, skip_stars, after_prefix, star_tail,
  star_cut, star_match_on, star_match, glob_star, glob_cut, glob_match_on, glob_match,
}
use osmem.Glob.Reference.{
  matches, matches-cut, by_pieces, any_suffix-ext, after_prefix-ext, matches-two_stars,
  matches-skip_stars, matches-all,
}

-- A cut takes the pattern apart at a star.
abbrev pub Joined : Bytes → Bytes × Option Bytes → Type 0
Joined p (before, none) = before ≡ p
Joined p (before, some after) = before ++ (star ∷ after) ≡ p

Joined-later :
    (c : ℕ) (p : Bytes) (pieces : Bytes × Option Bytes)
    → Joined p pieces
    → Joined (c ∷ p) (c ∷ pieces.0, pieces.1)
Joined-later c p (before, none) e = ap (λ q. c ∷ q) e
Joined-later c p (before, some after) e = ap (λ q. c ∷ q) e

pub cut-Joined : (p : Bytes) → Joined p (cut p)
unfolding cut
cut-Joined [] = refl
cut-Joined (c ∷ p) = elim (Bool-cases (eqb c star)) [
  | inl e ↦ rw e (ap (λ d. d ∷ p) (sym ((eqb_iff c star).0 e)))
  | inr e ↦ rw e (Joined-later c p (cut p) (cut-Joined p))
]

-- The rest after the first star is shorter than the pattern by the bytes before it and the star.
pub Joined-length :
    (p before after : Bytes)
    → before ++ (star ∷ after) ≡ p
    → length p ≡ length before + suc (length after)
Joined-length p before after e =
    subst (λ q. length q ≡ length before + suc (length after)) e
      (length-append before (star ∷ after))

length-skip_stars : (p : Bytes) → length (skip_stars p) ≤ length p
unfolding skip_stars
length-skip_stars [] = omega arith
length-skip_stars (c ∷ p) = ground (arith, length-skip_stars p)

module _ (match : Bytes → Bytes → Bool) (f : ℕ)
    (right : (p s : Bytes) → length p < f → match p s ≡ matches p s) where
  star_tail-matches : (p s : Bytes) → length p < f → star_tail match p s ≡ matches (star ∷ p) s
  unfolding matches
  star_tail-matches [] s lt = sym (matches-all s)
  star_tail-matches (c ∷ p) s lt =
      any_suffix-ext (match (c ∷ p)) (matches (c ∷ p)) s (λ t. right (c ∷ p) t lt)

  star_cut-matches :
      (p : Bytes) (pieces : Bytes × Option Bytes) (s : Bytes)
      → Joined p pieces
      → length p < suc f
      → star_cut match p pieces s ≡ by_pieces p pieces s
  star_cut-matches p (before, none) s joined lt = refl
  star_cut-matches p (before, some after) s joined lt =
      after_prefix-ext before (star_tail match (skip_stars after)) (matches (star ∷ after)) s (λ t.
        star_tail-matches (skip_stars after) t
          (omega (arith, Joined-length p before after joined, lt, length-skip_stars after))
        ∙ matches-skip_stars after t)

pub star_match_on-matches : (f : ℕ) (p s : Bytes) → length p < f → star_match_on f p s ≡ matches p s
unfolding star_match_on
star_match_on-matches zero p s lt = ground arith
star_match_on-matches (suc f) p s lt =
    star_cut-matches (star_match_on f) f (star_match_on-matches f) p (cut p) s (cut-Joined p) lt
    ∙ sym (matches-cut p s)

module _ (glob : Bytes → Bytes → Bool) (f : ℕ)
    (right : (p s : Bytes) → length p < f → glob p s ≡ matches p s) where
  glob_star-matches :
      (more : Bytes) (pieces : Bytes × Option Bytes) (s : Bytes)
      → cut more ≡ pieces
      → Joined more pieces
      → length more < f
      → glob_star glob more pieces s ≡ matches (star ∷ more) s
  unfolding matches has_suffix
  glob_star-matches [] pieces s e joined lt = sym (matches-all s)
  glob_star-matches (c ∷ more) (part, none) s e joined lt =
      any_suffix-ext (same_bytes part) (matches (c ∷ more)) s (λ t.
        ap (λ q. same_bytes q t) joined
        ∙ sym (matches-cut (c ∷ more) t ∙ ap (λ x. by_pieces (c ∷ more) x t) e))
  glob_star-matches (c ∷ more) ([], some later) s e joined lt =
      right (c ∷ more) s lt
      ∙ ap (λ q. matches q s) (sym joined)
      ∙ sym (matches-two_stars later s)
      ∙ ap (λ q. matches (star ∷ q) s) joined
  glob_star-matches (c ∷ more) (d ∷ part, some later) s e joined lt =
      any_suffix-ext (after_prefix (d ∷ part) (glob (star ∷ later))) (matches (c ∷ more)) s (λ t.
        after_prefix-ext (d ∷ part) (glob (star ∷ later)) (matches (star ∷ later)) t (λ r.
          right (star ∷ later) r
            (omega (arith, lt, Joined-length (c ∷ more) (d ∷ part) later joined)))
        ∙ sym (matches-cut (c ∷ more) t ∙ ap (λ x. by_pieces (c ∷ more) x t) e))

  glob_cut-matches :
      (p : Bytes) (pieces : Bytes × Option Bytes) (s : Bytes)
      → Joined p pieces
      → length p < suc f
      → glob_cut glob p pieces s ≡ by_pieces p pieces s
  unfolding drop_prefix
  glob_cut-matches p (before, none) s joined lt = refl
  glob_cut-matches p ([], some more) s joined lt =
      glob_star-matches more (cut more) s refl (cut-Joined more)
        (omega (arith, lt, Joined-length p [] more joined))
  glob_cut-matches p (c ∷ before, some more) s joined lt =
      after_prefix-ext (c ∷ before) (glob (star ∷ more)) (matches (star ∷ more)) s
        (λ t. right (star ∷ more) t (omega (arith, lt, Joined-length p (c ∷ before) more joined)))

pub glob_match_on-matches : (f : ℕ) (p s : Bytes) → length p < f → glob_match_on f p s ≡ matches p s
unfolding glob_match_on
glob_match_on-matches zero p s lt = ground arith
glob_match_on-matches (suc f) p s lt =
    glob_cut-matches (glob_match_on f) f (glob_match_on-matches f) p (cut p) s (cut-Joined p) lt
    ∙ sym (matches-cut p s)

pub star_match-matches : (p s : Bytes) → star_match p s ≡ matches p s
unfolding star_match
star_match-matches p s = star_match_on-matches (suc (length p)) p s (omega arith)

pub glob_match-matches : (p s : Bytes) → glob_match p s ≡ matches p s
unfolding glob_match
glob_match-matches p s = glob_match_on-matches (suc (length p)) p s (omega arith)
