-- ===== src/Glob/Greedy.antt =====
-- `simpleMatch`, which never goes back to an earlier part, agrees with the other two.
use osmem.Prelude.{
  ℕ, zero, suc, ◌<◌, Bool, Option, none, some, ◌∷◌, ◌≡◌, refl, sym, ap, ◌∙◌, arith, length,
}
use osmem.Glob.{
  Bytes, passes, star, cut, same_bytes, any_suffix, has_suffix, after_prefix, after_first,
  simple_part, simple_rest, simple_cut, simple_match, star_match, glob_match,
}
use osmem.Glob.Reference.{matches, matches-cut, by_pieces, any_suffix-ext, after_prefix-ext}
use osmem.Glob.Star.{Joined, cut-Joined, Joined-length, star_match-matches, glob_match-matches}
use osmem.Glob.First.{Upward, after_first-any}

-- A star takes one byte more.
star-Upward : (p : Bytes) → Upward (matches (star ∷ p))
unfolding matches any_suffix
star-Upward p d s e = ground (arith, e)

module _ (simple : Bytes → Bytes → Bool) (f : ℕ)
    (right : (p s : Bytes) → length p < f → simple p s ≡ matches (star ∷ p) s) where
  simple_part-matches :
      (p : Bytes) (pieces : Bytes × Option Bytes) (s : Bytes)
      → cut p ≡ pieces
      → Joined p pieces
      → length p < suc f
      → simple_part simple pieces s ≡ matches (star ∷ p) s
  unfolding matches has_suffix
  simple_part-matches p (part, none) s e joined lt =
      any_suffix-ext (same_bytes part) (matches p) s
        (λ t. ap (λ q. same_bytes q t) joined ∙ sym (matches-cut p t ∙ ap (λ x. by_pieces p x t) e))
  simple_part-matches p (part, some more) s e joined lt =
      after_rest (after_first part s)
      ∙ after_first-any (matches (star ∷ more)) (star-Upward more) part s
      ∙ any_suffix-ext (after_prefix part (matches (star ∷ more))) (matches p) s
          (λ t. sym (matches-cut p t ∙ ap (λ x. by_pieces p x t) e))
    where
      after_rest : (o : Option Bytes) → passes (simple more) o ≡ passes (matches (star ∷ more)) o
      after_rest none = refl
      after_rest (some rest) = right more rest (omega (arith, lt, Joined-length p part more joined))

simple_rest-matches :
    (f : ℕ) (p s : Bytes) → length p < f → simple_rest f p s ≡ matches (star ∷ p) s
unfolding simple_rest
simple_rest-matches zero p s lt = ground arith
simple_rest-matches (suc f) p s lt =
    simple_part-matches (simple_rest f) f (simple_rest-matches f) p (cut p) s refl (cut-Joined p) lt

simple_cut-matches :
    (p : Bytes) (pieces : Bytes × Option Bytes) (s : Bytes)
    → Joined p pieces
    → simple_cut (simple_rest (suc (length p))) p pieces s ≡ by_pieces p pieces s
simple_cut-matches p (before, none) s joined = refl
simple_cut-matches p (before, some more) s joined =
    after_prefix-ext before (simple_rest (suc (length p)) more) (matches (star ∷ more)) s (λ t.
      simple_rest-matches (suc (length p)) more t
        (omega (arith, Joined-length p before more joined)))

-- `simpleMatch`, which takes the first occurrence of each part and never goes back, gives what the
-- pattern means.
pub simple_match-matches : (p s : Bytes) → simple_match p s ≡ matches p s
unfolding simple_match
simple_match-matches p s = simple_cut-matches p (cut p) s (cut-Joined p) ∙ sym (matches-cut p s)

-- `starMatch`, `globMatch` and `simpleMatch` give the same answer on every pattern and text.
pub matchers-agree :
    (p s : Bytes) → (star_match p s ≡ glob_match p s) × (glob_match p s ≡ simple_match p s)
matchers-agree p s = (
  star_match-matches p s ∙ sym (glob_match-matches p s),
  glob_match-matches p s ∙ sym (simple_match-matches p s),
)
