-- ===== src/Glob.antt =====
-- The matchers of patterns with `*`: `starMatch` of internal/engine/resolve.go, `globMatch` of
-- http_filterpath.go and `simpleMatch` of internal/engine/mapping.go. Texts are lists of bytes.
pub mod Reference
pub mod Star
pub mod Greedy
pub mod First
use osmem.Prelude.Dict.{Comparable}
use osmem.Prelude.{
  ◌↔◌, arith, eqb_iff, ◌≡◌, ℕ, zero, suc, Bool, true, false, ◌&&◌, ◌||◌, Option, none, some, List,
  [], ◌∷◌, if◌then◌else◌, eqb, length,
}

abbrev pub Bytes : Type 0
Bytes = List ℕ

abbrev pub star : ℕ
star = 42

-- strings.IndexByte(p, '*'): the bytes before the first star, and those after it if there is one.
unfoldable pub cut : Bytes → Bytes × Option Bytes
cut [] = ([], none)
cut (c ∷ p) =
    let (before, after) = cut p in if eqb c star then ([], some p) else (c ∷ before, after)

unfoldable pub same_bytes : Bytes → Bytes → Bool
same_bytes [] [] = true
same_bytes [] (d ∷ s) = false
same_bytes (c ∷ p) [] = false
same_bytes (c ∷ p) (d ∷ s) = eqb c d && same_bytes p s

pub same_bytes_iff : (a b : Bytes) → (same_bytes a b ≡ true) ↔ (a ≡ b)
unfolding same_bytes
same_bytes_iff [] [] = ground arith
same_bytes_iff [] (d ∷ b) = ground arith
same_bytes_iff (c ∷ a) [] = ground arith
same_bytes_iff (c ∷ a) (d ∷ b) = ground (arith, same_bytes_iff a b, eqb_iff c d)

instance abbrev pub bytes_keys : Comparable Bytes
bytes_keys = record { is_same = same_bytes; is_same_iff = same_bytes_iff }

-- strings.HasPrefix, with what follows the prefix.
unfoldable pub drop_prefix : Bytes → Bytes → Option Bytes
drop_prefix [] s = some s
drop_prefix (c ∷ p) [] = none
drop_prefix (c ∷ p) (d ∷ s) = let rest = drop_prefix p s in if eqb c d then rest else none

-- The loop over the suffixes of a text, the text itself first.
unfoldable pub any_suffix : (Bytes → Bool) → Bytes → Bool
any_suffix test [] = test []
any_suffix test (c ∷ s) = test (c ∷ s) || any_suffix test s

unfoldable pub has_suffix : Bytes → Bytes → Bool
unfolding any_suffix same_bytes
has_suffix end s = any_suffix (same_bytes end) s

-- for strings.HasPrefix(tail, "*")
unfoldable pub skip_stars : Bytes → Bytes
skip_stars [] = []
skip_stars (c ∷ p) = let later = skip_stars p in if eqb c star then later else c ∷ p

-- A failed search ends in a `return false`.
abbrev pub passes : (Bytes → Bool) → Option Bytes → Bool
passes next none = false
passes next (some rest) = next rest

-- What a matcher says of the rest after a prefix.
abbrev pub after_prefix : Bytes → (Bytes → Bool) → Bytes → Bool
after_prefix part next s = passes next (drop_prefix part s)

-- The loop of `starMatch` over the rest, after the stars of the pattern.
abbrev pub star_tail : (Bytes → Bytes → Bool) → Bytes → Bytes → Bool
star_tail match [] rest = true
star_tail match (c ∷ p) rest = any_suffix (match (c ∷ p)) rest

abbrev pub star_cut : (Bytes → Bytes → Bool) → Bytes → Bytes × Option Bytes → Bytes → Bool
star_cut match p (before, none) s = same_bytes p s
star_cut match p (before, some after) s = after_prefix before (star_tail match (skip_stars after)) s

-- `starMatch`, on fuel for its recursion on shorter patterns.
unfoldable pub star_match_on : ℕ → Bytes → Bytes → Bool
unfolding cut same_bytes drop_prefix any_suffix skip_stars
star_match_on zero p s = false
star_match_on (suc f) p s = star_cut (star_match_on f) p (cut p) s

unfoldable pub star_match : Bytes → Bytes → Bool
unfolding star_match_on
star_match p s = star_match_on (suc (length p)) p s

-- `globMatch` on a pattern that starts with a star; `more` follows the star. The loop tries the
-- occurrences of the part before the next star, from the left.
abbrev pub glob_star : (Bytes → Bytes → Bool) → Bytes → Bytes × Option Bytes → Bytes → Bool
glob_star glob [] pieces s = true
glob_star glob (c ∷ more) (part, none) s = has_suffix part s
glob_star glob (c ∷ more) ([], some later) s = glob (c ∷ more) s
glob_star glob (c ∷ more) (d ∷ part, some later) s =
    any_suffix (after_prefix (d ∷ part) (glob (star ∷ later))) s

-- `globMatch` by what stands before the first star of the pattern p.
abbrev pub glob_cut : (Bytes → Bytes → Bool) → Bytes → Bytes × Option Bytes → Bytes → Bool
glob_cut glob p (before, none) s = same_bytes p s
glob_cut glob p ([], some more) s = glob_star glob more (cut more) s
glob_cut glob p (c ∷ before, some more) s = after_prefix (c ∷ before) (glob (star ∷ more)) s

-- `globMatch`, on fuel for its recursion on shorter patterns.
unfoldable pub glob_match_on : ℕ → Bytes → Bytes → Bool
unfolding cut same_bytes drop_prefix any_suffix has_suffix
glob_match_on zero p s = false
glob_match_on (suc f) p s = glob_cut (glob_match_on f) p (cut p) s

unfoldable pub glob_match : Bytes → Bytes → Bool
unfolding glob_match_on
glob_match p s = glob_match_on (suc (length p)) p s

abbrev pub here_or : Option Bytes → Option Bytes → Option Bytes
here_or none later = later
here_or (some rest) later = some rest

-- strings.Index, with what follows the first occurrence.
unfoldable pub after_first : Bytes → Bytes → Option Bytes
unfolding drop_prefix
after_first part [] = drop_prefix part []
after_first part (c ∷ s) =
    let later = after_first part s in here_or (drop_prefix part (c ∷ s)) later

-- One round of `simpleMatch` on the next part of strings.Split; the last part is a suffix.
abbrev pub simple_part : (Bytes → Bytes → Bool) → Bytes × Option Bytes → Bytes → Bool
simple_part simple (part, none) s = has_suffix part s
simple_part simple (part, some more) s = passes (simple more) (after_first part s)

-- The loop of `simpleMatch` over the parts after the first, on fuel.
unfoldable pub simple_rest : ℕ → Bytes → Bytes → Bool
unfolding cut after_first has_suffix
simple_rest zero p s = false
simple_rest (suc f) p s = simple_part (simple_rest f) (cut p) s

abbrev pub simple_cut : (Bytes → Bytes → Bool) → Bytes → Bytes × Option Bytes → Bytes → Bool
simple_cut simple p (part, none) s = same_bytes p s
simple_cut simple p (part, some more) s = after_prefix part (simple more) s

unfoldable pub simple_match : Bytes → Bytes → Bool
unfolding simple_rest cut drop_prefix
simple_match p s = simple_cut (simple_rest (suc (length p))) p (cut p) s
