-- ===== src/Samples/Globs.antt =====
-- Patterns and texts.
use osmem.Prelude.{[], ◌∷◌, true, ◌≡◌, refl}
use osmem.Glob.{Bytes, star_match, glob_match, simple_match}
use osmem.Glob.Greedy.{matchers-agree}

-- "lo*a*" and "logs-a-1"
abbrev pattern : Bytes
pattern = 108 ∷ 111 ∷ 42 ∷ 97 ∷ 42 ∷ []

abbrev name : Bytes
name = 108 ∷ 111 ∷ 103 ∷ 115 ∷ 45 ∷ 97 ∷ 45 ∷ 49 ∷ []

matchers-agree_example :
    (star_match pattern name ≡ glob_match pattern name)
    × (glob_match pattern name ≡ simple_match pattern name)
matchers-agree_example = matchers-agree pattern name

found : star_match pattern name ≡ true
unfolding star_match
found = refl
