-- ===== src/FilterPath/Covers.antt =====
-- `evaluateFilterPath` follows the filters (http_filterpath.go).
use osmem.Prelude.{
  Bool, true, false, ◌&&◌, ◌||◌, List, [], ◌∷◌, ◌++◌, ◌≡◌, refl, sym, ap, ◌∙◌, arith, if◌then◌else◌,
}
use osmem.Glob.{Bytes}
use osmem.FilterPath.{
  Cursor, any_level, segment_fits, Verdict, goes_on, matched, evaluate_cursor, evaluate_from,
  evaluate,
}

-- A filter covers a path of names: it fits the names from the first on, and may end before them.
unfoldable pub covers : Cursor → List Bytes → Bool
unfolding segment_fits
covers [] names = false
covers (seg ∷ path) [] = false
covers (seg ∷ []) (name ∷ names) = segment_fits seg name
covers (seg ∷ later ∷ path) (name ∷ names) =
    segment_fits seg name
    && (any_level seg && covers (seg ∷ later ∷ path) names || covers (later ∷ path) names)

unfoldable pub any_covers : List Cursor → List Bytes → Bool
unfolding covers
any_covers [] names = false
any_covers (c ∷ cursors) names = covers c names || any_covers cursors names

-- What a verdict on a name says of the paths below it.
abbrev pub covers_below : Verdict → List Bytes → Bool
covers_below matched names = true
covers_below (goes_on next) names = any_covers next names

any_covers-append :
    (a b : List Cursor) (names : List Bytes)
    → any_covers (a ++ b) names ≡ (any_covers a names || any_covers b names)
unfolding any_covers
any_covers-append [] b names = refl
any_covers-append (c ∷ a) b names = ground (arith, any_covers-append a b names)

or-false : (b : Bool) → b ≡ (b || false)
or-false true = refl
or-false false = refl

or-join : (a b c : Bool) → (a || (b || (c || false))) ≡ (a || (b || c))
or-join true b c = refl
or-join false true c = refl
or-join false false c = sym (or-false c)

two_paths :
    (any : Bool) (next : List Cursor) (a b : Cursor) (names : List Bytes)
    → covers_below
        (if any then goes_on (next ++ (a ∷ b ∷ [])) else goes_on (next ++ (b ∷ [])))
        names
      ≡ (any_covers next names || (any && covers a names || covers b names))
unfolding any_covers
two_paths true next a b names =
    any_covers-append next (a ∷ b ∷ []) names
    ∙ or-join (any_covers next names) (covers a names) (covers b names)
two_paths false next a b names =
    any_covers-append next (b ∷ []) names
    ∙ ap (λ x. any_covers next names || x) (sym (or-false (covers b names)))

covers-more :
    (seg later : Bytes) (path : Cursor) (name : Bytes) (names : List Bytes)
    → covers (seg ∷ later ∷ path) (name ∷ names) ≡ (
        segment_fits seg name
        && (any_level seg && covers (seg ∷ later ∷ path) names || covers (later ∷ path) names))
unfolding covers
covers-more seg later path name names = refl

evaluate_cursor-covers :
    (name : Bytes) (c : Cursor) (next : List Cursor) (names : List Bytes)
    → covers_below (evaluate_cursor name c next) names
      ≡ (any_covers next names || covers c (name ∷ names))
evaluate_cursor-covers name [] next names = unfold covers in or-false (any_covers next names)
evaluate_cursor-covers name (seg ∷ []) next names =
    unfold covers in fits_or_not (segment_fits seg name)
  where
    fits_or_not :
        (b : Bool)
        → covers_below (if b then matched else goes_on next) names ≡ (any_covers next names || b)
    fits_or_not true = ground arith
    fits_or_not false = or-false (any_covers next names)
evaluate_cursor-covers name (seg ∷ later ∷ path) next names =
    fits_or_not (segment_fits seg name)
    ∙ ap (λ x. any_covers next names || x) (sym (covers-more seg later path name names))
  where
    fits_or_not :
        (b : Bool)
        → covers_below
            (if b
              then if any_level seg
                then goes_on (next ++ ((seg ∷ later ∷ path) ∷ (later ∷ path) ∷ []))
                else goes_on (next ++ ((later ∷ path) ∷ []))
              else goes_on next)
            names
          ≡ (any_covers next names
              || (b
                  && (any_level seg && covers (seg ∷ later ∷ path) names
                      || covers (later ∷ path) names)))
    fits_or_not true = two_paths (any_level seg) next (seg ∷ later ∷ path) (later ∷ path) names
    fits_or_not false = or-false (any_covers next names)

or_assoc : (a b c : Bool) → ((a || b) || c) ≡ (a || (b || c))
or_assoc true b c = refl
or_assoc false b c = refl

evaluate_from-covers :
    (name : Bytes) (cursors next : List Cursor) (names : List Bytes)
    → covers_below (evaluate_from name cursors next) names
      ≡ (any_covers next names || any_covers cursors (name ∷ names))
unfolding evaluate_from any_covers
evaluate_from-covers name [] next names = or-false (any_covers next names)
evaluate_from-covers name (c ∷ cursors) next names =
    on_verdict (evaluate_cursor name c next) (evaluate_cursor-covers name c next names)
      (λ further. evaluate_from-covers name cursors further names)
    ∙ or_assoc (any_covers next names) (covers c (name ∷ names)) (any_covers cursors (name ∷ names))
  where
    on_verdict :
        (v : Verdict)
        → covers_below v names ≡ (any_covers next names || covers c (name ∷ names))
        → ((further : List Cursor)
            → covers_below (evaluate_from name cursors further) names
              ≡ (any_covers further names || any_covers cursors (name ∷ names)))
        → covers_below
            (elim v [ matched ↦ matched | goes_on further ↦ evaluate_from name cursors further ])
            names
          ≡ ((any_covers next names || covers c (name ∷ names))
              || any_covers cursors (name ∷ names))
    on_verdict matched e later = ap (λ b. b || any_covers cursors (name ∷ names)) e
    on_verdict (goes_on further) e later =
        later further ∙ ap (λ b. b || any_covers cursors (name ∷ names)) e

pub evaluate-covers :
    (name : Bytes) (cursors : List Cursor) (names : List Bytes)
    → any_covers cursors (name ∷ names) ≡ covers_below (evaluate name cursors) names
unfolding evaluate any_covers
evaluate-covers name cursors names = sym (evaluate_from-covers name cursors [] names)

pub uncovered : (cursors : List Cursor) → any_covers cursors [] ≡ false
unfolding any_covers covers
uncovered [] = refl
uncovered ([] ∷ cursors) = uncovered cursors
uncovered ((seg ∷ []) ∷ cursors) = uncovered cursors
uncovered ((seg ∷ later ∷ path) ∷ cursors) = uncovered cursors
