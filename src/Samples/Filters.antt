-- ===== src/Samples/Filters.antt =====
-- A filtered body and an escaped path.
use osmem.Prelude.{true, false, [], ◌∷◌, some, All, ◌≡◌, refl, arith, code_points}
use osmem.Glob.{same_bytes}
use osmem.FilterPath.{
  Json, scalar, object, field, no_field, array, item, no_item, FilterPath, apply,
}
use osmem.FilterPath.Parse.{parse_filter_path, filters, compile}
use osmem.FilterPath.Leaves.{leaves}
use osmem.FilterPath.Kept.{written, selected, apply-leaves}
use osmem.FilterPath.Escaped.{IsUnescaped, escape, join_dots, compile-join_dots}

-- {"hits": {"total": 1, "hits": [{"_id": 2}]}, "took": 3}
abbrev body : Json
body = object (
    field (code_points "hits")
      (object (
        field (code_points "total") (scalar (code_points "1")) (
          field (code_points "hits")
            (array (
              item (object (field (code_points "_id") (scalar (code_points "2")) no_field))
                no_item))
            no_field)))
      (field (code_points "took") (scalar (code_points "3")) no_field))

-- hits.*,-**._id
abbrev hits_only : FilterPath
hits_only = record {
  include = (code_points "hits" ∷ code_points "*" ∷ []) ∷ [];
  exclude = (code_points "**" ∷ code_points "_id" ∷ []) ∷ [];
}

hits_parsed : parse_filter_path (code_points "hits.*, -**._id") ≡ filters hits_only true
unfolding parse_filter_path same_bytes
hits_parsed = refl

total_left :
    apply hits_only body
    ≡ some (
        object (
          field
            (code_points "hits")
            (object (field (code_points "total") (scalar (code_points "1")) no_field))
            no_field))
unfolding apply same_bytes
total_left = refl

apply-leaves_example :
    written (apply hits_only body)
    ≡ selected false hits_only.exclude (selected true hits_only.include (leaves body))
apply-leaves_example = apply-leaves hits_only body

-- The names a.b and c
two_plain : All IsUnescaped ((97 ∷ 46 ∷ 98 ∷ []) ∷ (99 ∷ []) ∷ [])
two_plain = (
  ((λ e. ground (arith, e)), ((λ e. ground (arith, e)), ((λ e. ground (arith, e)), tt))),
  (((λ e. ground (arith, e)), tt), tt),
)

compile-join_dots_example :
    compile (join_dots (97 ∷ 46 ∷ 98 ∷ []) ((99 ∷ []) ∷ []) ∷ [])
    ≡ ((97 ∷ 46 ∷ 98 ∷ []) ∷ (99 ∷ []) ∷ []) ∷ compile []
unfolding join_dots escape
compile-join_dots_example =
    compile-join_dots (97 ∷ 46 ∷ 98 ∷ []) ((99 ∷ []) ∷ []) [] two_plain (λ e. cc)
      (omega arith, omega arith)
