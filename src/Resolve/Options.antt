-- ===== src/Resolve/Options.antt =====
-- internal/engine/resolve.go: the indices options of a request, and `resolveIndices`.
use osmem.Prelude.{Bool, true, false, Option, none, some, List, [], ◌∷◌, if◌then◌else◌, code_points}
use osmem.Prelude.Dict.{Dict, ◌==◌, lookup}
use osmem.Glob.{Bytes, bytes_keys}
use osmem.FilterPath.Parse.{split_commas}
use osmem.Resolve.{
  IndicesOptions, no_expand_value, no_boolean, Resolved, gives, refuses, Indices, new_expr_resolver,
}
use osmem.Resolve.Concrete.{concrete}

abbrev pub Params : Type 0
Params = Dict Bytes Bytes

abbrev pub part_or_end : Bytes → List Bytes → List Bytes
part_or_end [] [] = []
part_or_end part parts = part ∷ parts

-- The loop that drops the empty parts at the end.
unfoldable pub drop_empty_end : List Bytes → List Bytes
drop_empty_end [] = []
drop_empty_end (part ∷ parts) = part_or_end part (drop_empty_end parts)

-- `splitCommaJava`
unfoldable pub split_comma_java : Bytes → List Bytes
unfolding drop_empty_end split_commas
split_comma_java [] = []
split_comma_java (c ∷ s) = drop_empty_end (split_commas (c ∷ s))

-- The results of `parseExpandWildcards`.
pub record WildcardStates : Type 0 where
  pub open_ones : Bool
  pub closed_ones : Bool
  pub hidden_ones : Bool

abbrev pub expand_word : Bytes → WildcardStates → Option WildcardStates
expand_word w st =
    if w == code_points "open"
    then some (record st { open_ones = true })
    else if w == code_points "closed"
    then some (record st { closed_ones = true })
    else if w == code_points "hidden"
    then some (record st { hidden_ones = true })
    else if w == code_points "none"
    then some (record { open_ones = false; closed_ones = false; hidden_ones = false })
    else if w == code_points "all"
    then some (record { open_ones = true; closed_ones = true; hidden_ones = true })
    else none

unfoldable pub expand_words : List Bytes → WildcardStates → Resolved WildcardStates
expand_words [] st = gives st
expand_words (w ∷ words) st = elim (expand_word w st) [
  | none ↦ refuses (no_expand_value w)
  | some next ↦ expand_words words next
]

-- `parseExpandWildcards`
unfoldable pub parse_expand_wildcards : Bytes → Resolved WildcardStates
unfolding expand_words split_comma_java
parse_expand_wildcards v =
    expand_words (split_comma_java v)
      (record { open_ones = false; closed_ones = false; hidden_ones = false })

-- `is_blank` stands for the test of an empty strings.TrimSpace.
module _ (is_blank : Bytes → Bool) where
  abbrev pub bool_value : Bytes → Bool → Bytes → Resolved Bool
  bool_value name def v =
      if is_blank v
      then gives def
      else if v == code_points "true"
      then gives true
      else if v == code_points "false"
      then gives false
      else refuses (no_boolean name v)

  abbrev pub bool_or : Bytes → Bool → Option Bytes → Resolved Bool
  bool_or name def none = gives def
  bool_or name def (some v) = bool_value name def v

  -- `optionBool`
  unfoldable pub option_bool : Params → Bytes → Bool → Resolved Bool
  unfolding lookup
  option_bool p name def = bool_or name def (lookup name p)

  abbrev pub with_wildcards : IndicesOptions → Option Bytes → Resolved IndicesOptions
  with_wildcards o none = gives o
  with_wildcards o (some v) = elim (parse_expand_wildcards v) [
    | refuses x ↦ refuses x
    | gives st ↦ gives (record o {
      expand_open = st.open_ones;
      expand_closed = st.closed_ones;
      expand_hidden = st.hidden_ones;
    })
  ]

  -- The parameters after expand_wildcards, in order.
  abbrev pub with_flags : Params → IndicesOptions → Resolved IndicesOptions
  with_flags p o = elim (option_bool p (code_points "ignore_unavailable") o.ignore_unavailable) [
    | refuses x ↦ refuses x
    | gives ignores ↦ elim (option_bool p (code_points "allow_no_indices") o.allow_no_indices) [
      | refuses x ↦ refuses x
      | gives allows ↦ elim (option_bool p (code_points "ignore_throttled") true) [
        | refuses x ↦ refuses x
        | gives throttled ↦
            gives (record o { ignore_unavailable = ignores; allow_no_indices = allows })
      ]
    ]
  ]

  -- `withParams`; no parameters are the empty map.
  unfoldable pub with_params : IndicesOptions → Params → Resolved IndicesOptions
  unfolding lookup parse_expand_wildcards option_bool
  with_params o p = elim (with_wildcards o (lookup (code_points "expand_wildcards") p)) [
    | refuses x ↦ refuses x
    | gives changed ↦ with_flags p changed
  ]

  -- `resolveIndices`
  unfoldable pub resolve_indices : Indices → Bytes → Params → IndicesOptions → Resolved (List Bytes)
  unfolding with_params new_expr_resolver concrete split_comma_java
  resolve_indices indices expr p defaults = elim (with_params defaults p) [
    | refuses x ↦ refuses x
    | gives o ↦ concrete (new_expr_resolver indices) (split_comma_java expr) o
  ]
