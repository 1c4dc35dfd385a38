-- ===== src/Resolve/Expand.antt =====
-- internal/engine/resolve.go: `expand` with `orderedNames`, `expandMatches` and `allIndices`.
use osmem.Prelude.{
  Bool, true, false, not, ◌&&◌, ◌||◌, Option, none, some, List, [], ◌∷◌, ◌++◌, if◌then◌else◌, eqb,
  code_points,
}
use osmem.Prelude.Dict.{◌==◌, lookup, member}
use osmem.Glob.{Bytes, star, bytes_keys, star_match}
use osmem.Resolve.{
  IndicesOptions, ResolveError, index_not_found, invalid_name, aliases_not_supported, no_such_index,
  Resolved, gives, refuses, IndexState, Abstraction, Resolver,
}

-- `orderedNames`: the list, whose elements are the set.
unfoldable pub add_name : Bytes → List Bytes → List Bytes
unfolding member
add_name n names = if member n names then names else names ++ (n ∷ [])

-- The first occurrence goes.
unfoldable pub remove_name : Bytes → List Bytes → List Bytes
remove_name n [] = []
remove_name n (m ∷ names) = let rest = remove_name n names in if m == n then names else m ∷ rest

-- The loop of `newOrderedNames`.
unfoldable pub add_names : List Bytes → List Bytes → List Bytes
unfolding add_name
add_names [] names = names
add_names (n ∷ more) names = add_names more (add_name n names)

unfoldable pub remove_names : List Bytes → List Bytes → List Bytes
unfolding remove_name
remove_names [] names = names
remove_names (n ∷ more) names = remove_names more (remove_name n names)

-- Whether the state of an index is one that wildcards reach.
abbrev pub in_state : IndicesOptions → Option IndexState → Bool
in_state o none = false
in_state o (some ix) =
    (ix.state_closed && o.expand_closed) || (not ix.state_closed && o.expand_open)

unfoldable pub states : Resolver → IndicesOptions → List Bytes → List Bytes
unfolding lookup
states r o [] = []
states r o (ix ∷ indices) =
    let later = states r o indices in if in_state o (lookup ix r.indices) then ix ∷ later else later

abbrev pub starts_with_dot : Bytes → Bool
starts_with_dot [] = false
starts_with_dot (c ∷ s) = eqb c 46

-- One round of `expandMatches`.
abbrev pub match_names : Resolver → Bytes → IndicesOptions → Bool → Abstraction → List Bytes
match_names r expr o preserve ab =
    if ab.hidden && not o.expand_hidden && not (starts_with_dot ab.name && starts_with_dot expr)
    then []
    else if preserve && ab.alias
    then ab.name ∷ []
    else states r o ab.indices

unfoldable pub expand_matches :
    Resolver → List Abstraction → Bytes → IndicesOptions → Bool → List Bytes
unfolding states
expand_matches r [] expr o preserve = []
expand_matches r (ab ∷ matches) expr o preserve =
    match_names r expr o preserve ab ++ expand_matches r matches expr o preserve

abbrev pub visible : IndicesOptions → Option IndexState → Bool
visible o none = false
visible o (some ix) = (not ix.hidden || o.expand_hidden) && in_state o (some ix)

-- `allIndices`
unfoldable pub all_indices : Resolver → IndicesOptions → List Bytes → List Bytes
unfolding lookup
all_indices r o [] = []
all_indices r o (name ∷ names) =
    let later = all_indices r o names in
    if visible o (lookup name r.indices) then name ∷ later else later

abbrev pub usable : IndicesOptions → Abstraction → Bool
usable o ab = not (ab.alias && o.ignore_aliases)

abbrev pub matching : Bytes → IndicesOptions → Bytes → Option Abstraction → List Abstraction
matching expr o name none = []
matching expr o name (some ab) = if usable o ab && star_match expr name then ab ∷ [] else []

-- The loop over the sorted names: the abstractions that a wildcard matches.
unfoldable pub matches_of : Resolver → Bytes → IndicesOptions → List Bytes → List Abstraction
unfolding lookup star_match
matches_of r expr o [] = []
matches_of r expr o (name ∷ names) =
    matching expr o name (lookup name r.known) ++ matches_of r expr o names

unfoldable pub has_star : Bytes → Bool
has_star [] = false
has_star (c ∷ s) = eqb c star || has_star s

-- The variables of the loop of `expand`.
pub record Expanding : Type 0 where
  pub result : Option (List Bytes)
  pub wildcard_seen : Bool

pub data ExpandStep : Type 0 where
  proceed : Expanding → ExpandStep
  failed : ResolveError → ExpandStep

-- The check of a name without a star, unless missing names are ignored.
abbrev pub unavailable : Bytes → IndicesOptions → Option Abstraction → Option ResolveError
unavailable expr o none = if o.ignore_unavailable then none else some (index_not_found expr)
unavailable expr o (some ab) =
    if o.ignore_unavailable || usable o ab then none else some (aliases_not_supported expr)

abbrev pub names_or : List Bytes → Option (List Bytes) → List Bytes
names_or before none = add_names before []
names_or before (some names) = names

abbrev pub put : Bool → Bytes → List Bytes → List Bytes
put add n names = if add then add_name n names else remove_name n names

abbrev pub put_all : Bool → List Bytes → List Bytes → List Bytes
put_all add more names = if add then add_names more names else remove_names more names

abbrev pub none_matched : IndicesOptions → List Abstraction → Bool
none_matched o [] = not o.allow_no_indices
none_matched o (ab ∷ matches) = false

abbrev pub expand_plain :
    IndicesOptions → Bool → Bool → Bytes → List Bytes → Option ResolveError → ExpandStep
expand_plain o seen add expr names none =
    proceed (record { result = some (put add expr names); wildcard_seen = seen })
expand_plain o seen add expr names (some x) = failed x

abbrev pub expand_wildcard :
    Resolver → IndicesOptions → Bool → Bool → Bytes → List Bytes → List Abstraction → ExpandStep
expand_wildcard r o preserve add expr names matches =
    if none_matched o matches
    then failed (index_not_found expr)
    else proceed (record {
      result = some (put_all add (expand_matches r matches expr o preserve) names);
      wildcard_seen = true;
    })

-- An expression that is no usable name, without the minus sign of an exclusion.
unfoldable pub expand_other :
    Resolver → IndicesOptions → Bool → Bool → Bool → Bytes → List Bytes → ExpandStep
unfolding lookup add_name remove_name add_names remove_names expand_matches matches_of has_star
expand_other r o preserve seen add expr names =
    if has_star expr
    then expand_wildcard r o preserve add expr names (matches_of r expr o r.names)
    else expand_plain o seen add expr names (unavailable expr o (lookup expr r.known))

abbrev pub is_usable : IndicesOptions → Option Abstraction → Bool
is_usable o none = false
is_usable o (some ab) = usable o ab

abbrev pub add_known : Bytes → Expanding → Expanding
add_known expr v = elim v.result [
  | none ↦ v
  | some names ↦ record v { result = some (add_name expr names) }
]

-- One round of the loop of `expand`; `before` are the expressions before this one.
unfoldable pub expand_one :
    Resolver → IndicesOptions → Bool → List Bytes → Expanding → Bytes → ExpandStep
unfolding expand_other
expand_one r o preserve before v [] = failed (index_not_found [])
expand_one r o preserve before v (c ∷ expr) =
    if eqb c 95
    then failed (invalid_name (c ∷ expr))
    else if is_usable o (lookup (c ∷ expr) r.known)
    then proceed (add_known (c ∷ expr) v)
    else if eqb c 45 && v.wildcard_seen
    then expand_other r o preserve v.wildcard_seen false expr (names_or before v.result)
    else expand_other r o preserve v.wildcard_seen true (c ∷ expr) (names_or before v.result)

unfoldable pub expand_loop :
    Resolver → IndicesOptions → Bool → List Bytes → List Bytes → Expanding → ExpandStep
unfolding expand_one
expand_loop r o preserve before [] v = proceed v
expand_loop r o preserve before (expr ∷ exprs) v = elim (expand_one r o preserve before v expr) [
  | failed x ↦ failed x
  | proceed next ↦ expand_loop r o preserve (before ++ (expr ∷ [])) exprs next
]

abbrev pub unless_empty : IndicesOptions → List Bytes → List Bytes → Resolved (List Bytes)
unless_empty o exprs [] =
    if o.allow_no_indices
    then gives []
    else refuses (no_such_index (code_points "index_or_alias") exprs [])
unless_empty o exprs (n ∷ names) = gives (n ∷ names)

abbrev pub end_expand : IndicesOptions → List Bytes → ExpandStep → Resolved (List Bytes)
end_expand o exprs (failed x) = refuses x
end_expand o exprs (proceed v) = elim v.result [
  | none ↦ gives exprs
  | some names ↦ unless_empty o exprs names
]

abbrev pub everything : Bytes
everything = code_points "_all"

abbrev pub is_everything : List Bytes → Bool
is_everything [] = true
is_everything (expr ∷ []) = expr == everything || expr == (star ∷ [])
is_everything (expr ∷ next ∷ exprs) = false

abbrev pub nothing_yet : Expanding
nothing_yet = record { result = none; wildcard_seen = false }

-- `expand`
unfoldable pub expand : Resolver → List Bytes → IndicesOptions → Bool → Resolved (List Bytes)
unfolding all_indices expand_loop
expand r exprs o preserve =
    if not o.expand_open && not o.expand_closed
    then gives exprs
    else if is_everything exprs
    then gives (all_indices r o r.all)
    else end_expand o exprs (expand_loop r o preserve [] exprs nothing_yet)
