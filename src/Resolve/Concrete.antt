-- ===== src/Resolve/Concrete.antt =====
-- internal/engine/resolve.go: `concrete`, the indices that an expression reaches.
use osmem.Prelude.{
  Bool, false, not, ◌&&◌, Option, none, some, List, [], ◌∷◌, ◌++◌, if◌then◌else◌, code_points,
}
use osmem.Prelude.Dict.{◌==◌, lookup, member}
use osmem.Glob.{Bytes, bytes_keys}
use osmem.Resolve.{
  IndicesOptions, ResolveError, expression_not_found, aliases_not_supported, index_closed,
  expand_closed_refused, no_such_index, Resolved, gives, refuses, IndexState, Indices, Abstraction,
  Resolver,
}
use osmem.Resolve.Expand.{expand, everything, usable}

abbrev pub is_closed : Option IndexState → Bool
is_closed none = false
is_closed (some ix) = ix.state_closed

-- `seen[ix] = true` and the append: the indices seen are those of the list.
unfoldable pub reach : Bytes → List Bytes → List Bytes
unfolding member
reach ix out = if member ix out then out else out ++ (ix ∷ [])

abbrev pub closed_error : IndicesOptions → Bytes → ResolveError
closed_error o ix =
    if o.expand_closed && not o.expand_open && not o.expand_hidden
    then expand_closed_refused
    else index_closed ix

abbrev pub fail_closed : IndicesOptions → Bool
fail_closed o = o.forbid_closed && not o.ignore_unavailable

-- The loop over the indices of one name.
unfoldable pub reach_all :
    Indices → IndicesOptions → List Bytes → List Bytes → Resolved (List Bytes)
unfolding lookup reach
reach_all indices o [] out = gives out
reach_all indices o (ix ∷ more) out =
    if is_closed (lookup ix indices)
    then if fail_closed o
      then refuses (closed_error o ix)
      else if o.forbid_closed
      then reach_all indices o more out
      else reach_all indices o more (reach ix out)
    else reach_all indices o more (reach ix out)

abbrev pub reach_abstraction :
    Indices
    → IndicesOptions
    → Bool
    → Bytes
    → Option Abstraction
    → List Bytes
    → Resolved (List Bytes)
reach_abstraction indices o fail_no_indices name none out =
    if fail_no_indices then refuses (expression_not_found name) else gives out
reach_abstraction indices o fail_no_indices name (some ab) out =
    if usable o ab
    then reach_all indices o ab.indices out
    else if fail_no_indices
    then refuses (aliases_not_supported name)
    else gives out

-- The loop over the resolved names.
unfoldable pub reach_names :
    Resolver → IndicesOptions → Bool → List Bytes → List Bytes → Resolved (List Bytes)
unfolding lookup reach_all
reach_names r o fail_no_indices [] out = gives out
reach_names r o fail_no_indices (name ∷ names) out =
    elim (reach_abstraction r.indices o fail_no_indices name (lookup name r.known) out) [
      | refuses x ↦ refuses x
      | gives reached ↦ reach_names r o fail_no_indices names reached
    ]

abbrev pub index_expression : Bytes
index_expression = code_points "index_expression"

abbrev pub unless_none : IndicesOptions → List Bytes → Resolved (List Bytes) → Resolved (List Bytes)
unless_none o exprs (refuses x) = refuses x
unless_none o exprs (gives []) =
    if o.allow_no_indices then gives [] else refuses (no_such_index index_expression exprs [])
unless_none o exprs (gives (ix ∷ out)) = gives (ix ∷ out)

abbrev pub or_everything : List Bytes → List Bytes
or_everything [] = everything ∷ []
or_everything (expr ∷ exprs) = expr ∷ exprs

abbrev pub fails_no_indices : IndicesOptions → List Bytes → Bool
fails_no_indices o (expr ∷ []) = not o.allow_no_indices
fails_no_indices o exprs = not o.ignore_unavailable

abbrev pub only_everything : List Bytes → Bool
only_everything (expr ∷ []) = expr == everything
only_everything exprs = false

abbrev pub nothing_resolved : IndicesOptions → List Bytes → Resolved (List Bytes)
nothing_resolved o exprs =
    if o.allow_no_indices
    then gives []
    else refuses (
        no_such_index index_expression exprs
          (if only_everything exprs then code_points " and no indices exist" else []))

abbrev pub reach_resolved :
    Resolver → IndicesOptions → List Bytes → Resolved (List Bytes) → Resolved (List Bytes)
reach_resolved r o exprs (refuses x) = refuses x
reach_resolved r o exprs (gives []) = nothing_resolved o exprs
reach_resolved r o exprs (gives (name ∷ names)) =
    unless_none o exprs (reach_names r o (fails_no_indices o exprs) (name ∷ names) [])

abbrev pub concrete_of : Resolver → List Bytes → IndicesOptions → Resolved (List Bytes)
concrete_of r exprs o = reach_resolved r o exprs (expand r exprs o false)

-- `concrete`
unfoldable pub concrete : Resolver → List Bytes → IndicesOptions → Resolved (List Bytes)
unfolding expand reach_names
concrete r original o = concrete_of r (or_everything original) o
