-- ===== src/Resolve/Filters.antt =====
-- internal/engine/resolve.go: `filteringAliases`, the aliases whose filters apply to an index, and `targets`.
use osmem.Prelude.{Bool, true, false, Option, none, some, List, [], ◌∷◌, ◌++◌, if◌then◌else◌, map}
use osmem.Prelude.Dict.{Dict, ◌==◌, lookup}
use osmem.Glob.{Bytes, bytes_keys}
use osmem.Resolve.{
  Alias, IndicesOptions, Resolved, gives, refuses, Resolver, Indices, aliases_of, sort_names,
}
use osmem.Resolve.Expand.{everything, expand}
use osmem.Resolve.Concrete.{concrete}

abbrev pub filter_of : Option Alias → Option Bytes
filter_of none = none
filter_of (some a) = a.filter

abbrev pub is_some {ℓ} : {A : Type ℓ} → Option A → Bool
is_some none = false
is_some (some a) = true

abbrev pub filtered : Option Alias → Bool
filtered found = is_some (filter_of found)

-- What one name says of an index: it is reached without a filter, with that of an alias, or not.
pub data Reach : Type 0 where
  unfiltered : Reach
  by_alias : Reach
  apart : Reach

abbrev pub reach_of_alias : Option Alias → Reach
reach_of_alias none = apart
reach_of_alias (some a) = if is_some a.filter then by_alias else unfiltered

abbrev pub reach_of : Bytes → Dict Bytes Alias → Bytes → Reach
reach_of index aliases name =
    if name == index then unfiltered else reach_of_alias (lookup name aliases)

-- The loop of `filteringAliases`; none where it returns nil.
unfoldable pub collect_filters :
    Bytes → Dict Bytes Alias → List Bytes → List Bytes → Option (List Bytes)
unfolding lookup
collect_filters index aliases [] out = some out
collect_filters index aliases (name ∷ resolved) out = elim (reach_of index aliases name) [
  | unfiltered ↦ none
  | by_alias ↦ collect_filters index aliases resolved (out ++ (name ∷ []))
  | apart ↦ collect_filters index aliases resolved out
]

abbrev pub sorted_or_nil : Option (List Bytes) → List Bytes
sorted_or_nil none = []
sorted_or_nil (some out) = sort_names out

-- `filteringAliases`; the empty list stands for nil.
unfoldable pub filtering_aliases : Bytes → Dict Bytes Alias → List Bytes → List Bytes
unfolding lookup collect_filters sort_names
filtering_aliases index aliases [] = []
filtering_aliases index aliases (name ∷ []) =
    if name == everything then [] else if filtered (lookup name aliases) then name ∷ [] else []
filtering_aliases index aliases (name ∷ next ∷ resolved) =
    sorted_or_nil (collect_filters index aliases (name ∷ next ∷ resolved) [])

-- The filter of a target; `should` has those of several aliases as the clauses of a bool query.
pub data Filter : Type 0 where
  no_filter : Filter
  just : Option Bytes → Filter
  should : List (Option Bytes) → Filter

unfoldable filters_of : Dict Bytes Alias → List Bytes → List (Option Bytes)
unfolding lookup
filters_of aliases [] = []
filters_of aliases (name ∷ names) = filter_of (lookup name aliases) ∷ filters_of aliases names

-- `aliasFilter`
unfoldable pub alias_filter : Dict Bytes Alias → List Bytes → Filter
unfolding lookup filters_of
alias_filter aliases [] = no_filter
alias_filter aliases (name ∷ []) = just (filter_of (lookup name aliases))
alias_filter aliases (name ∷ next ∷ names) = should (filters_of aliases (name ∷ next ∷ names))

pub record Target : Type 0 where
  pub index : Bytes
  pub filter : Filter

abbrev pub target_of : Indices → Bool → List Bytes → Bytes → Target
target_of indices with_filters resolved ix = record {
  index = ix;
  filter =
      if with_filters
      then alias_filter (aliases_of (lookup ix indices))
          (filtering_aliases ix (aliases_of (lookup ix indices)) resolved)
      else no_filter;
}

-- lenientExpandOpenOptions
abbrev pub lenient_expand_open : IndicesOptions
lenient_expand_open = record {
  ignore_unavailable = true;
  allow_no_indices = true;
  expand_open = true;
  expand_closed = false;
  expand_hidden = false;
  forbid_closed = false;
  ignore_aliases = false;
}

-- The result of a call whose error is dropped.
abbrev pub given_or_nil : Resolved (List Bytes) → List Bytes
given_or_nil (refuses x) = []
given_or_nil (gives names) = names

abbrev pub names_for_filters : Resolver → List Bytes → List Bytes
names_for_filters r exprs = given_or_nil (expand r exprs lenient_expand_open true)

abbrev pub targets_of :
    Resolver → List Bytes → Bool → Resolved (List Bytes) → Resolved (List Target)
targets_of r exprs with_filters (refuses x) = refuses x
targets_of r exprs with_filters (gives indices) =
    gives (map (target_of r.indices with_filters (names_for_filters r exprs)) indices)

-- `targets`, of an expression that is cut at its commas; without filters or indices the second expansion is not used.
unfoldable pub targets : Resolver → List Bytes → IndicesOptions → Bool → Resolved (List Target)
unfolding concrete expand filtering_aliases alias_filter lookup
targets r exprs o with_filters = targets_of r exprs with_filters (concrete r exprs o)
