-- ===== src/Resolve.antt =====
-- internal/engine/resolve.go: what an index expression stands for. Names are lists of bytes; an index is
-- stood for by its name, under which the cluster has it.
pub mod Options
pub mod Expand
pub mod Concrete
pub mod Filters
pub mod Names
pub mod Word
pub mod Round
pub mod LastWord
pub mod Proceeds
pub mod Reached
pub mod Lenient
pub mod Filtering
pub mod Known
use osmem.Prelude.{
  Bool, true, false, ◌||◌, Option, none, some, List, [], ◌∷◌, ◌++◌, if◌then◌else◌, ltb, eqb,
}
use osmem.Prelude.Dict.{Dict, lookup, insert}
use osmem.Glob.{Bytes, bytes_keys}

-- `indicesOptions`
pub record IndicesOptions : Type 0 where
  pub ignore_unavailable : Bool
  pub allow_no_indices : Bool
  pub expand_open : Bool
  pub expand_closed : Bool
  pub expand_hidden : Bool
  pub forbid_closed : Bool
  pub ignore_aliases : Bool

pub data ResolveError : Type 0 where
  index_not_found : Bytes → ResolveError
  invalid_name : Bytes → ResolveError
  aliases_not_supported : Bytes → ResolveError
  index_closed : Bytes → ResolveError
  -- The error of `concrete` for a name that is no index.
  expression_not_found : Bytes → ResolveError
  -- errIndexNotFoundNull: the type of the resource, the expressions and what the reason ends with.
  no_such_index : Bytes → List Bytes → Bytes → ResolveError
  expand_closed_refused : ResolveError
  no_expand_value : Bytes → ResolveError
  no_boolean : Bytes → Bytes → ResolveError

pub data Resolved {ℓ} (A : Type ℓ) : Type ℓ where
  gives : A → Resolved A
  refuses : ResolveError → Resolved A

-- What resolution reads of an alias: `IsHidden` and `Filter`, a decoded query that its text stands for.
pub record Alias : Type 0 where
  pub is_hidden : Option Bool
  pub filter : Option Bytes

-- What resolution reads of an index.
pub record IndexState : Type 0 where
  pub hidden : Bool
  pub state_closed : Bool
  pub aliases : Dict Bytes Alias

abbrev pub Indices : Type 0
Indices = Dict Bytes IndexState

-- `indexAbstraction`: an index or an alias.
pub record Abstraction : Type 0 where
  pub name : Bytes
  pub alias : Bool
  pub hidden : Bool
  pub indices : List Bytes

-- `exprResolver`; `lookup` is a keyword's name there, `known` here.
pub record Resolver : Type 0 where
  pub indices : Indices
  pub known : Dict Bytes Abstraction
  pub names : List Bytes
  pub all : List Bytes

-- The order of strings in Go.
abbrev pub is_less : Bytes → Bytes → Bool
is_less [] [] = false
is_less [] (d ∷ t) = true
is_less (c ∷ s) [] = false
is_less (c ∷ s) (d ∷ t) = ltb c d || (if eqb c d then is_less s t else false)

unfoldable pub insert_name : Bytes → List Bytes → List Bytes
insert_name name [] = name ∷ []
insert_name name (first ∷ rest) =
    let later = insert_name name rest in
    if is_less first name then first ∷ later else name ∷ first ∷ rest

-- sort.Strings
unfoldable pub sort_names : List Bytes → List Bytes
unfolding insert_name
sort_names [] = []
sort_names (name ∷ names) = insert_name name (sort_names names)

unfoldable pub keys {ℓ} : {V : Type ℓ} → Dict Bytes V → List Bytes
keys [] = []
keys (entry ∷ m) = entry.0 ∷ keys m

unfoldable pub sorted_index_names : Indices → List Bytes
unfolding sort_names keys
sorted_index_names indices = sort_names (keys indices)

-- The first loop of `newExprResolver`.
abbrev pub add_index : Bytes → Option IndexState → Dict Bytes Abstraction → Dict Bytes Abstraction
add_index name none known = known
add_index name (some ix) known =
    insert name (record { name = name; alias = false; hidden = ix.hidden; indices = name ∷ [] })
      known

unfoldable pub add_indices : Indices → List Bytes → Dict Bytes Abstraction → Dict Bytes Abstraction
unfolding lookup insert
add_indices indices [] known = known
add_indices indices (name ∷ names) known =
    add_indices indices names (add_index name (lookup name indices) known)

abbrev pub alias_or_new : Bytes → Option Abstraction → Abstraction
alias_or_new name none = record { name = name; alias = true; hidden = false; indices = [] }
alias_or_new name (some ab) = ab

abbrev pub is_set : Option Bool → Bool
is_set none = false
is_set (some b) = b

abbrev pub reaching : Bytes → Alias → Abstraction → Abstraction
reaching index a ab =
    if ab.alias
    then record ab {
      hidden = ab.hidden || is_set a.is_hidden;
      indices = ab.indices ++ (index ∷ []);
    }
    else ab

-- The inner loop over the aliases of one index: an alias with the name of an index is passed over.
unfoldable pub add_aliases :
    Bytes → Dict Bytes Alias → Dict Bytes Abstraction → Dict Bytes Abstraction
unfolding lookup insert
add_aliases index [] known = known
add_aliases index (entry ∷ aliases) known =
    add_aliases index aliases
      (insert entry.0 (reaching index entry.1 (alias_or_new entry.0 (lookup entry.0 known))) known)

abbrev pub aliases_of : Option IndexState → Dict Bytes Alias
aliases_of none = []
aliases_of (some ix) = ix.aliases

unfoldable pub add_all_aliases :
    Indices → List Bytes → Dict Bytes Abstraction → Dict Bytes Abstraction
unfolding add_aliases lookup
add_all_aliases indices [] known = known
add_all_aliases indices (name ∷ names) known =
    add_all_aliases indices names (add_aliases name (aliases_of (lookup name indices)) known)

unfoldable pub new_expr_resolver : Indices → Resolver
unfolding sorted_index_names add_indices add_all_aliases keys sort_names
new_expr_resolver indices =
    let all = sorted_index_names indices in
    let known = add_all_aliases indices all (add_indices indices all []) in
    record { indices = indices; known = known; names = sort_names (keys known); all = all }
