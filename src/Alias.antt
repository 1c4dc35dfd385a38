-- ===== src/Alias.antt =====
-- internal/engine/cluster.go: which index a document request writes to, `resolveWriteIndex`. Of an
-- index stand its name, its aliases and its state, of an alias its is_write_index, which are what
-- this reads; the pointer to an index is its value.
pub mod Targets
pub mod Choice
use Prim.Native.String.{compare}
use Prim.Native.Nat.{Ordering}
use osmem.Prelude.{ℕ, String, Bool, true, false, Option, none, some, List, [], ◌∷◌, if◌then◌else◌}
use osmem.Prelude.Dict.{Dict, string_keys, lookup}
use osmem.Error.{Error, index_not_found, index_closed, no_write_index, Result, ok, err}

pub record Alias : Type 0 where
  pub is_write_index : Option Bool

pub record AliasedIndex : Type 0 where
  pub name : String
  pub aliases : Dict String Alias
  pub state_closed : Bool

abbrev pub has_alias : String → AliasedIndex → Bool
has_alias alias ix = elim (lookup alias ix.aliases) [ some a ↦ true | none ↦ false ]

-- The loop of `aliasTargets` over the indices, in the order of the map.
unfoldable pub holders_of : String → Dict String AliasedIndex → List AliasedIndex
holders_of alias [] = []
holders_of alias (entry ∷ indices) =
    let later = holders_of alias indices in
    if has_alias alias entry.1 then entry.1 ∷ later else later

abbrev pub is_less : String → String → Bool
is_less a b = elim (compare a b) [ Ordering.lt ↦ true | _ ↦ false ]

unfoldable pub insert_by_name : AliasedIndex → List AliasedIndex → List AliasedIndex
insert_by_name ix [] = ix ∷ []
insert_by_name ix (first ∷ rest) =
    let later = insert_by_name ix rest in
    if is_less first.name ix.name then first ∷ later else ix ∷ first ∷ rest

-- sort.Slice by name
unfoldable pub sort_by_name : List AliasedIndex → List AliasedIndex
unfolding insert_by_name
sort_by_name [] = []
sort_by_name (ix ∷ ixs) = insert_by_name ix (sort_by_name ixs)

unfoldable pub alias_targets : Dict String AliasedIndex → String → List AliasedIndex
unfolding holders_of sort_by_name
alias_targets indices alias = sort_by_name (holders_of alias indices)

-- a.IsWriteIndex == nil || *a.IsWriteIndex
abbrev pub allows : Option Alias → Bool
allows none = true
allows (some a) = elim a.is_write_index [ none ↦ true | some b ↦ b ]

-- a.IsWriteIndex != nil && *a.IsWriteIndex
abbrev pub designates : Option Alias → Bool
designates none = false
designates (some a) = elim a.is_write_index [ none ↦ false | some b ↦ b ]

-- The last loop of `writeIndex`.
unfoldable pub designated : String → List AliasedIndex → Result AliasedIndex
designated alias [] = err (no_write_index alias)
designated alias (t ∷ ts) =
    let later = designated alias ts in if designates (lookup alias t.aliases) then ok t else later

-- The `switch` on the number of targets, and what follows it.
unfoldable pub choose : String → List AliasedIndex → Result AliasedIndex
unfolding designated
choose alias [] = err (index_not_found alias)
choose alias (t ∷ []) = if allows (lookup alias t.aliases) then ok t else designated alias (t ∷ [])
choose alias (t ∷ u ∷ ts) = designated alias (t ∷ u ∷ ts)

unfoldable pub write_index : Dict String AliasedIndex → String → Result AliasedIndex
unfolding choose alias_targets
write_index indices name = elim (lookup name indices) [
  | some ix ↦ ok ix
  | none ↦ choose name (alias_targets indices name)
]

abbrev pub unless_closed : Result AliasedIndex → Result AliasedIndex
unless_closed (err x) = err x
unless_closed (ok ix) = if ix.state_closed then err (index_closed ix.name) else ok ix

unfoldable pub resolve_write_index : Dict String AliasedIndex → String → Result AliasedIndex
unfolding write_index
resolve_write_index indices name = unless_closed (write_index indices name)
