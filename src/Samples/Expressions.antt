-- ===== src/Samples/Expressions.antt =====
-- Index expressions over two indices and an alias.
use osmem.Prelude.{
  true, false, some, none, [], ◌∷◌, List, ◌≡◌, refl, code_points, inr, if◌then◌else◌, ◌&&◌, not,
}
use osmem.Prelude.Dict.{lookup, member, ◌==◌}
use osmem.Glob.{Bytes, bytes_keys, same_bytes, star_match}
use osmem.Resolve.{
  Alias, Indices, IndicesOptions, Resolver, new_expr_resolver, gives, refuses, index_closed,
  index_not_found, aliases_of,
}
use osmem.Resolve.Expand.{expand}
use osmem.Resolve.Concrete.{concrete}
use osmem.Resolve.Filters.{filtering_aliases, is_some}
use osmem.Resolve.Filtering.{any_unfiltered, is_filter_alias, filtering_aliases-member}
use osmem.Resolve.Known.{holds, new_expr_resolver-holds}
use osmem.Resolve.Word.{last_word, or_before}
use osmem.Resolve.LastWord.{expand-last_word}
use osmem.Resolve.Proceeds.{Gives}
use osmem.Resolve.Lenient.{concrete-Gives}
use osmem.Resolve.Reached.{Concrete, concrete-Concrete}
use osmem.Resolve.Options.{resolve_indices}

abbrev log1 : Bytes
log1 = code_points "log-1"

abbrev log2 : Bytes
log2 = code_points "log-2"

abbrev mine : Bytes
mine = code_points "mine"

abbrev mine_filtered : Alias
mine_filtered = record { is_hidden = none; filter = some (code_points "{}") }

-- log-1 is open and reached by the alias mine; log-2 is closed.
abbrev two_logs : Indices
two_logs =
    (log2, record { hidden = false; state_closed = true; aliases = [] })
    ∷ (log1, record { hidden = false; state_closed = false; aliases = (mine, mine_filtered) ∷ [] })
    ∷ []

abbrev logs : Resolver
logs = new_expr_resolver two_logs

-- searchIndicesOptions
abbrev for_search : IndicesOptions
for_search = record {
  ignore_unavailable = false;
  allow_no_indices = true;
  expand_open = true;
  expand_closed = false;
  expand_hidden = false;
  forbid_closed = true;
  ignore_aliases = false;
}

abbrev all_states : IndicesOptions
all_states = record for_search { expand_closed = true; forbid_closed = false }

abbrev lenient : IndicesOptions
lenient = record for_search { ignore_unavailable = true }

-- log-*,-log-2
abbrev all_but_two : List Bytes
all_but_two = code_points "log-*" ∷ code_points "-log-2" ∷ []

all_but_two_expanded : expand logs all_but_two all_states false ≡ gives (log1 ∷ [])
unfolding expand new_expr_resolver same_bytes star_match
all_but_two_expanded = refl

-- The minus sign is part of a name if there was no wildcard.
minus_named :
    expand logs (code_points "log-1" ∷ code_points "-log-2" ∷ []) all_states false
    ≡ refuses (index_not_found (code_points "-log-2"))
unfolding expand new_expr_resolver same_bytes star_match
minus_named = refl

closed_refused : concrete logs (mine ∷ log2 ∷ []) for_search ≡ refuses (index_closed log2)
unfolding concrete new_expr_resolver same_bytes star_match
closed_refused = refl

mine_reached : concrete logs (mine ∷ log1 ∷ []) for_search ≡ gives (log1 ∷ [])
unfolding concrete new_expr_resolver same_bytes star_match
mine_reached = refl

closed_asked :
    resolve_indices
      (λ v. v == [])
      two_logs
      (code_points "log-*,")
      ((code_points "expand_wildcards", code_points "closed")
        ∷ (code_points "ignore_unavailable", code_points "true")
        ∷ [])
      all_states
    ≡ gives (log2 ∷ [])
unfolding resolve_indices same_bytes star_match
closed_asked = refl

expand-last_word_example :
    member log2 (log1 ∷ [])
    ≡ or_before false (last_word logs all_states false log2 false all_but_two)
expand-last_word_example =
    expand-last_word logs all_states false all_but_two (log1 ∷ []) refl refl all_but_two_expanded
      log2

concrete-Concrete_example : Concrete logs for_search (mine ∷ log1 ∷ []) (log1 ∷ [])
concrete-Concrete_example =
    concrete-Concrete logs for_search (mine ∷ log1 ∷ []) (log1 ∷ []) mine_reached

concrete-Gives_example :
    Gives (concrete logs (log2 ∷ code_points "none" ∷ code_points "x*" ∷ []) lenient)
concrete-Gives_example =
    concrete-Gives logs lenient refl refl (log2 ∷ code_points "none" ∷ code_points "x*" ∷ [])
      (inr (refl, (refl, (refl, tt))))

filtering_aliases-member_example :
    member mine (filtering_aliases log1 ((mine, mine_filtered) ∷ []) (mine ∷ log2 ∷ [])) ≡ (
      not (any_unfiltered log1 ((mine, mine_filtered) ∷ []) (mine ∷ log2 ∷ []))
      && (member mine (mine ∷ log2 ∷ [])
          && is_filter_alias (lookup mine ((mine, mine_filtered) ∷ []))))
unfolding lookup same_bytes
filtering_aliases-member_example =
    filtering_aliases-member log1 ((mine, mine_filtered) ∷ []) mine (mine ∷ log2 ∷ []) refl refl

new_expr_resolver-holds_example : holds log1 (lookup mine logs.known) ≡ (
    if is_some (lookup mine two_logs)
    then mine == log1
    else is_some (lookup mine (aliases_of (lookup log1 two_logs))))
new_expr_resolver-holds_example = new_expr_resolver-holds log1 mine two_logs
