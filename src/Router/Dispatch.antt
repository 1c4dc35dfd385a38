-- ===== src/Router/Dispatch.antt =====
-- http_router.go: `javaSplitPath`, `dispatch`, `validMethodsOf`, `orderMethods` and `bindPathVars`.
use osmem.Prelude.{
  ℕ, Bool, true, false, ◌||◌, Option, some, none, List, [], ◌∷◌, if◌then◌else◌, eqb, code_points,
}
use osmem.Prelude.Dict.{Dict, ◌==◌, lookup, insert}
use osmem.Glob.{Bytes, bytes_keys}
use osmem.Router.{Route, MethodHandlers, is_named_wildcard}
use osmem.Router.Trie.{
  Router, TrieMode, explicit_only, wildcard_root, wildcard_leaf, wildcard_nodes, retrieve_path,
}

-- strings.Split(path, "/")
unfoldable pub split_slash : Bytes → List Bytes
split_slash [] = [] ∷ []
split_slash (c ∷ s) = elim (split_slash s) [
  | [] ↦ (c ∷ []) ∷ []
  | part ∷ parts ↦ if eqb c 47 then [] ∷ part ∷ parts else (c ∷ part) ∷ parts
]

abbrev pub cons_unless_empty : Bytes → List Bytes → List Bytes
cons_unless_empty [] [] = []
cons_unless_empty [] (next ∷ parts) = [] ∷ next ∷ parts
cons_unless_empty (c ∷ part) parts = (c ∷ part) ∷ parts

unfoldable pub drop_trailing : List Bytes → List Bytes
drop_trailing [] = []
drop_trailing (part ∷ parts) = cons_unless_empty part (drop_trailing parts)

-- `javaSplitPath`, which is `pathTokens`
unfoldable pub path_tokens : Bytes → List Bytes
unfolding split_slash drop_trailing
path_tokens path = drop_trailing (split_slash path)

abbrev pub all_modes : List TrieMode
all_modes = explicit_only ∷ wildcard_root ∷ wildcard_leaf ∷ wildcard_nodes ∷ []

-- set[m] = true
unfoldable pub add_all : Dict Bytes Route → Dict Bytes Bool → Dict Bytes Bool
unfolding insert
add_all [] set = set
add_all (entry ∷ methods) set = add_all methods (insert entry.0 true set)

abbrev pub with_handlers : Option MethodHandlers → Dict Bytes Bool × Bytes → Dict Bytes Bool × Bytes
with_handlers none (set, primary) = (set, primary)
with_handlers (some h) (set, []) = (add_all h.methods set, h.pattern)
with_handlers (some h) (set, c ∷ primary) = (add_all h.methods set, c ∷ primary)

-- The loop of `validMethodsOf`.
unfoldable pub collect :
    Router → List Bytes → List TrieMode → Dict Bytes Bool × Bytes → Dict Bytes Bool × Bytes
unfolding retrieve_path add_all
collect rt tokens [] found = found
collect rt tokens (mode ∷ modes) found =
    collect rt tokens modes (with_handlers (retrieve_path rt tokens mode) found)

unfoldable pub contains : Bytes → List Bytes → Bool
contains m [] = false
contains m (n ∷ names) = n == m || contains m names

abbrev pub post_first : List Bytes
post_first =
    code_points "/_index_template/{name}"
    ∷ code_points "/_component_template/{name}"
    ∷ code_points "/{index}/_doc/{id}"
    ∷ code_points "/{index}/_mapping"
    ∷ []

abbrev pub method_order : Bool → List Bytes
method_order swapped =
    code_points "HEAD"
    ∷ code_points "DELETE"
    ∷ code_points "PUT"
    ∷ (if swapped then code_points "POST" else code_points "GET")
    ∷ (if swapped then code_points "GET" else code_points "POST")
    ∷ code_points "OPTIONS"
    ∷ code_points "PATCH"
    ∷ code_points "TRACE"
    ∷ code_points "CONNECT"
    ∷ []

abbrev pub is_set : Option Bool → Bool
is_set none = false
is_set (some b) = b

unfoldable pub pick : Dict Bytes Bool → List Bytes → List Bytes
unfolding lookup
pick set [] = []
pick set (m ∷ names) =
    let later = pick set names in if is_set (lookup m set) then m ∷ later else later

unfoldable pub order_methods : Dict Bytes Bool × Bytes → List Bytes
unfolding pick contains
order_methods (set, pattern) = pick set (method_order (contains pattern post_first))

unfoldable pub valid_methods_of : Router → List Bytes → List Bytes
unfolding collect order_methods
valid_methods_of rt tokens = order_methods (collect rt tokens all_modes ([], []))

-- strings.Trim(seg, "{}")
abbrev is_brace : ℕ → Bool
is_brace c = eqb c 123 || eqb c 125

abbrev trim_left : Bytes → Bytes
trim_left [] = []
trim_left (c ∷ s) = let later = trim_left s in if is_brace c then later else c ∷ s

abbrev trim_last : ℕ → Bytes → Bytes
trim_last c [] = if is_brace c then [] else c ∷ []
trim_last c (d ∷ s) = c ∷ d ∷ s

abbrev trim_right : Bytes → Bytes
trim_right [] = []
trim_right (c ∷ s) = trim_last c (trim_right s)

-- What url.PathUnescape gives, none for an error.
abbrev pub or_raw : Bytes → Option Bytes → Bytes
or_raw value none = value
or_raw value (some decoded) = decoded

-- The loop of `bindPathVars`.
unfoldable pub bind_vars :
    (Bytes → Option Bytes) → List Bytes → List Bytes → Dict Bytes Bytes → Dict Bytes Bytes
unfolding is_named_wildcard insert
bind_vars unescape [] tokens vars = vars
bind_vars unescape (seg ∷ pattern) [] vars = vars
bind_vars unescape (seg ∷ pattern) (token ∷ tokens) vars = bind_vars unescape pattern tokens (
    if is_named_wildcard seg
    then insert (trim_right (trim_left seg)) (or_raw token (unescape token)) vars
    else vars)

abbrev drop_root : List Bytes → List Bytes
drop_root [] = []
drop_root ([] ∷ tokens) = tokens
drop_root ((c ∷ token) ∷ tokens) = (c ∷ token) ∷ tokens

unfoldable pub bind_path_vars : (Bytes → Option Bytes) → List Bytes → List Bytes → Dict Bytes Bytes
unfolding bind_vars
bind_path_vars unescape pattern tokens = bind_vars unescape pattern (drop_root tokens) []

-- `dispatchOutcome`, with what `dispatch` returns beside it.
pub data Outcome : Type 0 where
  found : Route → Bytes → Dict Bytes Bytes → Outcome
  method_not_allowed : List Bytes → Outcome
  options : List Bytes → Outcome
  no_handler : Outcome

abbrev pub paired : Bytes → Option Route → Option (Route × Bytes)
paired pattern none = none
paired pattern (some r) = some (r, pattern)

abbrev pub handler_of : Bytes → Option MethodHandlers → Option (Route × Bytes)
handler_of m none = none
handler_of m (some h) = paired h.pattern (lookup m h.methods)

-- What follows when a mode has no handler of the method.
abbrev pub not_here : Bytes → List Bytes → Outcome → Outcome
not_here m [] later =
    if contains m [] then later else if m == code_points "OPTIONS" then options [] else later
not_here m (v ∷ valid) later =
    if contains m (v ∷ valid)
    then later
    else if m == code_points "OPTIONS"
    then options (v ∷ valid)
    else method_not_allowed (v ∷ valid)

abbrev pub in_mode : (Route → Bytes → Outcome) → Option (Route × Bytes) → Outcome → Outcome
in_mode done none otherwise = otherwise
in_mode done (some (r, pattern)) otherwise = done r pattern

-- The loop of `dispatch` over the modes.
unfoldable pub dispatch_modes :
    (Bytes → Option Bytes) → Router → Bytes → List Bytes → List Bytes → List TrieMode → Outcome
unfolding retrieve_path lookup contains bind_path_vars
dispatch_modes unescape rt m tokens valid [] = no_handler
dispatch_modes unescape rt m tokens valid (mode ∷ modes) =
    in_mode (λ r pattern. found r pattern (bind_path_vars unescape r.pattern tokens))
      (handler_of m (retrieve_path rt tokens mode))
      (not_here m valid (dispatch_modes unescape rt m tokens valid modes))

unfoldable pub dispatch : (Bytes → Option Bytes) → Router → Bytes → Bytes → Outcome
unfolding dispatch_modes valid_methods_of path_tokens
dispatch unescape rt m path =
    let tokens = path_tokens path in
    dispatch_modes unescape rt m tokens (valid_methods_of rt tokens) all_modes
