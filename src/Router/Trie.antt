-- ===== src/Router/Trie.antt =====
-- http_router.go: `trieNode`, `insert`, `newRouter` and `retrieve`.
use osmem.Prelude.{
  ℕ, suc, Bool, true, false, ◌&&◌, ◌||◌, Option, some, none, List, [], ◌∷◌, if◌then◌else◌, eqb,
}
use osmem.Prelude.Dict.{◌==◌}
use osmem.Glob.{Bytes, star, bytes_keys}
use osmem.Router.{Route, MethodHandlers, is_named_wildcard, route_pattern, add_route_methods}

mutual
  pub data TrieNode : Type 0 where
    trie_node : Children → Wildcard → Option MethodHandlers → TrieNode

  pub data Children : Type 0 where
    no_child : Children
    child : Bytes → TrieNode → Children → Children

  pub data Wildcard : Type 0 where
    no_wildcard : Wildcard
    wildcard : TrieNode → Wildcard

abbrev pub empty_node : TrieNode
empty_node = trie_node no_child no_wildcard none

unfoldable pub find_child : Bytes → Children → Option TrieNode
find_child token no_child = none
find_child token (child name n later) =
    let found = find_child token later in if name == token then some n else found

unfoldable pub set_child : Bytes → TrieNode → Children → Children
set_child token m no_child = child token m no_child
set_child token m (child name n later) =
    let rest = set_child token m later in
    if name == token then child name m later else child name n rest

abbrev pub wildcard_of : Wildcard → Option TrieNode
wildcard_of no_wildcard = none
wildcard_of (wildcard n) = some n

abbrev pub or_new : Option TrieNode → TrieNode
or_new none = empty_node
or_new (some n) = n

-- The loop of `insert` over the segments of a pattern; `add` is its last line.
unfoldable pub insert_at :
    (Option MethodHandlers → MethodHandlers) → List Bytes → TrieNode → TrieNode
unfolding is_named_wildcard find_child set_child
insert_at add [] (trie_node cs w h) = trie_node cs w (some (add h))
insert_at add (seg ∷ segs) (trie_node cs w h) =
    let target =
      if is_named_wildcard seg then or_new (wildcard_of w) else or_new (find_child seg cs) in
    let node = insert_at add segs target in
    if is_named_wildcard seg
    then trie_node cs (wildcard node) h
    else trie_node (set_child seg node cs) w h

pub record Router : Type 0 where
  pub root : TrieNode
  pub root_handlers : Option MethodHandlers

abbrev pub insert_pattern : Router → List Bytes → Route → Router
insert_pattern rt [] r = record rt {
  root_handlers = some (add_route_methods rt.root_handlers (47 ∷ []) r);
}
insert_pattern rt (seg ∷ segs) r = record rt {
  root = insert_at (λ h. add_route_methods h (route_pattern (seg ∷ segs)) r) (seg ∷ segs) rt.root;
}

unfoldable pub insert_route : Router → Route → Router
unfolding insert_at add_route_methods route_pattern
insert_route rt r = insert_pattern rt r.pattern r

unfoldable pub insert_routes : Router → List Route → Router
unfolding insert_route
insert_routes rt [] = rt
insert_routes rt (r ∷ routes) = insert_routes (insert_route rt r) routes

abbrev pub empty_router : Router
empty_router = record { root = empty_node; root_handlers = none }

abbrev pub keep_handlers : Bytes → Option MethodHandlers → MethodHandlers
keep_handlers name none = record { pattern = 47 ∷ name; methods = [] }
keep_handlers name (some h) = h

abbrev pub owning : Bytes → TrieNode → TrieNode
owning name (trie_node cs w h) = trie_node cs w (some (keep_handlers name h))

-- A child of the root that owns its path, without a method.
abbrev pub own_path : Bytes → TrieNode → TrieNode
own_path name (trie_node cs w h) =
    trie_node (set_child name (owning name (or_new (find_child name cs))) cs) w h

unfoldable pub own_paths : List Bytes → TrieNode → TrieNode
unfolding find_child set_child
own_paths [] n = n
own_paths (name ∷ names) n = own_paths names (own_path name n)

-- `newRouter`; `endpoints` is `unimplementedRootEndpoints`.
unfoldable pub new_router : List Bytes → List Route → Router
unfolding insert_routes own_paths
new_router endpoints routes =
    let rt = insert_routes empty_router routes in record rt { root = own_paths endpoints rt.root }

pub data TrieMode : Type 0 where
  explicit_only : TrieMode
  wildcard_root : TrieMode
  wildcard_leaf : TrieMode
  wildcard_nodes : TrieMode

-- Whether a token without a child goes to the wildcard.
abbrev pub takes_wildcard : TrieMode → ℕ → Bool → Bool
takes_wildcard explicit_only i last = false
takes_wildcard wildcard_root i last = eqb i 1
takes_wildcard wildcard_leaf i last = last
takes_wildcard wildcard_nodes i last = true

-- Whether a child without handlers gives way to the wildcard.
abbrev pub leaves_child : TrieMode → ℕ → Bool → Bool
leaves_child explicit_only i last = false
leaves_child wildcard_root i last = eqb i 1
leaves_child wildcard_leaf i last = last
leaves_child wildcard_nodes i last = last

abbrev pub handlers_of : TrieNode → Option MethodHandlers
handlers_of (trie_node cs w h) = h

abbrev pub no_handlers : Option MethodHandlers → Bool
no_handlers none = true
no_handlers (some h) = false

-- The node for a token and `usedWildcard`, from the child and the wildcard.
abbrev pub choose_node :
    Bool → Bool → Bool → Option TrieNode → Option TrieNode → Option (TrieNode × Bool)
choose_node takes leaves is_star none none = none
choose_node takes leaves is_star none (some w) = if takes then some (w, true) else none
choose_node takes leaves is_star (some m) none = some (m, is_star)
choose_node takes leaves is_star (some m) (some w) =
    if leaves && no_handlers (handlers_of m) then some (w, true) else some (m, is_star)

unfoldable pub choose : TrieMode → ℕ → Bytes → Bool → TrieNode → Option (TrieNode × Bool)
unfolding find_child
choose mode i token last (trie_node cs w h) =
    choose_node (takes_wildcard mode i last) (leaves_child mode i last) (token == (star ∷ []))
      (find_child token cs) (wildcard_of w)

abbrev pub is_explicit : TrieMode → Bool
is_explicit explicit_only = true
is_explicit wildcard_root = false
is_explicit wildcard_leaf = false
is_explicit wildcard_nodes = false

abbrev pub or_else : Option MethodHandlers → Option MethodHandlers → Option MethodHandlers
or_else none h = h
or_else (some g) h = some g

abbrev pub last_handlers : Option (TrieNode × Bool) → Option MethodHandlers
last_handlers none = none
last_handlers (some (m, used)) = handlers_of m

-- The call on the chosen node, and the one on the wildcard if that finds nothing.
abbrev pub look_deeper :
    TrieMode
    → (TrieNode → Option MethodHandlers)
    → Option (TrieNode × Bool)
    → Wildcard
    → Option MethodHandlers
look_deeper mode deeper none w = none
look_deeper mode deeper (some (m, used)) no_wildcard = deeper m
look_deeper mode deeper (some (m, used)) (wildcard n) =
    if used || is_explicit mode then deeper m else or_else (deeper m) (deeper n)

abbrev pub node_wildcard : TrieNode → Wildcard
node_wildcard (trie_node cs w h) = w

-- `retrieve` on the tokens from an index on.
unfoldable pub retrieve : TrieMode → ℕ → List Bytes → TrieNode → Option MethodHandlers
unfolding choose
retrieve mode i [] n = none
retrieve mode i (token ∷ []) n = last_handlers (choose mode i token true n)
retrieve mode i (token ∷ next ∷ tokens) n =
    look_deeper mode (retrieve mode (suc i) (next ∷ tokens)) (choose mode i token false n)
      (node_wildcard n)

unfoldable pub retrieve_path : Router → List Bytes → TrieMode → Option MethodHandlers
unfolding retrieve
retrieve_path rt [] mode = rt.root_handlers
retrieve_path rt ([] ∷ tokens) mode = retrieve mode 1 tokens rt.root
retrieve_path rt ((c ∷ token) ∷ tokens) mode = retrieve mode 0 ((c ∷ token) ∷ tokens) rt.root
