-- ===== src/Router/Registered.antt =====
-- The routes that `newRouter` stores are the first ones registered (http_router.go, `addRouteMethods`).
use osmem.Prelude.{
  Bool, true, false, ◌&&◌, Option, some, none, List, [], ◌∷◌, ◌≡◌, inl, inr, refl, sym, ap, subst,
  ◌∙◌, if◌then◌else◌, Bool-cases, false≢true,
}
use osmem.Prelude.Dict.{lookup}
use osmem.Glob.{Bytes, same_bytes, bytes_keys, same_bytes_iff}
use osmem.Router.{Route, MethodHandlers, add_route_methods, route_pattern}
use osmem.Router.Trie.{
  insert_at, TrieNode, trie_node, Router, empty_router, find_child, set_child, or_new,
  insert_pattern, insert_route, insert_routes, keep_handlers, owning, own_path, Children, own_paths,
  new_router,
}
use osmem.Router.Stored.{
  Shape, shape, below, handlers_at, handlers_at-insert_at, handlers_at-other, find_child-set_child,
}
use osmem.Router.FirstRoute.{
  first_of, same_shape, same_shape_iff, is_some, serves, first_route, route_in, handlers_under,
  route_in-add,
}

-- A table has the methods of a route added at one pattern.
abbrev Adds : Router → Route → Router → Type 0
Adds rt r new =
    (p : Shape) (m : Bytes)
    → route_in m (handlers_under p new)
      ≡ first_of (route_in m (handlers_under p rt)) (if serves p m r then some r else none)

first_of-none : (o : Option Route) → o ≡ first_of o none
first_of-none none = refl
first_of-none (some r) = refl

module _ (p : Shape) (m : Bytes) (r : Route) (segs : List Bytes) (e : r.pattern ≡ segs) where
  serves-at : serves p m r ≡ (same_shape (shape segs) p && is_some (lookup m r.methods))
  serves-at = ap (λ x. same_shape (shape x) p && is_some (lookup m r.methods)) e

  added_elsewhere :
      (o : Option Route)
      → same_shape (shape segs) p ≡ false
      → o ≡ first_of o (if serves p m r then some r else none)
  added_elsewhere o b =
      first_of-none o
      ∙ ap (λ x. first_of o (if x then some r else none))
          (sym (serves-at ∙ ap (λ x. x && is_some (lookup m r.methods)) b))

  added_here :
      (h : Option MethodHandlers) (pattern : Bytes)
      → same_shape (shape segs) p ≡ true
      → route_in m (some (add_route_methods h pattern r))
        ≡ first_of (route_in m h) (if serves p m r then some r else none)
  added_here h pattern b =
      route_in-add m h pattern r
      ∙ ap (λ x. first_of (route_in m h) (if x then some r else none))
          (sym (serves-at ∙ ap (λ x. x && is_some (lookup m r.methods)) b))

insert_pattern-Adds :
    (rt : Router) (r : Route) (segs : List Bytes)
    → r.pattern ≡ segs
    → Adds rt r (insert_pattern rt segs r)
unfolding shape
insert_pattern-Adds rt r [] e [] m = added_here [] m r [] e rt.root_handlers (47 ∷ []) refl
insert_pattern-Adds rt r [] e (k ∷ p) m =
    added_elsewhere (k ∷ p) m r [] e (route_in m (handlers_under (k ∷ p) rt)) refl
insert_pattern-Adds rt r (seg ∷ segs) e [] m =
    added_elsewhere [] m r (seg ∷ segs) e (route_in m rt.root_handlers) refl
insert_pattern-Adds rt r (seg ∷ segs) e (k ∷ p) m =
    let pattern = route_pattern (seg ∷ segs) in
    let add : Option MethodHandlers → MethodHandlers = λ h. add_route_methods h pattern r in
    elim (Bool-cases (same_shape (shape (seg ∷ segs)) (k ∷ p))) [
      | inl b ↦
          ap (route_in m) (
            subst
              (λ q.
                handlers_at q (insert_at add (seg ∷ segs) rt.root)
                ≡ some (add (handlers_at q rt.root)))
              ((same_shape_iff (shape (seg ∷ segs)) (k ∷ p)).0 b)
              (handlers_at-insert_at add (seg ∷ segs) rt.root))
          ∙ added_here (k ∷ p) m r (seg ∷ segs) e (handlers_at (k ∷ p) rt.root) pattern b
      | inr b ↦
          ap (route_in m) (
            handlers_at-other add (seg ∷ segs) (k ∷ p) rt.root
              (λ q. false≢true (sym b ∙ (same_shape_iff (shape (seg ∷ segs)) (k ∷ p)).1 q)))
          ∙ added_elsewhere (k ∷ p) m r (seg ∷ segs) e (route_in m (handlers_at (k ∷ p) rt.root)) b
    ]

first_of_assoc : (a b c : Option Route) → first_of (first_of a b) c ≡ first_of a (first_of b c)
first_of_assoc none b c = refl
first_of_assoc (some r) b c = refl

first_of-if :
    (b : Bool) (r : Route) (o : Option Route)
    → first_of (if b then some r else none) o ≡ (if b then some r else o)
first_of-if true r o = refl
first_of-if false r o = refl

insert_routes-first :
    (rt : Router) (routes : List Route) (p : Shape) (m : Bytes)
    → route_in m (handlers_under p (insert_routes rt routes))
      ≡ first_of (route_in m (handlers_under p rt)) (first_route p m routes)
unfolding insert_routes first_route insert_route
insert_routes-first rt [] p m = first_of-none (route_in m (handlers_under p rt))
insert_routes-first rt (r ∷ routes) p m =
    insert_routes-first (insert_route rt r) routes p m
    ∙ ap (λ o. first_of o (first_route p m routes)) (insert_pattern-Adds rt r r.pattern refl p m)
    ∙ first_of_assoc (route_in m (handlers_under p rt)) (if serves p m r then some r else none)
        (first_route p m routes)
    ∙ ap (first_of (route_in m (handlers_under p rt)))
        (first_of-if (serves p m r) r (first_route p m routes))

route_in-keep :
    (m name : Bytes) (h : Option MethodHandlers)
    → route_in m (some (keep_handlers name h)) ≡ route_in m h
route_in-keep m name none = unfold lookup in refl
route_in-keep m name (some h) = refl

owning-same :
    (m name : Bytes) (n : TrieNode) (p : Shape)
    → route_in m (handlers_at p (owning name n)) ≡ route_in m (handlers_at p n)
unfolding handlers_at
owning-same m name (trie_node cs w h) [] = route_in-keep m name h
owning-same m name (trie_node cs w h) (none ∷ p) = refl
owning-same m name (trie_node cs w h) (some t ∷ p) = refl

own_path-child :
    (m name t : Bytes) (cs : Children) (p : Shape)
    → route_in m (
        handlers_at p
          (or_new (find_child t (set_child name (owning name (or_new (find_child name cs))) cs))))
      ≡ route_in m (handlers_at p (or_new (find_child t cs)))
own_path-child m name t cs p =
    let n = owning name (or_new (find_child name cs)) in
    elim (Bool-cases (same_bytes name t)) [
      | inr b ↦
          ap (λ o. route_in m (handlers_at p (or_new o)))
            (find_child-set_child t name n cs ∙ ap (λ x. if x then some n else find_child t cs) b)
      | inl b ↦
          ap (λ o. route_in m (handlers_at p (or_new o)))
            (find_child-set_child t name n cs ∙ ap (λ x. if x then some n else find_child t cs) b)
          ∙ owning-same m name (or_new (find_child name cs)) p
          ∙ ap (λ u. route_in m (handlers_at p (or_new (find_child u cs))))
              ((same_bytes_iff name t).0 b)
    ]

own_path-same :
    (m name : Bytes) (n : TrieNode) (p : Shape)
    → route_in m (handlers_at p (own_path name n)) ≡ route_in m (handlers_at p n)
unfolding handlers_at
own_path-same m name (trie_node cs w h) [] = refl
own_path-same m name (trie_node cs w h) (none ∷ p) = refl
own_path-same m name (trie_node cs w h) (some t ∷ p) =
    ap (route_in m) (below (some t) p (own_path name (trie_node cs w h)))
    ∙ own_path-child m name t cs p
    ∙ sym (ap (route_in m) (below (some t) p (trie_node cs w h)))

own_paths-same :
    (m : Bytes) (names : List Bytes) (n : TrieNode) (p : Shape)
    → route_in m (handlers_at p (own_paths names n)) ≡ route_in m (handlers_at p n)
unfolding own_paths
own_paths-same m [] n p = refl
own_paths-same m (name ∷ names) n p =
    own_paths-same m names (own_path name n) p ∙ own_path-same m name n p

none_empty : (m : Bytes) (p : Shape) → route_in m (handlers_under p empty_router) ≡ none
unfolding handlers_at find_child
none_empty m [] = refl
none_empty m (none ∷ p) = refl
none_empty m (some t ∷ p) = refl

-- What `newRouter` stores for a method under a pattern, named wildcards taken as one, is the first of
-- the routes with that pattern and method.
pub new_router-first :
    (endpoints : List Bytes) (routes : List Route) (p : Shape) (m : Bytes)
    → route_in m (handlers_under p (new_router endpoints routes)) ≡ first_route p m routes
unfolding new_router
new_router-first endpoints routes [] m = insert_routes-first empty_router routes [] m
new_router-first endpoints routes (k ∷ p) m =
    own_paths-same m endpoints (insert_routes empty_router routes).root (k ∷ p)
    ∙ insert_routes-first empty_router routes (k ∷ p) m
    ∙ ap (λ o. first_of o (first_route (k ∷ p) m routes)) (none_empty m (k ∷ p))
