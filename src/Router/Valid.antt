-- ===== src/Router/Valid.antt =====
-- The methods that `validMethodsOf` lists (http_router.go).
use osmem.Prelude.{
  Bool, true, false, ◌&&◌, ◌||◌, Option, some, none, List, [], ◌∷◌, ◌≡◌, refl, sym, ap, ◌∙◌, arith,
  code_points,
}
use osmem.Prelude.Dict.{Dict, lookup, insert, lookup-insert}
use osmem.Glob.{Bytes, same_bytes, bytes_keys, same_bytes_iff}
use osmem.Router.{Route, MethodHandlers}
use osmem.Router.Trie.{Router, TrieMode, retrieve_path}
use osmem.Router.Dispatch.{
  all_modes, add_all, with_handlers, collect, contains, post_first, method_order, is_set, pick,
  order_methods, valid_methods_of, paired, handler_of,
}

-- The first mode that has a handler of the method.
unfoldable pub first_mode : Router → Bytes → List Bytes → List TrieMode → Option (Route × Bytes)
unfolding retrieve_path lookup
first_mode rt m tokens [] = none
first_mode rt m tokens (mode ∷ modes) =
    let later = first_mode rt m tokens modes in
    elim (handler_of m (retrieve_path rt tokens mode)) [ none ↦ later | some r ↦ some r ]

abbrev pub has_one : Option (Route × Bytes) → Bool
has_one none = false
has_one (some r) = true

abbrev pub has_route : Option Route → Bool
has_route none = false
has_route (some r) = true

lookup-add_all :
    (m : Bytes) (methods : Dict Bytes Route) (set : Dict Bytes Bool)
    → is_set (lookup m (add_all methods set))
      ≡ (has_route (lookup m methods) || is_set (lookup m set))
unfolding add_all lookup
lookup-add_all m [] set = refl
lookup-add_all m ((k, r) ∷ methods) set = ground (
  arith,
  lookup-add_all m methods (insert k true set),
  lookup-insert k m true set,
  same_bytes_iff k m,
)

has_one-handler_of :
    (m : Bytes) (h : MethodHandlers)
    → has_one (handler_of m (some h)) ≡ has_route (lookup m h.methods)
has_one-handler_of m h = through (lookup m h.methods)
  where
    through : (o : Option Route) → has_one (paired h.pattern o) ≡ has_route o
    through none = refl
    through (some r) = refl

with_handlers-set :
    (m : Bytes) (h : Option MethodHandlers) (set : Dict Bytes Bool) (primary : Bytes)
    → is_set (lookup m (with_handlers h (set, primary)).0)
      ≡ (has_one (handler_of m h) || is_set (lookup m set))
with_handlers-set m none set primary = refl
with_handlers-set m (some h) set [] =
    lookup-add_all m h.methods set
    ∙ ap (λ b. b || is_set (lookup m set)) (sym (has_one-handler_of m h))
with_handlers-set m (some h) set (c ∷ primary) =
    lookup-add_all m h.methods set
    ∙ ap (λ b. b || is_set (lookup m set)) (sym (has_one-handler_of m h))

or-order : (a b c : Bool) → (a || (b || c)) ≡ ((b || a) || c)
or-order true true c = refl
or-order true false c = refl
or-order false true c = refl
or-order false false c = refl

has_one-first :
    (o later : Option (Route × Bytes))
    → has_one (elim o [ none ↦ later | some r ↦ some r ]) ≡ (has_one o || has_one later)
has_one-first none later = refl
has_one-first (some r) later = refl

collect-set :
    (rt : Router) (m : Bytes) (tokens : List Bytes) (modes : List TrieMode) (set : Dict Bytes Bool)
    (primary : Bytes)
    → is_set (lookup m (collect rt tokens modes (set, primary)).0)
      ≡ (has_one (first_mode rt m tokens modes) || is_set (lookup m set))
unfolding collect first_mode
collect-set rt m tokens [] set primary = refl
collect-set rt m tokens (mode ∷ modes) set primary =
    let h = retrieve_path rt tokens mode in
    let next = with_handlers h (set, primary) in
    collect-set rt m tokens modes next.0 next.1
    ∙ ap (λ b. has_one (first_mode rt m tokens modes) || b) (with_handlers-set m h set primary)
    ∙ or-order (has_one (first_mode rt m tokens modes)) (has_one (handler_of m h))
        (is_set (lookup m set))
    ∙ ap (λ b. b || is_set (lookup m set))
        (sym (has_one-first (handler_of m h) (first_mode rt m tokens modes)))

contains-pick :
    (m : Bytes) (set : Dict Bytes Bool) (names : List Bytes)
    → contains m (pick set names) ≡ (contains m names && is_set (lookup m set))
unfolding contains pick
contains-pick m set [] = refl
contains-pick m set (k ∷ names) = ground (
  arith,
  contains-pick m set names,
  same_bytes_iff k m,
  ap (λ x. is_set (lookup x set)) {x = k} {y = m},
)

or-swap : (a b c : Bool) → (a || (b || c)) ≡ (b || (a || c))
or-swap true true c = refl
or-swap true false c = refl
or-swap false true c = refl
or-swap false false c = refl

-- A method of net/http that the router knows.
abbrev pub IsKnown : Bytes → Type 0
IsKnown m = contains m (method_order false) ≡ true

contains-order : (m : Bytes) (swapped : Bool) → IsKnown m → contains m (method_order swapped) ≡ true
unfolding contains
contains-order m false known = known
contains-order m true known =
    ap
      (λ b.
        same_bytes (code_points "HEAD") m
        || (same_bytes (code_points "DELETE") m || (same_bytes (code_points "PUT") m || b)))
      (or-swap (same_bytes (code_points "POST") m) (same_bytes (code_points "GET") m) (
        contains m (
          code_points "OPTIONS"
          ∷ code_points "PATCH"
          ∷ code_points "TRACE"
          ∷ code_points "CONNECT"
          ∷ [])))
    ∙ known

order_methods-contains :
    (m : Bytes) (set : Dict Bytes Bool) (pattern : Bytes)
    → IsKnown m
    → contains m (order_methods (set, pattern)) ≡ is_set (lookup m set)
unfolding order_methods
order_methods-contains m set pattern known =
    let swapped = contains pattern post_first in
    contains-pick m set (method_order swapped)
    ∙ ap (λ b. b && is_set (lookup m set)) (contains-order m swapped known)

or-false : (b : Bool) → (b || false) ≡ b
or-false true = refl
or-false false = refl

-- A method that the router knows is among those that `validMethodsOf` lists exactly when some mode
-- handles it.
pub valid_methods_of-contains :
    (rt : Router) (m : Bytes) (tokens : List Bytes)
    → IsKnown m
    → contains m (valid_methods_of rt tokens) ≡ has_one (first_mode rt m tokens all_modes)
unfolding valid_methods_of lookup
valid_methods_of-contains rt m tokens known =
    let all = collect rt tokens all_modes ([], []) in
    order_methods-contains m all.0 all.1 known
    ∙ collect-set rt m tokens all_modes [] []
    ∙ or-false (has_one (first_mode rt m tokens all_modes))
