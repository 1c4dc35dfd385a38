-- ===== src/Router/FirstRoute.antt =====
-- The first route that serves a method, and the methods of one more route (http_router.go,
-- `addRouteMethods`).
use osmem.Prelude.{
  Bool, true, false, ◌&&◌, Option, some, none, List, [], ◌∷◌, ◌≡◌, ◌↔◌, inl, inr, refl, ap, ◌∙◌,
  arith, if◌then◌else◌, Option-cases,
}
use osmem.Prelude.Dict.{Dict, lookup, insert, lookup-insert}
use osmem.Glob.{Bytes, same_bytes, bytes_keys, same_bytes_iff}
use osmem.Router.{Route, MethodHandlers, add_methods, add_route_methods}
use osmem.Router.Trie.{Router}
use osmem.Router.Stored.{Shape, shape, handlers_at}

abbrev pub first_of : Option Route → Option Route → Option Route
first_of none later = later
first_of (some r) later = some r

abbrev pub same_kind : Option Bytes → Option Bytes → Bool
same_kind none none = true
same_kind none (some t) = false
same_kind (some t) none = false
same_kind (some t) (some u) = same_bytes t u

abbrev pub same_shape : Shape → Shape → Bool
same_shape [] [] = true
same_shape [] (k ∷ q) = false
same_shape (j ∷ p) [] = false
same_shape (j ∷ p) (k ∷ q) = same_kind j k && same_shape p q

pub same_kind_iff : (j k : Option Bytes) → (same_kind j k ≡ true) ↔ (j ≡ k)
same_kind_iff none none = ground arith
same_kind_iff none (some t) = ground arith
same_kind_iff (some t) none = ground arith
same_kind_iff (some t) (some u) = ground (arith, same_bytes_iff t u)

pub same_shape_iff : (p q : Shape) → (same_shape p q ≡ true) ↔ (p ≡ q)
same_shape_iff [] [] = ground arith
same_shape_iff [] (k ∷ q) = ground arith
same_shape_iff (j ∷ p) [] = ground arith
same_shape_iff (j ∷ p) (k ∷ q) = ground (arith, same_kind_iff j k, same_shape_iff p q)

abbrev pub is_some : Option Bool → Bool
is_some none = false
is_some (some b) = true

-- The route serves the method at the pattern.
abbrev pub serves : Shape → Bytes → Route → Bool
serves p m r = same_shape (shape r.pattern) p && is_some (lookup m r.methods)

-- What a table of routes means: the first route that serves.
unfoldable pub first_route : Shape → Bytes → List Route → Option Route
unfolding shape lookup
first_route p m [] = none
first_route p m (r ∷ routes) =
    let later = first_route p m routes in if serves p m r then some r else later

abbrev pub route_in : Bytes → Option MethodHandlers → Option Route
route_in m none = none
route_in m (some h) = lookup m h.methods

abbrev pub handlers_under : Shape → Router → Option MethodHandlers
handlers_under [] rt = rt.root_handlers
handlers_under (k ∷ p) rt = handlers_at (k ∷ p) rt.root

pub lookup-add_methods :
    (m : Bytes) (r : Route) (methods : Dict Bytes Bool) (known : Dict Bytes Route)
    → lookup m (add_methods r methods known)
      ≡ first_of (lookup m known) (if is_some (lookup m methods) then some r else none)
unfolding add_methods
lookup-add_methods m r [] known = unfold lookup in ground arith
lookup-add_methods m r ((k, b) ∷ methods) known = elim (Option-cases (lookup k known)) [
  | inl e ↦
      rw (e, add_methods)
        (ground (
          arith,
          lookup-add_methods m r methods (insert k r known),
          lookup-insert k m r known,
          e,
          same_bytes_iff k m,
          ap (λ x. lookup x known) {x = k} {y = m},
        ))
  | inr (other, e) ↦
      rw (e, add_methods)
        (ground (
          arith,
          lookup-add_methods m r methods known,
          e,
          same_bytes_iff k m,
          ap (λ x. lookup x known) {x = k} {y = m},
        ))
]

pub route_in-add :
    (m : Bytes) (h : Option MethodHandlers) (pattern : Bytes) (r : Route)
    → route_in m (some (add_route_methods h pattern r))
      ≡ first_of (route_in m h) (if is_some (lookup m r.methods) then some r else none)
unfolding add_route_methods
route_in-add m none pattern r = lookup-add_methods m r r.methods [] ∙ (unfold lookup in refl)
route_in-add m (some h) pattern r = lookup-add_methods m r r.methods h.methods
