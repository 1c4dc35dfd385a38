-- ===== src/Router.antt =====
-- http_router.go: the trie of the routes and its lookup in four modes. Texts are lists of bytes.
pub mod Trie
pub mod Dispatch
pub mod Stored
pub mod FirstRoute
pub mod Registered
pub mod Sound
pub mod Complete
pub mod Valid
pub mod Outcome
pub mod Served
use osmem.Prelude.{
  ℕ, suc, Bool, true, false, ◌&&◌, Option, some, none, List, [], ◌∷◌, ◌++◌, ◌≡◌, ◌↔◌, refl, arith,
  if◌then◌else◌, eqb, eqb_iff, code_points, String,
}
use osmem.Prelude.Dict.{Comparable, Dict, ◌==◌, lookup, insert}
use osmem.Glob.{Bytes, same_bytes, bytes_keys}

-- A route; its function is a number here.
pub record Route : Type 0 where
  pub methods : Dict Bytes Bool
  pub pattern : List Bytes
  pub fn : ℕ

pub record MethodHandlers : Type 0 where
  pub pattern : Bytes
  pub methods : Dict Bytes Route

abbrev pub ends_with : ℕ → Bytes → Bool
ends_with brace [] = false
ends_with brace (c ∷ []) = eqb c brace
ends_with brace (c ∷ d ∷ s) = ends_with brace (d ∷ s)

abbrev pub starts_with : ℕ → Bytes → Bool
starts_with brace [] = false
starts_with brace (c ∷ s) = eqb c brace

-- `isNamedWildcard`: 123 and 125 are the braces.
unfoldable pub is_named_wildcard : Bytes → Bool
is_named_wildcard seg = starts_with 123 seg && ends_with 125 seg

-- "/" + strings.Join(segs, "/"), for at least one segment
unfoldable pub route_pattern : List Bytes → Bytes
route_pattern [] = []
route_pattern (seg ∷ segs) = 47 ∷ seg ++ route_pattern segs

-- The loop of `addRouteMethods` over the methods of a route.
unfoldable pub add_methods : Route → Dict Bytes Bool → Dict Bytes Route → Dict Bytes Route
unfolding lookup insert
add_methods r [] known = known
add_methods r (entry ∷ methods) known = elim (lookup entry.0 known) [
  | none ↦ add_methods r methods (insert entry.0 r known)
  | some other ↦ add_methods r methods known
]

abbrev pub handlers_or_new : Bytes → Option MethodHandlers → MethodHandlers
handlers_or_new pattern none = record { pattern = pattern; methods = [] }
handlers_or_new pattern (some h) = h

unfoldable pub add_route_methods : Option MethodHandlers → Bytes → Route → MethodHandlers
unfolding add_methods
add_route_methods h pattern r =
    let known = handlers_or_new pattern h in
    record known { methods = add_methods r r.methods known.methods }
