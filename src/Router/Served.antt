-- ===== src/Router/Served.antt =====
-- The route that `dispatch` returns is registered, fits the path and has the method (http_router.go).
use osmem.Prelude.{
  ℕ, arith, Option, some, none, List, [], ◌∷◌, ◌≡◌, inl, inr, refl, sym, ap, ◌∙◌, Option-cases,
}
use osmem.Prelude.Dict.{Dict, lookup}
use osmem.Glob.{Bytes, bytes_keys}
use osmem.Router.{Route, MethodHandlers}
use osmem.Router.Trie.{Router, TrieMode, retrieve, retrieve_path, new_router}
use osmem.Router.Dispatch.{
  path_tokens, all_modes, valid_methods_of, bind_path_vars, Outcome, found, method_not_allowed,
  options, no_handler, paired, handler_of, not_here, in_mode, dispatch_modes, dispatch,
}
use osmem.Router.Stored.{Shape}
use osmem.Router.FirstRoute.{route_in, handlers_under, first_route}
use osmem.Router.Registered.{new_router-first}
use osmem.Router.Sound.{Fits, Found, retrieve-Found}

-- The pattern fits the path: the token before the first slash is dropped if it is empty.
abbrev pub FitsPath : Shape → List Bytes → Type 0
FitsPath shape [] = shape ≡ []
FitsPath shape ([] ∷ tokens) = Fits shape tokens
FitsPath shape ((c ∷ token) ∷ tokens) = Fits shape ((c ∷ token) ∷ tokens)

abbrev Under : Router → List Bytes → MethodHandlers → Type 0
Under rt tokens h = (shape : Shape) × FitsPath shape tokens × (handlers_under shape rt ≡ some h)

at_root :
    (mode : TrieMode) (n : ℕ) (rt : Router) (tokens : List Bytes) (h : MethodHandlers)
    → retrieve mode n tokens rt.root ≡ some h
    → (shape : Shape) × Fits shape tokens × (handlers_under shape rt ≡ some h)
unfolding retrieve
at_root mode n rt tokens h e = through tokens e (retrieve-Found mode n tokens rt.root h e)
  where
    through :
        (tokens : List Bytes)
        → retrieve mode n tokens rt.root ≡ some h
        → Found tokens rt.root h
        → (shape : Shape) × Fits shape tokens × (handlers_under shape rt ≡ some h)
    through [] q found_there = cc
    through (token ∷ tokens) q ([], fits, at) = absurd fits
    through (token ∷ tokens) q (k ∷ shape, fits, at) = (k ∷ shape, fits, at)

retrieve_path-Under :
    (mode : TrieMode) (rt : Router) (tokens : List Bytes) (h : MethodHandlers)
    → retrieve_path rt tokens mode ≡ some h
    → Under rt tokens h
unfolding retrieve_path
retrieve_path-Under mode rt [] h e = ([], refl, e)
retrieve_path-Under mode rt ([] ∷ tokens) h e = at_root mode 1 rt tokens h e
retrieve_path-Under mode rt ((c ∷ token) ∷ tokens) h e =
    at_root mode 0 rt ((c ∷ token) ∷ tokens) h e

handler_of-way :
    (m : Bytes) (o : Option MethodHandlers) (r : Route) (pattern : Bytes)
    → handler_of m o ≡ some (r, pattern)
    → (h : MethodHandlers) × (o ≡ some h) × (lookup m h.methods ≡ some r)
handler_of-way m none r pattern e = cc
handler_of-way m (some h) r pattern e = (h, refl, through (lookup m h.methods) e)
  where
    through : (o : Option Route) → paired h.pattern o ≡ some (r, pattern) → o ≡ some r
    through none q = cc
    through (some s) q = cc

-- A route comes from one of the modes.
not_here-found :
    (m : Bytes) (valid : List Bytes) (later : Outcome) (r : Route) (pattern : Bytes)
    (vars : Dict Bytes Bytes)
    → not_here m valid later ≡ found r pattern vars
    → later ≡ found r pattern vars
not_here-found m [] later r pattern vars e = ground (arith, e)
not_here-found m (v ∷ valid) later r pattern vars e = ground (arith, e)

abbrev route_of : Outcome → Option (Route × Bytes)
route_of (found r pattern vars) = some (r, pattern)
route_of (method_not_allowed allowed) = none
route_of (options allowed) = none
route_of no_handler = none

dispatch_modes-way :
    (unescape : Bytes → Option Bytes) (rt : Router) (m : Bytes) (tokens valid : List Bytes)
    (modes : List TrieMode) (r : Route) (pattern : Bytes) (vars : Dict Bytes Bytes)
    → dispatch_modes unescape rt m tokens valid modes ≡ found r pattern vars
    → (mode : TrieMode) × (handler_of m (retrieve_path rt tokens mode) ≡ some (r, pattern))
unfolding dispatch_modes
dispatch_modes-way unescape rt m tokens valid [] r pattern vars e = cc
dispatch_modes-way unescape rt m tokens valid (mode ∷ modes) r pattern vars e =
    let round : Outcome → Option (Route × Bytes) → Outcome = λ later o.
      in_mode (λ s p. found s p (bind_path_vars unescape s.pattern tokens)) o
        (not_here m valid later) in
    elim (Option-cases (handler_of m (retrieve_path rt tokens mode))) [
      | inl none_here ↦ dispatch_modes-way unescape rt m tokens valid modes r pattern vars (
          not_here-found m valid (dispatch_modes unescape rt m tokens valid modes) r pattern vars
            (sym (ap (round (dispatch_modes unescape rt m tokens valid modes)) none_here) ∙ e))
      | inr ((s, p), here) ↦ (
        mode,
        here
            ∙ ap route_of
                (sym (ap (round (dispatch_modes unescape rt m tokens valid modes)) here) ∙ e),
      )
    ]

-- The route that `dispatch` returns is the first registered one with its method under a pattern that
-- fits the path.
pub dispatch-served :
    (unescape : Bytes → Option Bytes) (endpoints : List Bytes) (routes : List Route)
    (m path : Bytes) (r : Route) (pattern : Bytes) (vars : Dict Bytes Bytes)
    → dispatch unescape (new_router endpoints routes) m path ≡ found r pattern vars
    → (shape : Shape) × FitsPath shape (path_tokens path) × (first_route shape m routes ≡ some r)
unfolding dispatch
dispatch-served unescape endpoints routes m path r pattern vars e =
    let rt = new_router endpoints routes in
    let tokens = path_tokens path in
    let (mode, here) =
      dispatch_modes-way unescape rt m tokens (valid_methods_of rt tokens) all_modes r pattern vars
        e in
    let (h, there, mine) = handler_of-way m (retrieve_path rt tokens mode) r pattern here in
    let (shape, fits, under) = retrieve_path-Under mode rt tokens h there in
    (shape, fits, sym (new_router-first endpoints routes shape m) ∙ ap (route_in m) under ∙ mine)
