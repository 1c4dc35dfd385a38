-- ===== src/Samples/Routes.antt =====
-- A table of three routes and some requests.
use osmem.Prelude.{true, false, Option, some, none, List, [], ◌∷◌, ◌≡◌, refl, code_points, All}
use osmem.Glob.{Bytes, same_bytes, bytes_keys}
use osmem.Router.{Route, MethodHandlers}
use osmem.Router.Trie.{Router, new_router, retrieve, wildcard_nodes}
use osmem.Router.Dispatch.{
  found, dispatch, path_tokens, all_modes, valid_methods_of, contains, method_order,
  method_not_allowed,
}
use osmem.Router.Stored.{Shape}
use osmem.Router.FirstRoute.{route_in, handlers_under, first_route}
use osmem.Router.Registered.{new_router-first}
use osmem.Router.Sound.{Found, retrieve-Found}
use osmem.Router.Complete.{retrieve_complete, is_found, IsPlain}
use osmem.Router.Valid.{first_mode}
use osmem.Router.Outcome.{answer, dispatch-answer}
use osmem.Router.Served.{FitsPath, dispatch-served}

abbrev get : Bytes
get = code_points "GET"

abbrev put : Bytes
put = code_points "PUT"

-- GET /_cat/indices, GET and PUT /{index}, and a later GET /{name}.
abbrev routes : List Route
routes =
    record {
      methods = (get, true) ∷ [];
      pattern = code_points "_cat" ∷ code_points "indices" ∷ [];
      fn = 0;
    }
    ∷ record {
      methods = (get, true) ∷ (put, true) ∷ [];
      pattern = code_points "{index}" ∷ [];
      fn = 1;
    }
    ∷ record { methods = (get, true) ∷ []; pattern = code_points "{name}" ∷ []; fn = 2 }
    ∷ []

abbrev endpoints : List Bytes
endpoints = code_points "_tasks" ∷ []

abbrev router : Router
unfolding new_router
router = new_router endpoints routes

abbrev raw : Bytes → Option Bytes
raw value = none

abbrev books_path : Bytes
books_path = code_points "/books"

abbrev index_route : Route
index_route = record {
  methods = (get, true) ∷ (put, true) ∷ [];
  pattern = code_points "{index}" ∷ [];
  fn = 1;
}

new_router-first_example :
    route_in get (handlers_under (none ∷ []) (new_router endpoints routes))
    ≡ first_route (none ∷ []) get routes
new_router-first_example = new_router-first endpoints routes (none ∷ []) get

books_found :
    dispatch raw (new_router endpoints routes) get books_path
    ≡ found index_route (code_points "/{index}") ((code_points "index", code_points "books") ∷ [])
unfolding new_router dispatch same_bytes
books_found = refl

dispatch-served_example :
    (p : Shape) × FitsPath p (path_tokens books_path)
    × (first_route p get routes ≡ some index_route)
dispatch-served_example =
    dispatch-served raw endpoints routes get books_path index_route (code_points "/{index}")
      ((code_points "index", code_points "books") ∷ []) books_found

put_known : contains put (method_order false) ≡ true
unfolding contains same_bytes
put_known = refl

abbrev cat_path : Bytes
cat_path = code_points "/_cat/indices"

dispatch-answer_example :
    dispatch raw router put cat_path
    ≡ answer raw put
        (path_tokens cat_path)
        (first_mode router put (path_tokens cat_path) all_modes)
        (valid_methods_of router (path_tokens cat_path))
dispatch-answer_example = dispatch-answer raw router put cat_path put_known

cat_refused : dispatch raw router put cat_path ≡ method_not_allowed (get ∷ [])
unfolding dispatch router same_bytes
cat_refused = refl

cat_handlers :
    (h : MethodHandlers) × (retrieve wildcard_nodes 1
        (code_points "_cat" ∷ code_points "indices" ∷ [])
        router.root
      ≡ some h)
unfolding retrieve router same_bytes
cat_handlers = (
  record {
    pattern = cat_path;
    methods =
        (
          get,
          record {
            methods = (get, true) ∷ [];
            pattern = code_points "_cat" ∷ code_points "indices" ∷ [];
            fn = 0;
          },
        )
        ∷ [];
  },
  refl,
)

cat_fits : Found (code_points "_cat" ∷ code_points "indices" ∷ []) router.root cat_handlers.0
cat_fits =
    retrieve-Found wildcard_nodes 1 (code_points "_cat" ∷ code_points "indices" ∷ []) router.root
      cat_handlers.0 cat_handlers.1

plain : All IsPlain (code_points "_cat" ∷ code_points "indices" ∷ [])
unfolding same_bytes
plain = (refl, (refl, tt))

retrieve_complete_example :
    is_found
      (retrieve wildcard_nodes 1 (code_points "_cat" ∷ code_points "indices" ∷ []) router.root)
    ≡ true
retrieve_complete_example =
    retrieve_complete 1 (code_points "_cat") (code_points "indices" ∷ []) router.root cat_handlers.0
      plain cat_fits
