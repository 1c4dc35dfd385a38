-- ===== src/Router/Complete.antt =====
-- The last mode of a lookup finds a node wherever a stored pattern fits (http_router.go, `retrieve`).
use osmem.Prelude.{
  ℕ, suc, Bool, true, false, ◌||◌, Option, some, none, List, [], ◌∷◌, ◌≡◌, refl, sym, ap, ap₂, ◌∙◌,
  arith, All,
}
use osmem.Prelude.Dict.{◌==◌}
use osmem.Glob.{Bytes, star, bytes_keys}
use osmem.Router.{MethodHandlers}
use osmem.Router.Trie.{
  TrieNode, trie_node, Wildcard, no_wildcard, wildcard, find_child, wildcard_of, handlers_of,
  wildcard_nodes, choose_node, choose, or_else, last_handlers, look_deeper, retrieve,
}
use osmem.Router.Stored.{Shape, step, handlers_at}
use osmem.Router.Sound.{Fits, Found}

abbrev pub is_found : Option MethodHandlers → Bool
is_found none = false
is_found (some h) = true

abbrev pub IsPlain : Bytes → Type 0
IsPlain token = (token == (star ∷ [])) ≡ false

-- The search of a node that may be missing.
abbrev in_node : (TrieNode → Bool) → Option TrieNode → Bool
in_node test none = false
in_node test (some m) = test m

or-false : (b : Bool) → b ≡ (b || false)
or-false true = refl
or-false false = refl

is_found-or_else :
    (g h : Option MethodHandlers) → is_found (or_else g h) ≡ (is_found g || is_found h)
is_found-or_else none h = refl
is_found-or_else (some g) h = refl

last_found :
    (c w : Option TrieNode) (is_star : Bool)
    → is_found (last_handlers (choose_node true true is_star c w))
      ≡ (in_node (λ m. is_found (handlers_of m)) c || in_node (λ m. is_found (handlers_of m)) w)
last_found none none is_star = refl
last_found none (some w) is_star = refl
last_found (some c) none is_star = or-false (is_found (handlers_of c))
last_found (some (trie_node cs v none)) (some w) is_star = refl
last_found (some (trie_node cs v (some h))) (some w) is_star = refl

deeper_found :
    (deeper : TrieNode → Option MethodHandlers) (c : Option TrieNode) (w : Wildcard)
    → is_found
        (look_deeper wildcard_nodes deeper (choose_node true false false c (wildcard_of w)) w)
      ≡ (in_node (λ m. is_found (deeper m)) c || in_node (λ m. is_found (deeper m)) (wildcard_of w))
deeper_found deeper none no_wildcard = refl
deeper_found deeper none (wildcard n) = refl
deeper_found deeper (some c) no_wildcard = or-false (is_found (deeper c))
deeper_found deeper (some c) (wildcard n) = is_found-or_else (deeper c) (deeper n)

-- Some stored pattern fits: the search that tries the child and the wildcard at every token.
unfoldable pub fits_somewhere : List Bytes → TrieNode → Bool
unfolding find_child
fits_somewhere [] n = is_found (handlers_of n)
fits_somewhere (token ∷ path) n =
    in_node (fits_somewhere path) (step (some token) n)
    || in_node (fits_somewhere path) (step none n)

in_node-ext :
    (f g : TrieNode → Bool) (o : Option TrieNode)
    → ((m : TrieNode) → f m ≡ g m)
    → in_node f o ≡ in_node g o
in_node-ext f g none e = refl
in_node-ext f g (some m) e = e m

-- The last mode is a full search, on a path of one token or more of which none is a star.
pub retrieve-fits_somewhere :
    (i : ℕ) (token : Bytes) (path : List Bytes) (n : TrieNode)
    → All IsPlain (token ∷ path)
    → is_found (retrieve wildcard_nodes i (token ∷ path) n) ≡ fits_somewhere (token ∷ path) n
unfolding retrieve fits_somewhere choose
retrieve-fits_somewhere i token [] (trie_node cs w h) plain =
    last_found (find_child token cs) (wildcard_of w) (token == (star ∷ []))
retrieve-fits_somewhere i token (next ∷ path) (trie_node cs w h) plain =
    let deeper = retrieve wildcard_nodes (suc i) (next ∷ path) in
    let same = λ (m : TrieNode). retrieve-fits_somewhere (suc i) next path m plain.1 in
    ap
      (λ b. is_found (
        look_deeper wildcard_nodes deeper
          (choose_node true false b (find_child token cs) (wildcard_of w)) w))
      plain.0
    ∙ deeper_found deeper (find_child token cs) w
    ∙ ap₂ (λ a b. a || b)
        (in_node-ext (λ m. is_found (deeper m)) (fits_somewhere (next ∷ path)) (find_child token cs)
          same)
        (in_node-ext (λ m. is_found (deeper m)) (fits_somewhere (next ∷ path)) (wildcard_of w) same)

or-left : (a b : Bool) → a ≡ true → (a || b) ≡ true
or-left a b e = ground (arith, e)

or-right : (a b : Bool) → b ≡ true → (a || b) ≡ true
or-right a b e = ground (arith, e)

handlers_at-below :
    (k : Option Bytes) (shape : Shape) (n : TrieNode) (h : MethodHandlers)
    → handlers_at (k ∷ shape) n ≡ some h
    → (m : TrieNode) × (step k n ≡ some m) × (handlers_at shape m ≡ some h)
unfolding handlers_at
handlers_at-below k shape n h e = through (step k n) refl e
  where
    through :
        (o : Option TrieNode)
        → step k n ≡ o
        → elim o [ none ↦ none | some m ↦ handlers_at shape m ] ≡ some h
        → (m : TrieNode) × (step k n ≡ some m) × (handlers_at shape m ≡ some h)
    through none q r = cc
    through (some m) q r = (m, q, r)

Fits-somewhere :
    (shape : Shape) (path : List Bytes) (n : TrieNode) (h : MethodHandlers)
    → Fits shape path
    → handlers_at shape n ≡ some h
    → fits_somewhere path n ≡ true
unfolding fits_somewhere handlers_at
Fits-somewhere [] [] n h fits at = ap is_found at
Fits-somewhere (none ∷ shape) (token ∷ path) n h fits at =
    let (m, here, later) = handlers_at-below none shape n h at in
    or-right (in_node (fits_somewhere path) (step (some token) n))
      (in_node (fits_somewhere path) (step none n))
      (ap (in_node (fits_somewhere path)) here ∙ Fits-somewhere shape path m h fits later)
Fits-somewhere (some t ∷ shape) (token ∷ path) n h fits at =
    let (m, here, later) = handlers_at-below (some t) shape n h at in
    or-left (in_node (fits_somewhere path) (step (some token) n))
      (in_node (fits_somewhere path) (step none n))
      (ap (λ u. in_node (fits_somewhere path) (step (some u) n)) (sym fits.0)
        ∙ ap (in_node (fits_somewhere path)) here
        ∙ Fits-somewhere shape path m h fits.1 later)
Fits-somewhere [] (token ∷ path) n h fits at = absurd fits
Fits-somewhere (k ∷ shape) [] n h fits at = absurd fits

-- Wherever handlers are stored under a pattern that fits a path of one token or more, of which none
-- is a star, the last mode finds handlers.
pub retrieve_complete :
    (i : ℕ) (token : Bytes) (path : List Bytes) (n : TrieNode) (h : MethodHandlers)
    → All IsPlain (token ∷ path)
    → Found (token ∷ path) n h
    → is_found (retrieve wildcard_nodes i (token ∷ path) n) ≡ true
retrieve_complete i token path n h plain (shape, fits, at) =
    retrieve-fits_somewhere i token path n plain ∙ Fits-somewhere shape (token ∷ path) n h fits at
