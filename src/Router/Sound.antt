-- ===== src/Router/Sound.antt =====
-- The node that a lookup finds stands under a pattern that fits the path, and the last mode finds one
-- whenever there is one (http_router.go, `retrieve`).
use osmem.Prelude.{
  ℕ, suc, Bool, true, false, ◌&&◌, ◌||◌, Option, some, none, List, [], ◌∷◌, ◌≡◌, ◌⊎◌, inl, inr,
  refl, ap, ◌∙◌, if◌then◌else◌,
}
use osmem.Prelude.Dict.{◌==◌}
use osmem.Glob.{Bytes, star, bytes_keys}
use osmem.Router.{MethodHandlers}
use osmem.Router.Trie.{
  TrieNode, trie_node, Wildcard, no_wildcard, wildcard, find_child, wildcard_of, handlers_of,
  no_handlers, TrieMode, takes_wildcard, leaves_child, choose_node, choose, is_explicit, or_else,
  last_handlers, look_deeper, node_wildcard, retrieve,
}
use osmem.Router.Stored.{Shape, step, handlers_at}

-- The tokens have the literal segments of the pattern, and anything at its wildcards.
abbrev pub Fits : Shape → List Bytes → Type 0
Fits [] [] = Unit
Fits [] (token ∷ tokens) = ⊥
Fits (k ∷ shape) [] = ⊥
Fits (none ∷ shape) (token ∷ tokens) = Fits shape tokens
Fits (some t ∷ shape) (token ∷ tokens) = (t ≡ token) × Fits shape tokens

abbrev pub Found : List Bytes → TrieNode → MethodHandlers → Type 0
Found path n h = (shape : Shape) × Fits shape path × (handlers_at shape n ≡ some h)

handlers_at-step :
    (k : Option Bytes) (shape : Shape) (n m : TrieNode)
    → step k n ≡ some m
    → handlers_at (k ∷ shape) n ≡ handlers_at shape m
unfolding handlers_at
handlers_at-step k shape n m e = ap (λ o. elim o [ none ↦ none | some m ↦ handlers_at shape m ]) e

-- The node is a child for the token, or the wildcard.
abbrev Next : Bytes → TrieNode → TrieNode → Type 0
Next token n m = (step none n ≡ some m) ⊎ (step (some token) n ≡ some m)

Found-below :
    (token : Bytes) (path : List Bytes) (n m : TrieNode) (h : MethodHandlers)
    → Next token n m
    → Found path m h
    → Found (token ∷ path) n h
Found-below token path n m h (inl e) (shape, fits, at) =
    (none ∷ shape, fits, handlers_at-step none shape n m e ∙ at)
Found-below token path n m h (inr e) (shape, fits, at) =
    (some token ∷ shape, (refl, fits), handlers_at-step (some token) shape n m e ∙ at)

choose_node-way :
    (takes leaves is_star : Bool) (c w : Option TrieNode) (m : TrieNode) (used : Bool)
    → choose_node takes leaves is_star c w ≡ some (m, used)
    → (w ≡ some m) ⊎ (c ≡ some m)
choose_node-way takes leaves is_star none none m used e = cc
choose_node-way true leaves is_star none (some w) m used e = inl cc
choose_node-way false leaves is_star none (some w) m used e = cc
choose_node-way takes leaves is_star (some c) none m used e = inr cc
choose_node-way takes leaves is_star (some c) (some w) m used e =
    wildcard_or_child (leaves && no_handlers (handlers_of c)) e
  where
    wildcard_or_child :
        (b : Bool)
        → if◌then◌else◌ {A = Option (TrieNode × Bool)} b (some (w, true)) (some (c, is_star))
          ≡ some (m, used)
        → (some w ≡ some m) ⊎ (some c ≡ some m)
    wildcard_or_child true q = inl cc
    wildcard_or_child false q = inr cc

choose-Next :
    (mode : TrieMode) (i : ℕ) (token : Bytes) (last : Bool) (n m : TrieNode) (used : Bool)
    → choose mode i token last n ≡ some (m, used)
    → Next token n m
unfolding choose
choose-Next mode i token last (trie_node cs w h) m used e =
    choose_node-way (takes_wildcard mode i last) (leaves_child mode i last) (token == (star ∷ []))
      (find_child token cs) (wildcard_of w) m used e

-- Where a result of the lookup below a node comes from.
abbrev From :
    (TrieNode → Option MethodHandlers)
    → Option (TrieNode × Bool)
    → Wildcard
    → MethodHandlers
    → Type 0
From deeper o w h =
    ((m : TrieNode) × (used : Bool) × (o ≡ some (m, used)) × (deeper m ≡ some h))
    ⊎ ((n : TrieNode) × (w ≡ wildcard n) × (deeper n ≡ some h))

look_deeper-way :
    (mode : TrieMode) (deeper : TrieNode → Option MethodHandlers) (o : Option (TrieNode × Bool))
    (w : Wildcard) (h : MethodHandlers)
    → look_deeper mode deeper o w ≡ some h
    → From deeper o w h
look_deeper-way mode deeper none w h e = cc
look_deeper-way mode deeper (some (m, used)) no_wildcard h e = inl (m, used, refl, e)
look_deeper-way mode deeper (some (m, used)) (wildcard n) h e =
    one_or_both (used || is_explicit mode) (deeper m) refl e
  where
    one_or_both :
        (b : Bool) (first : Option MethodHandlers)
        → deeper m ≡ first
        → (if b then first else or_else first (deeper n)) ≡ some h
        → From deeper (some (m, used)) (wildcard n) h
    one_or_both true first q r = inl (m, used, refl, q ∙ r)
    one_or_both false none q r = inr (n, refl, r)
    one_or_both false (some g) q r = inl (m, used, refl, q ∙ r)

wildcard-Next : (token : Bytes) (n m : TrieNode) → node_wildcard n ≡ wildcard m → Next token n m
wildcard-Next token (trie_node cs w h) m e = inl (ap wildcard_of e)

last_handlers-way :
    (o : Option (TrieNode × Bool)) (h : MethodHandlers)
    → last_handlers o ≡ some h
    → (m : TrieNode) × (used : Bool) × (o ≡ some (m, used)) × (handlers_of m ≡ some h)
last_handlers-way none h e = cc
last_handlers-way (some (m, used)) h e = (m, used, refl, e)

-- Whatever the mode, the handlers that a lookup finds stand in the trie under a pattern that fits the
-- path.
pub retrieve-Found :
    (mode : TrieMode) (i : ℕ) (path : List Bytes) (n : TrieNode) (h : MethodHandlers)
    → retrieve mode i path n ≡ some h
    → Found path n h
unfolding retrieve
retrieve-Found mode i [] n h e = cc
retrieve-Found mode i (token ∷ []) n h e =
    let (m, used, at, there) = last_handlers-way (choose mode i token true n) h e in
    Found-below token [] n m h (choose-Next mode i token true n m used at)
      ([], tt, unfold handlers_at in there)
retrieve-Found mode i (token ∷ next ∷ path) n h e =
    elim (look_deeper-way mode (retrieve mode (suc i) (next ∷ path)) (choose mode i token false n)
      (node_wildcard n) h e) [
        | inl (m, used, at, there) ↦
            Found-below token (next ∷ path) n m h (choose-Next mode i token false n m used at)
              (retrieve-Found mode (suc i) (next ∷ path) m h there)
        | inr (m, at, there) ↦
            Found-below token (next ∷ path) n m h (wildcard-Next token n m at)
              (retrieve-Found mode (suc i) (next ∷ path) m h there)
      ]
