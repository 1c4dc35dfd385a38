-- ===== src/Router/Stored.antt =====
-- What the trie holds under a pattern, named wildcards taken as one (http_router.go, `insert`).
use osmem.Prelude.{
  Bool, true, false, Option, some, none, List, [], ◌∷◌, ◌≡◌, ◌≢◌, ◌⊎◌, inl, inr, refl, sym, ap, ap₂,
  subst, ◌∙◌, arith, if◌then◌else◌, Bool-cases,
}
use osmem.Glob.{Bytes, same_bytes, bytes_keys, same_bytes_iff}
use osmem.Router.{MethodHandlers, is_named_wildcard}
use osmem.Router.Trie.{
  TrieNode, Children, Wildcard, trie_node, no_child, child, wildcard, empty_node, find_child,
  set_child, wildcard_of, or_new, insert_at, handlers_of,
}

-- A segment of a pattern: nothing for a named wildcard.
abbrev pub Shape : Type 0
Shape = List (Option Bytes)

unfoldable pub kind : Bytes → Option Bytes
unfolding is_named_wildcard
kind seg = if is_named_wildcard seg then none else some seg

unfoldable pub shape : List Bytes → Shape
unfolding kind
shape [] = []
shape (seg ∷ segs) = kind seg ∷ shape segs

abbrev pub step : Option Bytes → TrieNode → Option TrieNode
step none (trie_node cs w h) = wildcard_of w
step (some t) (trie_node cs w h) = find_child t cs

unfoldable pub handlers_at : Shape → TrieNode → Option MethodHandlers
unfolding find_child
handlers_at [] n = handlers_of n
handlers_at (k ∷ shape) n = elim (step k n) [ none ↦ none | some m ↦ handlers_at shape m ]

pub find_child-set_child :
    (t u : Bytes) (m : TrieNode) (cs : Children)
    → find_child t (set_child u m cs) ≡ (if same_bytes u t then some m else find_child t cs)
unfolding find_child set_child
find_child-set_child t u m no_child = refl
find_child-set_child t u m (child name n later) = ground (
  arith,
  find_child-set_child t u m later,
  same_bytes_iff name u,
  same_bytes_iff name t,
  same_bytes_iff u t,
)

handlers_at-empty : (shape : Shape) → handlers_at shape empty_node ≡ none
unfolding handlers_at
handlers_at-empty [] = refl
handlers_at-empty (none ∷ shape) = refl
handlers_at-empty (some t ∷ shape) = refl

pub below :
    (k : Option Bytes) (shape : Shape) (n : TrieNode)
    → handlers_at (k ∷ shape) n ≡ handlers_at shape (or_new (step k n))
unfolding handlers_at
below k shape n = through (step k n)
  where
    through :
        (o : Option TrieNode)
        → elim o [ none ↦ none | some m ↦ handlers_at shape m ] ≡ handlers_at shape (or_new o)
    through none = sym (handlers_at-empty shape)
    through (some m) = refl

-- One round of the loop of `insert`, on the kind of the segment.
pub record Descends (add : Option MethodHandlers → MethodHandlers) (k : Option Bytes)
    (segs : List Bytes) (n m : TrieNode) : Type 0 where
  pub here : step k m ≡ some (insert_at add segs (or_new (step k n)))
  pub others : (j : Option Bytes) → k ≢ j → step j m ≡ step j n
  pub kept : handlers_of m ≡ handlers_of n

abbrev node_at :
    Bool
    → (Option MethodHandlers → MethodHandlers)
    → Bytes
    → List Bytes
    → Children
    → Wildcard
    → Option MethodHandlers
    → TrieNode
node_at named add seg segs cs w h =
    let node =
      insert_at add segs (if named then or_new (wildcard_of w) else or_new (find_child seg cs)) in
    if named then trie_node cs (wildcard node) h else trie_node (set_child seg node cs) w h

node_at-others :
    (named : Bool) (add : Option MethodHandlers → MethodHandlers) (seg : Bytes) (segs : List Bytes)
    (cs : Children) (w : Wildcard) (h : Option MethodHandlers) (j : Option Bytes)
    → (if named then none else some seg) ≢ j
    → step j (node_at named add seg segs cs w h) ≡ step j (trie_node cs w h)
node_at-others true add seg segs cs w h none ne = absurd (ne refl)
node_at-others true add seg segs cs w h (some t) ne = refl
node_at-others false add seg segs cs w h none ne = refl
node_at-others false add seg segs cs w h (some t) ne =
    let node = insert_at add segs (or_new (find_child seg cs)) in
    ground (
      arith,
      find_child-set_child t seg node cs,
      same_bytes_iff seg t,
      ne,
      ap some {x = seg} {y = t},
    )

node_at-Descends :
    (named : Bool) (add : Option MethodHandlers → MethodHandlers) (seg : Bytes) (segs : List Bytes)
    (cs : Children) (w : Wildcard) (h : Option MethodHandlers)
    → Descends add
        (if named then none else some seg)
        segs
        (trie_node cs w h)
        (node_at named add seg segs cs w h)
node_at-Descends true add seg segs cs w h = record {
  here = refl;
  others = node_at-others true add seg segs cs w h;
  kept = refl;
}
node_at-Descends false add seg segs cs w h =
    let node = insert_at add segs (or_new (find_child seg cs)) in
    record {
      here = ground (arith, find_child-set_child seg seg node cs, same_bytes_iff seg seg);
      others = node_at-others false add seg segs cs w h;
      kept = refl;
    }

pub insert_at-Descends :
    (add : Option MethodHandlers → MethodHandlers) (seg : Bytes) (segs : List Bytes) (n : TrieNode)
    → Descends add (kind seg) segs n (insert_at add (seg ∷ segs) n)
unfolding kind insert_at
insert_at-Descends add seg segs (trie_node cs w h) =
    node_at-Descends (is_named_wildcard seg) add seg segs cs w h

pub handlers_at-insert_at :
    (add : Option MethodHandlers → MethodHandlers) (p : List Bytes) (n : TrieNode)
    → handlers_at (shape p) (insert_at add p n) ≡ some (add (handlers_at (shape p) n))
unfolding shape handlers_at
handlers_at-insert_at add [] (trie_node cs w h) = unfold insert_at in refl
handlers_at-insert_at add (seg ∷ segs) n =
    let d = insert_at-Descends add seg segs n in
    below (kind seg) (shape segs) (insert_at add (seg ∷ segs) n)
    ∙ ap (λ o. handlers_at (shape segs) (or_new o)) d.here
    ∙ handlers_at-insert_at add segs (or_new (step (kind seg) n))
    ∙ ap (λ h. some (add h)) (sym (below (kind seg) (shape segs) n))

Option-same : (j k : Option Bytes) → (j ≡ k) ⊎ (j ≢ k)
Option-same none none = inl refl
Option-same none (some t) = inr (λ e. cc)
Option-same (some t) none = inr (λ e. cc)
Option-same (some t) (some u) = elim (Bool-cases (same_bytes t u)) [
  | inl b ↦ inl (ap some ((same_bytes_iff t u).0 b))
  | inr b ↦ inr (λ e. ground (arith, same_bytes_iff t u, e))
]

pub handlers_at-other :
    (add : Option MethodHandlers → MethodHandlers) (p : List Bytes) (other : Shape) (n : TrieNode)
    → shape p ≢ other
    → handlers_at other (insert_at add p n) ≡ handlers_at other n
unfolding shape handlers_at
handlers_at-other add [] [] n ne = absurd (ne refl)
handlers_at-other add [] (k ∷ rest) (trie_node cs w h) ne = unfold insert_at in at_kind k
  where
    at_kind :
        (k : Option Bytes)
        → handlers_at (k ∷ rest) (trie_node cs w (some (add h)))
          ≡ handlers_at (k ∷ rest) (trie_node cs w h)
    at_kind none = refl
    at_kind (some t) = refl
handlers_at-other add (seg ∷ segs) [] n ne = (insert_at-Descends add seg segs n).kept
handlers_at-other add (seg ∷ segs) (k ∷ rest) n ne =
    let d = insert_at-Descends add seg segs n in
    let m = insert_at add (seg ∷ segs) n in
    elim (Option-same (kind seg) k) [
      | inr apart ↦
          below k rest m
          ∙ ap (λ o. handlers_at rest (or_new o)) (d.others k apart)
          ∙ sym (below k rest n)
      | inl same ↦
          subst (λ j. handlers_at (j ∷ rest) m ≡ handlers_at (j ∷ rest) n) same
            (below (kind seg) rest m
              ∙ ap (λ o. handlers_at rest (or_new o)) d.here
              ∙ handlers_at-other add segs rest (or_new (step (kind seg) n))
                  (λ e. ne (ap₂ (λ (i : Option Bytes) (is : Shape). i ∷ is) same e))
              ∙ sym (below (kind seg) rest n))
    ]
