-- ===== src/Router/Outcome.antt =====
-- What `dispatch` answers (http_router.go).
use osmem.Prelude.{
  Bool, true, false, Option, some, none, List, [], ◌∷◌, ◌≡◌, inl, inr, refl, ap, ◌∙◌, if◌then◌else◌,
  Bool-cases, Option-cases, code_points,
}
use osmem.Prelude.Dict.{◌==◌}
use osmem.Glob.{Bytes, bytes_keys}
use osmem.Router.{Route}
use osmem.Router.Trie.{
  Router, TrieMode, explicit_only, wildcard_root, wildcard_leaf, wildcard_nodes, retrieve_path,
}
use osmem.Router.Dispatch.{
  path_tokens, all_modes, contains, valid_methods_of, bind_path_vars, Outcome, found,
  method_not_allowed, options, no_handler, handler_of, not_here, in_mode, dispatch_modes, dispatch,
}
use osmem.Router.Valid.{first_mode, has_one, IsKnown, valid_methods_of-contains}

abbrev is_options : Bytes → Bool
is_options m = m == code_points "OPTIONS"

-- What a request is to be answered: the route of the first mode that handles its method, or else the
-- methods that the path has, if any.
abbrev pub answer :
    (Bytes → Option Bytes) → Bytes → List Bytes → Option (Route × Bytes) → List Bytes → Outcome
answer unescape m tokens (some (r, pattern)) valid =
    found r pattern (bind_path_vars unescape r.pattern tokens)
answer unescape m tokens none [] = if is_options m then options [] else no_handler
answer unescape m tokens none (v ∷ valid) =
    if is_options m then options (v ∷ valid) else method_not_allowed (v ∷ valid)

-- `not_here` once it is known whether the method is listed.
abbrev if_listed : Bool → Bytes → List Bytes → Outcome → Outcome
if_listed b m [] later = if b then later else if is_options m then options [] else later
if_listed b m (v ∷ valid) later =
    if b
    then later
    else if is_options m
    then options (v ∷ valid)
    else method_not_allowed (v ∷ valid)

not_here-listed :
    (b : Bool) (m : Bytes) (valid : List Bytes) (later : Outcome)
    → contains m valid ≡ b
    → not_here m valid later ≡ if_listed b m valid later
not_here-listed b m [] later c = ap (λ x. if_listed x m [] later) c
not_here-listed b m (v ∷ valid) later c = ap (λ x. if_listed x m (v ∷ valid) later) c

if_listed-true :
    (m : Bytes) (valid : List Bytes) (later : Outcome) → if_listed true m valid later ≡ later
if_listed-true m [] later = refl
if_listed-true m (v ∷ valid) later = refl

none_first :
    (o later : Option (Route × Bytes))
    → elim o [ none ↦ later | some r ↦ some r ] ≡ none
    → (o ≡ none) × (later ≡ none)
none_first none later e = (refl, e)
none_first (some r) later e = cc

module _ (unescape : Bytes → Option Bytes) (rt : Router) (m : Bytes) (tokens : List Bytes) where
  abbrev done : Route → Bytes → Outcome
  done r pattern = found r pattern (bind_path_vars unescape r.pattern tokens)

  -- A listed method is looked for in the modes in turn.
  listed :
      (valid : List Bytes) (modes : List TrieMode)
      → contains m valid ≡ true
      → dispatch_modes unescape rt m tokens valid modes
        ≡ in_mode done (first_mode rt m tokens modes) no_handler
  unfolding dispatch_modes first_mode
  listed valid [] c = refl
  listed valid (mode ∷ modes) c =
      elim (Option-cases (handler_of m (retrieve_path rt tokens mode))) [
        | inl e ↦
            rw (e, first_mode)
              (not_here-listed true m valid (dispatch_modes unescape rt m tokens valid modes) c
                ∙ if_listed-true m valid (dispatch_modes unescape rt m tokens valid modes)
                ∙ listed valid modes c)
        | inr (r, e) ↦ rw (e, first_mode) refl
      ]

  -- The round of a mode without a handler of a method that is not listed.
  passed :
      (valid : List Bytes) (mode : TrieMode) (modes : List TrieMode)
      → contains m valid ≡ false
      → handler_of m (retrieve_path rt tokens mode) ≡ none
      → dispatch_modes unescape rt m tokens valid (mode ∷ modes)
        ≡ if_listed false m valid (dispatch_modes unescape rt m tokens valid modes)
  unfolding dispatch_modes
  passed valid mode modes c now =
      ap (λ o. in_mode done o (not_here m valid (dispatch_modes unescape rt m tokens valid modes)))
        now
      ∙ not_here-listed false m valid (dispatch_modes unescape rt m tokens valid modes) c

  nothing :
      (modes : List TrieMode)
      → is_options m ≡ false
      → first_mode rt m tokens modes ≡ none
      → dispatch_modes unescape rt m tokens [] modes ≡ no_handler
  unfolding first_mode contains
  nothing [] b e = unfold dispatch_modes in refl
  nothing (mode ∷ modes) b e =
      let (now, later) =
        none_first (handler_of m (retrieve_path rt tokens mode)) (first_mode rt m tokens modes) e in
      passed [] mode modes refl now
      ∙ ap (λ x. if x then options [] else dispatch_modes unescape rt m tokens [] modes) b
      ∙ nothing modes b later

  refused :
      (valid : List Bytes) (modes : List TrieMode)
      → first_mode rt m tokens modes ≡ none
      → if_listed false m valid (dispatch_modes unescape rt m tokens valid modes)
        ≡ answer unescape m tokens none valid
  refused (v ∷ valid) modes e = refl
  refused [] modes e = elim (Bool-cases (is_options m)) [
    | inl b ↦ rw b refl
    | inr b ↦ rw b (nothing modes b e)
  ]

  -- One that is not listed, and that no mode handles, is refused.
  unlisted :
      (valid : List Bytes) (mode : TrieMode) (modes : List TrieMode)
      → contains m valid ≡ false
      → first_mode rt m tokens (mode ∷ modes) ≡ none
      → dispatch_modes unescape rt m tokens valid (mode ∷ modes)
        ≡ answer unescape m tokens none valid
  unfolding first_mode
  unlisted valid mode modes c e =
      let (now, later) =
        none_first (handler_of m (retrieve_path rt tokens mode)) (first_mode rt m tokens modes) e in
      passed valid mode modes c now ∙ refused valid modes later

  by_first :
      (valid : List Bytes) (mode : TrieMode) (modes : List TrieMode) (o : Option (Route × Bytes))
      → first_mode rt m tokens (mode ∷ modes) ≡ o
      → contains m valid ≡ has_one o
      → dispatch_modes unescape rt m tokens valid (mode ∷ modes) ≡ answer unescape m tokens o valid
  by_first valid mode modes none e c = unlisted valid mode modes c e
  by_first valid mode modes (some r) e c =
      listed valid (mode ∷ modes) c ∙ ap (λ o. in_mode done o no_handler) e

-- For a method that the router knows, `dispatch` answers with the route of the first mode that handles
-- the method; if no mode does, it lists the methods of the path, as options or as a refusal, and if
-- there are none it answers OPTIONS with an empty list and anything else with no handler.
pub dispatch-answer :
    (unescape : Bytes → Option Bytes) (rt : Router) (m path : Bytes)
    → IsKnown m
    → dispatch unescape rt m path
      ≡ answer unescape m
          (path_tokens path)
          (first_mode rt m (path_tokens path) all_modes)
          (valid_methods_of rt (path_tokens path))
unfolding dispatch
dispatch-answer unescape rt m path known =
    let tokens = path_tokens path in
    by_first unescape rt m tokens (valid_methods_of rt tokens) explicit_only
      (wildcard_root ∷ wildcard_leaf ∷ wildcard_nodes ∷ []) (first_mode rt m tokens all_modes) refl
      (valid_methods_of-contains rt m tokens known)
