-- ===== src/Resolve/Proceeds.antt =====
-- internal/engine/resolve.go: `expand` under options that ignore what is missing.
use osmem.Prelude.{
  Bool, true, false, not, ◌&&◌, Option, none, some, List, [], ◌∷◌, ◌++◌, ◌≡◌, refl, arith,
  if◌then◌else◌, eqb, All, ◌⊎◌, inl, inr,
}
use osmem.Prelude.Dict.{lookup}
use osmem.Glob.{Bytes, bytes_keys}
use osmem.Resolve.{
  IndicesOptions, ResolveError, invalid_name, Resolved, gives, refuses, Resolver, Abstraction,
}
use osmem.Resolve.Expand.{
  Expanding, ExpandStep, proceed, failed, matches_of, has_star, names_or, unavailable, none_matched,
  expand_plain, expand_wildcard, expand_other, is_usable, add_known, expand_one, expand_loop,
  end_expand, unless_empty, is_everything, nothing_yet, all_indices, expand,
}

-- An expression that is neither empty nor starts with an underscore.
abbrev pub is_spoken : Bytes → Bool
is_spoken [] = false
is_spoken (c ∷ expr) = not (eqb c 95)

abbrev Proceeds : ExpandStep → Type 0
Proceeds (proceed v) = Unit
Proceeds (failed x) = ⊥

abbrev pub Gives {ℓ} : {A : Type ℓ} → Resolved A → Type 0
Gives (gives a) = Unit
Gives (refuses x) = ⊥

fails_never :
    (b : Bool) (x : ResolveError) (v : Expanding)
    → b ≡ false
    → Proceeds (if b then failed x else proceed v)
fails_never true x v e = absurd (cc)
fails_never false x v e = tt

pub refuses_never :
    (b : Bool) (x : ResolveError) (names : List Bytes)
    → b ≡ true
    → Gives (if b then gives names else refuses x)
refuses_never true x names e = tt
refuses_never false x names e = absurd (cc)

module _ (r : Resolver) (o : IndicesOptions) (ignores : o.ignore_unavailable ≡ true)
    (allows : o.allow_no_indices ≡ true) where
  available : (expr : Bytes) (found : Option Abstraction) → unavailable expr o found ≡ none
  available expr none = ground arith
  available expr (some ab) = ground arith

  plain-Proceeds :
      (seen add : Bool) (expr : Bytes) (names : List Bytes) (x : Option ResolveError)
      → x ≡ none
      → Proceeds (expand_plain o seen add expr names x)
  plain-Proceeds seen add expr names none e = tt
  plain-Proceeds seen add expr names (some x) e = absurd (cc)

  some_matched : (matches : List Abstraction) → none_matched o matches ≡ false
  some_matched [] = ground arith
  some_matched (ab ∷ matches) = refl

  expand_other-Proceeds :
      (preserve seen add : Bool) (expr : Bytes) (names : List Bytes)
      → Proceeds (expand_other r o preserve seen add expr names)
  unfolding expand_other
  expand_other-Proceeds preserve seen add expr names = with_star (has_star expr)
    where
      with_star :
          (wild : Bool)
          → Proceeds (
              if wild
              then expand_wildcard r o preserve add expr names (matches_of r expr o r.names)
              else expand_plain o seen add expr names (unavailable expr o (lookup expr r.known)))
      with_star true = fails_never _ _ _ (some_matched (matches_of r expr o r.names))
      with_star false = plain-Proceeds seen add expr names _ (available expr (lookup expr r.known))

  expand_one-Proceeds :
      (preserve : Bool) (before : List Bytes) (v : Expanding) (expr : Bytes)
      → is_spoken expr ≡ true
      → Proceeds (expand_one r o preserve before v expr)
  unfolding expand_one
  expand_one-Proceeds preserve before v [] spoken = absurd (cc)
  expand_one-Proceeds preserve before v (c ∷ expr) spoken =
      reserved (eqb c 95) (is_usable o (lookup (c ∷ expr) r.known)) (eqb c 45 && v.wildcard_seen)
        spoken
    where
      reserved :
          (b known minus : Bool)
          → not b ≡ true
          → Proceeds (
              if b
              then failed (invalid_name (c ∷ expr))
              else if known
              then proceed (add_known (c ∷ expr) v)
              else if minus
              then expand_other r o preserve v.wildcard_seen false expr (names_or before v.result)
              else expand_other r o preserve v.wildcard_seen true
                  (c ∷ expr)
                  (names_or before v.result))
      reserved true known minus e = absurd (cc)
      reserved false true minus e = tt
      reserved false false true e =
          expand_other-Proceeds preserve v.wildcard_seen false expr (names_or before v.result)
      reserved false false false e =
          expand_other-Proceeds preserve v.wildcard_seen true (c ∷ expr) (names_or before v.result)

  expand_loop-Proceeds :
      (preserve : Bool) (before exprs : List Bytes) (v : Expanding)
      → All (λ expr. is_spoken expr ≡ true) exprs
      → Proceeds (expand_loop r o preserve before exprs v)
  unfolding expand_loop
  expand_loop-Proceeds preserve before [] v spoken = tt
  expand_loop-Proceeds preserve before (expr ∷ exprs) v spoken =
      on_step (expand_one r o preserve before v expr)
        (expand_one-Proceeds preserve before v expr spoken.0)
        (λ next. expand_loop-Proceeds preserve (before ++ (expr ∷ [])) exprs next spoken.1)
    where
      on_step :
          (step : ExpandStep)
          → Proceeds step
          → ((next : Expanding)
              → Proceeds (expand_loop r o preserve (before ++ (expr ∷ [])) exprs next))
          → Proceeds (elim step [
            | failed x ↦ failed x
            | proceed next ↦ expand_loop r o preserve (before ++ (expr ∷ [])) exprs next
          ])
      on_step (failed x) p later = p
      on_step (proceed next) p later = later next

  end_expand-Gives :
      (exprs : List Bytes) (step : ExpandStep) → Proceeds step → Gives (end_expand o exprs step)
  end_expand-Gives exprs (failed x) p = p
  end_expand-Gives exprs (proceed v) p = on_result v.result
    where
      on_result :
          (result : Option (List Bytes))
          → Gives (elim result [ none ↦ gives exprs | some names ↦ unless_empty o exprs names ])
      on_result none = tt
      on_result (some []) = refuses_never _ _ _ allows
      on_result (some (n ∷ names)) = tt

  pub expand-Gives :
      (exprs : List Bytes) (preserve : Bool)
      → (is_everything exprs ≡ true) ⊎ All (λ expr. is_spoken expr ≡ true) exprs
      → Gives (expand r exprs o preserve)
  unfolding expand
  expand-Gives exprs preserve spoken =
      on_tests (not o.expand_open && not o.expand_closed) (is_everything exprs) spoken
    where
      on_tests :
          (b all : Bool)
          → (all ≡ true) ⊎ All (λ expr. is_spoken expr ≡ true) exprs
          → Gives (
              if b
              then gives exprs
              else if all
              then gives (all_indices r o r.all)
              else end_expand o exprs (expand_loop r o preserve [] exprs nothing_yet))
      on_tests true all h = tt
      on_tests false true h = tt
      on_tests false false (inl e) = absurd (cc)
      on_tests false false (inr h) =
          end_expand-Gives exprs _ (expand_loop-Proceeds preserve [] exprs nothing_yet h)
