-- ===== src/Resolve/Lenient.antt =====
-- internal/engine/resolve.go: options that ignore what is missing do not refuse an expression.
use osmem.Prelude.{
  Bool, true, false, Option, none, some, List, [], ◌∷◌, ◌≡◌, refl, arith, if◌then◌else◌, All, ◌⊎◌,
  inl,
}
use osmem.Prelude.Dict.{lookup}
use osmem.Glob.{Bytes, bytes_keys, same_bytes}
use osmem.Resolve.{
  IndicesOptions, ResolveError, aliases_not_supported, Resolved, gives, refuses, Resolver,
  Abstraction,
}
use osmem.Resolve.Expand.{usable, is_everything}
use osmem.Resolve.Concrete.{
  is_closed, closed_error, reach, reach_all, reach_abstraction, reach_names, reach_resolved,
  unless_none, fails_no_indices, fail_closed, or_everything, concrete,
}
use osmem.Resolve.Proceeds.{is_spoken, Gives, refuses_never, expand-Gives}

module _ (r : Resolver) (o : IndicesOptions) (ignores : o.ignore_unavailable ≡ true)
    (allows : o.allow_no_indices ≡ true) where
  reach_all-Gives : (more out : List Bytes) → Gives (reach_all r.indices o more out)
  unfolding reach_all
  reach_all-Gives [] out = tt
  reach_all-Gives (ix ∷ more) out =
      on_state (is_closed (lookup ix r.indices)) (fail_closed o) o.forbid_closed (ground arith)
        (reach_all-Gives more out) (reach_all-Gives more (reach ix out))
    where
      on_state :
          (closed fails forbids : Bool)
          → fails ≡ false
          → Gives (reach_all r.indices o more out)
          → Gives (reach_all r.indices o more (reach ix out))
          → Gives (
              if closed
              then if fails
                then refuses (closed_error o ix)
                else if forbids
                then reach_all r.indices o more out
                else reach_all r.indices o more (reach ix out)
              else reach_all r.indices o more (reach ix out))
      on_state true true forbids e skipped taken = absurd (cc)
      on_state true false true e skipped taken = skipped
      on_state true false false e skipped taken = taken
      on_state false fails forbids e skipped taken = taken

  gives_unless :
      (fails : Bool) (x : ResolveError) (out : List Bytes)
      → fails ≡ false
      → Gives (if fails then refuses x else gives out)
  gives_unless true x out e = absurd (cc)
  gives_unless false x out e = tt

  reach_abstraction-Gives :
      (fails : Bool) (name : Bytes) (found : Option Abstraction) (out : List Bytes)
      → fails ≡ false
      → Gives (reach_abstraction r.indices o fails name found out)
  reach_abstraction-Gives fails name none out e = gives_unless fails _ out e
  reach_abstraction-Gives fails name (some ab) out e = on_usable (usable o ab)
    where
      on_usable :
          (b : Bool)
          → Gives (
              if b
              then reach_all r.indices o ab.indices out
              else if fails
              then refuses (aliases_not_supported name)
              else gives out)
      on_usable true = reach_all-Gives ab.indices out
      on_usable false = gives_unless fails _ out e

  reach_names-Gives :
      (fails : Bool) (names out : List Bytes)
      → fails ≡ false
      → Gives (reach_names r o fails names out)
  unfolding reach_names
  reach_names-Gives fails [] out e = tt
  reach_names-Gives fails (name ∷ names) out e =
      on_name (reach_abstraction r.indices o fails name (lookup name r.known) out)
        (reach_abstraction-Gives fails name (lookup name r.known) out e)
        (λ mid. reach_names-Gives fails names mid e)
    where
      on_name :
          (x : Resolved (List Bytes))
          → Gives x
          → ((mid : List Bytes) → Gives (reach_names r o fails names mid))
          → Gives (elim x [ refuses x ↦ refuses x | gives mid ↦ reach_names r o fails names mid ])
      on_name (refuses x) h later = h
      on_name (gives mid) h later = later mid

  missing_passed : (exprs : List Bytes) → fails_no_indices o exprs ≡ false
  missing_passed [] = ground arith
  missing_passed (expr ∷ []) = ground arith
  missing_passed (expr ∷ next ∷ exprs) = ground arith

  unless_none-Gives :
      (exprs : List Bytes) (x : Resolved (List Bytes)) → Gives x → Gives (unless_none o exprs x)
  unless_none-Gives exprs (refuses x) h = h
  unless_none-Gives exprs (gives []) h = refuses_never _ _ _ allows
  unless_none-Gives exprs (gives (ix ∷ out)) h = tt

  reach_resolved-Gives :
      (exprs : List Bytes) (x : Resolved (List Bytes))
      → Gives x
      → Gives (reach_resolved r o exprs x)
  reach_resolved-Gives exprs (refuses x) h = h
  reach_resolved-Gives exprs (gives []) h = refuses_never _ _ _ allows
  reach_resolved-Gives exprs (gives (name ∷ names)) h =
      unless_none-Gives exprs _
        (reach_names-Gives (fails_no_indices o exprs) (name ∷ names) [] (missing_passed exprs))

  spoken_or_everything :
      (exprs : List Bytes)
      → (is_everything exprs ≡ true) ⊎ All (λ expr. is_spoken expr ≡ true) exprs
      → (is_everything (or_everything exprs) ≡ true)
        ⊎ All (λ expr. is_spoken expr ≡ true) (or_everything exprs)
  unfolding same_bytes
  spoken_or_everything [] h = inl refl
  spoken_or_everything (expr ∷ exprs) h = h

  -- `concrete` gives indices for expressions that ask for all indices, or of which none is empty or
  -- starts with an underscore, if the options ignore unavailable indices and allow for no indices.
  pub concrete-Gives :
      (exprs : List Bytes)
      → (is_everything exprs ≡ true) ⊎ All (λ expr. is_spoken expr ≡ true) exprs
      → Gives (concrete r exprs o)
  unfolding concrete
  concrete-Gives exprs spoken = reach_resolved-Gives (or_everything exprs) _ (
      expand-Gives r o ignores allows (or_everything exprs) false
        (spoken_or_everything exprs spoken))
