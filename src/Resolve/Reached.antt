-- ===== src/Resolve/Reached.antt =====
-- internal/engine/resolve.go: which indices `concrete` gives.
use osmem.Prelude.{
  Bool, true, false, not, ◌&&◌, ◌||◌, Option, none, some, List, [], ◌∷◌, ◌≡◌, refl, ap, subst,
  arith, if◌then◌else◌,
}
use osmem.Prelude.Dict.{◌==◌, lookup, member}
use osmem.Glob.{Bytes, bytes_keys, same_bytes_iff}
use osmem.Resolve.{
  IndicesOptions, Indices, ResolveError, expression_not_found, aliases_not_supported, no_such_index,
  Resolved, gives, refuses, Resolver, Abstraction,
}
use osmem.Resolve.Expand.{expand, usable}
use osmem.Resolve.Concrete.{
  is_closed, closed_error, index_expression, reach, reach_all, reach_abstraction, reach_names,
  reach_resolved, unless_none, fails_no_indices, fail_closed, or_everything, concrete,
}
use osmem.Resolve.Names.{AllOnce, member-append, AllOnce-append}

-- An index in the list counts, unless it is closed and closed ones are forbidden.
abbrev pub admits : Indices → IndicesOptions → Bytes → Bool
admits indices o ix = not (o.forbid_closed && is_closed (lookup ix indices))

abbrev pub has_index : Indices → IndicesOptions → Option Abstraction → Bytes → Bool
has_index indices o none ix = false
has_index indices o (some ab) ix = usable o ab && member ix ab.indices && admits indices o ix

-- Some name of the list stands for the index.
unfoldable pub any_has_index : Resolver → IndicesOptions → List Bytes → Bytes → Bool
unfolding lookup member
any_has_index r o [] ix = false
any_has_index r o (name ∷ names) ix =
    has_index r.indices o (lookup name r.known) ix || any_has_index r o names ix

-- A list with the indices that were there and those that the test adds.
record Reaches (out reached : List Bytes) (adds : Bytes → Bool) : Type 0 where
  reached_once : AllOnce reached
  reached_are : (ix : Bytes) → member ix reached ≡ (member ix out || adds ix)

reach-Reaches :
    (ix : Bytes) (out : List Bytes) → AllOnce out → Reaches out (reach ix out) (λ i. ix == i)
unfolding reach member
reach-Reaches ix out once = record {
  reached_once = ground (arith, AllOnce-append ix out);
  reached_are = λ i. ground (arith, member-append i out (ix ∷ []), same_bytes_iff ix i);
}

abbrev given_or {ℓ} : {A : Type ℓ} → A → Resolved A → A
given_or a (gives b) = b
given_or a (refuses x) = a

pub given {ℓ} : {A : Type ℓ} {a b : A} → gives a ≡ gives b → a ≡ b
given {a} e = ap (given_or a) e

-- First one index, then the rest.
Reaches-after :
    (indices : Indices) (o : IndicesOptions) (ix : Bytes) (more out next reached : List Bytes)
    → ((i : Bytes) → member i next ≡ (member i out || ix == i && admits indices o ix))
    → Reaches next reached (λ i. member i more && admits indices o i)
    → Reaches out reached (λ i. member i (ix ∷ more) && admits indices o i)
unfolding member
Reaches-after indices o ix more out next reached first rest = record {
  reached_once = rest.reached_once;
  reached_are = λ i. ground (
    arith,
    rest.reached_are i,
    first i,
    same_bytes_iff ix i,
    ap (admits indices o) {x = ix} {y = i},
  );
}

module _ (indices : Indices) (o : IndicesOptions) where
  reach_all-Reaches :
      (more out reached : List Bytes)
      → AllOnce out
      → reach_all indices o more out ≡ gives reached
      → Reaches out reached (λ i. member i more && admits indices o i)
  unfolding reach_all member
  reach_all-Reaches [] out reached once e =
      subst (λ x. Reaches out x (λ i. false)) (given e)
        (record { reached_once = once; reached_are = λ i. ground arith })
  reach_all-Reaches (ix ∷ more) out reached once e =
      on_state (is_closed (lookup ix indices)) (fail_closed o) o.forbid_closed refl refl e
        (reach_all-Reaches more out reached once)
        (reach_all-Reaches more (reach ix out) reached added.reached_once)
    where
      added : Reaches out (reach ix out) (λ i. ix == i)
      added = reach-Reaches ix out once

      on_state :
          (closed fails forbids : Bool)
          → is_closed (lookup ix indices) ≡ closed
          → o.forbid_closed ≡ forbids
          → (if closed
              then if fails
                then refuses (closed_error o ix)
                else if forbids
                then reach_all indices o more out
                else reach_all indices o more (reach ix out)
              else reach_all indices o more (reach ix out))
            ≡ gives reached
          → (reach_all indices o more out ≡ gives reached
              → Reaches out reached (λ i. member i more && admits indices o i))
          → (reach_all indices o more (reach ix out) ≡ gives reached
              → Reaches (reach ix out) reached (λ i. member i more && admits indices o i))
          → Reaches out reached (λ i. member i (ix ∷ more) && admits indices o i)
      on_state true true forbids c f e skipped taken = absurd (cc)
      on_state true false true c f e skipped taken =
          Reaches-after indices o ix more out out reached (λ i. ground arith) (skipped e)
      on_state true false false c f e skipped taken =
          Reaches-after indices o ix more out (reach ix out) reached
            (λ i. ground (arith, added.reached_are i)) (taken e)
      on_state false fails forbids c f e skipped taken =
          Reaches-after indices o ix more out (reach ix out) reached
            (λ i. ground (arith, added.reached_are i)) (taken e)

  -- A name that stands for nothing adds nothing.
  nothing_added :
      (out reached : List Bytes) (x : ResolveError) (fails : Bool)
      → AllOnce out
      → (if fails then refuses x else gives out) ≡ gives reached
      → Reaches out reached (λ i. false)
  nothing_added out reached x true once e = absurd (cc)
  nothing_added out reached x false once e =
      subst (λ l. Reaches out l (λ i. false)) (given e)
        (record { reached_once = once; reached_are = λ i. ground arith })

  reach_abstraction-Reaches :
      (fails : Bool) (name : Bytes) (found : Option Abstraction) (out reached : List Bytes)
      → AllOnce out
      → reach_abstraction indices o fails name found out ≡ gives reached
      → Reaches out reached (has_index indices o found)
  reach_abstraction-Reaches fails name none out reached once e =
      nothing_added out reached (expression_not_found name) fails once e
  reach_abstraction-Reaches fails name (some ab) out reached once e = on_usable (usable o ab) e
    where
      on_usable :
          (b : Bool)
          → (if b
              then reach_all indices o ab.indices out
              else if fails
              then refuses (aliases_not_supported name)
              else gives out)
            ≡ gives reached
          → Reaches out reached (λ i. b && member i ab.indices && admits indices o i)
      on_usable true e = reach_all-Reaches ab.indices out reached once e
      on_usable false e = nothing_added out reached (aliases_not_supported name) fails once e

reach_names-Reaches :
    (r : Resolver) (o : IndicesOptions) (fails : Bool) (names out reached : List Bytes)
    → AllOnce out
    → reach_names r o fails names out ≡ gives reached
    → Reaches out reached (any_has_index r o names)
unfolding reach_names any_has_index
reach_names-Reaches r o fails [] out reached once e =
    subst (λ x. Reaches out x (λ i. false)) (given e)
      (record { reached_once = once; reached_are = λ i. ground arith })
reach_names-Reaches r o fails (name ∷ names) out reached once e =
    on_name (reach_abstraction r.indices o fails name (lookup name r.known) out) refl e
      (λ mid. reach_names-Reaches r o fails names mid reached)
  where
    on_name :
        (x : Resolved (List Bytes))
        → reach_abstraction r.indices o fails name (lookup name r.known) out ≡ x
        → elim x [ refuses x ↦ refuses x | gives mid ↦ reach_names r o fails names mid ]
          ≡ gives reached
        → ((mid : List Bytes)
            → AllOnce mid
            → reach_names r o fails names mid ≡ gives reached
            → Reaches mid reached (any_has_index r o names))
        → Reaches out reached
            (λ i. has_index r.indices o (lookup name r.known) i || any_has_index r o names i)
    on_name (refuses x) first e later = absurd (cc)
    on_name (gives mid) first e later =
        let here =
          reach_abstraction-Reaches r.indices o fails name (lookup name r.known) out mid once
            first in
        let rest = later mid here.reached_once e in
        record {
          reached_once = rest.reached_once;
          reached_are = λ i. ground (arith, rest.reached_are i, here.reached_are i);
        }

-- What `concrete` gives: the names that the expression stands for, and the indices that they reach.
pub record Concrete (r : Resolver) (o : IndicesOptions) (exprs out : List Bytes) : Type 0 where
  pub resolved : List Bytes
  pub expands : expand r (or_everything exprs) o false ≡ gives resolved
  pub index_once : AllOnce out
  pub index_reached : (ix : Bytes) → member ix out ≡ any_has_index r o resolved ix

-- What is left when nothing is reached was reached.
gives_same :
    (allows : Bool) (x : ResolveError) (out : List Bytes)
    → (if allows then gives [] else refuses x) ≡ gives out
    → [] ≡ out
gives_same true x out e = given e
gives_same false x out e = absurd (cc)

unless_none-gives :
    (o : IndicesOptions) (exprs : List Bytes) (y : Resolved (List Bytes)) (out : List Bytes)
    → unless_none o exprs y ≡ gives out
    → y ≡ gives out
unless_none-gives o exprs (refuses x) out e = e
unless_none-gives o exprs (gives []) out e =
    ap gives (gives_same o.allow_no_indices (no_such_index index_expression exprs []) out e)
unless_none-gives o exprs (gives (ix ∷ found)) out e = e

module _ (r : Resolver) (o : IndicesOptions) (exprs : List Bytes) where
  reached_of :
      (x : Resolved (List Bytes)) (out : List Bytes)
      → expand r (or_everything exprs) o false ≡ x
      → reach_resolved r o (or_everything exprs) x ≡ gives out
      → Concrete r o exprs out
  reached_of (refuses x) out expands e = absurd (cc)
  reached_of (gives []) out expands e =
      subst (Concrete r o exprs) (gives_same o.allow_no_indices _ out e) (record {
        resolved = [];
        expands = expands;
        index_once = tt;
        index_reached = λ ix. unfold member any_has_index in refl;
      })
  reached_of (gives (name ∷ names)) out expands e =
      let fails = fails_no_indices o (or_everything exprs) in
      let reached = reach_names-Reaches r o fails (name ∷ names) [] out tt (
        unless_none-gives o (or_everything exprs) (reach_names r o fails (name ∷ names) []) out
          e) in
      record {
        resolved = name ∷ names;
        expands = expands;
        index_once = reached.reached_once;
        index_reached = λ ix. unfold member in reached.reached_are ix;
      }

  -- If `concrete` gives indices, each is there once, `expand` gives names, and an index is there exactly
  -- when one of these names is known and allowed by the options, reaches it, and it is not a closed
  -- one while closed ones are forbidden.
  pub concrete-Concrete :
      (out : List Bytes) → concrete r exprs o ≡ gives out → Concrete r o exprs out
  unfolding concrete
  concrete-Concrete out e = reached_of (expand r (or_everything exprs) o false) out refl e
