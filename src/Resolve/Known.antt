-- ===== src/Resolve/Known.antt =====
-- internal/engine/resolve.go: what the names of a resolver stand for (`newExprResolver`).
use osmem.Prelude.{
  Bool, true, false, ◌&&◌, ◌||◌, Option, none, some, List, [], ◌∷◌, ◌≡◌, refl, ap, subst, ◌∙◌,
  arith, if◌then◌else◌,
}
use osmem.Prelude.Dict.{Dict, ◌==◌, lookup, insert, member, lookup-insert}
use osmem.Glob.{Bytes, bytes_keys, same_bytes_iff}
use osmem.Resolve.{
  Alias, IndexState, Indices, Abstraction, keys, sort_names, sorted_index_names, add_index,
  add_indices, alias_or_new, reaching, add_aliases, aliases_of, add_all_aliases, new_expr_resolver,
}
use osmem.Resolve.Filters.{is_some}
use osmem.Resolve.Filtering.{member-sort_names}
use osmem.Resolve.Names.{member-append}

abbrev pub holds : Bytes → Option Abstraction → Bool
holds ix none = false
holds ix (some ab) = member ix ab.indices

-- An alias of the name can be added.
abbrev takes : Option Abstraction → Bool
takes none = true
takes (some ab) = ab.alias

abbrev of_index : Bytes → IndexState → Abstraction
of_index name st = record { name = name; alias = false; hidden = st.hidden; indices = name ∷ [] }

abbrev found_index : Bytes → Option IndexState → Option Abstraction → Option Abstraction
found_index name none before = before
found_index name (some st) before = some (of_index name st)

member-keys {ℓ} :
    {V : Type ℓ} (n : Bytes) (m : Dict Bytes V) → member n (keys m) ≡ is_some (lookup n m)
unfolding keys member lookup
member-keys n [] = refl
member-keys n (entry ∷ m) = ground (arith, member-keys n m)

lookup-add_index :
    (n name : Bytes) (found : Option IndexState) (known : Dict Bytes Abstraction)
    → lookup n (add_index name found known)
      ≡ (if name == n then found_index name found (lookup n known) else lookup n known)
lookup-add_index n name none known = ground arith
lookup-add_index n name (some st) known =
    lookup-insert name n (of_index name st) known ∙ ground arith

found_again :
    (n : Bytes) (found : Option IndexState) (before : Option Abstraction)
    → found_index n found (found_index n found before) ≡ found_index n found before
found_again n none before = refl
found_again n (some st) before = refl

found_twice :
    (n : Bytes) (found : Option IndexState) (before first : Option Abstraction) (b m : Bool)
    → ((b ≡ true) → first ≡ found_index n found before)
    → (if m
        then found_index n found (if b then first else before)
        else (if b then first else before))
      ≡ (if (if b then true else m) then found_index n found before else before)
found_twice n found before first true true e =
    ap (found_index n found) (e refl) ∙ found_again n found before
found_twice n found before first true false e = e refl
found_twice n found before first false m e = refl

lookup-add_indices :
    (indices : Indices) (names : List Bytes) (known : Dict Bytes Abstraction) (n : Bytes)
    → lookup n (add_indices indices names known) ≡ (
        if member n names
        then found_index n (lookup n indices) (lookup n known)
        else lookup n known)
unfolding add_indices member
lookup-add_indices indices [] known n = refl
lookup-add_indices indices (name ∷ names) known n =
    lookup-add_indices indices names (add_index name (lookup name indices) known) n
    ∙ ap (λ x. if member n names then found_index n (lookup n indices) x else x)
        (lookup-add_index n name (lookup name indices) known)
    ∙ found_twice n (lookup n indices) (lookup n known)
        (found_index name (lookup name indices) (lookup n known)) (name == n) (member n names)
        (λ e.
          ap (λ x. found_index x (lookup x indices) (lookup n known)) ((same_bytes_iff name n).0 e))

takes-reaching :
    (index n : Bytes) (a : Alias) (found : Option Abstraction)
    → takes (some (reaching index a (alias_or_new n found))) ≡ takes found
takes-reaching index n a none = refl
takes-reaching index n a (some ab) = ground arith

holds-reaching :
    (ix index n : Bytes) (a : Alias) (found : Option Abstraction)
    → holds ix (some (reaching index a (alias_or_new n found)))
      ≡ (holds ix found || (takes found && index == ix))
unfolding member
holds-reaching ix index n a none = ground arith
holds-reaching ix index n a (some ab) = ground (arith, member-append ix ab.indices (index ∷ []))

module _ (ix n : Bytes) where
  -- Whether an index is reached by the name, and whether the name may still be given to another.
  abbrev Knows : Dict Bytes Abstraction → Dict Bytes Abstraction → Bool → Type 0
  Knows before after adds =
      (takes (lookup n after) ≡ takes (lookup n before))
      × (holds ix (lookup n after)
          ≡ (holds ix (lookup n before) || (takes (lookup n before) && adds)))

  one_alias :
      (index : Bytes) (entry : Bytes × Alias) (known : Dict Bytes Abstraction)
      → Knows known
          (insert entry.0
            (reaching index entry.1 (alias_or_new entry.0 (lookup entry.0 known)))
            known)
          (entry.0 == n && index == ix)
  one_alias index entry known = by_name (entry.0 == n) (same_bytes_iff entry.0 n).0 refl
    where
      added : Abstraction
      added = reaching index entry.1 (alias_or_new entry.0 (lookup entry.0 known))

      by_name :
          (b : Bool)
          → ((b ≡ true) → entry.0 ≡ n)
          → (entry.0 == n) ≡ b
          → Knows known (insert entry.0 added known) (b && index == ix)
      by_name true same e =
          let found =
            lookup-insert entry.0 n added known
            ∙ ap (λ x. if x then some added else lookup n known) e in
          let here = ap (λ x. lookup x known) (same refl) in
          (
            ap takes found
                ∙ takes-reaching index entry.0 entry.1 (lookup entry.0 known)
                ∙ ap takes here,
            ap (holds ix) found
                ∙ holds-reaching ix index entry.0 entry.1 (lookup entry.0 known)
                ∙ ap (λ x. holds ix x || (takes x && index == ix)) here,
          )
      by_name false same e =
          let found =
            lookup-insert entry.0 n added known
            ∙ ap (λ x. if x then some added else lookup n known) e in
          (ap takes found, ap (holds ix) found ∙ ground arith)

  Knows-trans :
      (a b c : Dict Bytes Abstraction) (first later : Bool)
      → Knows a b first
      → Knows b c later
      → Knows a c (first || later)
  Knows-trans a b c first later h k = ground (arith, h.0, h.1, k.0, k.1)

  add_aliases-Knows :
      (index : Bytes) (aliases : Dict Bytes Alias) (known : Dict Bytes Abstraction)
      → Knows known (add_aliases index aliases known) (index == ix && is_some (lookup n aliases))
  unfolding add_aliases lookup
  add_aliases-Knows index [] known = ground arith
  add_aliases-Knows index (entry ∷ aliases) known =
      let added =
        insert entry.0 (reaching index entry.1 (alias_or_new entry.0 (lookup entry.0 known)))
          known in
      subst (Knows known (add_aliases index aliases added))
        (either (entry.0 == n) (index == ix) (lookup n aliases) entry.1)
        (Knows-trans known added (add_aliases index aliases added) _ _ (one_alias index entry known)
          (add_aliases-Knows index aliases added))
    where
      either :
          (b c : Bool) (later : Option Alias) (a : Alias)
          → (b && c || (c && is_some later)) ≡ (c && is_some (if b then some a else later))
      either true true later a = refl
      either true false later a = refl
      either false c later a = refl

  abbrev has_alias : Indices → Bool
  has_alias indices = is_some (lookup n (aliases_of (lookup ix indices)))

  add_all_aliases-Knows :
      (indices : Indices) (names : List Bytes) (known : Dict Bytes Abstraction)
      → Knows known (add_all_aliases indices names known) (member ix names && has_alias indices)
  unfolding add_all_aliases member
  add_all_aliases-Knows indices [] known = ground arith
  add_all_aliases-Knows indices (name ∷ names) known =
      let added = add_aliases name (aliases_of (lookup name indices)) known in
      subst (Knows known (add_all_aliases indices names added))
        (either (name == ix) (member ix names) (λ e.
          ap (λ x. is_some (lookup n (aliases_of (lookup x indices))))
            ((same_bytes_iff name ix).0 e)))
        (Knows-trans known added (add_all_aliases indices names added) _ _
          (add_aliases-Knows name (aliases_of (lookup name indices)) known)
          (add_all_aliases-Knows indices names added))
    where
      either :
          (b later : Bool)
          → ((b ≡ true) → is_some (lookup n (aliases_of (lookup name indices))) ≡ has_alias indices)
          → ((b && is_some (lookup n (aliases_of (lookup name indices))))
              || (later && has_alias indices))
            ≡ ((if b then true else later) && has_alias indices)
      either true later same = ground (arith, same refl)
      either false later same = ground arith

  -- An index is reached by a name of the resolver exactly when the name is the index's own or, if no
  -- index has it, that of one of the index's aliases.
  pub new_expr_resolver-holds :
      (indices : Indices)
      → holds ix (lookup n (new_expr_resolver indices).known)
        ≡ (if is_some (lookup n indices) then n == ix else has_alias indices)
  unfolding new_expr_resolver sorted_index_names member
  new_expr_resolver-holds indices =
      let all = sort_names (keys indices) in
      let first =
        lookup-add_indices indices all [] n
        ∙ ap (λ b. if b then found_index n (lookup n indices) none else none)
            (member-sort_names n (keys indices) ∙ member-keys n indices) in
      let known = add_all_aliases-Knows indices all (add_indices indices all []) in
      known.1
      ∙ ap (λ x. holds ix x || (takes x && (member ix all && has_alias indices))) first
      ∙ ap
          (λ b.
            holds ix (at_name (lookup n indices))
            || (takes (at_name (lookup n indices)) && (b && has_alias indices)))
          (member-sort_names ix (keys indices) ∙ member-keys ix indices)
      ∙ at_end (lookup n indices) (lookup ix indices)
    where
      at_name : Option IndexState → Option Abstraction
      at_name found = if is_some found then found_index n found none else none

      at_end :
          (found there : Option IndexState)
          → (holds ix (at_name found)
              || (takes (at_name found)
                  && (is_some there && is_some (lookup n (aliases_of there)))))
            ≡ (if is_some found then n == ix else is_some (lookup n (aliases_of there)))
      at_end none none = refl
      at_end none (some st) = refl
      at_end (some st) there = ground arith
