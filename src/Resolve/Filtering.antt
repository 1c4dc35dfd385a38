-- ===== src/Resolve/Filtering.antt =====
-- internal/engine/resolve.go: which aliases filter an index.
use osmem.Prelude.{
  Bool, true, false, not, ◌&&◌, ◌||◌, Option, none, some, List, [], ◌∷◌, ◌++◌, ◌≡◌, refl, ap, subst,
  ◌∙◌, arith, if◌then◌else◌,
}
use osmem.Prelude.Dict.{Dict, ◌==◌, lookup, member}
use osmem.Glob.{Bytes, bytes_keys, same_bytes_iff}
use osmem.Resolve.{Alias, insert_name, sort_names}
use osmem.Resolve.Concrete.{only_everything}
use osmem.Resolve.Filters.{
  filtered, is_some, Reach, unfiltered, by_alias, apart, reach_of, reach_of_alias, collect_filters,
  sorted_or_nil, filtering_aliases,
}
use osmem.Resolve.Names.{member-append}

abbrev pub is_unfiltered : Reach → Bool
is_unfiltered unfiltered = true
is_unfiltered by_alias = false
is_unfiltered apart = false

-- An alias that is there and has no filter.
abbrev pub is_plain_alias : Option Alias → Bool
is_plain_alias none = false
is_plain_alias (some a) = not (is_some a.filter)

-- An alias that is there and has a filter.
abbrev pub is_filter_alias : Option Alias → Bool
is_filter_alias none = false
is_filter_alias (some a) = is_some a.filter

filtered-is_filter_alias : (found : Option Alias) → filtered found ≡ is_filter_alias found
filtered-is_filter_alias none = refl
filtered-is_filter_alias (some a) = refl

-- Some name is the index's own, or an alias of it without a filter.
unfoldable pub any_unfiltered : Bytes → Dict Bytes Alias → List Bytes → Bool
unfolding lookup
any_unfiltered index aliases [] = false
any_unfiltered index aliases (name ∷ names) =
    name == index || is_plain_alias (lookup name aliases) || any_unfiltered index aliases names

reach_of-unfiltered :
    (index : Bytes) (aliases : Dict Bytes Alias) (name : Bytes)
    → is_unfiltered (reach_of index aliases name)
      ≡ (name == index || is_plain_alias (lookup name aliases))
reach_of-unfiltered index aliases name = by_parts (name == index) (lookup name aliases)
  where
    by_filter : (b : Bool) → is_unfiltered (if b then by_alias else unfiltered) ≡ not b
    by_filter true = refl
    by_filter false = refl

    by_parts :
        (same : Bool) (found : Option Alias)
        → is_unfiltered (if same then unfiltered else reach_of_alias found)
          ≡ (same || is_plain_alias found)
    by_parts true found = refl
    by_parts false none = refl
    by_parts false (some a) = by_filter (is_some a.filter)

member-insert_name :
    (a n : Bytes) (names : List Bytes) → member a (insert_name n names) ≡ (n == a || member a names)
unfolding insert_name member
member-insert_name a n [] = ground arith
member-insert_name a n (m ∷ names) = ground (arith, member-insert_name a n names)

pub member-sort_names :
    (a : Bytes) (names : List Bytes) → member a (sort_names names) ≡ member a names
unfolding sort_names member
member-sort_names a [] = refl
member-sort_names a (n ∷ names) =
    ground (arith, member-insert_name a n (sort_names names), member-sort_names a names)

abbrev is_in : Bytes → Option (List Bytes) → Bool
is_in a none = false
is_in a (some names) = member a names

abbrev is_by_alias : Reach → Bool
is_by_alias unfiltered = false
is_by_alias by_alias = true
is_by_alias apart = false

reach_of_alias-filtered :
    (same : Bool) (found : Option Alias) (x : Reach)
    → (if same then unfiltered else reach_of_alias found) ≡ x
    → is_by_alias x ≡ (not (is_unfiltered x) && filtered found)
reach_of_alias-filtered true found x e =
    subst (λ y. is_by_alias y ≡ (not (is_unfiltered y) && filtered found)) e refl
reach_of_alias-filtered false none x e =
    subst (λ y. is_by_alias y ≡ (not (is_unfiltered y) && false)) e refl
reach_of_alias-filtered false (some found) x e =
    subst (λ y. is_by_alias y ≡ (not (is_unfiltered y) && is_some found.filter)) e
      (with_filter (is_some found.filter))
  where
    with_filter :
        (b : Bool)
        → is_by_alias (if b then by_alias else unfiltered)
          ≡ (not (is_unfiltered (if b then by_alias else unfiltered)) && b)
    with_filter true = refl
    with_filter false = refl

module _ (index : Bytes) (aliases : Dict Bytes Alias) (a : Bytes) where
  -- What the loop collects of the names left.
  abbrev Collects : List Bytes → List Bytes → Type 0
  Collects resolved out = is_in a (collect_filters index aliases resolved out) ≡ (
      not (any_unfiltered index aliases resolved)
      && (member a out || member a resolved && filtered (lookup a aliases)))

  collect_filters-member : (resolved out : List Bytes) → Collects resolved out
  unfolding collect_filters any_unfiltered member
  collect_filters-member [] out = ground arith
  collect_filters-member (name ∷ resolved) out =
      on_name (reach_of index aliases name)
        (reach_of_alias-filtered (name == index) (lookup name aliases) (reach_of index aliases name)
          refl)
        (reach_of-unfiltered index aliases name) (collect_filters-member resolved out)
        (collect_filters-member resolved (out ++ (name ∷ [])))
    where
      on_name :
          (x : Reach)
          → is_by_alias x ≡ (not (is_unfiltered x) && filtered (lookup name aliases))
          → is_unfiltered x ≡ (name == index || is_plain_alias (lookup name aliases))
          → Collects resolved out
          → Collects resolved (out ++ (name ∷ []))
          → is_in a (elim x [
            | unfiltered ↦ none
            | by_alias ↦ collect_filters index aliases resolved (out ++ (name ∷ []))
            | apart ↦ collect_filters index aliases resolved out
          ])
            ≡ (not (
                  name == index
                  || is_plain_alias (lookup name aliases)
                  || any_unfiltered index aliases resolved)
                && (member a out || member a (name ∷ resolved) && filtered (lookup a aliases)))
      on_name unfiltered e u passed taken = ground (arith, u)
      on_name apart e u passed taken = ground (
        arith,
        passed,
        same_bytes_iff name a,
        ap (λ x. filtered (lookup x aliases)) {x = name} {y = a},
      )
      on_name by_alias e u passed taken = ground (
        arith,
        taken,
        member-append a out (name ∷ []),
        same_bytes_iff name a,
        ap (λ x. filtered (lookup x aliases)) {x = name} {y = a},
      )

  sorted_or_nil-member :
      (found : Option (List Bytes)) → member a (sorted_or_nil found) ≡ is_in a found
  unfolding member
  sorted_or_nil-member none = refl
  sorted_or_nil-member (some names) = member-sort_names a names

  filtering_aliases-filtered :
      (resolved : List Bytes)
      → only_everything resolved ≡ false
      → lookup index aliases ≡ none
      → member a (filtering_aliases index aliases resolved) ≡ (
          not (any_unfiltered index aliases resolved)
          && (member a resolved && filtered (lookup a aliases)))
  unfolding filtering_aliases member any_unfiltered
  filtering_aliases-filtered [] named plain = refl
  filtering_aliases-filtered (name ∷ []) named plain = ground (
    arith,
    named,
    plain,
    reach_of_alias-filtered (name == index) (lookup name aliases) (reach_of index aliases name)
        refl,
    reach_of-unfiltered index aliases name,
    same_bytes_iff name a,
    same_bytes_iff name index,
    ap (λ x. filtered (lookup x aliases)) {x = name} {y = a},
    ap (λ x. filtered (lookup x aliases)) {x = name} {y = index},
    ap filtered {x = lookup index aliases} {y = none},
  )
  filtering_aliases-filtered (name ∷ next ∷ resolved) named plain =
      sorted_or_nil-member (collect_filters index aliases (name ∷ next ∷ resolved) [])
      ∙ collect_filters-member (name ∷ next ∷ resolved) []

  -- An alias filters an index exactly when it is one of the resolved names, is an alias of the index
  -- with a filter, and no resolved name is the index's own or an alias of it without a filter.
  -- The resolved names are not _all alone, and the index has no alias with its own name.
  pub filtering_aliases-member :
      (resolved : List Bytes)
      → only_everything resolved ≡ false
      → lookup index aliases ≡ none
      → member a (filtering_aliases index aliases resolved) ≡ (
          not (any_unfiltered index aliases resolved)
          && (member a resolved && is_filter_alias (lookup a aliases)))
  filtering_aliases-member resolved named plain =
      filtering_aliases-filtered resolved named plain
      ∙ ap (λ x. not (any_unfiltered index aliases resolved) && (member a resolved && x))
          (filtered-is_filter_alias (lookup a aliases))
