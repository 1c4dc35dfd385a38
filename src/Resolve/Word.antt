-- ===== src/Resolve/Word.antt =====
-- internal/engine/resolve.go: what an expression of `expand` says, and what it does to the names before it.
use osmem.Prelude.{
  Bool, true, false, not, ◌&&◌, ◌||◌, Option, none, some, List, [], ◌∷◌, ◌≡◌, refl, ap, subst,
  arith, if◌then◌else◌, eqb,
}
use osmem.Prelude.Dict.{lookup, member}
use osmem.Glob.{Bytes, bytes_keys}
use osmem.Resolve.{IndicesOptions, ResolveError, index_not_found, Resolver}
use osmem.Resolve.Expand.{
  Expanding, ExpandStep, proceed, failed, expand_matches, matches_of, has_star, names_or, put,
  put_all, unavailable, none_matched, expand_plain, expand_wildcard, expand_other, is_usable,
}
use osmem.Resolve.Names.{
  AllOnce, member-add_name, AllOnce-add_name, member-remove_name, AllOnce-remove_name,
  member-add_names, AllOnce-add_names, member-remove_names, AllOnce-remove_names,
}

-- What an expression says: the names it stands for, and whether it takes them away.
pub record Word : Type 0 where
  pub names : List Bytes
  pub is_exclusion : Bool
  pub is_wildcard : Bool

abbrev pub names_if : Bool → Resolver → IndicesOptions → Bool → Bytes → List Bytes
names_if true r o preserve expr = expand_matches r (matches_of r expr o r.names) expr o preserve
names_if false r o preserve expr = expr ∷ []

abbrev pub word : Resolver → IndicesOptions → Bool → Bool → Bytes → Word
word r o preserve excluding expr = record {
  names = names_if (has_star expr) r o preserve expr;
  is_exclusion = excluding;
  is_wildcard = has_star expr;
}

-- A minus sign excludes after a wildcard, unless the name has it.
unfoldable pub word_of : Resolver → IndicesOptions → Bool → Bool → Bytes → Word
unfolding lookup has_star expand_matches matches_of
word_of r o preserve wildcard_seen [] = word r o preserve false []
word_of r o preserve wildcard_seen (c ∷ expr) =
    if is_usable o (lookup (c ∷ expr) r.known)
    then record { names = (c ∷ expr) ∷ []; is_exclusion = false; is_wildcard = false }
    else if eqb c 45 && wildcard_seen
    then word r o preserve true expr
    else word r o preserve false (c ∷ expr)

abbrev pub or_word : Bytes → Word → Option Bool → Option Bool
or_word n w (some b) = some b
or_word n w none = if member n w.names then some (not w.is_exclusion) else none

-- What the last expression that stands for `n` says of it.
unfoldable pub last_word :
    Resolver → IndicesOptions → Bool → Bytes → Bool → List Bytes → Option Bool
unfolding word_of
last_word r o preserve n wildcard_seen [] = none
last_word r o preserve n wildcard_seen (expr ∷ exprs) =
    or_word n (word_of r o preserve wildcard_seen expr) (
      last_word r o preserve n
        (wildcard_seen || (word_of r o preserve wildcard_seen expr).is_wildcard) exprs)

abbrev pub or_before : Bool → Option Bool → Bool
or_before b none = b
or_before b (some says) = says

abbrev pub IsOnce : Option (List Bytes) → Type 0
IsOnce none = Unit
IsOnce (some names) = AllOnce names

-- What a round makes of the names before it.
pub record Follows (w : Word) (seen : Bool) (before after : List Bytes) (next : Expanding)
    : Type 0 where
  pub decided :
      (n : Bytes)
      → member n after ≡ (if member n w.names then not w.is_exclusion else member n before)
  pub once : IsOnce next.result
  pub seen_too : next.wildcard_seen ≡ (seen || w.is_wildcard)

pub record FollowsSome (w : Word) (seen : Bool) (before : List Bytes) (next : Expanding)
    : Type 0 where
  pub result : List Bytes
  pub is_result : next.result ≡ some result
  pub follows : Follows w seen before result next

pub AllOnce-names_or :
    (before : List Bytes) (result : Option (List Bytes))
    → IsOnce result
    → AllOnce (names_or before result)
AllOnce-names_or before none h = AllOnce-add_names before [] tt
AllOnce-names_or before (some names) h = h

abbrev step_or : Expanding → ExpandStep → Expanding
step_or v (proceed next) = next
step_or v (failed x) = v

pub same_step : {a b : Expanding} → proceed a ≡ proceed b → a ≡ b
same_step {a} e = ap (step_or a) e

module _ (r : Resolver) (o : IndicesOptions) (preserve seen : Bool) where
  abbrev word_if : Bool → Bool → Bytes → Word
  word_if wild add expr = record {
    names = names_if wild r o preserve expr;
    is_exclusion = not add;
    is_wildcard = wild;
  }

  put-decided :
      (add : Bool) (expr n : Bytes) (names : List Bytes)
      → AllOnce names
      → member n (put add expr names)
        ≡ (if member n (expr ∷ []) then not (not add) else member n names)
  unfolding member
  put-decided true expr n names once = ground (arith, member-add_name n expr names)
  put-decided false expr n names once = ground (arith, member-remove_name n expr names once)

  put-once :
      (add : Bool) (expr : Bytes) (names : List Bytes)
      → AllOnce names
      → AllOnce (put add expr names)
  put-once true expr names once = AllOnce-add_name expr names once
  put-once false expr names once = AllOnce-remove_name expr names once

  put_all-decided :
      (add : Bool) (n : Bytes) (more names : List Bytes)
      → AllOnce names
      → member n (put_all add more names)
        ≡ (if member n more then not (not add) else member n names)
  put_all-decided true n more names once = ground (arith, member-add_names n more names)
  put_all-decided false n more names once = ground (arith, member-remove_names n more names once)

  put_all-once :
      (add : Bool) (more names : List Bytes) → AllOnce names → AllOnce (put_all add more names)
  put_all-once true more names once = AllOnce-add_names more names once
  put_all-once false more names once = AllOnce-remove_names more names once

  expand_plain-Follows :
      (add : Bool) (expr : Bytes) (names : List Bytes) (x : Option ResolveError) (next : Expanding)
      → AllOnce names
      → expand_plain o seen add expr names x ≡ proceed next
      → FollowsSome (word_if false add expr) seen names next
  expand_plain-Follows add expr names none next once e =
      subst (FollowsSome (word_if false add expr) seen names) (same_step e) (record {
        result = put add expr names;
        is_result = refl;
        follows = record {
          decided = λ n. put-decided add expr n names once;
          once = put-once add expr names once;
          seen_too = ground arith;
        };
      })
  expand_plain-Follows add expr names (some x) next once e = absurd (cc)

  expand_wildcard-Follows :
      (add fails : Bool) (expr : Bytes) (names : List Bytes) (x : ResolveError) (next : Expanding)
      → AllOnce names
      → (if fails
          then failed x
          else proceed (record {
            result = some (put_all add (names_if true r o preserve expr) names);
            wildcard_seen = true;
          }))
        ≡ proceed next
      → FollowsSome (word_if true add expr) seen names next
  expand_wildcard-Follows add true expr names x next once e = absurd (cc)
  expand_wildcard-Follows add false expr names x next once e =
      subst (FollowsSome (word_if true add expr) seen names) (same_step e) (record {
        result = put_all add (names_if true r o preserve expr) names;
        is_result = refl;
        follows = record {
          decided = λ n. put_all-decided add n (names_if true r o preserve expr) names once;
          once = put_all-once add (names_if true r o preserve expr) names once;
          seen_too = ground arith;
        };
      })

  pub expand_other-Follows :
      (add : Bool) (expr : Bytes) (names : List Bytes) (next : Expanding)
      → AllOnce names
      → expand_other r o preserve seen add expr names ≡ proceed next
      → FollowsSome (word r o preserve (not add) expr) seen names next
  unfolding expand_other
  expand_other-Follows add expr names next once e = with_star (has_star expr) e
    where
      with_star :
          (wild : Bool)
          → (if wild
              then expand_wildcard r o preserve add expr names (matches_of r expr o r.names)
              else expand_plain o seen add expr names (unavailable expr o (lookup expr r.known)))
            ≡ proceed next
          → FollowsSome (word_if wild add expr) seen names next
      with_star true e =
          expand_wildcard-Follows add (none_matched o (matches_of r expr o r.names)) expr names
            (index_not_found expr) next once e
      with_star false e =
          expand_plain-Follows add expr names (unavailable expr o (lookup expr r.known)) next once e
