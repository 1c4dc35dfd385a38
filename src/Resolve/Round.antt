-- ===== src/Resolve/Round.antt =====
-- internal/engine/resolve.go: what one round of `expand` does to the names before it.
use osmem.Prelude.{
  Bool, true, false, ◌&&◌, Option, none, some, List, [], ◌∷◌, ◌++◌, ◌≡◌, sym, ap, subst, arith,
  if◌then◌else◌, eqb,
}
use osmem.Prelude.Dict.{lookup, member}
use osmem.Glob.{Bytes, bytes_keys}
use osmem.Resolve.{IndicesOptions, invalid_name, Resolver}
use osmem.Resolve.Expand.{
  Expanding, proceed, failed, names_or, expand_other, is_usable, add_known, expand_one,
}
use osmem.Resolve.Names.{member-append, member-add_name, AllOnce-add_name, member-add_names}
use osmem.Resolve.Word.{
  Word, word, word_of, IsOnce, Follows, FollowsSome, AllOnce-names_or, same_step,
  expand_other-Follows,
}

round_of :
    (w : Word) (seen : Bool) (before exprs : List Bytes) (next : Expanding)
    → FollowsSome w seen before next
    → Follows w seen before (names_or exprs next.result) next
round_of w seen before exprs next f =
    subst (λ names. Follows w seen before names next) (sym (ap (names_or exprs) f.is_result))
      f.follows

known_round :
    (seen : Bool) (before : List Bytes) (result : Option (List Bytes)) (expr : Bytes)
    → IsOnce result
    → Follows
        (record { names = expr ∷ []; is_exclusion = false; is_wildcard = false })
        seen
        (names_or before result)
        (names_or
          (before ++ (expr ∷ []))
          (add_known expr (record { result = result; wildcard_seen = seen })).result)
        (add_known expr (record { result = result; wildcard_seen = seen }))
unfolding member
known_round seen before none expr once = record {
  decided = λ n. ground (
    arith,
    member-add_names n before [],
    member-add_names n (before ++ (expr ∷ [])) [],
    member-append n before (expr ∷ []),
  );
  once = tt;
  seen_too = ground arith;
}
known_round seen before (some names) expr once = record {
  decided = λ n. ground (arith, member-add_name n expr names);
  once = AllOnce-add_name expr names once;
  seen_too = ground arith;
}

pub expand_one-Follows :
    (r : Resolver) (o : IndicesOptions) (preserve : Bool) (before : List Bytes) (v : Expanding)
    (expr : Bytes) (next : Expanding)
    → IsOnce v.result
    → expand_one r o preserve before v expr ≡ proceed next
    → Follows
        (word_of r o preserve v.wildcard_seen expr)
        v.wildcard_seen
        (names_or before v.result)
        (names_or (before ++ (expr ∷ [])) next.result)
        next
unfolding expand_one word_of
expand_one-Follows r o preserve before v [] next once e = absurd (cc)
expand_one-Follows r o preserve before v (c ∷ expr) next once e =
    reserved (eqb c 95) (is_usable o (lookup (c ∷ expr) r.known)) (eqb c 45 && v.wildcard_seen) e
  where
    reserved :
        (b known minus : Bool)
        → (if b
            then failed (invalid_name (c ∷ expr))
            else if known
            then proceed (add_known (c ∷ expr) v)
            else if minus
            then expand_other r o preserve v.wildcard_seen false expr (names_or before v.result)
            else expand_other r o preserve v.wildcard_seen true
                (c ∷ expr)
                (names_or before v.result))
          ≡ proceed next
        → Follows
            (if known
              then record { names = (c ∷ expr) ∷ []; is_exclusion = false; is_wildcard = false }
              else if minus
              then word r o preserve true expr
              else word r o preserve false (c ∷ expr))
            v.wildcard_seen
            (names_or before v.result)
            (names_or (before ++ ((c ∷ expr) ∷ [])) next.result)
            next
    reserved true known minus e = absurd (cc)
    reserved false true minus e =
        subst
          (λ x.
            Follows (record { names = (c ∷ expr) ∷ []; is_exclusion = false; is_wildcard = false })
              v.wildcard_seen (names_or before v.result)
              (names_or (before ++ ((c ∷ expr) ∷ [])) x.result) x)
          (same_step e) (known_round v.wildcard_seen before v.result (c ∷ expr) once)
    reserved false false true e =
        round_of _ v.wildcard_seen (names_or before v.result) (before ++ ((c ∷ expr) ∷ [])) next (
          expand_other-Follows r o preserve v.wildcard_seen false expr (names_or before v.result)
            next (AllOnce-names_or before v.result once) e)
    reserved false false false e =
        round_of _ v.wildcard_seen (names_or before v.result) (before ++ ((c ∷ expr) ∷ [])) next (
          expand_other-Follows r o preserve v.wildcard_seen true (c ∷ expr)
            (names_or before v.result) next (AllOnce-names_or before v.result once) e)
