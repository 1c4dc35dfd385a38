-- ===== src/Resolve/LastWord.antt =====
-- internal/engine/resolve.go: in `expand` the last expression that stands for a name decides.
use osmem.Prelude.{
  Bool, true, false, not, ◌||◌, Option, none, some, List, [], ◌∷◌, ◌++◌, ◌≡◌, refl, sym, ap, subst,
  ◌∙◌, arith, if◌then◌else◌,
}
use osmem.Prelude.Dict.{member}
use osmem.Glob.{Bytes, bytes_keys}
use osmem.Resolve.{IndicesOptions, gives, Resolver}
use osmem.Resolve.Expand.{
  add_names, Expanding, ExpandStep, proceed, failed, names_or, expand_one, expand_loop, end_expand,
  unless_empty, is_everything, nothing_yet, expand,
}
use osmem.Resolve.Names.{member-append, member-add_names}
use osmem.Resolve.Word.{Word, word_of, or_word, last_word, or_before, IsOnce, same_step}
use osmem.Resolve.Round.{expand_one-Follows}

-- The expressions before the end of the loop.
unfoldable after : List Bytes → List Bytes → List Bytes
after before [] = before
after before (expr ∷ exprs) = after (before ++ (expr ∷ [])) exprs

member-after :
    (n : Bytes) (exprs before : List Bytes)
    → member n (after before exprs) ≡ (member n before || member n exprs)
unfolding after member
member-after n [] before = ground arith
member-after n (expr ∷ exprs) before =
    ground (arith, member-after n exprs (before ++ (expr ∷ [])), member-append n before (expr ∷ []))

later_word :
    (n : Bytes) (w : Word) (earlier : Bool) (later : Option Bool)
    → or_before (if member n w.names then not w.is_exclusion else earlier) later
      ≡ or_before earlier (or_word n w later)
later_word n w earlier (some b) = refl
later_word n w earlier none = ground arith

module _ (r : Resolver) (o : IndicesOptions) (preserve : Bool) where
  expand_loop-last :
      (exprs before : List Bytes) (v last : Expanding)
      → IsOnce v.result
      → expand_loop r o preserve before exprs v ≡ proceed last
      → IsOnce last.result
        × ((n : Bytes)
            → member n (names_or (after before exprs) last.result)
              ≡ or_before
                  (member n (names_or before v.result))
                  (last_word r o preserve n v.wildcard_seen exprs))
  unfolding expand_loop after last_word
  expand_loop-last [] before v last once e =
      subst
        (λ x.
          IsOnce x.result
          × ((n : Bytes)
              → member n (names_or before x.result) ≡ member n (names_or before v.result)))
        (same_step e) (once, λ n. refl)
  expand_loop-last (expr ∷ exprs) before v last once e =
      on_step (expand_one r o preserve before v expr) refl e
        (λ next o e. expand_loop-last exprs (before ++ (expr ∷ [])) next last o e)
    where
      w : Word
      w = word_of r o preserve v.wildcard_seen expr

      on_step :
          (step : ExpandStep)
          → expand_one r o preserve before v expr ≡ step
          → elim step [
            | failed x ↦ failed x
            | proceed next ↦ expand_loop r o preserve (before ++ (expr ∷ [])) exprs next
          ]
            ≡ proceed last
          → ((next : Expanding)
              → IsOnce next.result
              → expand_loop r o preserve (before ++ (expr ∷ [])) exprs next ≡ proceed last
              → IsOnce last.result
                × ((n : Bytes)
                    → member n (names_or (after (before ++ (expr ∷ [])) exprs) last.result)
                      ≡ or_before
                          (member n (names_or (before ++ (expr ∷ [])) next.result))
                          (last_word r o preserve n next.wildcard_seen exprs)))
          → IsOnce last.result
            × ((n : Bytes)
                → member n (names_or (after (before ++ (expr ∷ [])) exprs) last.result)
                  ≡ or_before (member n (names_or before v.result)) (
                      or_word n w
                        (last_word r o preserve n (v.wildcard_seen || w.is_wildcard) exprs)))
      on_step (failed x) one e later = absurd (cc)
      on_step (proceed next) one e later =
          let f = expand_one-Follows r o preserve before v expr next once one in
          let rest = later next f.once e in
          (
            rest.0,
            λ n.
                rest.1 n
                ∙ ap (λ b. or_before b (last_word r o preserve n next.wildcard_seen exprs))
                    (f.decided n)
                ∙ ap
                    (λ b.
                      or_before
                        (if member n w.names
                          then not w.is_exclusion
                          else member n (names_or before v.result))
                        (last_word r o preserve n b exprs))
                    f.seen_too
                ∙ later_word n w (member n (names_or before v.result))
                    (last_word r o preserve n (v.wildcard_seen || w.is_wildcard) exprs),
          )

ends_once :
    (o : IndicesOptions) (exprs : List Bytes) (last : Expanding) (names : List Bytes)
    → IsOnce last.result
    → end_expand o exprs (proceed last) ≡ gives names
    → (n : Bytes) → member n names ≡ member n (names_or (after [] exprs) last.result)
unfolding member
ends_once o exprs last names once e n = on_result last.result e
  where
    on_result :
        (result : Option (List Bytes))
        → elim result [ none ↦ gives exprs | some found ↦ unless_empty o exprs found ] ≡ gives names
        → member n names ≡ member n (names_or (after [] exprs) result)
    on_result none e =
        ground (arith, member-after n exprs [], member-add_names n (after [] exprs) [])
    on_result (some []) e = ground arith
    on_result (some (first ∷ found)) e = ground arith

pub expand_named :
    (r : Resolver) (o : IndicesOptions) (preserve : Bool) (exprs : List Bytes)
    → (o.expand_open || o.expand_closed) ≡ true
    → is_everything exprs ≡ false
    → expand r exprs o preserve ≡ end_expand o exprs (expand_loop r o preserve [] exprs nothing_yet)
unfolding expand
expand_named r o preserve exprs expands some_named = ground arith

-- If wildcards expand to open or closed indices, the expressions do not ask for all indices, and
-- `expand` gives names, these are the names of which the last expression that stands for them does
-- not take them away.
pub expand-last_word :
    (r : Resolver) (o : IndicesOptions) (preserve : Bool) (exprs names : List Bytes)
    → (o.expand_open || o.expand_closed) ≡ true
    → is_everything exprs ≡ false
    → expand r exprs o preserve ≡ gives names
    → (n : Bytes) → member n names ≡ or_before false (last_word r o preserve n false exprs)
unfolding member add_names
expand-last_word r o preserve exprs names expands some_named e n =
    on_step (expand_loop r o preserve [] exprs nothing_yet) refl
      (sym (expand_named r o preserve exprs expands some_named) ∙ e)
  where
    on_step :
        (step : ExpandStep)
        → expand_loop r o preserve [] exprs nothing_yet ≡ step
        → end_expand o exprs step ≡ gives names
        → member n names ≡ or_before false (last_word r o preserve n false exprs)
    on_step (failed x) one e = absurd (cc)
    on_step (proceed last) one e =
        let all = expand_loop-last r o preserve exprs [] nothing_yet last tt one in
        ends_once o exprs last names all.0 e n ∙ all.1 n
