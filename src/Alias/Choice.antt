-- ===== src/Alias/Choice.antt =====
-- Which index `resolveWriteIndex` chooses (cluster.go).
use osmem.Prelude.{
  String, true, false, none, some, List, [], ◌∷◌, ◌≡◌, ◌≢◌, refl, sym, subst, ap, ◌∙◌, false≢true,
  ◌⊎◌, inl, inr, arith, Bool-cases, Option-cases,
}
use osmem.Prelude.Dict.{Dict, string_keys, lookup}
use osmem.Error.{Result, ok, err}
use osmem.Alias.{
  AliasedIndex, has_alias, alias_targets, allows, designates, designated, choose, write_index,
  resolve_write_index, unless_closed,
}
use osmem.Alias.Targets.{Among, Stored, Among-alias_targets, alias_targets-Stored}

-- The index has the alias and is marked as its write index.
abbrev pub Designated : String → AliasedIndex → Type 0
Designated alias t = designates (lookup alias t.aliases) ≡ true

designated-cases :
    (alias : String) (u : AliasedIndex) (us : List AliasedIndex)
    → (Designated alias u × (designated alias (u ∷ us) ≡ ok u))
      ⊎ ((designates (lookup alias u.aliases) ≡ false)
          × (designated alias (u ∷ us) ≡ designated alias us))
unfolding designated
designated-cases alias u us = elim (Bool-cases (designates (lookup alias u.aliases))) [
  | inl b ↦ inl (b, rw (b, designated))
  | inr b ↦ inr (b, rw (b, designated))
]

not_designated : (alias : String) (t : AliasedIndex) → designated alias [] ≢ ok t
unfolding designated
not_designated alias t h = cc

same_index : {t u : AliasedIndex} → ok t ≡ ok u → t ≡ u
same_index h = cc

designated_sound :
    (alias : String) (t : AliasedIndex) (ts : List AliasedIndex)
    → designated alias ts ≡ ok t
    → Among t ts × Designated alias t
designated_sound alias t [] h = absurd (not_designated alias t h)
designated_sound alias t (u ∷ us) h = elim (designated-cases alias u us) [
  | inl (b, e) ↦ let same = same_index (sym e ∙ h) in (inl same, subst (Designated alias) same b)
  | inr (b, e) ↦ let ih = designated_sound alias t us (sym e ∙ h) in (inr ih.0, ih.1)
]

designated-found :
    (alias : String) (t : AliasedIndex) (ts : List AliasedIndex)
    → Among t ts
    → Designated alias t
    → (u : AliasedIndex) × (designated alias ts ≡ ok u)
designated-found alias t [] m h = absurd m
designated-found alias t (u ∷ us) m h = elim (designated-cases alias u us) [
  | inl (b, e) ↦ (u, e)
  | inr (b, e) ↦ elim m [
    | inl q ↦
        absurd (
          false≢true (sym b ∙ ap (λ (x : AliasedIndex). designates (lookup alias x.aliases)) q ∙ h))
    | inr r ↦ let found = designated-found alias t us r h in (found.0, e ∙ found.1)
  ]
]

only_allowed :
    (alias : String) (u : AliasedIndex)
    → allows (lookup alias u.aliases) ≡ true
    → choose alias (u ∷ []) ≡ ok u
unfolding choose
only_allowed alias u b = rw (b, choose)

only_refused :
    (alias : String) (u : AliasedIndex)
    → allows (lookup alias u.aliases) ≡ false
    → choose alias (u ∷ []) ≡ designated alias (u ∷ [])
unfolding choose
only_refused alias u b = rw (b, choose)

only_one : {t u : AliasedIndex} → Among u (t ∷ []) → t ≡ u
only_one (inl q) = q
only_one (inr r) = absurd r

choose_sound :
    (alias : String) (t : AliasedIndex) (ts : List AliasedIndex)
    → choose alias ts ≡ ok t
    → (Among t ts × Designated alias t) ⊎ ((ts ≡ t ∷ []) × (allows (lookup alias t.aliases) ≡ true))
unfolding choose
choose_sound alias t [] h = absurd (cc h)
choose_sound alias t (u ∷ []) h = elim (Bool-cases (allows (lookup alias u.aliases))) [
  | inl b ↦
      let same = same_index (sym (only_allowed alias u b) ∙ h) in
      inr (
        ap (λ x. x ∷ []) same,
        subst (λ (x : AliasedIndex). allows (lookup alias x.aliases) ≡ true) same b,
      )
  | inr b ↦ inl (designated_sound alias t (u ∷ []) (sym (only_refused alias u b) ∙ h))
]
choose_sound alias t (u ∷ v ∷ us) h = inl (designated_sound alias t (u ∷ v ∷ us) h)

-- Why an index was chosen: it has the name, or it has the alias and is marked as its write index, or
-- it is the only index with the alias and is not marked as no write index.
pub data Reason (indices : Dict String AliasedIndex) (name : String) (t : AliasedIndex)
    : Type 0 where
  named : lookup name indices ≡ some t → Reason indices name t
  marked : lookup name indices ≡ none → Stored t indices → Designated name t → Reason indices name t
  only :
      lookup name indices ≡ none
      → Stored t indices
      → has_alias name t ≡ true
      → ((u : AliasedIndex) → Stored u indices → has_alias name u ≡ true → t ≡ u)
      → allows (lookup name t.aliases) ≡ true
      → Reason indices name t

has_alias-Designated :
    (alias : String) (t : AliasedIndex) → Designated alias t → has_alias alias t ≡ true
has_alias-Designated alias t h = ground arith

allows-Designated :
    (alias : String) (t : AliasedIndex)
    → Designated alias t
    → allows (lookup alias t.aliases) ≡ true
allows-Designated alias t h = ground arith

choose-found :
    (alias : String) (t : AliasedIndex) (ts : List AliasedIndex)
    → Among t ts
    → Designated alias t
    → (u : AliasedIndex) × (choose alias ts ≡ ok u)
unfolding choose
choose-found alias t [] m h = absurd m
choose-found alias t (u ∷ []) (inl q) h =
    (u, only_allowed alias u (allows-Designated alias u (subst (Designated alias) (sym q) h)))
choose-found alias t (u ∷ []) (inr r) h = absurd r
choose-found alias t (u ∷ v ∷ us) m h = designated-found alias t (u ∷ v ∷ us) m h

write_index-named :
    (indices : Dict String AliasedIndex) (name : String) (t : AliasedIndex)
    → lookup name indices ≡ some t
    → write_index indices name ≡ ok t
unfolding write_index
write_index-named indices name t e = rw (e, write_index)

write_index-aliased :
    (indices : Dict String AliasedIndex) (name : String)
    → lookup name indices ≡ none
    → write_index indices name ≡ choose name (alias_targets indices name)
unfolding write_index
write_index-aliased indices name e = rw (e, write_index)

write_index-Reason :
    (indices : Dict String AliasedIndex) (name : String) (t : AliasedIndex)
    → write_index indices name ≡ ok t
    → Reason indices name t
write_index-Reason indices name t h = elim (Option-cases (lookup name indices)) [
  | inr (u, e) ↦ named (e ∙ ap some (same_index (sym (write_index-named indices name u e) ∙ h)))
  | inl e ↦
      elim (choose_sound name t (alias_targets indices name)
        (sym (write_index-aliased indices name e) ∙ h)) [
          | inl (m, d) ↦ marked e (alias_targets-Stored name t indices m).0 d
          | inr (alone, a) ↦
              let held =
                alias_targets-Stored name t indices (subst (Among t) (sym alone) (inl refl)) in
              only e held.0 held.1
                (λ u stored has.
                  only_one (subst (Among u) alone (Among-alias_targets name u indices stored has)))
                a
        ]
]

write_index-marked :
    (indices : Dict String AliasedIndex) (name : String) (t : AliasedIndex)
    → lookup name indices ≡ none
    → Stored t indices
    → Designated name t
    → ((u : AliasedIndex) → Stored u indices → Designated name u → t ≡ u)
    → write_index indices name ≡ ok t
write_index-marked indices name t e stored d once =
    let m = Among-alias_targets name t indices stored (has_alias-Designated name t d) in
    let (u, c) = choose-found name t (alias_targets indices name) m d in
    write_index-aliased indices name e
    ∙ c
    ∙ ap ok (elim (choose_sound name u (alias_targets indices name) c) [
      | inl (n, k) ↦ sym (once u (alias_targets-Stored name u indices n).0 k)
      | inr (alone, a) ↦ only_one (subst (Among t) alone m)
    ])

kept_open : (u : AliasedIndex) → u.state_closed ≡ false → unless_closed (ok u) ≡ ok u
kept_open u b = rw b refl

refused_closed : (u t : AliasedIndex) → u.state_closed ≡ true → unless_closed (ok u) ≢ ok t
refused_closed u t b h = ground arith

unless_closed-cases :
    (r : Result AliasedIndex) (t : AliasedIndex)
    → unless_closed r ≡ ok t
    → (r ≡ ok t) × (t.state_closed ≡ false)
unless_closed-cases (err x) t h = absurd (cc h)
unless_closed-cases (ok u) t h = elim (Bool-cases u.state_closed) [
  | inl b ↦ absurd (refused_closed u t b h)
  | inr b ↦
      let same = same_index (sym (kept_open u b) ∙ h) in
      (ap ok same, subst (λ (x : AliasedIndex). x.state_closed ≡ false) same b)
]

-- The index that `resolveWriteIndex` returns is open, and it has the name, or has the alias and is
-- marked as its write index, or is the only index with the alias and is not marked as no write
-- index.
pub resolve_write_index-Reason :
    (indices : Dict String AliasedIndex) (name : String) (t : AliasedIndex)
    → resolve_write_index indices name ≡ ok t
    → (t.state_closed ≡ false) × Reason indices name t
unfolding resolve_write_index
resolve_write_index-Reason indices name t h =
    let (e, open_state) = unless_closed-cases (write_index indices name) t h in
    (open_state, write_index-Reason indices name t e)

-- If no index has the name and exactly one index is marked as the write index of the alias,
-- `resolveWriteIndex` returns it when it is open, in whatever order the map of indices comes.
pub resolve_write_index-marked :
    (indices : Dict String AliasedIndex) (name : String) (t : AliasedIndex)
    → lookup name indices ≡ none
    → Stored t indices
    → Designated name t
    → ((u : AliasedIndex) → Stored u indices → Designated name u → t ≡ u)
    → t.state_closed ≡ false
    → resolve_write_index indices name ≡ ok t
unfolding resolve_write_index
resolve_write_index-marked indices name t e stored d once open_state =
    ap unless_closed (write_index-marked indices name t e stored d once) ∙ kept_open t open_state
