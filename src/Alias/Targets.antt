-- ===== src/Alias/Targets.antt =====
-- The targets of an alias are the indices that have it, in whatever order they come (cluster.go,
-- `aliasTargets`).
use osmem.Prelude.{
  String, true, false, List, [], ◌∷◌, ◌≡◌, sym, subst, ap, ◌∙◌, false≢true, ◌⊎◌, inl, inr,
  Bool-cases,
}
use osmem.Prelude.Dict.{Dict, string_keys}
use osmem.Alias.{
  AliasedIndex, has_alias, holders_of, insert_by_name, sort_by_name, alias_targets, is_less,
}

abbrev pub Among : AliasedIndex → List AliasedIndex → Type 0
Among t [] = ⊥
Among t (u ∷ us) = (u ≡ t) ⊎ Among t us

-- An index of the cluster.
abbrev pub Stored : AliasedIndex → Dict String AliasedIndex → Type 0
Stored t [] = ⊥
Stored t (entry ∷ indices) = (entry.1 ≡ t) ⊎ Stored t indices

Among-swap :
    (t a b : AliasedIndex) (us : List AliasedIndex) → Among t (a ∷ b ∷ us) → Among t (b ∷ a ∷ us)
Among-swap t a b us (inl e) = inr (inl e)
Among-swap t a b us (inr (inl e)) = inl e
Among-swap t a b us (inr (inr m)) = inr (inr m)

insert-passes :
    (ix u : AliasedIndex) (us : List AliasedIndex)
    → is_less u.name ix.name ≡ true
    → insert_by_name ix (u ∷ us) ≡ u ∷ insert_by_name ix us
unfolding insert_by_name
insert-passes ix u us h = rw (h, insert_by_name)

insert-stops :
    (ix u : AliasedIndex) (us : List AliasedIndex)
    → is_less u.name ix.name ≡ false
    → insert_by_name ix (u ∷ us) ≡ ix ∷ u ∷ us
unfolding insert_by_name
insert-stops ix u us h = rw (h, insert_by_name)

Among-later :
    (t u : AliasedIndex) (us vs : List AliasedIndex)
    → (Among t us → Among t vs)
    → Among t (u ∷ us)
    → Among t (u ∷ vs)
Among-later t u us vs f (inl e) = inl e
Among-later t u us vs f (inr m) = inr (f m)

Among-insert :
    (t ix : AliasedIndex) (us : List AliasedIndex)
    → Among t (ix ∷ us)
    → Among t (insert_by_name ix us)
unfolding insert_by_name
Among-insert t ix [] h = h
Among-insert t ix (u ∷ us) h = elim (Bool-cases (is_less u.name ix.name)) [
  | inr b ↦ subst (Among t) (sym (insert-stops ix u us b)) h
  | inl b ↦ subst (Among t) (sym (insert-passes ix u us b)) (
      Among-later t u (ix ∷ us) (insert_by_name ix us) (Among-insert t ix us)
        (Among-swap t ix u us h))
]

Among-insert_inv :
    (t ix : AliasedIndex) (us : List AliasedIndex)
    → Among t (insert_by_name ix us)
    → Among t (ix ∷ us)
unfolding insert_by_name
Among-insert_inv t ix [] h = h
Among-insert_inv t ix (u ∷ us) h = elim (Bool-cases (is_less u.name ix.name)) [
  | inr b ↦ subst (Among t) (insert-stops ix u us b) h
  | inl b ↦ Among-swap t u ix us (
      Among-later t u (insert_by_name ix us) (ix ∷ us) (Among-insert_inv t ix us)
        (subst (Among t) (insert-passes ix u us b) h))
]

Among-sort : (t : AliasedIndex) (us : List AliasedIndex) → Among t us → Among t (sort_by_name us)
unfolding sort_by_name
Among-sort t [] m = m
Among-sort t (u ∷ us) m =
    Among-insert t u (sort_by_name us) (Among-later t u us (sort_by_name us) (Among-sort t us) m)

Among-sort_inv :
    (t : AliasedIndex) (us : List AliasedIndex) → Among t (sort_by_name us) → Among t us
unfolding sort_by_name
Among-sort_inv t [] m = m
Among-sort_inv t (u ∷ us) m =
    Among-later t u (sort_by_name us) us (Among-sort_inv t us)
      (Among-insert_inv t u (sort_by_name us) m)

holders_of-cases :
    (alias : String) (entry : String × AliasedIndex) (indices : Dict String AliasedIndex)
    → ((has_alias alias entry.1 ≡ true)
        × (holders_of alias (entry ∷ indices) ≡ entry.1 ∷ holders_of alias indices))
      ⊎ ((has_alias alias entry.1 ≡ false)
          × (holders_of alias (entry ∷ indices) ≡ holders_of alias indices))
unfolding holders_of
holders_of-cases alias entry indices = elim (Bool-cases (has_alias alias entry.1)) [
  | inl h ↦ inl (h, rw (h, holders_of))
  | inr h ↦ inr (h, rw (h, holders_of))
]

Among-holders :
    (alias : String) (t : AliasedIndex) (indices : Dict String AliasedIndex)
    → Stored t indices
    → has_alias alias t ≡ true
    → Among t (holders_of alias indices)
Among-holders alias t [] m h = absurd m
Among-holders alias t (entry ∷ indices) m h = elim (holders_of-cases alias entry indices) [
  | inl (a, e) ↦
      subst (Among t) (sym e)
        (elim m [ inl q ↦ inl q | inr r ↦ inr (Among-holders alias t indices r h) ])
  | inr (a, e) ↦ subst (Among t) (sym e) (elim m [
    | inl q ↦ absurd (false≢true (sym a ∙ ap (has_alias alias) q ∙ h))
    | inr r ↦ Among-holders alias t indices r h
  ])
]

holders-Stored :
    (alias : String) (t : AliasedIndex) (indices : Dict String AliasedIndex)
    → Among t (holders_of alias indices)
    → Stored t indices × (has_alias alias t ≡ true)
holders-Stored alias t [] m = absurd (unfold holders_of in m)
holders-Stored alias t (entry ∷ indices) m = elim (holders_of-cases alias entry indices) [
  | inl (a, e) ↦ elim (subst (Among t) e m) [
    | inl q ↦ (inl q, sym (ap (has_alias alias) q) ∙ a)
    | inr r ↦ let ih = holders-Stored alias t indices r in (inr ih.0, ih.1)
  ]
  | inr (a, e) ↦ let ih = holders-Stored alias t indices (subst (Among t) e m) in (inr ih.0, ih.1)
]

-- An index of the cluster that has the alias is a target.
pub Among-alias_targets :
    (alias : String) (t : AliasedIndex) (indices : Dict String AliasedIndex)
    → Stored t indices
    → has_alias alias t ≡ true
    → Among t (alias_targets indices alias)
unfolding alias_targets
Among-alias_targets alias t indices m h =
    Among-sort t (holders_of alias indices) (Among-holders alias t indices m h)

-- And a target is an index of the cluster that has the alias.
pub alias_targets-Stored :
    (alias : String) (t : AliasedIndex) (indices : Dict String AliasedIndex)
    → Among t (alias_targets indices alias)
    → Stored t indices × (has_alias alias t ≡ true)
unfolding alias_targets
alias_targets-Stored alias t indices m =
    holders-Stored alias t indices (Among-sort_inv t (holders_of alias indices) m)
