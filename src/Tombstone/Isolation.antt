-- ===== src/Tombstone/Isolation.antt =====
-- A commit of one index leaves what the other indices hold (tombstones.go, `commit`).
use osmem.Prelude.{
  ℕ, suc, ◌<◌, true, false, List, [], ◌∷◌, ◌≡◌, ◌≢◌, refl, sym, subst, ◌∙◌, ap, if◌then◌else◌, eqb,
  eqb_iff, arith, ◌⊎◌, inl, inr, Bool-cases, Option-cases, take,
}
use osmem.Prelude.Dict.{nat_keys, string_keys}
use osmem.Index.{Index}
use osmem.Tombstone.{Snapshot, Registry, snapshots, current, items_of, mutable}
use osmem.Tombstone.Tx.{
  DocTx, commit_one, commit_in_place, commit_copy, newest_copy, newest_in_place, set_newest,
  nothing_to_do,
}
use osmem.Tombstone.Sharing.{
  Has, history_of, addresses, AllNew, IsSeparated, Comes, Comes-self, mutable-cases, IsSeparated-by,
  AllNew-take, not_member-below, Has-take,
}

in_place-history :
    (reg : Registry) (tx : DocTx) (ix : Index) (snap : Snapshot) (i : ℕ)
    → history_of (commit_in_place reg tx ix snap) i ≡ (
        if eqb ix.handle i
        then set_newest
            (history_of reg ix.handle)
            (newest_in_place tx ix snap (reg.items_at snap.items))
        else history_of reg i)
unfolding commit_in_place
in_place-history reg tx ix snap i = ground arith

newest-Comes :
    (l : List Snapshot) (snap new s : Snapshot) (older : List Snapshot)
    → l ≡ snap ∷ older
    → snap.items ≡ new.items
    → snap.shared ≡ new.shared
    → Has s (set_newest l new)
    → Comes l s
newest-Comes [] snap new s older e a b h = cc
newest-Comes (t ∷ l) snap new s older e a b (inl h) = record {
  from = t;
  has = inl refl;
  same = cc;
  mark = λ m. cc;
}
newest-Comes (t ∷ l) snap new s older e a b (inr h) = Comes-self (t ∷ l) s (inr h)

newest-addresses :
    (l : List Snapshot) (snap new : Snapshot) (older : List Snapshot)
    → l ≡ snap ∷ older
    → snap.items ≡ new.items
    → addresses (set_newest l new) ≡ addresses l
newest-addresses [] snap new older e a = cc
newest-addresses (t ∷ l) snap new older e a = cc

commit_in_place-IsSeparated :
    (reg : Registry) (tx : DocTx) (ix : Index) (snap : Snapshot) (older : List Snapshot)
    → history_of reg ix.handle ≡ snap ∷ older
    → IsSeparated reg
    → IsSeparated (commit_in_place reg tx ix snap)
commit_in_place-IsSeparated reg tx ix snap older e sep =
    IsSeparated-by reg (commit_in_place reg tx ix snap) (unfold commit_in_place in refl) comes once
      sep
  where
    comes :
        (i : ℕ) (s : Snapshot)
        → Has s (history_of (commit_in_place reg tx ix snap) i)
        → Comes (history_of reg i) s
    comes i s h = elim (Bool-cases (eqb ix.handle i)) [
      | inl b ↦
          subst (λ k. Comes (history_of reg k) s) ((eqb_iff ix.handle i).0 b)
            (newest-Comes (history_of reg ix.handle) snap
              (newest_in_place tx ix snap (reg.items_at snap.items)) s older e refl refl
              (rw (in_place-history reg tx ix snap i, b) at h))
      | inr b ↦ Comes-self (history_of reg i) s (rw (in_place-history reg tx ix snap i, b) at h)
    ]

    once : (i : ℕ) → AllNew (addresses (history_of (commit_in_place reg tx ix snap) i))
    once i = elim (Bool-cases (eqb ix.handle i)) [
      | inl b ↦
          rw (in_place-history reg tx ix snap i, b)
            (rw
              (newest-addresses (history_of reg ix.handle) snap
                (newest_in_place tx ix snap (reg.items_at snap.items)) older e refl)
              (sep.once ix.handle))
      | inr b ↦ rw (in_place-history reg tx ix snap i, b) (sep.once i)
    ]

-- A snapshot after `commit_copy`: on the new map, or an old one.
abbrev Source : Registry → Index → ℕ → Snapshot → Type 0
Source reg ix i s = ((s.items ≡ reg.next_items) × (ix.handle ≡ i)) ⊎ Has s (history_of reg i)

new_or_old :
    (reg : Registry) (ix : Index) (n : ℕ) (new s : Snapshot)
    → new.items ≡ reg.next_items
    → Has s (take n (new ∷ history_of reg ix.handle))
    → Source reg ix ix.handle s
new_or_old reg ix n new s e h = elim (Has-take n (new ∷ history_of reg ix.handle) s h) [
  | inl same ↦ inl (sym (ap (λ (x : Snapshot). x.items) same) ∙ e, refl)
  | inr old ↦ inr old
]

copy-Source :
    (reg : Registry) (tx : DocTx) (ix : Index) (i : ℕ) (s : Snapshot)
    → Has s (history_of (commit_copy reg tx ix) i)
    → Source reg ix i s
copy-Source reg tx ix i s h = elim (Bool-cases (eqb ix.handle i)) [
  | inl b ↦
      subst (λ k. Source reg ix k s) ((eqb_iff ix.handle i).0 b)
        (new_or_old reg ix 8 (newest_copy reg tx ix) s refl (unfold commit_copy in rw b at h))
  | inr b ↦ inr (unfold commit_copy in rw b at h)
]

copy-once :
    (reg : Registry) (tx : DocTx) (ix : Index) (i : ℕ)
    → IsSeparated reg
    → AllNew (addresses (history_of (commit_copy reg tx ix) i))
copy-once reg tx ix i sep = elim (Bool-cases (eqb ix.handle i)) [
  | inl b ↦
      unfold commit_copy in
      rw b (
        AllNew-take 8 (newest_copy reg tx ix ∷ history_of reg ix.handle) (
          not_member-below reg.next_items (history_of reg ix.handle) (sep.below ix.handle),
          sep.once ix.handle,
        ))
  | inr b ↦ unfold commit_copy in rw b (sep.once i)
]

copy-marked :
    (reg : Registry) (ix : Index) (i j : ℕ) (s t : Snapshot)
    → IsSeparated reg
    → Source reg ix i s
    → Source reg ix j t
    → i ≢ j
    → s.items ≡ t.items
    → s.shared ≡ true
copy-marked reg ix i j s t sep (inl (a, p)) (inl (b, q)) ne e = absurd (ne (sym p ∙ q))
copy-marked reg ix i j s t sep (inl (a, p)) (inr h) ne e = absurd (omega (arith, sep.below j t h))
copy-marked reg ix i j s t sep (inr h) (inl (b, q)) ne e = absurd (omega (arith, sep.below i s h))
copy-marked reg ix i j s t sep (inr h) (inr k) ne e = sep.marked i j s t h k ne e

copy-below :
    (reg : Registry) (ix : Index) (i : ℕ) (s : Snapshot)
    → IsSeparated reg
    → Source reg ix i s
    → s.items < suc reg.next_items
copy-below reg ix i s sep (inl (a, p)) = omega arith
copy-below reg ix i s sep (inr h) = omega (arith, sep.below i s h)

commit_copy-IsSeparated :
    (reg : Registry) (tx : DocTx) (ix : Index)
    → IsSeparated reg
    → IsSeparated (commit_copy reg tx ix)
commit_copy-IsSeparated reg tx ix sep = record {
  marked = λ i j s t h k ne e.
      copy-marked reg ix i j s t sep (copy-Source reg tx ix i s h) (copy-Source reg tx ix j t k) ne
        e;
  below = λ i s h. unfold commit_copy in copy-below reg ix i s sep (copy-Source reg tx ix i s h);
  once = λ i. copy-once reg tx ix i sep;
}

items_of-same :
    (reg new : Registry) (l : List Snapshot)
    → ((s : Snapshot) → Has s l → new.items_at s.items ≡ reg.items_at s.items)
    → items_of new l ≡ items_of reg l
items_of-same reg new [] h = refl
items_of-same reg new (s ∷ l) h = h s (inl refl)

commit_copy-others :
    (reg : Registry) (tx : DocTx) (ix : Index) (j : ℕ)
    → ix.handle ≢ j
    → IsSeparated reg
    → current (commit_copy reg tx ix) j ≡ current reg j
unfolding commit_copy
commit_copy-others reg tx ix j ne sep = ground (
  arith,
  eqb_iff ix.handle j,
  items_of-same reg (commit_copy reg tx ix) (history_of reg j)
      λ s h. ground (arith, eqb_iff reg.next_items s.items, sep.below j s h),
)

commit_in_place-others :
    (reg : Registry) (tx : DocTx) (ix : Index) (snap : Snapshot) (older : List Snapshot) (j : ℕ)
    → ix.handle ≢ j
    → snap.shared ≡ false
    → history_of reg ix.handle ≡ snap ∷ older
    → IsSeparated reg
    → current (commit_in_place reg tx ix snap) j ≡ current reg j
unfolding commit_in_place
commit_in_place-others reg tx ix snap older j ne own e sep = ground (
  arith,
  eqb_iff ix.handle j,
  items_of-same reg (commit_in_place reg tx ix snap) (history_of reg j) apart,
)
  where
    is_own : Has snap (history_of reg ix.handle)
    is_own = rw e (inl refl)

    apart :
        (s : Snapshot)
        → Has s (history_of reg j)
        → (commit_in_place reg tx ix snap).items_at s.items ≡ reg.items_at s.items
    apart s h =
        ground (arith, eqb_iff snap.items s.items, sep.marked ix.handle j snap s is_own h ne)

-- The commit of one index keeps the maps apart, and changes the tombstones of no other index.
module _ (reg : Registry) (tx : DocTx) (ix : Index) (sep : IsSeparated reg) where
  pub commit_one-IsSeparated : IsSeparated (commit_one reg tx ix)
  unfolding commit_one
  commit_one-IsSeparated = elim (Bool-cases (nothing_to_do reg tx ix)) [
    | inl b ↦ rw b sep
    | inr b ↦ elim (Option-cases (mutable (snapshots (reg.history ix.handle)) ix.copies)) [
      | inl m ↦ rw (b, m) (commit_copy-IsSeparated reg tx ix sep)
      | inr (snap, m) ↦
          let (own, older, e) =
            mutable-cases (snapshots (reg.history ix.handle)) ix.copies snap m in
          rw (b, m) (commit_in_place-IsSeparated reg tx ix snap older e sep)
    ]
  ]

  pub commit_one-others : (j : ℕ) → ix.handle ≢ j → current (commit_one reg tx ix) j ≡ current reg j
  unfolding commit_one
  commit_one-others j ne = elim (Bool-cases (nothing_to_do reg tx ix)) [
    | inl b ↦ rw b
    | inr b ↦ elim (Option-cases (mutable (snapshots (reg.history ix.handle)) ix.copies)) [
      | inl m ↦ rw (b, m) (commit_copy-others reg tx ix j ne sep)
      | inr (snap, m) ↦
          let (own, older, e) =
            mutable-cases (snapshots (reg.history ix.handle)) ix.copies snap m in
          rw (b, m) (commit_in_place-others reg tx ix snap older j ne own e sep)
    ]
  ]
