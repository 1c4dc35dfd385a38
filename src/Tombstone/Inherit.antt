-- ===== src/Tombstone/Inherit.antt =====
-- A copy of an index inherits a snapshot (tombstones.go, `inheritLocked`).
use osmem.Prelude.{
  ℕ, ◌<◌, true, false, none, some, List, [], ◌∷◌, ◌≡◌, ◌≢◌, refl, sym, ◌∙◌, ap, eqb, eqb_iff, arith,
  ◌⊎◌, inl, inr, Bool-cases, Option-cases,
}
use osmem.Prelude.Int.{ℤ, leb_ℤ, ◌≤ℤ◌}
use osmem.Prelude.Dict.{nat_keys, member}
use osmem.Index.{Index}
use osmem.Tombstone.{
  Snapshot, Registry, Tombstones, snapshots, current, snapshot_at, mark_shared, inherit_locked,
  share_with, newest, items_of, is_nonempty, is_registered, inherited,
}
use osmem.Tombstone.Sharing.{
  Has, history_of, addresses, AllNew, IsSeparated, Comes, mark_shared-Comes, mark_shared-addresses,
}

snapshot_at-Has :
    (l : List Snapshot) (n : ℤ) (snap : Snapshot)
    → snapshot_at l n ≡ some snap
    → Has snap l × (snap.seq_no ≤ℤ n)
unfolding snapshot_at
snapshot_at-Has [] n snap e = cc
snapshot_at-Has (s ∷ l) n snap e = ground (arith, snapshot_at-Has l n snap)

Has-member : (l : List Snapshot) (s : Snapshot) → Has s l → member s.items (addresses l) ≡ true
unfolding member
Has-member [] s h = absurd h
Has-member (t ∷ l) s (inl e) =
    ground (arith, eqb_iff t.items s.items, ap (λ (x : Snapshot). x.items) e)
Has-member (t ∷ l) s (inr h) = ground (arith, Has-member l s h)

marked_first :
    (t s : Snapshot) (l : List Snapshot)
    → member t.items (addresses l) ≡ false
    → Has s (record t { shared = true } ∷ l)
    → s.items ≡ t.items
    → s.shared ≡ true
marked_first t s l once (inl e) same = sym (ap (λ (x : Snapshot). x.shared) e)
marked_first t s l once (inr h) same = absurd (cc (rw (← same) at once, Has-member l s h))

marked_later :
    (t s snap : Snapshot) (l m : List Snapshot)
    → member t.items (addresses l) ≡ false
    → Has snap l
    → (Has s m → s.shared ≡ true)
    → Has s (t ∷ m)
    → s.items ≡ snap.items
    → s.shared ≡ true
marked_later t s snap l m once has ih (inl e) same =
    let f : t.items ≡ snap.items = ap (λ (x : Snapshot). x.items) e ∙ same in
    absurd (cc (rw f at once, Has-member l snap has))
marked_later t s snap l m once has ih (inr h) same = ih h

-- After the marking, what shares the map of the snapshot is marked.
marked_in :
    (l : List Snapshot) (n : ℤ) (snap s : Snapshot)
    → snapshot_at l n ≡ some snap
    → AllNew (addresses l)
    → Has s (mark_shared l n)
    → s.items ≡ snap.items
    → s.shared ≡ true
unfolding snapshot_at mark_shared
marked_in [] n snap s e once h same = absurd h
marked_in (t ∷ l) n snap s e once h same = elim (Bool-cases (leb_ℤ t.seq_no n)) [
  | inl b ↦
      marked_first t s l once.0 (rw b at h)
        (same ∙ ap (λ (x : Snapshot). x.items) (found t snap (rw b at e)))
  | inr b ↦
      let later : snapshot_at l n ≡ some snap = rw b at e in
      marked_later t s snap l (mark_shared l n) once.0 (snapshot_at-Has l n snap later).0
        (λ k. marked_in l n snap s later once.1 k same) (rw b at h) same
]
  where
    found : (t snap : Snapshot) → some t ≡ some snap → snap ≡ t
    found t snap e = cc

-- A snapshot of the registry after the sharing: the copy's, a marked one of the source, or an old one.
abbrev Origin : Registry → Index → Index → Snapshot → ℕ → Snapshot → Type 0
Origin reg from to snap i s =
    ((inherited to snap ≡ s) × (to.handle ≡ i))
    ⊎ ((Has s (mark_shared (history_of reg from.handle) to.seq_no) × (from.handle ≡ i))
        ⊎ (Has s (history_of reg i) × (from.handle ≢ i)))

eqb-ne : (a b : ℕ) → eqb a b ≡ false → a ≢ b
eqb-ne a b h = ground arith

origin :
    (reg : Registry) (from to : Index) (snap : Snapshot) (i : ℕ) (s : Snapshot)
    → Has s (history_of (share_with reg from to snap) i)
    → Origin reg from to snap i s
unfolding share_with
origin reg from to snap i s h = elim (Bool-cases (eqb to.handle i)) [
  | inl b ↦ inl (only (rw b at h), (eqb_iff to.handle i).0 b)
  | inr b ↦ elim (Bool-cases (eqb from.handle i)) [
    | inl c ↦ inr (inl (rw (b, c) at h, (eqb_iff from.handle i).0 c))
    | inr c ↦ inr (inr (rw (b, c) at h, eqb-ne from.handle i c))
  ]
]
  where
    only : Has s (inherited to snap ∷ []) → inherited to snap ≡ s
    only (inl e) = e
    only (inr h) = absurd h

module _ (reg : Registry) (from to : Index) (snap : Snapshot) (sep : IsSeparated reg)
    (found : snapshot_at (history_of reg from.handle) to.seq_no ≡ some snap) where
  Has-snap : Has snap (history_of reg from.handle)
  Has-snap = (snapshot_at-Has (history_of reg from.handle) to.seq_no snap found).0

  came :
      (s : Snapshot)
      → Has s (mark_shared (history_of reg from.handle) to.seq_no)
      → Comes (history_of reg from.handle) s
  came s h = mark_shared-Comes (history_of reg from.handle) to.seq_no s h

  share-marked :
      (i j : ℕ) (s t : Snapshot)
      → Origin reg from to snap i s
      → Origin reg from to snap j t
      → i ≢ j
      → s.items ≡ t.items
      → s.shared ≡ true
  share-marked i j s t (inl (e, p)) k ne same = sym (ap (λ (x : Snapshot). x.shared) e)
  share-marked i j s t (inr (inl (h, p))) (inl (e, q)) ne same =
      marked_in (history_of reg from.handle) to.seq_no snap s found (sep.once from.handle) h
        (same ∙ sym (ap (λ (x : Snapshot). x.items) e))
  share-marked i j s t (inr (inl (h, p))) (inr (inl (k, q))) ne same = absurd (ne (sym p ∙ q))
  share-marked i j s t (inr (inl (h, p))) (inr (inr (k, q))) ne same =
      let c = came s h in c.mark (sep.marked from.handle j c.from t c.has k q (c.same ∙ same))
  share-marked i j s t (inr (inr (h, p))) (inl (e, q)) ne same =
      sep.marked i from.handle s snap h Has-snap (λ x. p (sym x))
        (same ∙ sym (ap (λ (x : Snapshot). x.items) e))
  share-marked i j s t (inr (inr (h, p))) (inr (inl (k, q))) ne same =
      let c = came t k in
      sep.marked i from.handle s c.from h c.has (λ x. p (sym x)) (same ∙ sym c.same)
  share-marked i j s t (inr (inr (h, p))) (inr (inr (k, q))) ne same =
      sep.marked i j s t h k ne same

  share-below : (i : ℕ) (s : Snapshot) → Origin reg from to snap i s → s.items < reg.next_items
  share-below i s (inl (e, p)) =
      omega (arith, sep.below from.handle snap Has-snap, ap (λ (x : Snapshot). x.items) e)
  share-below i s (inr (inl (h, p))) =
      let c = came s h in omega (arith, sep.below from.handle c.from c.has, c.same)
  share-below i s (inr (inr (h, p))) = sep.below i s h

  share-once : (i : ℕ) → AllNew (addresses (history_of (share_with reg from to snap) i))
  unfolding share_with
  share-once i = elim (Bool-cases (eqb to.handle i)) [
    | inl b ↦ rw b (unfold member in (refl, tt))
    | inr b ↦ elim (Bool-cases (eqb from.handle i)) [
      | inl c ↦
          rw (b, c)
            (rw (mark_shared-addresses (history_of reg from.handle) to.seq_no)
              (sep.once from.handle))
      | inr c ↦ rw (b, c) (sep.once i)
    ]
  ]

  share_with-IsSeparated : IsSeparated (share_with reg from to snap)
  share_with-IsSeparated = record {
    marked = λ i j s t h k ne same.
        share-marked i j s t (origin reg from to snap i s h) (origin reg from to snap j t k) ne
          same;
    below = λ i s h. unfold share_with in share-below i s (origin reg from to snap i s h);
    once = share-once;
  }

-- When a copy inherits, the maps stay apart: a map that two histories reach is marked as shared in
-- both, no history reaches a map twice, and none reaches an unallocated one, if this holds before.
pub inherit_locked-IsSeparated :
    (reg : Registry) (from to : Index) → IsSeparated reg → IsSeparated (inherit_locked reg from to)
unfolding inherit_locked
inherit_locked-IsSeparated reg from to sep =
    elim (Bool-cases (is_registered (reg.history to.handle))) [
      | inl b ↦ rw b sep
      | inr b ↦ elim (Option-cases (snapshot_at (history_of reg from.handle) to.seq_no)) [
        | inl e ↦ rw (b, e) sep
        | inr (snap, e) ↦ elim (Bool-cases (is_nonempty (reg.items_at snap.items))) [
          | inl c ↦ rw (b, e, c) (share_with-IsSeparated reg from to snap sep e)
          | inr c ↦ rw (b, e, c) sep
        ]
      ]
    ]

newest-snapshot_at :
    (l : List Snapshot) (n : ℤ) (snap : Snapshot)
    → newest l ≡ some snap
    → snap.seq_no ≤ℤ n
    → (snapshot_at l n ≡ some snap) × (older : List Snapshot) × (l ≡ snap ∷ older)
unfolding snapshot_at
newest-snapshot_at [] n snap e le = cc
newest-snapshot_at (s ∷ older) n snap e le = (ground arith, older, cc)

share_with-current :
    (reg : Registry) (from to : Index) (snap : Snapshot)
    → current (share_with reg from to snap) to.handle ≡ reg.items_at snap.items
unfolding share_with
share_with-current reg from to snap = ground (arith, eqb_iff to.handle to.handle)

empty-items : (m : Tombstones) → is_nonempty m ≡ false → m ≡ []
empty-items [] h = refl
empty-items (t ∷ ts) h = cc

-- A copy that is not registered yet, made no earlier than the newest snapshot of its source, has the
-- tombstones of its source after it has inherited.
pub inherit_locked-current :
    (reg : Registry) (from to : Index) (snap : Snapshot)
    → reg.history to.handle ≡ none
    → newest (history_of reg from.handle) ≡ some snap
    → snap.seq_no ≤ℤ to.seq_no
    → current (inherit_locked reg from to) to.handle ≡ current reg from.handle
unfolding inherit_locked
inherit_locked-current reg from to snap fresh e le =
    let (at, older, l) = newest-snapshot_at (history_of reg from.handle) to.seq_no snap e le in
    elim (Bool-cases (is_nonempty (reg.items_at snap.items))) [
      | inl c ↦ rw (fresh, at, c) (share_with-current reg from to snap ∙ sym (ap (items_of reg) l))
      | inr c ↦
          rw (fresh, at, c)
            (ap (λ h. items_of reg (snapshots h)) fresh
              ∙ sym (ap (items_of reg) l ∙ empty-items (reg.items_at snap.items) c))
    ]
