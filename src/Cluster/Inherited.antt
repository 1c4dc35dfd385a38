-- ===== src/Cluster/Inherited.antt =====
-- A document write sees the tombstones of the index that it copies (tombstones.go, `docWritable`).
use osmem.Prelude.{
  ℕ, String, Bool, true, Option, none, some, ◌≡◌, ◌≢◌, refl, sym, subst, ap, ap₂, ◌∙◌, ◌⊎◌, inl,
  inr, Bool-cases, Option-cases, arith, eqb_iff,
}
use osmem.Prelude.Int.{◌≤ℤ◌}
use osmem.Prelude.Dict.{string_keys, lookup}
use osmem.Prelude.Distinct.{Distinct}
use osmem.Error.{Error, Result, ok, err}
use osmem.Index.{Index}
use osmem.Tombstone.{
  Registry, Snapshot, current, newest, inherit_locked, inherit_tombstones, is_registered,
  is_nonempty, snapshots, snapshot_at, share_with,
}
use osmem.Tombstone.Sharing.{history_of}
use osmem.Tombstone.Inherit.{inherit_locked-current}
use osmem.Cluster.{World}
use osmem.Cluster.Copy.{Opener, writable}
use osmem.Cluster.Notes.{
  Notes, note_index, inherit_from_last, replaces, inherit_before, carry, doc_writable,
}
use text.Mathlib.TextEquality.{eq_iff}
use osmem.Cluster.Carried.{Origin, itself, copy, FromIndex, writable-FromIndex, writable-docs}

registered-again :
    (reg : Registry) (from to : Index)
    → is_registered (reg.history to.handle) ≡ true
    → inherit_locked reg from to ≡ reg
unfolding inherit_locked
registered-again reg from to b = rw b refl

shared-registered :
    (reg : Registry) (from to : Index) (snap : Snapshot)
    → is_registered ((share_with reg from to snap).history to.handle) ≡ true
unfolding share_with
shared-registered reg from to snap = ground (arith, eqb_iff to.handle to.handle)

inherit_locked-cases :
    (reg : Registry) (from to : Index)
    → (inherit_locked reg from to ≡ reg)
      ⊎ ((snap : Snapshot) × (inherit_locked reg from to ≡ share_with reg from to snap))
unfolding inherit_locked
inherit_locked-cases reg from to = elim (Bool-cases (is_registered (reg.history to.handle))) [
  | inl b ↦ inl (rw b refl)
  | inr b ↦ elim (Option-cases (snapshot_at (history_of reg from.handle) to.seq_no)) [
    | inl e ↦ inl (rw (b, e) refl)
    | inr (snap, e) ↦ elim (Bool-cases (is_nonempty (reg.items_at snap.items))) [
      | inl c ↦ inr (snap, rw (b, e, c) refl)
      | inr c ↦ inl (rw (b, e, c) refl)
    ]
  ]
]

-- To inherit a second time changes nothing.
inherit_locked-again :
    (reg : Registry) (from to : Index)
    → inherit_locked (inherit_locked reg from to) from to ≡ inherit_locked reg from to
inherit_locked-again reg from to = elim (inherit_locked-cases reg from to) [
  | inl e ↦ ap (λ r. inherit_locked r from to) e
  | inr (snap, e) ↦
      ap (λ r. inherit_locked r from to) e
      ∙ registered-again (share_with reg from to snap) from to (shared-registered reg from to snap)
      ∙ sym e
]

inherit_tombstones_self : (reg : Registry) (ix : Index) → inherit_tombstones reg ix ix ≡ reg
unfolding inherit_tombstones
inherit_tombstones_self reg ix = ground (arith, eqb_iff ix.handle ix.handle)

inherit_tombstones-copy :
    (reg : Registry) (from to : Index)
    → from.handle ≢ to.handle
    → from.uuid ≡ to.uuid
    → inherit_tombstones reg from to ≡ inherit_locked reg from to
unfolding inherit_tombstones
inherit_tombstones-copy reg from to ne same =
    ground (arith, eqb_iff from.handle to.handle, eq_iff from.uuid to.uuid)

-- The cluster has noted no other index under the name.
abbrev pub Noted : Option ℕ → ℕ → Type 0
Noted o h = (o ≡ none) ⊎ (o ≡ some h)

from_last_self :
    (collected : ℕ → Bool) (w : World) (reg : Registry) (h : ℕ) (o : Option ℕ)
    → Noted o h
    → inherit_from_last collected w reg h o ≡ reg
from_last_self collected w reg h o (inl e) = rw e refl
from_last_self collected w reg h o (inr e) = rw e (ground (arith, eqb_iff h h))

from_last-copy :
    (collected : ℕ → Bool) (w : World) (reg : Registry) (h n : ℕ) (o : Option ℕ)
    → Noted o h
    → inherit_from_last collected w (inherit_locked reg (w.index_at h) (w.index_at n)) n o
      ≡ inherit_locked reg (w.index_at h) (w.index_at n)
from_last-copy collected w reg h n o (inl e) = rw e refl
from_last-copy collected w reg h n o (inr e) = rw e (elim (Bool-cases (replaces collected w h n)) [
  | inl b ↦ rw b (inherit_locked-again reg (w.index_at h) (w.index_at n))
  | inr b ↦ rw b refl
])

-- The registry that `docWritable` leaves.
carried_registry : (ℕ → Bool) → World → Notes → ℕ → Option ℕ → ℕ → Registry
carried_registry collected v t c before n =
    inherit_from_last collected v (inherit_before v t.registry before n) n
      (lookup (v.index_at n).name (t.last_seen c))

same_ok : {m n : ℕ} → ok m ≡ ok n → m ≡ n
same_ok e = cc

err_is_not_ok : {x : Error} {n : ℕ} → err x ≢ ok n
err_is_not_ok e = cc

carry-done :
    (collected : ℕ → Bool) (t u : Notes) (c n : ℕ) (before : Option ℕ) (v : World)
    (r : World × Result ℕ)
    → carry collected t c before r ≡ (v, u, ok n)
    → (r ≡ (v, ok n)) × (u.registry ≡ carried_registry collected v t c before n)
unfolding carried_registry note_index
carry-done collected t u c n before v (w, err x) e =
    absurd (err_is_not_ok (ap (λ (a : World × Notes × Result ℕ). a.2) e))
carry-done collected t u c n before v (w, ok m) e =
    let same = ap (λ (a : World × Notes × Result ℕ). a.0) e in
    let at = same_ok (ap (λ (a : World × Notes × Result ℕ). a.2) e) in
    (
      ap₂ (λ (x : World) (y : ℕ). (x, ok y)) same at,
      sym (ap (λ (a : World × Notes × Result ℕ). a.1.registry) e)
          ∙ ap₂ (λ (x : World) (y : ℕ). carried_registry collected x t c before y) same at,
    )

no_snapshot : {s : Snapshot} → none ≢ some s
no_snapshot e = cc

module _ (collected : ℕ → Bool) (w v : World) (t : Notes) (c h n : ℕ) (snap : Snapshot)
    (handles : (w.index_at h).handle ≡ h) (unregistered : t.registry.history w.next_index ≡ none)
    (has : newest (history_of t.registry h) ≡ some snap)
    (old : snap.seq_no ≤ℤ (w.index_at h).seq_no)
    (noted : Noted (lookup (v.index_at n).name (t.last_seen c)) h) where
  not_next : h ≢ w.next_index
  not_next e = no_snapshot (
      sym
        (ap (λ i. newest (history_of t.registry i)) e ∙ ap (λ l. newest (snapshots l)) unregistered)
      ∙ has)

  Origin-current :
      Origin w v h n
      → current (carried_registry collected v t c (some h) n) n ≡ current t.registry h
  unfolding carried_registry
  Origin-current (itself same at) =
      ap₂ current
        (from_last_self collected v (inherit_before v t.registry (some h) n) n
            (lookup (v.index_at n).name (t.last_seen c)) (subst (Noted _) (sym at) noted)
          ∙ ap (λ r. inherit_tombstones t.registry (v.index_at h) (v.index_at r)) at
          ∙ inherit_tombstones_self t.registry (v.index_at h))
        at
  Origin-current (copy at k others) =
      let from = v.index_at h in
      let to = v.index_at n in
      let ne : h ≢ n = λ e. not_next (e ∙ at) in
      let from_handle = (others h ne).1 ∙ handles in
      let inherited =
        inherit_tombstones-copy t.registry from to (λ e. ne (sym from_handle ∙ e ∙ k.handle))
          ((others h ne).0 ∙ sym k.uuid) in
      ap (λ r. current (inherit_from_last collected v r n (lookup to.name (t.last_seen c))) n)
        inherited
      ∙ ap (λ r. current r n)
          (from_last-copy collected v t.registry h n (lookup to.name (t.last_seen c)) noted)
      ∙ ap (current (inherit_locked t.registry from to)) (sym k.handle)
      ∙ inherit_locked-current t.registry from to snap
          (ap t.registry.history (k.handle ∙ at) ∙ unregistered)
          (ap (λ i. newest (history_of t.registry i)) from_handle ∙ has)
          (subst (λ s. snap.seq_no ≤ℤ s) (sym k.seq_no) old)
      ∙ ap (current t.registry) from_handle

-- `docWritable` on a name whose index has tombstones returns an index, copied or not, with the same
-- current tombstones, documents and sequence number. Handles stand for themselves, no id is stored
-- twice, the next handle is not registered, the newest snapshot is not newer than the index, and the
-- cluster has noted no other index under the name.
pub doc_writable-current :
    (collected : ℕ → Bool) (o : Opener) (w v : World) (t u : Notes) (c h n : ℕ) (name : String)
    (snap : Snapshot)
    → lookup name (w.cluster_at c).indices ≡ some h
    → Distinct (w.index_at h).docs
    → (w.index_at h).handle ≡ h
    → t.registry.history w.next_index ≡ none
    → newest (history_of t.registry h) ≡ some snap
    → snap.seq_no ≤ℤ (w.index_at h).seq_no
    → Noted (lookup (v.index_at n).name (t.last_seen c)) h
    → doc_writable collected o w t c name ≡ (v, u, ok n)
    → (current u.registry n ≡ current t.registry h)
      × ((id : String) → lookup id (v.index_at n).docs ≡ lookup id (w.index_at h).docs)
      × ((v.index_at n).seq_no ≡ (w.index_at h).seq_no)
unfolding doc_writable
doc_writable-current collected o w v t u c h n name snap e d handles unregistered has old noted
      done =
    let (made, carried) =
      carry-done collected t u c n (lookup name (w.cluster_at c).indices) v (writable o w c name)
        done in
    let (docs, seq_no) = writable-docs o w v c name h n e d made in
    let origin = subst (FromIndex w h) made (writable-FromIndex o w c name h e d) in
    (
      ap (λ r. current r n) (carried ∙ ap (λ b. carried_registry collected v t c b n) e)
          ∙ Origin-current collected w v t c h n snap handles unregistered has old noted origin,
      docs,
      seq_no,
    )
