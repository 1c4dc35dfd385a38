-- ===== src/Tombstone/Tx.antt =====
-- tombstones.go, `docTx`: the tombstones that one request writes, and their publication.
use osmem.Prelude.{
  ℕ, ◌+◌, ◌*◌, suc, String, Bool, true, false, not, ◌&&◌, Option, none, some, List, [], ◌∷◌,
  if◌then◌else◌, ltb, eqb, length, take,
}
use osmem.Prelude.Int.{ℤ}
use osmem.Prelude.Dict.{
  string_keys, lookup, insert, remove, retain, insert_all, remove_all, member, without,
}
use osmem.Index.{Index}
use osmem.Tombstone.{
  Tombstone, Tombstones, Snapshot, Registry, tombstone_history, snapshots, current, mutable,
  set_history, set_items, expired,
}

-- `removed` holds, for each index, the ids that the request has indexed again.
pub record DocTx : Type 0 where
  pub now : ℤ
  pub pending : ℕ → Tombstones
  pub removed : ℕ → List String

abbrev pub new_doc_tx : ℤ → DocTx
new_doc_tx now = record { now = now; pending = λ ix. []; removed = λ ix. [] }

abbrev pub or_current : Option Tombstone → Option Tombstone → Option Tombstone
or_current (some t) c = some t
or_current none c = c

-- The tombstone that the request would see if none expired.
unfoldable pub raw_tombstone : Registry → DocTx → Index → String → Option Tombstone
unfolding member
raw_tombstone reg tx ix id =
    if member id (tx.removed ix.handle)
    then none
    else or_current (lookup id (tx.pending ix.handle)) (lookup id (current reg ix.handle))

abbrev pub unless_expired : ℤ → ℤ → Option Tombstone → Option Tombstone
unless_expired now gc none = none
unless_expired now gc (some t) = if expired now gc t then none else some t

-- `docTx.tombstone`
unfoldable pub tombstone : Registry → DocTx → Index → String → Option Tombstone
tombstone reg tx ix id = unless_expired tx.now ix.gc_deletes (raw_tombstone reg tx ix id)

unfoldable pub set_at {ℓ} : {A : Type ℓ} → (ℕ → A) → ℕ → A → ℕ → A
set_at f i a j = if eqb i j then a else f j

unfoldable pub add_tombstone : DocTx → Index → String → Tombstone → DocTx
unfolding set_at
add_tombstone tx ix id t = record tx {
  pending = set_at tx.pending ix.handle (insert id t (tx.pending ix.handle));
  removed = set_at tx.removed ix.handle (without id (tx.removed ix.handle));
}

unfoldable pub clear_tombstone : DocTx → Index → String → DocTx
unfolding set_at
clear_tombstone tx ix id = record tx {
  pending = set_at tx.pending ix.handle (remove id (tx.pending ix.handle));
  removed = set_at tx.removed ix.handle (id ∷ tx.removed ix.handle);
}

-- Some removed id has a tombstone.
unfoldable pub hits : List String → Tombstones → Bool
unfolding lookup
hits [] cur = false
hits (id ∷ ids) cur = elim (lookup id cur) [ some t ↦ true | none ↦ hits ids cur ]

abbrev pub nothing_pending : Tombstones → Bool
nothing_pending [] = true
nothing_pending (t ∷ ts) = false

-- The map after the removals and the additions of the request.
abbrev pub merged : Tombstones → List String → Tombstones → Tombstones
merged pending removed cur = insert_all pending (remove_all removed cur)

abbrev pub live_items : ℤ → ℤ → Tombstones → Tombstones
live_items now gc m = retain (λ t. not (expired now gc t)) m

-- Expired entries are swept once the map has grown past `prune_at`.
unfoldable pub swept : ℤ → ℤ → ℕ → Tombstones → Tombstones
swept now gc prune_at m = if ltb prune_at (length m) then live_items now gc m else m

unfoldable pub next_prune : ℤ → ℤ → ℕ → Tombstones → ℕ
next_prune now gc prune_at m =
    if ltb prune_at (length m) then 2 * length (live_items now gc m) + 64 else prune_at

abbrev pub set_newest : List Snapshot → Snapshot → List Snapshot
set_newest [] s = s ∷ []
set_newest (old ∷ older) s = s ∷ older

-- snap.seqNo and snap.pruneAt after the update.
abbrev pub newest_in_place : DocTx → Index → Snapshot → Tombstones → Snapshot
newest_in_place tx ix snap items = record snap {
  seq_no = ix.seq_no;
  prune_at =
      next_prune tx.now ix.gc_deletes snap.prune_at
        (merged (tx.pending ix.handle) (tx.removed ix.handle) items);
}

-- The newest snapshot is the index's own: its map is updated in place.
unfoldable pub commit_in_place : Registry → DocTx → Index → Snapshot → Registry
unfolding swept next_prune set_history set_items
commit_in_place reg tx ix snap =
    let all = merged (tx.pending ix.handle) (tx.removed ix.handle) (reg.items_at snap.items) in
    record reg {
      history = set_history reg.history ix.handle (
          set_newest (snapshots (reg.history ix.handle))
            (newest_in_place tx ix snap (reg.items_at snap.items)));
      items_at = set_items reg.items_at snap.items (swept tx.now ix.gc_deletes snap.prune_at all);
    }

-- The new map, without the expired and the removed entries of the old one.
abbrev pub copied_items : Registry → DocTx → Index → Tombstones
copied_items reg tx ix =
    merged (tx.pending ix.handle) (tx.removed ix.handle)
      (live_items tx.now ix.gc_deletes (current reg ix.handle))

abbrev pub newest_copy : Registry → DocTx → Index → Snapshot
newest_copy reg tx ix = record {
  seq_no = ix.seq_no;
  items = reg.next_items;
  copies = ix.copies;
  shared = false;
  prune_at = 2 * length (copied_items reg tx ix) + 64;
}

-- A new map on a new snapshot; the history keeps the newest eight.
unfoldable pub commit_copy : Registry → DocTx → Index → Registry
unfolding set_history set_items
commit_copy reg tx ix = record {
  history =
      set_history reg.history ix.handle
        (take tombstone_history (newest_copy reg tx ix ∷ snapshots (reg.history ix.handle)));
  items_at = set_items reg.items_at reg.next_items (copied_items reg tx ix);
  next_items = suc reg.next_items;
}

-- No tombstone is added, and no removed id has one.
abbrev pub nothing_to_do : Registry → DocTx → Index → Bool
nothing_to_do reg tx ix =
    nothing_pending (tx.pending ix.handle)
    && not (hits (tx.removed ix.handle) (current reg ix.handle))

-- One index of the loop of `commit`.
unfoldable pub commit_one : Registry → DocTx → Index → Registry
unfolding commit_in_place commit_copy mutable hits
commit_one reg tx ix =
    if nothing_to_do reg tx ix
    then reg
    else elim (mutable (snapshots (reg.history ix.handle)) ix.copies) [
      | some snap ↦ commit_in_place reg tx ix snap
      | none ↦ commit_copy reg tx ix
    ]

-- `touched` are the indices that the request has written to, as they are when it ends, in the order
-- in which Go's loop happens to take them.
unfoldable pub commit : Registry → DocTx → List Index → Registry
unfolding commit_one
commit reg tx [] = reg
commit reg tx (ix ∷ touched) = commit (commit_one reg tx ix) tx touched
