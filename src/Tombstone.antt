-- ===== src/Tombstone.antt =====
-- internal/engine/tombstones.go: the versions of deleted documents. Every Go map of tombstones that a
-- snapshot holds is a shared object, so the maps live on a heap under addresses; `weak` pointers to
-- indices are their handles.
pub mod Tx
pub mod View
pub mod Publish
pub mod Sharing
pub mod Isolation
pub mod Commit
pub mod Inherit
use osmem.Prelude.{
  ℕ, zero, suc, ◌+◌, ◌-◌, ◌*◌, String, Bool, true, false, not, ◌&&◌, ◌||◌, Option, none, some, List,
  [], ◌∷◌, ◌++◌, if◌then◌else◌, eqb, ltb, length,
}
use osmem.Prelude.Int.{ℤ, leb_ℤ, ltb_ℤ, sub_clamped}
use osmem.Prelude.Dict.{
  Dict, ◌==◌, string_keys, lookup, insert, remove, retain, insert_all, remove_all, member,
}
use osmem.Index.{Index}

pub record Tombstone : Type 0 where
  pub version : ℤ
  pub seq_no : ℤ
  pub at : ℤ

abbrev pub Tombstones : Type 0
Tombstones = Dict String Tombstone

-- `items` is the address of the snapshot's map.
pub record Snapshot : Type 0 where
  pub seq_no : ℤ
  pub items : ℕ
  pub copies : ℕ
  pub shared : Bool
  pub prune_at : ℕ

-- The registry: the history of each index, its newest snapshot first (the source appends), where
-- `none` is an index that is not registered, and the heap of maps.
pub record Registry : Type 0 where
  pub history : ℕ → Option (List Snapshot)
  pub items_at : ℕ → Tombstones
  pub next_items : ℕ

abbrev pub tombstone_history : ℕ
tombstone_history = 8

abbrev pub snapshots : Option (List Snapshot) → List Snapshot
snapshots none = []
snapshots (some h) = h

abbrev pub newest : List Snapshot → Option Snapshot
newest [] = none
newest (s ∷ older) = some s

abbrev pub items_of : Registry → List Snapshot → Tombstones
items_of reg [] = []
items_of reg (s ∷ older) = reg.items_at s.items

-- `current`, of the index with this handle.
abbrev pub current : Registry → ℕ → Tombstones
current reg ix = items_of reg (snapshots (reg.history ix))

-- The newest snapshot not newer than a sequence number.
unfoldable pub snapshot_at : List Snapshot → ℤ → Option Snapshot
snapshot_at [] n = none
snapshot_at (s ∷ older) n = if leb_ℤ s.seq_no n then some s else snapshot_at older n

-- Marking what `snapshotAt` points to as shared.
unfoldable pub mark_shared : List Snapshot → ℤ → List Snapshot
mark_shared [] n = []
mark_shared (s ∷ older) n =
    if leb_ℤ s.seq_no n then record s { shared = true } ∷ older else s ∷ mark_shared older n

unfoldable pub mutable : List Snapshot → ℕ → Option Snapshot
mutable [] copies = none
mutable (s ∷ older) copies = if s.shared || not (eqb s.copies copies) then none else some s

unfoldable pub set_history :
    (ℕ → Option (List Snapshot)) → ℕ → List Snapshot → ℕ → Option (List Snapshot)
set_history h ix l jx = if eqb ix jx then some l else h jx

unfoldable pub set_items : (ℕ → Tombstones) → ℕ → Tombstones → ℕ → Tombstones
set_items h a m b = if eqb a b then m else h b

abbrev pub is_nonempty : Tombstones → Bool
is_nonempty [] = false
is_nonempty (t ∷ ts) = true

abbrev pub is_registered : Option (List Snapshot) → Bool
is_registered none = false
is_registered (some h) = true

-- The snapshot that the copy gets: the same map, marked as shared.
abbrev pub inherited : Index → Snapshot → Snapshot
inherited to snap = record {
  seq_no = to.seq_no;
  items = snap.items;
  copies = to.copies;
  shared = true;
  prune_at = 0;
}

unfoldable pub share_with : Registry → Index → Index → Snapshot → Registry
unfolding set_history
share_with reg from to snap = record reg {
  history =
      set_history
        (set_history reg.history from.handle
          (mark_shared (snapshots (reg.history from.handle)) to.seq_no))
        to.handle (inherited to snap ∷ []);
}

unfoldable pub inherit_locked : Registry → Index → Index → Registry
unfolding share_with mark_shared snapshot_at
inherit_locked reg from to =
    if is_registered (reg.history to.handle)
    then reg
    else elim (snapshot_at (snapshots (reg.history from.handle)) to.seq_no) [
      | none ↦ reg
      | some snap ↦
          if is_nonempty (reg.items_at snap.items) then share_with reg from to snap else reg
    ]

-- `inheritTombstones` on indices that are not nil.
unfoldable pub inherit_tombstones : Registry → Index → Index → Registry
unfolding inherit_locked
inherit_tombstones reg from to =
    if eqb from.handle to.handle || not (from.uuid == to.uuid)
    then reg
    else inherit_locked reg from to

-- now.Sub(t.at) > gcDeletes(ix)
unfoldable pub expired : ℤ → ℤ → Tombstone → Bool
expired now gc t = ltb_ℤ gc (sub_clamped now t.at)
