-- ===== src/Tombstone/Publish.antt =====
-- A commit publishes what the request saw (tombstones.go, `commit`).
use osmem.Prelude.{
  ℕ, String, true, false, not, ◌&&◌, Option, none, some, List, [], ◌∷◌, ◌≡◌, refl, ◌∙◌, ap,
  if◌then◌else◌, eqb_iff, arith, inl, inr, Bool-cases, Option-cases,
}
use osmem.Prelude.Int.{ℤ, ◌≤ℤ◌}
use osmem.Prelude.Dict.{
  string_keys, lookup, remove_all, member, lookup-insert, lookup-retain, lookup-insert_all,
  lookup-remove_all, member-without,
}
use osmem.Index.{Index}
use osmem.Tombstone.{
  Tombstone, Tombstones, Snapshot, Registry, expired, current, items_of, snapshots, mutable,
}
use osmem.Tombstone.Tx.{
  DocTx, raw_tombstone, add_tombstone, commit_one, hits, nothing_pending, commit_in_place,
  commit_copy, newest_in_place, set_newest, swept, live_items, merged, unless_expired, or_current,
}
use osmem.Tombstone.View.{unless_expired-keep}
use text.Mathlib.TextEquality.{eq_iff}

hits-false :
    (ids : List String) (cur : Tombstones) (id : String)
    → hits ids cur ≡ false
    → member id ids ≡ true
    → lookup id cur ≡ none
unfolding hits member
hits-false [] cur id h m = cc
hits-false (i ∷ ids) cur id h m = ground (arith, eq_iff i id, hits-false ids cur id)

-- What the request sees, over the map that it found.
abbrev seen : Tombstones → List String → Tombstones → String → Option Tombstone
seen pending removed cur id =
    if member id removed then none else or_current (lookup id pending) (lookup id cur)

merged-seen :
    (pending : Tombstones) (removed : List String) (cur : Tombstones) (id : String)
    → (member id removed ≡ true → lookup id pending ≡ none)
    → lookup id (merged pending removed cur) ≡ seen pending removed cur id
merged-seen pending removed cur id apart =
    ground (
      arith,
      lookup-insert_all pending id (remove_all removed cur),
      lookup-remove_all removed id cur,
    )

swept-seen :
    (now later gc : ℤ) (prune_at : ℕ) (m : Tombstones) (id : String)
    → now ≤ℤ later
    → unless_expired later gc (lookup id (swept now gc prune_at m))
      ≡ unless_expired later gc (lookup id m)
unfolding swept
swept-seen now later gc prune_at m id h = ground (
  arith,
  unless_expired-keep now later gc (lookup id m) h,
  lookup-retain (λ t. not (expired now gc t)) id m,
)

-- Dropping the expired entries of the old map first makes no difference to what is seen.
copied-seen :
    (now later gc : ℤ) (pending : Tombstones) (removed : List String) (cur : Tombstones)
    (id : String)
    → now ≤ℤ later
    → (member id removed ≡ true → lookup id pending ≡ none)
    → unless_expired later gc (lookup id (merged pending removed (live_items now gc cur)))
      ≡ unless_expired later gc (seen pending removed cur id)
copied-seen now later gc pending removed cur id h apart = ground (
  arith,
  merged-seen pending removed (live_items now gc cur) id apart,
  unless_expired-keep now later gc (lookup id cur) h,
  lookup-retain (λ t. not (expired now gc t)) id cur,
)

items_of-set_newest :
    (reg : Registry) (l : List Snapshot) (s : Snapshot)
    → items_of reg (set_newest l s) ≡ reg.items_at s.items
items_of-set_newest reg [] s = refl
items_of-set_newest reg (old ∷ older) s = refl

commit_in_place-current :
    (reg : Registry) (tx : DocTx) (ix : Index) (snap : Snapshot)
    → current (commit_in_place reg tx ix snap) ix.handle
      ≡ swept tx.now ix.gc_deletes snap.prune_at
          (merged (tx.pending ix.handle) (tx.removed ix.handle) (reg.items_at snap.items))
unfolding commit_in_place
commit_in_place-current reg tx ix snap =
    let h = snapshots (reg.history ix.handle) in
    ground (
      arith,
      items_of-set_newest (commit_in_place reg tx ix snap) h
          (newest_in_place tx ix snap (reg.items_at snap.items)),
      eqb_iff ix.handle ix.handle,
      eqb_iff snap.items snap.items,
    )

commit_copy-current :
    (reg : Registry) (tx : DocTx) (ix : Index)
    → current (commit_copy reg tx ix) ix.handle
      ≡ merged
          (tx.pending ix.handle)
          (tx.removed ix.handle)
          (live_items tx.now ix.gc_deletes (current reg ix.handle))
unfolding commit_copy
commit_copy-current reg tx ix =
    ground (arith, eqb_iff ix.handle ix.handle, eqb_iff reg.next_items reg.next_items)

mutable-newest :
    (reg : Registry) (h : List Snapshot) (copies : ℕ) (snap : Snapshot)
    → mutable h copies ≡ some snap
    → items_of reg h ≡ reg.items_at snap.items
unfolding mutable
mutable-newest reg [] copies snap e = cc
mutable-newest reg (s ∷ older) copies snap e = ground arith

-- No id is both added and removed by one request.
abbrev pub IsApart : DocTx → Type 0
IsApart tx =
    (h : ℕ) (id : String) → member id (tx.removed h) ≡ true → lookup id (tx.pending h) ≡ none

pub add_tombstone-IsApart :
    (tx : DocTx) (ix : Index) (id : String) (t : Tombstone)
    → IsApart tx
    → IsApart (add_tombstone tx ix id t)
unfolding add_tombstone
add_tombstone-IsApart tx ix id t a h j m = ground (
  arith,
  a h j,
  eqb_iff ix.handle h,
  lookup-insert id j t (tx.pending ix.handle),
  member-without id j (tx.removed ix.handle),
)

untouched-seen :
    (pending : Tombstones) (removed : List String) (cur : Tombstones) (id : String)
    → nothing_pending pending && not (hits removed cur) ≡ true
    → lookup id cur ≡ seen pending removed cur id
unfolding lookup
untouched-seen [] removed cur id h = ground (arith, hits-false removed cur id)
untouched-seen (t ∷ ts) removed cur id h = cc

-- After the commit of one index, a later request sees of that index exactly what this one saw.
pub commit_one-seen :
    (reg : Registry) (tx : DocTx) (ix : Index) (id : String) (later : ℤ)
    → IsApart tx
    → tx.now ≤ℤ later
    → unless_expired later ix.gc_deletes (lookup id (current (commit_one reg tx ix) ix.handle))
      ≡ unless_expired later ix.gc_deletes (raw_tombstone reg tx ix id)
unfolding commit_one raw_tombstone
commit_one-seen reg tx ix id later apart h =
    let pending = tx.pending ix.handle in
    let removed = tx.removed ix.handle in
    let cur = current reg ix.handle in
    elim (Bool-cases (nothing_pending pending && not (hits removed cur))) [
      | inl b ↦
          rw b (ap (unless_expired later ix.gc_deletes) (untouched-seen pending removed cur id b))
      | inr b ↦ elim (Option-cases (mutable (snapshots (reg.history ix.handle)) ix.copies)) [
        | inl m ↦
            rw (b, m, commit_copy-current reg tx ix)
              (copied-seen tx.now later ix.gc_deletes pending removed cur id h (apart ix.handle id))
        | inr (snap, m) ↦
            rw
              (
                b,
                m,
                commit_in_place-current reg tx ix snap,
                ← mutable-newest reg (snapshots (reg.history ix.handle)) ix.copies snap m,
              )
              (swept-seen tx.now later ix.gc_deletes snap.prune_at (merged pending removed cur) id h
                ∙ ap (unless_expired later ix.gc_deletes)
                    (merged-seen pending removed cur id (apart ix.handle id)))
      ]
    ]
