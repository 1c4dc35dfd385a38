-- ===== src/Tombstone/View.antt =====
-- What a request sees of the tombstones, and that a commit keeps it (tombstones.go).
use osmem.Prelude.{
  String, true, not, ◌&&◌, Option, none, some, ◌≡◌, refl, if◌then◌else◌, eqb, eqb_iff, arith,
}
use osmem.Prelude.Int.{ℤ, ◌≤ℤ◌, sub_clamped-mono}
use osmem.Prelude.Dict.{◌==◌, string_keys, keep, lookup-insert, lookup-remove, member-without}
use osmem.Index.{Index}
use osmem.Tombstone.{Tombstone, Registry, expired}
use osmem.Tombstone.Tx.{DocTx, raw_tombstone, add_tombstone, clear_tombstone, unless_expired}

-- A request sees the tombstone that it has just added, and all others as before.
pub raw_tombstone-add :
    (reg : Registry) (tx : DocTx) (ix jx : Index) (id j : String) (t : Tombstone)
    → raw_tombstone reg (add_tombstone tx ix id t) jx j
      ≡ (if eqb ix.handle jx.handle && id == j then some t else raw_tombstone reg tx jx j)
unfolding raw_tombstone add_tombstone
raw_tombstone-add reg tx ix jx id j t = ground (
  arith,
  eqb_iff ix.handle jx.handle,
  lookup-insert id j t (tx.pending ix.handle),
  member-without id j (tx.removed ix.handle),
)

-- A request no longer sees the tombstone of an id that it has indexed, and sees all others.
pub raw_tombstone-clear :
    (reg : Registry) (tx : DocTx) (ix jx : Index) (id j : String)
    → raw_tombstone reg (clear_tombstone tx ix id) jx j
      ≡ (if eqb ix.handle jx.handle && id == j then none else raw_tombstone reg tx jx j)
unfolding raw_tombstone clear_tombstone
raw_tombstone-clear reg tx ix jx id j =
    ground (arith, eqb_iff ix.handle jx.handle, lookup-remove id j (tx.pending ix.handle))

pub expired_mono :
    (now later gc : ℤ) (t : Tombstone)
    → now ≤ℤ later
    → expired now gc t ≡ true
    → expired later gc t ≡ true
unfolding expired
expired_mono now later gc t h e = ground (arith, sub_clamped-mono now later t.at h)

-- What has expired may be dropped.
pub unless_expired-keep :
    (now later gc : ℤ) (o : Option Tombstone)
    → now ≤ℤ later
    → unless_expired later gc (keep (λ t. not (expired now gc t)) o) ≡ unless_expired later gc o
unless_expired-keep now later gc none h = refl
unless_expired-keep now later gc (some t) h = ground (arith, expired_mono now later gc t h)
