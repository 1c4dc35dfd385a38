-- ===== src/Tombstone/Commit.antt =====
-- The commit of a whole request (tombstones.go, `commit`).
use osmem.Prelude.{
  ℕ, String, false, List, [], ◌∷◌, ◌≡◌, ◌≢◌, refl, subst, ◌∙◌, ap, eqb_iff, arith, ◌⊎◌, inl, inr,
}
use osmem.Prelude.Int.{ℤ, ◌≤ℤ◌}
use osmem.Prelude.Dict.{nat_keys, string_keys, member, lookup}
use osmem.Index.{Index}
use osmem.Tombstone.{Registry, current}
use osmem.Tombstone.Tx.{DocTx, commit, commit_one, raw_tombstone, unless_expired}
use osmem.Tombstone.Sharing.{AllNew, IsSeparated}
use osmem.Tombstone.Publish.{commit_one-seen, IsApart}
use osmem.Tombstone.Isolation.{commit_one-IsSeparated, commit_one-others}

-- The handles of the indices that a request has written to.
abbrev pub handles : List Index → List ℕ
handles [] = []
handles (ix ∷ touched) = ix.handle ∷ handles touched

abbrev pub Touches : Index → List Index → Type 0
Touches ix [] = ⊥
Touches ix (jx ∷ touched) = (jx ≡ ix) ⊎ Touches ix touched

-- A commit keeps the maps of tombstones apart: a map that the histories of two indices reach is
-- marked as shared in both, no history reaches a map twice, and none reaches an unallocated one.
pub commit-IsSeparated :
    (reg : Registry) (tx : DocTx) (touched : List Index)
    → IsSeparated reg
    → IsSeparated (commit reg tx touched)
unfolding commit
commit-IsSeparated reg tx [] sep = sep
commit-IsSeparated reg tx (ix ∷ touched) sep =
    commit-IsSeparated (commit_one reg tx ix) tx touched (commit_one-IsSeparated reg tx ix sep)

-- A commit changes the tombstones of no index that the request has not written to, if the maps of
-- the registry are apart.
pub commit-others :
    (reg : Registry) (tx : DocTx) (touched : List Index) (j : ℕ)
    → member j (handles touched) ≡ false
    → IsSeparated reg
    → current (commit reg tx touched) j ≡ current reg j
unfolding commit member
commit-others reg tx [] j m sep = refl
commit-others reg tx (ix ∷ touched) j m sep =
    commit-others (commit_one reg tx ix) tx touched j (ground (arith, eqb_iff ix.handle j))
      (commit_one-IsSeparated reg tx ix sep)
    ∙ commit_one-others reg tx ix sep j (ground (arith, eqb_iff ix.handle j))

Touches-ne :
    (ix jx : Index) (touched : List Index)
    → Touches ix touched
    → member jx.handle (handles touched) ≡ false
    → jx.handle ≢ ix.handle
unfolding member
Touches-ne ix jx [] t m = absurd t
Touches-ne ix jx (kx ∷ touched) (inl e) m =
    ground (arith, eqb_iff kx.handle jx.handle, ap (λ (x : Index). x.handle) e)
Touches-ne ix jx (kx ∷ touched) (inr t) m =
    Touches-ne ix jx touched t (ground (arith, eqb_iff kx.handle jx.handle))

raw_tombstone-others :
    (reg new : Registry) (tx : DocTx) (ix : Index) (id : String)
    → current new ix.handle ≡ current reg ix.handle
    → raw_tombstone new tx ix id ≡ raw_tombstone reg tx ix id
unfolding raw_tombstone
raw_tombstone-others reg new tx ix id e = rw e

-- Whatever order the indices come in, later requests see of each written index exactly the
-- tombstones that the request itself saw when it ended, those that expire in between left out. The
-- registry's maps are apart, the request holds no id both as removed and as pending, each index comes
-- once, and the later time is not before the request's.
pub commit-seen :
    (reg : Registry) (tx : DocTx) (touched : List Index) (ix : Index) (id : String) (later : ℤ)
    → IsSeparated reg
    → IsApart tx
    → AllNew (handles touched)
    → Touches ix touched
    → tx.now ≤ℤ later
    → unless_expired later ix.gc_deletes (lookup id (current (commit reg tx touched) ix.handle))
      ≡ unless_expired later ix.gc_deletes (raw_tombstone reg tx ix id)
unfolding commit
commit-seen reg tx [] ix id later sep apart once touches h = absurd touches
commit-seen reg tx (jx ∷ touched) ix id later sep apart once (inl e) h =
    subst
      (λ k.
        unless_expired later k.gc_deletes
          (lookup id (current (commit (commit_one reg tx jx) tx touched) k.handle))
        ≡ unless_expired later k.gc_deletes (raw_tombstone reg tx k id))
      e
      (ap (λ m. unless_expired later jx.gc_deletes (lookup id m))
          (commit-others (commit_one reg tx jx) tx touched jx.handle once.0
            (commit_one-IsSeparated reg tx jx sep))
        ∙ commit_one-seen reg tx jx id later apart h)
commit-seen reg tx (jx ∷ touched) ix id later sep apart once (inr t) h =
    commit-seen (commit_one reg tx jx) tx touched ix id later (commit_one-IsSeparated reg tx jx sep)
      apart once.1 t h
    ∙ ap (unless_expired later ix.gc_deletes) (
        raw_tombstone-others reg (commit_one reg tx jx) tx ix id
          (commit_one-others reg tx jx sep ix.handle (Touches-ne ix jx touched t once.0)))
