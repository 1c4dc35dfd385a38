-- ===== src/Cluster/CopyWay.antt =====
-- The ways that `copyIndex` (index.go) and `writable` (cluster.go) may go, and the counts of a new index.
use osmem.Prelude.{
  ℕ, zero, suc, ◌+◌, ◌≤◌, String, Option, none, some, ◌≡◌, refl, ◌∙◌, inl, inr, Bool-cases,
  Option-cases, arith, if◌then◌else◌, eqb, eqb_iff, ltb,
}
use osmem.Prelude.Dict.{string_keys, lookup}
use osmem.Error.{Error, index_not_found, ok, err}
use osmem.Index.{Index}
use osmem.Cluster.{Cluster, World, put_at, release}
use osmem.Cluster.Copy.{
  Opener, count_copy, allocate, copied, rebuild, after_rebuild, copy_index, replace_index, writable,
}
use osmem.Cluster.Sums.{held, total}
use osmem.Cluster.Opened.{IsOpen, release-IsOpen}
use osmem.Cluster.Counted.{IsCounted, release-one}

-- The ways of `copyIndex`.
pub data CopyWay (o : Opener) (w : World) (h : ℕ) : Type 0 where
  unopened : (x : Error) → copy_index o w h ≡ (count_copy w h, err x) → CopyWay o w h
  unbuilt :
      (ix : Index) (x : Error)
      → copy_index o w h ≡ (
        record (allocate (count_copy w h) ix) {
          counts = release (allocate (count_copy w h) ix).counts w.next_index;
        },
        err x,
      )
      → CopyWay o w h
  copied_to :
      (ix : Index)
      → ix ≡ (rebuild o.engine (copied (w.index_at h) w.next_index)).0
      → copy_index o w h ≡ (allocate (count_copy w h) ix, ok w.next_index)
      → CopyWay o w h

copy_index-opened :
    (o : Opener) (w : World) (h : ℕ)
    → o.new_index (w.index_at h) ≡ none
    → copy_index o w h
      ≡ after_rebuild (count_copy w h) (rebuild o.engine (copied (w.index_at h) w.next_index))
unfolding copy_index
copy_index-opened o w h e = rw (e, copy_index) refl

copy_index-unopened :
    (o : Opener) (w : World) (h : ℕ) (x : Error)
    → o.new_index (w.index_at h) ≡ some x
    → copy_index o w h ≡ (count_copy w h, err x)
unfolding copy_index
copy_index-unopened o w h x e = rw (e, copy_index) refl

way_of :
    (o : Opener) (w : World) (h : ℕ) (r : Index × Option Error)
    → copy_index o w h ≡ after_rebuild (count_copy w h) r
    → r.0 ≡ (rebuild o.engine (copied (w.index_at h) w.next_index)).0
    → CopyWay o w h
unfolding count_copy
way_of o w h (ix, none) e q = copied_to ix q e
way_of o w h (ix, some x) e q = unbuilt ix x e

pub copy_way : (o : Opener) (w : World) (h : ℕ) → CopyWay o w h
copy_way o w h = elim (Option-cases (o.new_index (w.index_at h))) [
  | inr (x, e) ↦ unopened x (copy_index-unopened o w h x e)
  | inl e ↦
      way_of o w h (rebuild o.engine (copied (w.index_at h) w.next_index))
        (copy_index-opened o w h e) refl
]

total-none : (h : ℕ) (cl : ℕ → Cluster) (n : ℕ) → ((c : ℕ) → held h (cl c) ≡ 0) → total h cl n ≡ 0
unfolding total
total-none h cl zero z = refl
total-none h cl (suc n) z = omega (arith, z n, total-none h cl n z)

pub unused : (w : World) → IsCounted w → w.counts.refs w.next_index ≡ 0
unused w i =
    i.counted w.next_index
    ∙ total-none w.next_index w.cluster_at w.next_cluster
        (λ c. i.fresh w.next_index c (omega arith))

pub count_copy-IsCounted : (w : World) (h : ℕ) → IsCounted w → IsCounted (count_copy w h)
unfolding count_copy
count_copy-IsCounted w h i = record {
  counted = i.counted;
  fresh = i.fresh;
  is_open = i.is_open;
  names = i.names;
  pit_ids = i.pit_ids;
}

pub allocate-refs :
    (w : World) (ix : Index) (h : ℕ)
    → IsCounted w
    → (allocate w ix).counts.refs h ≡ w.counts.refs h + (if eqb w.next_index h then 1 else 0)
unfolding allocate put_at
allocate-refs w ix h i = ground (arith, unused w i, eqb_iff w.next_index h)

pub allocate-IsOpen : (w : World) (ix : Index) → IsOpen w.counts → IsOpen (allocate w ix).counts
unfolding allocate put_at
allocate-IsOpen w ix o h p = ground (arith, o h, eqb_iff w.next_index h)

-- The new index without its count.
pub uncounted-IsCounted :
    (w : World) (ix : Index)
    → IsCounted w
    → IsCounted (record (allocate w ix) { counts = w.counts })
unfolding allocate
uncounted-IsCounted w ix i = record {
  counted = i.counted;
  fresh = λ h c le. i.fresh h c (omega arith);
  is_open = i.is_open;
  names = i.names;
  pit_ids = i.pit_ids;
}

pub abandoned-IsCounted :
    (w : World) (ix : Index)
    → IsCounted w
    → IsCounted (record (allocate w ix) { counts = release (allocate w ix).counts w.next_index })
unfolding allocate
abandoned-IsCounted w ix i = record {
  counted = λ h. omega (
    arith,
    i.counted h,
    release-one (allocate w ix).counts w.next_index h,
    allocate-refs w ix h i,
  );
  fresh = λ h c le. i.fresh h c (omega arith);
  is_open = release-IsOpen (allocate w ix).counts w.next_index (allocate-IsOpen w ix i.is_open);
  names = i.names;
  pit_ids = i.pit_ids;
}

-- The ways of `writable`.
pub data WritableWay (o : Opener) (w : World) (c : ℕ) (name : String) : Type 0 where
  missing : (x : Error) → writable o w c name ≡ (w, err x) → WritableWay o w c name
  own :
      (h : ℕ)
      → lookup name (w.cluster_at c).indices ≡ some h
      → w.counts.refs h ≤ 1
      → writable o w c name ≡ (w, ok h)
      → WritableWay o w c name
  shared :
      (h : ℕ)
      → lookup name (w.cluster_at c).indices ≡ some h
      → writable o w c name ≡ replace_index c name h (copy_index o w h)
      → WritableWay o w c name

pub writable_way : (o : Opener) (w : World) (c : ℕ) (name : String) → WritableWay o w c name
unfolding writable
writable_way o w c name = elim (Option-cases (lookup name (w.cluster_at c).indices)) [
  | inl e ↦ missing (index_not_found name) (rw (e, writable) refl)
  | inr (h, e) ↦ elim (Bool-cases (ltb 1 (w.counts.refs h))) [
    | inl b ↦ shared h e (rw (e, writable) (rw b refl))
    | inr b ↦ own h e (ground arith) (rw (e, writable) (rw b refl))
  ]
]
