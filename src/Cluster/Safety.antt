-- ===== src/Cluster/Safety.antt =====
-- `writable` keeps the reference counts right, and so does every run of operations (cluster.go).
use osmem.Prelude.{ℕ, ◌<◌, String, none, some, List, ◌≡◌, sym, subst, ap, arith}
use osmem.Prelude.Dict.{string_keys, lookup, insert}
use osmem.Prelude.Distinct.{Distinct-insert, holders-replace}
use osmem.Error.{ok}
use osmem.Index.{Index}
use osmem.Cluster.{World, put_at, release, clone, close, create_pit, delete_pit, delete_index}
use osmem.Cluster.Copy.{Opener, count_copy, allocate, copy_index, replace_index, writable}
use osmem.Cluster.Opened.{release-IsOpen}
use osmem.Cluster.Counted.{
  IsCounted, set_cluster-IsCounted, release-one, held-le-refs, AllHeld, clone-IsCounted,
  close-IsCounted, create_pit-IsCounted, delete_pit-IsCounted, delete_index-IsCounted,
}
use osmem.Cluster.CopyWay.{
  unopened, unbuilt, copied_to, copy_way, missing, own, shared, writable_way, count_copy-IsCounted,
  allocate-refs, allocate-IsOpen, uncounted-IsCounted, abandoned-IsCounted,
}

-- The world of a successful copy, with the old index released.
abbrev pub replaced : World → ℕ → String → ℕ → Index → World
replaced w c name h ix =
    let v = allocate (count_copy w h) ix in
    let k = w.cluster_at c in
    record v {
      cluster_at =
          put_at w.cluster_at c (record k { indices = insert name w.next_index k.indices });
      counts = release v.counts h;
    }

pub replaced-IsCounted :
    (w : World) (c : ℕ) (name : String) (h : ℕ) (ix : Index)
    → IsCounted w
    → c < w.next_cluster
    → lookup name (w.cluster_at c).indices ≡ some h
    → IsCounted (replaced w c name h ix)
unfolding allocate count_copy
replaced-IsCounted w c name h ix i lt e =
    let k = w.cluster_at c in
    let v = count_copy w h in
    let iv = count_copy-IsCounted w h i in
    set_cluster-IsCounted (record (allocate v ix) { counts = w.counts }) c
      (record k { indices = insert name w.next_index k.indices }) (release (allocate v ix).counts h)
      (uncounted-IsCounted v ix iv) lt
      (λ r. ground (
        arith,
        release-one (allocate v ix).counts h r,
        allocate-refs v ix r iv,
        holders-replace r name w.next_index h k.indices e,
        held-le-refs w c r i lt,
      ))
      (λ r le.
        ground
          (arith, i.fresh r c (omega arith), holders-replace r name w.next_index h k.indices e))
      (release-IsOpen (allocate v ix).counts h (allocate-IsOpen v ix i.is_open))
      (Distinct-insert name w.next_index k.indices (i.names c)) (i.pit_ids c)

pub replace_index-found :
    (o : Opener) (w : World) (c : ℕ) (name : String) (h : ℕ) (ix : Index)
    → copy_index o w h ≡ (allocate (count_copy w h) ix, ok w.next_index)
    → replace_index c name h (copy_index o w h) ≡ (replaced w c name h ix, ok w.next_index)
unfolding allocate count_copy
replace_index-found o w c name h ix e = ap (replace_index c name h) e

pub copied-IsCounted :
    (o : Opener) (w : World) (c : ℕ) (name : String) (h : ℕ)
    → IsCounted w
    → c < w.next_cluster
    → lookup name (w.cluster_at c).indices ≡ some h
    → IsCounted (replace_index c name h (copy_index o w h)).0
unfolding count_copy
copied-IsCounted o w c name h i lt e = elim (copy_way o w h) [
  | unopened x q ↦
      subst (λ r. IsCounted (replace_index c name h r).0) (sym q) (count_copy-IsCounted w h i)
  | unbuilt ix x q ↦
      subst (λ r. IsCounted (replace_index c name h r).0) (sym q)
        (abandoned-IsCounted (count_copy w h) ix (count_copy-IsCounted w h i))
  | copied_to ix same q ↦
      subst (λ r. IsCounted r.0) (sym (replace_index-found o w c name h ix q))
        (replaced-IsCounted w c name h ix i lt e)
]

pub writable-IsCounted :
    (o : Opener) (w : World) (c : ℕ) (name : String)
    → IsCounted w
    → c < w.next_cluster
    → IsCounted (writable o w c name).0
writable-IsCounted o w c name i lt = elim (writable_way o w c name) [
  | missing x q ↦ subst (λ r. IsCounted r.0) (sym q) i
  | own h e one q ↦ subst (λ r. IsCounted r.0) (sym q) i
  | shared h e q ↦ subst (λ r. IsCounted r.0) (sym q) (copied-IsCounted o w c name h i lt e)
]

-- One operation on a cluster that exists.
pub data Step (o : Opener) : World → World → Type 0 where
  cloned : {w : World} (c : ℕ) → c < w.next_cluster → Step o w (clone w c)
  shut : {w : World} (c : ℕ) → c < w.next_cluster → Step o w (close w c)
  opened_pit :
      {w : World} (c : ℕ) (id : String) (targets : List ℕ)
      → c < w.next_cluster
      → lookup id (w.cluster_at c).pits ≡ none
      → AllHeld (w.cluster_at c) targets
      → Step o w (create_pit w c id targets)
  deleted_pit :
      {w : World} (c : ℕ) (id : String) → c < w.next_cluster → Step o w (delete_pit w c id)
  deleted_index :
      {w : World} (c : ℕ) (name : String) → c < w.next_cluster → Step o w (delete_index w c name)
  made_writable :
      {w : World} (c : ℕ) (name : String) → c < w.next_cluster → Step o w (writable o w c name).0

pub data Steps (o : Opener) : World → World → Type 0 where
  none_yet : {w : World} → Steps o w w
  then_step : {u v w : World} → Steps o u v → Step o v w → Steps o u w

Step-IsCounted : (o : Opener) (w v : World) → Step o w v → IsCounted w → IsCounted v
Step-IsCounted o w _ (cloned c lt) i = clone-IsCounted w c i lt
Step-IsCounted o w _ (shut c lt) i = close-IsCounted w c i lt
Step-IsCounted o w _ (opened_pit c id hs lt new all) i = create_pit-IsCounted w c id hs i lt new all
Step-IsCounted o w _ (deleted_pit c id lt) i = delete_pit-IsCounted w c id i lt
Step-IsCounted o w _ (deleted_index c name lt) i = delete_index-IsCounted w c name i lt
Step-IsCounted o w _ (made_writable c name lt) i = writable-IsCounted o w c name i lt

-- Whatever run of clones, closes, points in time, deletions of indices and writes the clusters go
-- through, every reference count is the number of references that the clusters and their points in
-- time hold, and no index with a reference is closed, if this holds at first.
pub Steps-IsCounted : (o : Opener) (w v : World) → Steps o w v → IsCounted w → IsCounted v
Steps-IsCounted o w _ none_yet i = i
Steps-IsCounted o w v (then_step {v = u} ss s) i =
    Step-IsCounted o u v s (Steps-IsCounted o w u ss i)
