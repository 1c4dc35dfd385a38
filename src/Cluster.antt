-- ===== src/Cluster.antt =====
-- internal/engine/cluster.go and index.go: clusters share indices until one of them writes. Indices are
-- pointers in the source; here they live on a heap under handles, with their reference counts.
pub mod Copy
pub mod Sums
pub mod Opened
pub mod Counted
pub mod CopyWay
pub mod Safety
pub mod Isolation
pub mod Private
pub mod Documents
pub mod Notes
pub mod Carried
pub mod Inherited
use osmem.Prelude.{
  ℕ, suc, ◌-◌, String, Bool, true, false, ◌||◌, none, some, List, [], ◌∷◌, if◌then◌else◌, eqb,
}
use osmem.Prelude.Dict.{Dict, ◌==◌, string_keys, lookup, insert, remove}
use osmem.Error.{Error, index_not_found, Result, ok, err}
use osmem.Index.{Index}

-- A write to one place of the heap.
unfoldable pub put_at {ℓ} : {A : Type ℓ} → (ℕ → A) → ℕ → A → ℕ → A
put_at f i a j = if eqb i j then a else f j

-- `refs` of each index, a count here, and `closed`, which says that its bleve index was released.
pub record Counts : Type 0 where
  pub refs : ℕ → ℕ
  pub closed : ℕ → Bool

-- A point in time: its targets, and the names whose reader contexts were freed.
pub record Pit : Type 0 where
  pub targets : List ℕ
  pub lost : Dict String Bool

-- A cluster: its indices by name, and its points in time.
pub record Cluster : Type 0 where
  pub indices : Dict String ℕ
  pub pits : Dict String Pit
  pub closed : Bool

pub record World : Type 0 where
  pub cluster_at : ℕ → Cluster
  pub next_cluster : ℕ
  pub index_at : ℕ → Index
  pub counts : Counts
  pub next_index : ℕ

-- ix.refs.Add(1)
unfoldable pub retain : Counts → ℕ → Counts
unfolding put_at
retain s h = record s { refs = put_at s.refs h (suc (s.refs h)) }

-- `release`: the last reference closes the index.
unfoldable pub release : Counts → ℕ → Counts
unfolding put_at
release s h = record {
  refs = put_at s.refs h (s.refs h - 1);
  closed = if eqb (s.refs h) 1 then put_at s.closed h true else s.closed;
}

unfoldable pub retain_all : Counts → List ℕ → Counts
unfolding retain
retain_all s [] = s
retain_all s (h ∷ hs) = retain_all (retain s h) hs

unfoldable pub release_all : Counts → List ℕ → Counts
unfolding release
release_all s [] = s
release_all s (h ∷ hs) = release_all (release s h) hs

unfoldable pub handles : Dict String ℕ → List ℕ
handles [] = []
handles (entry ∷ indices) = entry.1 ∷ handles indices

-- The pits in the order of the loop of `Close`.
unfoldable pub release_pits : Counts → Dict String Pit → Counts
unfolding release_all
release_pits s [] = s
release_pits s (pit ∷ pits) = release_pits (release_all s pit.1.targets) pits

abbrev pub set_cluster : World → ℕ → Cluster → Counts → World
set_cluster w c k s = record w { cluster_at = put_at w.cluster_at c k; counts = s }

abbrev pub empty_cluster : Cluster
empty_cluster = record { indices = []; pits = []; closed = false }

-- `Clone`: the new cluster stands at `next_cluster`.
unfoldable pub clone : World → ℕ → World
unfolding retain_all handles put_at
clone w c = record w {
  cluster_at =
      put_at w.cluster_at w.next_cluster
        (record empty_cluster { indices = (w.cluster_at c).indices });
  next_cluster = suc w.next_cluster;
  counts = retain_all w.counts (handles (w.cluster_at c).indices);
}

-- `Close`
unfoldable pub close : World → ℕ → World
unfolding release_pits handles put_at
close w c =
    let k = w.cluster_at c in
    let released = release_pits (release_all w.counts (handles k.indices)) k.pits in
    if k.closed
    then w
    else set_cluster w c (record { indices = []; pits = []; closed = true }) released

-- The end of `CreatePIT`: the point in time retains its targets.
unfoldable pub create_pit : World → ℕ → String → List ℕ → World
unfolding retain_all put_at
create_pit w c id targets =
    let k = w.cluster_at c in
    set_cluster w c (record k { pits = insert id (record { targets = targets; lost = [] }) k.pits })
      (retain_all w.counts targets)

-- One round of the last loop of `DeletePIT`.
unfoldable pub delete_pit : World → ℕ → String → World
unfolding release_all put_at
delete_pit w c id =
    let k = w.cluster_at c in
    elim (lookup id k.pits) [
      | none ↦ w
      | some pit ↦
          set_cluster w c (record k { pits = remove id k.pits }) (release_all w.counts pit.targets)
    ]

unfoldable pub has_target : (ℕ → Index) → String → List ℕ → Bool
has_target at name [] = false
has_target at name (h ∷ hs) = (at h).name == name || has_target at name hs

-- `dropPITContexts`, on one point in time and on all.
unfoldable pub drop_context : (ℕ → Index) → String → Pit → Pit
unfolding has_target
drop_context at name pit =
    if has_target at name pit.targets then record pit { lost = insert name true pit.lost } else pit

unfoldable pub drop_pit_contexts : (ℕ → Index) → String → Dict String Pit → Dict String Pit
unfolding drop_context
drop_pit_contexts at name [] = []
drop_pit_contexts at name (pit ∷ pits) =
    (pit.0, drop_context at name pit.1) ∷ drop_pit_contexts at name pits

-- One round of the loop of `DeleteIndex`: the index goes from the cluster.
unfoldable pub delete_index : World → ℕ → String → World
unfolding release put_at drop_pit_contexts
delete_index w c name =
    let k = w.cluster_at c in
    elim (lookup name k.indices) [
      | none ↦ w
      | some h ↦
          set_cluster w c
            (record k {
              indices = remove name k.indices;
              pits = drop_pit_contexts w.index_at name k.pits;
            })
            (release w.counts h)
    ]
