-- ===== src/Cluster/Copy.antt =====
-- internal/engine/index.go, `copyIndex` and `rebuild`, and cluster.go, `writable`.
use osmem.Prelude.{ℕ, suc, ◌%◌, String, false, Option, none, some, [], ◌∷◌, if◌then◌else◌, eqb, ltb}
use osmem.Prelude.Dict.{Dict, string_keys, lookup, insert}
use osmem.Error.{Error, index_not_found, Result, ok, err}
use osmem.Version.{Doc}
use osmem.Segment.{Segments, DocBatch, new_batch}
use osmem.Index.{Index, Engine, add_documents, commit_index}
use osmem.Compact.{reindex_batch_docs}
use osmem.Cluster.{World, put_at, release}

-- `newIndex` builds the analysis of the settings and opens bleve, which may fail.
pub record Opener : Type 0 where
  pub engine : Engine
  pub new_index : Index → Option Error

-- The variables of the loop of `rebuild`.
pub record Rebuilding : Type 0 where
  pub index : Index
  pub batch : DocBatch
  pub count : ℕ

pub data RebuildStep : Type 0 where
  next_doc : Rebuilding → RebuildStep
  failed : Index → Error → RebuildStep

abbrev pub after_batch : ℕ → Index × Option Error → RebuildStep
after_batch count (ix, some x) = failed ix x
after_batch count (ix, none) = next_doc (record { index = ix; batch = new_batch; count = count })

-- count++; at each multiple of the limit, the batch is committed and a new one begun.
unfoldable pub count_doc : Engine → Index → DocBatch → ℕ → RebuildStep
count_doc e ix b count =
    if eqb (suc count % reindex_batch_docs) 0
    then after_batch (suc count) (commit_index e ix b)
    else next_doc (record { index = ix; batch = b; count = suc count })

abbrev pub after_queue : Engine → ℕ → Index × DocBatch × Option Error → RebuildStep
after_queue e count (ix, b, some x) = failed ix x
after_queue e count (ix, b, none) = count_doc e ix b count

unfoldable pub rebuild_doc : Engine → Rebuilding → String → Doc → RebuildStep
unfolding count_doc
rebuild_doc e r id d = elim (e.build_document false r.index d) [
  | err x ↦ failed r.index x
  | ok bds ↦
      after_queue e r.count
        (add_documents e (record r.index { docs = insert id d r.index.docs }) r.batch id bds)
]

-- The loop over `ix.docs`, in the order that Go happens to take it.
unfoldable pub rebuild_docs : Engine → Dict String Doc → Rebuilding → RebuildStep
unfolding rebuild_doc
rebuild_docs e [] r = next_doc r
rebuild_docs e (entry ∷ docs) r = elim (rebuild_doc e r entry.0 entry.1) [
  | failed ix x ↦ failed ix x
  | next_doc r' ↦ rebuild_docs e docs r'
]

abbrev pub finish_rebuild : Engine → RebuildStep → Index × Option Error
finish_rebuild e (failed ix x) = (ix, some x)
finish_rebuild e (next_doc r) = commit_index e r.index r.batch

unfoldable pub rebuild : Engine → Index → Index × Option Error
unfolding rebuild_docs
rebuild e ix =
    finish_rebuild e (rebuild_docs e ix.docs (record { index = ix; batch = new_batch; count = 0 }))

abbrev pub no_runs : Segments
no_runs = record {
  runs = [];
  run_of = [];
  run_at = λ r. record { ids = []; live = 0; gen = 0; pinned = false };
  next_run = 0;
  mapping_gen = 0;
}

-- The copy before it is rebuilt.
abbrev pub copied : Index → ℕ → Index
copied ix n = record ix { handle = n; children = []; segments = no_runs; copies = 0 }

-- ix.copies.Add(1)
unfoldable pub count_copy : World → ℕ → World
unfolding put_at
count_copy w h = record w {
  index_at = put_at w.index_at h (record (w.index_at h) { copies = suc (w.index_at h).copies });
}

-- newIndex: refs is 1, and bleve is open
unfoldable pub allocate : World → Index → World
unfolding put_at
allocate w ix = record w {
  index_at = put_at w.index_at w.next_index ix;
  counts = record {
    refs = put_at w.counts.refs w.next_index 1;
    closed = put_at w.counts.closed w.next_index false;
  };
  next_index = suc w.next_index;
}

-- A copy whose rebuild fails is released.
abbrev pub after_rebuild : World → Index × Option Error → World × Result ℕ
after_rebuild w (ix, none) = (allocate w ix, ok w.next_index)
after_rebuild w (ix, some x) =
    (record (allocate w ix) { counts = release (allocate w ix).counts w.next_index }, err x)

unfoldable pub copy_index : Opener → World → ℕ → World × Result ℕ
unfolding count_copy rebuild allocate
copy_index o w h = elim (o.new_index (w.index_at h)) [
  | some x ↦ (count_copy w h, err x)
  | none ↦ after_rebuild (count_copy w h) (rebuild o.engine (copied (w.index_at h) w.next_index))
]

-- c.indices[name] = n; ix.release()
abbrev pub replace_index : ℕ → String → ℕ → World × Result ℕ → World × Result ℕ
replace_index c name h (w, err x) = (w, err x)
replace_index c name h (w, ok n) = (
  record w {
    cluster_at =
        put_at w.cluster_at c
          (record (w.cluster_at c) { indices = insert name n (w.cluster_at c).indices });
    counts = release w.counts h;
  },
  ok n,
)

unfoldable pub writable : Opener → World → ℕ → String → World × Result ℕ
unfolding copy_index put_at
writable o w c name = elim (lookup name (w.cluster_at c).indices) [
  | none ↦ (w, err (index_not_found name))
  | some h ↦
      if ltb 1 (w.counts.refs h) then replace_index c name h (copy_index o w h) else (w, ok h)
]
