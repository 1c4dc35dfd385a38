-- ===== src/Compact.antt =====
-- internal/engine/segments.go: `mergeRuns` and `compactRuns`, which re-index the stored documents of
-- runs that are merged.
pub mod Keeps
pub mod Settles
pub mod Under
pub mod Held
pub mod Committed
pub mod Queued
pub mod Progress
pub mod Rounds
pub mod Ready
pub mod Weigh
pub mod Ends
pub mod Enough
pub mod Fitting
pub mod Agrees
pub mod Fueled
use osmem.Prelude.{
  ℕ, zero, suc, String, Bool, true, false, not, ◌||◌, Option, none, some, List, [], ◌∷◌,
  if◌then◌else◌, eqb,
}
use osmem.Prelude.Dict.{string_keys, lookup, insert}
use osmem.Error.{Error, out_of_fuel, Result, ok, err}
use osmem.Version.{Doc}
use osmem.Segment.{Segments, DocBatch, new_batch, update, runs_to_merge}
use osmem.Index.{Index, Engine, add_documents, commit_index}

abbrev pub reindex_batch_docs : ℕ
reindex_batch_docs = 1000

-- The variables of the loops of `mergeRuns`.
pub record Merging : Type 0 where
  pub index : Index
  pub batch : DocBatch
  pub queued : ℕ

-- The loops go on, or `mergeRuns` returns.
pub data MergeStep : Type 0 where
  more : Merging → MergeStep
  stop : Index → Option Error → MergeStep

-- r.pinned = true
unfoldable pub pin : Index → ℕ → Index
unfolding update
pin ix r = record ix {
  segments = record ix.segments {
    run_at = update ix.segments.run_at r (record (ix.segments.run_at r) { pinned = true });
  };
}

-- return ix.commit(batch)
unfoldable pub return_commit : Engine → Index → DocBatch → MergeStep
return_commit e ix b = let (ix', x) = commit_index e ix b in stop ix' x

-- queued++; at the limit, the batch is committed and a new one begun.
abbrev after_commit : Index × Option Error → MergeStep
after_commit (ix, some x) = stop ix (some x)
after_commit (ix, none) = more (record { index = ix; batch = new_batch; queued = 0 })

unfoldable pub count_queued : Engine → Index → DocBatch → ℕ → MergeStep
count_queued e ix b queued =
    if eqb (suc queued) reindex_batch_docs
    then after_commit (commit_index e ix b)
    else more (record { index = ix; batch = b; queued = suc queued })

abbrev after_add : Engine → ℕ → Index × DocBatch × Option Error → MergeStep
after_add e queued (ix, b, some x) = stop ix (some x)
after_add e queued (ix, b, none) = count_queued e ix b queued

-- The document is built anew and queued; `d` is replaced by its copy.
unfoldable pub reindex : Engine → Merging → ℕ → String → Doc → MergeStep
unfolding pin return_commit count_queued
reindex e m r id d = elim (e.build_document false m.index d) [
  | err x ↦ return_commit e (pin m.index r) m.batch
  | ok bds ↦
      after_add e m.queued
        (add_documents e (record m.index { docs = insert id d m.index.docs }) m.batch id bds)
]

abbrev pub holds : Option ℕ → ℕ → Bool
holds none r = false
holds (some p) r = eqb p r

-- One round of the inner loop: a document that was replaced or deleted since is passed over.
unfoldable pub merge_doc : Engine → Merging → ℕ → String → MergeStep
unfolding reindex
merge_doc e m r id = elim (lookup id m.index.docs) [
  | none ↦ more m
  | some d ↦
      if not (holds (lookup id m.index.segments.run_of) r) then more m else reindex e m r id d
]

unfoldable pub merge_ids : Engine → ℕ → List String → Merging → MergeStep
unfolding merge_doc
merge_ids e r [] m = more m
merge_ids e r (id ∷ ids) m = elim (merge_doc e m r id) [
  | stop ix x ↦ stop ix x
  | more m' ↦ merge_ids e r ids m'
]

unfoldable pub merge_list : Engine → List ℕ → Merging → MergeStep
unfolding merge_ids
merge_list e [] m = more m
merge_list e (r ∷ rs) m = elim (merge_ids e r (m.index.segments.run_at r).ids m) [
  | stop ix x ↦ stop ix x
  | more m' ↦ merge_list e rs m'
]

abbrev finish_merge : Engine → MergeStep → Index × Option Error
finish_merge e (stop ix x) = (ix, x)
finish_merge e (more m) = commit_index e m.index m.batch

unfoldable pub merge_runs : Engine → Index → List ℕ → Index × Option Error
unfolding merge_list
merge_runs e ix runs =
    finish_merge e (merge_list e runs (record { index = ix; batch = new_batch; queued = 0 }))

abbrev pub next_round : (Index → Index × Option Error) → Index × Option Error → Index × Option Error
next_round again (ix, some x) = (ix, some x)
next_round again (ix, none) = again ix

-- The loop of `compactRuns`, on fuel.
unfoldable pub compact_runs : ℕ → Engine → Index → Index × Option Error
unfolding merge_runs
compact_runs zero e ix = (ix, some out_of_fuel)
compact_runs (suc fuel) e ix = elim (runs_to_merge ix.segments) [
  | none ↦ (ix, none)
  | some group ↦ next_round (compact_runs fuel e) (merge_runs e ix group)
]
