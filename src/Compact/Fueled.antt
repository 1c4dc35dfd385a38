-- ===== src/Compact/Fueled.antt =====
-- A compaction with enough fuel does not run out of it (segments.go, `compactRuns`).
use osmem.Prelude.{
  Bool, false, ℕ, suc, ◌+◌, ◌-◌, ◌≤◌, ◌++◌, String, Option, none, some, List, [], ◌∷◌, ◌≡◌, refl,
  subst, arith, eqb, Bool-cases, Option-cases, inl, inr,
}
use osmem.Prelude.Dict.{string_keys, lookup, insert}
use osmem.Error.{Error, out_of_fuel, err, Result-cases}
use osmem.Version.{Doc}
use osmem.Segment.{BatchOp, DocBatch, new_batch, is_empty, puts, commit}
use osmem.Segment.Spec.{last_op}
use osmem.Index.{
  Index, Engine, add_documents, commit_index, queue_documents, delete_children, finish_add,
}
use osmem.Compact.{
  Merging, MergeStep, more, stop, pin, return_commit, count_queued, reindex, merge_doc, merge_ids,
  merge_list, merge_runs, finish_merge, compact_runs, holds, after_add, after_commit,
}
use osmem.Compact.Progress.{BuildsSome}
use osmem.Compact.Ready.{IsReady}
use osmem.Compact.Enough.{Returns, settled, failed, again, compact_runs-Returns}
use osmem.Compact.Fitting.{IsFit}

abbrev pub NotOut : Option Error → Type 0
NotOut x = ¬ (x ≡ some out_of_fuel)

-- The error of the model is none of bleve's or of the parser of documents.
pub record HasOwnErrors (e : Engine) : Type 0 where
  pub build :
      (infer : Bool) (ix : Index) (d : Doc) → ¬ (e.build_document infer ix d ≡ err out_of_fuel)
  pub advanced : (id : String) → NotOut (e.index_advanced id)
  pub batch : (ops : List BatchOp) → NotOut (e.bleve_batch ops)

pub success-NotOut : NotOut none
success-NotOut h = absurd (cc h)

IsFit-IsReady : (ix : Index) → IsFit ix → IsReady ix
unfolding last_op
IsFit-IsReady ix f = record {
  tidy = f.tidy;
  lists = f.lists;
  stored = λ id r e. f.held id r e refl;
}

module _ (e : Engine) (own : HasOwnErrors e) where
  queue_documents-NotOut : (bds : List String) (b : DocBatch) → NotOut (queue_documents e bds b).1
  unfolding queue_documents
  queue_documents-NotOut [] b = success-NotOut
  queue_documents-NotOut (bd ∷ bds) b = elim (Option-cases (e.index_advanced bd)) [
    | inl f ↦
        rw (f, queue_documents)
          (queue_documents-NotOut bds (record b { ops = b.ops ++ puts bd ∷ [] }))
    | inr (x, f) ↦ rw (f, queue_documents) (subst NotOut f (own.advanced bd))
  ]

  finish_add-NotOut :
      (ix : Index) (id : String) (bds : List String) (r : DocBatch × Option Error)
      → NotOut r.1
      → NotOut (finish_add ix id bds r).2
  finish_add-NotOut ix id bds (b, some x) h = h
  finish_add-NotOut ix id bds (b, none) h = h

  pub add_documents-NotOut :
      (ix : Index) (b : DocBatch) (id : String) (bds : List String)
      → NotOut (add_documents e ix b id bds).2
  unfolding add_documents
  add_documents-NotOut ix b id bds =
      finish_add-NotOut ix id bds (queue_documents e bds (delete_children ix id b))
        (queue_documents-NotOut bds (delete_children ix id b))

  pub commit_index-NotOut : (ix : Index) (b : DocBatch) → NotOut (commit_index e ix b).1
  unfolding commit_index commit
  commit_index-NotOut ix b = elim (Bool-cases (is_empty b.ops)) [
    | inl i ↦ rw i success-NotOut
    | inr i ↦ elim (Option-cases (e.bleve_batch b.ops)) [
      | inl f ↦ rw (i, f) success-NotOut
      | inr (x, f) ↦ rw (i, f) (subst NotOut f (own.batch b.ops))
    ]
  ]

  abbrev NotOutStep : MergeStep → Type 0
  NotOutStep (more m) = Unit
  NotOutStep (stop ix x) = NotOut x

  after_commit-NotOut : (r : Index × Option Error) → NotOut r.1 → NotOutStep (after_commit r)
  after_commit-NotOut (ix, some x) h = h
  after_commit-NotOut (ix, none) h = tt

  count_queued-NotOut : (ix : Index) (b : DocBatch) (n : ℕ) → NotOutStep (count_queued e ix b n)
  unfolding count_queued
  count_queued-NotOut ix b n = elim (Bool-cases (eqb (suc n) 1000)) [
    | inl c ↦ rw c (after_commit-NotOut (commit_index e ix b) (commit_index-NotOut ix b))
    | inr c ↦ rw c tt
  ]

  after_add-NotOut :
      (n : ℕ) (r : Index × DocBatch × Option Error) → NotOut r.2 → NotOutStep (after_add e n r)
  after_add-NotOut n (ix, b, some x) h = h
  after_add-NotOut n (ix, b, none) h = count_queued-NotOut ix b n

  reindex-NotOut : (m : Merging) (r : ℕ) (id : String) (d : Doc) → NotOutStep (reindex e m r id d)
  unfolding reindex return_commit
  reindex-NotOut m r id d = elim (Result-cases (e.build_document false m.index d)) [
    | inl (bds, b) ↦
        let ix = record m.index { docs = insert id d m.index.docs } in
        rw (b, NotOutStep)
          (after_add-NotOut m.queued (add_documents e ix m.batch id bds)
            (add_documents-NotOut ix m.batch id bds))
    | inr (x, b) ↦ rw (b, NotOutStep) (commit_index-NotOut (pin m.index r) m.batch)
  ]

  merge_doc-NotOut : (m : Merging) (r : ℕ) (id : String) → NotOutStep (merge_doc e m r id)
  unfolding merge_doc
  merge_doc-NotOut m r id = elim (Option-cases (lookup id m.index.docs)) [
    | inl n ↦ rw (n, NotOutStep) tt
    | inr (d, f) ↦ elim (Bool-cases (holds (lookup id m.index.segments.run_of) r)) [
      | inl c ↦ rw (f, NotOutStep, c) (reindex-NotOut m r id d)
      | inr c ↦ rw (f, NotOutStep, c) tt
    ]
  ]

  then-NotOut :
      (s : MergeStep) (rest : Merging → MergeStep)
      → NotOutStep s
      → ((m : Merging) → NotOutStep (rest m))
      → NotOutStep (elim s [ stop jx x ↦ stop jx x | more m ↦ rest m ])
  then-NotOut (more m) rest h later = later m
  then-NotOut (stop jx x) rest h later = h

  merge_ids-NotOut : (r : ℕ) (ids : List String) (m : Merging) → NotOutStep (merge_ids e r ids m)
  unfolding merge_ids
  merge_ids-NotOut r [] m = tt
  merge_ids-NotOut r (id ∷ ids) m =
      then-NotOut (merge_doc e m r id) (merge_ids e r ids) (merge_doc-NotOut m r id)
        (merge_ids-NotOut r ids)

  merge_list-NotOut : (rs : List ℕ) (m : Merging) → NotOutStep (merge_list e rs m)
  unfolding merge_list
  merge_list-NotOut [] m = tt
  merge_list-NotOut (r ∷ rs) m =
      then-NotOut (merge_ids e r (m.index.segments.run_at r).ids m) (merge_list e rs)
        (merge_ids-NotOut r (m.index.segments.run_at r).ids m) (merge_list-NotOut rs)

  finish_merge-NotOut : (s : MergeStep) → NotOutStep s → NotOut (finish_merge e s).1
  finish_merge-NotOut (stop ix x) h = h
  finish_merge-NotOut (more m) h = commit_index-NotOut m.index m.batch

  merge_runs-NotOut : (ix : Index) (g : List ℕ) → NotOut (merge_runs e ix g).1
  unfolding merge_runs
  merge_runs-NotOut ix g =
      let start : Merging = record { index = ix; batch = new_batch; queued = 0 } in
      finish_merge-NotOut (merge_list e g start) (merge_list-NotOut g start)

  Returns-NotOut : {ix : Index} {r : Index × Option Error} → Returns e ix r → NotOut r.1
  Returns-NotOut (settled ix done) = success-NotOut
  Returns-NotOut (failed ix jx g x found merged) =
      subst (λ r. NotOut r.1) merged (merge_runs-NotOut ix g)
  Returns-NotOut (again ix jx g result found merged later) = Returns-NotOut later

  -- From some fuel on, a compaction of a fit index does not run out of it.
  pub compact_runs-NotOut :
      (builds : BuildsSome e) (ix : Index)
      → IsFit ix
      → (enough : ℕ) × ((n : ℕ) → enough ≤ n → NotOut (compact_runs n e ix).1)
  compact_runs-NotOut builds ix f =
      let returns = compact_runs-Returns e builds ix (IsFit-IsReady ix f) in
      (
        returns.0,
        λ n le.
            subst (λ k. NotOut (compact_runs k e ix).1) (back n returns.0 le)
              (Returns-NotOut (returns.1 (n - returns.0))),
      )
    where
      back : (n k : ℕ) → k ≤ n → n - k + k ≡ n
      back n k le = omega (arith, le)
