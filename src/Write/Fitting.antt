-- ===== src/Write/Fitting.antt =====
-- The runs of an index against its stored documents along writes that succeed or fail, outside a
-- bulk request or in one (docs.go, `putDoc` and `deleteDoc`).
use osmem.Prelude.{
  true, ap, ◌∙◌, [], ◌≡◌, refl, false, ℕ, String, Bool, Option, none, some, List, sym, subst,
  Bool-cases, Option-cases, inl, inr,
}
use osmem.Prelude.Int.{ℤ}
use osmem.Prelude.Dict.{string_keys, insert, remove}
use osmem.Error.{Error, ok, Result-cases}
use osmem.Version.{Doc, DocParams, check_write}
use osmem.Segment.{Segments, DocBatch, new_batch, commit}
use osmem.Segment.Fitting.{
  Fits, AfterCommit, commit-AfterCommit, more_ops-Fits, put-Fits, delete-Fits,
}
use osmem.Index.{Index, Engine, add_documents, remove_documents, commit_index}
use osmem.Index.Added.{Added, add_documents-Added, remove_documents-Removed}
use osmem.Compact.{compact_runs}
use osmem.Compact.Progress.{BuildsSome}
use osmem.Compact.Fitting.{IsFit, compact_runs-IsFit}
use osmem.Tombstone.{Registry}
use osmem.Write.{
  State, Current, or_new, is_none, end_put, store, after_put_commit, after_put_add, put_error,
  put_planned, put_doc, inferred, new_doc, put_version, current_version, commit_unless_batched,
  compact_unless_batched,
}
use osmem.Write.Delete.{
  unstore, end_delete, after_delete_commit, delete_stored, delete_planned, delete_doc, as_delete,
  routed_current, finish_delete,
}

-- The index fits with the batch of the request pending.
abbrev pub IsFitting : State → Type 0
IsFitting s = Fits s.index.segments s.index.docs (or_new s.batch)

-- A write keeps the kind of its batch, and the index fits with what is pending then.
abbrev pub FitsFrom : Option DocBatch → State → Type 0
FitsFrom none s = (s.batch ≡ none) × IsFit s.index
FitsFrom (some old) s = (b : DocBatch) × (s.batch ≡ some b) × Fits s.index.segments s.index.docs b

unchanged-FitsFrom :
    (s : State) (batch : Option DocBatch)
    → Fits s.index.segments s.index.docs (or_new batch)
    → FitsFrom batch (record s { batch = batch })
unchanged-FitsFrom s none f = (refl, f)
unchanged-FitsFrom s (some b) f = (b, refl, f)

module _ (fuel : ℕ) (e : Engine) (builds : BuildsSome e) (s : State) (id : String) where
  end_put-FitsFrom :
      (old : Option DocBatch) (t : State) (d : Doc) (created : Bool) (r : Index × Option Error)
      → FitsFrom old (record t { index = r.0 })
      → FitsFrom old (end_put t id d created r).0
  end_put-FitsFrom none t d created (ix, some x) f = f
  end_put-FitsFrom none t d created (ix, none) f = f
  end_put-FitsFrom (some b) t d created (ix, some x) f = f
  end_put-FitsFrom (some b) t d created (ix, none) f = f

  put_committed-FitsFrom :
      (d : Doc) (created : Bool) (jx : Index) (c : DocBatch) (r : Segments × Option Error)
      → IsFit jx
      → AfterCommit (insert id d jx.docs) jx.segments c r
      → FitsFrom none
          (after_put_commit fuel e
            (record s { batch = none })
            id
            d
            created
            c
            (record jx { segments = r.0 }, r.1)).0
  put_committed-FitsFrom d created jx c (t, some x) f a =
      (refl, subst (λ r. Fits r jx.docs new_batch) (sym a) f)
  put_committed-FitsFrom d created jx c (t, none) f a =
      unfold compact_unless_batched in
      end_put-FitsFrom none (record s { batch = none }) d created
        (compact_runs fuel e (store (record jx { segments = t }) id d))
        (refl, compact_runs-IsFit fuel e builds (store (record jx { segments = t }) id d) a)

  put_queued-FitsFrom :
      (batch : Option DocBatch) (d : Doc) (created : Bool) (bds : List String)
      (r : Index × DocBatch × Option Error)
      → Fits s.index.segments s.index.docs (or_new batch)
      → ¬ (bds ≡ [])
      → Added s.index (or_new batch) id bds r
      → FitsFrom batch (after_put_add fuel e (record s { batch = batch }) id d created r).0
  put_queued-FitsFrom none d created bds (jx, c, some x) f some_bds a =
      (refl, rw (a.segments, a.docs) f)
  put_queued-FitsFrom (some old) d created bds (jx, c, some x) f some_bds a = (
    c,
    refl,
    rw (a.segments, a.docs) (more_ops-Fits s.index.segments s.index.docs old c a.roots a.ops f),
  )
  put_queued-FitsFrom none d created bds (jx, c, none) f some_bds a =
      unfold commit_unless_batched commit_index in
      put_committed-FitsFrom d created jx c (commit e.bleve_batch jx.segments c)
        (rw (a.segments, a.docs) f)
        (commit-AfterCommit e.bleve_batch jx.segments (insert id d jx.docs) c (
          rw (a.segments, a.docs)
            (put-Fits s.index.segments s.index.docs new_batch c id d a.roots
              (a.some_ops some_bds refl) f)))
  put_queued-FitsFrom (some old) d created bds (jx, c, none) f some_bds a =
      unfold commit_unless_batched compact_unless_batched in
      (
        c,
        refl,
        rw (a.segments, a.docs)
            (put-Fits s.index.segments s.index.docs old c id d a.roots (a.some_ops some_bds refl)
              f),
      )

  put_planned-FitsFrom :
      (d : Doc) (dp : DocParams) (c : Current) (auto_id : Bool) (bds : List String)
      → IsFitting s
      → ¬ (bds ≡ [])
      → FitsFrom s.batch (put_planned fuel e s id d dp c auto_id bds).0
  unfolding put_planned
  put_planned-FitsFrom d dp c auto_id bds f some_bds =
      elim (Option-cases (put_error s.index id dp c auto_id)) [
        | inr (x, refused) ↦ rw (refused, put_planned) (unchanged-FitsFrom s s.batch f)
        | inl free ↦
            rw (free, put_planned)
              (put_queued-FitsFrom s.batch (record d { version = put_version dp c.version auto_id })
                (is_none c.existing) bds (add_documents e s.index (or_new s.batch) id bds) f
                some_bds (add_documents-Added e s.index (or_new s.batch) id bds))
      ]

  end_delete-FitsFrom :
      (old : Option DocBatch) (t : State) (v : ℤ) (r : Index × Option Error)
      → FitsFrom old (record t { index = r.0 })
      → FitsFrom old (end_delete t id v r).0
  unfolding finish_delete
  end_delete-FitsFrom none t v (ix, some x) f = f
  end_delete-FitsFrom none t v (ix, none) f = f
  end_delete-FitsFrom (some b) t v (ix, some x) f = f
  end_delete-FitsFrom (some b) t v (ix, none) f = f

  delete_committed-FitsFrom :
      (v : ℤ) (c : DocBatch) (r : Segments × Option Error)
      → IsFit s.index
      → AfterCommit (remove id s.index.docs) s.index.segments c r
      → FitsFrom none
          (after_delete_commit fuel e
            (record s { batch = none })
            id
            v
            c
            (record s.index { segments = r.0 }, r.1)).0
  delete_committed-FitsFrom v c (t, some x) f a =
      (refl, subst (λ r. Fits r s.index.docs new_batch) (sym a) f)
  delete_committed-FitsFrom v c (t, none) f a =
      unfold compact_unless_batched in
      let ix = unstore (record s.index { segments = t }) id in
      end_delete-FitsFrom none (record s { batch = none }) v (compact_runs fuel e ix)
        (refl, compact_runs-IsFit fuel e builds ix a)

  delete_stored-FitsFrom :
      (batch : Option DocBatch) (v : ℤ)
      → Fits s.index.segments s.index.docs (or_new batch)
      → FitsFrom batch (delete_stored fuel e (record s { batch = batch }) id v).0
  unfolding delete_stored commit_unless_batched compact_unless_batched commit_index
  delete_stored-FitsFrom none v f =
      let c = remove_documents s.index new_batch id in
      let removed = remove_documents-Removed s.index new_batch id in
      delete_committed-FitsFrom v c (commit e.bleve_batch s.index.segments c) f (
        commit-AfterCommit e.bleve_batch s.index.segments (remove id s.index.docs) c
          (delete-Fits s.index.segments s.index.docs new_batch c id removed.0 removed.1 f))
  delete_stored-FitsFrom (some old) v f =
      let c = remove_documents s.index old id in
      let removed = remove_documents-Removed s.index old id in
      end_delete-FitsFrom (some old) (record s { batch = some c }) v (unstore s.index id, none)
        (c, refl, delete-Fits s.index.segments s.index.docs old c id removed.0 removed.1 f)

  finish_missing-FitsFrom :
      (batch : Option DocBatch) (found : Bool) (v : ℤ)
      → Fits s.index.segments s.index.docs (or_new batch)
      → FitsFrom batch (finish_delete (record s { batch = batch }) id found v).0
  unfolding finish_delete
  finish_missing-FitsFrom none found v f = (refl, f)
  finish_missing-FitsFrom (some b) found v f = (b, refl, f)

  delete_planned-FitsFrom :
      (dp : DocParams) (c : Current)
      → IsFitting s
      → FitsFrom s.batch (delete_planned fuel e s id dp c).0
  unfolding delete_planned
  delete_planned-FitsFrom dp c f =
      elim (Option-cases (check_write s.index.name id dp c.existing c.version c.deleted)) [
        | inr (x, refused) ↦ rw (refused, delete_planned) (unchanged-FitsFrom s s.batch f)
        | inl free ↦ elim (Bool-cases (is_none c.existing)) [
          | inl missing ↦
              rw (free, delete_planned, missing) (finish_missing-FitsFrom s.batch false _ f)
          | inr there ↦ rw (free, delete_planned, there) (delete_stored-FitsFrom s.batch _ f)
        ]
      ]

  pub delete_doc-FitsFrom :
      (reg : Registry) (dp : DocParams) (routed : Bool)
      → IsFitting s
      → FitsFrom s.batch (delete_doc fuel e reg s id dp routed).0
  unfolding delete_doc
  delete_doc-FitsFrom reg dp routed f =
      delete_planned-FitsFrom (as_delete dp)
        (routed_current s.index id (as_delete dp) routed (current_version reg s.index s.tx id)) f

pub put_doc-FitsFrom :
    (fuel : ℕ) (e : Engine) (builds : BuildsSome e) (s : State) (id : String) (reg : Registry)
    (source : String) (dp : DocParams) (auto_id : Bool)
    → IsFitting s
    → FitsFrom s.batch (put_doc fuel e reg s id source dp auto_id).0
unfolding put_doc
put_doc-FitsFrom fuel e builds s id reg source dp auto_id f =
    let d = new_doc s.index id source dp in
    let t = inferred e s d in
    elim (Result-cases (e.build_document true s.index d)) [
      | inl (bds, built) ↦
          rw (built, put_doc)
            (put_planned-FitsFrom fuel e builds t id d dp (current_version reg t.index t.tx id)
              auto_id bds f (λ nil. builds true s.index d (built ∙ ap ok nil)))
      | inr (x, refused) ↦ rw (refused, put_doc) (unchanged-FitsFrom s s.batch f)
    ]
