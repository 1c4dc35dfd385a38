-- ===== src/Write/Fueled.antt =====
-- A write with enough fuel does not run out of it (docs.go, `putDoc` and `deleteDoc`).
use osmem.Prelude.{
  refl, ap, ◌∙◌, [], ℕ, ◌≤◌, String, Bool, true, false, Option, none, some, List, ◌≡◌, subst,
  Bool-cases, Option-cases, inl, inr,
}
use osmem.Prelude.Int.{ℤ}
use osmem.Prelude.Dict.{string_keys, insert, remove}
use osmem.Error.{Error, out_of_fuel, Result, ok, err, Result-cases}
use osmem.Version.{
  Doc, DocParams, check_write, write_conflict, update_version, version_type, version,
}
use osmem.Segment.{Segments, DocBatch, new_batch, commit}
use osmem.Segment.Fitting.{Fits, AfterCommit, commit-AfterCommit, put-Fits, delete-Fits}
use osmem.Index.{Index, Engine, add_documents, remove_documents, commit_index}
use osmem.Index.Added.{Added, add_documents-Added, remove_documents-Removed}
use osmem.Compact.{compact_runs}
use osmem.Compact.Progress.{BuildsSome}
use osmem.Compact.Fueled.{
  NotOut, HasOwnErrors, add_documents-NotOut, commit_index-NotOut, compact_runs-NotOut,
}
use osmem.Tombstone.{Registry}
use osmem.Write.{
  State, Current, or_new, is_none, end_put, store, after_put_commit, after_put_add, put_error,
  put_planned, put_doc, inferred, new_doc, put_version, current_version, commit_unless_batched,
  compact_unless_batched,
}
use osmem.Write.Delete.{
  unstore, end_delete, after_delete_commit, delete_stored, delete_planned, delete_doc, as_delete,
  routed_current, finish_delete,
}
use osmem.Write.Fitting.{IsFitting}

-- From some fuel on, the result is not that the fuel ran out.
abbrev pub Ends : {A : Type 0} → (ℕ → State × Result A) → Type 0
Ends run = (enough : ℕ) × ((n : ℕ) → enough ≤ n → ¬ ((run n).1 ≡ err out_of_fuel))

abbrev OtherResult : {A : Type 0} → State × Result A → Type 0
OtherResult r = ¬ (r.1 ≡ err out_of_fuel)

same_error :
    {A : Type 0} (x : Error) → NotOut (some x) → ¬ (◌≡◌ {A = Result A} (err x) (err out_of_fuel))
same_error x h e = h (cc e)

check_write-NotOut :
    (name id : String) (dp : DocParams) (existing : Option Doc) (current : ℤ) (deleted : Bool)
    → NotOut (check_write name id dp existing current deleted)
unfolding check_write
check_write-NotOut name id dp existing current deleted =
    elim (Option-cases (write_conflict dp existing current deleted)) [
      | inl n ↦ rw (n, check_write) (λ h. cc h)
      | inr (c, f) ↦ rw (f, check_write) (λ h. cc h)
    ]

put_error-NotOut :
    (ix : Index) (id : String) (dp : DocParams) (c : Current) (auto_id : Bool)
    → NotOut (put_error ix id dp c auto_id)
put_error-NotOut ix id dp c true h = absurd (cc h)
put_error-NotOut ix id dp c false h =
    check_write-NotOut ix.name id dp c.existing c.version c.deleted h

module _ (e : Engine) (own : HasOwnErrors e) (builds : BuildsSome e) (s : State) (id : String) where
  end_put-OtherResult :
      (t : State) (d : Doc) (created : Bool) (r : Index × Option Error)
      → NotOut r.1
      → OtherResult (end_put t id d created r)
  end_put-OtherResult t d created (ix, some x) h g = same_error x h g
  end_put-OtherResult t d created (ix, none) h g = absurd (cc g)

  put_committed-Ends :
      (d : Doc) (created : Bool) (jx : Index) (c : DocBatch) (r : Segments × Option Error)
      → AfterCommit (insert id d jx.docs) jx.segments c r
      → NotOut r.1
      → Ends (λ n.
        after_put_commit n e
          (record s { batch = none })
          id
          d
          created
          c
          (record jx { segments = r.0 }, r.1))
  unfolding compact_unless_batched
  put_committed-Ends d created jx c (t, some x) a h = (0, λ n le. same_error x h)
  put_committed-Ends d created jx c (t, none) a h =
      let ix = store (record jx { segments = t }) id d in
      let compacts = compact_runs-NotOut e own builds ix a in
      (
        compacts.0,
        λ n le.
            end_put-OtherResult (record s { batch = none }) d created (compact_runs n e ix)
              (compacts.1 n le),
      )

  put_queued-Ends :
      (batch : Option DocBatch) (d : Doc) (created : Bool) (bds : List String)
      (r : Index × DocBatch × Option Error)
      → Fits s.index.segments s.index.docs (or_new batch)
      → ¬ (bds ≡ [])
      → Added s.index (or_new batch) id bds r
      → NotOut r.2
      → Ends (λ n. after_put_add n e (record s { batch = batch }) id d created r)
  unfolding commit_unless_batched compact_unless_batched commit_index
  put_queued-Ends batch d created bds (jx, c, some x) f some_bds a h = (0, λ n le. same_error x h)
  put_queued-Ends none d created bds (jx, c, none) f some_bds a h =
      put_committed-Ends d created jx c (commit e.bleve_batch jx.segments c)
        (commit-AfterCommit e.bleve_batch jx.segments (insert id d jx.docs) c (
          rw (a.segments, a.docs)
            (put-Fits s.index.segments s.index.docs new_batch c id d a.roots
              (a.some_ops some_bds refl) f)))
        (commit_index-NotOut e own jx c)
  put_queued-Ends (some old) d created bds (jx, c, none) f some_bds a h =
      (0, λ n le g. absurd (cc g))

  put_planned-Ends :
      (d : Doc) (dp : DocParams) (c : Current) (auto_id : Bool) (bds : List String)
      → IsFitting s
      → ¬ (bds ≡ [])
      → Ends (λ n. put_planned n e s id d dp c auto_id bds)
  unfolding put_planned
  put_planned-Ends d dp c auto_id bds f some_bds =
      elim (Option-cases (put_error s.index id dp c auto_id)) [
        | inr (x, refused) ↦ (
          0,
          λ n le.
              rw (refused, put_planned)
                (same_error x (subst NotOut refused (put_error-NotOut s.index id dp c auto_id))),
        )
        | inl free ↦
            let run =
              put_queued-Ends s.batch (record d { version = put_version dp c.version auto_id })
                (is_none c.existing) bds (add_documents e s.index (or_new s.batch) id bds) f
                some_bds (add_documents-Added e s.index (or_new s.batch) id bds)
                (add_documents-NotOut e own s.index (or_new s.batch) id bds) in
            (run.0, λ n le. rw (free, put_planned) (run.1 n le))
      ]

  end_delete-OtherResult :
      (t : State) (v : ℤ) (r : Index × Option Error)
      → NotOut r.1
      → OtherResult (end_delete t id v r)
  unfolding finish_delete
  end_delete-OtherResult t v (ix, some x) h g = same_error x h g
  end_delete-OtherResult t v (ix, none) h g = absurd (cc g)

  delete_committed-Ends :
      (v : ℤ) (c : DocBatch) (r : Segments × Option Error)
      → AfterCommit (remove id s.index.docs) s.index.segments c r
      → NotOut r.1
      → Ends (λ n.
        after_delete_commit n e
          (record s { batch = none })
          id
          v
          c
          (record s.index { segments = r.0 }, r.1))
  unfolding compact_unless_batched
  delete_committed-Ends v c (t, some x) a h = (0, λ n le. same_error x h)
  delete_committed-Ends v c (t, none) a h =
      let ix = unstore (record s.index { segments = t }) id in
      let compacts = compact_runs-NotOut e own builds ix a in
      (
        compacts.0,
        λ n le.
            end_delete-OtherResult (record s { batch = none }) v (compact_runs n e ix)
              (compacts.1 n le),
      )

  delete_stored-Ends :
      (batch : Option DocBatch) (v : ℤ)
      → Fits s.index.segments s.index.docs (or_new batch)
      → Ends (λ n. delete_stored n e (record s { batch = batch }) id v)
  unfolding delete_stored commit_unless_batched compact_unless_batched commit_index finish_delete
  delete_stored-Ends none v f =
      let c = remove_documents s.index new_batch id in
      let removed = remove_documents-Removed s.index new_batch id in
      delete_committed-Ends v c (commit e.bleve_batch s.index.segments c)
        (commit-AfterCommit e.bleve_batch s.index.segments (remove id s.index.docs) c
          (delete-Fits s.index.segments s.index.docs new_batch c id removed.0 removed.1 f))
        (commit_index-NotOut e own s.index c)
  delete_stored-Ends (some old) v f = (0, λ n le g. absurd (cc g))

  finish_delete-OtherResult : (found : Bool) (v : ℤ) → OtherResult (finish_delete s id found v)
  unfolding finish_delete
  finish_delete-OtherResult found v g = cc g

  delete_planned-Ends :
      (dp : DocParams) (c : Current) → IsFitting s → Ends (λ n. delete_planned n e s id dp c)
  unfolding delete_planned
  delete_planned-Ends dp c f =
      let check = check_write s.index.name id dp c.existing c.version c.deleted in
      let other = check_write-NotOut s.index.name id dp c.existing c.version c.deleted in
      let v = update_version (version_type dp) c.version (version dp) in
      elim (Option-cases check) [
        | inr (x, refused) ↦
            (0, λ n le. rw (refused, delete_planned) (same_error x (subst NotOut refused other)))
        | inl free ↦ elim (Bool-cases (is_none c.existing)) [
          | inl missing ↦
              (0, λ n le. rw (free, delete_planned, missing) (finish_delete-OtherResult false v))
          | inr there ↦
              let run = delete_stored-Ends s.batch v f in
              (run.0, λ n le. rw (free, delete_planned, there) (run.1 n le))
        ]
      ]

  -- A delete ends: from some fuel on its result does not say that the fuel ran out, if the runs of
  -- the index fit its stored documents with the batch of the request pending, if every document is
  -- built into some bleve document, and if that error is none of bleve's or of the parser's own.
  pub delete_doc-Ends :
      (reg : Registry) (dp : DocParams) (routed : Bool)
      → IsFitting s
      → Ends (λ n. delete_doc n e reg s id dp routed)
  unfolding delete_doc
  delete_doc-Ends reg dp routed f =
      delete_planned-Ends (as_delete dp)
        (routed_current s.index id (as_delete dp) routed (current_version reg s.index s.tx id)) f

-- A put ends: from some fuel on its result does not say that the fuel ran out, if the runs of the
-- index fit its stored documents with the batch of the request pending, if every document is built
-- into some bleve document, and if that error is none of bleve's or of the parser's own.
pub put_doc-Ends :
    (e : Engine) (own : HasOwnErrors e) (builds : BuildsSome e) (s : State) (id : String)
    (reg : Registry) (source : String) (dp : DocParams) (auto_id : Bool)
    → IsFitting s
    → Ends (λ n. put_doc n e reg s id source dp auto_id)
unfolding put_doc
put_doc-Ends e own builds s id reg source dp auto_id f =
    let d = new_doc s.index id source dp in
    let t = inferred e s d in
    elim (Result-cases (e.build_document true s.index d)) [
      | inl (bds, built) ↦
          let run =
            put_planned-Ends e own builds t id d dp (current_version reg t.index t.tx id) auto_id
              bds f (λ nil. builds true s.index d (built ∙ ap ok nil)) in
          (run.0, λ n le. rw (built, put_doc) (run.1 n le))
      | inr (x, refused) ↦ (
        0,
        λ n le.
            rw (refused, put_doc) (same_error x (λ h. own.build true s.index d (cc (refused, h)))),
      )
    ]
