-- ===== src/Compact/Fitting.antt =====
-- Merging runs, finished or not, leaves runs that fit the stored documents (segments.go, `mergeRuns`
-- and `compactRuns`).
use osmem.Prelude.{
  false, true, refl, ap, ◌∙◌, ℕ, zero, suc, String, Option, none, some, List, [], ◌∷◌, ◌≡◌, sym,
  subst, arith, eqb, eqb_iff, Bool-cases, Option-cases, inl, inr,
}
use osmem.Prelude.Dict.{string_keys, lookup, insert, lookup-insert}
use osmem.Error.{Error, ok, Result-cases}
use osmem.Version.{Doc}
use osmem.Segment.{Segments, DocBatch, update, new_batch, runs_to_merge, commit}
use osmem.Segment.Spec.{last_op}
use osmem.Segment.Fitting.{
  Fits, Requeues, AfterCommit, commit-AfterCommit, dropped-Fits, same_ids-Fits, put-Fits,
  put-Requeues,
}
use osmem.Index.{Index, Engine, add_documents, commit_index}
use osmem.Index.Added.{Added, add_documents-Added}
use osmem.Compact.{
  Merging, MergeStep, more, stop, pin, return_commit, count_queued, reindex, merge_doc, merge_ids,
  merge_list, merge_runs, finish_merge, next_round, compact_runs, holds, after_add, after_commit,
}
use osmem.Compact.Keeps.{pin-Keeps}
use osmem.Compact.Progress.{BuildsSome}
use text.Mathlib.TextEquality.{eq_iff}

-- The index fits with no batch pending.
abbrev pub IsFit : Index → Type 0
IsFit ix = Fits ix.segments ix.docs new_batch

abbrev Pending : Index → DocBatch → Type 0
Pending ix b = Fits ix.segments ix.docs b × Requeues ix.segments b

abbrev FitsStep : MergeStep → Type 0
FitsStep (more m) = Pending m.index m.batch
FitsStep (stop ix x) = IsFit ix

new_batch-Pending : (ix : Index) → IsFit ix → Pending ix new_batch
unfolding last_op
new_batch-Pending ix f = (f, λ id d e. absurd (cc e))

after-IsFit :
    (ix : Index) (b : DocBatch) (r : Segments × Option Error)
    → Pending ix b
    → AfterCommit ix.docs ix.segments b r
    → IsFit (record ix { segments = r.0 })
after-IsFit ix b (t, none) p a = a
after-IsFit ix b (t, some x) p a =
    subst (λ s. Fits s ix.docs new_batch) (sym a) (dropped-Fits ix.segments ix.docs b p.1 p.0)

-- Taken or refused, a batch that only indexes again leaves a fit index.
commit_index-IsFit :
    (e : Engine) (ix : Index) (b : DocBatch) → Pending ix b → IsFit (commit_index e ix b).0
unfolding commit_index
commit_index-IsFit e ix b p =
    after-IsFit ix b (commit e.bleve_batch ix.segments b) p
      (commit-AfterCommit e.bleve_batch ix.segments ix.docs b p.0)

pin-Pending : (ix : Index) (b : DocBatch) (r : ℕ) → Pending ix b → Pending (pin ix r) b
pin-Pending ix b r p =
    unfold pin update in
    (
      record {
        tidy = (pin-Keeps ix r).tidy p.0.tidy;
        lists = λ id q e. ground (arith, p.0.lists id q, eqb_iff r q);
        queued = p.0.queued;
        dropped = p.0.dropped;
        held = p.0.held;
        indexed = p.0.indexed;
        empty = p.0.empty;
      },
      p.1,
    )

after_commit-FitsStep : (r : Index × Option Error) → IsFit r.0 → FitsStep (after_commit r)
after_commit-FitsStep (ix, some x) f = f
after_commit-FitsStep (ix, none) f = new_batch-Pending ix f

count_queued-FitsStep :
    (e : Engine) (ix : Index) (b : DocBatch) (n : ℕ)
    → Pending ix b
    → FitsStep (count_queued e ix b n)
unfolding count_queued
count_queued-FitsStep e ix b n p = elim (Bool-cases (eqb (suc n) 1000)) [
  | inl c ↦ rw c (after_commit-FitsStep (commit_index e ix b) (commit_index-IsFit e ix b p))
  | inr c ↦ rw c p
]

-- The stored document is queued again and its copy stored.
after_add-FitsStep :
    (e : Engine) (n : ℕ) (ix : Index) (b : DocBatch) (id : String) (d : Doc) (bds : List String)
    (r : Index × DocBatch × Option Error)
    → Pending ix b
    → lookup id ix.docs ≡ some d
    → ¬ (lookup id ix.segments.run_of ≡ none)
    → ¬ (bds ≡ [])
    → Added (record ix { docs = insert id d ix.docs }) b id bds r
    → FitsStep (after_add e n r)
after_add-FitsStep e n ix b id d bds (jx, c, some x) p found held some_bds a =
    rw (a.segments, a.docs)
      (dropped-Fits ix.segments (insert id d ix.docs) b p.1 (
        same_ids-Fits ix.segments ix.docs (insert id d ix.docs) b
          (λ j. ground (arith, lookup-insert id j d ix.docs))
          (λ j. ground (arith, lookup-insert id j d ix.docs, eq_iff id j)) p.0))
after_add-FitsStep e n ix b id d bds (jx, c, none) p found held some_bds a =
    count_queued-FitsStep e jx c n (
      rw (a.segments, a.docs)
          (put-Fits ix.segments ix.docs b c id d a.roots (a.some_ops some_bds refl) p.0),
      rw a.segments (put-Requeues ix.segments b c id a.roots held p.1),
    )

reindex-FitsStep :
    (e : Engine) (builds : BuildsSome e) (m : Merging) (r : ℕ) (id : String) (d : Doc)
    → Pending m.index m.batch
    → lookup id m.index.docs ≡ some d
    → ¬ (lookup id m.index.segments.run_of ≡ none)
    → FitsStep (reindex e m r id d)
unfolding reindex return_commit
reindex-FitsStep e builds m r id d p found held =
    elim (Result-cases (e.build_document false m.index d)) [
      | inl (bds, b) ↦
          let ix = record m.index { docs = insert id d m.index.docs } in
          rw (b, FitsStep)
            (after_add-FitsStep e m.queued m.index m.batch id d bds
              (add_documents e ix m.batch id bds) p found held
              (λ nil. builds false m.index d (b ∙ ap ok nil))
              (add_documents-Added e ix m.batch id bds))
      | inr (x, b) ↦
          rw (b, FitsStep)
            (commit_index-IsFit e (pin m.index r) m.batch (pin-Pending m.index m.batch r p))
    ]

holds-some : (held : Option ℕ) (r : ℕ) → holds held r ≡ true → ¬ (held ≡ none)
holds-some none r h e = absurd (cc h)
holds-some (some q) r h e = cc e

merge_doc-FitsStep :
    (e : Engine) (builds : BuildsSome e) (m : Merging) (r : ℕ) (id : String)
    → Pending m.index m.batch
    → FitsStep (merge_doc e m r id)
unfolding merge_doc
merge_doc-FitsStep e builds m r id p = elim (Option-cases (lookup id m.index.docs)) [
  | inl n ↦ rw (n, FitsStep) p
  | inr (d, f) ↦ elim (Bool-cases (holds (lookup id m.index.segments.run_of) r)) [
    | inl c ↦
        rw (f, FitsStep, c)
          (reindex-FitsStep e builds m r id d p f
            (holds-some (lookup id m.index.segments.run_of) r c))
    | inr c ↦ rw (f, FitsStep, c) p
  ]
]

-- A step that goes on is followed by the rest of the loop.
then-FitsStep :
    (s : MergeStep) (rest : Merging → MergeStep)
    → FitsStep s
    → ((m : Merging) → Pending m.index m.batch → FitsStep (rest m))
    → FitsStep (elim s [ stop jx x ↦ stop jx x | more m ↦ rest m ])
then-FitsStep (more m) rest p later = later m p
then-FitsStep (stop jx x) rest f later = f

merge_ids-FitsStep :
    (e : Engine) (builds : BuildsSome e) (r : ℕ) (ids : List String) (m : Merging)
    → Pending m.index m.batch
    → FitsStep (merge_ids e r ids m)
unfolding merge_ids
merge_ids-FitsStep e builds r [] m p = p
merge_ids-FitsStep e builds r (id ∷ ids) m p =
    then-FitsStep (merge_doc e m r id) (merge_ids e r ids) (merge_doc-FitsStep e builds m r id p)
      (merge_ids-FitsStep e builds r ids)

merge_list-FitsStep :
    (e : Engine) (builds : BuildsSome e) (rs : List ℕ) (m : Merging)
    → Pending m.index m.batch
    → FitsStep (merge_list e rs m)
unfolding merge_list
merge_list-FitsStep e builds [] m p = p
merge_list-FitsStep e builds (r ∷ rs) m p =
    then-FitsStep (merge_ids e r (m.index.segments.run_at r).ids m) (merge_list e rs)
      (merge_ids-FitsStep e builds r (m.index.segments.run_at r).ids m p)
      (merge_list-FitsStep e builds rs)

finish_merge-IsFit : (e : Engine) (s : MergeStep) → FitsStep s → IsFit (finish_merge e s).0
finish_merge-IsFit e (stop ix x) f = f
finish_merge-IsFit e (more m) p = commit_index-IsFit e m.index m.batch p

pub merge_runs-IsFit :
    (e : Engine) (builds : BuildsSome e) (ix : Index) (g : List ℕ)
    → IsFit ix
    → IsFit (merge_runs e ix g).0
unfolding merge_runs
merge_runs-IsFit e builds ix g f =
    let start : Merging = record { index = ix; batch = new_batch; queued = 0 } in
    finish_merge-IsFit e (merge_list e g start)
      (merge_list-FitsStep e builds g start (new_batch-Pending ix f))

next_round-IsFit :
    (again : Index → Index × Option Error) (r : Index × Option Error)
    → IsFit r.0
    → ((jx : Index) → IsFit jx → IsFit (again jx).0)
    → IsFit (next_round again r).0
next_round-IsFit again (jx, some x) f later = f
next_round-IsFit again (jx, none) f later = later jx f

-- However far a compaction comes, and whether or not it fails, it leaves a fit index.
pub compact_runs-IsFit :
    (fuel : ℕ) (e : Engine) (builds : BuildsSome e) (ix : Index)
    → IsFit ix
    → IsFit (compact_runs fuel e ix).0
unfolding compact_runs
compact_runs-IsFit zero e builds ix f = f
compact_runs-IsFit (suc fuel) e builds ix f = elim (Option-cases (runs_to_merge ix.segments)) [
  | inl n ↦ rw (n, compact_runs) f
  | inr (g, found) ↦
      rw (found, compact_runs)
        (next_round-IsFit (compact_runs fuel e) (merge_runs e ix g)
          (merge_runs-IsFit e builds ix g f) (compact_runs-IsFit fuel e builds))
]
