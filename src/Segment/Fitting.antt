-- ===== src/Segment/Fitting.antt =====
-- The runs of an index against its stored documents, while a batch is pending (segments.go, `commit`).
use osmem.Prelude.{
  ap, subst, ℕ, String, Bool, true, false, Option, none, some, List, [], ◌∷◌, ◌++◌, ◌≡◌, refl, sym,
  ◌∙◌, arith, if◌then◌else◌, inl, inr, Bool-cases, Option-cases,
}
use osmem.Prelude.Dict.{
  Dict, ◌==◌, string_keys, lookup, insert, remove, lookup-insert, lookup-remove,
}
use osmem.Error.{Error}
use text.Mathlib.TextEquality.{eq_iff}
use osmem.Version.{Doc}
use osmem.Segment.{Segments, RootOp, BatchOp, DocBatch, new_batch, is_empty, commit}
use osmem.Segment.Counts.{IsTidy, commit-IsTidy}
use osmem.Segment.Moving.{ListsIds}
use osmem.Segment.Listing.{commit-ListsIds}
use osmem.Segment.Spec.{last_op, outcome, commit-owner}

abbrev pub Docs : Type 0
Docs = Dict String Doc

-- The runs are in order, and once the batch is committed, the documents that they hold are the
-- stored ones.
pub record Fits (s : Segments) (docs : Docs) (b : DocBatch) : Type 0 where
  pub tidy : IsTidy s
  pub lists : ListsIds s
  pub queued : (id : String) → last_op id b.roots ≡ some false → ¬ (lookup id docs ≡ none)
  pub dropped : (id : String) → last_op id b.roots ≡ some true → lookup id docs ≡ none
  pub held :
      (id : String) (r : ℕ)
      → lookup id s.run_of ≡ some r
      → last_op id b.roots ≡ none
      → ¬ (lookup id docs ≡ none)
  pub indexed :
      (id : String) → lookup id s.run_of ≡ none → last_op id b.roots ≡ none → lookup id docs ≡ none
  pub empty : is_empty b.ops ≡ true → (id : String) → last_op id b.roots ≡ none

-- The batch indexes only documents that runs hold already.
abbrev pub Requeues : Segments → DocBatch → Type 0
Requeues s b =
    (id : String) (deleted : Bool)
    → last_op id b.roots ≡ some deleted
    → (deleted ≡ false) × (¬ (lookup id s.run_of ≡ none))

last_op-append :
    (id : String) (roots : List RootOp) (op : RootOp)
    → last_op id (roots ++ op ∷ []) ≡ (if op.id == id then some op.deleted else last_op id roots)
unfolding last_op
last_op-append id [] op = ground arith
last_op-append id (first ∷ roots) op = ground (arith, last_op-append id roots op)

-- A batch that is dropped leaves the runs as they were.
pub dropped-Fits :
    (s : Segments) (docs : Docs) (b : DocBatch)
    → Requeues s b
    → Fits s docs b
    → Fits s docs new_batch
unfolding last_op
dropped-Fits s docs b n f = record {
  tidy = f.tidy;
  lists = f.lists;
  queued = λ id e. absurd (cc e);
  dropped = λ id e. absurd (cc e);
  held = λ id r e none_here. elim (Option-cases (last_op id b.roots)) [
    | inl free ↦ f.held id r e free
    | inr (d, g) ↦ f.queued id (g ∙ ap some (n id d g).0)
  ];
  indexed = λ id e none_here. elim (Option-cases (last_op id b.roots)) [
    | inl free ↦ f.indexed id e free
    | inr (d, g) ↦ absurd ((n id d g).1 e)
  ];
  empty = λ e id. refl;
}

-- More operations of bleve without a document.
pub more_ops-Fits :
    (s : Segments) (docs : Docs) (b c : DocBatch)
    → c.roots ≡ b.roots
    → (is_empty c.ops ≡ true → is_empty b.ops ≡ true)
    → Fits s docs b
    → Fits s docs c
more_ops-Fits s docs b c same ops f = record {
  tidy = f.tidy;
  lists = f.lists;
  queued = λ id. rw same (f.queued id);
  dropped = λ id. rw same (f.dropped id);
  held = λ id. rw same (f.held id);
  indexed = λ id. rw same (f.indexed id);
  empty = λ e id. rw same (f.empty (ops e) id);
}

-- The same ids are stored.
pub same_ids-Fits :
    (s : Segments) (docs more : Docs) (b : DocBatch)
    → ((id : String) → lookup id more ≡ none → lookup id docs ≡ none)
    → ((id : String) → lookup id docs ≡ none → lookup id more ≡ none)
    → Fits s docs b
    → Fits s more b
same_ids-Fits s docs more b sub sup f = record {
  tidy = f.tidy;
  lists = f.lists;
  queued = λ id e absent. f.queued id e (sub id absent);
  dropped = λ id e. sup id (f.dropped id e);
  held = λ id r e free absent. f.held id r e free (sub id absent);
  indexed = λ id e free. sup id (f.indexed id e free);
  empty = f.empty;
}

-- A document is queued and stored.
pub put-Fits :
    (s : Segments) (docs : Docs) (b c : DocBatch) (id : String) (d : Doc)
    → c.roots ≡ b.roots ++ record { id = id; deleted = false } ∷ []
    → is_empty c.ops ≡ false
    → Fits s docs b
    → Fits s (insert id d docs) c
put-Fits s docs b c id d same ops f =
    let op : RootOp = record { id = id; deleted = false } in
    record {
      tidy = f.tidy;
      lists = f.lists;
      queued = λ j. rw same (λ e absent.
          ground (arith, last_op-append j b.roots op, lookup-insert id j d docs, f.queued j));
      dropped = λ j. rw same (λ e.
          ground (arith, last_op-append j b.roots op, lookup-insert id j d docs, f.dropped j));
      held = λ j r. rw same (λ e free absent.
          ground (arith, last_op-append j b.roots op, lookup-insert id j d docs, f.held j r));
      indexed = λ j. rw same (λ e free.
          ground (arith, last_op-append j b.roots op, lookup-insert id j d docs, f.indexed j));
      empty = λ e. absurd (cc (ops, e));
    }

pub put-Requeues :
    (s : Segments) (b c : DocBatch) (id : String)
    → c.roots ≡ b.roots ++ record { id = id; deleted = false } ∷ []
    → ¬ (lookup id s.run_of ≡ none)
    → Requeues s b
    → Requeues s c
put-Requeues s b c id same held n j d = rw same (λ g. elim (Bool-cases (id == j)) [
  | inl own ↦ (
    ground (arith, last_op-append j b.roots (record { id = id; deleted = false }), own),
    subst (λ k. ¬ (lookup k s.run_of ≡ none)) ((eq_iff id j).0 own) held,
  )
  | inr other ↦
      n j d (ground (arith, last_op-append j b.roots (record { id = id; deleted = false }), other))
])

-- A deletion is queued and the document dropped.
pub delete-Fits :
    (s : Segments) (docs : Docs) (b c : DocBatch) (id : String)
    → c.roots ≡ b.roots ++ record { id = id; deleted = true } ∷ []
    → is_empty c.ops ≡ false
    → Fits s docs b
    → Fits s (remove id docs) c
delete-Fits s docs b c id same ops f =
    let op : RootOp = record { id = id; deleted = true } in
    record {
      tidy = f.tidy;
      lists = f.lists;
      queued = λ j. rw same (λ e absent.
          ground (arith, last_op-append j b.roots op, lookup-remove id j docs, f.queued j));
      dropped = λ j.
          rw same (λ e.
            ground (arith, last_op-append j b.roots op, lookup-remove id j docs, f.dropped j));
      held = λ j r. rw same (λ e free absent.
          ground (arith, last_op-append j b.roots op, lookup-remove id j docs, f.held j r));
      indexed = λ j. rw same (λ e free.
          ground (arith, last_op-append j b.roots op, lookup-remove id j docs, f.indexed j));
      empty = λ e. absurd (cc (ops, e));
    }

-- A batch that bleve takes is no longer pending; one that it refuses is, and the runs are as before.
abbrev pub AfterCommit : Docs → Segments → DocBatch → Segments × Option Error → Type 0
AfterCommit docs s b (t, some x) = t ≡ s
AfterCommit docs s b (t, none) = Fits t docs new_batch

accepted-Fits :
    (bleve_batch : List BatchOp → Option Error) (s : Segments) (docs : Docs) (b : DocBatch)
    → is_empty b.ops ≡ false
    → bleve_batch b.ops ≡ none
    → Fits s docs b
    → Fits (commit bleve_batch s b).0 docs new_batch
unfolding last_op
accepted-Fits bleve_batch s docs b some_ops taken f = record {
  tidy = commit-IsTidy bleve_batch s b f.tidy;
  lists = commit-ListsIds bleve_batch s b f.tidy f.lists;
  queued = λ id e. absurd (cc e);
  dropped = λ id e. absurd (cc e);
  held = λ id r e none_here.
      by_last id r (lookup id s.run_of) (last_op id b.roots) (f.queued id) (f.held id)
        (sym (commit-owner bleve_batch s b id some_ops taken) ∙ e);
  indexed = λ id e none_here.
      by_last_none id (lookup id s.run_of) (last_op id b.roots) (f.dropped id) (f.indexed id)
        (sym (commit-owner bleve_batch s b id some_ops taken) ∙ e);
  empty = λ e id. refl;
}
  where
    by_last_none :
        (id : String) (before : Option ℕ) (last : Option Bool)
        → (last ≡ some true → lookup id docs ≡ none)
        → (before ≡ none → last ≡ none → lookup id docs ≡ none)
        → outcome s.next_run before last ≡ none
        → lookup id docs ≡ none
    by_last_none id before none q h e = h e refl
    by_last_none id before (some true) q h e = q refl
    by_last_none id before (some false) q h e = absurd (cc e)

    by_last :
        (id : String) (r : ℕ) (before : Option ℕ) (last : Option Bool)
        → (last ≡ some false → ¬ (lookup id docs ≡ none))
        → ((q : ℕ) → before ≡ some q → last ≡ none → ¬ (lookup id docs ≡ none))
        → outcome s.next_run before last ≡ some r
        → ¬ (lookup id docs ≡ none)
    by_last id r before none q h e = h r e refl
    by_last id r before (some true) q h e = absurd (cc e)
    by_last id r before (some false) q h e = q refl

pub commit-AfterCommit :
    (bleve_batch : List BatchOp → Option Error) (s : Segments) (docs : Docs) (b : DocBatch)
    → Fits s docs b
    → AfterCommit docs s b (commit bleve_batch s b)
unfolding commit
commit-AfterCommit bleve_batch s docs b f = elim (Bool-cases (is_empty b.ops)) [
  | inl e ↦ rw e (dropped-Fits s docs b (λ id d g. absurd (cc (f.empty e id, g))) f)
  | inr e ↦ elim (Option-cases (bleve_batch b.ops)) [
    | inl taken ↦
        let done = accepted-Fits bleve_batch s docs b e taken f in
        rw (e, taken) (unfold commit in rw (e, taken) at done)
    | inr (x, refused) ↦ rw (e, refused) refl
  ]
]
