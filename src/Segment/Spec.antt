-- ===== src/Segment/Spec.antt =====
-- Which run holds a document after a commit (segments.go, `commit`), by the last operation of the
-- batch on it.
use osmem.Prelude.{
  ℕ, String, Bool, true, false, Option, none, some, List, [], ◌∷◌, ◌≡◌, refl, ◌∙◌, inl, inr, not,
  ◌&&◌, arith, if◌then◌else◌,
}
use osmem.Prelude.Dict.{◌==◌, string_keys, lookup, lookup-insert}
use osmem.Error.{Error}
use osmem.Segment.{
  Segments, RootOp, DocBatch, BatchOp, commit, commit_root, commit_roots, place, leave, sweep,
  is_empty, same,
}
use osmem.Segment.Steps.{commit_root-cases, leave-lookup, gone}
use text.Mathlib.TextEquality.{eq_iff}

-- The last operation on a document: whether it deletes.
unfoldable pub last_op : String → List RootOp → Option Bool
last_op id [] = none
last_op id (op ∷ ops) = elim (last_op id ops) [
  | some d ↦ some d
  | none ↦ if op.id == id then some op.deleted else none
]

-- The run that the batch fills, or would fill.
abbrev pub target : Segments → Option ℕ → ℕ
target s none = s.next_run
target s (some r) = r

abbrev pub outcome : ℕ → Option ℕ → Option Bool → Option ℕ
outcome r before none = before
outcome r before (some true) = none
outcome r before (some false) = some r

place-lookup :
    (s : Segments) (run : Option ℕ) (op : RootOp) (id : String)
    → lookup op.id s.run_of ≡ none
    → lookup id (place s run op).0.run_of ≡ (
        if op.id == id
        then (if op.deleted then none else some (target s run))
        else lookup id s.run_of)
unfolding place
place-lookup s none op id absent =
    ground (arith, eq_iff op.id id, lookup-insert op.id id s.next_run s.run_of)
place-lookup s (some r) op id absent =
    ground (arith, eq_iff op.id id, lookup-insert op.id id r s.run_of)

place-target :
    (s : Segments) (run : Option ℕ) (op : RootOp)
    → target (place s run op).0 (place s run op).1 ≡ target s run
unfolding place
place-target s none op = ground arith
place-target s (some r) op = ground arith

leave-target :
    (s : Segments) (k : String) (p : ℕ) (run : Option ℕ) → target (leave s k p) run ≡ target s run
unfolding leave
leave-target s k p none = refl
leave-target s k p (some r) = refl

-- A document that this batch has indexed already stays where it is.
stay-lookup :
    (s : Segments) (run : Option ℕ) (op : RootOp) (id : String) (p : ℕ)
    → lookup op.id s.run_of ≡ some p
    → same p run && not op.deleted ≡ true
    → lookup id s.run_of ≡ (
        if op.id == id
        then (if op.deleted then none else some (target s run))
        else lookup id s.run_of)
stay-lookup s none op id p e b = ground arith
stay-lookup s (some r) op id p e b = ground (arith, eq_iff op.id id)

-- A document that leaves an earlier run goes where a new one would go.
move-lookup :
    (s : Segments) (run : Option ℕ) (op : RootOp) (id : String) (p : ℕ)
    → lookup id (place (leave s op.id p) run op).0.run_of ≡ (
        if op.id == id
        then (if op.deleted then none else some (target s run))
        else lookup id s.run_of)
move-lookup s run op id p = ground (
  arith,
  place-lookup (leave s op.id p) run op id (gone s op.id p),
  leave-target s op.id p run,
  leave-lookup s op.id p id,
)

commit_root-lookup :
    (s : Segments) (run : Option ℕ) (op : RootOp) (id : String)
    → lookup id (commit_root s run op).0.run_of ≡ (
        if op.id == id
        then (if op.deleted then none else some (target s run))
        else lookup id s.run_of)
commit_root-lookup s run op id = elim (commit_root-cases s run op) [
  | inl (e, step) ↦ rw step (place-lookup s run op id e)
  | inr (inl (p, e, b, step)) ↦ rw step (stay-lookup s run op id p e b)
  | inr (inr (p, e, b, step)) ↦ rw step (move-lookup s run op id p)
]

commit_root-target :
    (s : Segments) (run : Option ℕ) (op : RootOp)
    → target (commit_root s run op).0 (commit_root s run op).1 ≡ target s run
commit_root-target s run op = elim (commit_root-cases s run op) [
  | inl (e, step) ↦ rw step (place-target s run op)
  | inr (inl (p, e, b, step)) ↦ rw step
  | inr (inr (p, e, b, step)) ↦
      rw step (place-target (leave s op.id p) run op ∙ leave-target s op.id p run)
]

pub commit_roots-lookup :
    (s : Segments) (run : Option ℕ) (ops : List RootOp) (id : String)
    → lookup id (commit_roots s run ops).0.run_of
      ≡ outcome (target s run) (lookup id s.run_of) (last_op id ops)
unfolding commit_roots last_op
commit_roots-lookup s run [] id = refl
commit_roots-lookup s run (op ∷ ops) id =
    let (s', run') = commit_root s run op in
    ground (
      arith,
      commit_roots-lookup s' run' ops id,
      commit_root-lookup s run op id,
      commit_root-target s run op,
    )

sweep-lookup :
    (s : Segments) (run : Option ℕ) (id : String)
    → lookup id (sweep (s, run)).run_of ≡ lookup id s.run_of
unfolding sweep
sweep-lookup s run id = refl

-- After a commit that bleve accepts, a document that the batch names belongs to the batch's one new
-- run if its last operation indexes it, to none if that deletes it; the others keep their run.
pub commit-owner :
    (bleve_batch : List BatchOp → Option Error) (s : Segments) (batch : DocBatch) (id : String)
    → is_empty batch.ops ≡ false
    → bleve_batch batch.ops ≡ none
    → lookup id (commit bleve_batch s batch).0.run_of
      ≡ outcome s.next_run (lookup id s.run_of) (last_op id batch.roots)
unfolding commit
commit-owner bleve_batch s batch id some_ops accepted =
    let (s', run) = commit_roots s none batch.roots in
    ground (arith, commit_roots-lookup s none batch.roots id, sweep-lookup s' run id)
