-- ===== src/Segment/Listing.antt =====
-- A run lists every document that it holds (segments.go, `commit`).
use osmem.Prelude.{
  ℕ, ◌<◌, String, Option, none, some, List, [], ◌∷◌, ◌≡◌, arith, eqb_iff, inl, inr, Bool-cases,
  Option-cases,
}
use osmem.Prelude.Dict.{string_keys, lookup, lookup-insert}
use osmem.Prelude.Distinct.{holders-remove}
use osmem.Error.{Error}
use text.Mathlib.TextEquality.{eq_iff}
use osmem.Segment.{
  Segments, RootOp, BatchOp, DocBatch, update, leave, enter, allocate, place, commit_root,
  commit_roots, is_empty, sweep, commit,
}
use osmem.Segment.Counts.{IsCounted, leave-IsCounted, commit_root-IsCounted, IsTidy}
use osmem.Segment.Steps.{leave-lookup, commit_root-cases}
use osmem.Segment.Moving.{ListsIds, member-append_id}

leave-ListsIds : (s : Segments) (id : String) (p : ℕ) → ListsIds s → ListsIds (leave s id p)
unfolding leave update
leave-ListsIds s id p l j r e = ground (arith, l j r, leave-lookup s id p j, eqb_iff p r)

enter-ListsIds : (s : Segments) (id : String) (r : ℕ) → ListsIds s → ListsIds (enter s id r)
unfolding enter update
enter-ListsIds s id r l j q e = ground (
  arith,
  l j q,
  eqb_iff r q,
  eq_iff id j,
  lookup-insert id j r s.run_of,
  member-append_id id j (s.run_at r).ids,
)

held-old :
    (s : Segments) (id : String) (p : ℕ)
    → IsCounted s none
    → lookup id s.run_of ≡ some p
    → p < s.next_run
held-old s id p c e =
    ground (arith, c.fresh p, holders-remove p id s.run_of c.distinct, eqb_iff p p)

allocate-ListsIds : (s : Segments) → IsCounted s none → ListsIds s → ListsIds (allocate s)
unfolding allocate update
allocate-ListsIds s c l j r e = ground (arith, l j r, held-old s j r c, eqb_iff s.next_run r)

place-ListsIds :
    (s : Segments) (run : Option ℕ) (op : RootOp)
    → IsCounted s run
    → ListsIds s
    → ListsIds (place s run op).0
unfolding place
place-ListsIds s none op c l = elim (Bool-cases op.deleted) [
  | inl d ↦ rw d l
  | inr d ↦ rw d (enter-ListsIds (allocate s) op.id s.next_run (allocate-ListsIds s c l))
]
place-ListsIds s (some r) op c l = elim (Bool-cases op.deleted) [
  | inl d ↦ rw d l
  | inr d ↦ rw d (enter-ListsIds s op.id r l)
]

commit_root-ListsIds :
    (s : Segments) (run : Option ℕ) (op : RootOp)
    → IsCounted s run
    → ListsIds s
    → ListsIds (commit_root s run op).0
commit_root-ListsIds s run op c l = elim (commit_root-cases s run op) [
  | inl (e, step) ↦ rw step (place-ListsIds s run op c l)
  | inr (inl (p, e, b, step)) ↦ rw step l
  | inr (inr (p, e, b, step)) ↦ rw step (
      place-ListsIds (leave s op.id p) run op (leave-IsCounted s run op.id p e c)
        (leave-ListsIds s op.id p l))
]

commit_roots-ListsIds :
    (s : Segments) (run : Option ℕ) (ops : List RootOp)
    → IsCounted s run
    → ListsIds s
    → ListsIds (commit_roots s run ops).0
unfolding commit_roots
commit_roots-ListsIds s run [] c l = l
commit_roots-ListsIds s run (op ∷ ops) c l =
    let (s', run') = commit_root s run op in
    commit_roots-ListsIds s' run' ops (commit_root-IsCounted s run op c)
      (commit_root-ListsIds s run op c l)

-- A commit, taken or refused, leaves every document of a run among those that the run lists.
pub commit-ListsIds :
    (bleve_batch : List BatchOp → Option Error) (s : Segments) (batch : DocBatch)
    → IsTidy s
    → ListsIds s
    → ListsIds (commit bleve_batch s batch).0
unfolding commit sweep
commit-ListsIds bleve_batch s batch t l = elim (Bool-cases (is_empty batch.ops)) [
  | inl b ↦ rw b l
  | inr b ↦ elim (Option-cases (bleve_batch batch.ops)) [
    | inl e ↦ rw (b, e) (commit_roots-ListsIds s none batch.roots t.counted l)
    | inr (x, e) ↦ rw (b, e) l
  ]
]
