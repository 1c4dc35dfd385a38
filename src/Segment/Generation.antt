-- ===== src/Segment/Generation.antt =====
-- A commit is of the mapping's generation that it finds (segments.go, `commit`).
use osmem.Prelude.{ℕ, Option, none, List, [], ◌∷◌, ◌≡◌, refl, ◌∙◌, arith, inl, inr, Option-cases}
use osmem.Prelude.Dict.{string_keys, lookup}
use osmem.Error.{Error}
use osmem.Segment.{
  Segments, RootOp, BatchOp, DocBatch, place, leave, enter, allocate, commit_root, commit_roots,
  sweep, commit,
}

place-mapping_gen :
    (s : Segments) (run : Option ℕ) (op : RootOp) → (place s run op).0.mapping_gen ≡ s.mapping_gen
unfolding place enter allocate
place-mapping_gen s run op = ground arith

commit_root-mapping_gen :
    (s : Segments) (run : Option ℕ) (op : RootOp)
    → (commit_root s run op).0.mapping_gen ≡ s.mapping_gen
unfolding commit_root leave
commit_root-mapping_gen s run op = elim (Option-cases (lookup op.id s.run_of)) [
  | inl n ↦ rw (n, commit_root) (place-mapping_gen s run op)
  | inr (p, f) ↦ rw (f, commit_root) (ground (arith, place-mapping_gen (leave s op.id p) run op))
]

commit_roots-mapping_gen :
    (s : Segments) (run : Option ℕ) (ops : List RootOp)
    → (commit_roots s run ops).0.mapping_gen ≡ s.mapping_gen
unfolding commit_roots
commit_roots-mapping_gen s run [] = refl
commit_roots-mapping_gen s run (op ∷ ops) =
    commit_roots-mapping_gen (commit_root s run op).0 (commit_root s run op).1 ops
    ∙ commit_root-mapping_gen s run op

pub commit-mapping_gen :
    (bleve_batch : List BatchOp → Option Error) (s : Segments) (b : DocBatch)
    → (commit bleve_batch s b).0.mapping_gen ≡ s.mapping_gen
unfolding commit sweep
commit-mapping_gen bleve_batch s b = ground (arith, commit_roots-mapping_gen s none b.roots)
