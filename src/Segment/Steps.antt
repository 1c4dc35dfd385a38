-- ===== src/Segment/Steps.antt =====
-- The three ways of a round of the commit loop (segments.go, `commit`).
use osmem.Prelude.{
  ℕ, true, false, not, ◌&&◌, Option, none, some, ◌≡◌, String, arith, if◌then◌else◌, ◌⊎◌, inl, inr,
  Bool-cases, Option-cases,
}
use osmem.Prelude.Dict.{◌==◌, lookup, lookup-remove, string_keys}
use text.Mathlib.TextEquality.{eq_iff}
use osmem.Segment.{Segments, RootOp, commit_root, place, leave, same}

-- The document is new to the runs, is in this batch's run already, or leaves an earlier run.
pub commit_root-cases :
    (s : Segments) (run : Option ℕ) (op : RootOp)
    → ((lookup op.id s.run_of ≡ none) × (commit_root s run op ≡ place s run op))
      ⊎ (((p : ℕ) × (lookup op.id s.run_of ≡ some p)
            × (same p run && not op.deleted ≡ true)
            × (commit_root s run op ≡ (s, run)))
          ⊎ ((p : ℕ) × (lookup op.id s.run_of ≡ some p)
              × (same p run && not op.deleted ≡ false)
              × (commit_root s run op ≡ place (leave s op.id p) run op)))
unfolding commit_root
commit_root-cases s run op = elim (Option-cases (lookup op.id s.run_of)) [
  | inl e ↦ inl (e, rw (e, commit_root))
  | inr (p, e) ↦ inr (elim (Bool-cases (same p run && not op.deleted)) [
    | inl b ↦ inl (p, e, b, rw (e, commit_root, b))
    | inr b ↦ inr (p, e, b, rw (e, commit_root, b))
  ])
]

pub leave-lookup :
    (s : Segments) (k : String) (p : ℕ) (id : String)
    → lookup id (leave s k p).run_of ≡ (if k == id then none else lookup id s.run_of)
unfolding leave
leave-lookup s k p id = lookup-remove k id s.run_of

-- A document that has left its run is in none.
pub gone : (s : Segments) (k : String) (p : ℕ) → lookup k (leave s k p).run_of ≡ none
gone s k p = ground (arith, leave-lookup s k p k, eq_iff k k)
