-- ===== src/Compact/Held.antt =====
-- The operations of a batch that indexes documents which runs hold, and the runs that are left
-- (segments.go, `commit`).
use osmem.Prelude.{
  ℕ, ◌≤◌, String, Bool, true, false, none, some, List, [], ◌∷◌, ◌≡◌, refl, sym, ap, ◌∙◌, arith, All,
  if◌then◌else◌, inl, inr, Bool-cases,
}
use osmem.Prelude.Dict.{◌==◌, string_keys, nat_keys, lookup}
use osmem.Segment.{Segments, SegmentRun, RootOp, live_runs, appended, commit_roots}
use osmem.Segment.Sums.{total}
use osmem.Segment.Moving.{Moves}
use osmem.Segment.Spec.{last_op, outcome, commit_roots-lookup}
use text.Mathlib.TextEquality.{eq_iff}
use osmem.Compact.Under.{names_root}

pub live_runs-total :
    (f : ℕ → ℕ) (h : ℕ → SegmentRun) (l : List ℕ) → total f (live_runs h l) ≤ total f l
unfolding live_runs
live_runs-total f h [] = omega arith
live_runs-total f h (q ∷ l) = ground (arith, live_runs-total f h l)

pub appended-total : (f : ℕ → ℕ) (h : ℕ → SegmentRun) (r : ℕ) → total f (appended h (some r)) ≤ f r
unfolding appended
appended-total f h r = ground arith

-- The last operation on a document of the batch indexes it.
last_op-moved :
    (s : Segments) (g : List ℕ) (id : String) (roots : List RootOp)
    → All (Moves s g) roots
    → last_op id roots ≡ (if names_root id roots then some false else none)
unfolding last_op
last_op-moved s g id [] m = refl
last_op-moved s g id (op ∷ ops) m = ground (arith, m.0.0, last_op-moved s g id ops m.1)

pub moved-held :
    (s : Segments) (g : List ℕ) (id : String) (roots : List RootOp)
    → All (Moves s g) roots
    → names_root id roots ≡ true
    → (p : ℕ) × (lookup id s.run_of ≡ some p)
moved-held s g id [] m e = absurd (cc)
moved-held s g id (op ∷ ops) m e = elim (Bool-cases (op.id == id)) [
  | inl b ↦ (m.0.1.0, ap (λ j. lookup j s.run_of) (sym ((eq_iff op.id id).0 b)) ∙ m.0.1.1)
  | inr b ↦ moved-held s g id ops m.1 (ground (arith, e, b))
]

pub commit_roots-held :
    (s : Segments) (g : List ℕ) (roots : List RootOp) (id : String)
    → All (Moves s g) roots
    → lookup id (commit_roots s none roots).0.run_of
      ≡ (if names_root id roots then some s.next_run else lookup id s.run_of)
commit_roots-held s g roots id m =
    commit_roots-lookup s none roots id
    ∙ ap (outcome s.next_run (lookup id s.run_of)) (last_op-moved s g id roots m)
    ∙ by_name (names_root id roots)
  where
    by_name :
        (b : Bool)
        → outcome s.next_run (lookup id s.run_of) (if b then some false else none)
          ≡ (if b then some s.next_run else lookup id s.run_of)
    by_name true = refl
    by_name false = refl
