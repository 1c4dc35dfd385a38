-- ===== src/Compact/Settles.antt =====
-- The rounds of `compactRuns` (segments.go).
use osmem.Prelude.{ℕ, suc, none, some, List, ◌≡◌}
use osmem.Segment.{runs_to_merge}
use osmem.Index.{Index, Engine}
use osmem.Compact.{compact_runs, merge_runs, next_round}

pub compact_runs-done :
    (fuel : ℕ) (e : Engine) (ix : Index)
    → runs_to_merge ix.segments ≡ none
    → compact_runs (suc fuel) e ix ≡ (ix, none)
unfolding compact_runs
compact_runs-done fuel e ix n = rw (n, compact_runs)

pub compact_runs-round :
    (fuel : ℕ) (e : Engine) (ix : Index) (g : List ℕ)
    → runs_to_merge ix.segments ≡ some g
    → compact_runs (suc fuel) e ix ≡ next_round (compact_runs fuel e) (merge_runs e ix g)
unfolding compact_runs
compact_runs-round fuel e ix g f = rw (f, compact_runs)
