-- ===== src/Samples/Stuck.antt =====
-- Ten runs each hold one document that is no longer stored, as after bulk deletes whose flush bleve
-- refused: a merge changes nothing, and the compaction does not return (segments.go, `compactRuns`).
use osmem.Prelude.{ℕ, zero, suc, String, false, none, some, List, [], ◌∷◌, ◌≡◌, refl, ◌∙◌, ap}
use osmem.Prelude.Dict.{string_keys, lookup}
use osmem.Error.{out_of_fuel}
use osmem.Segment.{runs_to_merge, commit}
use osmem.Index.{Index, commit_index}
use osmem.Compact.{compact_runs, merge_runs, next_round}
use osmem.Compact.Settles.{compact_runs-round}
use osmem.Samples.{engine, books}

abbrev ten : List ℕ
ten = 0 ∷ 1 ∷ 2 ∷ 3 ∷ 4 ∷ 5 ∷ 6 ∷ 7 ∷ 8 ∷ 9 ∷ []

abbrev ten_ids : List String
ten_ids = "a" ∷ "b" ∷ "c" ∷ "d" ∷ "e" ∷ "f" ∷ "g" ∷ "h" ∷ "i" ∷ "j" ∷ []

abbrev left_behind : Index
left_behind = record books {
  segments = record {
    runs = ten;
    run_of =
        ("a", 0)
        ∷ ("b", 1)
        ∷ ("c", 2)
        ∷ ("d", 3)
        ∷ ("e", 4)
        ∷ ("f", 5)
        ∷ ("g", 6)
        ∷ ("h", 7)
        ∷ ("i", 8)
        ∷ ("j", 9)
        ∷ [];
    run_at = λ r. record { ids = ten_ids; live = 1; gen = 0; pinned = false };
    next_run = 10;
    mapping_gen = 0;
  };
}

grouped : runs_to_merge left_behind.segments ≡ some ten
unfolding runs_to_merge
grouped = refl

unmoved : merge_runs engine left_behind ten ≡ (left_behind, none)
unfolding merge_runs lookup commit_index commit
unmoved = refl

never_ends : (fuel : ℕ) → (compact_runs fuel engine left_behind).1 ≡ some out_of_fuel
never_ends zero = unfold compact_runs in refl
never_ends (suc fuel) =
    ap (λ r. r.1)
      (compact_runs-round fuel engine left_behind ten grouped
        ∙ ap (next_round (compact_runs fuel engine)) unmoved)
    ∙ never_ends fuel
