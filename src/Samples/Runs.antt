-- ===== src/Samples/Runs.antt =====
-- Runs to merge, and what the theorems say of them.
use osmem.Prelude.{ℕ, zero, suc, String, true, false, none, some, List, [], ◌∷◌, ◌≡◌, refl, arith}
use osmem.Prelude.Int.{pos}
use osmem.Prelude.Dict.{string_keys, nat_keys, lookup, Dict}
use osmem.Prelude.Distinct.{holders}
use osmem.Version.{Doc}
use osmem.Segment.{Segments, DocBatch, puts, deletes, commit, runs_to_merge}
use osmem.Segment.Spec.{commit-owner, outcome, last_op}
use osmem.Segment.Counts.{IsTidy, commit-IsTidy}
use osmem.Index.{Index}
use osmem.Compact.{compact_runs}
use osmem.Index.Keeps.{Keeps}
use osmem.Compact.Keeps.{compact_runs-Keeps}
use osmem.Samples.{engine, no_segments, books}

abbrev ids : List String
ids = "a" ∷ "b" ∷ "c" ∷ "d" ∷ "e" ∷ "f" ∷ "g" ∷ "h" ∷ "i" ∷ "j" ∷ []

abbrev addresses : List ℕ
addresses = 0 ∷ 1 ∷ 2 ∷ 3 ∷ 4 ∷ 5 ∷ 6 ∷ 7 ∷ 8 ∷ 9 ∷ []

abbrev owners : List String → ℕ → Dict String ℕ
owners [] n = []
owners (id ∷ more) n = (id, n) ∷ owners more (suc n)

abbrev documents : List String → ℕ → Dict String Doc
documents [] n = []
documents (id ∷ more) n =
    (
      id,
      record {
        id = id;
        source = "{}";
        version = pos 1;
        seq_no = pos n;
        primary_term = pos 1;
        routing = "";
      },
    )
    ∷ documents more (suc n)

abbrev nth : List String → ℕ → List String
nth [] n = []
nth (id ∷ more) zero = id ∷ []
nth (id ∷ more) (suc n) = nth more n

-- Ten runs of one document each.
abbrev ten_runs : Segments
ten_runs = record {
  runs = addresses;
  run_of = owners ids 0;
  run_at = λ r. record { ids = nth ids r; live = 1; gen = 0; pinned = false };
  next_run = 10;
  mapping_gen = 0;
}

abbrev crowded : Index
crowded = record books { docs = documents ids 0; seq_no = pos 9; segments = ten_runs }

-- A batch that puts one document twice and deletes another.
abbrev batch : DocBatch
batch = record {
  ops = puts "a" ∷ puts "a" ∷ deletes "b" ∷ [];
  roots =
      record { id = "a"; deleted = false }
      ∷ record { id = "a"; deleted = false }
      ∷ record { id = "b"; deleted = true }
      ∷ [];
}

all_ten : runs_to_merge ten_runs ≡ some addresses
unfolding runs_to_merge
all_ten = refl

nine_stay : runs_to_merge (record ten_runs { runs = 0 ∷ 1 ∷ 2 ∷ 3 ∷ 4 ∷ 5 ∷ 6 ∷ 7 ∷ 8 ∷ [] }) ≡ none
unfolding runs_to_merge
nine_stay = refl

nothing-IsTidy : IsTidy no_segments
unfolding holders
nothing-IsTidy = record {
  counted = record {
    distinct = tt;
    live = λ r. refl;
    fresh = λ r h. refl;
    listed = λ r h. ground arith;
    old = tt;
  };
  living = tt;
}

abbrev first_batch : DocBatch
first_batch = record {
  ops = puts "a" ∷ puts "b" ∷ [];
  roots = record { id = "a"; deleted = false } ∷ record { id = "b"; deleted = false } ∷ [];
}

one_run-IsTidy : IsTidy (commit (λ ops. none) no_segments first_batch).0
one_run-IsTidy = commit-IsTidy (λ ops. none) no_segments first_batch nothing-IsTidy

commit-IsTidy_example :
    IsTidy (commit (λ ops. none) (commit (λ ops. none) no_segments first_batch).0 batch).0
commit-IsTidy_example =
    commit-IsTidy (λ ops. none) (commit (λ ops. none) no_segments first_batch).0 batch
      one_run-IsTidy

commit-owner_example :
    lookup "b" (commit (λ ops. none) ten_runs batch).0.run_of
    ≡ outcome 10 (lookup "b" ten_runs.run_of) (last_op "b" batch.roots)
commit-owner_example = commit-owner (λ ops. none) ten_runs batch "b" refl refl

compact_runs-Keeps_example : Keeps crowded (compact_runs 3 engine crowded).0
compact_runs-Keeps_example = compact_runs-Keeps 3 engine crowded
