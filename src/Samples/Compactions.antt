-- ===== src/Samples/Compactions.antt =====
-- Ten documents written one by one, whose runs are then merged.
use osmem.Prelude.{
  ℕ, ◌+◌, String, false, none, some, List, [], ◌∷◌, ◌≡◌, refl, sym, ◌∙◌, arith, if◌then◌else◌, inl,
  inr, Bool-cases,
}
use osmem.Prelude.Dict.{◌==◌, string_keys, lookup, insert, lookup-insert}
use osmem.Prelude.Distinct.{holders}
use osmem.Segment.{DocBatch, puts, commit, runs_to_merge}
use osmem.Segment.Counts.{commit-IsTidy}
use osmem.Segment.Listing.{commit-ListsIds}
use osmem.Segment.Spec.{last_op, commit-owner}
use osmem.Index.{Index}
use osmem.Compact.{compact_runs}
use osmem.Compact.Under.{IsStored}
use osmem.Compact.Progress.{BuildsSome}
use osmem.Compact.Ready.{IsReady}
use osmem.Compact.Enough.{Returns, compact_runs-Returns}
use osmem.Samples.{engine, books, book}

abbrev put_of : String → DocBatch
put_of id = record { ops = puts id ∷ []; roots = record { id = id; deleted = false } ∷ [] }

abbrev written : Index → String → Index
written ix id = record ix {
  docs = insert id book ix.docs;
  segments = (commit (λ ops. none) ix.segments (put_of id)).0;
}

moved_or_not :
    (ix : Index) (id j : String)
    → lookup j (written ix id).segments.run_of
      ≡ (if id == j then some ix.segments.next_run else lookup j ix.segments.run_of)
unfolding last_op
moved_or_not ix id j =
    ground (arith, commit-owner (λ ops. none) ix.segments (put_of id) j refl refl)

written-IsReady : (ix : Index) (id : String) → IsReady ix → IsReady (written ix id)
written-IsReady ix id h = record {
  tidy = commit-IsTidy (λ ops. none) ix.segments (put_of id) h.tidy;
  lists = commit-ListsIds (λ ops. none) ix.segments (put_of id) h.tidy h.lists;
  stored = stored;
}
  where
    stored : IsStored (written ix id)
    stored j r held absent = elim (Bool-cases (id == j)) [
      | inl b ↦ ground (arith, b, sym (lookup-insert id j book ix.docs) ∙ absent)
      | inr b ↦
          h.stored j r (ground (arith, b, sym (moved_or_not ix id j) ∙ held))
            (ground (arith, b, sym (lookup-insert id j book ix.docs) ∙ absent))
    ]

abbrev all_written : Index → List String → Index
all_written ix [] = ix
all_written ix (id ∷ ids) = all_written (written ix id) ids

all_written-IsReady : (ix : Index) (ids : List String) → IsReady ix → IsReady (all_written ix ids)
all_written-IsReady ix [] h = h
all_written-IsReady ix (id ∷ ids) h =
    all_written-IsReady (written ix id) ids (written-IsReady ix id h)

pub books-IsReady : IsReady books
unfolding holders lookup
books-IsReady = record {
  tidy = record {
    counted = record {
      distinct = tt;
      live = λ r. refl;
      fresh = λ r h. refl;
      listed = λ r h. ground arith;
      old = tt;
    };
    living = tt;
  };
  lists = λ id r e. absurd (cc e);
  stored = λ id r e. absurd (cc e);
}

abbrev ten_ids : List String
ten_ids = "a" ∷ "b" ∷ "c" ∷ "d" ∷ "e" ∷ "f" ∷ "g" ∷ "h" ∷ "i" ∷ "j" ∷ []

abbrev ten_written : Index
ten_written = all_written books ten_ids

ten_grouped : runs_to_merge ten_written.segments ≡ some (0 ∷ 1 ∷ 2 ∷ 3 ∷ 4 ∷ 5 ∷ 6 ∷ 7 ∷ 8 ∷ 9 ∷ [])
unfolding runs_to_merge commit
ten_grouped = refl

engine-BuildsSome : BuildsSome engine
engine-BuildsSome infer ix d e = cc e

compact_runs-Returns_example :
    (fuel : ℕ) × ((more : ℕ)
      → Returns engine ten_written (compact_runs (more + fuel) engine ten_written))
compact_runs-Returns_example =
    compact_runs-Returns engine engine-BuildsSome ten_written
      (all_written-IsReady books ten_ids books-IsReady)
