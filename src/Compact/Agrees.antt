-- ===== src/Compact/Agrees.antt =====
-- An index between requests: its runs hold the documents that are stored (segments.go).
use osmem.Prelude.{◌↔◌, refl, String, none, ◌≡◌, Option-cases, inl, inr}
use osmem.Prelude.Dict.{string_keys, lookup}
use osmem.Segment.Counts.{IsTidy}
use osmem.Segment.Moving.{ListsIds}
use osmem.Segment.Spec.{last_op}
use osmem.Index.{Index}
use osmem.Compact.Fitting.{IsFit}

-- The bookkeeping of the runs is right, each run lists the documents that it holds, and the documents
-- that runs hold are the stored ones.
pub record Agrees (ix : Index) : Type 0 where
  pub tidy : IsTidy ix.segments
  pub lists : ListsIds ix.segments
  pub same : (id : String) → (lookup id ix.segments.run_of ≡ none) ↔ (lookup id ix.docs ≡ none)

pub Agrees-IsFit : (ix : Index) → Agrees ix → IsFit ix
unfolding last_op
Agrees-IsFit ix a = record {
  tidy = a.tidy;
  lists = a.lists;
  queued = λ id e. absurd (cc e);
  dropped = λ id e. absurd (cc e);
  held = λ id r e free absent. cc ((a.same id).1 absent, e);
  indexed = λ id e free. (a.same id).0 e;
  empty = λ e id. refl;
}

pub IsFit-Agrees : (ix : Index) → IsFit ix → Agrees ix
unfolding last_op
IsFit-Agrees ix f = record {
  tidy = f.tidy;
  lists = f.lists;
  same = λ id. (
    λ e. f.indexed id e refl,
    λ absent. elim (Option-cases (lookup id ix.segments.run_of)) [
      | inl free ↦ free
      | inr (r, e) ↦ absurd (f.held id r e refl absent)
    ],
  );
}
