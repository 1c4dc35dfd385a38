-- ===== src/Compact/Keeps.antt =====
-- Merging runs changes no stored document and no counter (segments.go, `mergeRuns`, `compactRuns`).
use osmem.Prelude.{
  false, ℕ, zero, suc, String, Option, none, some, List, [], ◌∷◌, ◌≡◌, refl, ◌∙◌, arith, eqb,
  eqb_iff, Bool-cases, Option-cases, inl, inr, All,
}
use osmem.Prelude.Dict.{string_keys, lookup, insert, lookup-insert}
use osmem.Error.{Error, Result-cases}
use osmem.Version.{Doc}
use osmem.Segment.{Segments, DocBatch, update, new_batch, runs_to_merge}
use osmem.Segment.Counts.{HoldsSome}
use osmem.Index.{Index, Engine, add_documents, commit_index}
use osmem.Compact.{
  Merging, MergeStep, more, stop, pin, return_commit, count_queued, reindex, merge_doc, merge_ids,
  merge_list, merge_runs, finish_merge, next_round, compact_runs, holds, after_add, after_commit,
}
use text.Mathlib.TextEquality.{eq_iff}
use osmem.Index.Keeps.{Keeps, Keeps-refl, Keeps-trans, commit_index-Keeps, add_documents-Keeps}

All-HoldsSome_pinned :
    (s t : Segments) (rs : List ℕ)
    → ((q : ℕ) → (t.run_at q).live ≡ (s.run_at q).live)
    → All (HoldsSome s) rs
    → All (HoldsSome t) rs
All-HoldsSome_pinned s t [] same a = tt
All-HoldsSome_pinned s t (r ∷ rs) same a =
    (omega (arith, same r, a.0), All-HoldsSome_pinned s t rs same a.1)

pin-live :
    (ix : Index) (r q : ℕ) → ((pin ix r).segments.run_at q).live ≡ (ix.segments.run_at q).live
unfolding pin update
pin-live ix r q = ground (arith, eqb_iff r q)

pub pin-Keeps : (ix : Index) (r : ℕ) → Keeps ix (pin ix r)
pin-Keeps ix r =
    unfold pin in
    record {
      docs = λ id. refl;
      seq_no = refl;
      handle = refl;
      gc_deletes = refl;
      uuid = refl;
      name = refl;
      shard_settings = refl;
      mapping = refl;
      copies = refl;
      mapping_gen = refl;
      tidy = λ t. record {
        counted = record {
          distinct = t.counted.distinct;
          live = λ q. pin-live ix r q ∙ t.counted.live q;
          fresh = t.counted.fresh;
          listed = t.counted.listed;
          old = t.counted.old;
        };
        living =
            All-HoldsSome_pinned ix.segments (pin ix r).segments ix.segments.runs (pin-live ix r)
              t.living;
      };
    }

-- The index of a step of the loops is the one before, kept.
abbrev KeepsStep : Index → MergeStep → Type 0
KeepsStep ix (more m) = Keeps ix m.index
KeepsStep ix (stop jx x) = Keeps ix jx

KeepsStep-trans : {ix jx : Index} (s : MergeStep) → Keeps ix jx → KeepsStep jx s → KeepsStep ix s
KeepsStep-trans (more m) a b = Keeps-trans a b
KeepsStep-trans (stop jx x) a b = Keeps-trans a b

after_commit-Keeps :
    (ix : Index) (r : Index × Option Error) → Keeps ix r.0 → KeepsStep ix (after_commit r)
after_commit-Keeps ix (jx, some x) k = k
after_commit-Keeps ix (jx, none) k = k

count_queued-Keeps :
    (e : Engine) (ix : Index) (b : DocBatch) (n : ℕ) → KeepsStep ix (count_queued e ix b n)
unfolding count_queued
count_queued-Keeps e ix b n = elim (Bool-cases (eqb (suc n) 1000)) [
  | inl c ↦ rw c (after_commit-Keeps ix (commit_index e ix b) (commit_index-Keeps e ix b))
  | inr c ↦ rw c (Keeps-refl ix)
]

after_add-Keeps :
    (e : Engine) (n : ℕ) (ix : Index) (r : Index × DocBatch × Option Error)
    → Keeps ix r.0
    → KeepsStep ix (after_add e n r)
after_add-Keeps e n ix (jx, b, some x) k = k
after_add-Keeps e n ix (jx, b, none) k =
    KeepsStep-trans (count_queued e jx b n) k (count_queued-Keeps e jx b n)

-- Storing the copy of a document changes no lookup.
pub restore-Keeps :
    (ix : Index) (id : String) (d : Doc)
    → lookup id ix.docs ≡ some d
    → Keeps ix (record ix { docs = insert id d ix.docs })
restore-Keeps ix id d e = record {
  docs = λ j. ground (arith, lookup-insert id j d ix.docs, eq_iff id j);
  seq_no = refl;
  handle = refl;
  gc_deletes = refl;
  uuid = refl;
  name = refl;
  shard_settings = refl;
  mapping = refl;
  copies = refl;
  mapping_gen = refl;
  tidy = λ t. t;
}

reindex-Keeps :
    (e : Engine) (m : Merging) (r : ℕ) (id : String) (d : Doc)
    → lookup id m.index.docs ≡ some d
    → KeepsStep m.index (reindex e m r id d)
unfolding reindex return_commit
reindex-Keeps e m r id d found = elim (Result-cases (e.build_document false m.index d)) [
  | inl (bds, b) ↦
      let ix = record m.index { docs = insert id d m.index.docs } in
      rw (b, KeepsStep)
        (KeepsStep-trans (after_add e m.queued (add_documents e ix m.batch id bds))
          (restore-Keeps m.index id d found)
          (after_add-Keeps e m.queued ix (add_documents e ix m.batch id bds)
            (add_documents-Keeps e ix m.batch id bds)))
  | inr (x, b) ↦
      rw (b, KeepsStep)
        (Keeps-trans (pin-Keeps m.index r) (commit_index-Keeps e (pin m.index r) m.batch))
]

merge_doc-Keeps :
    (e : Engine) (m : Merging) (r : ℕ) (id : String) → KeepsStep m.index (merge_doc e m r id)
unfolding merge_doc
merge_doc-Keeps e m r id = elim (Option-cases (lookup id m.index.docs)) [
  | inl n ↦ rw (n, KeepsStep) (Keeps-refl m.index)
  | inr (d, f) ↦ elim (Bool-cases (holds (lookup id m.index.segments.run_of) r)) [
    | inl c ↦ rw (f, KeepsStep, c) (reindex-Keeps e m r id d f)
    | inr c ↦ rw (f, KeepsStep, c) (Keeps-refl m.index)
  ]
]

-- A step that goes on is followed by the rest of the loop.
then-Keeps :
    (ix : Index) (s : MergeStep) (rest : Merging → MergeStep)
    → KeepsStep ix s
    → ((m : Merging) → KeepsStep m.index (rest m))
    → KeepsStep ix (elim s [ stop jx x ↦ stop jx x | more m ↦ rest m ])
then-Keeps ix (more m) rest k later = KeepsStep-trans (rest m) k (later m)
then-Keeps ix (stop jx x) rest k later = k

merge_ids-Keeps :
    (e : Engine) (r : ℕ) (ids : List String) (m : Merging) → KeepsStep m.index (merge_ids e r ids m)
unfolding merge_ids
merge_ids-Keeps e r [] m = Keeps-refl m.index
merge_ids-Keeps e r (id ∷ ids) m =
    then-Keeps m.index (merge_doc e m r id) (merge_ids e r ids) (merge_doc-Keeps e m r id)
      (merge_ids-Keeps e r ids)

merge_list-Keeps : (e : Engine) (rs : List ℕ) (m : Merging) → KeepsStep m.index (merge_list e rs m)
unfolding merge_list
merge_list-Keeps e [] m = Keeps-refl m.index
merge_list-Keeps e (r ∷ rs) m =
    then-Keeps m.index (merge_ids e r (m.index.segments.run_at r).ids m) (merge_list e rs)
      (merge_ids-Keeps e r (m.index.segments.run_at r).ids m) (merge_list-Keeps e rs)

finish_merge-Keeps :
    (e : Engine) (ix : Index) (s : MergeStep) → KeepsStep ix s → Keeps ix (finish_merge e s).0
finish_merge-Keeps e ix (stop jx x) k = k
finish_merge-Keeps e ix (more m) k = Keeps-trans k (commit_index-Keeps e m.index m.batch)

pub merge_runs-Keeps : (e : Engine) (ix : Index) (runs : List ℕ) → Keeps ix (merge_runs e ix runs).0
unfolding merge_runs
merge_runs-Keeps e ix runs =
    finish_merge-Keeps e ix
      (merge_list e runs (record { index = ix; batch = new_batch; queued = 0 }))
      (merge_list-Keeps e runs (record { index = ix; batch = new_batch; queued = 0 }))

next_round-Keeps :
    (ix : Index) (again : Index → Index × Option Error) (r : Index × Option Error)
    → Keeps ix r.0
    → ((jx : Index) → Keeps jx (again jx).0)
    → Keeps ix (next_round again r).0
next_round-Keeps ix again (jx, some x) k later = k
next_round-Keeps ix again (jx, none) k later = Keeps-trans k (later jx)

-- However far a compaction comes, and whether or not it fails, every document is stored as before;
-- the index keeps its sequence number, its count of copies, its mapping and the mapping's generation,
-- its name, identity and settings; and the bookkeeping of the runs stays right if it was.
pub compact_runs-Keeps : (fuel : ℕ) (e : Engine) (ix : Index) → Keeps ix (compact_runs fuel e ix).0
unfolding compact_runs
compact_runs-Keeps zero e ix = Keeps-refl ix
compact_runs-Keeps (suc fuel) e ix = elim (Option-cases (runs_to_merge ix.segments)) [
  | inl n ↦ rw (n, compact_runs) (Keeps-refl ix)
  | inr (g, f) ↦
      rw (f, compact_runs)
        (next_round-Keeps ix (compact_runs fuel e) (merge_runs e ix g) (merge_runs-Keeps e ix g)
          (compact_runs-Keeps fuel e))
]
