-- ===== src/Cluster/Documents.antt =====
-- The copy of an index holds the same documents (index.go, `copyIndex`, `rebuild`).
use osmem.Prelude.{
  false, ℕ, suc, String, Option, none, some, [], ◌∷◌, ◌≡◌, ◌∙◌, inl, inr, Bool-cases, arith, All,
  ◌%◌, eqb,
}
use osmem.Prelude.Dict.{Dict, string_keys, lookup, insert}
use osmem.Prelude.Distinct.{Distinct}
use osmem.Error.{Error, Result-cases}
use osmem.Version.{Doc}
use osmem.Segment.{DocBatch, new_batch}
use osmem.Index.{Index, Engine, add_documents, commit_index}
use osmem.Index.Keeps.{Keeps, Keeps-refl, Keeps-trans, add_documents-Keeps, commit_index-Keeps}
use osmem.Compact.Keeps.{restore-Keeps}
use osmem.Compact.{reindex_batch_docs}
use osmem.Cluster.Copy.{
  Rebuilding, RebuildStep, next_doc, failed, after_batch, count_doc, after_queue, rebuild_doc,
  rebuild_docs, finish_rebuild, rebuild,
}
use text.Mathlib.TextEquality.{eq_iff}

abbrev step_index : RebuildStep → Index
step_index (next_doc r) = r.index
step_index (failed ix x) = ix

after_batch-Keeps :
    (ix : Index) (count : ℕ) (r : Index × Option Error)
    → Keeps ix r.0
    → Keeps ix (step_index (after_batch count r))
after_batch-Keeps ix count (jx, some x) k = k
after_batch-Keeps ix count (jx, none) k = k

count_doc-Keeps :
    (e : Engine) (ix : Index) (b : DocBatch) (count : ℕ)
    → Keeps ix (step_index (count_doc e ix b count))
unfolding count_doc
count_doc-Keeps e ix b count = elim (Bool-cases (eqb (suc count % reindex_batch_docs) 0)) [
  | inl q ↦
      rw q (after_batch-Keeps ix (suc count) (commit_index e ix b) (commit_index-Keeps e ix b))
  | inr q ↦ rw q (Keeps-refl ix)
]

after_queue-Keeps :
    (e : Engine) (ix : Index) (count : ℕ) (r : Index × DocBatch × Option Error)
    → Keeps ix r.0
    → Keeps ix (step_index (after_queue e count r))
after_queue-Keeps e ix count (jx, b, some x) k = k
after_queue-Keeps e ix count (jx, b, none) k = Keeps-trans k (count_doc-Keeps e jx b count)

rebuild_doc-Keeps :
    (e : Engine) (r : Rebuilding) (id : String) (d : Doc)
    → lookup id r.index.docs ≡ some d
    → Keeps r.index (step_index (rebuild_doc e r id d))
unfolding rebuild_doc
rebuild_doc-Keeps e r id d there = elim (Result-cases (e.build_document false r.index d)) [
  | inr (x, q) ↦ rw (q, step_index) (Keeps-refl r.index)
  | inl (bds, q) ↦
      let again = record r.index { docs = insert id d r.index.docs } in
      rw (q, step_index)
        (Keeps-trans (restore-Keeps r.index id d there) (
          after_queue-Keeps e again r.count (add_documents e again r.batch id bds)
            (add_documents-Keeps e again r.batch id bds)))
]

abbrev Stored : Dict String Doc → String × Doc → Type 0
Stored docs entry = lookup entry.0 docs ≡ some entry.1

All-Stored :
    (ix jx : Index) (docs : Dict String Doc)
    → Keeps ix jx
    → All (Stored ix.docs) docs
    → All (Stored jx.docs) docs
All-Stored ix jx [] k a = tt
All-Stored ix jx (entry ∷ docs) k a = (k.docs entry.0 ∙ a.0, All-Stored ix jx docs k a.1)

rebuild_docs-next :
    (e : Engine) (docs : Dict String Doc) (s : RebuildStep) (ix : Index)
    → Keeps ix (step_index s)
    → ((r : Rebuilding) → Keeps ix r.index → Keeps ix (step_index (rebuild_docs e docs r)))
    → Keeps ix
        (step_index (elim s [ failed jx x ↦ failed jx x | next_doc r ↦ rebuild_docs e docs r ]))
rebuild_docs-next e docs (failed jx x) ix k later = k
rebuild_docs-next e docs (next_doc r) ix k later = later r k

rebuild_docs-Keeps :
    (e : Engine) (docs : Dict String Doc) (r : Rebuilding)
    → All (Stored r.index.docs) docs
    → Keeps r.index (step_index (rebuild_docs e docs r))
unfolding rebuild_docs
rebuild_docs-Keeps e [] r a = Keeps-refl r.index
rebuild_docs-Keeps e (entry ∷ docs) r a =
    rebuild_docs-next e docs (rebuild_doc e r entry.0 entry.1) r.index
      (rebuild_doc-Keeps e r entry.0 entry.1 a.0)
      (λ q k. Keeps-trans k (rebuild_docs-Keeps e docs q (All-Stored r.index q.index docs k a.1)))

finish-Keeps :
    (e : Engine) (ix : Index) (s : RebuildStep)
    → Keeps ix (step_index s)
    → Keeps ix (finish_rebuild e s).0
finish-Keeps e ix (failed jx x) k = k
finish-Keeps e ix (next_doc r) k = Keeps-trans k (commit_index-Keeps e r.index r.batch)

All-later :
    (k : String) (v : Doc) (m docs : Dict String Doc)
    → lookup k m ≡ none
    → All (Stored m) docs
    → All (Stored ((k, v) ∷ m)) docs
unfolding lookup
All-later k v m [] e a = tt
All-later k v m (entry ∷ docs) e a =
    (ground (arith, a.0, eq_iff k entry.0), All-later k v m docs e a.1)

Distinct-Stored : (m : Dict String Doc) → Distinct m → All (Stored m) m
unfolding lookup
Distinct-Stored [] d = tt
Distinct-Stored ((k, v) ∷ m) d =
    (ground (arith, eq_iff k k), All-later k v m m d.0 (Distinct-Stored m d.1))

-- A rebuild, whether it succeeds or fails, keeps every stored document and every counter, and the
-- bookkeeping of the runs stays right, if no id is stored twice.
pub rebuild-Keeps : (e : Engine) (ix : Index) → Distinct ix.docs → Keeps ix (rebuild e ix).0
unfolding rebuild
rebuild-Keeps e ix d =
    let start : Rebuilding = record { index = ix; batch = new_batch; count = 0 } in
    finish-Keeps e ix (rebuild_docs e ix.docs start)
      (rebuild_docs-Keeps e ix.docs start (Distinct-Stored ix.docs d))
