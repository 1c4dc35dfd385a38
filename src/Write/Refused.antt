-- ===== src/Write/Refused.antt =====
-- A put of a bulk request that fails (docs.go, `putDocFrom`, and index.go, `addDocuments`).
use osmem.Prelude.{
  ℕ, String, Bool, true, Option, none, some, List, ◌≡◌, refl, subst, inl, inr, Option-cases,
}
use osmem.Error.{Error, Result, ok, err, Result-cases}
use osmem.Version.{Doc, DocParams}
use osmem.Segment.{DocBatch}
use osmem.Index.{Index, Engine, add_documents, finish_add, queue_documents, delete_children}
use osmem.Tombstone.{Registry}
use osmem.Tombstone.Tx.{DocTx}
use osmem.Write.{
  State, Current, put_doc, put_planned, put_error, put_version, new_doc, is_none, after_put_add,
  commit_unless_batched, compact_unless_batched, current_version, inferred,
}

-- The index but for its mapping.
abbrev pub SameButMapping : Index → Index → Type 0
SameButMapping ix jx = jx ≡ record ix { mapping = jx.mapping }

-- A result that is an error leaves the index but for its mapping, and the transaction.
abbrev Untouched : Index → DocTx → State × Result (Doc × Bool) → Type 0
Untouched ix tx (new, ok d) = Unit
Untouched ix tx (new, err x) = SameButMapping ix new.index × (new.tx ≡ tx)

-- The state of a write in a bulk request with the batch `b`.
abbrev pub in_batch : Index → DocTx → DocBatch → State
in_batch ix tx b = record { index = ix; tx = tx; batch = some b }

module _ (fuel : ℕ) (e : Engine) (ix : Index) (tx : DocTx) (b : DocBatch) (id : String) where
  -- The state with another mapping.
  abbrev mapped : String → State
  mapped m = in_batch (record ix { mapping = m }) tx b

  finish_add-Untouched :
      (m : String) (d : Doc) (created : Bool) (bds : List String) (q : DocBatch × Option Error)
      → Untouched ix tx
          (after_put_add fuel e (mapped m) id d created (finish_add (mapped m).index id bds q))
  unfolding commit_unless_batched compact_unless_batched
  finish_add-Untouched m d created bds (c, none) = tt
  finish_add-Untouched m d created bds (c, some x) = (refl, refl)

  add_documents-Untouched :
      (m : String) (d : Doc) (created : Bool) (bds : List String)
      → Untouched ix tx
          (after_put_add fuel e (mapped m) id d created (add_documents e (mapped m).index b id bds))
  unfolding add_documents
  add_documents-Untouched m d created bds =
      finish_add-Untouched m d created bds
        (queue_documents e bds (delete_children (mapped m).index id b))

  put_planned-Untouched :
      (m : String) (d : Doc) (dp : DocParams) (c : Current) (auto_id : Bool) (bds : List String)
      → Untouched ix tx (put_planned fuel e (mapped m) id d dp c auto_id bds)
  unfolding put_planned
  put_planned-Untouched m d dp c auto_id bds =
      elim (Option-cases (put_error (mapped m).index id dp c auto_id)) [
        | inl free ↦
            rw (free, put_planned)
              (add_documents-Untouched m (record d { version = put_version dp c.version auto_id })
                (is_none c.existing) bds)
        | inr (x, refused) ↦ rw (refused, put_planned) (refl, refl)
      ]

  put_doc-Untouched :
      (reg : Registry) (source : String) (dp : DocParams) (auto_id : Bool)
      → Untouched ix tx (put_doc fuel e reg (in_batch ix tx b) id source dp auto_id)
  unfolding put_doc
  put_doc-Untouched reg source dp auto_id =
      let d = new_doc ix id source dp in
      let t = inferred e (in_batch ix tx b) d in
      elim (Result-cases (e.build_document true ix d)) [
        | inl (bds, built) ↦
            rw (built, put_doc)
              (put_planned-Untouched t.index.mapping d dp (current_version reg t.index t.tx id)
                auto_id bds)
        | inr (x, refused) ↦ rw (refused, put_doc) (refl, refl)
      ]

  -- A put of a bulk request that fails, at whatever point, has changed nothing of the index but its
  -- mapping, and no pending tombstone. Neither bleve nor the parser is assumed to succeed.
  pub put_doc-SameButMapping :
      (reg : Registry) (source : String) (dp : DocParams) (auto_id : Bool) (new : State) (x : Error)
      → put_doc fuel e reg (in_batch ix tx b) id source dp auto_id ≡ (new, err x)
      → SameButMapping ix new.index × (new.tx ≡ tx)
  put_doc-SameButMapping reg source dp auto_id new x failed =
      subst (Untouched ix tx) failed (put_doc-Untouched reg source dp auto_id)
