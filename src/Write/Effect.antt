-- ===== src/Write/Effect.antt =====
-- What a successful `putDoc` has changed, and what not (docs.go).
use osmem.Prelude.{
  ℕ, String, Bool, false, none, some, ◌≡◌, refl, sym, subst, ◌∙◌, ap, ap₂, arith, if◌then◌else◌,
  eqb_iff,
}
use osmem.Prelude.Int.{inc64}
use osmem.Prelude.Dict.{◌==◌, string_keys, lookup, lookup-insert}
use osmem.Error.{ok}
use osmem.Version.{Doc, DocParams}
use osmem.Segment.Counts.{IsTidy}
use osmem.Index.{Index, Engine}
use osmem.Tombstone.{Registry}
use osmem.Tombstone.Tx.{DocTx, tombstone, raw_tombstone, clear_tombstone}
use osmem.Tombstone.View.{raw_tombstone-clear}
use osmem.Write.{State, Current, current_version, new_doc, put_doc, put_error, inferred}
use osmem.Write.Path.{PutPath, PutDone, planned, put_doc-PutDone}

pub tombstone-same :
    (reg : Registry) (tx : DocTx) (ix jx : Index) (id : String)
    → jx.handle ≡ ix.handle
    → jx.gc_deletes ≡ ix.gc_deletes
    → tombstone reg tx jx id ≡ tombstone reg tx ix id
unfolding tombstone raw_tombstone
tombstone-same reg tx ix jx id h g = rw (h, g)

pub tombstone-clear :
    (reg : Registry) (tx : DocTx) (ix : Index) (id j : String)
    → tombstone reg (clear_tombstone tx ix id) ix j
      ≡ (if id == j then none else tombstone reg tx ix j)
unfolding tombstone clear_tombstone
tombstone-clear reg tx ix id j =
    ground (arith, raw_tombstone-clear reg tx ix ix id j, eqb_iff ix.handle ix.handle)

-- What a request sees of a document: `current_version` as an abstract state, by id.
abbrev pub View : Type 0
View = String → Current

abbrev pub view : Registry → State → View
view reg s j = current_version reg s.index s.tx j

abbrev pub live : Doc → Current
live d = record { existing = some d; version = d.version; deleted = false }

-- The index and the transaction after the document `d` of the request was stored.
pub record PutEffect (e : Engine) (reg : Registry) (s : State) (id source : String) (dp : DocParams)
    (d : Doc) (new : State) : Type 0 where
  pub doc_id : d.id ≡ id
  pub doc_source : d.source ≡ source
  pub doc_routing : d.routing ≡ dp.routing
  pub view_after : (j : String) → view reg new j ≡ (if id == j then live d else view reg s j)
  pub tombstone_after :
      (j : String)
      → tombstone reg new.tx new.index j ≡ (if id == j then none else tombstone reg s.tx s.index j)
  pub mapping_after : new.index.mapping ≡ e.infer_mapping s.index (new_doc s.index id source dp)
  pub next_seq_no : new.index.seq_no ≡ inc64 s.index.seq_no
  pub doc_seq_no : d.seq_no ≡ new.index.seq_no
  pub docs_after :
      (j : String) → lookup j new.index.docs ≡ (if id == j then some d else lookup j s.index.docs)
  pub same_handle : new.index.handle ≡ s.index.handle
  pub tidy : IsTidy s.index.segments → IsTidy new.index.segments

-- The state with another mapping.
abbrev mapped : State → String → State
mapped s m = record s { index = record s.index { mapping = m } }

path-docs :
    (e : Engine) (s : State) (m id : String) (d : Doc) (new : State)
    (p : PutPath e (mapped s m) id d new) (j : String)
    → lookup j new.index.docs ≡ (if id == j then some d else lookup j s.index.docs)
path-docs e s m id d new p j =
    ap (λ (x : Index). lookup j x.docs) p.index
    ∙ p.compacted.docs j
    ∙ lookup-insert id j d p.before.docs
    ∙ ap (λ o. if id == j then some d else o) (p.prepared.docs j)

path-tombstone :
    (e : Engine) (reg : Registry) (s : State) (m id : String) (d : Doc) (new : State)
    (p : PutPath e (mapped s m) id d new) (j : String)
    → tombstone reg new.tx new.index j ≡ (if id == j then none else tombstone reg s.tx s.index j)
path-tombstone e reg s m id d new p j =
    ap₂ (λ tx ix. tombstone reg tx ix j) p.tx p.index
    ∙ tombstone-clear reg s.tx p.after id j
    ∙ ap (λ o. if id == j then none else o)
        (tombstone-same reg s.tx s.index p.after j (p.compacted.handle ∙ p.prepared.handle)
          (p.compacted.gc_deletes ∙ p.prepared.gc_deletes))

-- The document of a request but for its version.
abbrev Written : State → String → String → DocParams → Doc → Type 0
Written s id source dp d =
    (d.id ≡ id) × (d.source ≡ source) × (d.routing ≡ dp.routing) × (d.seq_no ≡ inc64 s.index.seq_no)

path-PutEffect :
    (e : Engine) (reg : Registry) (s : State) (m id source : String) (dp : DocParams) (d : Doc)
    (new : State)
    → PutPath e (mapped s m) id d new
    → m ≡ e.infer_mapping s.index (new_doc s.index id source dp)
    → Written s id source dp d
    → PutEffect e reg s id source dp d new
path-PutEffect e reg s m id source dp d new p same_mapping
      (same_id, same_source, same_routing, seq) =
    record {
      doc_id = same_id;
      doc_source = same_source;
      doc_routing = same_routing;
      view_after = λ j.
          unfold current_version in
          ground (arith, path-docs e s m id d new p j, path-tombstone e reg s m id d new p j);
      mapping_after =
          ap (λ (x : Index). x.mapping) p.index
          ∙ p.compacted.mapping
          ∙ p.prepared.mapping
          ∙ same_mapping;
      tombstone_after = path-tombstone e reg s m id d new p;
      next_seq_no = ap (λ (x : Index). x.seq_no) p.index ∙ p.compacted.seq_no ∙ seq;
      doc_seq_no = sym (ap (λ (x : Index). x.seq_no) p.index ∙ p.compacted.seq_no);
      docs_after = path-docs e s m id d new p;
      same_handle = ap (λ (x : Index). x.handle) p.index ∙ p.compacted.handle ∙ p.prepared.handle;
      tidy = λ t.
          subst (λ (x : Index). IsTidy x.segments) (sym p.index)
            (p.compacted.tidy (p.prepared.tidy t));
    }

-- A put that succeeds.
module _ (fuel : ℕ) (e : Engine) (reg : Registry) (s new : State) (id source : String)
    (dp : DocParams) (auto_id created : Bool) (d : Doc)
    (done : put_doc fuel e reg s id source dp auto_id ≡ (new, ok (d, created))) where
  facts :
      PutDone e
        (inferred e s (new_doc s.index id source dp))
        id
        (new_doc s.index id source dp)
        dp
        (view reg s id)
        auto_id
        (new, ok (d, created))
  facts =
      subst
        (PutDone e (inferred e s (new_doc s.index id source dp)) id (new_doc s.index id source dp)
          dp (view reg s id) auto_id)
        done (put_doc-PutDone fuel e s id reg source dp auto_id)

  pub put_doc-stored : d ≡ planned (new_doc s.index id source dp) dp (view reg s id) auto_id
  put_doc-stored = facts.0.1

  pub put_doc-unrefused : put_error s.index id dp (view reg s id) auto_id ≡ none
  put_doc-unrefused = facts.1

  -- A put that succeeds takes the next sequence number and gives it to a document with the id, the
  -- source and the routing of the request. That document is then stored under its id and is what
  -- the request sees there, with no tombstone of the id left; every other document and tombstone is
  -- as before. The mapping is the one inferred from the document of the request, the runs stay in
  -- order, and the index keeps its handle.
  pub put_doc-PutEffect : PutEffect e reg s id source dp d new
  put_doc-PutEffect =
      path-PutEffect e reg s (e.infer_mapping s.index (new_doc s.index id source dp)) id source dp d
        new
        (subst (λ k. PutPath e (inferred e s (new_doc s.index id source dp)) id k new)
          (sym put_doc-stored) facts.0.0)
        refl (subst (Written s id source dp) (sym put_doc-stored) (refl, refl, refl, refl))
