-- ===== src/Write/Path.antt =====
-- The one path on which `putDoc` succeeds (docs.go).
use osmem.Prelude.{
  refl, true, ℕ, String, Bool, Option, none, some, List, ◌≡◌, refl, sym, subst, ap, inl, inr,
  Option-cases,
}
use osmem.Prelude.Dict.{string_keys}
use osmem.Error.{Error, Result, ok, err, Result-cases}
use osmem.Version.{Doc, DocParams}
use osmem.Segment.{DocBatch}
use osmem.Index.{Index, Engine, add_documents}
use osmem.Index.Keeps.{Keeps, Keeps-refl, Keeps-trans, add_documents-Keeps, commit_index-Keeps}
use osmem.Compact.Keeps.{compact_runs-Keeps}
use osmem.Tombstone.{Registry}
use osmem.Tombstone.Tx.{tombstone, raw_tombstone, clear_tombstone}
use osmem.Write.{
  State, Current, current_version, or_new, is_none, queue_kept, commit_unless_batched,
  compact_unless_batched, end_put, store, after_put_commit, after_put_add, put_version, new_doc,
  put_error, put_planned, put_doc, inferred, current_version, new_doc,
}

-- What a successful put has done: the index went through `before`, with the document's bleve part
-- queued or committed, to `after`, compacted.
pub record PutPath (e : Engine) (s : State) (id : String) (d : Doc) (new : State) : Type 0 where
  pub before : Index
  pub after : Index
  pub prepared : Keeps s.index before
  pub compacted : Keeps (store before id d) after
  pub index : new.index ≡ after
  pub tx : new.tx ≡ clear_tombstone s.tx after id

pub commit_unless_batched-Keeps :
    (e : Engine) (o : Option DocBatch) (ix : Index) (b : DocBatch)
    → Keeps ix (commit_unless_batched e o ix b).0
unfolding commit_unless_batched
commit_unless_batched-Keeps e none ix b = commit_index-Keeps e ix b
commit_unless_batched-Keeps e (some old) ix b = Keeps-refl ix

pub compact_unless_batched-Keeps :
    (fuel : ℕ) (e : Engine) (o : Option DocBatch) (ix : Index)
    → Keeps ix (compact_unless_batched fuel e o ix).0
unfolding compact_unless_batched
compact_unless_batched-Keeps fuel e none ix = compact_runs-Keeps fuel e ix
compact_unless_batched-Keeps fuel e (some old) ix = Keeps-refl ix

-- The result of a put: an error, or the document on its path.
abbrev pub PutOk : Engine → State → String → Doc → Bool → State × Result (Doc × Bool) → Type 0
PutOk e s id d created (new, ok (d', created')) =
    PutPath e s id d new × (d' ≡ d) × (created' ≡ created)
PutOk e s id d created (new, err x) = Unit

end_put-PutOk :
    (e : Engine) (s t : State) (id : String) (d : Doc) (created : Bool) (before : Index)
    (r : Index × Option Error)
    → Keeps s.index before
    → t.tx ≡ s.tx
    → Keeps (store before id d) r.0
    → PutOk e s id d created (end_put t id d created r)
end_put-PutOk e s t id d created before (ix, some x) p same k = tt
end_put-PutOk e s t id d created before (ix, none) p same k = (
  record {
    before = before;
    after = ix;
    prepared = p;
    compacted = k;
    index = refl;
    tx = ap (λ tx. clear_tombstone tx ix id) same;
  },
  refl,
  refl,
)

after_put_commit-PutOk :
    (fuel : ℕ) (e : Engine) (s : State) (id : String) (d : Doc) (created : Bool) (b : DocBatch)
    (r : Index × Option Error)
    → Keeps s.index r.0
    → PutOk e s id d created (after_put_commit fuel e s id d created b r)
after_put_commit-PutOk fuel e s id d created b (ix, some x) k = tt
after_put_commit-PutOk fuel e s id d created b (ix, none) k =
    end_put-PutOk e s (record s { batch = queue_kept s.batch b }) id d created ix
      (compact_unless_batched fuel e s.batch (store ix id d)) k refl
      (compact_unless_batched-Keeps fuel e s.batch (store ix id d))

after_put_add-PutOk :
    (fuel : ℕ) (e : Engine) (s : State) (id : String) (d : Doc) (created : Bool)
    (r : Index × DocBatch × Option Error)
    → Keeps s.index r.0
    → PutOk e s id d created (after_put_add fuel e s id d created r)
after_put_add-PutOk fuel e s id d created (ix, b, some x) k = tt
after_put_add-PutOk fuel e s id d created (ix, b, none) k =
    after_put_commit-PutOk fuel e s id d created b (commit_unless_batched e s.batch ix b)
      (Keeps-trans k (commit_unless_batched-Keeps e s.batch ix b))

abbrev pub planned : Doc → DocParams → Current → Bool → Doc
planned d dp c auto_id = record d { version = put_version dp c.version auto_id }

-- A put that is not refused meets no conflict, and stores the document with its new version.
abbrev pub PutDone :
    Engine
    → State
    → String
    → Doc
    → DocParams
    → Current
    → Bool
    → State × Result (Doc × Bool)
    → Type 0
PutDone e s id d dp c auto_id (new, ok r) =
    PutOk e s id (planned d dp c auto_id) (is_none c.existing) (new, ok r)
    × (put_error s.index id dp c auto_id ≡ none)
PutDone e s id d dp c auto_id (new, err x) = Unit

done_of_ok :
    (e : Engine) (s : State) (id : String) (d : Doc) (dp : DocParams) (c : Current) (auto_id : Bool)
    (r : State × Result (Doc × Bool))
    → put_error s.index id dp c auto_id ≡ none
    → PutOk e s id (planned d dp c auto_id) (is_none c.existing) r
    → PutDone e s id d dp c auto_id r
done_of_ok e s id d dp c auto_id (new, ok r) free p = (p, free)
done_of_ok e s id d dp c auto_id (new, err x) free p = tt

module _ (fuel : ℕ) (e : Engine) (s : State) (id : String) where
  pub put_planned-free :
      (d : Doc) (dp : DocParams) (c : Current) (auto_id : Bool) (bds : List String)
      → put_error s.index id dp c auto_id ≡ none
      → put_planned fuel e s id d dp c auto_id bds
        ≡ after_put_add fuel e s id
            (planned d dp c auto_id)
            (is_none c.existing)
            (add_documents e s.index (or_new s.batch) id bds)
  unfolding put_planned
  put_planned-free d dp c auto_id bds free = rw (free, put_planned)

  pub put_planned-refused :
      (d : Doc) (dp : DocParams) (c : Current) (auto_id : Bool) (bds : List String) (x : Error)
      → put_error s.index id dp c auto_id ≡ some x
      → put_planned fuel e s id d dp c auto_id bds ≡ (s, err x)
  unfolding put_planned
  put_planned-refused d dp c auto_id bds x f = rw (f, put_planned)

  put_planned-PutDone :
      (d : Doc) (dp : DocParams) (c : Current) (auto_id : Bool) (bds : List String)
      → PutDone e s id d dp c auto_id (put_planned fuel e s id d dp c auto_id bds)
  put_planned-PutDone d dp c auto_id bds = elim (Option-cases (put_error s.index id dp c auto_id)) [
    | inl free ↦
        let added = add_documents e s.index (or_new s.batch) id bds in
        let stored = planned d dp c auto_id in
        subst (PutDone e s id d dp c auto_id) (sym (put_planned-free d dp c auto_id bds free)) (
          done_of_ok e s id d dp c auto_id
            (after_put_add fuel e s id stored (is_none c.existing) added) free
            (after_put_add-PutOk fuel e s id stored (is_none c.existing) added
              (add_documents-Keeps e s.index (or_new s.batch) id bds)))
    | inr (x, f) ↦
        subst (PutDone e s id d dp c auto_id) (sym (put_planned-refused d dp c auto_id bds x f)) tt
  ]

-- The mapping is nothing that a request sees of a document.
pub current_version-inferred :
    (e : Engine) (reg : Registry) (s : State) (d : Doc) (id : String)
    → current_version reg (inferred e s d).index s.tx id ≡ current_version reg s.index s.tx id
unfolding current_version tombstone raw_tombstone
current_version-inferred e reg s d id = refl

module _ (fuel : ℕ) (e : Engine) (s : State) (id : String) (reg : Registry) (source : String)
    (dp : DocParams) (auto_id : Bool) where
  -- The document that is built, and the state after that.
  abbrev drafted : Doc
  drafted = new_doc s.index id source dp

  abbrev drawn : State
  drawn = inferred e s drafted

  put_doc-built :
      (bds : List String)
      → e.build_document true s.index drafted ≡ ok bds
      → put_doc fuel e reg s id source dp auto_id
        ≡ put_planned fuel e drawn id drafted dp
            (current_version reg drawn.index s.tx id)
            auto_id
            bds
  unfolding put_doc
  put_doc-built bds b = rw (b, put_doc) refl

  put_doc-unbuilt :
      (x : Error)
      → e.build_document true s.index drafted ≡ err x
      → put_doc fuel e reg s id source dp auto_id ≡ (s, err x)
  unfolding put_doc
  put_doc-unbuilt x b = rw (b, put_doc) refl

  put_doc-drawn :
      PutDone e drawn id drafted dp
        (current_version reg drawn.index s.tx id)
        auto_id
        (put_doc fuel e reg s id source dp auto_id)
  put_doc-drawn =
      let c = current_version reg drawn.index s.tx id in
      elim (Result-cases (e.build_document true s.index drafted)) [
        | inl (bds, b) ↦
            subst (PutDone e drawn id drafted dp c auto_id) (sym (put_doc-built bds b))
              (put_planned-PutDone fuel e drawn id drafted dp c auto_id bds)
        | inr (x, b) ↦
            subst (PutDone e drawn id drafted dp c auto_id) (sym (put_doc-unbuilt x b)) tt
      ]

  pub put_doc-PutDone :
      PutDone e
        (inferred e s (new_doc s.index id source dp))
        id
        (new_doc s.index id source dp)
        dp
        (current_version reg s.index s.tx id)
        auto_id
        (put_doc fuel e reg s id source dp auto_id)
  put_doc-PutDone =
      subst
        (λ c. PutDone e drawn id drafted dp c auto_id (put_doc fuel e reg s id source dp auto_id))
        (current_version-inferred e reg s drafted id) put_doc-drawn
