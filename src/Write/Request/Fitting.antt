-- ===== src/Write/Request/Fitting.antt =====
-- A request leaves every index with runs that fit its stored documents (docs.go, `writeBatch`).
use osmem.Prelude.{
  ℕ, Bool, true, false, Option, none, some, [], ◌∷◌, ◌≡◌, sym, subst, arith, eqb, eqb_iff,
  Bool-cases, inl, inr,
}
use osmem.Prelude.Dict.{nat_keys, lookup, insert, lookup-insert}
use osmem.Prelude.Distinct.{Distinct, Distinct-insert}
use osmem.Error.{Error}
use osmem.Segment.{Segments, DocBatch, commit}
use osmem.Segment.Fitting.{Fits, AfterCommit, commit-AfterCommit}
use osmem.Index.{Index, Engine, commit_index}
use osmem.Compact.{compact_runs}
use osmem.Compact.Progress.{BuildsSome}
use osmem.Compact.Fitting.{IsFit, compact_runs-IsFit}
use osmem.Compact.Agrees.{Agrees, Agrees-IsFit, IsFit-Agrees}
use osmem.Tombstone.{Registry}
use osmem.Tombstone.Tx.{DocTx}
use osmem.Write.{State, or_new, put_doc}
use osmem.Write.Delete.{delete_doc}
use osmem.Write.Fitting.{IsFitting, FitsFrom, put_doc-FitsFrom, delete_doc-FitsFrom}
use osmem.Write.Request.{
  WriteBatch, Request, new_write_batch, begin, for_index, keep_batch, set_index, opened, Writing,
  nothing, put, deleted, then_indices, commit_all, compact_all, then_compact, end_flush, flush,
}

abbrev pub AllFit : (ℕ → Index) → Type 0
AllFit indices = (h : ℕ) → IsFit (indices h)

-- Every index fits with its batch pending.
abbrev pub AllPending : (ℕ → Index) → WriteBatch → Type 0
AllPending indices wb = (h : ℕ) → Fits (indices h).segments (indices h).docs (or_new (lookup h wb))

abbrev pub IsOpen : (ℕ → Index) → Option WriteBatch → Type 0
IsOpen indices none = AllFit indices
IsOpen indices (some wb) = Distinct wb × AllPending indices wb

opened-IsFitting :
    (r : Request) (batches : Option WriteBatch) (h : ℕ)
    → IsOpen r.indices batches
    → IsFitting (opened (record r { batches = batches }) h)
opened-IsFitting r none h o = o h
opened-IsFitting r (some wb) h o = o.1 h

-- An index that fits again takes its place.
set_index-AllFit :
    (indices : ℕ → Index) (h : ℕ) (ix : Index)
    → IsFit ix
    → AllFit indices
    → AllFit (set_index indices h ix)
unfolding set_index
set_index-AllFit indices h ix f all k = elim (Bool-cases (eqb h k)) [
  | inl same ↦ rw same f
  | inr other ↦ rw other (all k)
]

set_index-AllPending :
    (indices : ℕ → Index) (wb : WriteBatch) (h : ℕ) (ix : Index) (b : DocBatch)
    → Fits ix.segments ix.docs b
    → AllPending indices wb
    → AllPending (set_index indices h ix) (insert h b wb)
unfolding set_index
set_index-AllPending indices wb h ix b f all k = elim (Bool-cases (eqb h k)) [
  | inl same ↦
      let found : lookup k (insert h b wb) ≡ some b =
        ground (arith, lookup-insert h k b wb, same) in
      rw (same, found) f
  | inr other ↦
      let kept : lookup k (insert h b wb) ≡ lookup k wb =
        ground (arith, lookup-insert h k b wb, other) in
      rw (other, kept) (all k)
]

-- A write leaves the request open.
after_write-IsOpen :
    (r : Request) (batches : Option WriteBatch) (h : ℕ) (s : State)
    → IsOpen r.indices batches
    → FitsFrom (for_index batches h) s
    → IsOpen (set_index r.indices h s.index) (keep_batch batches h s.batch)
after_write-IsOpen r none h s o f = set_index-AllFit r.indices h s.index f.1 o
after_write-IsOpen r (some wb) h s o (b, same, f) =
    rw same (Distinct-insert h b wb o.0, set_index-AllPending r.indices wb h s.index b f o.1)

pub Writing-IsOpen :
    (fuel : ℕ) (e : Engine) (builds : BuildsSome e) (reg : Registry) (r q : Request)
    → IsOpen r.indices r.batches
    → Writing fuel e reg r q
    → IsOpen q.indices q.batches
Writing-IsOpen fuel e builds reg r q o nothing = o
Writing-IsOpen fuel e builds reg r q o (put {q = p} h id source dp auto_id w) =
    let before = Writing-IsOpen fuel e builds reg r p o w in
    after_write-IsOpen p p.batches h (put_doc fuel e reg (opened p h) id source dp auto_id).0 before
      (put_doc-FitsFrom fuel e builds (opened p h) id reg source dp auto_id
        (opened-IsFitting p p.batches h before))
Writing-IsOpen fuel e builds reg r q o (deleted {q = p} h id dp routed w) =
    let before = Writing-IsOpen fuel e builds reg r p o w in
    after_write-IsOpen p p.batches h (delete_doc fuel e reg (opened p h) id dp routed).0 before (
      delete_doc-FitsFrom fuel e builds (opened p h) id reg dp routed
        (opened-IsFitting p p.batches h before))

-- What a loop of `flush` leaves unless it fails.
abbrev pub FitUnlessFailed : (ℕ → Index) × Option Error → Type 0
FitUnlessFailed (indices, some x) = Unit
FitUnlessFailed (indices, none) = AllFit indices

-- The batch of the first index is taken, and the others are pending still.
rest-AllPending :
    (indices : ℕ → Index) (h : ℕ) (b : DocBatch) (wb : WriteBatch) (ix : Index)
    → lookup h wb ≡ none
    → IsFit ix
    → AllPending indices ((h, b) ∷ wb)
    → AllPending (set_index indices h ix) wb
unfolding set_index lookup
rest-AllPending indices h b wb ix absent f all k = elim (Bool-cases (eqb h k)) [
  | inl same ↦
      let gone : lookup k wb ≡ none = ground (arith, absent, same, eqb_iff h k) in rw (same, gone) f
  | inr other ↦
      let skipped : lookup k ((h, b) ∷ wb) ≡ lookup k wb = ground (arith, other) in
      rw (other, sym skipped) (all k)
]

own_batch : (h : ℕ) (b : DocBatch) (wb : WriteBatch) → lookup h ((h, b) ∷ wb) ≡ some b
unfolding lookup
own_batch h b wb = ground (arith, eqb_iff h h)

pub commit_all-AllFit :
    (e : Engine) (wb : WriteBatch) (indices : ℕ → Index)
    → Distinct wb
    → AllPending indices wb
    → FitUnlessFailed (commit_all e wb indices)
unfolding commit_all commit_index lookup
commit_all-AllFit e [] indices d all = all
commit_all-AllFit e ((h, b) ∷ wb) indices d all =
    committed (commit e.bleve_batch (indices h).segments b)
      (commit-AfterCommit e.bleve_batch (indices h).segments (indices h).docs b (
        subst (λ x. Fits (indices h).segments (indices h).docs (or_new x)) (own_batch h b wb)
          (all h)))
      (commit_all-AllFit e wb)
  where
    committed :
        (r : Segments × Option Error)
        → AfterCommit (indices h).docs (indices h).segments b r
        → ((later : ℕ → Index)
            → Distinct wb
            → AllPending later wb
            → FitUnlessFailed (commit_all e wb later))
        → FitUnlessFailed
            (then_indices indices h (commit_all e wb) (record (indices h) { segments = r.0 }, r.1))
    committed (t, some x) a rest = tt
    committed (t, none) a rest =
        rest (set_index indices h (record (indices h) { segments = t })) d.1
          (rest-AllPending indices h b wb (record (indices h) { segments = t }) d.0 a all)

compact_all-AllFit :
    (fuel : ℕ) (e : Engine) (builds : BuildsSome e) (wb : WriteBatch) (indices : ℕ → Index)
    → AllFit indices
    → AllFit (compact_all fuel e wb indices).0
unfolding compact_all
compact_all-AllFit fuel e builds [] indices all = all
compact_all-AllFit fuel e builds ((h, b) ∷ wb) indices all =
    compacted (compact_runs fuel e (indices h))
      (compact_runs-IsFit fuel e builds (indices h) (all h)) (compact_all-AllFit fuel e builds wb)
  where
    compacted :
        (r : Index × Option Error)
        → IsFit r.0
        → ((later : ℕ → Index) → AllFit later → AllFit (compact_all fuel e wb later).0)
        → AllFit (then_indices indices h (compact_all fuel e wb) r).0
    compacted (ix, some x) f rest = set_index-AllFit indices h ix f all
    compacted (ix, none) f rest =
        rest (set_index indices h ix) (set_index-AllFit indices h ix f all)

end_flush-AllFit :
    (fuel : ℕ) (e : Engine) (builds : BuildsSome e) (wb : WriteBatch) (r : Request)
    (x : (ℕ → Index) × Option Error)
    → FitUnlessFailed x
    → (end_flush r (then_compact fuel e wb x)).1 ≡ none
    → AllFit (end_flush r (then_compact fuel e wb x)).0.indices
end_flush-AllFit fuel e builds wb r (indices, some x) all done = absurd (cc done)
end_flush-AllFit fuel e builds wb r (indices, none) all done =
    ended (compact_all fuel e wb indices) (compact_all-AllFit fuel e builds wb indices all)
  where
    ended : (x : (ℕ → Index) × Option Error) → AllFit x.0 → AllFit (end_flush r x).0.indices
    ended (later, some x) all = all
    ended (later, none) all = all

flush-AllFit :
    (fuel : ℕ) (e : Engine) (builds : BuildsSome e) (r : Request) (batches : Option WriteBatch)
    → IsOpen r.indices batches
    → (flush fuel e (record r { batches = batches })).1 ≡ none
    → AllFit (flush fuel e (record r { batches = batches })).0.indices
unfolding flush
flush-AllFit fuel e builds r none o done = o
flush-AllFit fuel e builds r (some wb) o done =
    end_flush-AllFit fuel e builds wb (record r { batches = some wb }) (commit_all e wb r.indices)
      (commit_all-AllFit e wb r.indices o.0 o.1) done

pub begin-IsOpen :
    (indices : ℕ → Index) (batched : Bool)
    → AllFit indices
    → IsOpen indices (new_write_batch batched)
unfolding lookup
begin-IsOpen indices false all = all
begin-IsOpen indices true all = (tt, all)

-- If, before a request, the bookkeeping of every index's runs is right, its runs list the documents
-- that they hold and hold exactly the stored ones, then all this holds after the request, however its
-- puts and deletes go, if its flush does not fail and every document is built into some bleve document.
pub flush-Agrees :
    (fuel : ℕ) (e : Engine) (builds : BuildsSome e) (reg : Registry) (indices : ℕ → Index)
    (tx : DocTx) (batched : Bool) (q : Request)
    → ((h : ℕ) → Agrees (indices h))
    → Writing fuel e reg (begin indices tx batched) q
    → (flush fuel e q).1 ≡ none
    → (h : ℕ) → Agrees ((flush fuel e q).0.indices h)
flush-Agrees fuel e builds reg indices tx batched q all w done h =
    let fit = begin-IsOpen indices batched (λ k. Agrees-IsFit (indices k) (all k)) in
    IsFit-Agrees ((flush fuel e q).0.indices h) (
      flush-AllFit fuel e builds q q.batches
        (Writing-IsOpen fuel e builds reg (begin indices tx batched) q fit w) done h)
