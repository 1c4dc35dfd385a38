-- ===== src/Write/Request/Fueled.antt =====
-- A flush with enough fuel does not run out of it (docs.go, `flush`).
use osmem.Prelude.{
  ℕ, ◌+◌, ◌≤◌, Bool, Option, none, some, [], ◌∷◌, ◌≡◌, refl, subst, arith, eqb, eqb_iff, Bool-cases,
  inl, inr,
}
use osmem.Prelude.Dict.{nat_keys, lookup}
use osmem.Prelude.Distinct.{Distinct}
use osmem.Error.{Error}
use osmem.Segment.{DocBatch}
use osmem.Index.{Index, Engine, commit_index}
use osmem.Compact.{compact_runs}
use osmem.Compact.Progress.{BuildsSome}
use osmem.Compact.Fueled.{
  NotOut, success-NotOut, HasOwnErrors, commit_index-NotOut, compact_runs-NotOut,
}
use osmem.Compact.Agrees.{Agrees, Agrees-IsFit}
use osmem.Tombstone.{Registry}
use osmem.Tombstone.Tx.{DocTx}
use osmem.Write.Request.{
  WriteBatch, Request, begin, set_index, Writing, then_indices, commit_all, compact_all,
  then_compact, end_flush, flush,
}
use osmem.Write.Request.Fitting.{
  AllFit, IsOpen, FitUnlessFailed, commit_all-AllFit, begin-IsOpen, Writing-IsOpen,
}

module _ (e : Engine) (own : HasOwnErrors e) where
  commit_all-NotOut : (wb : WriteBatch) (indices : ℕ → Index) → NotOut (commit_all e wb indices).1
  unfolding commit_all
  commit_all-NotOut [] indices = success-NotOut
  commit_all-NotOut ((h, b) ∷ wb) indices =
      committed (commit_index e (indices h) b) (commit_index-NotOut e own (indices h) b)
        (commit_all-NotOut wb)
    where
      committed :
          (r : Index × Option Error)
          → NotOut r.1
          → ((later : ℕ → Index) → NotOut (commit_all e wb later).1)
          → NotOut (then_indices indices h (commit_all e wb) r).1
      committed (ix, some x) n rest = n
      committed (ix, none) n rest = rest (set_index indices h ix)

  -- With this fuel no compaction of an index of the batch runs out.
  abbrev Suffices : ℕ → WriteBatch → (ℕ → Index) → Type 0
  Suffices n wb indices = (k : ℕ) → ¬ (lookup k wb ≡ none) → NotOut (compact_runs n e (indices k)).1

  compact_all-NotOut :
      (n : ℕ) (wb : WriteBatch) (indices : ℕ → Index)
      → Distinct wb
      → Suffices n wb indices
      → NotOut (compact_all n e wb indices).1
  unfolding compact_all lookup
  compact_all-NotOut n [] indices d enough = success-NotOut
  compact_all-NotOut n ((h, b) ∷ wb) indices d enough =
      compacted (compact_runs n e (indices h)) (enough h (there h b wb))
        (λ ix. compact_all-NotOut n wb (set_index indices h ix) d.1 (others ix))
    where
      there : (h : ℕ) (b : DocBatch) (wb : WriteBatch) → ¬ (lookup h ((h, b) ∷ wb) ≡ none)
      there h b wb g = ground (arith, eqb_iff h h, g)

      others : (ix : Index) → Suffices n wb (set_index indices h ix)
      others ix k in_rest =
          unfold set_index in
          elim (Bool-cases (eqb h k)) [
            | inl same ↦ absurd (in_rest (ground (arith, d.0, same, eqb_iff h k)))
            | inr other ↦ rw other (enough k (λ g. in_rest (ground (arith, g, other))))
          ]

      compacted :
          (r : Index × Option Error)
          → NotOut r.1
          → ((ix : Index) → NotOut (compact_all n e wb (set_index indices h ix)).1)
          → NotOut (then_indices indices h (compact_all n e wb) r).1
      compacted (ix, some x) n rest = n
      compacted (ix, none) n rest = rest ix

  all_enough :
      (builds : BuildsSome e) (wb : WriteBatch) (indices : ℕ → Index)
      → AllFit indices
      → (enough : ℕ) × ((n : ℕ) → enough ≤ n → Suffices n wb indices)
  unfolding lookup
  all_enough builds [] indices all = (0, λ n le k there. absurd (there refl))
  all_enough builds ((h, b) ∷ wb) indices all =
      let first = compact_runs-NotOut e own builds (indices h) (all h) in
      let rest = all_enough builds wb indices all in
      (
        first.0 + rest.0,
        λ n le k there. elim (Bool-cases (eqb h k)) [
          | inl same ↦
              subst (λ j. NotOut (compact_runs n e (indices j)).1) ((eqb_iff h k).0 same)
                (first.1 n (omega (arith, le)))
          | inr other ↦ rest.1 n (omega (arith, le)) k (λ g. there (ground (arith, g, other)))
        ],
      )

  end_flush-NotOut :
      (r : Request) (x : (ℕ → Index) × Option Error) → NotOut x.1 → NotOut (end_flush r x).1
  end_flush-NotOut r (indices, some x) n = n
  end_flush-NotOut r (indices, none) n = n

  abbrev FlushEnds : (ℕ → Request × Option Error) → Type 0
  FlushEnds run = (enough : ℕ) × ((n : ℕ) → enough ≤ n → NotOut (run n).1)

  then_compact-Ends :
      (builds : BuildsSome e) (r : Request) (wb : WriteBatch) (x : (ℕ → Index) × Option Error)
      → Distinct wb
      → FitUnlessFailed x
      → NotOut x.1
      → FlushEnds (λ n. end_flush r (then_compact n e wb x))
  then_compact-Ends builds r wb (indices, some x) d all h = (0, λ n le. h)
  then_compact-Ends builds r wb (indices, none) d all h =
      let enough = all_enough builds wb indices all in
      (
        enough.0,
        λ n le.
            end_flush-NotOut r (compact_all n e wb indices)
              (compact_all-NotOut n wb indices d (enough.1 n le)),
      )

  flush-NotOut :
      (builds : BuildsSome e) (r : Request) (batches : Option WriteBatch)
      → IsOpen r.indices batches
      → FlushEnds (λ n. flush n e (record r { batches = batches }))
  unfolding flush
  flush-NotOut builds r none o = (0, λ n le. success-NotOut)
  flush-NotOut builds r (some wb) o =
      then_compact-Ends builds (record r { batches = some wb }) wb (commit_all e wb r.indices) o.0
        (commit_all-AllFit e wb r.indices o.0 o.1) (commit_all-NotOut wb r.indices)

  -- However the puts and deletes of a request go, its flush ends: from some fuel on its result does
  -- not say that the fuel ran out, if before the request the bookkeeping of every index's runs is
  -- right and its runs list the documents that they hold and hold exactly the stored ones, if every
  -- document is built into some bleve document, and if that error is none of bleve's or of the
  -- parser's own.
  pub flush-Ends :
      (builds : BuildsSome e) (fuel : ℕ) (reg : Registry) (indices : ℕ → Index) (tx : DocTx)
      (batched : Bool) (q : Request)
      → ((h : ℕ) → Agrees (indices h))
      → Writing fuel e reg (begin indices tx batched) q
      → (enough : ℕ) × ((n : ℕ) → enough ≤ n → NotOut (flush n e q).1)
  flush-Ends builds fuel reg indices tx batched q all w = flush-NotOut builds q q.batches (
      Writing-IsOpen fuel e builds reg (begin indices tx batched) q
        (begin-IsOpen indices batched (λ k. Agrees-IsFit (indices k) (all k))) w)
