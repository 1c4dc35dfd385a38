-- ===== src/Write/Request.antt =====
-- internal/engine/docs.go: `writeBatch`, which groups the bleve writes of a request by index, and
-- the writes of a request that go through it (docs.go, bulk.go).
pub mod Fitting
pub mod Fueled
use osmem.Prelude.{ℕ, Option, none, some, [], ◌∷◌, Bool, true, false, String, if◌then◌else◌, eqb}
use osmem.Prelude.Dict.{Dict, nat_keys, lookup, insert}
use osmem.Error.{Error}
use osmem.Version.{DocParams}
use osmem.Segment.{DocBatch}
use osmem.Index.{Index, Engine, commit_index}
use osmem.Compact.{compact_runs}
use osmem.Tombstone.{Registry}
use osmem.Tombstone.Tx.{DocTx}
use osmem.Write.{State, or_new, put_doc}
use osmem.Write.Delete.{delete_doc}

-- The batch of each index, under the index's handle, in the order of first use: `batches` and
-- `order` in one.
abbrev pub WriteBatch : Type 0
WriteBatch = Dict ℕ DocBatch

-- What the writes of a request share; `batches` is nil outside a bulk request.
pub record Request : Type 0 where
  pub indices : ℕ → Index
  pub tx : DocTx
  pub batches : Option WriteBatch

-- `newWriteBatch`, or none.
abbrev pub new_write_batch : Bool → Option WriteBatch
new_write_batch true = some []
new_write_batch false = none

abbrev pub begin : (ℕ → Index) → DocTx → Bool → Request
begin indices tx batched = record { indices = indices; tx = tx; batches = new_write_batch batched }

-- `forIndex`
abbrev pub for_index : Option WriteBatch → ℕ → Option DocBatch
for_index none h = none
for_index (some wb) h = some (or_new (lookup h wb))

-- A write queues on the batch that it was given.
abbrev pub keep_batch : Option WriteBatch → ℕ → Option DocBatch → Option WriteBatch
keep_batch none h b = none
keep_batch (some wb) h none = some wb
keep_batch (some wb) h (some b) = some (insert h b wb)

unfoldable pub set_index : (ℕ → Index) → ℕ → Index → ℕ → Index
set_index indices h ix k = if eqb h k then ix else indices k

abbrev pub opened : Request → ℕ → State
opened r h = record { index = r.indices h; tx = r.tx; batch = for_index r.batches h }

abbrev pub after_write : Request → ℕ → State → Request
after_write r h s = record {
  indices = set_index r.indices h s.index;
  tx = s.tx;
  batches = keep_batch r.batches h s.batch;
}

-- The writes of a request, whether they succeed or fail.
pub data Writing (fuel : ℕ) (e : Engine) (reg : Registry) (r : Request) : Request → Type 0 where
  nothing : Writing fuel e reg r r
  put :
      {q : Request} (h : ℕ) (id source : String) (dp : DocParams) (auto_id : Bool)
      → Writing fuel e reg r q
      → Writing fuel e reg r
          (after_write q h (put_doc fuel e reg (opened q h) id source dp auto_id).0)
  deleted :
      {q : Request} (h : ℕ) (id : String) (dp : DocParams) (routed : Bool)
      → Writing fuel e reg r q
      → Writing fuel e reg r (after_write q h (delete_doc fuel e reg (opened q h) id dp routed).0)

-- One index of a loop of `flush`, and the indices after it unless it fails.
abbrev pub then_indices :
    (ℕ → Index)
    → ℕ
    → ((ℕ → Index) → (ℕ → Index) × Option Error)
    → Index × Option Error
    → (ℕ → Index) × Option Error
then_indices indices h later (ix, some x) = (set_index indices h ix, some x)
then_indices indices h later (ix, none) = later (set_index indices h ix)

unfoldable pub commit_all : Engine → WriteBatch → (ℕ → Index) → (ℕ → Index) × Option Error
unfolding set_index
commit_all e [] indices = (indices, none)
commit_all e ((h, b) ∷ wb) indices =
    then_indices indices h (commit_all e wb) (commit_index e (indices h) b)

unfoldable pub compact_all : ℕ → Engine → WriteBatch → (ℕ → Index) → (ℕ → Index) × Option Error
unfolding set_index
compact_all fuel e [] indices = (indices, none)
compact_all fuel e ((h, b) ∷ wb) indices =
    then_indices indices h (compact_all fuel e wb) (compact_runs fuel e (indices h))

-- The second loop, unless the first has failed.
abbrev pub then_compact :
    ℕ → Engine → WriteBatch → (ℕ → Index) × Option Error → (ℕ → Index) × Option Error
then_compact fuel e wb (indices, some x) = (indices, some x)
then_compact fuel e wb (indices, none) = compact_all fuel e wb indices

-- wb.batches = map[*Index]*docBatch{}; wb.order = nil
abbrev pub end_flush : Request → (ℕ → Index) × Option Error → Request × Option Error
end_flush r (indices, some x) = (record r { indices = indices }, some x)
end_flush r (indices, none) = (record r { indices = indices; batches = some [] }, none)

unfoldable pub flush : ℕ → Engine → Request → Request × Option Error
unfolding commit_all compact_all
flush fuel e r = elim r.batches [
  | none ↦ (r, none)
  | some wb ↦ end_flush r (then_compact fuel e wb (commit_all e wb r.indices))
]
