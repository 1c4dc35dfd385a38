-- ===== src/Write.antt =====
-- internal/engine/docs.go: `putDoc` and `deleteDoc`. A write returns what it has changed beside its
-- result, since a failure leaves what was changed before it.
pub mod Delete
pub mod Path
pub mod Effect
pub mod Removal
pub mod Gone
pub mod Versions
pub mod Sequence
pub mod Refused
pub mod Fitting
pub mod Request
pub mod Fueled
use osmem.Prelude.{
  ℕ, zero, suc, String, Bool, true, false, not, ◌&&◌, Option, none, some, List, [], ◌∷◌,
  if◌then◌else◌,
}
use osmem.Prelude.Int.{ℤ, pos, inc64}
use osmem.Prelude.Dict.{◌==◌, string_keys, lookup, insert, remove}
use osmem.Error.{Error, Result, ok, err}
use osmem.Version.{
  Doc, DocParams, OpType, delete, version_type, version, resolved_version, update_version,
  check_write, version_not_found,
}
use osmem.Segment.{DocBatch, new_batch}
use osmem.Index.{Index, Engine, add_documents, remove_documents, commit_index}
use osmem.Compact.{compact_runs}
use osmem.Routing.{doc_shard_mismatch}
use osmem.Tombstone.{Tombstone, Registry}
use osmem.Tombstone.Tx.{DocTx, tombstone, add_tombstone, clear_tombstone}

-- What a write reads and changes. `batch` is the batch of the whole request, or nil.
pub record State : Type 0 where
  pub index : Index
  pub tx : DocTx
  pub batch : Option DocBatch

-- The live document, the version to plan against, and whether the document is deleted.
pub record Current : Type 0 where
  pub existing : Option Doc
  pub version : ℤ
  pub deleted : Bool

abbrev from_tombstone : Option Tombstone → Current
from_tombstone (some t) = record { existing = none; version = t.version; deleted = true }
from_tombstone none = record { existing = none; version = version_not_found; deleted = true }

unfoldable pub current_version : Registry → Index → DocTx → String → Current
current_version reg ix tx id = elim (lookup id ix.docs) [
  | some d ↦ record { existing = some d; version = d.version; deleted = false }
  | none ↦ from_tombstone (tombstone reg tx ix id)
]

abbrev pub or_new : Option DocBatch → DocBatch
or_new none = new_batch
or_new (some b) = b

abbrev pub is_none : Option Doc → Bool
is_none none = true
is_none (some d) = false

-- What is kept of the queued operations: the batch of the request, or a batch that is dropped.
abbrev pub queue_kept : Option DocBatch → DocBatch → Option DocBatch
queue_kept none b = none
queue_kept (some old) b = some b

-- if batch == nil { ix.commit(b) }
unfoldable pub commit_unless_batched :
    Engine → Option DocBatch → Index → DocBatch → Index × Option Error
commit_unless_batched e none ix b = commit_index e ix b
commit_unless_batched e (some old) ix b = (ix, none)

-- if batch == nil { ix.compactRuns() }
unfoldable pub compact_unless_batched : ℕ → Engine → Option DocBatch → Index → Index × Option Error
compact_unless_batched fuel e none ix = compact_runs fuel e ix
compact_unless_batched fuel e (some old) ix = (ix, none)

-- The end of `putDocFrom`: the compaction may fail after the document is stored.
abbrev pub end_put :
    State → String → Doc → Bool → Index × Option Error → State × Result (Doc × Bool)
end_put s id d created (ix, some x) = (record s { index = ix }, err x)
end_put s id d created (ix, none) =
    (record s { index = ix; tx = clear_tombstone s.tx ix id }, ok (d, created))

-- ix.seqNo = d.SeqNo; ix.docs[id] = d
abbrev pub store : Index → String → Doc → Index
store ix id d = record ix { seq_no = d.seq_no; docs = insert id d ix.docs }

abbrev pub after_put_commit :
    ℕ
    → Engine
    → State
    → String
    → Doc
    → Bool
    → DocBatch
    → Index × Option Error
    → State × Result (Doc × Bool)
after_put_commit fuel e s id d created b (ix, some x) = (record s { index = ix }, err x)
after_put_commit fuel e s id d created b (ix, none) =
    end_put (record s { batch = queue_kept s.batch b }) id d created
      (compact_unless_batched fuel e s.batch (store ix id d))

abbrev pub after_put_add :
    ℕ
    → Engine
    → State
    → String
    → Doc
    → Bool
    → Index × DocBatch × Option Error
    → State × Result (Doc × Bool)
after_put_add fuel e s id d created (ix, b, some x) =
    (record s { index = ix; batch = queue_kept s.batch b }, err x)
after_put_add fuel e s id d created (ix, b, none) =
    after_put_commit fuel e s id d created b (commit_unless_batched e s.batch ix b)

-- The document that the write stores.
abbrev pub put_version : DocParams → ℤ → Bool → ℤ
put_version dp current auto_id =
    if auto_id then pos 1 else update_version (version_type dp) current (resolved_version dp)

abbrev pub new_doc : Index → String → String → DocParams → Doc
new_doc ix id source dp = record {
  id = id;
  source = source;
  version = pos 0;
  seq_no = inc64 ix.seq_no;
  primary_term = pos 1;
  routing = dp.routing;
}

abbrev pub put_error : Index → String → DocParams → Current → Bool → Option Error
put_error ix id dp c auto_id =
    if auto_id then none else check_write ix.name id dp c.existing c.version c.deleted

-- After the checks: the document gets its version, and is stored.
unfoldable pub put_planned :
    ℕ
    → Engine
    → State
    → String
    → Doc
    → DocParams
    → Current
    → Bool
    → List String
    → State × Result (Doc × Bool)
unfolding commit_unless_batched compact_unless_batched
put_planned fuel e s id d dp c auto_id bds = elim (put_error s.index id dp c auto_id) [
  | some x ↦ (s, err x)
  | none ↦
      after_put_add fuel e s id (record d { version = put_version dp c.version auto_id })
        (is_none c.existing) (add_documents e s.index (or_new s.batch) id bds)
]

-- What `buildDocumentFrom` leaves when it succeeds: the mapping has the fields that it has added.
abbrev pub inferred : Engine → State → Doc → State
inferred e s d = record s { index = record s.index { mapping = e.infer_mapping s.index d } }

-- `putDocFrom`, on fuel for the compaction at its end. The mapping changes before the checks.
unfoldable pub put_doc :
    ℕ → Engine → Registry → State → String → String → DocParams → Bool → State × Result (Doc × Bool)
unfolding put_planned current_version
put_doc fuel e reg s id source dp auto_id =
    let d = new_doc s.index id source dp in
    let built = inferred e s d in
    elim (e.build_document true s.index d) [
      | err x ↦ (s, err x)
      | ok bds ↦
          put_planned fuel e built id d dp (current_version reg built.index built.tx id) auto_id bds
    ]
