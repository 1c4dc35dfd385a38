-- ===== src/Write/Delete.antt =====
-- internal/engine/docs.go: `deleteDoc`.
use osmem.Prelude.{ℕ, String, Bool, true, false, ◌&&◌, Option, none, some, if◌then◌else◌}
use osmem.Prelude.Int.{ℤ, inc64}
use osmem.Prelude.Dict.{string_keys, remove}
use osmem.Error.{Error, Result, ok, err}
use osmem.Version.{
  DocParams, delete, version_type, version, update_version, check_write, version_not_found,
}
use osmem.Segment.{DocBatch}
use osmem.Index.{Index, Engine, remove_documents}
use osmem.Routing.{doc_shard_mismatch}
use osmem.Tombstone.{Registry}
use osmem.Tombstone.Tx.{add_tombstone}
use osmem.Write.{
  State, Current, current_version, or_new, is_none, queue_kept, commit_unless_batched,
  compact_unless_batched,
}

pub record DeleteOutcome : Type 0 where
  pub found : Bool
  pub version : ℤ
  pub seq_no : ℤ

-- ix.seqNo++, the tombstone and the outcome.
unfoldable pub finish_delete : State → String → Bool → ℤ → State × Result DeleteOutcome
finish_delete s id found v =
    let n = inc64 s.index.seq_no in
    (
      record s {
        index = record s.index { seq_no = n };
        tx = add_tombstone s.tx s.index id (record { version = v; seq_no = n; at = s.tx.now });
      },
      ok (record { found = found; version = v; seq_no = n }),
    )

abbrev pub end_delete : State → String → ℤ → Index × Option Error → State × Result DeleteOutcome
end_delete s id v (ix, some x) = (record s { index = ix }, err x)
end_delete s id v (ix, none) = finish_delete (record s { index = ix }) id true v

-- delete(ix.children, id); delete(ix.docs, id)
abbrev pub unstore : Index → String → Index
unstore ix id = record ix { children = remove id ix.children; docs = remove id ix.docs }

abbrev pub after_delete_commit :
    ℕ → Engine → State → String → ℤ → DocBatch → Index × Option Error → State × Result DeleteOutcome
after_delete_commit fuel e s id v b (ix, some x) = (record s { index = ix }, err x)
after_delete_commit fuel e s id v b (ix, none) =
    end_delete (record s { batch = queue_kept s.batch b }) id v
      (compact_unless_batched fuel e s.batch (unstore ix id))

-- A document that is there goes first.
unfoldable pub delete_stored : ℕ → Engine → State → String → ℤ → State × Result DeleteOutcome
unfolding commit_unless_batched compact_unless_batched finish_delete
delete_stored fuel e s id v =
    let b = remove_documents s.index (or_new s.batch) id in
    after_delete_commit fuel e s id v b (commit_unless_batched e s.batch s.index b)

-- A routed request does not see a document on another shard.
unfoldable pub routed_current : Index → String → DocParams → Bool → Current → Current
routed_current ix id dp routed c = elim c.existing [
  | none ↦ c
  | some d ↦
      if routed && doc_shard_mismatch ix.shard_settings id dp.routing d.routing
      then record { existing = none; version = version_not_found; deleted = true }
      else c
]

unfoldable pub delete_planned :
    ℕ → Engine → State → String → DocParams → Current → State × Result DeleteOutcome
unfolding delete_stored finish_delete
delete_planned fuel e s id dp c =
    let v = update_version (version_type dp) c.version (version dp) in
    elim (check_write s.index.name id dp c.existing c.version c.deleted) [
      | some x ↦ (s, err x)
      | none ↦
          if is_none c.existing then finish_delete s id false v else delete_stored fuel e s id v
    ]

abbrev pub as_delete : DocParams → DocParams
as_delete dp = record dp { op_type = delete }

unfoldable pub delete_doc :
    ℕ → Engine → Registry → State → String → DocParams → Bool → State × Result DeleteOutcome
unfolding delete_planned routed_current current_version
delete_doc fuel e reg s id dp routed =
    delete_planned fuel e s id (as_delete dp)
      (routed_current s.index id (as_delete dp) routed (current_version reg s.index s.tx id))
