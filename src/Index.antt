-- ===== src/Index.antt =====
-- internal/engine/index.go: an index as far as document writes read and change it. The settings that
-- they read stand as their values; analysis, mapping and bleve are behind `Engine`.
pub mod Keeps
pub mod Added
use osmem.Prelude.{ℕ, String, Option, none, some, List, [], ◌∷◌, ◌++◌, map, Bool, true, false}
use osmem.Prelude.Int.{ℤ}
use osmem.Prelude.Dict.{Dict, string_keys, lookup, insert, remove}
use osmem.Error.{Error, Result}
use osmem.Version.{Doc}
use osmem.Segment.{Segments, BatchOp, puts, deletes, DocBatch, commit}
use osmem.Routing.{ShardSettings}

-- `handle` is the pointer to the index, its identity in the registry of tombstones.
pub record Index : Type 0 where
  pub handle : ℕ
  pub name : String
  pub uuid : String
  pub shard_settings : ShardSettings
  -- the value of `gcDeletes`, in nanoseconds
  pub gc_deletes : ℤ
  -- the mapping as an opaque text, which writes only replace
  pub mapping : String
  pub docs : Dict String Doc
  pub children : Dict String (List String)
  pub seq_no : ℤ
  pub segments : Segments
  pub copies : ℕ

-- What the writes call and this library does not define: `buildDocumentFrom`, bleve's IndexAdvanced
-- and Batch. `build_document infer ix d` gives the ids of the bleve documents of `d`, the root's
-- first; if it succeeds with `infer`, `infer_mapping ix d` is the mapping with the fields that it has
-- added, and if not, the mapping is as before.
pub record Engine : Type 0 where
  pub build_document : Bool → Index → Doc → Result (List String)
  pub infer_mapping : Index → Doc → String
  pub index_advanced : String → Option Error
  pub bleve_batch : List BatchOp → Option Error

abbrev no_children : Option (List String) → List String
no_children none = []
no_children (some ids) = ids

-- for _, cid := range ix.children[id] { batch.Delete(cid) }
unfoldable pub delete_children : Index → String → DocBatch → DocBatch
delete_children ix id b = record b {
  ops = b.ops ++ map deletes (no_children (lookup id ix.children));
}

-- The loop over the built documents: the ones before the first that fails stay queued.
unfoldable pub queue_documents : Engine → List String → DocBatch → DocBatch × Option Error
queue_documents e [] b = (b, none)
queue_documents e (id ∷ ids) b =
    let rest = queue_documents e ids (record b { ops = b.ops ++ puts id ∷ [] }) in
    elim (e.index_advanced id) [ some x ↦ (b, some x) | none ↦ rest ]

-- ix.children[id] = ids of bds[1:], or delete(ix.children, id)
unfoldable pub set_children : Index → String → List String → Index
set_children ix id (root ∷ child ∷ more) = record ix {
  children = insert id (child ∷ more) ix.children;
}
set_children ix id bds = record ix { children = remove id ix.children }

abbrev pub add_root : DocBatch → String → Bool → DocBatch
add_root b id deleted = record b { roots = b.roots ++ record { id = id; deleted = deleted } ∷ [] }

abbrev pub finish_add :
    Index → String → List String → DocBatch × Option Error → Index × DocBatch × Option Error
finish_add ix id bds (b, some x) = (ix, b, some x)
finish_add ix id bds (b, none) = (set_children ix id bds, add_root b id false, none)

unfoldable pub add_documents :
    Engine → Index → DocBatch → String → List String → Index × DocBatch × Option Error
unfolding set_children
add_documents e ix b id bds = finish_add ix id bds (queue_documents e bds (delete_children ix id b))

unfoldable pub remove_documents : Index → DocBatch → String → DocBatch
unfolding delete_children
remove_documents ix b id =
    add_root (delete_children ix id (record b { ops = b.ops ++ deletes id ∷ [] })) id true

unfoldable pub commit_index : Engine → Index → DocBatch → Index × Option Error
commit_index e ix b =
    let (s, x) = commit e.bleve_batch ix.segments b in (record ix { segments = s }, x)
