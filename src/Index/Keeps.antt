-- ===== src/Index/Keeps.antt =====
-- Queueing and committing bleve documents changes no stored document, setting or counter (index.go,
-- `addDocuments`, and segments.go, `commit`).
use osmem.Prelude.{String, Option, none, some, List, [], ◌∷◌, ◌≡◌, refl, ◌∙◌}
use osmem.Prelude.Dict.{string_keys, lookup}
use osmem.Error.{Error}
use osmem.Segment.{DocBatch}
use osmem.Segment.Counts.{IsTidy, commit-IsTidy}
use osmem.Segment.Generation.{commit-mapping_gen}
use osmem.Index.{
  Index, Engine, add_documents, commit_index, set_children, queue_documents, delete_children,
  finish_add,
}

-- The same index with the same documents, settings and counters, whose runs are in order if they were.
pub record Keeps (ix jx : Index) : Type 0 where
  pub docs : (id : String) → lookup id jx.docs ≡ lookup id ix.docs
  pub seq_no : jx.seq_no ≡ ix.seq_no
  pub handle : jx.handle ≡ ix.handle
  pub gc_deletes : jx.gc_deletes ≡ ix.gc_deletes
  pub uuid : jx.uuid ≡ ix.uuid
  pub name : jx.name ≡ ix.name
  pub shard_settings : jx.shard_settings ≡ ix.shard_settings
  pub mapping : jx.mapping ≡ ix.mapping
  pub copies : jx.copies ≡ ix.copies
  pub mapping_gen : jx.segments.mapping_gen ≡ ix.segments.mapping_gen
  pub tidy : IsTidy ix.segments → IsTidy jx.segments

pub Keeps-refl : (ix : Index) → Keeps ix ix
Keeps-refl ix = record {
  docs = λ id. refl;
  seq_no = refl;
  handle = refl;
  gc_deletes = refl;
  uuid = refl;
  name = refl;
  shard_settings = refl;
  mapping = refl;
  copies = refl;
  mapping_gen = refl;
  tidy = λ t. t;
}

pub Keeps-trans : {ix jx kx : Index} → Keeps ix jx → Keeps jx kx → Keeps ix kx
Keeps-trans a b = record {
  docs = λ id. b.docs id ∙ a.docs id;
  seq_no = b.seq_no ∙ a.seq_no;
  handle = b.handle ∙ a.handle;
  gc_deletes = b.gc_deletes ∙ a.gc_deletes;
  uuid = b.uuid ∙ a.uuid;
  name = b.name ∙ a.name;
  shard_settings = b.shard_settings ∙ a.shard_settings;
  mapping = b.mapping ∙ a.mapping;
  copies = b.copies ∙ a.copies;
  mapping_gen = b.mapping_gen ∙ a.mapping_gen;
  tidy = λ t. b.tidy (a.tidy t);
}

pub commit_index-Keeps : (e : Engine) (ix : Index) (b : DocBatch) → Keeps ix (commit_index e ix b).0
unfolding commit_index
commit_index-Keeps e ix b = record {
  docs = λ id. refl;
  seq_no = refl;
  handle = refl;
  gc_deletes = refl;
  uuid = refl;
  name = refl;
  shard_settings = refl;
  mapping = refl;
  copies = refl;
  mapping_gen = commit-mapping_gen e.bleve_batch ix.segments b;
  tidy = λ t. commit-IsTidy e.bleve_batch ix.segments b t;
}

set_children-Keeps :
    (ix : Index) (id : String) (bds : List String) → Keeps ix (set_children ix id bds)
unfolding set_children
set_children-Keeps ix id [] = record {
  docs = λ id. refl;
  seq_no = refl;
  handle = refl;
  gc_deletes = refl;
  uuid = refl;
  name = refl;
  shard_settings = refl;
  mapping = refl;
  copies = refl;
  mapping_gen = refl;
  tidy = λ t. t;
}
set_children-Keeps ix id (r ∷ []) = record {
  docs = λ id. refl;
  seq_no = refl;
  handle = refl;
  gc_deletes = refl;
  uuid = refl;
  name = refl;
  shard_settings = refl;
  mapping = refl;
  copies = refl;
  mapping_gen = refl;
  tidy = λ t. t;
}
set_children-Keeps ix id (r ∷ c ∷ m) = record {
  docs = λ id. refl;
  seq_no = refl;
  handle = refl;
  gc_deletes = refl;
  uuid = refl;
  name = refl;
  shard_settings = refl;
  mapping = refl;
  copies = refl;
  mapping_gen = refl;
  tidy = λ t. t;
}

finish_add-Keeps :
    (ix : Index) (id : String) (bds : List String) (r : DocBatch × Option Error)
    → Keeps ix (finish_add ix id bds r).0
finish_add-Keeps ix id bds (b, some x) = Keeps-refl ix
finish_add-Keeps ix id bds (b, none) = set_children-Keeps ix id bds

pub add_documents-Keeps :
    (e : Engine) (ix : Index) (b : DocBatch) (id : String) (bds : List String)
    → Keeps ix (add_documents e ix b id bds).0
unfolding add_documents
add_documents-Keeps e ix b id bds =
    finish_add-Keeps ix id bds (queue_documents e bds (delete_children ix id b))
