-- ===== src/Samples.antt =====
-- Values for the tests and the witnesses: an index, a cluster's registry and some requests.
pub mod Writes
pub mod Deletions
pub mod Runs
pub mod Checks
pub mod Batches
pub mod Aliases
pub mod Globs
pub mod Clusters
pub mod Routes
pub mod Filters
pub mod Expressions
pub mod Compactions
pub mod Requests
pub mod DocIds
pub mod Stuck
use osmem.Prelude.{ℕ, String, true, false, Option, none, some, List, [], ◌∷◌}
use osmem.Prelude.Int.{ℤ, pos, negsuc}
use osmem.Error.{ok}
use osmem.Version.{Doc, DocParams, OpType, index, create, delete, unset}
use osmem.Segment.{Segments, SegmentRun}
use osmem.Routing.{ShardSettings}
use osmem.Index.{Index, Engine}
use osmem.Tombstone.{Registry, Tombstone}
use osmem.Tombstone.Tx.{DocTx, new_doc_tx}
use osmem.Write.{State}

abbrev pub empty_run : SegmentRun
empty_run = record { ids = []; live = 0; gen = 0; pinned = false }

abbrev pub no_segments : Segments
no_segments = record {
  runs = [];
  run_of = [];
  run_at = λ r. empty_run;
  next_run = 0;
  mapping_gen = 0;
}

abbrev pub four_shards : ShardSettings
four_shards = record { shards = 4; routing_shards = some (pos 16) }

-- An index with no document; a tombstone is kept for a minute.
abbrev pub books : Index
books = record {
  handle = 1;
  name = "books";
  uuid = "u1";
  shard_settings = four_shards;
  gc_deletes = pos 60000000000;
  mapping = "{}";
  docs = [];
  children = [];
  seq_no = negsuc 0;
  segments = no_segments;
  copies = 0;
}

-- A bleve that accepts every batch, and documents without nested objects.
abbrev pub engine : Engine
engine = record {
  infer_mapping = λ ix d. d.source;
  build_document = λ infer ix d. ok (d.id ∷ []);
  index_advanced = λ id. none;
  bleve_batch = λ ops. none;
}

abbrev pub empty_registry : Registry
empty_registry = record { history = λ ix. none; items_at = λ a. []; next_items = 0 }

abbrev pub start : State
start = record { index = books; tx = new_doc_tx (pos 1000); batch = none }

abbrev pub request : OpType → DocParams
request op = record {
  op_type = op;
  routing = "";
  given_if_seq_no = none;
  given_if_primary_term = none;
  given_version = none;
  given_version_type = unset;
  pipeline = none;
}

-- A stored document.
abbrev pub book : Doc
book = record {
  id = "a";
  source = "{}";
  version = pos 1;
  seq_no = pos 0;
  primary_term = pos 1;
  routing = "";
}
