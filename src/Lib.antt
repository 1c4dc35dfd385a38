-- ===== src/Lib.antt =====
-- osmem: writes, shared indices, request routing and response filters of an in-memory engine.
--
-- osmem answers OpenSearch requests from Go data structures, with bleve as its inverted index.
-- This library models how the engine writes documents, how clusters share indices, how requests
-- find their routes and indices, and how responses are filtered: the version and compare-and-set
-- checks, the change of an index by a put or a delete, the batches of a bulk request, the runs
-- that stand for bleve's segments, the tombstones that keep the versions of deleted documents, the
-- copies of shared indices, the routing of documents to shards and of paths to routes, and the
-- filters of filter_path.
--
-- Parts (paths from the repository's root):
-- - Version (internal/engine/docparams.go, docs.go): `DocParams`, its validation, and `checkWrite`,
--   `versionConflictForWrites`, `updateVersion`; Version/Validation has the validation. Error
--   (errors.go) has the errors; a message is a constructor with the values that the source formats.
-- - Segment (segments.go): `commit`, `runsToMerge`, `sizeClass`. A run is a pointer in the source,
--   an address of the heap `run_at` here. Segment/Steps has the cases of a round of the loop.
-- - Index (index.go): the fields of an index that writes read and change, `addDocuments`,
--   `removeDocuments`. An index's pointer is its `handle`, its mapping an opaque text. `Engine` has what
--   the writes call and the library does not define: the building of documents, with the mapping that
--   it leaves when it infers fields, and bleve's IndexAdvanced and Batch.
-- - Compact (segments.go): `mergeRuns` and `compactRuns`. Segment/Moving and Segment/Roots follow the
--   runs through a commit of a merge, Compact/Under, Compact/Committed, Compact/Queued and
--   Compact/Rounds through its loops.
-- - Routing (searchids.go, docresolve.go, settings.go): the hash, `shardOf`, `effectiveRouting`,
--   `docShardMismatch`, and the check of index.number_of_routing_shards; Routing/DocId: `encodeDocID`.
-- - Tombstone (tombstones.go): the registry with its histories of snapshots and `inheritLocked`;
--   Tombstone/Tx has `docTx`. Snapshots share maps, so maps live on a heap under addresses.
-- - Write (docs.go): `putDocFrom`, and Write/Delete: `deleteDoc`, which put these together. A write
--   returns the changed state beside its result, since a failure leaves what was changed before it. A
--   put infers the mapping's new fields before its checks, so that a refused put keeps them.
--   Write/Request: `writeBatch` with `forIndex` and `flush`, and a request as a run of writes that share
--   it; indices live on a heap under handles. Segment/Fitting relates the runs, the stored documents
--   and the batch that is pending.
-- - Alias (cluster.go): `aliasTargets`, `writeIndex` and `resolveWriteIndex`, on what they read of an
--   index; sort.Slice is an insertion sort by name.
-- - Cluster (cluster.go, index.go, searchexec.go, resolve.go): `Clone`, `Close`, `release`, the points
--   in time and `dropPITContexts`; Cluster/Copy: `copyIndex`, `rebuild`, `writable`; Cluster/Notes
--   (tombstones.go): `noteIndex`, `docWritable`. Indices are shared pointers with a count, so they
--   live on a heap under handles. What the garbage collector has taken is a parameter.
-- - Glob (resolve.go, http_filterpath.go of the root, mapping.go): `starMatch`, `globMatch` and
--   `simpleMatch`; Glob/Reference: what a pattern means.
-- - Router (http_router.go of the root): Router/Trie: `newRouter`, `insert`, `retrieve`; Router/Dispatch:
--   `dispatch`, `validMethodsOf`, `orderMethods`, `bindPathVars`. The nodes of the trie are values; an
--   absent map is an empty one. url.PathUnescape is a parameter.
-- - FilterPath (http_filterpath.go of the root): `filterValue` and `apply` on a decoded JSON value;
--   FilterPath/Parse: `parseFilterPath`. A cursor is what is left of its path, an object the list of
--   its fields.
-- - Resolve (resolve.go): `newExprResolver`; Resolve/Expand: `expand` with its ordered sets of names;
--   Resolve/Concrete: `concrete`; Resolve/Filters: `filteringAliases` and `targets`; Resolve/Options: the
--   indices options of a request and `resolveIndices`. An index is stood for by its name; the blank test
--   of strings.TrimSpace is a parameter. Resolve/Word has what one expression says.
-- - Samples: concrete values, tests and witnesses.
-- - Prelude: numbers, integers, association lists and their lemmas.
--
-- Bounds and fuel: integers are unbounded, but a sequence number or a version wraps at 2^63 as int64
-- does (`inc64`), and a difference of times is clamped as time.Sub does (`sub_clamped`). The hash is
-- on 32-bit words. `compactRuns` loops on fuel, and running out is the error `out_of_fuel`, which
-- the source does not have; Compact/Enough shows by a measure of what is left to merge (Compact/Weigh)
-- that some fuel is enough, and Write/Fueled and Write/Request/Fueled that it is for the writes and for
-- `flush`. The other fuel is that of `size_class`, the number itself, which is enough as it is
-- divided by ten in each round, that of `bit_len`, and that of the matchers, the length of the
-- pattern and one more.
--
-- Go iterates over maps in any order: the indices that a request touches are a list, in the order
-- that the loop takes them.
--
-- Not modelled: locks, weak pointers and cleanups of the registry; the source of a document and the
-- mapping of an index beyond opaque texts, and how building a document reads both; the creation of indices, templates and alias
-- actions; the parsing of bulk requests and the checks of their items before the write, update
-- requests; search and all that lies over it (mappings, analysis, queries, aggregations,
-- highlighting); the HTTP layer beyond its router and filters. These are glue over untyped JSON
-- and tables of parameters, floating point, or calls of bleve and of net/http.
pub mod Prelude
pub mod Error
pub mod Version
pub mod Segment
pub mod Routing
pub mod Index
pub mod Compact
pub mod Tombstone
pub mod Write
pub mod Alias
pub mod Cluster
pub mod Glob
pub mod Router
pub mod FilterPath
pub mod Resolve
pub mod Samples
