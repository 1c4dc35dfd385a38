-- ===== src/Samples/Requests.antt =====
-- A bulk request on two indices, and a put outside of one.
use osmem.Prelude.{ℕ, ◌≤◌, true, false, none, some, ◌≡◌, refl}
use osmem.Prelude.Dict.{string_keys, nat_keys, lookup, insert, remove}
use osmem.Prelude.Int.{inc64}
use osmem.Version.{index, delete, check_write, update_version}
use osmem.Segment.{commit, runs_to_merge}
use osmem.Tombstone.Tx.{tombstone, raw_tombstone}
use osmem.Index.{
  Index, add_documents, queue_documents, commit_index, delete_children, remove_documents,
}
use osmem.Compact.{compact_runs}
use osmem.Compact.Agrees.{Agrees, Agrees-IsFit}
use osmem.Compact.Fueled.{NotOut, HasOwnErrors}
use osmem.Compact.Progress.{BuildsSome}
use osmem.Write.{put_doc}
use osmem.Write.Delete.{delete_doc, routed_current}
use osmem.Write.Fueled.{Ends, put_doc-Ends, delete_doc-Ends}
use osmem.Write.Request.{
  Request, begin, opened, after_write, Writing, nothing, put, deleted, flush, set_index,
}
use osmem.Write.Request.Fitting.{flush-Agrees}
use osmem.Write.Request.Fueled.{flush-Ends}
use osmem.Samples.{engine, books, empty_registry, start, request}
use osmem.Samples.Compactions.{books-IsReady}

-- Every index is empty at first.
abbrev empty_indices : ℕ → Index
empty_indices h = record books { handle = h }

abbrev begun : Request
begun = begin empty_indices start.tx true

abbrev put_a : Request
put_a =
    after_write begun 1
      (put_doc 1 engine empty_registry (opened begun 1) "a" "{}" (request index) false).0

abbrev put_b : Request
put_b =
    after_write put_a 2
      (put_doc 1 engine empty_registry (opened put_a 2) "b" "{}" (request index) false).0

abbrev put_c : Request
put_c =
    after_write put_b 1
      (put_doc 1 engine empty_registry (opened put_b 1) "c" "{}" (request index) false).0

abbrev deleted_a : Request
deleted_a =
    after_write put_c 1
      (delete_doc 1 engine empty_registry (opened put_c 1) "a" (request delete) false).0

writes : Writing 1 engine empty_registry begun deleted_a
writes = deleted 1 "a" (request delete) false (
    put 1 "c" "{}" (request index) false
      (put 2 "b" "{}" (request index) false (put 1 "a" "{}" (request index) false nothing)))

flushes : (flush 1 engine deleted_a).1 ≡ none
unfolding flush put_doc delete_doc check_write add_documents queue_documents commit_index commit
    delete_children compact_runs runs_to_merge update_version inc64 tombstone raw_tombstone lookup
    insert set_index remove_documents routed_current remove
flushes = refl

-- One run holds the document that is left in the first index.
holds_c : lookup "c" ((flush 1 engine deleted_a).0.indices 1).segments.run_of ≡ some 0
unfolding flush put_doc delete_doc check_write add_documents queue_documents commit_index commit
    delete_children compact_runs runs_to_merge update_version inc64 tombstone raw_tombstone lookup
    insert set_index remove_documents routed_current remove
holds_c = refl

empty-Agrees : (h : ℕ) → Agrees (empty_indices h)
unfolding lookup
empty-Agrees h = record {
  tidy = books-IsReady.tidy;
  lists = books-IsReady.lists;
  same = λ id. (λ e. refl, λ e. refl);
}

builds : BuildsSome engine
builds infer ix d e = cc e

own_errors : HasOwnErrors engine
own_errors = record { build = λ infer ix d e. cc e; advanced = λ id e. cc e; batch = λ ops e. cc e }

flush-Agrees_example : Agrees ((flush 1 engine deleted_a).0.indices 1)
flush-Agrees_example =
    flush-Agrees 1 engine builds empty_registry empty_indices start.tx true deleted_a empty-Agrees
      writes flushes 1

flush-Ends_example : (enough : ℕ) × ((n : ℕ) → enough ≤ n → NotOut (flush n engine deleted_a).1)
flush-Ends_example =
    flush-Ends engine own_errors builds 1 empty_registry empty_indices start.tx true deleted_a
      empty-Agrees writes

put_doc-Ends_example :
    Ends (λ n. put_doc n engine empty_registry start "a" "{}" (request index) false)
put_doc-Ends_example =
    put_doc-Ends engine own_errors builds start "a" empty_registry "{}" (request index) false
      (Agrees-IsFit books (empty-Agrees 1))

delete_doc-Ends_example :
    Ends (λ n. delete_doc n engine empty_registry start "a" (request delete) false)
delete_doc-Ends_example =
    delete_doc-Ends engine own_errors builds start "a" empty_registry (request delete) false
      (Agrees-IsFit books (empty-Agrees 1))
