-- ===== src/Samples/Writes.antt =====
-- A put, an update, a delete and a put again of one document, and what the theorems say of them.
use osmem.Prelude.{ℕ, String, true, false, some, ◌≡◌, refl, ap, arith}
use osmem.Prelude.Int.{ℤ, pos, negsuc, inc64, ◌<ℤ◌, ◌≤ℤ◌}
use osmem.Prelude.Dict.{string_keys, lookup, without}
use osmem.Error.{ok}
use osmem.Prelude.Int.{◌-ℤ◌, sub_clamped}
use osmem.Version.{Doc, index, delete, check_write, update_version}
use osmem.Segment.{commit, runs_to_merge}
use osmem.Tombstone.{expired}
use osmem.Tombstone.Tx.{tombstone, raw_tombstone, add_tombstone, clear_tombstone}
use osmem.Index.{add_documents, queue_documents, commit_index, delete_children, remove_documents}
use osmem.Compact.{compact_runs}
use osmem.Write.{State, put_doc}
use osmem.Write.Delete.{delete_doc, DeleteOutcome, routed_current}
use osmem.Write.Effect.{PutEffect, put_doc-PutEffect}
use osmem.Write.Gone.{DeleteEffect, Reaches, delete_doc-DeleteEffect}
use osmem.Write.Versions.{put_doc-Grows, put_doc-delete_doc}
use osmem.Write.Sequence.{Writes, no_write, then_write, put, deleted, IsNumbered, Writes-IsNumbered}
use osmem.Samples.{engine, empty_registry, start, request}

abbrev after_put : State
after_put = (put_doc 2 engine empty_registry start "a" "{}" (request index) false).0

abbrev after_update : State
after_update = (put_doc 2 engine empty_registry after_put "a" "{1}" (request index) false).0

abbrev after_delete : State
after_delete = (delete_doc 2 engine empty_registry after_update "a" (request delete) false).0

abbrev after_again : State
after_again = (put_doc 2 engine empty_registry after_delete "a" "{2}" (request index) false).0

abbrev doc : String → ℤ → ℕ → Doc
doc source v n = record {
  id = "a";
  source = source;
  version = v;
  seq_no = pos n;
  primary_term = pos 1;
  routing = "";
}

abbrev outcome : DeleteOutcome
outcome = record { found = true; version = pos 3; seq_no = pos 2 }

with_result {ℓ} : {A : Type ℓ} {B : Type ℓ} {r : B} (x : A × B) → x.1 ≡ r → x ≡ (x.0, r)
with_result x e = ap (λ r. (x.0, r)) e

puts :
    put_doc 2 engine empty_registry start "a" "{}" (request index) false
    ≡ (after_put, ok (doc "{}" (pos 1) 0, true))
unfolding put_doc check_write add_documents queue_documents commit_index commit delete_children
    compact_runs runs_to_merge update_version inc64 tombstone raw_tombstone
puts = with_result _ refl

updates :
    put_doc 2 engine empty_registry after_put "a" "{1}" (request index) false
    ≡ (after_update, ok (doc "{1}" (pos 2) 1, false))
unfolding put_doc check_write add_documents queue_documents commit_index commit delete_children
    compact_runs runs_to_merge update_version inc64 tombstone raw_tombstone
updates = with_result _ refl

deletes :
    delete_doc 2 engine empty_registry after_update "a" (request delete) false
    ≡ (after_delete, ok outcome)
unfolding put_doc check_write add_documents queue_documents commit_index commit delete_children
    compact_runs runs_to_merge update_version inc64 tombstone raw_tombstone delete_doc
    remove_documents lookup expired sub_clamped ◌-ℤ◌
deletes = with_result _ refl

-- PUT, PUT, DELETE, PUT gives version 4.
puts_again :
    put_doc 2 engine empty_registry after_delete "a" "{2}" (request index) false
    ≡ (after_again, ok (doc "{2}" (pos 4) 3, true))
unfolding put_doc check_write add_documents queue_documents commit_index commit delete_children
    compact_runs runs_to_merge update_version inc64 tombstone raw_tombstone delete_doc
    remove_documents lookup expired sub_clamped ◌-ℤ◌ add_tombstone without clear_tombstone
puts_again = with_result _ refl

stored : lookup "a" after_put.index.docs ≡ some (doc "{}" (pos 1) 0)
unfolding put_doc check_write add_documents queue_documents commit_index commit delete_children
    compact_runs runs_to_merge update_version inc64 tombstone raw_tombstone lookup
stored = refl

reaches : Reaches empty_registry after_update "a" (request delete) false
unfolding put_doc check_write add_documents queue_documents commit_index commit delete_children
    compact_runs runs_to_merge update_version inc64 tombstone raw_tombstone lookup routed_current
reaches = refl

same_window : after_update.index.gc_deletes ≡ pos 60000000000
unfolding put_doc check_write add_documents queue_documents commit_index commit delete_children
    compact_runs runs_to_merge update_version inc64 tombstone raw_tombstone
same_window = refl

window : pos 0 ≤ℤ after_update.index.gc_deletes
window = rw same_window (omega arith)

first_number : start.index.seq_no ≡ negsuc 0
first_number = refl

second_number : after_put.index.seq_no ≡ pos 0
unfolding put_doc check_write add_documents queue_documents commit_index commit delete_children
    compact_runs runs_to_merge update_version inc64 tombstone raw_tombstone
second_number = refl

third_number : after_update.index.seq_no ≡ pos 1
unfolding put_doc check_write add_documents queue_documents commit_index commit delete_children
    compact_runs runs_to_merge update_version inc64 tombstone raw_tombstone
third_number = refl

history : Writes 2 engine empty_registry start after_delete
history =
    then_write
      (then_write
        (then_write no_write
          (put "a" "{}" (request index) false true (doc "{}" (pos 1) 0) (omega arith) puts))
        (put "a" "{1}" (request index) false false (doc "{1}" (pos 2) 1)
          (rw second_number (omega arith)) updates))
      (deleted "a" (request delete) false outcome (rw third_number (omega arith)) window reaches
        deletes)

numbered : IsNumbered start.index.docs start.index.seq_no
unfolding lookup
numbered = record { bounded = λ id d h. ground arith; distinct = λ i j c d h k e. ground arith }

put_doc-PutEffect_example :
    PutEffect engine empty_registry after_put "a" "{1}"
      (request index)
      (doc "{1}" (pos 2) 1)
      after_update
put_doc-PutEffect_example =
    put_doc-PutEffect 2 engine empty_registry after_put after_update "a" "{1}" (request index) false
      false (doc "{1}" (pos 2) 1) updates

delete_doc-DeleteEffect_example : DeleteEffect empty_registry after_update "a" outcome after_delete
delete_doc-DeleteEffect_example =
    delete_doc-DeleteEffect 2 engine empty_registry after_update after_delete "a" (request delete)
      false outcome reaches deletes window

put_doc-Grows_example : pos 1 <ℤ pos 2
put_doc-Grows_example =
    put_doc-Grows 2 engine empty_registry after_put after_update "a" "{1}" (request index) false
      (doc "{}" (pos 1) 0) (doc "{1}" (pos 2) 1) updates stored (ground arith) (omega arith)

put_doc-delete_doc_example : pos 4 ≡ inc64 (pos 3)
put_doc-delete_doc_example =
    put_doc-delete_doc 2 engine empty_registry after_update after_delete after_again "a" "{2}"
      (request delete) (request index) false true outcome (doc "{2}" (pos 4) 3) reaches deletes
      window puts_again refl (ground arith)

Writes-IsNumbered_example : IsNumbered after_delete.index.docs after_delete.index.seq_no
Writes-IsNumbered_example =
    Writes-IsNumbered 2 engine empty_registry start after_delete history numbered
