-- ===== src/Samples/Batches.antt =====
-- A put of a bulk request that the checks refuse, and what stays.
use osmem.Prelude.{false, [], ◌∷◌, ◌≡◌, refl}
use osmem.Prelude.Int.{pos}
use osmem.Prelude.Dict.{string_keys, lookup}
use osmem.Error.{err, version_conflict, already_exists}
use osmem.Version.{create, check_write}
use osmem.Segment.{DocBatch, puts}
use osmem.Index.{Index}
use osmem.Tombstone.Tx.{new_doc_tx}
use osmem.Write.{State, put_doc}
use osmem.Write.Refused.{in_batch, SameButMapping, put_doc-SameButMapping}
use osmem.Samples.{engine, empty_registry, books, request, book}

abbrev stocked : Index
stocked = record books { docs = ("a", book) ∷ []; seq_no = pos 0 }

abbrev queued : DocBatch
queued = record { ops = puts "b" ∷ []; roots = record { id = "b"; deleted = false } ∷ [] }

abbrev bulk : State
bulk = in_batch stocked (new_doc_tx (pos 1000)) queued

-- The refused put has changed the mapping.
abbrev refused : State
refused = record bulk { index = record stocked { mapping = "{1}" } }

put_fails :
    put_doc 0 engine empty_registry bulk "a" "{1}" (request create) false
    ≡ (refused, err (version_conflict "books" "a" (already_exists (pos 1))))
unfolding put_doc check_write lookup
put_fails = refl

put_doc-SameButMapping_example :
    SameButMapping stocked refused.index × (refused.tx ≡ new_doc_tx (pos 1000))
put_doc-SameButMapping_example =
    put_doc-SameButMapping 0 engine stocked (new_doc_tx (pos 1000)) queued "a" empty_registry "{1}"
      (request create) false refused (version_conflict "books" "a" (already_exists (pos 1)))
      put_fails
