-- ===== src/Samples/Clusters.antt =====
-- A cluster, its clone and a write on the clone, and what the theorems say of them.
use osmem.Prelude.{
  ℕ, String, false, none, some, [], ◌∷◌, ◌≡◌, refl, ap, inl, arith, eqb_iff, ◌+◌, ◌<◌, ◌≤◌, zero,
  suc,
}
use osmem.Prelude.Int.{pos}
use osmem.Prelude.Dict.{string_keys, nat_keys, lookup, insert}
use osmem.Prelude.Distinct.{Distinct, holders}
use osmem.Error.{ok}
use osmem.Index.{Index, commit_index, add_documents, set_children, queue_documents, delete_children}
use osmem.Segment.{commit, commit_roots, commit_root, leave, place, sweep, enter}
use osmem.Tombstone.{current}
use osmem.Tombstone.Tx.{add_tombstone, commit as commit_deletions}
use osmem.Cluster.{
  Cluster, World, empty_cluster, clone, close, put_at, retain_all, retain, release, handles,
}
use osmem.Cluster.Copy.{
  Opener, rebuild, writable, copy_index, rebuild_docs, rebuild_doc, count_doc, count_copy, allocate,
}
use osmem.Cluster.Sums.{occurrences, held, total, pit_holds}
use osmem.Cluster.Counted.{IsCounted, clone-IsCounted}
use osmem.Cluster.Safety.{none_yet, then_step, cloned, shut, made_writable, Steps-IsCounted}
use osmem.Cluster.Isolation.{seen, write_to}
use osmem.Cluster.Private.{writable-seen}
use osmem.Cluster.Notes.{Notes, carry, doc_writable}
use osmem.Cluster.Inherited.{doc_writable-current}
use osmem.Samples.{books, book, engine}
use osmem.Samples.Deletions.{after_first, snapshot, first_snapshot}

-- `books` with one document, after the deletion of another; a point in time pins a second index.
abbrev library : Index
library = record books { docs = ("b", record book { id = "b" }) ∷ []; seq_no = pos 2 }

abbrev owner : Cluster
owner = record {
  indices = ("books", 1) ∷ [];
  pits = ("p", record { targets = 0 ∷ []; lost = [] }) ∷ [];
  closed = false;
}

abbrev clusters : ℕ → Cluster
clusters zero = owner
clusters (suc c) = empty_cluster

abbrev one_each : ℕ → ℕ
one_each zero = 1
one_each (suc zero) = 1
one_each (suc (suc h)) = 0

abbrev alone : World
alone = record {
  cluster_at = clusters;
  next_cluster = 1;
  index_at = λ h. record library { handle = h };
  counts = record { refs = one_each; closed = λ h. false };
  next_index = 2;
}

abbrev opener : Opener
opener = record { engine = engine; new_index = λ ix. none }

unheld : (h c : ℕ) → 2 ≤ h → held h (clusters c) ≡ 0
unfolding holders pit_holds occurrences
unheld h zero le = ground (arith, eqb_iff 0 h, eqb_iff 1 h)
unheld h (suc c) le = refl

held_once : (h : ℕ) → one_each h ≡ held h owner + 0
unfolding holders pit_holds occurrences
held_once zero = refl
held_once (suc zero) = refl
held_once (suc (suc h)) = omega (arith, unheld (suc (suc h)) 0 (omega arith))

names : (c : ℕ) → Distinct (clusters c).indices
unfolding lookup
names zero = (refl, tt)
names (suc c) = tt

pit_ids : (c : ℕ) → Distinct (clusters c).pits
unfolding lookup
pit_ids zero = (refl, tt)
pit_ids (suc c) = tt

alone-IsCounted : IsCounted alone
unfolding total
alone-IsCounted = record {
  counted = held_once;
  fresh = λ h c le. unheld h c le;
  is_open = λ h p. refl;
  names = names;
  pit_ids = pit_ids;
}

-- The original and a clone of it.
abbrev two : World
unfolding clone
two = clone alone 0

two-IsCounted : IsCounted two
unfolding clone
two-IsCounted = clone-IsCounted alone 0 alone-IsCounted (omega arith)

abbrev written : World
unfolding writable
written = (writable opener two 1 "books").0

done : writable opener two 1 "books" ≡ (written, ok 2)
unfolding clone writable written copy_index rebuild rebuild_docs rebuild_doc count_doc count_copy
    allocate put_at retain_all retain release handles lookup insert commit_index add_documents
    set_children queue_documents delete_children commit commit_roots commit_root leave place sweep
    enter
done = refl

-- Two clones, of which the first is closed and the second writes.
abbrev one_closed : World
unfolding clone close
one_closed = close (clone two 0) 1

Steps-IsCounted_example : IsCounted (writable opener one_closed 2 "books").0
unfolding clone close put_at
Steps-IsCounted_example =
    Steps-IsCounted opener alone (writable opener one_closed 2 "books").0
      (then_step
        (then_step
          (then_step (then_step none_yet (cloned 0 (omega arith))) (cloned 0 (omega arith)))
          (shut 1 (omega arith)))
        (made_writable 2 "books" (omega arith)))
      alone-IsCounted

writable-seen_example : seen (write_to written 2 books) 0 "books" ≡ seen two 0 "books"
unfolding clone
writable-seen_example =
    writable-seen opener two written 1 "books" 2 two-IsCounted (omega arith) done books 0 "books"
      (omega arith) (inl (omega arith))

pinned : 0 < pit_holds 0 (two.cluster_at 0).pits
unfolding clone put_at pit_holds occurrences
pinned = omega arith

one_document : Distinct library.docs
unfolding lookup
one_document = (refl, tt)

abbrev notes : Notes
notes = record { registry = after_first; last_seen = λ c. [] }

abbrev noted : Notes
noted = (carry (λ h. false) notes 1 (lookup "books" (two.cluster_at 1).indices) (written, ok 2)).1

written_with_notes : doc_writable (λ h. false) opener two notes 1 "books" ≡ (written, noted, ok 2)
unfolding doc_writable
written_with_notes =
    ap (carry (λ h. false) notes 1 (lookup "books" (two.cluster_at 1).indices)) done

cloned_books : lookup "books" (two.cluster_at 1).indices ≡ some 1
unfolding clone put_at lookup
cloned_books = refl

not_next : after_first.history 2 ≡ none
unfolding commit_deletions add_tombstone insert
not_next = refl

doc_writable-current_example :
    (current noted.registry 2 ≡ current after_first 1)
    × ((id : String) → lookup id (written.index_at 2).docs ≡ lookup id library.docs)
    × ((written.index_at 2).seq_no ≡ library.seq_no)
unfolding clone lookup
doc_writable-current_example =
    doc_writable-current (λ h. false) opener two written notes noted 1 1 2 "books" snapshot
      cloned_books one_document refl not_next first_snapshot (omega arith) (inl refl)
      written_with_notes
