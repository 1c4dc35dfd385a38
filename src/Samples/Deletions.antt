-- ===== src/Samples/Deletions.antt =====
-- Tombstones of two indices and a copy, and what the theorems say of them.
use osmem.Prelude.{false, none, some, [], ◌∷◌, ◌≡◌, refl, inl, inr, arith}
use osmem.Prelude.Int.{ℤ, pos, ◌≤ℤ◌}
use osmem.Prelude.Dict.{
  string_keys, nat_keys, lookup, member, insert, insert_all, remove_all, without, retain,
}
use osmem.Index.{Index}
use osmem.Tombstone.{Tombstone, Registry, Snapshot, current, newest, inherit_locked}
use osmem.Tombstone.Tx.{DocTx, new_doc_tx, add_tombstone, commit, raw_tombstone, unless_expired}
use osmem.Tombstone.Sharing.{AllNew, IsSeparated, history_of}
use osmem.Tombstone.Publish.{IsApart, add_tombstone-IsApart}
use osmem.Tombstone.Commit.{commit-IsSeparated, commit-seen}
use osmem.Tombstone.Inherit.{inherit_locked-current, inherit_locked-IsSeparated}
use osmem.Samples.{empty_registry, books}

abbrev magazines : Index
magazines = record books { handle = 2; name = "magazines"; uuid = "u2" }

-- A copy of `books`, made after the deletion of "a".
abbrev copy : Index
copy = record books { handle = 3; seq_no = pos 5 }

abbrev deleted_a : Tombstone
deleted_a = record { version = pos 3; seq_no = pos 2; at = pos 1000 }

abbrev books_after : Index
books_after = record books { seq_no = pos 2 }

abbrev first_request : DocTx
first_request = add_tombstone (new_doc_tx (pos 1000)) books "a" deleted_a

abbrev second_request : DocTx
second_request = add_tombstone (new_doc_tx (pos 1500)) magazines "m" deleted_a

abbrev pub after_first : Registry
after_first = commit empty_registry first_request (books_after ∷ [])

empty-IsSeparated : IsSeparated empty_registry
empty-IsSeparated = record {
  marked = λ i j s t a b ne e. absurd a;
  below = λ i s a. absurd a;
  once = λ i. tt;
}

new-IsApart : (now : ℤ) → IsApart (new_doc_tx now)
unfolding lookup
new-IsApart now h id m = refl

first-IsApart : IsApart first_request
first-IsApart =
    add_tombstone-IsApart (new_doc_tx (pos 1000)) books "a" deleted_a (new-IsApart (pos 1000))

first-IsSeparated : IsSeparated after_first
first-IsSeparated =
    commit-IsSeparated empty_registry first_request (books_after ∷ []) empty-IsSeparated

abbrev pub snapshot : Snapshot
snapshot = record { seq_no = pos 2; items = 0; copies = 0; shared = false; prune_at = 66 }

pub first_snapshot : newest (history_of after_first 1) ≡ some snapshot
unfolding commit add_tombstone insert insert_all remove_all without retain
first_snapshot = refl

not_registered : after_first.history 3 ≡ none
unfolding commit add_tombstone insert
not_registered = refl

commit-IsSeparated_example : IsSeparated (commit after_first second_request (magazines ∷ []))
commit-IsSeparated_example =
    commit-IsSeparated after_first second_request (magazines ∷ []) first-IsSeparated

abbrev both_requests : DocTx
both_requests = add_tombstone first_request magazines "m" deleted_a

both-IsApart : IsApart both_requests
both-IsApart = add_tombstone-IsApart first_request magazines "m" deleted_a first-IsApart

two_handles : AllNew (2 ∷ 1 ∷ [])
unfolding member
two_handles = (refl, (refl, tt))

in_time : both_requests.now ≤ℤ pos 2000
unfolding add_tombstone
in_time = omega arith

commit-seen_example :
    unless_expired
      (pos 2000)
      (pos 60000000000)
      (lookup "a" (current (commit empty_registry both_requests (magazines ∷ books_after ∷ [])) 1))
    ≡ unless_expired
        (pos 2000)
        (pos 60000000000)
        (raw_tombstone empty_registry both_requests books_after "a")
commit-seen_example =
    commit-seen empty_registry both_requests (magazines ∷ books_after ∷ []) books_after "a"
      (pos 2000) empty-IsSeparated both-IsApart two_handles (inr (inl refl)) in_time

inherit_locked-current_example :
    current (inherit_locked after_first books_after copy) 3 ≡ current after_first 1
inherit_locked-current_example =
    inherit_locked-current after_first books_after copy snapshot not_registered first_snapshot
      (omega arith)

inherit_locked-IsSeparated_example : IsSeparated (inherit_locked after_first books_after copy)
inherit_locked-IsSeparated_example =
    inherit_locked-IsSeparated after_first books_after copy first-IsSeparated
