-- ===== src/Write/Removal.antt =====
-- What a successful `deleteDoc` has changed (docs.go).
use osmem.Prelude.{
  ℕ, String, Bool, true, false, not, Option, none, some, ◌≡◌, refl, sym, subst, ap, inl, inr,
  Bool-cases, Option-cases,
}
use osmem.Prelude.Int.{ℤ, inc64}
use osmem.Prelude.Dict.{string_keys}
use osmem.Error.{Error, Result, ok, err}
use osmem.Version.{DocParams, check_write, update_version, version_type, version}
use osmem.Segment.{DocBatch}
use osmem.Index.{Index, Engine, remove_documents}
use osmem.Index.Keeps.{Keeps, Keeps-refl}
use osmem.Tombstone.{Tombstone, Registry}
use osmem.Tombstone.Tx.{add_tombstone}
use osmem.Write.{
  State, Current, or_new, is_none, queue_kept, commit_unless_batched, compact_unless_batched,
}
use osmem.Write.Delete.{
  DeleteOutcome, finish_delete, end_delete, unstore, after_delete_commit, delete_stored,
  routed_current, delete_planned, as_delete, delete_doc,
}
use osmem.Write.Path.{commit_unless_batched-Keeps, compact_unless_batched-Keeps}
use osmem.Write.Effect.{view}

-- The index without the document, if there was one.
abbrev pub cleared : Bool → Index → String → Index
cleared true ix id = unstore ix id
cleared false ix id = ix

abbrev pub dead : ℤ → ℤ → ℤ → Tombstone
dead v n now = record { version = v; seq_no = n; at = now }

pub record DeletePath (s : State) (id : String) (v : ℤ) (out : DeleteOutcome) (new : State)
    : Type 0 where
  pub before : Index
  pub after : Index
  pub prepared : Keeps s.index before
  pub compacted : Keeps (cleared out.found before id) after
  pub index : new.index ≡ record after { seq_no = inc64 after.seq_no }
  pub tx : new.tx ≡ add_tombstone s.tx after id (dead v (inc64 after.seq_no) s.tx.now)
  pub outcome_version : out.version ≡ v
  pub outcome_seq_no : out.seq_no ≡ inc64 after.seq_no

abbrev pub DeleteOk : State → String → ℤ → Bool → State × Result DeleteOutcome → Type 0
DeleteOk s id v found (new, ok out) = DeletePath s id v out new × (out.found ≡ found)
DeleteOk s id v found (new, err x) = Unit

finish_delete-DeleteOk :
    (s t : State) (id : String) (v : ℤ) (found : Bool) (before : Index)
    → Keeps s.index before
    → t.tx ≡ s.tx
    → Keeps (cleared found before id) t.index
    → DeleteOk s id v found (finish_delete t id found v)
unfolding finish_delete
finish_delete-DeleteOk s t id v found before p same k = (
  record {
    before = before;
    after = t.index;
    prepared = p;
    compacted = k;
    index = refl;
    tx = ap (λ tx. add_tombstone tx t.index id (dead v (inc64 t.index.seq_no) tx.now)) same;
    outcome_version = refl;
    outcome_seq_no = refl;
  },
  refl,
)

end_delete-DeleteOk :
    (s t : State) (id : String) (v : ℤ) (before : Index) (r : Index × Option Error)
    → Keeps s.index before
    → t.tx ≡ s.tx
    → Keeps (unstore before id) r.0
    → DeleteOk s id v true (end_delete t id v r)
end_delete-DeleteOk s t id v before (ix, some x) p same k = tt
end_delete-DeleteOk s t id v before (ix, none) p same k =
    finish_delete-DeleteOk s (record t { index = ix }) id v true before p same k

module _ (fuel : ℕ) (e : Engine) (s : State) (id : String) where
  after_delete_commit-DeleteOk :
      (v : ℤ) (b : DocBatch) (r : Index × Option Error)
      → Keeps s.index r.0
      → DeleteOk s id v true (after_delete_commit fuel e s id v b r)
  after_delete_commit-DeleteOk v b (ix, some x) k = tt
  after_delete_commit-DeleteOk v b (ix, none) k =
      end_delete-DeleteOk s (record s { batch = queue_kept s.batch b }) id v ix
        (compact_unless_batched fuel e s.batch (unstore ix id)) k refl
        (compact_unless_batched-Keeps fuel e s.batch (unstore ix id))

  delete_stored-DeleteOk : (v : ℤ) → DeleteOk s id v true (delete_stored fuel e s id v)
  unfolding delete_stored
  delete_stored-DeleteOk v =
      let b = remove_documents s.index (or_new s.batch) id in
      after_delete_commit-DeleteOk v b (commit_unless_batched e s.batch s.index b)
        (commit_unless_batched-Keeps e s.batch s.index b)

  abbrev pub new_version : DocParams → Current → ℤ
  new_version dp c = update_version (version_type dp) c.version (version dp)

  abbrev pub delete_error : DocParams → Current → Option Error
  delete_error dp c = check_write s.index.name id dp c.existing c.version c.deleted

  -- A delete that is not refused.
  abbrev pub DeleteDone : DocParams → Current → State × Result DeleteOutcome → Type 0
  DeleteDone dp c (new, ok out) =
      DeleteOk s id (new_version dp c) (not (is_none c.existing)) (new, ok out)
      × (delete_error dp c ≡ none)
  DeleteDone dp c (new, err x) = Unit

  done_of_ok :
      (dp : DocParams) (c : Current) (r : State × Result DeleteOutcome)
      → delete_error dp c ≡ none
      → DeleteOk s id (new_version dp c) (not (is_none c.existing)) r
      → DeleteDone dp c r
  done_of_ok dp c (new, ok out) free p = (p, free)
  done_of_ok dp c (new, err x) free p = tt

  pub delete_planned-missing :
      (dp : DocParams) (c : Current)
      → delete_error dp c ≡ none
      → is_none c.existing ≡ true
      → delete_planned fuel e s id dp c ≡ finish_delete s id false (new_version dp c)
  unfolding delete_planned
  delete_planned-missing dp c free gone = rw (free, delete_planned) (rw gone)

  pub delete_planned-found :
      (dp : DocParams) (c : Current)
      → delete_error dp c ≡ none
      → is_none c.existing ≡ false
      → delete_planned fuel e s id dp c ≡ delete_stored fuel e s id (new_version dp c)
  unfolding delete_planned
  delete_planned-found dp c free there = rw (free, delete_planned) (rw there)

  pub delete_planned-refused :
      (dp : DocParams) (c : Current) (x : Error)
      → delete_error dp c ≡ some x
      → delete_planned fuel e s id dp c ≡ (s, err x)
  unfolding delete_planned
  delete_planned-refused dp c x f = rw (f, delete_planned)

  delete_planned-DeleteDone :
      (dp : DocParams) (c : Current) → DeleteDone dp c (delete_planned fuel e s id dp c)
  delete_planned-DeleteDone dp c = elim (Option-cases (delete_error dp c)) [
    | inr (x, f) ↦ subst (DeleteDone dp c) (sym (delete_planned-refused dp c x f)) tt
    | inl free ↦ elim (Bool-cases (is_none c.existing)) [
      | inl gone ↦ subst (DeleteDone dp c) (sym (delete_planned-missing dp c free gone)) (
          done_of_ok dp c (finish_delete s id false (new_version dp c)) free (
            rw gone (
              finish_delete-DeleteOk s s id (new_version dp c) false s.index (Keeps-refl s.index)
                refl (Keeps-refl s.index))))
      | inr there ↦ subst (DeleteDone dp c) (sym (delete_planned-found dp c free there)) (
          done_of_ok dp c (delete_stored fuel e s id (new_version dp c)) free
            (rw there (delete_stored-DeleteOk (new_version dp c))))
    ]
  ]

  pub delete_doc-DeleteDone :
      (reg : Registry) (dp : DocParams) (routed : Bool)
      → DeleteDone
          (as_delete dp)
          (routed_current s.index id (as_delete dp) routed (view reg s id))
          (delete_doc fuel e reg s id dp routed)
  unfolding delete_doc
  delete_doc-DeleteDone reg dp routed =
      delete_planned-DeleteDone (as_delete dp)
        (routed_current s.index id (as_delete dp) routed (view reg s id))
