-- ===== src/Write/Gone.antt =====
-- What a request sees after a successful `deleteDoc` (docs.go).
use osmem.Prelude.{
  ℕ, String, Bool, true, false, not, ◌&&◌, none, some, ◌≡◌, refl, sym, subst, ◌∙◌, ap, ap₂, arith,
  if◌then◌else◌, eqb_iff,
}
use osmem.Prelude.Int.{ℤ, pos, inc64, ◌≤ℤ◌, sub_clamped_self}
use osmem.Prelude.Dict.{◌==◌, string_keys, lookup, lookup-remove}
use osmem.Error.{ok}
use osmem.Version.{DocParams}
use osmem.Segment.Counts.{IsTidy}
use osmem.Index.{Index, Engine}
use osmem.Tombstone.{Registry, expired}
use osmem.Tombstone.Tx.{DocTx, tombstone, add_tombstone, unless_expired}
use osmem.Tombstone.View.{raw_tombstone-add}
use osmem.Write.{State, Current, current_version, is_none}
use osmem.Write.Delete.{DeleteOutcome, routed_current, as_delete, delete_doc}
use osmem.Write.Effect.{view, tombstone-same}
use osmem.Write.Removal.{cleared, dead, DeletePath, DeleteDone, delete_doc-DeleteDone, new_version}
use text.Mathlib.TextEquality.{eq_iff}

-- A tombstone of this moment has not expired, in a window that is not negative.
fresh-visible :
    (now gc v n : ℤ)
    → pos 0 ≤ℤ gc
    → unless_expired now gc (some (dead v n now)) ≡ some (dead v n now)
unfolding expired
fresh-visible now gc v n h = ground (arith, sub_clamped_self now)

-- What a request sees of an id that it has deleted.
abbrev pub gone : ℤ → Current
gone v = record { existing = none; version = v; deleted = true }

cleared-docs :
    (found : Bool) (ix : Index) (id j : String)
    → lookup j (cleared found ix id).docs ≡ (if found && id == j then none else lookup j ix.docs)
cleared-docs true ix id j = lookup-remove id j ix.docs
cleared-docs false ix id j = refl

cleared-handle :
    (found : Bool) (ix : Index) (id : String) → (cleared found ix id).handle ≡ ix.handle
cleared-handle true ix id = refl
cleared-handle false ix id = refl

cleared-gc :
    (found : Bool) (ix : Index) (id : String) → (cleared found ix id).gc_deletes ≡ ix.gc_deletes
cleared-gc true ix id = refl
cleared-gc false ix id = refl

cleared-seq_no :
    (found : Bool) (ix : Index) (id : String) → (cleared found ix id).seq_no ≡ ix.seq_no
cleared-seq_no true ix id = refl
cleared-seq_no false ix id = refl

cleared-IsTidy :
    (found : Bool) (ix : Index) (id : String)
    → IsTidy ix.segments
    → IsTidy (cleared found ix id).segments
cleared-IsTidy true ix id t = t
cleared-IsTidy false ix id t = t

tombstone-add :
    (reg : Registry) (tx : DocTx) (ix : Index) (id j : String) (v n : ℤ)
    → pos 0 ≤ℤ ix.gc_deletes
    → tombstone reg (add_tombstone tx ix id (dead v n tx.now)) ix j
      ≡ (if id == j then some (dead v n tx.now) else tombstone reg tx ix j)
unfolding tombstone add_tombstone
tombstone-add reg tx ix id j v n h = ground (
  arith,
  raw_tombstone-add reg tx ix ix id j (dead v n tx.now),
  eqb_iff ix.handle ix.handle,
  fresh-visible tx.now ix.gc_deletes v n h,
)

module _ (reg : Registry) (s new : State) (id : String) (v : ℤ) (out : DeleteOutcome)
    (p : DeletePath s id v out new) where
  path-handle : p.after.handle ≡ s.index.handle
  path-handle = p.compacted.handle ∙ cleared-handle out.found p.before id ∙ p.prepared.handle

  path-gc : p.after.gc_deletes ≡ s.index.gc_deletes
  path-gc = p.compacted.gc_deletes ∙ cleared-gc out.found p.before id ∙ p.prepared.gc_deletes

  path-seq_no : p.after.seq_no ≡ s.index.seq_no
  path-seq_no = p.compacted.seq_no ∙ cleared-seq_no out.found p.before id ∙ p.prepared.seq_no

  path-docs :
      (j : String)
      → lookup j new.index.docs ≡ (if out.found && id == j then none else lookup j s.index.docs)
  path-docs j =
      ap (λ (x : Index). lookup j x.docs) p.index
      ∙ p.compacted.docs j
      ∙ cleared-docs out.found p.before id j
      ∙ ap (λ o. if out.found && id == j then none else o) (p.prepared.docs j)

  path-tombstone :
      (j : String)
      → pos 0 ≤ℤ s.index.gc_deletes
      → tombstone reg new.tx new.index j ≡ (
          if id == j
          then some (dead v (inc64 s.index.seq_no) s.tx.now)
          else tombstone reg s.tx s.index j)
  path-tombstone j h =
      ap₂ (λ tx ix. tombstone reg tx ix j) p.tx p.index
      ∙ tombstone-same reg (add_tombstone s.tx p.after id (dead v (inc64 p.after.seq_no) s.tx.now))
          p.after (record p.after { seq_no = inc64 p.after.seq_no }) j refl refl
      ∙ tombstone-add reg s.tx p.after id j v (inc64 p.after.seq_no)
          (subst (λ g. pos 0 ≤ℤ g) (sym path-gc) h)
      ∙ ap₂ (λ n o. if id == j then some (dead v (inc64 n) s.tx.now) else o) path-seq_no
          (tombstone-same reg s.tx s.index p.after j path-handle path-gc)

pub record DeleteEffect (reg : Registry) (s : State) (id : String) (out : DeleteOutcome)
    (new : State) : Type 0 where
  pub view_after :
      (j : String) → view reg new j ≡ (if id == j then gone out.version else view reg s j)
  pub tombstone_after :
      (j : String)
      → tombstone reg new.tx new.index j ≡ (
          if id == j
          then some (dead out.version out.seq_no s.tx.now)
          else tombstone reg s.tx s.index j)
  pub next_seq_no : new.index.seq_no ≡ inc64 s.index.seq_no
  pub outcome_seq_no : out.seq_no ≡ new.index.seq_no
  pub docs_after :
      (j : String) → lookup j new.index.docs ≡ (if id == j then none else lookup j s.index.docs)
  pub same_handle : new.index.handle ≡ s.index.handle
  pub tidy : IsTidy s.index.segments → IsTidy new.index.segments

view-lookup :
    (reg : Registry) (s : State) (id : String) → (view reg s id).existing ≡ lookup id s.index.docs
unfolding current_version
view-lookup reg s id = ground arith

path-DeleteEffect :
    (reg : Registry) (s new : State) (id : String) (v : ℤ) (out : DeleteOutcome)
    → DeletePath s id v out new
    → out.found ≡ not (is_none (lookup id s.index.docs))
    → pos 0 ≤ℤ s.index.gc_deletes
    → DeleteEffect reg s id out new
path-DeleteEffect reg s new id v out p found h = record {
  view_after = λ j.
      unfold current_version in
      ground (
        arith,
        path-docs reg s new id v out p j,
        path-tombstone reg s new id v out p j h,
        eq_iff id j,
        p.outcome_version,
      );
  tombstone_after = λ j.
      path-tombstone reg s new id v out p j h
      ∙ ap₂ (λ k n. if id == j then some (dead k n s.tx.now) else tombstone reg s.tx s.index j)
          (sym p.outcome_version)
          (sym (p.outcome_seq_no ∙ ap inc64 (path-seq_no reg s new id v out p)));
  next_seq_no = ap (λ (x : Index). x.seq_no) p.index ∙ ap inc64 (path-seq_no reg s new id v out p);
  outcome_seq_no = p.outcome_seq_no ∙ sym (ap (λ (x : Index). x.seq_no) p.index);
  docs_after = λ j. ground (arith, path-docs reg s new id v out p j, eq_iff id j);
  same_handle = ap (λ (x : Index). x.handle) p.index ∙ path-handle reg s new id v out p;
  tidy = λ t.
      subst (λ (x : Index). IsTidy x.segments) (sym p.index)
        (p.compacted.tidy (cleared-IsTidy out.found p.before id (p.prepared.tidy t)));
}

-- The request's routing does not hide the document, if there is one.
abbrev pub Reaches : Registry → State → String → DocParams → Bool → Type 0
Reaches reg s id dp routed =
    routed_current s.index id (as_delete dp) routed (view reg s id) ≡ view reg s id

-- A delete that succeeds.
module _ (fuel : ℕ) (e : Engine) (reg : Registry) (s new : State) (id : String) (dp : DocParams)
    (routed : Bool) (out : DeleteOutcome) (reaches : Reaches reg s id dp routed)
    (done : delete_doc fuel e reg s id dp routed ≡ (new, ok out)) where
  facts : DeleteDone fuel e s id (as_delete dp) (view reg s id) (new, ok out)
  facts = subst (DeleteDone fuel e s id (as_delete dp) (view reg s id)) done (
      subst (λ c. DeleteDone fuel e s id (as_delete dp) c (delete_doc fuel e reg s id dp routed))
        reaches (delete_doc-DeleteDone fuel e s id reg dp routed))

  pub delete_doc-found : out.found ≡ not (is_none (lookup id s.index.docs))
  delete_doc-found = facts.0.1 ∙ ap (λ o. not (is_none o)) (view-lookup reg s id)

  -- A delete that succeeds, of a document that the request's routing does not hide, in an index whose
  -- window of index.gc_deletes is not negative, takes the next sequence number. No document is then
  -- stored under the id; the request sees the id deleted in the version that the delete returns, by
  -- a tombstone of this version, sequence number and moment; and every other document and tombstone
  -- is as before. The runs stay in order, and the index keeps its handle.
  pub delete_doc-DeleteEffect : pos 0 ≤ℤ s.index.gc_deletes → DeleteEffect reg s id out new
  delete_doc-DeleteEffect h =
      path-DeleteEffect reg s new id (new_version fuel e s id (as_delete dp) (view reg s id)) out
        facts.0.0 delete_doc-found h
