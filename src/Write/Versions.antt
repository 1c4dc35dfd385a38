-- ===== src/Write/Versions.antt =====
-- The versions that writes give (docs.go, `putDoc`, `deleteDoc`).
use osmem.Prelude.{
  ℕ, String, Bool, true, false, Option, none, some, ◌≡◌, ◌≢◌, sym, subst, ◌∙◌, ap, inl, inr, arith,
  if◌then◌else◌, ◌<◌, Option-cases,
}
use text.Mathlib.TextEquality.{eq_iff}
use osmem.Prelude.Int.{eqb_ℤ_iff, ℤ, pos, pos_part, inc64, ◌≤ℤ◌, max_int64}
use osmem.Prelude.Dict.{◌==◌, string_keys, lookup}
use osmem.Error.{Conflict, ok}
use osmem.Version.{
  Doc, DocParams, VersionType, internal, check_write, write_conflict, version_conflict_for_writes,
  version_type, resolved_version, update_version, version_not_found, or_else,
}
use osmem.Version.Growth.{Grows, update_version-Grows}
use osmem.Index.{Engine}
use osmem.Tombstone.{Registry}
use osmem.Write.{State, Current, current_version, put_doc, put_error}
use osmem.Write.Delete.{delete_doc, DeleteOutcome}
use osmem.Write.Effect.{view, live, put_doc-stored, put_doc-unrefused}
use osmem.Write.Gone.{gone, DeleteEffect, Reaches, delete_doc-DeleteEffect}

or_else-none : (x y : Option Conflict) → or_else x y ≡ none → y ≡ none
or_else-none none y h = h
or_else-none (some c) y h = ground arith

-- A write that is not refused has no conflict.
unrefused :
    (name id : String) (dp : DocParams) (existing : Option Doc) (current : ℤ) (deleted : Bool)
    → check_write name id dp existing current deleted ≡ none
    → write_conflict dp existing current deleted ≡ none
unfolding check_write
unrefused name id dp existing current deleted h =
    elim (Option-cases (write_conflict dp existing current deleted)) [
      | inl e ↦ e
      | inr (c, e) ↦ ground arith
    ]

no_conflict :
    (name id : String) (dp : DocParams) (existing : Option Doc) (current : ℤ) (deleted : Bool)
    → check_write name id dp existing current deleted ≡ none
    → version_conflict_for_writes (version_type dp) current (resolved_version dp) deleted ≡ none
unfolding write_conflict
no_conflict name id dp existing current deleted h =
    or_else-none _ _ (unrefused name id dp existing current deleted h)

view-live :
    (reg : Registry) (s : State) (id : String) (d : Doc)
    → lookup id s.index.docs ≡ some d
    → view reg s id ≡ live d
unfolding current_version
view-live reg s id d h = ground arith

-- A put with an id that was not generated, which succeeds on a live document, gives it a version that
-- grows as the version type demands: strictly, except under external_gte, where it may stay. The old
-- version is not -1 and is below the largest.
pub put_doc-Grows :
    (fuel : ℕ) (e : Engine) (reg : Registry) (s new : State) (id source : String) (dp : DocParams)
    (created : Bool) (old d : Doc)
    → put_doc fuel e reg s id source dp false ≡ (new, ok (d, created))
    → lookup id s.index.docs ≡ some old
    → old.version ≢ version_not_found
    → pos_part old.version < max_int64
    → Grows (version_type dp) old.version d.version
put_doc-Grows fuel e reg s new id source dp created old d done found live_version room =
    subst (λ v. Grows (version_type dp) old.version v)
      (sym (
        ap (λ (x : Doc). x.version)
          (put_doc-stored fuel e reg s new id source dp false created d done)
        ∙ ap (λ (c : Current). update_version (version_type dp) c.version (resolved_version dp))
            (view-live reg s id old found)))
      (update_version-Grows (version_type dp) old.version (resolved_version dp) false live_version
        room
        (no_conflict s.index.name id dp (some old) old.version false (
          subst (λ c. put_error s.index id dp c false ≡ none) (view-live reg s id old found)
            (put_doc-unrefused fuel e reg s new id source dp false created d done))))

eq_same : (id : String) → (id == id) ≡ true
eq_same id = ground (arith, eq_iff id id)

view-deleted :
    (reg : Registry) (s new : State) (id : String) (out : DeleteOutcome)
    → DeleteEffect reg s id out new
    → view reg new id ≡ gone out.version
view-deleted reg s new id out f =
    f.view_after id ∙ ap (λ b. if b then gone out.version else view reg s id) (eq_same id)

update_version-internal :
    (vt : VersionType) (current expected : ℤ)
    → vt ≡ internal
    → current ≢ version_not_found
    → update_version vt current expected ≡ inc64 current
unfolding update_version
update_version-internal vt current expected h known =
    rw h (ground (arith, eqb_ℤ_iff current version_not_found))

-- A put under internal versioning, with an id that was not generated, that succeeds right after a
-- delete of the same document that succeeded goes on from the version of the tombstone. The delete's
-- routing does not hide the document, the window of index.gc_deletes is not negative, and the
-- tombstone's version is not -1.
pub put_doc-delete_doc :
    (fuel : ℕ) (e : Engine) (reg : Registry) (s mid new : State) (id source : String)
    (dd dp : DocParams) (routed created : Bool) (out : DeleteOutcome) (d : Doc)
    → Reaches reg s id dd routed
    → delete_doc fuel e reg s id dd routed ≡ (mid, ok out)
    → pos 0 ≤ℤ s.index.gc_deletes
    → put_doc fuel e reg mid id source dp false ≡ (new, ok (d, created))
    → version_type dp ≡ internal
    → out.version ≢ version_not_found
    → d.version ≡ inc64 out.version
put_doc-delete_doc fuel e reg s mid new id source dd dp routed created out d reaches deleted window
      done vt known =
    ap (λ (x : Doc). x.version)
      (put_doc-stored fuel e reg mid new id source dp false created d done)
    ∙ ap (λ (c : Current). update_version (version_type dp) c.version (resolved_version dp))
        (view-deleted reg s mid id out
          (delete_doc-DeleteEffect fuel e reg s mid id dd routed out reaches deleted window))
    ∙ update_version-internal (version_type dp) out.version (resolved_version dp) vt known
