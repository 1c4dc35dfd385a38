-- ===== src/Version/Checks.antt =====
-- What `checkWrite` decides on validated requests (docparams.go, docs.go).
use osmem.Prelude.{
  String, refl, ◌∙◌, ap₂, ◌≡◌, ◌≢◌, ◌↔◌, Bool, true, false, Option, none, some, [], arith,
}
use osmem.Prelude.Int.{ℤ, eqb_ℤ_iff, eqb_ℤ_refl}
use osmem.Version.Validation.{collect_index_validation, validate_cas_params}
use osmem.Version.{
  Doc, DocParams, internal, is_create, version, version_match_any, check_cas, create, check_write,
  write_conflict, version_conflict_for_writes, resolved_version, version_type, if_seq_no,
  if_primary_term, unassigned_seq_no,
}

-- A create that passed its validation is accepted exactly when no live document is met,
-- whatever version the tombstone has.
pub create-accepted_iff :
    (name id : String) (has_id : Bool) (dp : DocParams) (existing : Option Doc) (current : ℤ)
    (deleted : Bool)
    → dp.op_type ≡ create
    → collect_index_validation dp id has_id ≡ []
    → (check_write name id dp existing current deleted ≡ none) ↔ (deleted ≡ true)
unfolding collect_index_validation check_write
create-accepted_iff name id has_id dp existing current deleted op ok = (ground arith, ground arith)

-- Validation lets compare-and-set through only without versioning.
cas_without_versioning :
    (dp : DocParams)
    → if_seq_no dp ≢ unassigned_seq_no
    → validate_cas_params dp ≡ []
    → (version_type dp ≡ internal) × (version dp ≡ version_match_any)
unfolding validate_cas_params
cas_without_versioning dp given ok = (ground arith, ground arith)

-- An internal write of any version meets no version conflict.
no_conflict-any :
    (current : ℤ) (deleted : Bool)
    → version_conflict_for_writes internal current version_match_any deleted ≡ none
unfolding version_conflict_for_writes
no_conflict-any current deleted = refl

resolved-any :
    (dp : DocParams)
    → is_create dp.op_type ≡ false
    → version dp ≡ version_match_any
    → resolved_version dp ≡ version_match_any
resolved-any dp op v = rw op v

check_cas_iff :
    (seq term : ℤ) (d : Doc)
    → (check_cas seq term (some d) ≡ none) ↔ ((d.seq_no ≡ seq) × (d.primary_term ≡ term))
unfolding check_cas
check_cas_iff seq term d = (
  ground (arith, eqb_ℤ_iff d.seq_no seq, eqb_ℤ_iff d.primary_term term),
  ground (arith, eqb_ℤ_refl seq, eqb_ℤ_refl term),
)

cas-no_version_conflict :
    (dp : DocParams) (current : ℤ) (deleted : Bool)
    → is_create dp.op_type ≡ false
    → if_seq_no dp ≢ unassigned_seq_no
    → validate_cas_params dp ≡ []
    → version_conflict_for_writes (version_type dp) current (resolved_version dp) deleted ≡ none
cas-no_version_conflict dp current deleted op given ok =
    let (t, v) = cas_without_versioning dp given ok in
    ap₂ (λ t v. version_conflict_for_writes t current v deleted) t (resolved-any dp op v)
    ∙ no_conflict-any current deleted

write_conflict-cas :
    (dp : DocParams) (existing : Option Doc) (current : ℤ) (deleted : Bool)
    → is_create dp.op_type ≡ false
    → if_seq_no dp ≢ unassigned_seq_no
    → validate_cas_params dp ≡ []
    → write_conflict dp existing current deleted
      ≡ check_cas (if_seq_no dp) (if_primary_term dp) existing
unfolding write_conflict
write_conflict-cas dp existing current deleted op given ok =
    rw (cas-no_version_conflict dp current deleted op given ok)
      (ground (arith, eqb_ℤ_iff (if_seq_no dp) unassigned_seq_no))

-- A request with if_seq_no that passed validation is accepted exactly when the live document has
-- the given sequence number and primary term.
pub cas-accepted_iff :
    (name id : String) (dp : DocParams) (d : Doc) (current : ℤ) (deleted : Bool)
    → is_create dp.op_type ≡ false
    → if_seq_no dp ≢ unassigned_seq_no
    → validate_cas_params dp ≡ []
    → (check_write name id dp (some d) current deleted ≡ none)
      ↔ ((d.seq_no ≡ if_seq_no dp) × (d.primary_term ≡ if_primary_term dp))
unfolding check_write
cas-accepted_iff name id dp d current deleted op given ok =
    rw (write_conflict-cas dp (some d) current deleted op given ok, check_write)
      (
        ground (arith, check_cas_iff (if_seq_no dp) (if_primary_term dp) d),
        ground (arith, check_cas_iff (if_seq_no dp) (if_primary_term dp) d),
      )
