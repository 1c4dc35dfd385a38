-- ===== src/Version/Validation.antt =====
-- internal/engine/docparams.go: the validation of the parameters of a document write.
use Prim.Native.String.{len}
use osmem.Prelude.{
  String, ◌++◌, Bool, true, false, not, ◌&&◌, ◌||◌, Option, none, some, List, [], ◌∷◌,
  if◌then◌else◌, ltb,
}
use osmem.Prelude.Int.{ℤ, pos, eqb_ℤ, ltb_ℤ, leb_ℤ}
use osmem.Prelude.Dict.{◌==◌, string_keys}
use osmem.Error.{
  Message, illegal_version, internal_version_given, cas_with_versioning, seq_no_without_term,
  term_without_seq_no, create_not_internal, create_with_version, create_with_cas, id_needed,
  id_too_long, empty_pipeline, id_missing, Error, negative_seq_no, negative_primary_term,
  validation_failed,
}
use osmem.Version.{
  VersionType, DocParams, is_external_versioning, is_internal, is_create, version_type, version,
  if_seq_no, if_primary_term, resolved_version, version_match_any, version_match_deleted,
  unassigned_seq_no, unassigned_term,
}

unfoldable pub validate_version_for_writes : VersionType → ℤ → Bool
validate_version_for_writes vt v =
    if is_external_versioning vt
    then leb_ℤ (pos 0) v
    else ltb_ℤ (pos 0) v || eqb_ℤ v version_match_any || eqb_ℤ v version_match_deleted

unfoldable pub check_seq_no : ℤ → Option Error
check_seq_no n =
    if ltb_ℤ n (pos 0) && not (eqb_ℤ n unassigned_seq_no) then some (negative_seq_no n) else none

unfoldable pub check_primary_term : ℤ → Option Error
check_primary_term n = if ltb_ℤ n (pos 0) then some (negative_primary_term n) else none

-- `if test { v.add(m) }`
abbrev add_if : Bool → Message → List Message
add_if true m = m ∷ []
add_if false m = []

unfoldable pub validate_cas_params : DocParams → List Message
unfolding validate_version_for_writes
validate_cas_params dp =
    let vt = version_type dp in
    let v = version dp in
    let seq = if_seq_no dp in
    let term = if_primary_term dp in
    add_if (not (validate_version_for_writes vt v)) (illegal_version v)
    ++ (add_if
          (is_internal vt
            && (not (eqb_ℤ v version_match_any) && not (eqb_ℤ v version_match_deleted)))
          internal_version_given
        ++ (add_if
              (not (eqb_ℤ seq unassigned_seq_no)
                && (not (is_internal vt) || not (eqb_ℤ v version_match_any)))
              cas_with_versioning
            ++ (add_if (eqb_ℤ term unassigned_term && not (eqb_ℤ seq unassigned_seq_no))
                  seq_no_without_term
                ++ add_if (not (eqb_ℤ term unassigned_term) && eqb_ℤ seq unassigned_seq_no)
                    (term_without_seq_no term))))

unfoldable pub validate_doc_id_length : String → List Message
validate_doc_id_length id = add_if (ltb 512 (len id)) (id_too_long id (len id))

-- The messages that follow the checks of a create.
collect_rest : DocParams → String → Bool → List Message
unfolding validate_cas_params validate_doc_id_length
collect_rest dp id has_id =
    let vt = version_type dp in
    let v = resolved_version dp in
    add_if
      (not has_id
        && (not (is_internal vt)
            || (not (eqb_ℤ v version_match_deleted) && not (eqb_ℤ v version_match_any))))
      id_needed
    ++ (validate_cas_params dp
        ++ (validate_doc_id_length id
            ++ elim dp.pipeline [ none ↦ [] | some p ↦ add_if (p == "") empty_pipeline ]))

unfoldable pub collect_index_validation : DocParams → String → Bool → List Message
unfolding collect_rest
collect_index_validation dp id has_id =
    if is_create dp.op_type && not (is_internal (version_type dp))
    then create_not_internal ∷ []
    else if is_create dp.op_type && not (eqb_ℤ (resolved_version dp) version_match_deleted)
    then create_with_version ∷ []
    else if is_create dp.op_type
        && (not (eqb_ℤ (if_seq_no dp) unassigned_seq_no)
            || not (eqb_ℤ (if_primary_term dp) unassigned_term))
    then create_with_cas ∷ []
    else collect_rest dp id has_id

abbrev validation_error : List Message → Option Error
validation_error [] = none
validation_error (m ∷ ms) = some (validation_failed (m ∷ ms))

unfoldable pub validate_index_request : DocParams → String → Bool → Option Error
unfolding collect_index_validation
validate_index_request dp id has_id = validation_error (collect_index_validation dp id has_id)

unfoldable pub validate_delete_request : DocParams → String → Option Error
unfolding validate_cas_params
validate_delete_request dp id =
    validation_error (add_if (id == "") id_missing ++ validate_cas_params dp)
