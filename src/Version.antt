-- ===== src/Version.antt =====
-- internal/engine/docparams.go and docs.go: the version and compare-and-set parameters of a
-- document write, and the checks against the version that the write meets.
pub mod Validation
pub mod Checks
pub mod Growth
use Prim.Native.String.{len}
use osmem.Prelude.{
  ℕ, String, ◌++◌, Bool, true, false, not, ◌&&◌, ◌||◌, Option, none, some, List, [], ◌∷◌,
  if◌then◌else◌, ltb,
}
use osmem.Prelude.Int.{ℤ, pos, negsuc, eqb_ℤ, ltb_ℤ, leb_ℤ, inc64}
use osmem.Prelude.Dict.{◌==◌, string_keys}
use osmem.Error.{
  Conflict, higher_or_equal, higher, already_exists, does_not_exist, different, required_seq_no,
  Message, illegal_version, internal_version_given, cas_with_versioning, seq_no_without_term,
  term_without_seq_no, create_not_internal, create_with_version, create_with_cas, id_needed,
  id_too_long, empty_pipeline, id_missing, Error, version_conflict, no_version_type_match,
  negative_seq_no, negative_primary_term, validation_failed, Result, ok, err,
}

-- Versions.MATCH_ANY, MATCH_DELETED, NOT_FOUND; SequenceNumbers.UNASSIGNED_SEQ_NO and its term.
abbrev pub version_match_any : ℤ
version_match_any = negsuc 2

abbrev pub version_match_deleted : ℤ
version_match_deleted = negsuc 3

abbrev pub version_not_found : ℤ
version_not_found = negsuc 0

abbrev pub unassigned_seq_no : ℤ
unassigned_seq_no = negsuc 1

abbrev pub unassigned_term : ℤ
unassigned_term = pos 0

-- `DocParams.VersionType`; `unset` is the empty string.
pub data VersionType : Type 0 where
  unset internal external external_gt external_gte : VersionType

pub data OpType : Type 0 where
  index create delete : OpType

-- A stored document as far as writes read it; its source is opaque text.
pub record Doc : Type 0 where
  pub id : String
  pub source : String
  pub version : ℤ
  pub seq_no : ℤ
  pub primary_term : ℤ
  pub routing : String

pub record DocParams : Type 0 where
  pub op_type : OpType
  pub routing : String
  pub given_if_seq_no : Option ℤ
  pub given_if_primary_term : Option ℤ
  pub given_version : Option ℤ
  pub given_version_type : VersionType
  pub pipeline : Option String

unfoldable pub parse_version_type : String → Result VersionType
parse_version_type s =
    if s == "internal"
    then ok internal
    else if s == "external"
    then ok external
    else if s == "external_gt"
    then ok external_gt
    else if s == "external_gte"
    then ok external_gte
    else err (no_version_type_match s)

abbrev pub is_external_versioning : VersionType → Bool
is_external_versioning external = true
is_external_versioning external_gt = true
is_external_versioning external_gte = true
is_external_versioning _ = false

abbrev pub is_internal : VersionType → Bool
is_internal internal = true
is_internal _ = false

abbrev pub is_create : OpType → Bool
is_create create = true
is_create _ = false

-- The accessors with their defaults.
abbrev default_type : VersionType → VersionType
default_type unset = internal
default_type vt = vt

abbrev or_default : Option ℤ → ℤ → ℤ
or_default none d = d
or_default (some v) d = v

abbrev pub version_type : DocParams → VersionType
version_type dp = default_type dp.given_version_type

abbrev pub version : DocParams → ℤ
version dp = or_default dp.given_version version_match_any

abbrev pub if_seq_no : DocParams → ℤ
if_seq_no dp = or_default dp.given_if_seq_no unassigned_seq_no

abbrev pub if_primary_term : DocParams → ℤ
if_primary_term dp = or_default dp.given_if_primary_term unassigned_term

-- A create with no version given asks for a deleted document.
abbrev pub resolved_version : DocParams → ℤ
resolved_version dp =
    if is_create dp.op_type && eqb_ℤ (version dp) version_match_any
    then version_match_deleted
    else version dp

-- VersionType.isVersionConflictForWrites, with its explanation.
external_conflict : (ℤ → ℤ → Bool) → Conflict → ℤ → ℤ → Option Conflict
external_conflict stale reason current expected =
    if eqb_ℤ current version_not_found
    then none
    else if eqb_ℤ expected version_match_any || stale current expected
    then some reason
    else none

internal_conflict : ℤ → ℤ → Bool → Option Conflict
internal_conflict current expected deleted =
    if eqb_ℤ expected version_match_any
    then none
    else if eqb_ℤ expected version_match_deleted
    then (if not deleted then some (already_exists current) else none)
    else if not (eqb_ℤ current expected)
    then some (if deleted then does_not_exist expected else different current expected)
    else none

unfoldable pub version_conflict_for_writes : VersionType → ℤ → ℤ → Bool → Option Conflict
unfolding external_conflict internal_conflict
version_conflict_for_writes external cur expected deleted =
    external_conflict (λ c e. leb_ℤ e c) (higher_or_equal cur expected) cur expected
version_conflict_for_writes external_gt cur expected deleted =
    external_conflict (λ c e. leb_ℤ e c) (higher_or_equal cur expected) cur expected
version_conflict_for_writes external_gte cur expected deleted =
    external_conflict (λ c e. ltb_ℤ e c) (higher cur expected) cur expected
version_conflict_for_writes _ cur expected deleted = internal_conflict cur expected deleted

unfoldable pub update_version : VersionType → ℤ → ℤ → ℤ
update_version vt current expected =
    if is_external_versioning vt
    then expected
    else if eqb_ℤ current version_not_found
    then pos 1
    else inc64 current

-- The compare-and-set part of `checkWrite`.
check_cas : ℤ → ℤ → Option Doc → Option Conflict
check_cas seq term none = some (required_seq_no seq term unassigned_seq_no (pos 0))
check_cas seq term (some d) =
    if not (eqb_ℤ d.seq_no seq) || not (eqb_ℤ d.primary_term term)
    then some (required_seq_no seq term d.seq_no d.primary_term)
    else none

abbrev pub or_else : Option Conflict → Option Conflict → Option Conflict
or_else (some c) later = some c
or_else none later = later

unfoldable pub write_conflict : DocParams → Option Doc → ℤ → Bool → Option Conflict
unfolding check_cas version_conflict_for_writes
write_conflict dp existing current deleted =
    or_else
      (if not (eqb_ℤ (if_seq_no dp) unassigned_seq_no)
        then check_cas (if_seq_no dp) (if_primary_term dp) existing
        else none)
      (version_conflict_for_writes (version_type dp) current (resolved_version dp) deleted)

unfoldable pub check_write : String → String → DocParams → Option Doc → ℤ → Bool → Option Error
unfolding write_conflict
check_write name id dp existing current deleted =
    elim (write_conflict dp existing current deleted) [
      | none ↦ none
      | some c ↦ some (version_conflict name id c)
    ]
