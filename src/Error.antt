-- ===== src/Error.antt =====
-- The errors of single-document writes (internal/engine/errors.go, docparams.go, docs.go). A message
-- is a constructor with the values that the source formats into its text.
use osmem.Prelude.{ℕ, String, List, ◌≡◌, refl, ◌⊎◌, inl, inr}
use osmem.Prelude.Int.{ℤ}

-- The reasons of `errVersionConflict`.
pub data Conflict : Type 0 where
  higher_or_equal : ℤ → ℤ → Conflict
  higher : ℤ → ℤ → Conflict
  already_exists : ℤ → Conflict
  does_not_exist : ℤ → Conflict
  different : ℤ → ℤ → Conflict
  required_seq_no : ℤ → ℤ → ℤ → ℤ → Conflict

-- The messages that `docValidation` accumulates.
pub data Message : Type 0 where
  illegal_version : ℤ → Message
  internal_version_given : Message
  cas_with_versioning : Message
  seq_no_without_term : Message
  term_without_seq_no : ℤ → Message
  create_not_internal : Message
  create_with_version : Message
  create_with_cas : Message
  id_needed : Message
  id_too_long : String → ℕ → Message
  empty_pipeline : Message
  id_missing : Message

pub data Error : Type 0 where
  version_conflict : String → String → Conflict → Error
  no_version_type_match : String → Error
  negative_seq_no : ℤ → Error
  negative_primary_term : ℤ → Error
  validation_failed : List Message → Error
  index_not_found : String → Error
  index_closed : String → Error
  no_write_index : String → Error
  unavailable_shards : String → ℕ → Error
  routing_missing : String → String → Error
  mapping_failure : String → Error
  bleve_failure : String → Error
  -- of the model only: a loop on fuel has used it up
  out_of_fuel : Error

-- A value or an error; a Go function that returns only an error is an `Option Error`.
pub data Result {ℓ} (A : Type ℓ) : Type ℓ where
  ok : A → Result A
  err : Error → Result A

pub Result-cases {ℓ} :
    {A : Type ℓ} (r : Result A)
    → ((value : A) × (r ≡ ok value)) ⊎ ((reason : Error) × (r ≡ err reason))
Result-cases (ok a) = inl (a, refl)
Result-cases (err e) = inr (e, refl)
