-- ===== src/Samples/Checks.antt =====
-- Requests that pass validation, and what the theorems say of them.
use osmem.Prelude.{◌<◌, ◌↔◌, true, false, none, some, [], ◌≡◌, refl, arith}
use osmem.Prelude.Int.{pos}
use osmem.Version.Validation.{collect_index_validation, validate_cas_params}
use osmem.Version.{Doc, DocParams, index, create, check_write}
use osmem.Version.Checks.{create-accepted_iff, cas-accepted_iff}
use osmem.Routing.{check_multiple, shard_of, check_routing_shards}
use osmem.Routing.Bounds.{shard_of-lt}
use osmem.Samples.{request, four_shards}

abbrev cas : DocParams
cas = record (request index) {
  given_if_seq_no = some (pos 7);
  given_if_primary_term = some (pos 1);
}

abbrev stored : Doc
stored = record {
  id = "a";
  source = "{}";
  version = pos 3;
  seq_no = pos 7;
  primary_term = pos 1;
  routing = "";
}

create_valid : collect_index_validation (request create) "a" true ≡ []
unfolding collect_index_validation
create_valid = refl

cas_valid : validate_cas_params cas ≡ []
unfolding validate_cas_params
cas_valid = refl

four_valid : check_routing_shards four_shards ≡ none
unfolding check_routing_shards check_multiple
four_valid = refl

create-accepted_iff_example :
    (check_write "books" "a" (request create) (some stored) (pos 3) false ≡ none) ↔ (false ≡ true)
create-accepted_iff_example =
    create-accepted_iff "books" "a" true (request create) (some stored) (pos 3) false refl
      create_valid

cas-accepted_iff_example :
    (check_write "books" "a" cas (some stored) (pos 3) false ≡ none)
    ↔ ((pos 7 ≡ pos 7) × (pos 1 ≡ pos 1))
cas-accepted_iff_example =
    cas-accepted_iff "books" "a" cas stored (pos 3) false refl (ground arith) cas_valid

shard_of-lt_example : shard_of four_shards "customer-7" < 4
shard_of-lt_example = shard_of-lt four_shards "customer-7" (omega arith) four_valid
