-- ===== src/Version/Growth.antt =====
-- What `updateVersion` gives after a check without conflict (docs.go).
use osmem.Prelude.{◌≡◌, ◌≢◌, Bool, none, arith, ◌<◌}
use osmem.Prelude.Int.{ℤ, pos_part, ◌≤ℤ◌, ◌<ℤ◌, max_int64, inc64-lt, eqb_ℤ_iff}
use osmem.Version.{
  VersionType, internal, unset, external, external_gt, external_gte, version_conflict_for_writes,
  update_version, version_not_found,
}

-- How the new version of each type stands to the one that it replaces.
abbrev pub Grows : VersionType → ℤ → ℤ → Type 0
Grows external_gte a b = a ≤ℤ b
Grows _ a b = a <ℤ b

pub update_version-Grows :
    (vt : VersionType) (current expected : ℤ) (deleted : Bool)
    → current ≢ version_not_found
    → pos_part current < max_int64
    → version_conflict_for_writes vt current expected deleted ≡ none
    → Grows vt current (update_version vt current expected)
unfolding version_conflict_for_writes update_version
update_version-Grows unset current expected deleted live room h =
    ground (arith, eqb_ℤ_iff current version_not_found, inc64-lt current)
update_version-Grows internal current expected deleted live room h =
    ground (arith, eqb_ℤ_iff current version_not_found, inc64-lt current)
update_version-Grows external current expected deleted live room h =
    ground (arith, eqb_ℤ_iff current version_not_found)
update_version-Grows external_gt current expected deleted live room h =
    ground (arith, eqb_ℤ_iff current version_not_found)
update_version-Grows external_gte current expected deleted live room h =
    ground (arith, eqb_ℤ_iff current version_not_found)
