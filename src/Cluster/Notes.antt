-- ===== src/Cluster/Notes.antt =====
-- internal/engine/tombstones.go, `noteIndex` and `docWritable`: a copy-on-write copy gets the tombstones
-- of the index that it replaces.
use osmem.Prelude.{ℕ, String, Bool, not, ◌&&◌, ◌||◌, Option, none, some, if◌then◌else◌, eqb}
use osmem.Prelude.Dict.{Dict, ◌==◌, string_keys, lookup, insert}
use osmem.Error.{Result, ok, err}
use osmem.Tombstone.{Registry, inherit_locked, inherit_tombstones}
use osmem.Cluster.{World, put_at}
use osmem.Cluster.Copy.{Opener, writable}

-- The registry with `lastSeen`: the index that a cluster last used for a name.
pub record Notes : Type 0 where
  pub registry : Registry
  pub last_seen : ℕ → Dict String ℕ

-- The test of `noteIndex` on the last index; `collected` says which indices the garbage collector
-- has taken, whose weak pointers are nil.
abbrev pub replaces : (ℕ → Bool) → World → ℕ → ℕ → Bool
replaces collected w prev h =
    not (eqb prev h || collected prev) && (w.index_at prev).uuid == (w.index_at h).uuid

abbrev pub inherit_from_last : (ℕ → Bool) → World → Registry → ℕ → Option ℕ → Registry
inherit_from_last collected w reg h none = reg
inherit_from_last collected w reg h (some prev) =
    if replaces collected w prev h then inherit_locked reg (w.index_at prev) (w.index_at h) else reg

unfoldable pub note_index : (ℕ → Bool) → World → Notes → ℕ → ℕ → Notes
unfolding put_at
note_index collected w t c h =
    let name = (w.index_at h).name in
    record {
      registry = inherit_from_last collected w t.registry h (lookup name (t.last_seen c));
      last_seen = put_at t.last_seen c (insert name h (t.last_seen c));
    }

-- `inheritTombstones(before, ix)`; `before` is nil if the name has no index.
abbrev pub inherit_before : World → Registry → Option ℕ → ℕ → Registry
inherit_before w reg none h = reg
inherit_before w reg (some before) h = inherit_tombstones reg (w.index_at before) (w.index_at h)

abbrev pub carry : (ℕ → Bool) → Notes → ℕ → Option ℕ → World × Result ℕ → World × Notes × Result ℕ
carry collected t c before (w, err x) = (w, t, err x)
carry collected t c before (w, ok h) = (
  w,
  note_index collected w (record t { registry = inherit_before w t.registry before h }) c h,
  ok h,
)

unfoldable pub doc_writable :
    (ℕ → Bool) → Opener → World → Notes → ℕ → String → World × Notes × Result ℕ
unfolding note_index
doc_writable collected o w t c name =
    carry collected t c (lookup name (w.cluster_at c).indices) (writable o w c name)
