-- ===== src/Segment.antt =====
-- internal/engine/segments.go: the runs that stand for bleve segments. A run is a shared object that
-- `runs` and `runOf` point to, so runs live on a heap, `run_at`, under addresses.
pub mod Steps
pub mod Spec
pub mod Counts
pub mod Group
pub mod Sums
pub mod Moving
pub mod Roots
pub mod Listing
pub mod Fitting
pub mod Generation
use osmem.Prelude.{
  ℕ, zero, suc, ◌-◌, ◌+◌, ◌*◌, ◌/◌, String, Bool, true, false, not, ◌&&◌, Option, none, some, List,
  [], ◌∷◌, ◌++◌, if◌then◌else◌, eqb, ltb, leb, length,
}
use osmem.Prelude.Dict.{Dict, string_keys, lookup, insert, remove}
use osmem.Error.{Error}

-- `live` is an int in the source; it is a count here, and IsCounted shows that it never passes 0.
pub record SegmentRun : Type 0 where
  pub ids : List String
  pub live : ℕ
  pub gen : ℕ
  pub pinned : Bool

pub record Segments : Type 0 where
  pub runs : List ℕ
  pub run_of : Dict String ℕ
  pub run_at : ℕ → SegmentRun
  pub next_run : ℕ
  pub mapping_gen : ℕ

pub record RootOp : Type 0 where
  pub id : String
  pub deleted : Bool

pub data BatchOp : Type 0 where
  puts deletes : String → BatchOp

-- `docBatch`: the operations queued for bleve, and the root documents in order.
pub record DocBatch : Type 0 where
  pub ops : List BatchOp
  pub roots : List RootOp

abbrev pub new_batch : DocBatch
new_batch = record { ops = []; roots = [] }

abbrev pub run_merge_factor : ℕ
run_merge_factor = 10

-- A write through a run pointer.
unfoldable pub update : (ℕ → SegmentRun) → ℕ → SegmentRun → ℕ → SegmentRun
update h p r q = if eqb p q then r else h q

abbrev pub same : ℕ → Option ℕ → Bool
same p none = false
same p (some r) = eqb p r

-- prev.live--; delete(ix.runOf, op.id)
unfoldable pub leave : Segments → String → ℕ → Segments
unfolding update remove
leave s id p = record s {
  run_at = update s.run_at p (record (s.run_at p) { live = (s.run_at p).live - 1 });
  run_of = remove id s.run_of;
}

-- run.ids = append(run.ids, op.id); run.live++; ix.runOf[op.id] = run
unfoldable pub enter : Segments → String → ℕ → Segments
unfolding update insert
enter s id r = record s {
  run_at =
      update s.run_at r
        (record (s.run_at r) { ids = (s.run_at r).ids ++ id ∷ []; live = suc (s.run_at r).live });
  run_of = insert id r s.run_of;
}

-- run = &segmentRun{gen: ix.mappingGen}
unfoldable pub allocate : Segments → Segments
unfolding update
allocate s = record s {
  run_at =
      update s.run_at s.next_run
        (record { ids = []; live = 0; gen = s.mapping_gen; pinned = false });
  next_run = suc s.next_run;
}

unfoldable pub place : Segments → Option ℕ → RootOp → Segments × Option ℕ
unfolding enter allocate
place s run op = if op.deleted then (s, run) else elim run [
  | none ↦ (enter (allocate s) op.id s.next_run, some s.next_run)
  | some r ↦ (enter s op.id r, some r)
]

-- One round of the loop over `batch.roots`; `run` is the run of this batch, once it exists.
unfoldable pub commit_root : Segments → Option ℕ → RootOp → Segments × Option ℕ
unfolding leave place lookup
commit_root s run op = elim (lookup op.id s.run_of) [
  | none ↦ place s run op
  | some p ↦ if same p run && not op.deleted then (s, run) else place (leave s op.id p) run op
]

unfoldable pub commit_roots : Segments → Option ℕ → List RootOp → Segments × Option ℕ
unfolding commit_root
commit_roots s run [] = (s, run)
commit_roots s run (op ∷ ops) = let (s', run') = commit_root s run op in commit_roots s' run' ops

-- The runs that still hold documents.
unfoldable pub live_runs : (ℕ → SegmentRun) → List ℕ → List ℕ
live_runs h [] = []
live_runs h (r ∷ rs) = if ltb 0 (h r).live then r ∷ live_runs h rs else live_runs h rs

unfoldable pub appended : (ℕ → SegmentRun) → Option ℕ → List ℕ
appended h none = []
appended h (some r) = if ltb 0 (h r).live then r ∷ [] else []

-- The loop has ended: drop the runs without documents and add the new run.
unfoldable pub sweep : Segments × Option ℕ → Segments
unfolding live_runs appended
sweep (s, run) = record s { runs = live_runs s.run_at s.runs ++ appended s.run_at run }

abbrev pub is_empty : List BatchOp → Bool
is_empty [] = true
is_empty (o ∷ os) = false

-- `bleve.Batch` is the library's: the function says whether it fails.
unfoldable pub commit :
    (List BatchOp → Option Error) → Segments → DocBatch → Segments × Option Error
unfolding commit_roots sweep
commit bleve_batch s batch =
    if is_empty batch.ops then (s, none) else elim (bleve_batch batch.ops) [
      | some e ↦ (s, some e)
      | none ↦ (sweep (commit_roots s none batch.roots), none)
    ]

-- The runs of size class `c` are those of 10^c up to below 10^(c+1) documents.
size_class_on : ℕ → ℕ → ℕ
size_class_on zero n = 0
size_class_on (suc f) n = let more = suc (size_class_on f (n / 10)) in if leb 10 n then more else 0

unfoldable pub size_class : ℕ → ℕ
unfolding size_class_on
size_class n = size_class_on n n

abbrev pub run_classes : ℕ
run_classes = 3

unfoldable pub mergeable : Segments → SegmentRun → Bool
mergeable s r = not r.pinned && eqb r.gen s.mapping_gen

-- The mergeable runs of one class, oldest first.
unfoldable pub class_runs : Segments → ℕ → List ℕ → List ℕ
unfolding mergeable size_class
class_runs s c [] = []
class_runs s c (r ∷ rs) =
    if mergeable s (s.run_at r) && eqb (size_class (s.run_at r).live) c
    then r ∷ class_runs s c rs
    else class_runs s c rs

-- `counts[class]++` on the array of `runClasses` counters.
abbrev pub ClassCounts : Type 0
ClassCounts = ℕ → ℕ

unfoldable pub bump : ClassCounts → ℕ → ClassCounts
bump counts c d = if eqb c d then suc (counts d) else counts d

-- The loop over `rest`, the runs not yet seen; `none` is the nil group.
unfoldable pub find_group : Segments → ClassCounts → List ℕ → Option (List ℕ)
unfolding mergeable size_class bump class_runs
find_group s counts [] = none
find_group s counts (r ∷ rest) =
    let run = s.run_at r in
    let c = size_class run.live in
    let skip = find_group s counts rest in
    let counted = find_group s (bump counts c) rest in
    if not (mergeable s run)
    then skip
    else if leb run_classes c
    then (if ltb (2 * run.live) (length run.ids) then some (r ∷ []) else skip)
    else if ltb (suc (counts c)) run_merge_factor
    then counted
    else some (class_runs s c s.runs)

unfoldable pub runs_to_merge : Segments → Option (List ℕ)
unfolding find_group
runs_to_merge s = find_group s (λ c. 0) s.runs
