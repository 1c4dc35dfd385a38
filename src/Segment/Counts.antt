-- ===== src/Segment/Counts.antt =====
-- The bookkeeping of runs (segments.go, `commit`): `live` counts the documents that a run holds, and
-- every run that holds one is listed.
use osmem.Prelude.{
  ℕ, ◌≤◌, ◌<◌, String, true, Option, none, some, List, [], ◌∷◌, ◌++◌, ◌≡◌, refl, Bool-cases,
  Option-cases, All, ◌⊎◌, inl, inr, arith, eqb_iff,
}
use osmem.Prelude.Dict.{string_keys, nat_keys, lookup, member}
use osmem.Prelude.Distinct.{
  Distinct, Distinct-insert, Distinct-remove, holders, holders-insert, holders-remove,
}
use osmem.Error.{Error}
use osmem.Segment.{
  Segments, SegmentRun, RootOp, DocBatch, BatchOp, update, leave, enter, allocate, place,
  commit_root, commit_roots, is_empty, live_runs, appended, sweep, commit,
}
use osmem.Segment.Steps.{commit_root-cases, gone}

abbrev IsOld : ℕ → Option ℕ → Type 0
IsOld n none = Unit
IsOld n (some r) = r < n

-- `run` is the run of the batch that is being committed, not listed yet.
pub record IsCounted (s : Segments) (run : Option ℕ) : Type 0 where
  pub distinct : Distinct s.run_of
  pub live : (r : ℕ) → (s.run_at r).live ≡ holders r s.run_of
  pub fresh : (r : ℕ) → s.next_run ≤ r → holders r s.run_of ≡ 0
  pub listed : (r : ℕ) → 0 < holders r s.run_of → (member r s.runs ≡ true) ⊎ (run ≡ some r)
  pub old : IsOld s.next_run run

pub leave-IsCounted :
    (s : Segments) (run : Option ℕ) (id : String) (p : ℕ)
    → lookup id s.run_of ≡ some p
    → IsCounted s run
    → IsCounted (leave s id p) run
unfolding leave update
leave-IsCounted s run id p e c = record {
  distinct = Distinct-remove id s.run_of c.distinct;
  live =
      λ r. ground (arith, c.live r, c.live p, holders-remove r id s.run_of c.distinct, eqb_iff p r);
  fresh = λ r h. ground (arith, c.fresh r h, holders-remove r id s.run_of c.distinct);
  listed = λ r h. c.listed r (ground (arith, holders-remove r id s.run_of c.distinct));
  old = c.old;
}

enter-IsCounted :
    (s : Segments) (run : Option ℕ) (id : String) (r : ℕ)
    → lookup id s.run_of ≡ none
    → r < s.next_run
    → (run ≡ some r)
    → IsCounted s run
    → IsCounted (enter s id r) (some r)
unfolding enter update
enter-IsCounted s run id r e old is_run c = record {
  distinct = Distinct-insert id r s.run_of c.distinct;
  live = λ q. ground (arith, c.live q, c.live r, holders-insert q id r s.run_of e, eqb_iff r q);
  fresh = λ q h. ground (arith, c.fresh q h, holders-insert q id r s.run_of e);
  listed = λ q h. ground (arith, c.listed q, holders-insert q id r s.run_of e, eqb_iff r q);
  old = old;
}

allocate-IsCounted : (s : Segments) → IsCounted s none → IsCounted (allocate s) (some s.next_run)
unfolding allocate update
allocate-IsCounted s c = record {
  distinct = c.distinct;
  live = λ r. ground (arith, c.live r, c.fresh r, eqb_iff s.next_run r);
  fresh = λ r h. c.fresh r (omega arith);
  listed = λ r h. ground (arith, c.listed r h);
  old = omega arith;
}

place-IsCounted :
    (s : Segments) (run : Option ℕ) (op : RootOp)
    → lookup op.id s.run_of ≡ none
    → IsCounted s run
    → IsCounted (place s run op).0 (place s run op).1
unfolding place allocate
place-IsCounted s none op e c = elim (Bool-cases op.deleted) [
  | inl d ↦ rw d c
  | inr d ↦ rw d (
      enter-IsCounted (allocate s) (some s.next_run) op.id s.next_run e (omega arith) refl
        (allocate-IsCounted s c))
]
place-IsCounted s (some r) op e c = elim (Bool-cases op.deleted) [
  | inl d ↦ rw d c
  | inr d ↦ rw d (enter-IsCounted s (some r) op.id r e c.old refl c)
]

pub commit_root-IsCounted :
    (s : Segments) (run : Option ℕ) (op : RootOp)
    → IsCounted s run
    → IsCounted (commit_root s run op).0 (commit_root s run op).1
commit_root-IsCounted s run op c = elim (commit_root-cases s run op) [
  | inl (e, step) ↦ rw step (place-IsCounted s run op e c)
  | inr (inl (p, e, b, step)) ↦ rw step c
  | inr (inr (p, e, b, step)) ↦ rw step (
      place-IsCounted (leave s op.id p) run op (gone s op.id p) (leave-IsCounted s run op.id p e c))
]

pub commit_roots-IsCounted :
    (s : Segments) (run : Option ℕ) (ops : List RootOp)
    → IsCounted s run
    → IsCounted (commit_roots s run ops).0 (commit_roots s run ops).1
unfolding commit_roots
commit_roots-IsCounted s run [] c = c
commit_roots-IsCounted s run (op ∷ ops) c =
    let (s', run') = commit_root s run op in
    commit_roots-IsCounted s' run' ops (commit_root-IsCounted s run op c)

member-live_runs :
    (h : ℕ → SegmentRun) (r : ℕ) (rs ss : List ℕ)
    → 0 < (h r).live
    → member r rs ≡ true
    → member r (live_runs h rs ++ ss) ≡ true
unfolding live_runs member
member-live_runs h r [] ss alive m = ground arith
member-live_runs h r (q ∷ rs) ss alive m =
    ground (arith, member-live_runs h r rs ss alive, eqb_iff q r)

member-append_right : (r : ℕ) (rs ss : List ℕ) → member r ss ≡ true → member r (rs ++ ss) ≡ true
unfolding member
member-append_right r [] ss m = m
member-append_right r (q ∷ rs) ss m = ground (arith, member-append_right r rs ss m)

member-appended :
    (h : ℕ → SegmentRun) (r : ℕ) → 0 < (h r).live → member r (appended h (some r)) ≡ true
unfolding appended member
member-appended h r alive = ground (arith, eqb_iff r r)

-- A listed run holds a document.
abbrev pub HoldsSome : Segments → ℕ → Type 0
HoldsSome s r = 0 < (s.run_at r).live

live_runs-HoldsSome : (s : Segments) (rs : List ℕ) → All (HoldsSome s) (live_runs s.run_at rs)
unfolding live_runs
live_runs-HoldsSome s [] = tt
live_runs-HoldsSome s (r ∷ rs) = ground (arith, live_runs-HoldsSome s rs)

appended-HoldsSome : (s : Segments) (run : Option ℕ) → All (HoldsSome s) (appended s.run_at run)
unfolding appended
appended-HoldsSome s none = tt
appended-HoldsSome s (some r) = ground arith

All-append :
    (s : Segments) (rs ss : List ℕ)
    → All (HoldsSome s) rs
    → All (HoldsSome s) ss
    → All (HoldsSome s) (rs ++ ss)
All-append s [] ss a b = b
All-append s (r ∷ rs) ss a b = (a.0, All-append s rs ss a.1 b)

sweep-listed :
    (s : Segments) (run : Option ℕ) (r : ℕ)
    → 0 < (s.run_at r).live
    → (member r s.runs ≡ true) ⊎ (run ≡ some r)
    → member r (sweep (s, run)).runs ≡ true
unfolding sweep
sweep-listed s run r alive (inl m) =
    member-live_runs s.run_at r s.runs (appended s.run_at run) alive m
sweep-listed s run r alive (inr e) = rw e (
    member-append_right r (live_runs s.run_at s.runs) (appended s.run_at (some r))
      (member-appended s.run_at r alive))

-- The state between commits: counted, with no run of a batch pending and no dead run listed.
pub record IsTidy (s : Segments) : Type 0 where
  pub counted : IsCounted s none
  pub living : All (HoldsSome s) s.runs

sweep-IsTidy : (s : Segments) (run : Option ℕ) → IsCounted s run → IsTidy (sweep (s, run))
unfolding sweep
sweep-IsTidy s run c = record {
  counted = record {
    distinct = c.distinct;
    live = c.live;
    fresh = c.fresh;
    listed = λ r h. inl (sweep-listed s run r (rw (c.live r) h) (c.listed r h));
    old = tt;
  };
  living =
      All-append s (live_runs s.run_at s.runs) (appended s.run_at run)
        (live_runs-HoldsSome s s.runs) (appended-HoldsSome s run);
}

-- A commit keeps the bookkeeping right, whether bleve takes the batch or refuses it: every run's
-- `live` is the number of documents that `runOf` gives it, every run that holds a document is
-- listed, and every listed run holds one.
pub commit-IsTidy :
    (bleve_batch : List BatchOp → Option Error) (s : Segments) (batch : DocBatch)
    → IsTidy s
    → IsTidy (commit bleve_batch s batch).0
unfolding commit
commit-IsTidy bleve_batch s batch t = elim (Bool-cases (is_empty batch.ops)) [
  | inl b ↦ rw b t
  | inr b ↦ elim (Option-cases (bleve_batch batch.ops)) [
    | inl e ↦
        let (s', run) = commit_roots s none batch.roots in
        rw (b, e) (sweep-IsTidy s' run (commit_roots-IsCounted s none batch.roots t.counted))
    | inr (x, e) ↦ rw (b, e) t
  ]
]
