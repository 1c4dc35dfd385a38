-- ===== src/Compact/Ends.antt =====
-- The loop of `compactRuns` comes to an end (segments.go).
use osmem.Prelude.{
  ℕ, ◌+◌, ◌≤◌, ◌<◌, true, Option, none, some, List, [], ◌∷◌, ◌++◌, ◌≡◌, sym, ap, subst, ◌∙◌, arith,
  eqb_iff, All, ◌⊎◌, inl, inr,
}
use osmem.Prelude.Dict.{string_keys, nat_keys, member}
use osmem.Error.{Error}
use osmem.Segment.{Segments, mergeable, class_runs}
use osmem.Segment.Group.{Group, large, full}
use osmem.Segment.Sums.{
  total, total-append, IsPart, one-IsPart, class_runs-IsPart, class_runs-member, IsPart-first,
  All-below, All-members, member-first, member-last, total-ones,
}
use osmem.Segment.Moving.{live_of, ids_of}
use osmem.Index.{Index, Engine}
use osmem.Compact.{merge_runs}
use osmem.Compact.Under.{Under, Pairs}
use osmem.Compact.Progress.{BuildsSome}
use osmem.Compact.Rounds.{OnEnd, SeenRuns, StoppedIn}
use osmem.Compact.Ready.{IsReady, merge_runs-OnEnd}
use osmem.Compact.Weigh.{
  all_weight, all_smalls, weight, smalls, seen-dead, weight-left, smalls-left, runs-old,
}

-- What is known of a group: its runs are listed and mergeable.
pub record IsGroup (s : Segments) (g : List ℕ) : Type 0 where
  pub is_part : IsPart g s.runs
  pub listed : (q : ℕ) → member q g ≡ true → member q s.runs ≡ true
  pub can_merge : (q : ℕ) → member q g ≡ true → mergeable s (s.run_at q) ≡ true
  -- It is a large run with obsolete documents or ten small runs.
  pub wins : (total (live_of s) g < total (ids_of s) g) ⊎ (10 ≤ total (smalls s) g)

pub Group-IsGroup : (s : Segments) (g : List ℕ) → Group s g → IsGroup s g
unfolding member
Group-IsGroup s g (large r m o) = record {
  is_part = one-IsPart r s.runs m;
  listed = λ q i. ground (arith, i, m, eqb_iff r q);
  can_merge = λ q i.
      ground (arith, i, o.0, eqb_iff r q, ap (λ x. mergeable s (s.run_at x)) {x = r} {y = q});
  wins = inl (omega (arith, o.2));
}
Group-IsGroup s g (full c few ten) = record {
  is_part = class_runs-IsPart s c s.runs;
  listed = λ q i. (class_runs-member s c q s.runs i).0;
  can_merge = λ q i. (class_runs-member s c q s.runs i).1;
  wins = inr (omega (arith, ten, total-ones (smalls s) (class_runs s c s.runs) one));
}
  where
    one : (q : ℕ) → member q (class_runs s c s.runs) ≡ true → smalls s q ≡ 1
    one q i = let h = class_runs-member s c q s.runs i in ground (arith, h.1, h.2, few)

-- A merge that does not fail leaves less to merge.
abbrev pub Less : Segments → Segments → Type 0
Less s t =
    (all_weight t < all_weight s) ⊎ ((all_weight t ≤ all_weight s) × (all_smalls t < all_smalls s))

ready :
    (s₀ : Segments) (g : List ℕ) (Seen : Pairs) (ix : Index) (d k : ℕ)
    → Under s₀ g Seen ix [] d k
    → IsReady ix
ready s₀ g Seen ix d k u = record { tidy = u.tidy; lists = u.lists; stored = u.stored }

module _ (e : Engine) (builds : BuildsSome e) (ix : Index) (g : List ℕ) (is_ready : IsReady ix)
    (group : IsGroup ix.segments g) where
  s₀ : Segments
  s₀ = ix.segments

  below : All (λ q. q < ix.segments.next_run) g
  below =
      All-members (λ q. q < ix.segments.next_run) g
        (λ q m.
          All-below ix.segments.next_run q ix.segments.runs
            (runs-old ix.segments ix.segments.runs is_ready.tidy is_ready.tidy.living)
            (group.listed q m))

  among : All (λ q. member q g ≡ true) g
  among = All-members (λ q. member q g ≡ true) g (λ q m. m)

  merged-Less :
      (jx : Index)
      → Under ix.segments g
          (SeenRuns e ix.segments g below builds g)
          jx
          []
          (total (ids_of ix.segments) g)
          1
      → Less ix.segments jx.segments
  merged-Less jx u = elim group.wins [
    | inl obsolete ↦ inl (omega (arith, left, obsolete, u.moved))
    | inr ten ↦ elim u.few_small [
      | inl less ↦ inl (omega (arith, left, less))
      | inr one ↦ inr (
        omega (arith, left, u.count),
        omega (
          arith,
          ten,
          one,
          smalls-left ix.segments g _ jx _ 1 is_ready.tidy u group.is_part dead,
        ),
      )
    ]
  ]
    where
      dead : (q : ℕ) → member q g ≡ true → live_of jx.segments q ≡ 0
      dead q m =
          seen-dead ix.segments g (SeenRuns e ix.segments g below builds g) jx
            (total (ids_of ix.segments) g) 1 q u (All-below ix.segments.next_run q g below m)
            (λ id i. (m, i))

      left :
          all_weight jx.segments + total (ids_of ix.segments) g
          ≤ all_weight ix.segments + total (ids_of jx.segments) u.news
      left =
          weight-left ix.segments g (SeenRuns e ix.segments g below builds g) jx
            (total (ids_of ix.segments) g) 1 g is_ready.tidy u group.is_part group.can_merge
            (λ q m alive. absurd (omega (arith, alive, dead q m)))

  stopped-Less :
      (jx : Index) → StoppedIn e ix.segments g below builds jx → Less ix.segments jx.segments
  stopped-Less jx h = inl (
      omega (
        arith,
        left,
        h.stopped.fewer,
        u.count,
        total-append (ids_of ix.segments) h.before (h.run ∷ []),
      ))
    where
      part : List ℕ
      part = h.before ++ (h.run ∷ [])

      Seen : Pairs
      Seen = SeenRuns e ix.segments g below builds h.before

      u : Under ix.segments g Seen jx [] h.stopped.looked 1
      u = h.stopped.at.under

      in_group : (q : ℕ) → member q part ≡ true → member q g ≡ true
      in_group q m = subst (λ l. member q l ≡ true) h.parts (member-first q part h.later m)

      dead : (q : ℕ) → member q h.before ≡ true → live_of jx.segments q ≡ 0
      dead q m =
          seen-dead ix.segments g Seen jx h.stopped.looked 1 q u
            (All-below ix.segments.next_run q g below
              (in_group q (member-first q h.before (h.run ∷ []) m)))
            (λ id i. (m, i))

      pinned : weight jx.segments h.run ≡ 0
      pinned = unfold mergeable in ground (arith, h.stopped.at.pinned)

      gone : (q : ℕ) → member q part ≡ true → 0 < live_of jx.segments q → weight jx.segments q ≡ 0
      gone q m alive = elim (member-last q h.before h.run m) [
        | inl i ↦ absurd (omega (arith, alive, dead q i))
        | inr same ↦ ap (weight jx.segments) same ∙ pinned
      ]

      left :
          all_weight jx.segments + total (ids_of ix.segments) part
          ≤ all_weight ix.segments + total (ids_of jx.segments) u.news
      left =
          weight-left ix.segments g Seen jx h.stopped.looked 1 part is_ready.tidy u
            (IsPart-first part h.later ix.segments.runs
              (subst (λ l. IsPart l ix.segments.runs) (sym h.parts) group.is_part))
            (λ q m. group.can_merge q (in_group q m)) gone

  -- What a merge that does not fail leads to.
  abbrev pub Onwards : Index × Option Error → Type 0
  Onwards (jx, some x) = Unit
  Onwards (jx, none) = IsReady jx × Less ix.segments jx.segments

  onwards : (x : Index × Option Error) → OnEnd e ix.segments g below builds x → Onwards x
  onwards (jx, some x) h = tt
  onwards (jx, none) (inl u) = (ready ix.segments g _ jx _ 1 u, merged-Less jx u)
  onwards (jx, none) (inr h) = (ready ix.segments g _ jx _ 1 h.stopped.at.under, stopped-Less jx h)

  pub merge_runs-Onwards : Onwards (merge_runs e ix g)
  merge_runs-Onwards =
      onwards (merge_runs e ix g) (merge_runs-OnEnd e ix g below builds among is_ready)
