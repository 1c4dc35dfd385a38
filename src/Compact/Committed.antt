-- ===== src/Compact/Committed.antt =====
-- What a commit does to the state of the loops of `mergeRuns` (segments.go).
use osmem.Prelude.{
  ℕ, ◌+◌, ◌≤◌, ◌<◌, String, true, false, Option, none, some, List, [], ◌∷◌, ◌++◌, ◌≡◌, refl, sym,
  ap, subst, ◌∙◌, arith, eqb, eqb_iff, All, if◌then◌else◌, length, ◌⊎◌, inl, inr, Bool-cases,
  Option-cases,
}
use osmem.Prelude.Dict.{string_keys, nat_keys, lookup, member}
use osmem.Error.{Error}
use osmem.Segment.{
  Segments, RootOp, BatchOp, is_empty, sweep, live_runs, appended, commit, commit_roots,
}
use osmem.Segment.Counts.{IsTidy, commit-IsTidy}
use osmem.Segment.Sums.{total, total-append, total_mono, All-below}
use osmem.Segment.Moving.{Moving, live_of, ids_of}
use osmem.Segment.Roots.{commit_roots-Moving}
use osmem.Index.{Index, Engine, commit_index}
use osmem.Compact.Under.{Under, Pairs, small, one_if_small, Grown, names_root, is_nil}
use osmem.Compact.Held.{live_runs-total, appended-total, moved-held, commit_roots-held}

module _ (s₀ : Segments) (g : List ℕ) (Seen : Pairs) (below : All (λ q. q < s₀.next_run) g) where
  not_new : (q : ℕ) → s₀.next_run ≤ q → member q g ≡ false
  not_new q le = elim (Bool-cases (member q g)) [
    | inl m ↦ absurd (omega (arith, All-below s₀.next_run q g below m))
    | inr m ↦ m
  ]

  All-later :
      (base : ℕ) (l : List ℕ)
      → s₀.next_run ≤ base
      → All (λ q. q < s₀.next_run) l
      → All (λ q. q < base) l
  All-later base [] le a = tt
  All-later base (q ∷ l) le a = (omega (arith, a.0), All-later base l le a.1)

  module _ (ix : Index) (op : RootOp) (ops : List RootOp) (d k : ℕ)
      (u : Under s₀ g Seen ix (op ∷ ops) d 0)
      (grown : (n : ℕ)
        → n ≤ length (op ∷ ops)
        → (n < length (op ∷ ops)) ⊎ (one_if_small n ≤ k)) where
    abbrev base : ℕ
    base = ix.segments.next_run

    abbrev roots : List RootOp
    roots = op ∷ ops

    abbrev after : Segments
    after = (commit_roots ix.segments none (op ∷ ops)).0

    abbrev swept : Index
    swept = record ix { segments = sweep (after, some base) }

    v : Moving ix.segments g (All-later base g u.next below) after (length (op ∷ ops)) none
    v =
        (commit_roots-Moving ix.segments g (All-later base g u.next below) op ops u.tidy.counted
          u.lists u.moves).0

    same_ids : total (ids_of after) u.news ≤ total (ids_of ix.segments) u.news
    same_ids =
        total_mono (ids_of after) (ids_of ix.segments) u.news
          (λ q m. ground (arith, ap length (v.old_ids q (u.news_new q m).1)))

    held_after :
        (id : String)
        → lookup id after.run_of
          ≡ (if names_root id roots then some base else lookup id ix.segments.run_of)
    held_after id = commit_roots-held ix.segments g roots id u.moves

    new_live : (q : ℕ) → member q u.news ≡ true → live_of after q ≡ live_of ix.segments q
    new_live q m = v.old_live q (u.news_new q m).1 (not_new q (u.news_new q m).0)

    same_small : total (small after) u.news ≤ total (small ix.segments) u.news
    same_small =
        total_mono (small after) (small ix.segments) u.news
          (λ q m. ground (arith, ap one_if_small (new_live q m)))

    runs_within :
        (f : ℕ → ℕ)
        → total f (live_runs after.run_at after.runs ++ appended after.run_at (some base))
          ≤ total f s₀.runs + (f base + total f u.news)
    runs_within f = omega (
      arith,
      total-append f (live_runs after.run_at after.runs) (appended after.run_at (some base)),
      live_runs-total f after.run_at after.runs,
      appended-total f after.run_at base,
      ap (total f) v.runs_same,
      u.within f,
    )

    still_stored :
        (id : String) (r : ℕ) → lookup id after.run_of ≡ some r → ¬ (lookup id ix.docs ≡ none)
    still_stored id r e = elim (Bool-cases (names_root id roots)) [
      | inl b ↦
          let before = moved-held ix.segments g id roots u.moves b in u.stored id before.0 before.1
      | inr b ↦ u.stored id r (ground (arith, held_after id, b, e))
    ]

    few_after :
        (ids_of after base + total (ids_of after) u.news + 0 < d)
        ⊎ (small after base + total (small after) u.news ≤ k)
    few_after = elim u.few_small [
      | inl less ↦ inl (omega (arith, less, v.few, same_ids))
      | inr none_small ↦ elim (grown (ids_of after base) v.few) [
        | inl less ↦ inl (omega (arith, less, u.count, same_ids))
        | inr big ↦ inr (omega (arith, big, none_small, same_small, ap one_if_small v.new_full))
      ]
    ]

    unseen :
        (r : ℕ) (id : String) → r < s₀.next_run → Seen r id → ¬ (lookup id after.run_of ≡ some r)
    unseen r id b h e = elim (u.seen r id b h) [
      | inl gone ↦ elim (Bool-cases (names_root id roots)) [
        | inl n ↦ other r b (held_named id n e)
        | inr n ↦ gone (ground (arith, held_after id, n, e))
      ]
      | inr n ↦ other r b (held_named id n e)
    ]
      where
        other : (r : ℕ) → r < s₀.next_run → ¬ (base ≡ r)
        other r b e = omega (arith, u.next, b, e)

        held_named :
            (id : String) {r : ℕ}
            → names_root id roots ≡ true
            → lookup id after.run_of ≡ some r
            → base ≡ r
        held_named id n e = ground (arith, held_after id, n, e)

    full_after : (q : ℕ) → member q (base ∷ u.news) ≡ true → ids_of after q ≡ live_of after q
    unfolding member
    full_after q m = elim (Bool-cases (eqb base q)) [
      | inl e ↦ subst (λ x. ids_of after x ≡ live_of after x) ((eqb_iff base q).0 e) v.new_full
      | inr e ↦
          let old : member q u.news ≡ true = ground (arith, m, e) in
          ap length (v.old_ids q (u.news_new q old).1) ∙ u.news_full q old ∙ sym (new_live q old)
    ]

    swept-Under : IsTidy (sweep (after, some base)) → Under s₀ g Seen swept [] d k
    unfolding sweep
    swept-Under tidy = record {
      news = base ∷ u.news;
      tidy = tidy;
      lists = v.lists;
      stored = still_stored;
      next = omega (arith, u.next, v.next);
      gen_same = v.gen_same ∙ u.gen_same;
      old_ids = λ q b. v.old_ids q (omega (arith, u.next, b)) ∙ u.old_ids q b;
      old_gen = λ q b. v.old_gen q (omega (arith, u.next, b)) ∙ u.old_gen q b;
      old_pinned =
          λ q b free. u.old_pinned q b (sym (v.old_pinned q (omega (arith, u.next, b))) ∙ free);
      old_live = λ q b out. v.old_live q (omega (arith, u.next, b)) out ∙ u.old_live q b out;
      within = runs_within;
      news_new =
          λ q m. unfold member in ground (arith, u.next, v.next, u.news_new q, eqb_iff base q);
      news_full = full_after;
      moved = omega (arith, u.moved, v.moved, same_ids);
      count = omega (arith, u.count, v.few, same_ids);
      few_small = few_after;
      moves = tt;
      seen = λ r id b h. inl (unseen r id b h);
    }

  -- What a commit that succeeds leaves of a batch.
  abbrev pub AfterCommit : Index → ℕ → ℕ → Index × Option Error → Type 0
  AfterCommit ix d k (jx, some x) = Unit
  AfterCommit ix d k (jx, none) =
      Under s₀ g Seen jx [] d k
      × ((q : ℕ)
          → q < ix.segments.next_run
          → (jx.segments.run_at q).pinned ≡ (ix.segments.run_at q).pinned)

  empty-Under : (ix : Index) (d k : ℕ) → Under s₀ g Seen ix [] d 0 → Under s₀ g Seen ix [] d k
  empty-Under ix d k u = record {
    news = u.news;
    tidy = u.tidy;
    lists = u.lists;
    stored = u.stored;
    next = u.next;
    gen_same = u.gen_same;
    old_ids = u.old_ids;
    old_gen = u.old_gen;
    old_pinned = u.old_pinned;
    old_live = u.old_live;
    within = u.within;
    news_new = u.news_new;
    news_full = u.news_full;
    moved = u.moved;
    count = u.count;
    few_small = elim u.few_small [
      | inl less ↦ inl less
      | inr zero_small ↦ inr (omega (arith, zero_small))
    ];
    moves = u.moves;
    seen = u.seen;
  }

  commit-accepted :
      (e : Engine) (ix : Index) (bops : List BatchOp) (op : RootOp) (ops : List RootOp) (d : ℕ)
      → is_empty bops ≡ false
      → e.bleve_batch bops ≡ none
      → Under s₀ g Seen ix (op ∷ ops) d 0
      → commit e.bleve_batch ix.segments (record { ops = bops; roots = op ∷ ops })
        ≡ (sweep ((commit_roots ix.segments none (op ∷ ops)).0, some ix.segments.next_run), none)
  unfolding commit
  commit-accepted e ix bops op ops d some_ops f u =
      let all =
        commit_roots-Moving ix.segments g (All-later ix.segments.next_run g u.next below) op ops
          u.tidy.counted u.lists u.moves in
      let run = all.1 in
      rw (some_ops, f)
        (ap (λ r. (sweep ((commit_roots ix.segments none (op ∷ ops)).0, r), none)) run)

  pub commit_index-Under :
      (e : Engine) (ix : Index) (bops : List BatchOp) (roots : List RootOp) (d k : ℕ)
      → is_empty bops ≡ is_nil roots
      → Under s₀ g Seen ix roots d 0
      → Grown (length roots) k
      → AfterCommit ix d k (commit_index e ix (record { ops = bops; roots = roots }))
  unfolding commit_index commit
  commit_index-Under e ix bops [] d k nil u grown = rw nil (empty-Under ix d k u, λ q b. refl)
  commit_index-Under e ix bops (op ∷ ops) d k nil u grown =
      elim (Option-cases (e.bleve_batch bops)) [
        | inr (x, f) ↦ rw (nil, f) tt
        | inl f ↦
            let accepted = commit-accepted e ix bops op ops d nil f u in
            let tidy =
              subst (λ p. IsTidy p.0) accepted
                (commit-IsTidy e.bleve_batch ix.segments (record { ops = bops; roots = op ∷ ops })
                  u.tidy) in
            subst (λ p. AfterCommit ix d k (record ix { segments = p.0 }, p.1)) (sym accepted)
              (swept-Under ix op ops d k u grown tidy, (v ix op ops d k u grown).old_pinned)
      ]
