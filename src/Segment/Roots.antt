-- ===== src/Segment/Roots.antt =====
-- A whole batch that indexes documents of a group of runs, operation by operation (segments.go,
-- `commit`).
use osmem.Prelude.{
  ℕ, suc, ◌+◌, ◌<◌, true, false, not, ◌&&◌, Option, none, some, List, [], ◌∷◌, ◌≡◌, refl, sym,
  subst, ◌∙◌, arith, eqb_iff, All, length, ◌⊎◌, inl, inr,
}
use osmem.Prelude.Dict.{string_keys, nat_keys, lookup, member}
use osmem.Segment.{Segments, RootOp, leave, enter, allocate, place, commit_root, commit_roots, same}
use osmem.Segment.Counts.{IsCounted, commit_root-IsCounted}
use osmem.Segment.Steps.{commit_root-cases}
use osmem.Segment.Moving.{
  ListsIds, Moves, Moving, leave-Moving, enter-Moving, held-alive, allocate-Moving, again-Moving,
}

module _ (s₀ : Segments) (g : List ℕ) (below : All (λ q. q < s₀.next_run) g) where
  place-kept :
      (t : Segments) (op : RootOp)
      → op.deleted ≡ false
      → place t (some s₀.next_run) op ≡ (enter t op.id s₀.next_run, some s₀.next_run)
  unfolding place
  place-kept t op kept = rw kept refl

  -- The first operation of a batch, which makes its run.
  first-Moving :
      (op : RootOp)
      → IsCounted s₀ none
      → ListsIds s₀
      → Moves s₀ g op
      → (Moving s₀ g below (commit_root s₀ none op).0 1 none)
        × ((commit_root s₀ none op).1 ≡ some s₀.next_run)
  unfolding commit_root place allocate
  first-Moving op c l (kept, (p, e, m)) =
      rw (e, kept, commit_root)
        (
          enter-Moving s₀ g below (allocate (leave s₀ op.id p)) 0 op.id
              (allocate-Moving s₀ g below op.id p c l e m),
          refl,
        )

  next-Moving :
      (s : Segments) (n : ℕ) (op : RootOp)
      → IsCounted s (some s₀.next_run)
      → Moving s₀ g below s n none
      → Moves s₀ g op
      → (Moving s₀ g below (commit_root s (some s₀.next_run) op).0 (suc n) none)
        × ((commit_root s (some s₀.next_run) op).1 ≡ some s₀.next_run)
  next-Moving s n op c v (kept, (p, e, m)) = elim (commit_root-cases s (some s₀.next_run) op) [
    | inl (gone, step) ↦ absurd (in_run (v.held op.id) gone)
    | inr (inl (q, there, b, step)) ↦ rw step (again-Moving s₀ g below s n v, refl)
    | inr (inr (q, there, b, step)) ↦
        let into = step ∙ place-kept (leave s op.id q) op kept in
        rw into (
          enter-Moving s₀ g below (leave s op.id q) n op.id (
              leave-Moving s₀ g below s n op.id q
                (held-alive s₀ g below s (some s₀.next_run) op.id q c there)
                (in_group q there b (v.held op.id)) v),
          refl,
        )
  ]
    where
      in_run :
          (none ≡ some op.id)
            ⊎ ((lookup op.id s.run_of ≡ lookup op.id s₀.run_of)
                ⊎ (lookup op.id s.run_of ≡ some s₀.next_run))
          → lookup op.id s.run_of ≡ none
          → ⊥
      in_run h gone = ground (arith, h, gone, e)

      in_group :
          (q : ℕ)
          → lookup op.id s.run_of ≡ some q
          → same q (some s₀.next_run) && not op.deleted ≡ false
          → (none ≡ some op.id)
            ⊎ ((lookup op.id s.run_of ≡ lookup op.id s₀.run_of)
                ⊎ (lookup op.id s.run_of ≡ some s₀.next_run))
          → member q g ≡ true
      in_group q there b h = ground (arith, h, there, b, kept, e, m, eqb_iff q s₀.next_run)

  -- All operations but the first.
  rest-Moving :
      (s : Segments) (n : ℕ) (ops : List RootOp)
      → IsCounted s (some s₀.next_run)
      → Moving s₀ g below s n none
      → All (Moves s₀ g) ops
      → (Moving s₀ g below (commit_roots s (some s₀.next_run) ops).0 (n + length ops) none)
        × ((commit_roots s (some s₀.next_run) ops).1 ≡ some s₀.next_run)
  unfolding commit_roots
  rest-Moving s n [] c v m = (subst (λ k. Moving s₀ g below s k none) (omega arith) v, refl)
  rest-Moving s n (op ∷ ops) c v m =
      let step = next-Moving s n op c v m.0 in
      let counted = commit_root-IsCounted s (some s₀.next_run) op c in
      later (commit_root s (some s₀.next_run) op) step.0 step.1 counted
        (λ t d w. rest-Moving t (suc n) ops d w m.1)
    where
      later :
          (x : Segments × Option ℕ)
          → Moving s₀ g below x.0 (suc n) none
          → x.1 ≡ some s₀.next_run
          → IsCounted x.0 x.1
          → ((t : Segments)
              → IsCounted t (some s₀.next_run)
              → Moving s₀ g below t (suc n) none
              → (Moving s₀ g below
                  (commit_roots t (some s₀.next_run) ops).0
                  (suc n + length ops)
                  none)
                × ((commit_roots t (some s₀.next_run) ops).1 ≡ some s₀.next_run))
          → (Moving s₀ g below (commit_roots x.0 x.1 ops).0 (n + length (op ∷ ops)) none)
            × ((commit_roots x.0 x.1 ops).1 ≡ some s₀.next_run)
      later x w r d rest =
          let ih = rest x.0 (subst (IsCounted x.0) r d) w in
          subst
            (λ run.
              (Moving s₀ g below (commit_roots x.0 run ops).0 (n + length (op ∷ ops)) none)
              × ((commit_roots x.0 run ops).1 ≡ some s₀.next_run))
            (sym r)
            (
              subst (λ k. Moving s₀ g below (commit_roots x.0 (some s₀.next_run) ops).0 k none)
                  (omega arith) ih.0,
              ih.1,
            )

  -- All operations of a batch that has one.
  pub commit_roots-Moving :
      (op : RootOp) (ops : List RootOp)
      → IsCounted s₀ none
      → ListsIds s₀
      → All (Moves s₀ g) (op ∷ ops)
      → (Moving s₀ g below (commit_roots s₀ none (op ∷ ops)).0 (length (op ∷ ops)) none)
        × ((commit_roots s₀ none (op ∷ ops)).1 ≡ some s₀.next_run)
  unfolding commit_roots
  commit_roots-Moving op ops c l m =
      let step = first-Moving op c l m.0 in
      later (commit_root s₀ none op) step.0 step.1 (commit_root-IsCounted s₀ none op c)
    where
      later :
          (x : Segments × Option ℕ)
          → Moving s₀ g below x.0 1 none
          → x.1 ≡ some s₀.next_run
          → IsCounted x.0 x.1
          → (Moving s₀ g below (commit_roots x.0 x.1 ops).0 (suc (length ops)) none)
            × ((commit_roots x.0 x.1 ops).1 ≡ some s₀.next_run)
      later x w r d =
          let ih = rest-Moving x.0 1 ops (subst (IsCounted x.0) r d) w m.1 in
          subst
            (λ run.
              (Moving s₀ g below (commit_roots x.0 run ops).0 (suc (length ops)) none)
              × ((commit_roots x.0 run ops).1 ≡ some s₀.next_run))
            (sym r)
            (
              subst (λ k. Moving s₀ g below (commit_roots x.0 (some s₀.next_run) ops).0 k none)
                  (omega arith) ih.0,
              ih.1,
            )
