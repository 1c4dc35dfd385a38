-- ===== src/Compact/Rounds.antt =====
-- The loops of `mergeRuns` over the runs of a group (segments.go).
use osmem.Prelude.{
  ℕ, suc, ◌+◌, ◌<◌, String, true, Option, none, some, List, [], ◌∷◌, ◌++◌, ◌≡◌, refl, sym, ap,
  subst, ◌∙◌, arith, All, length, ◌⊎◌, inl, inr, Bool-cases,
}
use osmem.Prelude.Dict.{◌==◌, string_keys, nat_keys, member}
use osmem.Error.{Error}
use osmem.Segment.{Segments}
use osmem.Segment.Sums.{total, total-append, All-below, member-last}
use osmem.Segment.Moving.{ids_of}
use text.Mathlib.TextEquality.{eq_iff}
use osmem.Index.{Index, Engine, commit_index}
use osmem.Compact.{Merging, MergeStep, more, stop, merge_doc, merge_ids, merge_list, finish_merge}
use osmem.Compact.Under.{Under, Pairs}
use osmem.Compact.Queued.{Also, weaken-Under}
use osmem.Compact.Committed.{AfterCommit, commit_index-Under}
use osmem.Compact.Progress.{one-Grown, BuildsSome, InMerge, PinnedAt, OnDoc, merge_doc-OnDoc}

-- All documents of a list are seen under a run.
abbrev pub AlsoAll : Pairs → ℕ → List String → Pairs
AlsoAll Seen r ids q j = Seen q j ⊎ ((q ≡ r) × (member j ids ≡ true))

module _ (e : Engine) (s₀ : Segments) (g : List ℕ) (below : All (λ q. q < s₀.next_run) g)
    (builds : BuildsSome e) where
  weaken-InMerge :
      (Seen Fewer : Pairs) (m : Merging) (d : ℕ)
      → ((q : ℕ) (j : String) → Fewer q j → Seen q j)
      → InMerge e s₀ g below builds Seen m d
      → InMerge e s₀ g below builds Fewer m d
  weaken-InMerge Seen Fewer m d sub h = record {
    under = weaken-Under s₀ g Seen Fewer m.index m.batch.roots d 0 sub h.under;
    paired = h.paired;
    counted = h.counted;
  }

  -- The loop stopped at a document of the run before `limit` were looked at, and pinned the run.
  pub record PinnedBefore (Seen : Pairs) (r : ℕ) (ix : Index) (limit : ℕ) : Type 0 where
    pub looked : ℕ
    pub fewer : looked < limit
    pub at : PinnedAt e s₀ g below builds Seen r ix looked

  abbrev OnIds : Pairs → Pairs → ℕ → ℕ → MergeStep → Type 0
  OnIds Seen Whole r limit (more m) = InMerge e s₀ g below builds Whole m limit
  OnIds Seen Whole r limit (stop ix (some x)) = Unit
  OnIds Seen Whole r limit (stop ix none) = PinnedBefore Seen r ix limit

  OnIds-weaken :
      (Seen Fewer Whole Part : Pairs) (r limit limit' : ℕ) (x : MergeStep)
      → ((q : ℕ) (j : String) → Fewer q j → Seen q j)
      → ((q : ℕ) (j : String) → Part q j → Whole q j)
      → limit ≡ limit'
      → OnIds Seen Whole r limit x
      → OnIds Fewer Part r limit' x
  OnIds-weaken Seen Fewer Whole Part r limit limit' (more m) sub all same h =
      subst (InMerge e s₀ g below builds Part m) same (weaken-InMerge Whole Part m limit all h)
  OnIds-weaken Seen Fewer Whole Part r limit limit' (stop ix (some x)) sub all same h = tt
  OnIds-weaken Seen Fewer Whole Part r limit limit' (stop ix none) sub all same h = record {
    looked = h.looked;
    fewer = omega (arith, h.fewer, same);
    at = record {
      under = weaken-Under s₀ g Seen Fewer ix [] h.looked 1 sub h.at.under;
      pinned = h.at.pinned;
    };
  }

  merge_ids-OnIds :
      (Seen : Pairs) (r : ℕ) (ids : List String) (d : ℕ) (m : Merging)
      → InMerge e s₀ g below builds Seen m d
      → r < s₀.next_run
      → member r g ≡ true
      → OnIds Seen (AlsoAll Seen r ids) r (d + length ids) (merge_ids e r ids m)
  unfolding merge_ids member
  merge_ids-OnIds Seen r [] d m h old in_group =
      subst (InMerge e s₀ g below builds (AlsoAll Seen r []) m) (omega arith)
        (weaken-InMerge Seen (AlsoAll Seen r []) m d none_more h)
    where
      none_more : (q : ℕ) (j : String) → AlsoAll Seen r [] q j → Seen q j
      none_more q j (inl h) = h
      none_more q j (inr (e, f)) = absurd (cc f)
  merge_ids-OnIds Seen r (id ∷ ids) d m h old in_group =
      on_doc (merge_doc e m r id) (merge_doc-OnDoc e s₀ g below builds Seen r id d m h old in_group)
        (λ next h. merge_ids-OnIds (Also Seen r id) r ids (suc d) next h old in_group)
    where
      both :
          (q : ℕ) (j : String) → AlsoAll Seen r (id ∷ ids) q j → AlsoAll (Also Seen r id) r ids q j
      both q j (inl h) = inl (inl h)
      both q j (inr (same, f)) = elim (Bool-cases (id == j)) [
        | inl b ↦ inl (inr (same, sym ((eq_iff id j).0 b)))
        | inr b ↦ inr (same, ground (arith, f, b))
      ]

      on_doc :
          (x : MergeStep)
          → OnDoc e s₀ g below builds Seen r id d x
          → ((next : Merging)
              → InMerge e s₀ g below builds (Also Seen r id) next (suc d)
              → OnIds
                  (Also Seen r id)
                  (AlsoAll (Also Seen r id) r ids)
                  r
                  (suc d + length ids)
                  (merge_ids e r ids next))
          → OnIds Seen
              (AlsoAll Seen r (id ∷ ids))
              r
              (d + length (id ∷ ids))
              (elim x [ stop ix y ↦ stop ix y | more next ↦ merge_ids e r ids next ])
      on_doc (stop ix (some y)) h later = tt
      on_doc (stop ix none) h later = record { looked = d; fewer = omega arith; at = h }
      on_doc (more next) h later =
          OnIds-weaken (Also Seen r id) Seen (AlsoAll (Also Seen r id) r ids)
            (AlsoAll Seen r (id ∷ ids)) r (suc d + length ids) (d + length (id ∷ ids))
            (merge_ids e r ids next) (λ q j h. inl h) both (omega arith) (later next h)

  -- The documents of some of the runs.
  abbrev pub SeenRuns : List ℕ → Pairs
  SeenRuns done q j = (member q done ≡ true) × (member j (s₀.run_at q).ids ≡ true)

  -- The loops stopped at a run of the group.
  pub record StoppedIn (ix : Index) : Type 0 where
    pub before : List ℕ
    pub run : ℕ
    pub later : List ℕ
    pub parts : (before ++ (run ∷ [])) ++ later ≡ g
    pub stopped : PinnedBefore (SeenRuns before) run ix (total (ids_of s₀) before + ids_of s₀ run)

  abbrev pub OnList : MergeStep → Type 0
  OnList (more m) = InMerge e s₀ g below builds (SeenRuns g) m (total (ids_of s₀) g)
  OnList (stop ix (some x)) = Unit
  OnList (stop ix none) = StoppedIn ix

  append_nil : (l : List ℕ) → l ++ [] ≡ l
  append_nil [] = refl
  append_nil (q ∷ l) = ap (λ t. q ∷ t) (append_nil l)

  append_one : (l : List ℕ) (r : ℕ) (rs : List ℕ) → (l ++ (r ∷ [])) ++ rs ≡ l ++ (r ∷ rs)
  append_one [] r rs = refl
  append_one (q ∷ l) r rs = ap (λ t. q ∷ t) (append_one l r rs)

  pub merge_list-OnList :
      (done rs : List ℕ) (m : Merging)
      → done ++ rs ≡ g
      → All (λ q. member q g ≡ true) rs
      → InMerge e s₀ g below builds (SeenRuns done) m (total (ids_of s₀) done)
      → OnList (merge_list e rs m)
  unfolding merge_list
  merge_list-OnList done [] m whole among h =
      subst (λ l. InMerge e s₀ g below builds (SeenRuns l) m (total (ids_of s₀) l))
        (sym (append_nil done) ∙ whole) h
  merge_list-OnList done (r ∷ rs) m whole among h =
      on_run (merge_ids e r (m.index.segments.run_at r).ids m)
        (subst
          (λ ids.
            OnIds (SeenRuns done) (AlsoAll (SeenRuns done) r (s₀.run_at r).ids) r
              (total (ids_of s₀) done + ids_of s₀ r) (merge_ids e r ids m))
          (sym (h.under.old_ids r old))
          (merge_ids-OnIds (SeenRuns done) r (s₀.run_at r).ids (total (ids_of s₀) done) m h old
            among.0))
        (λ next h.
          merge_list-OnList (done ++ (r ∷ [])) rs next (append_one done r rs ∙ whole) among.1 h)
    where
      old : r < s₀.next_run
      old = All-below s₀.next_run r g below among.0

      both :
          (q : ℕ) (j : String)
          → SeenRuns (done ++ (r ∷ [])) q j
          → AlsoAll (SeenRuns done) r (s₀.run_at r).ids q j
      both q j (a, b) = elim (member-last q done r a) [
        | inl m ↦ inl (m, b)
        | inr same ↦ inr (same, ap (λ x. member j (s₀.run_at x).ids) (sym same) ∙ b)
      ]

      on_run :
          (x : MergeStep)
          → OnIds
              (SeenRuns done)
              (AlsoAll (SeenRuns done) r (s₀.run_at r).ids)
              r
              (total (ids_of s₀) done + ids_of s₀ r)
              x
          → ((next : Merging)
              → InMerge e s₀ g below builds
                  (SeenRuns (done ++ (r ∷ [])))
                  next
                  (total (ids_of s₀) (done ++ (r ∷ [])))
              → OnList (merge_list e rs next))
          → OnList (elim x [ stop ix y ↦ stop ix y | more next ↦ merge_list e rs next ])
      on_run (stop ix (some y)) h later = tt
      on_run (stop ix none) h later = record {
        before = done;
        run = r;
        later = rs;
        parts = append_one done r rs ∙ whole;
        stopped = h;
      }
      on_run (more next) h later = later next (
          subst (InMerge e s₀ g below builds (SeenRuns (done ++ (r ∷ []))) next)
            (omega (arith, total-append (ids_of s₀) done (r ∷ [])))
            (weaken-InMerge (AlsoAll (SeenRuns done) r (s₀.run_at r).ids)
              (SeenRuns (done ++ (r ∷ []))) next _ both h))

  -- What a merge leaves that does not fail.
  abbrev pub OnEnd : Index × Option Error → Type 0
  OnEnd (ix, some x) = Unit
  OnEnd (ix, none) = Under s₀ g (SeenRuns g) ix [] (total (ids_of s₀) g) 1 ⊎ StoppedIn ix

  after_last :
      (ix : Index) (d : ℕ) (x : Index × Option Error)
      → d ≡ total (ids_of s₀) g
      → AfterCommit s₀ g (SeenRuns g) below ix d 1 x
      → OnEnd x
  after_last ix d (jx, some x) same h = tt
  after_last ix d (jx, none) same h = inl (subst (λ k. Under s₀ g (SeenRuns g) jx [] k 1) same h.0)

  pub finish_merge-OnEnd : (x : MergeStep) → OnList x → OnEnd (finish_merge e x)
  finish_merge-OnEnd (stop ix (some x)) h = tt
  finish_merge-OnEnd (stop ix none) h = inr h
  finish_merge-OnEnd (more m) h =
      after_last m.index (total (ids_of s₀) g) (commit_index e m.index m.batch) refl (
        commit_index-Under s₀ g (SeenRuns g) below e m.index m.batch.ops m.batch.roots
          (total (ids_of s₀) g) 1 h.paired h.under (one-Grown (length m.batch.roots)))
