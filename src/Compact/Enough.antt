-- ===== src/Compact/Enough.antt =====
-- Some fuel is enough for the loop of `compactRuns` (segments.go).
use osmem.Prelude.{
  ℕ, zero, suc, ◌+◌, ◌≤◌, ◌<◌, Option, none, some, List, ◌≡◌, refl, sym, ap, subst, ◌∙◌, arith, inl,
  inr, Option-cases,
}
use osmem.Error.{Error}
use osmem.Segment.{runs_to_merge}
use osmem.Segment.Group.{runs_to_merge-Group}
use osmem.Index.{Index, Engine}
use osmem.Compact.{merge_runs, compact_runs, next_round}
use osmem.Compact.Settles.{compact_runs-done, compact_runs-round}
use osmem.Compact.Progress.{BuildsSome}
use osmem.Compact.Ready.{IsReady}
use osmem.Compact.Weigh.{all_weight, all_smalls}
use osmem.Compact.Ends.{IsGroup, Group-IsGroup, Onwards, merge_runs-Onwards}

-- What the loop without fuel returns, after some rounds.
pub data Returns (e : Engine) : Index → Index × Option Error → Type 0 where
  settled : (ix : Index) → runs_to_merge ix.segments ≡ none → Returns e ix (ix, none)
  failed :
      (ix jx : Index) (g : List ℕ) (x : Error)
      → runs_to_merge ix.segments ≡ some g
      → merge_runs e ix g ≡ (jx, some x)
      → Returns e ix (jx, some x)
  again :
      (ix jx : Index) (g : List ℕ) (result : Index × Option Error)
      → runs_to_merge ix.segments ≡ some g
      → merge_runs e ix g ≡ (jx, none)
      → Returns e jx result
      → Returns e ix result

module _ (e : Engine) (builds : BuildsSome e) where
  abbrev pub Enough : Index → Type 0
  Enough ix = (fuel : ℕ) × ((n : ℕ) → fuel ≤ n → Returns e ix (compact_runs n e ix))

  Enough-settled : (ix : Index) → runs_to_merge ix.segments ≡ none → Enough ix
  Enough-settled ix done = (1, from_one)
    where
      from_one : (n : ℕ) → 1 ≤ n → Returns e ix (compact_runs n e ix)
      from_one zero le = absurd (omega (arith, le))
      from_one (suc n) le =
          subst (Returns e ix) (sym (compact_runs-done n e ix done)) (settled ix done)

  Enough-round :
      (ix : Index) (g : List ℕ) (x : Index × Option Error)
      → runs_to_merge ix.segments ≡ some g
      → merge_runs e ix g ≡ x
      → ((jx : Index) → x ≡ (jx, none) → Enough jx)
      → Enough ix
  Enough-round ix g (jx, some x) found merged later = (1, from_one)
    where
      from_one : (n : ℕ) → 1 ≤ n → Returns e ix (compact_runs n e ix)
      from_one zero le = absurd (omega (arith, le))
      from_one (suc n) le =
          subst (Returns e ix)
            (sym (compact_runs-round n e ix g found ∙ ap (next_round (compact_runs n e)) merged))
            (failed ix jx g x found merged)
  Enough-round ix g (jx, none) found merged later = (suc (later jx refl).0, from_more)
    where
      from_more : (n : ℕ) → suc (later jx refl).0 ≤ n → Returns e ix (compact_runs n e ix)
      from_more zero le = absurd (omega (arith, le))
      from_more (suc n) le =
          subst (Returns e ix)
            (sym (compact_runs-round n e ix g found ∙ ap (next_round (compact_runs n e)) merged))
            (again ix jx g (compact_runs n e jx) found merged
              ((later jx refl).1 n (omega (arith, le))))

  -- By the weight and then by the number of small runs.
  Enough-below :
      (a : ℕ)
      → ((jx : Index) → IsReady jx → all_weight jx.segments < a → Enough jx)
      → (b : ℕ) (ix : Index) → IsReady ix
      → all_weight ix.segments < suc a
      → all_smalls ix.segments < b
      → Enough ix
  Enough-below a lighter zero ix h light few = absurd (omega (arith, few))
  Enough-below a lighter (suc b) ix h light few = elim (Option-cases (runs_to_merge ix.segments)) [
    | inl done ↦ Enough-settled ix done
    | inr (g, found) ↦
        let group = Group-IsGroup ix.segments g (runs_to_merge-Group ix.segments found) in
        Enough-round ix g (merge_runs e ix g) found refl (
          after_round g group (merge_runs e ix g) (merge_runs-Onwards e builds ix g h group)
            (λ jx. Enough-below a lighter b jx))
  ]
    where
      after_round :
          (g : List ℕ) (group : IsGroup ix.segments g) (x : Index × Option Error)
          → Onwards e builds ix g h group x
          → ((jx : Index)
              → IsReady jx
              → all_weight jx.segments < suc a
              → all_smalls jx.segments < b
              → Enough jx)
          → (jx : Index) → x ≡ (jx, none)
          → Enough jx
      after_round g group (kx, some y) o fewer jx e = absurd (cc)
      after_round g group (kx, none) (k, inl less) fewer jx e =
          subst Enough (ap (λ p. p.0) e) (lighter kx k (omega (arith, less, light)))
      after_round g group (kx, none) (k, inr (same, less)) fewer jx e =
          subst Enough (ap (λ p. p.0) e)
            (fewer kx k (omega (arith, same, light)) (omega (arith, less, few)))

  Enough-weight : (a : ℕ) (ix : Index) → IsReady ix → all_weight ix.segments < a → Enough ix
  Enough-weight zero ix h light = absurd (omega (arith, light))
  Enough-weight (suc a) ix h light =
      Enough-below a (Enough-weight a) (suc (all_smalls ix.segments)) ix h light (omega arith)

  -- With enough fuel, and with any more, a compaction returns what the loop without fuel returns, if
  -- the bookkeeping of the runs is right, every document of a run is stored and is listed by the run,
  -- and every document is built into some bleve document.
  pub compact_runs-Returns :
      (ix : Index)
      → IsReady ix
      → (fuel : ℕ) × ((more : ℕ) → Returns e ix (compact_runs (more + fuel) e ix))
  compact_runs-Returns ix h =
      let enough = Enough-weight (suc (all_weight ix.segments)) ix h (omega arith) in
      (enough.0, λ more. enough.1 (more + enough.0) (omega arith))
