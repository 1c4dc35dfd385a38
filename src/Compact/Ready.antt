-- ===== src/Compact/Ready.antt =====
-- A whole run of `mergeRuns` on an index that is between merges (segments.go).
use osmem.Prelude.{ℕ, ◌<◌, true, List, [], ◌≡◌, refl, arith, All, inr}
use osmem.Prelude.Dict.{string_keys, nat_keys, member}
use osmem.Segment.{new_batch}
use osmem.Segment.Moving.{ListsIds}
use osmem.Index.{Index, Engine}
use osmem.Compact.{merge_list, merge_runs}
use osmem.Compact.Under.{IsStored}
use osmem.Segment.Counts.{IsTidy}
use osmem.Compact.Progress.{BuildsSome, InMerge}
use osmem.Compact.Rounds.{OnEnd, SeenRuns, finish_merge-OnEnd, merge_list-OnList}

-- What holds of an index between merges.
pub record IsReady (ix : Index) : Type 0 where
  pub tidy : IsTidy ix.segments
  pub lists : ListsIds ix.segments
  pub stored : IsStored ix

starts :
    (e : Engine) (ix : Index) (g : List ℕ) (below : All (λ q. q < ix.segments.next_run) g)
    (builds : BuildsSome e)
    → IsReady ix
    → InMerge e ix.segments g below builds
        (SeenRuns e ix.segments g below builds [])
        (record { index = ix; batch = new_batch; queued = 0 })
        0
unfolding member
starts e ix g below builds h = record {
  under = record {
    news = [];
    tidy = h.tidy;
    lists = h.lists;
    stored = h.stored;
    next = omega arith;
    gen_same = refl;
    old_ids = λ q b. refl;
    old_gen = λ q b. refl;
    old_pinned = λ q b free. free;
    old_live = λ q b out. refl;
    within = λ f. omega arith;
    news_new = λ q m. absurd (cc m);
    news_full = λ q m. absurd (cc m);
    moved = omega arith;
    count = omega arith;
    few_small = inr (omega arith);
    moves = tt;
    seen = λ r id b h. absurd (cc h.0);
  };
  paired = refl;
  counted = refl;
}

pub merge_runs-OnEnd :
    (e : Engine) (ix : Index) (g : List ℕ) (below : All (λ q. q < ix.segments.next_run) g)
    (builds : BuildsSome e)
    → All (λ q. member q g ≡ true) g
    → IsReady ix
    → OnEnd e ix.segments g below builds (merge_runs e ix g)
unfolding merge_runs
merge_runs-OnEnd e ix g below builds among h =
    finish_merge-OnEnd e ix.segments g below builds
      (merge_list e g (record { index = ix; batch = new_batch; queued = 0 }))
      (merge_list-OnList e ix.segments g below builds [] g
        (record { index = ix; batch = new_batch; queued = 0 }) refl among
        (starts e ix g below builds h))
