-- ===== src/Segment/Moving.antt =====
-- What a commit makes of the runs when its batch indexes documents that they hold (segments.go,
-- `commit`).
use osmem.Prelude.{
  ℕ, suc, ◌+◌, ◌≤◌, ◌<◌, String, true, false, Option, none, some, List, [], ◌∷◌, ◌++◌, ◌≡◌, refl,
  arith, eqb_iff, All, if◌then◌else◌, length, length-append, ◌⊎◌,
}
use osmem.Prelude.Dict.{◌==◌, string_keys, nat_keys, lookup, member, lookup-insert}
use osmem.Prelude.Distinct.{holders-remove}
use text.Mathlib.TextEquality.{eq_iff}
use osmem.Segment.{Segments, RootOp, update, leave, enter, allocate}
use osmem.Segment.Counts.{IsCounted}
use osmem.Segment.Steps.{leave-lookup}
use osmem.Segment.Sums.{total, total-less, total_mono, All-below}

-- A document that a run holds is among those that its batch indexed.
abbrev pub ListsIds : Segments → Type 0
ListsIds s = (id : String) (r : ℕ) → lookup id s.run_of ≡ some r → member id (s.run_at r).ids ≡ true

abbrev pub live_of : Segments → ℕ → ℕ
live_of s q = (s.run_at q).live

abbrev pub ids_of : Segments → ℕ → ℕ
ids_of s q = length (s.run_at q).ids

-- An operation indexes a document of the group.
abbrev pub Moves : Segments → List ℕ → RootOp → Type 0
Moves s g op =
    (op.deleted ≡ false) × ((p : ℕ) × (lookup op.id s.run_of ≡ some p) × (member p g ≡ true))

pub member-append_id :
    (id j : String) (ids : List String)
    → member j (ids ++ (id ∷ [])) ≡ (if member j ids then true else id == j)
unfolding member
member-append_id id j [] = ground arith
member-append_id id j (i ∷ ids) = ground (arith, member-append_id id j ids)

abbrev left_of : Option String → ℕ
left_of none = 0
left_of (some id) = 1

module _ (s₀ : Segments) (g : List ℕ) (below : All (λ q. q < s₀.next_run) g) where
  abbrev pub base : ℕ
  base = s₀.next_run

  -- The runs while a batch is committed, of which `n` operations are done; `out` is a document that has
  -- left its run and is in none.
  pub record Moving (s : Segments) (n : ℕ) (out : Option String) : Type 0 where
    pub runs_same : s.runs ≡ s₀.runs
    pub gen_same : s.mapping_gen ≡ s₀.mapping_gen
    pub next : s.next_run ≡ suc base
    pub old_ids : (q : ℕ) → q < base → (s.run_at q).ids ≡ (s₀.run_at q).ids
    pub old_gen : (q : ℕ) → q < base → (s.run_at q).gen ≡ (s₀.run_at q).gen
    pub old_pinned : (q : ℕ) → q < base → (s.run_at q).pinned ≡ (s₀.run_at q).pinned
    pub old_live : (q : ℕ) → q < base → member q g ≡ false → live_of s q ≡ live_of s₀ q
    pub new_gen : (s.run_at base).gen ≡ s₀.mapping_gen
    pub new_pinned : (s.run_at base).pinned ≡ false
    pub new_full : ids_of s base ≡ live_of s base
    pub few : ids_of s base ≤ n
    pub moved : total (live_of s) g + ids_of s base + left_of out ≤ total (live_of s₀) g
    pub held :
        (id : String)
        → (out ≡ some id)
          ⊎ ((lookup id s.run_of ≡ lookup id s₀.run_of) ⊎ (lookup id s.run_of ≡ some base))
    pub lists : ListsIds s

  not_base : (p : ℕ) → member p g ≡ true → p < base
  not_base p m = All-below base p g below m

  leave-total :
      (s : Segments) (id : String) (p : ℕ)
      → 0 < live_of s p
      → member p g ≡ true
      → suc (total (live_of (leave s id p)) g) ≤ total (live_of s) g
  unfolding leave update
  leave-total s id p alive m =
      total-less (live_of s) (live_of (leave s id p)) p base g below m
        (λ q b. ground (arith, eqb_iff p q))

  leave-lists : (s : Segments) (id : String) (p : ℕ) → ListsIds s → ListsIds (leave s id p)
  unfolding leave update
  leave-lists s id p l j r e = ground (arith, l j r, leave-lookup s id p j, eqb_iff p r)

  pub leave-Moving :
      (s : Segments) (n : ℕ) (id : String) (p : ℕ)
      → 0 < live_of s p
      → member p g ≡ true
      → Moving s n none
      → Moving (leave s id p) n (some id)
  unfolding leave update
  leave-Moving s n id p alive m v = record {
    runs_same = v.runs_same;
    gen_same = v.gen_same;
    next = v.next;
    old_ids = λ q b. ground (arith, v.old_ids q b, eqb_iff p q);
    old_gen = λ q b. ground (arith, v.old_gen q b, eqb_iff p q);
    old_pinned = λ q b. ground (arith, v.old_pinned q b, eqb_iff p q);
    old_live = λ q b out. ground (arith, v.old_live q b out, eqb_iff p q);
    new_gen = ground (arith, v.new_gen, not_base p m, eqb_iff p base);
    new_pinned = ground (arith, v.new_pinned, not_base p m, eqb_iff p base);
    new_full = ground (arith, v.new_full, not_base p m, eqb_iff p base);
    few = ground (arith, v.few, not_base p m, eqb_iff p base);
    moved = ground (arith, leave-total s id p alive m, v.moved, not_base p m, eqb_iff p base);
    held = λ j. ground (arith, v.held j, leave-lookup s id p j, eq_iff id j);
    lists = leave-lists s id p v.lists;
  }

  pub enter-Moving :
      (s : Segments) (n : ℕ) (id : String)
      → Moving s n (some id)
      → Moving (enter s id base) (suc n) none
  unfolding enter update
  enter-Moving s n id v = record {
    runs_same = v.runs_same;
    gen_same = v.gen_same;
    next = v.next;
    old_ids = λ q b. ground (arith, v.old_ids q b, eqb_iff base q);
    old_gen = λ q b. ground (arith, v.old_gen q b, eqb_iff base q);
    old_pinned = λ q b. ground (arith, v.old_pinned q b, eqb_iff base q);
    old_live = λ q b out. ground (arith, v.old_live q b out, eqb_iff base q);
    new_gen = ground (arith, v.new_gen, eqb_iff base base);
    new_pinned = ground (arith, v.new_pinned, eqb_iff base base);
    new_full =
        ground (arith, v.new_full, eqb_iff base base, length-append (s.run_at base).ids (id ∷ []));
    few = ground (arith, v.few, eqb_iff base base, length-append (s.run_at base).ids (id ∷ []));
    moved = ground (
      arith,
      v.moved,
      eqb_iff base base,
      length-append (s.run_at base).ids (id ∷ []),
      total_mono (live_of (enter s id base)) (live_of s) g
          (λ q m. ground (arith, not_base q m, eqb_iff base q)),
    );
    held = λ j. ground (arith, v.held j, lookup-insert id j base s.run_of, eq_iff id j);
    lists = λ j r e. ground (
      arith,
      v.lists j r,
      eqb_iff base r,
      eq_iff id j,
      lookup-insert id j base s.run_of,
      member-append_id id j (s.run_at base).ids,
    );
  }

  pub held-alive :
      (s : Segments) (run : Option ℕ) (id : String) (p : ℕ)
      → IsCounted s run
      → lookup id s.run_of ≡ some p
      → 0 < live_of s p
  held-alive s run id p c e =
      ground (arith, c.live p, holders-remove p id s.run_of c.distinct, eqb_iff p p)

  held-old : (id : String) (p : ℕ) → IsCounted s₀ none → lookup id s₀.run_of ≡ some p → p < base
  held-old id p c e = ground (arith, c.fresh p, c.live p, held-alive s₀ none id p c e)

  pub allocate-Moving :
      (id : String) (p : ℕ)
      → IsCounted s₀ none
      → ListsIds s₀
      → lookup id s₀.run_of ≡ some p
      → member p g ≡ true
      → Moving (allocate (leave s₀ id p)) 0 (some id)
  unfolding allocate leave update
  allocate-Moving id p c l e m = record {
    runs_same = refl;
    gen_same = refl;
    next = refl;
    old_ids = λ q b. ground (arith, eqb_iff p q, eqb_iff base q);
    old_gen = λ q b. ground (arith, eqb_iff p q, eqb_iff base q);
    old_pinned = λ q b. ground (arith, eqb_iff p q, eqb_iff base q);
    old_live = λ q b out. ground (arith, eqb_iff p q, eqb_iff base q);
    new_gen = ground (arith, eqb_iff base base);
    new_pinned = ground (arith, eqb_iff base base);
    new_full = ground (arith, eqb_iff base base);
    few = ground (arith, eqb_iff base base);
    moved = ground (
      arith,
      eqb_iff base base,
      leave-total s₀ id p (held-alive s₀ none id p c e) m,
      total_mono (live_of (allocate (leave s₀ id p))) (live_of (leave s₀ id p)) g
          (λ q m. ground (arith, not_base q m, eqb_iff base q)),
    );
    held = λ j. ground (arith, leave-lookup s₀ id p j, eq_iff id j);
    lists = λ j r f. ground (
      arith,
      leave-lists s₀ id p l j r f,
      leave-lookup s₀ id p j,
      held-old j r c,
      eqb_iff base r,
    );
  }

  pub again-Moving : (s : Segments) (n : ℕ) → Moving s n none → Moving s (suc n) none
  again-Moving s n v = record {
    runs_same = v.runs_same;
    gen_same = v.gen_same;
    next = v.next;
    old_ids = v.old_ids;
    old_gen = v.old_gen;
    old_pinned = v.old_pinned;
    old_live = v.old_live;
    new_gen = v.new_gen;
    new_pinned = v.new_pinned;
    new_full = v.new_full;
    few = omega (arith, v.few);
    moved = v.moved;
    held = v.held;
    lists = v.lists;
  }
