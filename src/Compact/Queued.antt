-- ===== src/Compact/Queued.antt =====
-- What the state of the loops of `mergeRuns` is after a document is looked at or queued (segments.go).
use osmem.Prelude.{
  ℕ, suc, ◌≤◌, ◌<◌, String, true, false, Option, none, some, List, [], ◌∷◌, ◌++◌, ◌≡◌, refl, sym,
  ap, ◌∙◌, arith, eqb_iff, All, if◌then◌else◌, length, length-append, ◌⊎◌, inl, inr,
}
use osmem.Prelude.Dict.{◌==◌, Dict, string_keys, nat_keys, lookup, member}
use osmem.Error.{Error}
use osmem.Version.{Doc}
use osmem.Segment.{Segments, RootOp, BatchOp, puts, DocBatch, is_empty, update}
use osmem.Segment.Sums.{total, total_mono}
use osmem.Segment.Moving.{Moves, live_of, ids_of}
use text.Mathlib.TextEquality.{eq_iff}
use osmem.Index.{Index, Engine, queue_documents}
use osmem.Compact.{pin}
use osmem.Compact.Keeps.{pin-Keeps}
use osmem.Compact.Under.{Under, Pairs, IsStored, small, one_if_small, names_root}

-- One pair more.
abbrev pub Also : Pairs → ℕ → String → Pairs
Also Seen r id q j = Seen q j ⊎ ((q ≡ r) × (j ≡ id))

names_root-append :
    (id : String) (roots : List RootOp) (op : RootOp)
    → names_root id (roots ++ (op ∷ [])) ≡ (if names_root id roots then true else op.id == id)
names_root-append id [] op = ground arith
names_root-append id (first ∷ roots) op = ground (arith, names_root-append id roots op)

All-append_one {ℓ} :
    {A : Type ℓ} (P : A → Type 0) (l : List A) (x : A) → All P l → P x → All P (l ++ (x ∷ []))
All-append_one P [] x a p = (p, tt)
All-append_one P (y ∷ l) x a p = (a.0, All-append_one P l x a.1 p)

module _ (s₀ : Segments) (g : List ℕ) where
  -- Fewer pairs are asked for.
  pub weaken-Under :
      (Seen Fewer : Pairs) (ix : Index) (roots : List RootOp) (d k : ℕ)
      → ((q : ℕ) (j : String) → Fewer q j → Seen q j)
      → Under s₀ g Seen ix roots d k
      → Under s₀ g Fewer ix roots d k
  weaken-Under Seen Fewer ix roots d k sub u = record {
    news = u.news;
    tidy = u.tidy;
    lists = u.lists;
    stored = u.stored;
    next = u.next;
    gen_same = u.gen_same;
    old_ids = u.old_ids;
    old_gen = u.old_gen;
    old_pinned = u.old_pinned;
    old_live = u.old_live;
    within = u.within;
    news_new = u.news_new;
    news_full = u.news_full;
    moved = u.moved;
    count = u.count;
    few_small = u.few_small;
    moves = u.moves;
    seen = λ r id b h. u.seen r id b (sub r id h);
  }

  -- A document that its run no longer holds is passed over.
  pub pass-Under :
      (Seen : Pairs) (ix : Index) (roots : List RootOp) (d : ℕ) (r : ℕ) (id : String)
      → ¬ (lookup id ix.segments.run_of ≡ some r)
      → Under s₀ g Seen ix roots d 0
      → Under s₀ g (Also Seen r id) ix roots (suc d) 0
  pass-Under Seen ix roots d r id gone u = record {
    news = u.news;
    tidy = u.tidy;
    lists = u.lists;
    stored = u.stored;
    next = u.next;
    gen_same = u.gen_same;
    old_ids = u.old_ids;
    old_gen = u.old_gen;
    old_pinned = u.old_pinned;
    old_live = u.old_live;
    within = u.within;
    news_new = u.news_new;
    news_full = u.news_full;
    moved = u.moved;
    count = omega (arith, u.count);
    few_small = elim u.few_small [ inl less ↦ inl (omega (arith, less)) | inr few ↦ inr few ];
    moves = u.moves;
    seen = seen;
  }
    where
      seen :
          (q : ℕ) (j : String)
          → q < s₀.next_run
          → Also Seen r id q j
          → (¬ (lookup j ix.segments.run_of ≡ some q)) ⊎ (names_root j roots ≡ true)
      seen q j b (inl h) = u.seen q j b h
      seen q j b (inr (e, f)) =
          inl (λ held. gone (ap (λ x. lookup x ix.segments.run_of) (sym f) ∙ held ∙ ap some e))

  -- A document of the group is queued; the stored documents and the children may be written.
  pub queue-Under :
      (Seen : Pairs) (ix : Index) (docs : Dict String Doc) (children : Dict String (List String))
      (roots : List RootOp) (d : ℕ) (r : ℕ) (id : String)
      → lookup id ix.segments.run_of ≡ some r
      → member r g ≡ true
      → IsStored (record ix { docs = docs; children = children })
      → Under s₀ g Seen ix roots d 0
      → Under s₀ g
          (Also Seen r id)
          (record ix { docs = docs; children = children })
          (roots ++ (record { id = id; deleted = false } ∷ []))
          (suc d)
          0
  queue-Under Seen ix docs children roots d r id held m stored u = record {
    news = u.news;
    tidy = u.tidy;
    lists = u.lists;
    stored = stored;
    next = u.next;
    gen_same = u.gen_same;
    old_ids = u.old_ids;
    old_gen = u.old_gen;
    old_pinned = u.old_pinned;
    old_live = u.old_live;
    within = u.within;
    news_new = u.news_new;
    news_full = u.news_full;
    moved = u.moved;
    count = omega (arith, u.count, longer);
    few_small = elim u.few_small [
      | inl less ↦ inl (omega (arith, less, longer))
      | inr few ↦ inr few
    ];
    moves = All-append_one (Moves ix.segments g) roots op u.moves (refl, (r, held, m));
    seen = seen;
  }
    where
      op : RootOp
      op = record { id = id; deleted = false }

      longer : length (roots ++ (op ∷ [])) ≡ suc (length roots)
      longer = omega (arith, length-append roots (op ∷ []))

      seen :
          (q : ℕ) (j : String)
          → q < s₀.next_run
          → Also Seen r id q j
          → (¬ (lookup j ix.segments.run_of ≡ some q)) ⊎ (names_root j (roots ++ (op ∷ [])) ≡ true)
      seen q j b (inl h) = elim (u.seen q j b h) [
        | inl gone ↦ inl gone
        | inr named ↦ inr (ground (arith, names_root-append j roots op, named))
      ]
      seen q j b (inr (e, f)) = inr (ground (arith, names_root-append j roots op, eq_iff id j, f))

  -- Pinning a run.
  pub pin-Under :
      (Seen : Pairs) (ix : Index) (roots : List RootOp) (d k : ℕ) (r : ℕ)
      → Under s₀ g Seen ix roots d k
      → Under s₀ g Seen (pin ix r) roots d k
  unfolding pin update
  pin-Under Seen ix roots d k r u = record {
    news = u.news;
    tidy = (pin-Keeps ix r).tidy u.tidy;
    lists = λ id q e. ground (arith, u.lists id q e, eqb_iff r q);
    stored = u.stored;
    next = u.next;
    gen_same = u.gen_same;
    old_ids = λ q b. same_ids q ∙ u.old_ids q b;
    old_gen = λ q b. ground (arith, u.old_gen q b, eqb_iff r q);
    old_pinned = λ q b. ground (arith, u.old_pinned q b, eqb_iff r q);
    old_live = λ q b out. same_live q ∙ u.old_live q b out;
    within = u.within;
    news_new = u.news_new;
    news_full = λ q m. ap length (same_ids q) ∙ u.news_full q m ∙ sym (same_live q);
    moved = omega (
      arith,
      u.moved,
      total_mono (live_of (pin ix r).segments) (live_of ix.segments) g
          (λ q m. omega (arith, same_live q)),
      less_ids,
    );
    count = omega (arith, u.count, less_ids);
    few_small = elim u.few_small [
      | inl less ↦ inl (omega (arith, less, less_ids))
      | inr few ↦ inr (
          omega (
            arith,
            few,
            total_mono (small (pin ix r).segments) (small ix.segments) u.news
                (λ q m. omega (arith, ap one_if_small (same_live q))),
          ))
    ];
    moves = u.moves;
    seen = u.seen;
  }
    where
      same_ids : (q : ℕ) → ((pin ix r).segments.run_at q).ids ≡ (ix.segments.run_at q).ids
      same_ids q = ground (arith, eqb_iff r q)

      same_live : (q : ℕ) → live_of (pin ix r).segments q ≡ live_of ix.segments q
      same_live q = ground (arith, eqb_iff r q)

      less_ids : total (ids_of (pin ix r).segments) u.news ≤ total (ids_of ix.segments) u.news
      less_ids =
          total_mono (ids_of (pin ix r).segments) (ids_of ix.segments) u.news
            (λ q m. omega (arith, ap length (same_ids q)))

not_empty : (ops : List BatchOp) (op : BatchOp) → is_empty (ops ++ (op ∷ [])) ≡ false
not_empty [] op = refl
not_empty (o ∷ ops) op = refl

-- What queueing leaves of a batch.
abbrev pub AfterQueue : DocBatch → DocBatch × Option Error → Type 0
AfterQueue b (next, some x) = Unit
AfterQueue b (next, none) = (next.roots ≡ b.roots) × (is_empty next.ops ≡ false)

after_step :
    (b : DocBatch) (x : Option Error) (rest : DocBatch × Option Error)
    → AfterQueue b rest
    → AfterQueue b (elim x [ some y ↦ (b, some y) | none ↦ rest ])
after_step b none rest h = h
after_step b (some y) rest h = tt

queue_more :
    (e : Engine) (ids : List String) (b : DocBatch)
    → is_empty b.ops ≡ false
    → AfterQueue b (queue_documents e ids b)
unfolding queue_documents
queue_more e [] b some_ops = (refl, some_ops)
queue_more e (id ∷ ids) b some_ops =
    after_step b (e.index_advanced id)
      (queue_documents e ids (record b { ops = b.ops ++ (puts id ∷ []) }))
      (queue_more e ids (record b { ops = b.ops ++ (puts id ∷ []) }) (not_empty b.ops (puts id)))

pub queue_documents-AfterQueue :
    (e : Engine) (id : String) (ids : List String) (b : DocBatch)
    → AfterQueue b (queue_documents e (id ∷ ids) b)
unfolding queue_documents
queue_documents-AfterQueue e id ids b =
    after_step b (e.index_advanced id)
      (queue_documents e ids (record b { ops = b.ops ++ (puts id ∷ []) }))
      (queue_more e ids (record b { ops = b.ops ++ (puts id ∷ []) }) (not_empty b.ops (puts id)))
