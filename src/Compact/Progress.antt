-- ===== src/Compact/Progress.antt =====
-- The loops of `mergeRuns` over the documents of one run (segments.go).
use osmem.Prelude.{
  ℕ, suc, ◌+◌, ◌≤◌, ◌<◌, String, Bool, true, false, not, Option, none, some, List, [], ◌∷◌, ◌++◌,
  ◌≡◌, refl, sym, ap, subst, ◌∙◌, arith, eqb, eqb_iff, All, if◌then◌else◌, length, length-append,
  inl, inr, Bool-cases,
}
use osmem.Prelude.Dict.{Dict, string_keys, nat_keys, lookup, insert, remove, member, lookup-insert}
use osmem.Error.{Error, Result, ok, err}
use osmem.Version.{Doc}
use osmem.Segment.{Segments, RootOp, DocBatch, is_empty, size_class, update}
use osmem.Index.{
  Index, Engine, add_root, queue_documents, add_documents, set_children, finish_add,
  delete_children, commit_index,
}
use osmem.Compact.{
  Merging, MergeStep, more, stop, pin, return_commit, count_queued, after_commit, after_add,
  reindex, merge_doc, holds,
}
use osmem.Compact.Under.{Under, Pairs, IsStored, one_if_small, is_nil, Grown}
use osmem.Compact.Committed.{AfterCommit, commit_index-Under}
use osmem.Compact.Queued.{
  Also, AfterQueue, pass-Under, queue-Under, pin-Under, queue_documents-AfterQueue,
}

-- Every document is built into at least one bleve document.
abbrev pub BuildsSome : Engine → Type 0
BuildsSome e = (infer : Bool) (ix : Index) (d : Doc) → ¬ (e.build_document infer ix d ≡ ok [])

IsStored-insert :
    (ix : Index) (children : Dict String (List String)) (id : String) (d : Doc)
    → IsStored ix
    → IsStored (record ix { docs = insert id d ix.docs; children = children })
IsStored-insert ix children id d stored j r e =
    λ absent. stored j r e (ground (arith, lookup-insert id j d ix.docs, absent))

-- A thousand documents make a run of the large class, unless some are there twice.
thousand-Grown : (m : ℕ) → m ≡ 1000 → Grown m 0
thousand-Grown m e n le = elim (Bool-cases (eqb n m)) [
  | inr b ↦ inl (ground (arith, b, le, eqb_iff n m))
  | inl b ↦ inr (
      subst (λ x. one_if_small x ≤ 0) (sym ((eqb_iff n m).0 b ∙ e))
        (unfold size_class in omega arith))
]

pub one-Grown : (m : ℕ) → Grown m 1
one-Grown m n le = inr (ground arith)

module _ (e : Engine) (s₀ : Segments) (g : List ℕ) (below : All (λ q. q < s₀.next_run) g)
    (builds : BuildsSome e) where
  -- The variables of the loops after `d` documents.
  pub record InMerge (Seen : Pairs) (m : Merging) (d : ℕ) : Type 0 where
    pub under : Under s₀ g Seen m.index m.batch.roots d 0
    pub paired : is_empty m.batch.ops ≡ is_nil m.batch.roots
    pub counted : m.queued ≡ length m.batch.roots

  -- A run was pinned after `d` documents.
  pub record PinnedAt (Seen : Pairs) (r : ℕ) (ix : Index) (d : ℕ) : Type 0 where
    pub under : Under s₀ g Seen ix [] d 1
    pub pinned : (ix.segments.run_at r).pinned ≡ true

  abbrev pub OnDoc : Pairs → ℕ → String → ℕ → MergeStep → Type 0
  OnDoc Seen r id d (more m) = InMerge (Also Seen r id) m (suc d)
  OnDoc Seen r id d (stop ix (some x)) = Unit
  OnDoc Seen r id d (stop ix none) = PinnedAt Seen r ix d

  after_commit-InMerge :
      (Seen : Pairs) (r : ℕ) (id : String) (d : ℕ) (ix : Index) (x : Index × Option Error)
      → AfterCommit s₀ g (Also Seen r id) below ix (suc d) 0 x
      → OnDoc Seen r id d (after_commit x)
  after_commit-InMerge Seen r id d ix (jx, some x) h = tt
  after_commit-InMerge Seen r id d ix (jx, none) h = record {
    under = h.0;
    paired = refl;
    counted = refl;
  }

  count_queued-InMerge :
      (Seen : Pairs) (r : ℕ) (id : String) (d : ℕ) (m : Merging)
      → m.queued + 1 ≡ length m.batch.roots
      → is_empty m.batch.ops ≡ is_nil m.batch.roots
      → Under s₀ g (Also Seen r id) m.index m.batch.roots (suc d) 0
      → OnDoc Seen r id d (count_queued e m.index m.batch m.queued)
  unfolding count_queued
  count_queued-InMerge Seen r id d m counted paired u = at_limit (eqb (suc m.queued) 1000) refl
    where
      at_limit :
          (b : Bool)
          → eqb (suc m.queued) 1000 ≡ b
          → OnDoc Seen r id d (
              if b
              then after_commit (commit_index e m.index m.batch)
              else more (record { index = m.index; batch = m.batch; queued = suc m.queued }))
      at_limit true b = after_commit-InMerge Seen r id d m.index (commit_index e m.index m.batch) (
          commit_index-Under s₀ g (Also Seen r id) below e m.index m.batch.ops m.batch.roots (suc d)
            0 paired u
            (thousand-Grown (length m.batch.roots)
              (ground (arith, b, counted, eqb_iff (suc m.queued) 1000))))
      at_limit false b = record { under = u; paired = paired; counted = omega (arith, counted) }

  queued-OnDoc :
      (Seen : Pairs) (r : ℕ) (id : String) (d : ℕ) (m : Merging) (doc : Doc)
      (children : Dict String (List String)) (b : DocBatch)
      → InMerge Seen m d
      → lookup id m.index.segments.run_of ≡ some r
      → member r g ≡ true
      → b.roots ≡ m.batch.roots
      → is_empty b.ops ≡ false
      → OnDoc Seen r id d (
          count_queued e
            (record m.index { docs = insert id doc m.index.docs; children = children })
            (add_root b id false)
            m.queued)
  queued-OnDoc Seen r id d m doc children b h held in_group same some_ops =
      count_queued-InMerge Seen r id d
        (record { index = jx; batch = add_root b id false; queued = m.queued })
        (omega (arith, h.counted, ap length same, length-append b.roots (op ∷ [])))
        (some_ops ∙ sym (not_nil b.roots))
        (subst (λ l. Under s₀ g (Also Seen r id) jx (l ++ (op ∷ [])) (suc d) 0) (sym same)
          (queue-Under s₀ g Seen m.index (insert id doc m.index.docs) children m.batch.roots d r id
            held in_group (IsStored-insert m.index children id doc h.under.stored) h.under))
    where
      op : RootOp
      op = record { id = id; deleted = false }

      jx : Index
      jx = record m.index { docs = insert id doc m.index.docs; children = children }

      not_nil : (l : List RootOp) → is_nil (l ++ (op ∷ [])) ≡ false
      not_nil [] = refl
      not_nil (x ∷ l) = refl

  -- The document was queued or the loops end.
  after_add-OnDoc :
      (Seen : Pairs) (r : ℕ) (id : String) (d : ℕ) (m : Merging) (doc : Doc) (bd : String)
      (bds : List String) (x : DocBatch × Option Error)
      → InMerge Seen m d
      → lookup id m.index.segments.run_of ≡ some r
      → member r g ≡ true
      → AfterQueue m.batch x
      → OnDoc Seen r id d (
          after_add e m.queued
            (finish_add (record m.index { docs = insert id doc m.index.docs }) id (bd ∷ bds) x))
  unfolding set_children
  after_add-OnDoc Seen r id d m doc bd bds (b, some x) h held in_group q = tt
  after_add-OnDoc Seen r id d m doc bd [] (b, none) h held in_group q =
      queued-OnDoc Seen r id d m doc (remove id m.index.children) b h held in_group q.0 q.1
  after_add-OnDoc Seen r id d m doc bd (child ∷ bds) (b, none) h held in_group q =
      queued-OnDoc Seen r id d m doc (insert id (child ∷ bds) m.index.children) b h held in_group
        q.0 q.1

  -- The run is pinned and what is queued committed.
  return_commit-OnDoc :
      (Seen : Pairs) (r : ℕ) (id : String) (d : ℕ) (m : Merging)
      → InMerge Seen m d
      → r < s₀.next_run
      → OnDoc Seen r id d (return_commit e (pin m.index r) m.batch)
  unfolding return_commit
  return_commit-OnDoc Seen r id d m h old = ended (commit_index e (pin m.index r) m.batch) (
      commit_index-Under s₀ g Seen below e (pin m.index r) m.batch.ops m.batch.roots d 1 h.paired
        (pin-Under s₀ g Seen m.index m.batch.roots d 0 r h.under)
        (one-Grown (length m.batch.roots)))
    where
      ended :
          (x : Index × Option Error)
          → AfterCommit s₀ g Seen below (pin m.index r) d 1 x
          → OnDoc Seen r id d (stop x.0 x.1)
      ended (jx, some x) a = tt
      ended (jx, none) a = record {
        under = a.0;
        pinned = a.1 r (omega (arith, old, old_next)) ∙ now_pinned;
      }
        where
          now_pinned : ((pin m.index r).segments.run_at r).pinned ≡ true
          now_pinned = unfold pin update in ground (arith, eqb_iff r r)

          old_next : s₀.next_run ≤ (pin m.index r).segments.next_run
          old_next = unfold pin in h.under.next

  reindex-OnDoc :
      (Seen : Pairs) (r : ℕ) (id : String) (d : ℕ) (m : Merging) (doc : Doc)
      → InMerge Seen m d
      → r < s₀.next_run
      → lookup id m.index.segments.run_of ≡ some r
      → member r g ≡ true
      → OnDoc Seen r id d (reindex e m r id doc)
  unfolding reindex add_documents delete_children
  reindex-OnDoc Seen r id d m doc h old held in_group =
      built (e.build_document false m.index doc) refl
    where
      built :
          (x : Result (List String))
          → e.build_document false m.index doc ≡ x
          → OnDoc Seen r id d (elim x [
            | err y ↦ return_commit e (pin m.index r) m.batch
            | ok bds ↦ after_add e m.queued (
                finish_add
                  (record m.index { docs = insert id doc m.index.docs })
                  id
                  bds
                  (queue_documents e bds (
                    delete_children
                      (record m.index { docs = insert id doc m.index.docs })
                      id
                      m.batch)))
          ])
      built (err y) f = return_commit-OnDoc Seen r id d m h old
      built (ok []) f = absurd (builds false m.index doc f)
      built (ok (bd ∷ bds)) f = after_add-OnDoc Seen r id d m doc bd bds _ h held in_group (
          queue_documents-AfterQueue e bd bds
            (delete_children (record m.index { docs = insert id doc m.index.docs }) id m.batch))

  pub merge_doc-OnDoc :
      (Seen : Pairs) (r : ℕ) (id : String) (d : ℕ) (m : Merging)
      → InMerge Seen m d
      → r < s₀.next_run
      → member r g ≡ true
      → OnDoc Seen r id d (merge_doc e m r id)
  unfolding merge_doc
  merge_doc-OnDoc Seen r id d m h old in_group = found (lookup id m.index.docs) refl
    where
      passed : ¬ (lookup id m.index.segments.run_of ≡ some r) → InMerge (Also Seen r id) m (suc d)
      passed gone = record {
        under = pass-Under s₀ g Seen m.index m.batch.roots d r id gone h.under;
        paired = h.paired;
        counted = h.counted;
      }

      in_run :
          (doc : Doc) (x : Option ℕ) (b : Bool)
          → lookup id m.index.segments.run_of ≡ x
          → holds x r ≡ b
          → OnDoc Seen r id d (if not b then more m else reindex e m r id doc)
      in_run doc none true f c = absurd (cc)
      in_run doc none false f c = passed (λ held. cc)
      in_run doc (some p) true f c =
          reindex-OnDoc Seen r id d m doc h old (f ∙ ap some ((eqb_iff p r).0 c)) in_group
      in_run doc (some p) false f c = passed (λ held. ground (arith, held, f, c, eqb_iff p r))

      found :
          (x : Option Doc)
          → lookup id m.index.docs ≡ x
          → OnDoc Seen r id d (elim x [
            | none ↦ more m
            | some doc ↦
                if not (holds (lookup id m.index.segments.run_of) r)
                then more m
                else reindex e m r id doc
          ])
      found none f = passed (λ held. h.under.stored id r held f)
      found (some doc) f =
          in_run doc (lookup id m.index.segments.run_of)
            (holds (lookup id m.index.segments.run_of) r) refl refl
