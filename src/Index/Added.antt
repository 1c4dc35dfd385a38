-- ===== src/Index/Added.antt =====
-- What `addDocuments` does to the index and the batch that a commit reads (index.go).
use osmem.Prelude.{
  Bool, String, true, false, Option, none, some, List, [], ◌∷◌, ◌++◌, ◌≡◌, refl, map, Option-cases,
  inl, inr,
}
use osmem.Prelude.Dict.{string_keys, lookup}
use osmem.Error.{Error}
use osmem.Segment.{RootOp, BatchOp, DocBatch, puts, deletes, is_empty}
use osmem.Index.{
  Index, Engine, add_documents, remove_documents, set_children, queue_documents, delete_children,
  finish_add, no_children,
}

-- The root of a document is noted once all its parts are queued.
abbrev pub roots_after : List RootOp → String → Option Error → List RootOp
roots_after roots id none = roots ++ record { id = id; deleted = false } ∷ []
roots_after roots id (some x) = roots

pub record Added (ix : Index) (b : DocBatch) (id : String) (bds : List String)
    (r : Index × DocBatch × Option Error) : Type 0 where
  pub segments : r.0.segments ≡ ix.segments
  pub docs : r.0.docs ≡ ix.docs
  pub roots : r.1.roots ≡ roots_after b.roots id r.2
  pub ops : is_empty r.1.ops ≡ true → is_empty b.ops ≡ true
  pub some_ops : ¬ (bds ≡ []) → r.2 ≡ none → is_empty r.1.ops ≡ false

is_empty-append : (l k : List BatchOp) → is_empty (l ++ k) ≡ true → is_empty l ≡ true
is_empty-append [] k e = refl
is_empty-append (o ∷ l) k e = absurd (cc e)

delete_children-ops :
    (ix : Index) (id : String) (b : DocBatch)
    → is_empty (delete_children ix id b).ops ≡ true
    → is_empty b.ops ≡ true
unfolding delete_children
delete_children-ops ix id b =
    is_empty-append b.ops (map deletes (no_children (lookup id ix.children)))

queue_documents-ops :
    (e : Engine) (bds : List String) (b : DocBatch)
    → is_empty (queue_documents e bds b).0.ops ≡ true
    → is_empty b.ops ≡ true
unfolding queue_documents
queue_documents-ops e [] b h = h
queue_documents-ops e (bd ∷ bds) b h = elim (Option-cases (e.index_advanced bd)) [
  | inl f ↦ is_empty-append b.ops (puts bd ∷ []) (
      queue_documents-ops e bds (record b { ops = b.ops ++ puts bd ∷ [] })
        (rw (f, queue_documents) at h))
  | inr (x, f) ↦ rw (f, queue_documents) at h
]

is_empty-append_one : (l : List BatchOp) (o : BatchOp) → is_empty (l ++ o ∷ []) ≡ false
is_empty-append_one [] o = refl
is_empty-append_one (p ∷ l) o = refl

queue_documents-some_ops :
    (e : Engine) (bds : List String) (b : DocBatch)
    → ¬ (bds ≡ [])
    → (queue_documents e bds b).1 ≡ none
    → is_empty (queue_documents e bds b).0.ops ≡ false
unfolding queue_documents
queue_documents-some_ops e [] b some_bds done = absurd (some_bds refl)
queue_documents-some_ops e (bd ∷ bds) b some_bds done = elim (Option-cases (e.index_advanced bd)) [
  | inl f ↦
      let next : DocBatch = record b { ops = b.ops ++ puts bd ∷ [] } in
      rw (f, queue_documents)
        (not_empty (is_empty (queue_documents e bds next).0.ops)
          (λ h. cc (queue_documents-ops e bds next h, is_empty-append_one b.ops (puts bd))))
  | inr (x, f) ↦ absurd (cc (rw (f, queue_documents) at done))
]
  where
    not_empty : (b : Bool) → ¬ (b ≡ true) → b ≡ false
    not_empty true n = absurd (n refl)
    not_empty false n = refl

queue_documents-roots :
    (e : Engine) (bds : List String) (b : DocBatch) → (queue_documents e bds b).0.roots ≡ b.roots
unfolding queue_documents
queue_documents-roots e [] b = refl
queue_documents-roots e (bd ∷ bds) b = elim (Option-cases (e.index_advanced bd)) [
  | inl f ↦
      rw (f, queue_documents)
        (queue_documents-roots e bds (record b { ops = b.ops ++ puts bd ∷ [] }))
  | inr (x, f) ↦ rw (f, queue_documents)
]

set_children-segments :
    (ix : Index) (id : String) (bds : List String)
    → ((set_children ix id bds).segments ≡ ix.segments) × ((set_children ix id bds).docs ≡ ix.docs)
unfolding set_children
set_children-segments ix id [] = (refl, refl)
set_children-segments ix id (root ∷ []) = (refl, refl)
set_children-segments ix id (root ∷ child ∷ more) = (refl, refl)

finish_add-Added :
    (ix : Index) (b : DocBatch) (id : String) (bds : List String) (r : DocBatch × Option Error)
    → r.0.roots ≡ b.roots
    → (is_empty r.0.ops ≡ true → is_empty b.ops ≡ true)
    → (¬ (bds ≡ []) → r.1 ≡ none → is_empty r.0.ops ≡ false)
    → Added ix b id bds (finish_add ix id bds r)
finish_add-Added ix b id bds (c, some x) same ops more = record {
  segments = refl;
  docs = refl;
  roots = same;
  ops = ops;
  some_ops = more;
}
finish_add-Added ix b id bds (c, none) same ops more = record {
  segments = (set_children-segments ix id bds).0;
  docs = (set_children-segments ix id bds).1;
  roots = rw same refl;
  ops = ops;
  some_ops = more;
}

pub add_documents-Added :
    (e : Engine) (ix : Index) (b : DocBatch) (id : String) (bds : List String)
    → Added ix b id bds (add_documents e ix b id bds)
unfolding add_documents delete_children
add_documents-Added e ix b id bds =
    let queued = delete_children ix id b in
    finish_add-Added ix b id bds (queue_documents e bds queued) (queue_documents-roots e bds queued)
      (λ h. delete_children-ops ix id b (queue_documents-ops e bds queued h))
      (queue_documents-some_ops e bds queued)

-- A deletion is noted, and queued.
pub remove_documents-Removed :
    (ix : Index) (b : DocBatch) (id : String)
    → ((remove_documents ix b id).roots ≡ b.roots ++ record { id = id; deleted = true } ∷ [])
      × (is_empty (remove_documents ix b id).ops ≡ false)
unfolding remove_documents
remove_documents-Removed ix b id =
    (refl, some_ops b.ops (map deletes (no_children (lookup id ix.children))))
  where
    some_ops : (l k : List BatchOp) → is_empty ((l ++ deletes id ∷ []) ++ k) ≡ false
    some_ops [] k = refl
    some_ops (o ∷ l) k = refl
