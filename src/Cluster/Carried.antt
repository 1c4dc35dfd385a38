-- ===== src/Cluster/Carried.antt =====
-- A document write sees the documents and the tombstones of the index that it copies
-- (tombstones.go, `docWritable`; index.go, `copyIndex`).
use osmem.Prelude.{ℕ, String, true, some, ◌≡◌, ◌≢◌, refl, sym, subst, ap₂, ◌∙◌, arith, eqb, eqb_iff}
use osmem.Prelude.Dict.{string_keys, lookup}
use osmem.Prelude.Distinct.{Distinct}
use osmem.Error.{Result, ok, err}
use osmem.Index.{Index}
use osmem.Index.Keeps.{Keeps}
use osmem.Cluster.{World, put_at}
use osmem.Cluster.Copy.{
  Opener, count_copy, allocate, copied, rebuild, replace_index, copy_index, writable,
}
use osmem.Cluster.Documents.{rebuild-Keeps}
use osmem.Cluster.CopyWay.{
  unopened, unbuilt, copied_to, copy_way, missing, own, shared, writable_way,
}
use osmem.Cluster.Safety.{replaced, replace_index-found}

-- Where a writable index comes from: it is the index of the name itself, or a fresh copy of it.
pub data Origin (w v : World) (h n : ℕ) : Type 0 where
  itself : v ≡ w → n ≡ h → Origin w v h n
  copy :
      n ≡ w.next_index
      → Keeps (copied (w.index_at h) n) (v.index_at n)
      → (((r : ℕ)
          → r ≢ n
          → ((v.index_at r).uuid ≡ (w.index_at r).uuid)
            × ((v.index_at r).handle ≡ (w.index_at r).handle)))
      → Origin w v h n

abbrev pub FromIndex : World → ℕ → World × Result ℕ → Type 0
FromIndex w h (v, ok n) = Origin w v h n
FromIndex w h (v, err x) = Unit

placed : (f : ℕ → Index) (n : ℕ) (ix : Index) → put_at f n ix n ≡ ix
unfolding put_at
placed f n ix = rw (n_is_n n) refl
  where
    n_is_n : (n : ℕ) → eqb n n ≡ true
    n_is_n n = ground (arith, eqb_iff n n)

replaced-Origin :
    (o : Opener) (w : World) (c : ℕ) (name : String) (h : ℕ)
    → Distinct (w.index_at h).docs
    → Origin w
        (replaced w c name h (rebuild o.engine (copied (w.index_at h) w.next_index)).0)
        h
        w.next_index
unfolding allocate count_copy put_at
replaced-Origin o w c name h d =
    let ix = (rebuild o.engine (copied (w.index_at h) w.next_index)).0 in
    copy refl
      (subst (Keeps (copied (w.index_at h) w.next_index))
        (sym (placed (count_copy w h).index_at w.next_index ix))
        (rebuild-Keeps o.engine (copied (w.index_at h) w.next_index) d))
      (λ r ne. (
        ground (arith, eqb_iff w.next_index r, eqb_iff h r),
        ground (arith, eqb_iff w.next_index r, eqb_iff h r),
      ))

copied-FromIndex :
    (o : Opener) (w : World) (c : ℕ) (name : String) (h : ℕ)
    → Distinct (w.index_at h).docs
    → FromIndex w h (replace_index c name h (copy_index o w h))
copied-FromIndex o w c name h d = elim (copy_way o w h) [
  | unopened x q ↦ subst (λ r. FromIndex w h (replace_index c name h r)) (sym q) tt
  | unbuilt ix x q ↦ subst (λ r. FromIndex w h (replace_index c name h r)) (sym q) tt
  | copied_to ix same q ↦ subst (FromIndex w h) (sym (replace_index-found o w c name h ix q)) (
      subst (λ j. Origin w (replaced w c name h j) h w.next_index) (sym same)
        (replaced-Origin o w c name h d))
]

same_handle : {g h : ℕ} → some g ≡ some h → g ≡ h
same_handle e = cc

pub writable-FromIndex :
    (o : Opener) (w : World) (c : ℕ) (name : String) (h : ℕ)
    → lookup name (w.cluster_at c).indices ≡ some h
    → Distinct (w.index_at h).docs
    → FromIndex w h (writable o w c name)
writable-FromIndex o w c name h e d = elim (writable_way o w c name) [
  | missing x q ↦ subst (FromIndex w h) (sym q) tt
  | own g f one q ↦ subst (FromIndex w h) (sym q) (itself refl (same_handle (sym f ∙ e)))
  | shared g f q ↦ subst (FromIndex w h) (sym q) (
      subst (λ r. FromIndex w h (replace_index c name r (copy_index o w r)))
        (sym (same_handle (sym f ∙ e))) (copied-FromIndex o w c name h d))
]

-- A writable index has the documents and the sequence number of the index that the name had, copied
-- or not, if no id is stored twice.
pub writable-docs :
    (o : Opener) (w v : World) (c : ℕ) (name : String) (h n : ℕ)
    → lookup name (w.cluster_at c).indices ≡ some h
    → Distinct (w.index_at h).docs
    → writable o w c name ≡ (v, ok n)
    → ((id : String) → lookup id (v.index_at n).docs ≡ lookup id (w.index_at h).docs)
      × ((v.index_at n).seq_no ≡ (w.index_at h).seq_no)
writable-docs o w v c name h n e d done =
    elim (subst (FromIndex w h) done (writable-FromIndex o w c name h e d)) [
      | itself same at ↦ (
        λ id. ap₂ (λ (u : World) r. lookup id (u.index_at r).docs) same at,
        ap₂ (λ (u : World) r. (u.index_at r).seq_no) same at,
      )
      | copy at k others ↦ (k.docs, k.seq_no)
    ]
