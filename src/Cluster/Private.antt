-- ===== src/Cluster/Private.antt =====
-- What `writable` gives is private to one name of one cluster, and writes to it are seen by nobody else
-- (cluster.go).
use osmem.Prelude.{
  ℕ, ◌≤◌, ◌<◌, String, none, some, ◌≡◌, ◌≢◌, refl, sym, subst, ap, ◌∙◌, ◌⊎◌, inl, inr, Option-cases,
  arith, eqb_iff,
}
use osmem.Prelude.Dict.{string_keys, lookup, lookup-insert}
use osmem.Error.{Result, ok, err}
use osmem.Index.{Index}
use osmem.Cluster.{World, put_at}
use osmem.Cluster.Copy.{Opener, count_copy, allocate, copy_index, replace_index, writable}
use osmem.Cluster.Counted.{IsCounted, held-le-refs, release-one}
use osmem.Cluster.CopyWay.{
  unopened, unbuilt, copied_to, copy_way, missing, own, shared, writable_way, allocate-refs, unused,
  count_copy-IsCounted,
}
use osmem.Cluster.Safety.{replaced, replace_index-found, replaced-IsCounted}
use osmem.Cluster.Isolation.{
  IsPrivate, Unchanged, replaced-Unchanged, IsPrivate-alone, holders-lookup, seen, write_to,
}
use text.Mathlib.TextEquality.{eq_iff}

Made : World → ℕ → String → World × Result ℕ → Type 0
Made w c name (v, ok n) = IsPrivate v c name n × Unchanged w v c name n
Made w c name (v, err x) = Unit

own-IsPrivate :
    (w : World) (c : ℕ) (name : String) (h : ℕ)
    → IsCounted w
    → c < w.next_cluster
    → lookup name (w.cluster_at c).indices ≡ some h
    → w.counts.refs h ≤ 1
    → IsPrivate w c name h
own-IsPrivate w c name h i lt e one = record {
  is_counted = i;
  exists = lt;
  stored = e;
  single =
      omega (arith, one, holders-lookup h name (w.cluster_at c).indices e, held-le-refs w c h i lt);
}

Unchanged-refl : (w : World) (c : ℕ) (name : String) (n : ℕ) → Unchanged w w c name n
Unchanged-refl w c name n = record {
  clusters = refl;
  names = λ d m o. refl;
  pits = λ d. refl;
  docs = λ h ne. refl;
}

replaced-stored :
    (w : World) (c : ℕ) (name : String) (h : ℕ) (ix : Index)
    → lookup name ((replaced w c name h ix).cluster_at c).indices ≡ some w.next_index
unfolding allocate count_copy put_at
replaced-stored w c name h ix = ground (
  arith,
  eqb_iff c c,
  eq_iff name name,
  lookup-insert name name w.next_index (w.cluster_at c).indices,
)

replaced-single :
    (w : World) (c : ℕ) (name : String) (h : ℕ) (ix : Index)
    → IsCounted w
    → c < w.next_cluster
    → lookup name (w.cluster_at c).indices ≡ some h
    → (replaced w c name h ix).counts.refs w.next_index ≡ 1
unfolding allocate count_copy
replaced-single w c name h ix i lt e =
    let v = count_copy w h in
    ground (
      arith,
      release-one (allocate v ix).counts h w.next_index,
      allocate-refs v ix w.next_index (count_copy-IsCounted w h i),
      unused w i,
      eqb_iff h w.next_index,
      eqb_iff w.next_index w.next_index,
      holders-lookup h name (w.cluster_at c).indices e,
      held-le-refs w c h i lt,
      ap w.counts.refs {x = h} {y = w.next_index},
    )

replaced-Made :
    (w : World) (c : ℕ) (name : String) (h : ℕ) (ix : Index)
    → IsCounted w
    → c < w.next_cluster
    → lookup name (w.cluster_at c).indices ≡ some h
    → Made w c name (replaced w c name h ix, ok w.next_index)
unfolding Made allocate count_copy
replaced-Made w c name h ix i lt e = (
  record {
    is_counted = replaced-IsCounted w c name h ix i lt e;
    exists = lt;
    stored = replaced-stored w c name h ix;
    single = replaced-single w c name h ix i lt e;
  },
  replaced-Unchanged w c name h ix,
)

copied-Made :
    (o : Opener) (w : World) (c : ℕ) (name : String) (h : ℕ)
    → IsCounted w
    → c < w.next_cluster
    → lookup name (w.cluster_at c).indices ≡ some h
    → Made w c name (replace_index c name h (copy_index o w h))
unfolding Made
copied-Made o w c name h i lt e = elim (copy_way o w h) [
  | unopened x q ↦ subst (λ r. Made w c name (replace_index c name h r)) (sym q) tt
  | unbuilt ix x q ↦ subst (λ r. Made w c name (replace_index c name h r)) (sym q) tt
  | copied_to ix same q ↦
      subst (Made w c name) (sym (replace_index-found o w c name h ix q))
        (replaced-Made w c name h ix i lt e)
]

writable-Made :
    (o : Opener) (w : World) (c : ℕ) (name : String)
    → IsCounted w
    → c < w.next_cluster
    → Made w c name (writable o w c name)
unfolding Made
writable-Made o w c name i lt = elim (writable_way o w c name) [
  | missing x q ↦ subst (Made w c name) (sym q) tt
  | own h e one q ↦
      subst (Made w c name) (sym q) (own-IsPrivate w c name h i lt e one, Unchanged-refl w c name h)
  | shared h e q ↦ subst (Made w c name) (sym q) (copied-Made o w c name h i lt e)
]

seen-none :
    (w : World) (d : ℕ) (m : String) → lookup m (w.cluster_at d).indices ≡ none → seen w d m ≡ none
unfolding seen
seen-none w d m e = rw (e, seen) refl

seen-some :
    (w : World) (d : ℕ) (m : String) (h : ℕ)
    → lookup m (w.cluster_at d).indices ≡ some h
    → seen w d m ≡ some (w.index_at h).docs
unfolding seen
seen-some w d m h e = rw (e, seen) refl

written-docs :
    (w v : World) (c : ℕ) (name : String) (n : ℕ) (ix : Index) (h : ℕ)
    → Unchanged w v c name n
    → h ≢ n
    → ((write_to v n ix).index_at h).docs ≡ (w.index_at h).docs
unfolding write_to put_at
written-docs w v c name n ix h u ne = ground (arith, u.docs h, eqb_iff n h)

-- A cluster whose index is made writable.
module _ (o : Opener) (w v : World) (c : ℕ) (name : String) (n : ℕ) (i : IsCounted w)
    (lt : c < w.next_cluster) (done : writable o w c name ≡ (v, ok n)) where
  made : IsPrivate v c name n × Unchanged w v c name n
  unfolding Made
  made = subst (Made w c name) done (writable-Made o w c name i lt)

  not_private :
      (d : ℕ) (m : String) (r : ℕ)
      → d < w.next_cluster
      → ((c ≢ d) ⊎ (name ≢ m))
      → lookup m (v.cluster_at d).indices ≡ some r
      → r ≢ n
  not_private d m r ld other e q =
      let both =
        IsPrivate-alone v c name n d m made.0 (omega (arith, made.1.clusters, ld))
          (e ∙ ap some q) in
      elim other [ inl ne ↦ ne both.0 | inr ne ↦ ne both.1 ]

  -- If the reference counts are right and `writable` returns an index for a name of a cluster, then
  -- whatever is written to that index, every other name of the cluster and every name of every other
  -- cluster has the documents that it had before.
  pub writable-seen :
      (ix : Index) (d : ℕ) (m : String)
      → d < w.next_cluster
      → ((c ≢ d) ⊎ (name ≢ m))
      → seen (write_to v n ix) d m ≡ seen w d m
  writable-seen ix d m ld other = elim (Option-cases (lookup m (v.cluster_at d).indices)) [
    | inl e ↦
        seen-none (write_to v n ix) d m (unfold write_to in e)
        ∙ sym (seen-none w d m (sym (made.1.names d m other) ∙ e))
    | inr (r, e) ↦
        seen-some (write_to v n ix) d m r (unfold write_to in e)
        ∙ ap some (written-docs w v c name n ix r made.1 (not_private d m r ld other e))
        ∙ sym (seen-some w d m r (sym (made.1.names d m other) ∙ e))
  ]
