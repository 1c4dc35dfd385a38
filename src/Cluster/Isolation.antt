-- ===== src/Cluster/Isolation.antt =====
-- Copy on write: a write to the index that `writable` gives is seen by nobody else (cluster.go).
use osmem.Prelude.{
  ℕ, zero, suc, ◌+◌, ◌≤◌, ◌<◌, String, false, Option, none, some, [], ◌∷◌, ◌≡◌, ◌≢◌, refl, sym,
  subst, ap, ◌⊎◌, inl, inr, Bool-cases, arith, eqb, eqb_iff,
}
use osmem.Prelude.Dict.{◌==◌, Dict, string_keys, lookup, lookup-insert}
use osmem.Prelude.Distinct.{holders}
use osmem.Version.{Doc}
use osmem.Index.{Index}
use osmem.Cluster.{Cluster, World, put_at}
use osmem.Cluster.Copy.{count_copy, allocate}
use osmem.Cluster.Sums.{held, total, held-le-total}
use osmem.Cluster.Counted.{IsCounted, held-le-refs}
use osmem.Cluster.Safety.{replaced}
use text.Mathlib.TextEquality.{eq_iff}

pub holders-lookup :
    (r : ℕ) (name : String) (m : Dict String ℕ) → lookup name m ≡ some r → 1 ≤ holders r m
unfolding holders lookup
holders-lookup r name [] h = cc
holders-lookup r name ((j, w) ∷ m) h = ground (arith, holders-lookup r name m, eqb_iff w r)

holders-two :
    (r : ℕ) (a b : String) (m : Dict String ℕ)
    → lookup a m ≡ some r
    → lookup b m ≡ some r
    → a ≢ b
    → 2 ≤ holders r m
unfolding holders lookup
holders-two r a b [] h k ne = cc
holders-two r a b ((j, w) ∷ m) h k ne = ground (
  arith,
  holders-two r a b m,
  holders-lookup r a m,
  holders-lookup r b m,
  eqb_iff w r,
  eq_iff j a,
  eq_iff j b,
)

total-two :
    (h : ℕ) (cl : ℕ → Cluster) (c d n : ℕ)
    → c < n
    → d < n
    → c ≢ d
    → held h (cl c) + held h (cl d) ≤ total h cl n
unfolding total
total-two h cl c d zero lc ld ne = absurd (omega arith)
total-two h cl c d (suc n) lc ld ne = elim (Bool-cases (eqb c n)) [
  | inl b ↦ omega (
    arith,
    ap (λ i. held h (cl i)) ((eqb_iff c n).0 b),
    held-le-total h cl d n (below d n ld (ground (arith, eqb_iff c n))),
  )
  | inr b ↦ elim (Bool-cases (eqb d n)) [
    | inl q ↦ omega (
      arith,
      ap (λ i. held h (cl i)) ((eqb_iff d n).0 q),
      held-le-total h cl c n (below c n lc (ground (arith, eqb_iff c n))),
    )
    | inr q ↦ omega (
      arith,
      total-two h cl c d n (below c n lc (ground (arith, eqb_iff c n)))
          (below d n ld (ground (arith, eqb_iff d n))) ne,
    )
  ]
]
  where
    below : (i n : ℕ) → i < suc n → i ≢ n → i < n
    below i n lt ne = omega arith

-- The documents that a cluster has under a name.
unfoldable pub seen : World → ℕ → String → Option (Dict String Doc)
seen w c name = elim (lookup name (w.cluster_at c).indices) [
  | none ↦ none
  | some h ↦ some (w.index_at h).docs
]

-- A write to the index with handle `n`, of whatever kind.
unfoldable pub write_to : World → ℕ → Index → World
unfolding put_at
write_to w n ix = record w { index_at = put_at w.index_at n ix }

-- The index has one reference: the name of one cluster.
pub record IsPrivate (w : World) (c : ℕ) (name : String) (n : ℕ) : Type 0 where
  pub is_counted : IsCounted w
  pub exists : c < w.next_cluster
  pub stored : lookup name (w.cluster_at c).indices ≡ some n
  pub single : w.counts.refs n ≡ 1

differ : (c d : ℕ) → eqb c d ≡ false → c ≢ d
differ c d b e = ground (arith, eqb_iff c d)

differ_names : (a b : String) → (a == b) ≡ false → a ≢ b
differ_names a b h e = ground (arith, eq_iff a b)

same_cluster :
    (w : World) (c : ℕ) (name : String) (n d : ℕ)
    → IsPrivate w c name n
    → d < w.next_cluster
    → 0 < held n (w.cluster_at d)
    → c ≡ d
same_cluster w c name n d p lt e = elim (Bool-cases (eqb c d)) [
  | inl b ↦ (eqb_iff c d).0 b
  | inr b ↦ absurd (
      omega (
        arith,
        total-two n w.cluster_at c d w.next_cluster p.exists lt (differ c d b),
        holders-lookup n name (w.cluster_at c).indices p.stored,
        e,
        p.is_counted.counted n,
        p.single,
      ))
]

same_name :
    (w : World) (c : ℕ) (name : String) (n : ℕ) (m : String)
    → IsPrivate w c name n
    → lookup m (w.cluster_at c).indices ≡ some n
    → name ≡ m
same_name w c name n m p e = elim (Bool-cases (name == m)) [
  | inl b ↦ (eq_iff name m).0 b
  | inr b ↦ absurd (
      omega (
        arith,
        holders-two n name m (w.cluster_at c).indices p.stored e (differ_names name m b),
        held-le-refs w c n p.is_counted p.exists,
        p.single,
      ))
]

-- No other cluster, no other name and no point in time has a private index.
pub IsPrivate-alone :
    (w : World) (c : ℕ) (name : String) (n d : ℕ) (m : String)
    → IsPrivate w c name n
    → d < w.next_cluster
    → lookup m (w.cluster_at d).indices ≡ some n
    → (c ≡ d) × (name ≡ m)
IsPrivate-alone w c name n d m p lt e =
    let q =
      same_cluster w c name n d p lt
        (omega (arith, holders-lookup n m (w.cluster_at d).indices e)) in
    (
      q,
      same_name w c name n m p (subst (λ x. lookup m (w.cluster_at x).indices ≡ some n) (sym q) e),
    )

-- The contents that everyone else refers to stay: the index's own copy counter is no content.
pub record Unchanged (w v : World) (c : ℕ) (name : String) (n : ℕ) : Type 0 where
  pub clusters : v.next_cluster ≡ w.next_cluster
  pub names :
      (d : ℕ) (m : String)
      → ((c ≢ d) ⊎ (name ≢ m))
      → lookup m (v.cluster_at d).indices ≡ lookup m (w.cluster_at d).indices
  pub pits : (d : ℕ) → (v.cluster_at d).pits ≡ (w.cluster_at d).pits
  pub docs : (h : ℕ) → h ≢ n → (v.index_at h).docs ≡ (w.index_at h).docs

pub replaced-Unchanged :
    (w : World) (c : ℕ) (name : String) (h : ℕ) (ix : Index)
    → Unchanged w (replaced w c name h ix) c name w.next_index
unfolding allocate count_copy put_at
replaced-Unchanged w c name h ix = record {
  clusters = refl;
  names = λ d m other. ground (
    arith,
    eqb_iff c d,
    ap (λ i. lookup m (w.cluster_at i).indices),
    eq_iff name m,
    lookup-insert name m w.next_index (w.cluster_at c).indices,
  );
  pits = λ d. ground (arith, eqb_iff c d);
  docs = λ r ne. ground (arith, eqb_iff w.next_index r, eqb_iff h r);
}
