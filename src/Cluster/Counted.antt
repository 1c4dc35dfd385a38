-- ===== src/Cluster/Counted.antt =====
-- The reference counts of the indices, and that each operation of a cluster keeps them right
-- (cluster.go, index.go).
use osmem.Prelude.{
  ℕ, ◌+◌, ◌-◌, ◌≤◌, ◌<◌, String, true, none, List, [], ◌≡◌, refl, ap, inl, inr, Bool-cases,
  Option-cases, arith, if◌then◌else◌, eqb, eqb_iff,
}
use osmem.Prelude.Dict.{string_keys, lookup, insert, remove}
use osmem.Prelude.Distinct.{
  Distinct, Distinct-insert, Distinct-remove, holders, holders-remove, is_at,
}
use osmem.Cluster.{
  Pit, drop_pit_contexts, Counts, Cluster, World, put_at, release, retain_all, release_all,
  release_pits, handles, set_cluster, empty_cluster, clone, close, create_pit, delete_pit,
  delete_index,
}
use osmem.Cluster.Sums.{
  pit_holds-drop, Distinct-drop, occurrences, pit_holds, held, total, retain_all-refs,
  release_all-refs, release_pits-refs, occurrences-handles, total-put, total-beyond, held-put,
  held-le-total, pit_holds-insert, pit_holds-remove, pinned,
}
use osmem.Cluster.Opened.{
  IsOpen, release-IsOpen, release_all-IsOpen, release_pits-IsOpen, retain_all-IsOpen,
}

-- Each count is the number of references that the clusters and their points in time hold.
pub record IsCounted (w : World) : Type 0 where
  pub counted : (h : ℕ) → w.counts.refs h ≡ total h w.cluster_at w.next_cluster
  pub fresh : (h c : ℕ) → w.next_index ≤ h → held h (w.cluster_at c) ≡ 0
  pub is_open : IsOpen w.counts
  pub names : (c : ℕ) → Distinct (w.cluster_at c).indices
  pub pit_ids : (c : ℕ) → Distinct (w.cluster_at c).pits

-- A predicate of all places after a write to one.
pub put_at-all {ℓ} :
    {A : Type 0} (P : A → Type ℓ) (f : ℕ → A) (i : ℕ) (a : A)
    → P a
    → ((j : ℕ) → P (f j))
    → (j : ℕ) → P (put_at f i a j)
unfolding put_at
put_at-all P f i a p q j = elim (Bool-cases (eqb i j)) [ inl b ↦ rw b p | inr b ↦ rw b (q j) ]

-- One cluster changes, and with it the counts by as much.
pub set_cluster-IsCounted :
    (w : World) (c : ℕ) (k : Cluster) (s : Counts)
    → IsCounted w
    → c < w.next_cluster
    → ((h : ℕ) → s.refs h + held h (w.cluster_at c) ≡ w.counts.refs h + held h k)
    → ((h : ℕ) → w.next_index ≤ h → held h k ≡ 0)
    → IsOpen s
    → Distinct k.indices
    → Distinct k.pits
    → IsCounted (set_cluster w c k s)
set_cluster-IsCounted w c k s i lt change new o d p = record {
  counted =
      λ h. omega (arith, i.counted h, change h, total-put h w.cluster_at c k w.next_cluster lt);
  fresh = λ h.
      λ j le. put_at-all (λ x. held h x ≡ 0) w.cluster_at c k (new h le) (λ x. i.fresh h x le) j;
  is_open = o;
  names = put_at-all (λ x. Distinct x.indices) w.cluster_at c k d i.names;
  pit_ids = put_at-all (λ x. Distinct x.pits) w.cluster_at c k p i.pit_ids;
}

pub held-le-refs :
    (w : World) (c h : ℕ)
    → IsCounted w
    → c < w.next_cluster
    → held h (w.cluster_at c) ≤ w.counts.refs h
held-le-refs w c h i lt =
    omega (arith, i.counted h, held-le-total h w.cluster_at c w.next_cluster lt)

pub clone-IsCounted : (w : World) (c : ℕ) → IsCounted w → c < w.next_cluster → IsCounted (clone w c)
unfolding clone total pit_holds
clone-IsCounted w c i lt =
    let k = w.cluster_at c in
    let n = record empty_cluster { indices = k.indices } in
    record {
      counted = λ h. omega (
        arith,
        i.counted h,
        retain_all-refs w.counts (handles k.indices) h,
        occurrences-handles h k.indices,
        held-put h w.cluster_at w.next_cluster n,
        total-beyond h w.cluster_at w.next_cluster n w.next_cluster (omega arith),
      );
      fresh = λ h j le.
          put_at-all (λ x. held h x ≡ 0) w.cluster_at w.next_cluster n
            (omega (arith, i.fresh h c le)) (λ x. i.fresh h x le) j;
      is_open =
          retain_all-IsOpen w.counts (handles k.indices)
            (λ h p. omega (arith, p, occurrences-handles h k.indices, held-le-refs w c h i lt))
            i.is_open;
      names =
          put_at-all (λ x. Distinct x.indices) w.cluster_at w.next_cluster n (i.names c) i.names;
      pit_ids = put_at-all (λ x. Distinct x.pits) w.cluster_at w.next_cluster n tt i.pit_ids;
    }

pub close-IsCounted : (w : World) (c : ℕ) → IsCounted w → c < w.next_cluster → IsCounted (close w c)
unfolding close pit_holds
close-IsCounted w c i lt =
    let k = w.cluster_at c in
    let released = release_pits (release_all w.counts (handles k.indices)) k.pits in
    elim (Bool-cases k.closed) [
      | inl b ↦ rw b i
      | inr b ↦ rw b (
          set_cluster-IsCounted w c (record { indices = []; pits = []; closed = true }) released i
            lt
            (λ h.
              unfold holders in
              omega (
                arith,
                release_pits-refs (release_all w.counts (handles k.indices)) k.pits h,
                release_all-refs w.counts (handles k.indices) h,
                occurrences-handles h k.indices,
                held-le-refs w c h i lt,
              ))
            (λ h le. unfold holders in refl)
            (release_pits-IsOpen (release_all w.counts (handles k.indices)) k.pits
              (release_all-IsOpen w.counts (handles k.indices) i.is_open))
            tt tt)
    ]

-- The targets of a point in time are indices of its cluster.
abbrev pub AllHeld : Cluster → List ℕ → Type 0
AllHeld k hs = (h : ℕ) → 0 < occurrences h hs → 0 < holders h k.indices

pub create_pit-IsCounted :
    (w : World) (c : ℕ) (id : String) (targets : List ℕ)
    → IsCounted w
    → c < w.next_cluster
    → lookup id (w.cluster_at c).pits ≡ none
    → AllHeld (w.cluster_at c) targets
    → IsCounted (create_pit w c id targets)
unfolding create_pit
create_pit-IsCounted w c id targets i lt unused all =
    let k = w.cluster_at c in
    let pit : Pit = record { targets = targets; lost = [] } in
    set_cluster-IsCounted w c (record k { pits = insert id pit k.pits })
      (retain_all w.counts targets) i lt
      (λ h.
        omega (arith, retain_all-refs w.counts targets h, pit_holds-insert h id pit k.pits unused))
      (λ h le. ground (arith, i.fresh h c le, all h, pit_holds-insert h id pit k.pits unused))
      (retain_all-IsOpen w.counts targets (λ h p. omega (arith, all h p, held-le-refs w c h i lt))
        i.is_open)
      (i.names c) (Distinct-insert id pit k.pits (i.pit_ids c))

pub delete_pit-IsCounted :
    (w : World) (c : ℕ) (id : String)
    → IsCounted w
    → c < w.next_cluster
    → IsCounted (delete_pit w c id)
unfolding delete_pit
delete_pit-IsCounted w c id i lt =
    let k = w.cluster_at c in
    elim (Option-cases (lookup id k.pits)) [
      | inl e ↦ rw (e, delete_pit) i
      | inr (pit, e) ↦
          rw (e, delete_pit)
            (set_cluster-IsCounted w c (record k { pits = remove id k.pits })
              (release_all w.counts pit.targets) i lt
              (λ h. omega (
                arith,
                release_all-refs w.counts pit.targets h,
                pit_holds-remove h id k.pits (i.pit_ids c),
                ap (pinned h) e,
                held-le-refs w c h i lt,
              ))
              (λ h le. omega (arith, i.fresh h c le, pit_holds-remove h id k.pits (i.pit_ids c)))
              (release_all-IsOpen w.counts pit.targets i.is_open) (i.names c)
              (Distinct-remove id k.pits (i.pit_ids c)))
    ]

pub release-one :
    (s : Counts) (r h : ℕ) → (release s r).refs h ≡ s.refs h - (if eqb r h then 1 else 0)
unfolding release put_at
release-one s r h = ground (arith, eqb_iff r h)

pub delete_index-IsCounted :
    (w : World) (c : ℕ) (name : String)
    → IsCounted w
    → c < w.next_cluster
    → IsCounted (delete_index w c name)
unfolding delete_index
delete_index-IsCounted w c name i lt =
    let k = w.cluster_at c in
    elim (Option-cases (lookup name k.indices)) [
      | inl e ↦ rw (e, delete_index) i
      | inr (r, e) ↦
          rw (e, delete_index)
            (set_cluster-IsCounted w c
              (record k {
                indices = remove name k.indices;
                pits = drop_pit_contexts w.index_at name k.pits;
              })
              (release w.counts r) i lt
              (λ h. ground (
                arith,
                release-one w.counts r h,
                holders-remove h name k.indices (i.names c),
                pit_holds-drop h w.index_at name k.pits,
                ap (λ o. is_at o h) e,
                held-le-refs w c h i lt,
              ))
              (λ h le. omega (
                arith,
                i.fresh h c le,
                holders-remove h name k.indices (i.names c),
                pit_holds-drop h w.index_at name k.pits,
              ))
              (release-IsOpen w.counts r i.is_open) (Distinct-remove name k.indices (i.names c))
              (Distinct-drop w.index_at name k.pits (i.pit_ids c)))
    ]
