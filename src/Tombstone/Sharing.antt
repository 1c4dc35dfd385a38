-- ===== src/Tombstone/Sharing.antt =====
-- Maps of tombstones are shared between the histories of an index and its copies (tombstones.go).
-- A map that only one history reaches is the only kind that is written in place.
use osmem.Prelude.{
  ℕ, zero, suc, ◌<◌, true, false, some, List, [], ◌∷◌, ◌≡◌, ◌≢◌, refl, sym, ◌∙◌, ap, eqb_iff, arith,
  ◌⊎◌, inl, inr, Bool-cases, take,
}
use osmem.Prelude.Int.{ℤ, leb_ℤ}
use osmem.Prelude.Dict.{nat_keys, member}
use osmem.Tombstone.{Snapshot, Registry, snapshots, mutable, mark_shared}

abbrev pub Has : Snapshot → List Snapshot → Type 0
Has s [] = ⊥
Has s (t ∷ l) = (t ≡ s) ⊎ Has s l

abbrev pub history_of : Registry → ℕ → List Snapshot
history_of reg h = snapshots (reg.history h)

abbrev pub addresses : List Snapshot → List ℕ
addresses [] = []
addresses (s ∷ l) = s.items ∷ addresses l

abbrev pub AllNew : List ℕ → Type 0
AllNew [] = Unit
AllNew (a ∷ l) = (member a l ≡ false) × AllNew l

-- A map that two histories reach is marked as shared in both; no history reaches a map twice.
pub record IsSeparated (reg : Registry) : Type 0 where
  pub marked :
      (i j : ℕ) (s t : Snapshot)
      → Has s (history_of reg i)
      → Has t (history_of reg j)
      → i ≢ j
      → s.items ≡ t.items
      → s.shared ≡ true
  pub below : (i : ℕ) (s : Snapshot) → Has s (history_of reg i) → s.items < reg.next_items
  pub once : (i : ℕ) → AllNew (addresses (history_of reg i))

-- A snapshot that an old one stands for: the same map, at least as marked.
pub record Comes (l : List Snapshot) (s : Snapshot) : Type 0 where
  pub from : Snapshot
  pub has : Has from l
  pub same : from.items ≡ s.items
  pub mark : from.shared ≡ true → s.shared ≡ true

pub Comes-self : (l : List Snapshot) (s : Snapshot) → Has s l → Comes l s
Comes-self l s h = record { from = s; has = h; same = refl; mark = λ e. e }

Comes-older : (l : List Snapshot) (t s : Snapshot) → Comes l s → Comes (t ∷ l) s
Comes-older l t s c = record { from = c.from; has = inr c.has; same = c.same; mark = c.mark }

marked-Comes :
    (t : Snapshot) (l : List Snapshot) (s : Snapshot)
    → Has s (record t { shared = true } ∷ l)
    → Comes (t ∷ l) s
marked-Comes t l s (inl e) = record {
  from = t;
  has = inl refl;
  same = ap (λ (x : Snapshot). x.items) e;
  mark = λ m. sym (ap (λ (x : Snapshot). x.shared) e);
}
marked-Comes t l s (inr h) = Comes-self (t ∷ l) s (inr h)

unmarked-Comes :
    (t : Snapshot) (l m : List Snapshot) (s : Snapshot)
    → (Has s m → Comes l s)
    → Has s (t ∷ m)
    → Comes (t ∷ l) s
unmarked-Comes t l m s ih (inl e) = Comes-self (t ∷ l) s (inl e)
unmarked-Comes t l m s ih (inr h) = Comes-older l t s (ih h)

pub mark_shared-Comes :
    (l : List Snapshot) (n : ℤ) (s : Snapshot) → Has s (mark_shared l n) → Comes l s
unfolding mark_shared
mark_shared-Comes [] n s h = absurd h
mark_shared-Comes (t ∷ l) n s h = elim (Bool-cases (leb_ℤ t.seq_no n)) [
  | inl b ↦ marked-Comes t l s (rw b at h)
  | inr b ↦ unmarked-Comes t l (mark_shared l n) s (mark_shared-Comes l n s) (rw b at h)
]

pub mark_shared-addresses : (l : List Snapshot) (n : ℤ) → addresses (mark_shared l n) ≡ addresses l
unfolding mark_shared
mark_shared-addresses [] n = refl
mark_shared-addresses (t ∷ l) n = ground (arith, mark_shared-addresses l n)

pub Has-take : (n : ℕ) (l : List Snapshot) (s : Snapshot) → Has s (take n l) → Has s l
Has-take zero l s h = absurd h
Has-take (suc n) [] s h = h
Has-take (suc n) (t ∷ l) s (inl e) = inl e
Has-take (suc n) (t ∷ l) s (inr h) = inr (Has-take n l s h)

member-take :
    (n a : ℕ) (l : List Snapshot)
    → member a (addresses l) ≡ false
    → member a (addresses (take n l)) ≡ false
unfolding member
member-take zero a l h = refl
member-take (suc n) a [] h = refl
member-take (suc n) a (t ∷ l) h = ground (arith, member-take n a l)

pub AllNew-take : (n : ℕ) (l : List Snapshot) → AllNew (addresses l) → AllNew (addresses (take n l))
AllNew-take zero l d = tt
AllNew-take (suc n) [] d = tt
AllNew-take (suc n) (t ∷ l) d = (member-take n t.items l d.0, AllNew-take n l d.1)

pub not_member-below :
    (n : ℕ) (l : List Snapshot)
    → ((s : Snapshot) → Has s l → s.items < n)
    → member n (addresses l) ≡ false
unfolding member
not_member-below n [] h = refl
not_member-below n (t ∷ l) h =
    ground (arith, not_member-below n l (λ s m. h s (inr m)), h t (inl refl), eqb_iff t.items n)

pub mutable-cases :
    (l : List Snapshot) (copies : ℕ) (snap : Snapshot)
    → mutable l copies ≡ some snap
    → (snap.shared ≡ false) × (older : List Snapshot) × (l ≡ snap ∷ older)
unfolding mutable
mutable-cases [] copies snap e = cc
mutable-cases (s ∷ older) copies snap e = (ground arith, older, ground arith)

-- Whatever the histories of a new registry hold stands for an old snapshot, on the old heap's maps.
module _ (reg new : Registry) (next_items : reg.next_items ≡ new.next_items) where
  pub IsSeparated-by :
      ((i : ℕ) (s : Snapshot) → Has s (history_of new i) → Comes (history_of reg i) s)
      → ((i : ℕ) → AllNew (addresses (history_of new i)))
      → IsSeparated reg
      → IsSeparated new
  IsSeparated-by comes once sep = record {
    marked = λ i j s t hs ht ne e.
        let cs = comes i s hs in
        let ct = comes j t ht in
        cs.mark (sep.marked i j cs.from ct.from cs.has ct.has ne (cs.same ∙ e ∙ sym ct.same));
    below =
        λ i s h. let c = comes i s h in omega (arith, sep.below i c.from c.has, c.same, next_items);
    once = once;
  }
