-- ===== src/Prelude/Dict.antt =====
-- Go's `map` with comparable keys. Go gives no iteration order and no program part here depends on
-- one; the order of the entries is the order of insertion.
use osmem.Prelude.Tests.{if◌then◌else◌, eqb, eqb_iff}
use Prim.Native.Nat.{ℕ}
use Prim.Native.String.{String}
use mathlib.Core.Path.{◌≡◌, refl}
use mathlib.Core.Logic.{◌↔◌}
use mathlib.Core.Bool.{Bool, true, false}
use mathlib.Core.Option.{Option, none, some}
use mathlib.Core.List.{List, [], ◌∷◌}
use native.Mathlib.Omega.{arith}
use text.Mathlib.Text.{◌==◌ as str_eq}
use text.Mathlib.TextEquality.{eq_iff}

-- A type whose values Go compares with `==`, as it does the keys of a map.
pub record Comparable {ℓ} (K : Type ℓ) : Type ℓ where
  pub is_same : K → K → Bool
  pub is_same_iff : (j k : K) → (is_same j k ≡ true) ↔ (j ≡ k)

instance abbrev pub string_keys : Comparable String
string_keys = record { is_same = str_eq; is_same_iff = eq_iff }

instance abbrev pub nat_keys : Comparable ℕ
nat_keys = record { is_same = eqb; is_same_iff = eqb_iff }

infix 50 ◌==◌
abbrev pub ◌==◌ {ℓ} : {K : Type ℓ} ⦃c : Comparable K⦄ → K → K → Bool
◌==◌ ⦃c⦄ j k = c.is_same j k

abbrev pub Dict {ℓ κ} : Type ℓ → Type κ → Type (ℓ ⊔ κ)
Dict K V = List (K × V)

-- An entry that passes a test, or nothing.
abbrev pub keep {ℓ} : {V : Type ℓ} → (V → Bool) → Option V → Option V
keep p none = none
keep p (some v) = if p v then some v else none

module _ {ℓ κ} {K : Type ℓ} {V : Type κ} ⦃e : Comparable K⦄ where
  -- m[key] = new: the entry keeps its place
  unfoldable pub insert : K → V → Dict K V → Dict K V
  insert key new (entry ∷ m) =
      let later = insert key new m in if entry.0 == key then (key, new) ∷ m else entry ∷ later
  insert key new [] = (key, new) ∷ []

  -- delete(m, key)
  unfoldable pub remove : K → Dict K V → Dict K V
  remove key (entry ∷ m) =
      let later = remove key m in if entry.0 == key then later else entry ∷ later
  remove key [] = []

  -- for k, v := range m { if !p(v) { delete(m, k) } }
  unfoldable pub retain : (V → Bool) → Dict K V → Dict K V
  unfolding remove
  retain p [] = []
  retain p ((j, w) ∷ m) = if p w then (j, w) ∷ retain p m else remove j (retain p m)

  -- for k := range ks { delete(m, k) }
  unfoldable pub remove_all : List K → Dict K V → Dict K V
  unfolding remove
  remove_all [] m = m
  remove_all (k ∷ ks) m = remove_all ks (remove k m)

  -- for k, v := range n { m[k] = v }
  unfoldable pub insert_all : Dict K V → Dict K V → Dict K V
  unfolding insert
  insert_all [] m = m
  insert_all ((k, v) ∷ n) m = insert k v (insert_all n m)

  -- v, ok := m[k]
  unfoldable pub lookup : K → Dict K V → Option V
  lookup k (entry ∷ m) = let later = lookup k m in if entry.0 == k then some entry.1 else later
  lookup k [] = none

  pub lookup-insert :
      (key k : K) (new : V) (m : Dict K V)
      → lookup k (insert key new m) ≡ (if key == k then some new else lookup k m)
  unfolding lookup insert
  lookup-insert k j v [] = refl
  lookup-insert k j v ((i, w) ∷ m) =
      ground (arith, e.is_same_iff k j, e.is_same_iff i k, e.is_same_iff i j, lookup-insert k j v m)

  pub lookup-remove :
      (k j : K) (m : Dict K V) → lookup j (remove k m) ≡ (if k == j then none else lookup j m)
  unfolding lookup remove
  lookup-remove k j [] = ground arith
  lookup-remove k j ((i, w) ∷ m) =
      ground (arith, e.is_same_iff k j, e.is_same_iff i k, e.is_same_iff i j, lookup-remove k j m)

  pub lookup-retain :
      (p : V → Bool) (j : K) (m : Dict K V) → lookup j (retain p m) ≡ keep p (lookup j m)
  unfolding lookup retain
  lookup-retain p j [] = refl
  lookup-retain p j ((i, w) ∷ m) =
      ground (arith, e.is_same_iff i j, lookup-retain p j m, lookup-remove i j (retain p m))

module _ {ℓ} {K : Type ℓ} ⦃e : Comparable K⦄ where
  unfoldable pub member : K → List K → Bool
  member k [] = false
  member k (j ∷ ks) = if j == k then true else member k ks

  -- A set without one of its members.
  unfoldable pub without : K → List K → List K
  without k [] = []
  without k (j ∷ ks) = if j == k then without k ks else j ∷ without k ks

  pub member-without :
      (k j : K) (ks : List K) → member j (without k ks) ≡ (if k == j then false else member j ks)
  unfolding member without
  member-without k j [] = ground arith
  member-without k j (i ∷ ks) =
      ground (arith, e.is_same_iff k j, e.is_same_iff i k, e.is_same_iff i j, member-without k j ks)

module _ {ℓ κ} {K : Type ℓ} {V : Type κ} ⦃e : Comparable K⦄ where
  pub lookup-remove_all :
      (ks : List K) (j : K) (m : Dict K V)
      → lookup j (remove_all ks m) ≡ (if member j ks then none else lookup j m)
  unfolding remove_all member
  lookup-remove_all [] j m = refl
  lookup-remove_all (k ∷ ks) j m =
      ground (arith, lookup-remove_all ks j (remove k m), lookup-remove k j m)

  pub lookup-insert_all :
      (n : Dict K V) (j : K) (m : Dict K V)
      → lookup j (insert_all n m) ≡ elim (lookup j n) [ some v ↦ some v | none ↦ lookup j m ]
  unfolding insert_all lookup
  lookup-insert_all [] j m = refl
  lookup-insert_all ((k, v) ∷ n) j m =
      ground (arith, lookup-insert_all n j m, lookup-insert k j v (insert_all n m))

pub ruleset dict_laws =
    (lookup-insert, lookup-remove, lookup-retain, lookup-remove_all, lookup-insert_all)
