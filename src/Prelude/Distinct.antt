-- ===== src/Prelude/Distinct.antt =====
-- Dictionaries without repeated keys, and how many of their entries hold a given number.
use osmem.Prelude.Tests.{eqb}
use osmem.Prelude.Dict.{Comparable, Dict, lookup, insert, remove, lookup-insert, lookup-remove}
use Prim.Native.Nat.{ℕ, ◌+◌}
use mathlib.Core.Path.{◌≡◌, refl}
use mathlib.Core.Bool.{Bool, true, false}
use mathlib.Core.Option.{Option, none, some}
use mathlib.Core.List.{[], ◌∷◌}
use native.Mathlib.Omega.{arith}

module _ {ℓ κ} {K : Type ℓ} {V : Type κ} ⦃e : Comparable K⦄ where
  abbrev pub Distinct : Dict K V → Type κ
  Distinct [] = Unit
  Distinct ((k, v) ∷ m) = (lookup k m ≡ none) × Distinct m

  pub remove-absent : (k : K) (m : Dict K V) → lookup k m ≡ none → remove k m ≡ m
  unfolding lookup remove
  remove-absent k [] h = refl
  remove-absent k ((j, w) ∷ m) h = ground (arith, remove-absent k m)

  pub Distinct-remove : (k : K) (m : Dict K V) → Distinct m → Distinct (remove k m)
  unfolding remove
  Distinct-remove k [] d = d
  Distinct-remove k ((j, w) ∷ m) d = ground (arith, Distinct-remove k m d.1, lookup-remove k j m)

  pub Distinct-insert : (k : K) (v : V) (m : Dict K V) → Distinct m → Distinct (insert k v m)
  unfolding insert lookup
  Distinct-insert k v [] d = (refl, d)
  Distinct-insert k v ((j, w) ∷ m) d = ground (
    arith,
    e.is_same_iff j k,
    e.is_same_iff k j,
    Distinct-insert k v m d.1,
    lookup-insert k j v m,
  )

abbrev one_if : Bool → ℕ
one_if true = 1
one_if false = 0

abbrev pub is_at : Option ℕ → ℕ → Bool
is_at none r = false
is_at (some p) r = eqb p r

module _ {ℓ} {K : Type ℓ} ⦃e : Comparable K⦄ where
  -- How many keys hold `r`.
  unfoldable pub holders : ℕ → Dict K ℕ → ℕ
  holders r [] = 0
  holders r ((j, w) ∷ m) = one_if (eqb w r) + holders r m

  pub holders-remove :
      (r : ℕ) (k : K) (m : Dict K ℕ)
      → Distinct m
      → holders r (remove k m) + one_if (is_at (lookup k m) r) ≡ holders r m
  unfolding holders remove lookup
  holders-remove r k [] d = refl
  holders-remove r k ((j, w) ∷ m) d =
      ground (arith, e.is_same_iff j k, holders-remove r k m d.1, remove-absent k m)

  pub holders-insert :
      (r : ℕ) (k : K) (v : ℕ) (m : Dict K ℕ)
      → lookup k m ≡ none
      → holders r (insert k v m) ≡ holders r m + one_if (eqb v r)
  unfolding holders insert lookup
  holders-insert r k v [] h = omega arith
  holders-insert r k v ((j, w) ∷ m) h = ground (arith, holders-insert r k v m)

  -- The entry of a key that is there is replaced.
  pub holders-replace :
      (r : ℕ) (k : K) (v p : ℕ) (m : Dict K ℕ)
      → lookup k m ≡ some p
      → holders r (insert k v m) + one_if (eqb p r) ≡ holders r m + one_if (eqb v r)
  unfolding holders insert lookup
  holders-replace r k v p [] h = cc
  holders-replace r k v p ((j, w) ∷ m) h =
      ground (arith, e.is_same_iff j k, holders-replace r k v p m)
