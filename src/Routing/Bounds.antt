-- ===== src/Routing/Bounds.antt =====
-- Shard numbers are in range (searchids.go, `shardOf`).
use osmem.Prelude.{
  ℕ, zero, suc, ◌*◌, ◌/◌, ◌^◌, ◌≤◌, ◌<◌, String, ◌≡◌, arith, eqb, ltb, code_points, none, some,
  Option-cases, ◌∙◌, Bool-cases, inl, inr,
}
use osmem.Prelude.Int.{ℤ, pos, negsuc}
use osmem.Routing.{
  ShardSettings, floor_mod, routing_shards_of, routing_factor, shard_of, murmur3x86_32, utf16_bytes,
  splits, check_multiple, check_routing_shards,
}
use native.Mathlib.Nat.{pow-suc, mul_comm}

floor_mod-lt : (a : ℤ) (n : ℕ) → 0 < n → floor_mod a n < n
unfolding floor_mod
floor_mod-lt (pos a) n h = grind arith
floor_mod-lt (negsuc a) n h = ground arith

div-lt_of_lt_mul : (h f s : ℕ) → 0 < f → h < f * s → h / f < s
div-lt_of_lt_mul h f s p q = grind arith

mul-div_self : (f s : ℕ) → 0 < s → (s * f) / s ≡ f
mul-div_self f s p = grind arith

mul_pos : {a b : ℕ} → 0 < a → 0 < b → 0 < a * b
mul_pos p q = grind arith

two_pow_pos : (k : ℕ) → 0 < 2 ^ k
two_pow_pos zero = omega arith
two_pow_pos (suc k) = omega (arith, pow-suc 2 k, two_pow_pos k)

-- The hash is taken modulo a positive multiple of the number of shards.
abbrev IsSplit : ShardSettings → Type 0
IsSplit st = (0 < routing_factor st) × (routing_shards_of st ≡ routing_factor st * st.shards)

factor_eq :
    (st : ShardSettings) (f : ℕ)
    → 0 < st.shards
    → 0 < f
    → routing_shards_of st ≡ st.shards * f
    → routing_factor st ≡ f
unfolding routing_factor
factor_eq st f some_shards pos_f e = rw (e, mul-div_self f st.shards some_shards) (ground arith)

IsSplit-multiple :
    (st : ShardSettings) (f : ℕ)
    → 0 < st.shards
    → 0 < f
    → routing_shards_of st ≡ st.shards * f
    → IsSplit st
IsSplit-multiple st f some_shards pos_f e =
    rw (factor_eq st f some_shards pos_f e) (pos_f, e ∙ mul_comm st.shards f)

default-IsSplit :
    (st : ShardSettings)
    → 0 < st.shards
    → routing_shards_of st ≡ st.shards * 2 ^ splits st.shards
    → IsSplit st
default-IsSplit st h e =
    IsSplit-multiple st (2 ^ splits st.shards) h (two_pow_pos (splits st.shards)) e

div-pos : (n d : ℕ) → 0 < d → d ≤ n → 0 < n / d
div-pos n d p h = grind arith

check_multiple-multiple :
    (shards n : ℕ)
    → 0 < shards
    → shards ≤ n
    → check_multiple shards n ≡ none
    → n ≡ shards * (n / shards)
unfolding check_multiple
check_multiple-multiple shards n p h ok = elim (Bool-cases (ltb shards n)) [
  | inl b ↦ ground (arith, mul_comm (n / shards) shards)
  | inr b ↦
      let e : n ≡ shards = ground arith in
      rw e (let d : shards / shards ≡ 1 = grind arith in rw d (omega arith))
]

checked_parts :
    (st : ShardSettings) (n : ℕ)
    → st.routing_shards ≡ some (pos n)
    → check_routing_shards st ≡ none
    → (st.shards ≤ n) × (check_multiple st.shards n ≡ none)
unfolding check_routing_shards
checked_parts st n e ok = (ground arith, ground arith)

given-routing_shards_of :
    (st : ShardSettings) (n : ℕ)
    → st.routing_shards ≡ some (pos n)
    → 0 < n
    → routing_shards_of st ≡ n
unfolding routing_shards_of
given-routing_shards_of st n e h = ground arith

-- A number of routing shards that passed the check is a multiple of the number of shards.
checked-IsSplit :
    (st : ShardSettings) (n : ℕ)
    → 0 < st.shards
    → st.routing_shards ≡ some (pos n)
    → check_routing_shards st ≡ none
    → IsSplit st
checked-IsSplit st n h e ok =
    let (enough, multiple) = checked_parts st n e ok in
    IsSplit-multiple st (n / st.shards) h (div-pos n st.shards h enough) (
      given-routing_shards_of st n e (omega arith)
      ∙ check_multiple-multiple st.shards n h enough multiple)

settings-IsSplit :
    (st : ShardSettings) → 0 < st.shards → check_routing_shards st ≡ none → IsSplit st
settings-IsSplit st h ok = elim (Option-cases st.routing_shards) [
  | inl e ↦ default-IsSplit st h (unfold routing_shards_of in rw e)
  | inr (pos n, e) ↦ checked-IsSplit st n h e ok
  | inr (negsuc n, e) ↦ absurd (unfold check_routing_shards in ground arith)
]

-- Of settings that the validation accepts, with at least one shard, the shard of every document and
-- routing is one of the index's shards.
pub shard_of-lt :
    (st : ShardSettings) (id : String)
    → 0 < st.shards
    → check_routing_shards st ≡ none
    → shard_of st id < st.shards
unfolding shard_of
shard_of-lt st id h ok =
    let hash = murmur3x86_32 (utf16_bytes (code_points id)) 0 in
    let (pos_factor, e) = settings-IsSplit st h ok in
    let below = floor_mod-lt hash (routing_shards_of st) (rw e (mul_pos pos_factor h)) in
    elim (Bool-cases (eqb st.shards 1)) [
      | inl b ↦ rw b h
      | inr b ↦ rw b (
          div-lt_of_lt_mul (floor_mod hash (routing_shards_of st)) (routing_factor st) st.shards
            pos_factor (omega (arith, below, e)))
    ]
