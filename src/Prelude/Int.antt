-- ===== src/Prelude/Int.antt =====
-- Signed integers over the native numbers, and Go's `int64` read as the integer it stands for.
use osmem.Prelude.Tests.{ltb, leb, eqb, if◌then◌else◌}
use Prim.Native.Nat.{ℕ, zero, suc, ◌+◌, ◌-◌, ◌≤◌, ◌<◌}
use mathlib.Core.Path.{◌≡◌, refl}
use mathlib.Core.Logic.{◌↔◌}
use mathlib.Core.Bool.{Bool, true}
use native.Mathlib.Omega.{arith}

-- `negsuc n` is -(n + 1).
pub data ℤ : Type 0 where
  pos : ℕ → ℤ
  negsuc : ℕ → ℤ

abbrev pub pos_part : ℤ → ℕ
pos_part (pos n) = n
pos_part (negsuc n) = 0

abbrev pub neg_part : ℤ → ℕ
neg_part (pos n) = 0
neg_part (negsuc n) = suc n

abbrev pub sub_ℕ : ℕ → ℕ → ℤ
sub_ℕ a b = if leb b a then pos (a - b) else negsuc (b - a - 1)

infixl 65 ◌-ℤ◌
infix 50 ◌≤ℤ◌ ◌<ℤ◌
unfoldable pub ◌-ℤ◌ : ℤ → ℤ → ℤ
a -ℤ b = sub_ℕ (pos_part a + neg_part b) (neg_part a + pos_part b)

abbrev pub ◌≤ℤ◌ : ℤ → ℤ → Type 0
a ≤ℤ b = pos_part a + neg_part b ≤ pos_part b + neg_part a

abbrev pub ◌<ℤ◌ : ℤ → ℤ → Type 0
a <ℤ b = pos_part a + neg_part b < pos_part b + neg_part a

abbrev pub ltb_ℤ : ℤ → ℤ → Bool
ltb_ℤ a b = ltb (pos_part a + neg_part b) (pos_part b + neg_part a)

abbrev pub leb_ℤ : ℤ → ℤ → Bool
leb_ℤ a b = leb (pos_part a + neg_part b) (pos_part b + neg_part a)

abbrev pub eqb_ℤ : ℤ → ℤ → Bool
eqb_ℤ a b = eqb (pos_part a + neg_part b) (pos_part b + neg_part a)

pub eq_of_parts : (a b : ℤ) → pos_part a + neg_part b ≡ pos_part b + neg_part a → a ≡ b
eq_of_parts a b h = ground arith

pub eqb_ℤ_iff : (a b : ℤ) → (eqb_ℤ a b ≡ true) ↔ (a ≡ b)
eqb_ℤ_iff a b = ground arith

pub eqb_ℤ_refl : (a : ℤ) → eqb_ℤ a a ≡ true
eqb_ℤ_refl a = (eqb_ℤ_iff a a).1 refl

-- math.MaxInt64
abbrev pub max_int64 : ℕ
max_int64 = 9223372036854775807

-- `x + 1` on an int64: the largest value wraps to the smallest.
unfoldable pub inc64 : ℤ → ℤ
inc64 (pos n) = if eqb n max_int64 then negsuc max_int64 else pos (suc n)
inc64 (negsuc zero) = pos 0
inc64 (negsuc (suc n)) = negsuc n

-- Below the largest value the increment is strict.
pub inc64-lt : (a : ℤ) → pos_part a < max_int64 → a <ℤ inc64 a
unfolding inc64
inc64-lt (pos n) h = ground arith
inc64-lt (negsuc zero) h = omega arith
inc64-lt (negsuc (suc n)) h = omega arith

-- ... and by exactly one.
pub inc64_parts :
    (a : ℤ)
    → pos_part a < max_int64
    → pos_part (inc64 a) + neg_part a ≡ suc (pos_part a + neg_part (inc64 a))
unfolding inc64
inc64_parts (pos n) h = ground arith
inc64_parts (negsuc zero) h = omega arith
inc64_parts (negsuc (suc n)) h = omega arith

-- The nearest int64.
clamp : ℤ → ℤ
clamp d =
    if ltb_ℤ (pos max_int64) d
    then pos max_int64
    else if ltb_ℤ d (negsuc max_int64)
    then negsuc max_int64
    else d

-- A difference clamped to the range of int64, as time.Time.Sub clamps it.
unfoldable pub sub_clamped : ℤ → ℤ → ℤ
unfolding clamp
sub_clamped a b = clamp (a -ℤ b)

pub sub_clamped_self : (a : ℤ) → sub_clamped a a ≡ pos 0
unfolding sub_clamped ◌-ℤ◌
sub_clamped_self a = ground arith

sub-mono : (a b c : ℤ) → a ≤ℤ b → a -ℤ c ≤ℤ b -ℤ c
unfolding ◌-ℤ◌
sub-mono a b c h = ground arith

clamp-mono : (d e : ℤ) → d ≤ℤ e → clamp d ≤ℤ clamp e
unfolding clamp
clamp-mono d e h = ground arith

pub sub_clamped-mono : (a b c : ℤ) → a ≤ℤ b → sub_clamped a c ≤ℤ sub_clamped b c
unfolding sub_clamped
sub_clamped-mono a b c h = clamp-mono (a -ℤ c) (b -ℤ c) (sub-mono a b c h)
