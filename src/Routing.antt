-- ===== src/Routing.antt =====
-- internal/engine/searchids.go and docresolve.go: which shard a document is placed on. Bytes and the
-- uint32 words of the hash are numbers, with the wrap-around of each operation written out.
pub mod Bounds
pub mod DocId
use Prim.Native.Nat.{bit_xor, bit_or}
use osmem.Prelude.{
  ◌&&◌, ◌||◌, ℕ, zero, suc, ◌+◌, ◌-◌, ◌*◌, ◌/◌, ◌%◌, ◌^◌, String, Bool, true, false, not, Option,
  none, some, List, [], ◌∷◌, ◌++◌, if◌then◌else◌, eqb, ltb, leb, code_points, length,
}
use osmem.Prelude.Int.{ℤ, pos, negsuc, leb_ℤ, ltb_ℤ, pos_part}
use osmem.Prelude.Dict.{◌==◌, string_keys}

abbrev word : ℕ
word = 0x1_0000_0000

mul32 : ℕ → ℕ → ℕ
mul32 a b = (a * b) % word

-- bits.RotateLeft32
rotate_left32 : ℕ → ℕ → ℕ
rotate_left32 x k = bit_or ((x * 2 ^ k) % word) (x / 2 ^ (32 - k))

scramble : ℕ → ℕ
unfolding mul32 rotate_left32
scramble k = mul32 (rotate_left32 (mul32 k 0xcc9e2d51) 15) 0x1b873593

mix_block : ℕ → ℕ → ℕ
unfolding scramble
mix_block h k = (rotate_left32 (bit_xor h (scramble k)) 13 * 5 + 0xe6546b64) % word

-- The loop over blocks of four bytes, then the `switch` on the bytes that are left.
mix_bytes : ℕ → List ℕ → ℕ
unfolding mix_block
mix_bytes h (a ∷ b ∷ c ∷ d ∷ rest) =
    mix_bytes (mix_block h (a + b * 2 ^ 8 + c * 2 ^ 16 + d * 2 ^ 24)) rest
mix_bytes h (a ∷ b ∷ c ∷ []) = bit_xor h (scramble (bit_xor (bit_xor (c * 2 ^ 16) (b * 2 ^ 8)) a))
mix_bytes h (a ∷ b ∷ []) = bit_xor h (scramble (bit_xor (b * 2 ^ 8) a))
mix_bytes h (a ∷ []) = bit_xor h (scramble a)
mix_bytes h [] = h

shift_xor : ℕ → ℕ → ℕ
shift_xor h k = bit_xor h (h / 2 ^ k)

finalize : ℕ → ℕ
unfolding shift_xor mul32
finalize h = shift_xor (mul32 (shift_xor (mul32 (shift_xor h 16) 0x85ebca6b) 13) 0xc2b2ae35) 16

-- int32(h)
to_int32 : ℕ → ℤ
to_int32 h = if ltb h 0x8000_0000 then pos h else negsuc (word - h - 1)

unfoldable pub murmur3x86_32 : List ℕ → ℕ → ℤ
unfolding mix_bytes finalize to_int32
murmur3x86_32 bytes seed =
    to_int32 (finalize (bit_xor (mix_bytes seed bytes) (length bytes % word)))

-- Go's `%` truncates towards zero; the modulus is positive at every call.
unfoldable pub floor_mod : ℤ → ℕ → ℕ
floor_mod (pos a) n = a % n
floor_mod (negsuc a) n = if eqb (suc a % n) 0 then 0 else n - suc a % n

-- bits.Len
bit_len : ℕ → ℕ → ℕ
bit_len zero n = 0
bit_len (suc f) n = let more = suc (bit_len f (n / 2)) in if eqb n 0 then 0 else more

log2_shards : ℕ → ℕ
unfolding bit_len
log2_shards shards = if ltb 1 shards then bit_len (shards - 1) (shards - 1) else 0

splits : ℕ → ℕ
unfolding log2_shards
splits shards = if ltb (10 - log2_shards shards) 1 then 1 else (10 - log2_shards shards)

-- The settings of an index that routing reads: index.number_of_shards, as `indexShardCount` gives
-- it, and index.number_of_routing_shards.
pub record ShardSettings : Type 0 where
  pub shards : ℕ
  pub routing_shards : Option ℤ

pub data RoutingError : Type 0 where
  too_few : ℤ → ℕ → RoutingError
  not_a_factor : ℕ → ℕ → RoutingError

-- The part of `validateIndexSettingRelations` (settings.go) on a number of routing shards.
unfoldable pub check_multiple : ℕ → ℕ → Option RoutingError
check_multiple shards routing =
    if ltb shards routing
      && (not (eqb (routing / shards * shards) routing) || leb (routing / shards) 1)
    then some (not_a_factor shards routing)
    else none

unfoldable pub check_routing_shards : ShardSettings → Option RoutingError
check_routing_shards st = elim st.routing_shards [
  | none ↦ none
  | some routing ↦
      if ltb_ℤ routing (pos st.shards)
      then some (too_few routing st.shards)
      else check_multiple st.shards (pos_part routing)
]

abbrev pub setting_or_zero : Option ℤ → ℤ
setting_or_zero none = pos 0
setting_or_zero (some n) = n

unfoldable pub routing_shards_of : ShardSettings → ℕ
unfolding splits
routing_shards_of st =
    if leb_ℤ (setting_or_zero st.routing_shards) (pos 0)
    then st.shards * 2 ^ splits st.shards
    else pos_part (setting_or_zero st.routing_shards)

unfoldable pub routing_factor : ShardSettings → ℕ
unfolding routing_shards_of
routing_factor st =
    if ltb (routing_shards_of st / st.shards) 1 then 1 else (routing_shards_of st / st.shards)

-- One code point as UTF-16 code units.
utf16_unit : ℕ → List ℕ
utf16_unit r =
    if leb 0x1_0000 r
    then (0xd800 + (r - 0x1_0000) / 2 ^ 10) ∷ (0xdc00 + (r - 0x1_0000) % 2 ^ 10) ∷ []
    else r ∷ []

-- byte(u), byte(u>>8)
unit_bytes : List ℕ → List ℕ
unit_bytes [] = []
unit_bytes (u ∷ us) = (u % 2 ^ 8) ∷ ((u / 2 ^ 8) % 2 ^ 8) ∷ unit_bytes us

-- The bytes that are hashed, from the code points of a text.
unfoldable pub utf16_bytes : List ℕ → List ℕ
unfolding utf16_unit unit_bytes
utf16_bytes [] = []
utf16_bytes (r ∷ rs) = unit_bytes (utf16_unit r) ++ utf16_bytes rs

unfoldable pub shard_of : ShardSettings → String → ℕ
shard_of st id =
    if eqb st.shards 1
    then 0
    else floor_mod (murmur3x86_32 (utf16_bytes (code_points id)) 0) (routing_shards_of st)
      / routing_factor st

unfoldable pub effective_routing : String → String → String
effective_routing routing id = if not (routing == "") then routing else id

-- `docShardMismatch`, for a document stored with `doc_routing`.
unfoldable pub doc_shard_mismatch : ShardSettings → String → String → String → Bool
doc_shard_mismatch st id req_routing doc_routing =
    if eqb st.shards 1
    then false
    else not (
        eqb (shard_of st (effective_routing req_routing id))
          (shard_of st (effective_routing doc_routing id)))
