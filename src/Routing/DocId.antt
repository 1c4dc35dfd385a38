-- ===== src/Routing/DocId.antt =====
-- The indexed form of a document's id (internal/engine/searchids.go, `encodeDocID`). An id is the list
-- of its bytes. Go's unpadded URL base64 is a parameter.
pub mod Distinct
use osmem.Prelude.{
  ℕ, ◌+◌, ◌-◌, ◌*◌, ◌%◌, Bool, true, false, not, ◌&&◌, ◌||◌, Option, none, some, List, [], ◌∷◌,
  if◌then◌else◌, eqb, leb, length,
}
use osmem.Prelude.Int.{ℤ}
use osmem.Prelude.Dict.{nat_keys, member}
use osmem.Glob.{Bytes}
use osmem.Routing.{murmur3x86_32, floor_mod}

abbrev pub is_digit : ℕ → Bool
is_digit c = leb 48 c && leb c 57

abbrev pub all_digits : Bytes → Bool
all_digits [] = true
all_digits (c ∷ id) = is_digit c && all_digits id

abbrev pub is_numeric : Bytes → Bool
is_numeric [] = false
is_numeric (c ∷ id) = all_digits (c ∷ id)

-- b1<<4 | b2 of two digits, the second filled with 15 at the end; the sum, as the low four bits of b1<<4
-- are clear.
unfoldable pub pack_digits : Bytes → Bytes
pack_digits [] = []
pack_digits (c ∷ []) = (((c - 48) * 16) % 256 + 15) ∷ []
pack_digits (c ∷ d ∷ id) = (((c - 48) * 16) % 256 + (d - 48)) ∷ pack_digits id

last_byte : ℕ → Bytes → ℕ
last_byte c [] = c
last_byte c (d ∷ id) = last_byte d id

-- The `switch` on `len(id) & 3`, with the last byte: "AQgw" or "AEIMQUYcgkosw048" holds it.
abbrev ends_well : ℕ → ℕ → Bool
ends_well n c =
    if eqb n 1
    then false
    else if eqb n 2
    then member c (65 ∷ 81 ∷ 103 ∷ 119 ∷ [])
    else if eqb n 3
    then member c
        (65 ∷ 69 ∷ 73 ∷ 77 ∷ 81 ∷ 85 ∷ 89 ∷ 99 ∷ 103 ∷ 107 ∷ 111 ∷ 115 ∷ 119 ∷ 48 ∷ 52 ∷ 56 ∷ [])
    else true

abbrev is_url_byte : ℕ → Bool
is_url_byte c =
    (is_digit c || (leb 65 c && leb c 90)) || ((leb 97 c && leb c 122) || (eqb c 45 || eqb c 95))

abbrev all_url_bytes : Bytes → Bool
all_url_bytes [] = true
all_url_bytes (c ∷ id) = is_url_byte c && all_url_bytes id

unfoldable pub is_url_base64_without_padding : Bytes → Bool
unfolding last_byte member
is_url_base64_without_padding [] = false
is_url_base64_without_padding (c ∷ id) =
    ends_well (length (c ∷ id) % 4) (last_byte c id) && all_url_bytes (c ∷ id)

-- if b[0] >= 0xfd { b = append([]byte{0xfd}, b...) }
abbrev pub escape_first : Bytes → Bytes
escape_first [] = []
escape_first (c ∷ b) = if leb 0xfd c then 0xfd ∷ c ∷ b else c ∷ b

-- What was decoded, unless it is empty or an error.
abbrev pub decoded_or_text : Bytes → Option Bytes → Bytes
decoded_or_text id none = 0xff ∷ id
decoded_or_text id (some []) = 0xff ∷ id
decoded_or_text id (some (c ∷ b)) = escape_first (c ∷ b)

unfoldable pub encode_doc_id : (Bytes → Option Bytes) → Bytes → Bytes
unfolding pack_digits is_url_base64_without_padding
encode_doc_id decode_string id =
    if is_numeric id
    then 0xfe ∷ pack_digits id
    else if is_url_base64_without_padding id
    then decoded_or_text id (decode_string id)
    else 0xff ∷ id
