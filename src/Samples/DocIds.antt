-- ===== src/Samples/DocIds.antt =====
-- The indexed forms of some ids, with a decoder that leaves a text as it is.
use osmem.Prelude.{true, Option, some, [], ◌∷◌, ◌≡◌, ◌≢◌, refl}
use osmem.Glob.{Bytes}
use osmem.Routing.DocId.{encode_doc_id, is_url_base64_without_padding}
use osmem.Routing.DocId.Distinct.{encode_doc_id-ne}

abbrev decode_string : Bytes → Option Bytes
decode_string text = some text

-- "0123", "012" and "0-23"
abbrev four_digits : Bytes
four_digits = 48 ∷ 49 ∷ 50 ∷ 51 ∷ []

abbrev three_digits : Bytes
three_digits = 48 ∷ 49 ∷ 50 ∷ []

abbrev not_digits : Bytes
not_digits = 48 ∷ 45 ∷ 50 ∷ 51 ∷ []

packs_four : encode_doc_id decode_string four_digits ≡ 0xfe ∷ 0x01 ∷ 0x23 ∷ []
unfolding encode_doc_id
packs_four = refl

packs_three : encode_doc_id decode_string three_digits ≡ 0xfe ∷ 0x01 ∷ 0x2f ∷ []
unfolding encode_doc_id
packs_three = refl

decodes : encode_doc_id decode_string not_digits ≡ not_digits
unfolding encode_doc_id
decodes = refl

canonical :
    (a b text : Bytes)
    → is_url_base64_without_padding a ≡ true
    → is_url_base64_without_padding b ≡ true
    → decode_string a ≡ some text
    → decode_string b ≡ some text
    → a ≡ b
canonical a b text u v e f = cc (e, f)

encode_doc_id-ne_example :
    encode_doc_id decode_string four_digits ≢ encode_doc_id decode_string not_digits
encode_doc_id-ne_example =
    encode_doc_id-ne decode_string canonical four_digits not_digits (λ e. cc e)
