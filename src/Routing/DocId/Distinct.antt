-- ===== src/Routing/DocId/Distinct.antt =====
-- Two ids do not have one indexed form (internal/engine/searchids.go, `encodeDocID`).
use osmem.Prelude.{
  ◌≢◌, ℕ, ◌≤◌, ◌<◌, true, false, Option, none, some, [], ◌∷◌, ◌≡◌, refl, sym, ap, ◌∙◌, arith, inl,
  inr, Bool-cases, leb,
}
use osmem.Glob.{Bytes}
use osmem.Routing.DocId.{
  is_digit, all_digits, is_numeric, pack_digits, is_url_base64_without_padding, escape_first,
  decoded_or_text, encode_doc_id,
}

abbrev first : Bytes → ℕ
first [] = 0
first (c ∷ id) = c

abbrev rest : Bytes → Bytes
rest [] = []
rest (c ∷ id) = id

digit_bounds : (c : ℕ) → is_digit c ≡ true → (48 ≤ c) × (c ≤ 57)
digit_bounds c h = ground arith

two_digits :
    (c d : ℕ) (id : Bytes)
    → all_digits (c ∷ d ∷ id) ≡ true
    → (is_digit c ≡ true) × (is_digit d ≡ true) × (all_digits id ≡ true)
two_digits c d id h = ground arith

pack_digits-injective :
    (a b : Bytes)
    → all_digits a ≡ true
    → all_digits b ≡ true
    → pack_digits a ≡ pack_digits b
    → a ≡ b
unfolding pack_digits
pack_digits-injective [] [] da db e = refl
pack_digits-injective [] (c ∷ []) da db e = absurd (cc e)
pack_digits-injective [] (c ∷ d ∷ b) da db e = absurd (cc e)
pack_digits-injective (c ∷ []) [] da db e = absurd (cc e)
pack_digits-injective (c ∷ d ∷ a) [] da db e = absurd (cc e)
pack_digits-injective (c ∷ []) (c' ∷ []) da db e =
    ap (λ x. x ∷ [])
      (omega (
        arith,
        ap first e,
        digit_bounds c (ground (arith, da)),
        digit_bounds c' (ground (arith, db)),
      ))
pack_digits-injective (c ∷ []) (c' ∷ d' ∷ b) da db e =
    let two = two_digits c' d' b db in
    absurd (
      omega (
        arith,
        ap first e,
        digit_bounds c (ground (arith, da)),
        digit_bounds c' two.0,
        digit_bounds d' two.1,
      ))
pack_digits-injective (c ∷ d ∷ a) (c' ∷ []) da db e =
    let two = two_digits c d a da in
    absurd (
      omega (
        arith,
        ap first e,
        digit_bounds c' (ground (arith, db)),
        digit_bounds c two.0,
        digit_bounds d two.1,
      ))
pack_digits-injective (c ∷ d ∷ a) (c' ∷ d' ∷ b) da db e =
    let mine = two_digits c d a da in
    let yours = two_digits c' d' b db in
    let same : (c ≡ c') × (d ≡ d') = omega (
      arith,
      ap first e,
      digit_bounds c mine.0,
      digit_bounds d mine.1,
      digit_bounds c' yours.0,
      digit_bounds d' yours.1,
    ) in
    let later = pack_digits-injective a b mine.2 yours.2 (ap rest e) in cc (same.0, same.1, later)

escape_first-injective :
    (c : ℕ) (a : Bytes) (d : ℕ) (b : Bytes)
    → escape_first (c ∷ a) ≡ escape_first (d ∷ b)
    → c ∷ a ≡ d ∷ b
escape_first-injective c a d b e = elim (Bool-cases (leb 0xfd c)) [
  | inl high ↦ elim (Bool-cases (leb 0xfd d)) [
    | inl high' ↦ ap rest (sym (escaped c a high) ∙ e ∙ escaped d b high')
    | inr low ↦
        absurd (by_first d c low (sym (ap first (sym (escaped c a high) ∙ e ∙ plain d b low))))
  ]
  | inr low ↦ elim (Bool-cases (leb 0xfd d)) [
    | inl high ↦ absurd (by_first c d low (ap first (sym (plain c a low) ∙ e ∙ escaped d b high)))
    | inr low' ↦ sym (plain c a low) ∙ e ∙ plain d b low'
  ]
]
  where
    escaped : (c : ℕ) (a : Bytes) → leb 0xfd c ≡ true → escape_first (c ∷ a) ≡ 0xfd ∷ c ∷ a
    escaped c a h = rw h

    plain : (c : ℕ) (a : Bytes) → leb 0xfd c ≡ false → escape_first (c ∷ a) ≡ c ∷ a
    plain c a h = rw h

    by_first : (c d : ℕ) → leb 0xfd c ≡ false → ¬ (c ≡ 0xfd)
    by_first c d h e = ground (arith, h, e)

escape_first-below : (c : ℕ) (a : Bytes) → first (escape_first (c ∷ a)) < 0xfe
escape_first-below c a = ground arith

-- The three forms of an id.
data Form (decode_string : Bytes → Option Bytes) (id : Bytes) : Bytes → Type 0 where
  digits : all_digits id ≡ true → Form decode_string id (0xfe ∷ pack_digits id)
  decoded :
      (c : ℕ) (b : Bytes)
      → is_url_base64_without_padding id ≡ true
      → decode_string id ≡ some (c ∷ b)
      → Form decode_string id (escape_first (c ∷ b))
  text : Form decode_string id (0xff ∷ id)

numeric-digits : (id : Bytes) → is_numeric id ≡ true → all_digits id ≡ true
numeric-digits [] h = refl
numeric-digits (c ∷ id) h = h

decoded_or_text-Form :
    (decode_string : Bytes → Option Bytes) (id : Bytes) (r : Option Bytes)
    → is_url_base64_without_padding id ≡ true
    → decode_string id ≡ r
    → Form decode_string id (decoded_or_text id r)
decoded_or_text-Form decode_string id none u e = text
decoded_or_text-Form decode_string id (some []) u e = text
decoded_or_text-Form decode_string id (some (c ∷ b)) u e = decoded c b u e

encode_doc_id-Form :
    (decode_string : Bytes → Option Bytes) (id : Bytes)
    → Form decode_string id (encode_doc_id decode_string id)
unfolding encode_doc_id
encode_doc_id-Form decode_string id = elim (Bool-cases (is_numeric id)) [
  | inl n ↦ rw (n, encode_doc_id) (digits (numeric-digits id n))
  | inr n ↦ elim (Bool-cases (is_url_base64_without_padding id)) [
    | inl u ↦
        rw (n, encode_doc_id, u) (decoded_or_text-Form decode_string id (decode_string id) u refl)
    | inr u ↦ rw (n, encode_doc_id, u) text
  ]
]

module _ (decode_string : Bytes → Option Bytes)
    (canonical : (a b text : Bytes)
      → is_url_base64_without_padding a ≡ true
      → is_url_base64_without_padding b ≡ true
      → decode_string a ≡ some text
      → decode_string b ≡ some text
      → a ≡ b) where
  same_ids : {a b x y : Bytes} → Form decode_string a x → Form decode_string b y → x ≡ y → a ≡ b
  same_ids {a} {b} (digits da) (digits db) e = pack_digits-injective a b da db (ap rest e)
  same_ids (digits da) (decoded c b u f) e =
      absurd (omega (arith, ap first e, escape_first-below c b))
  same_ids (digits da) text e = absurd (omega (arith, ap first e))
  same_ids (decoded c b u f) (digits db) e =
      absurd (omega (arith, ap first e, escape_first-below c b))
  same_ids {a} {b = a'} (decoded c b u f) (decoded c' b' u' f') e =
      canonical a a' (c' ∷ b') u u' (f ∙ ap some (escape_first-injective c b c' b' e)) f'
  same_ids (decoded c b u f) text e = absurd (omega (arith, ap first e, escape_first-below c b))
  same_ids text (digits db) e = absurd (omega (arith, ap first e))
  same_ids text (decoded c b u f) e = absurd (omega (arith, ap first e, escape_first-below c b))
  same_ids text text e = ap rest e

  encode_doc_id-injective :
      (a b : Bytes) → encode_doc_id decode_string a ≡ encode_doc_id decode_string b → a ≡ b
  encode_doc_id-injective a b =
      same_ids (encode_doc_id-Form decode_string a) (encode_doc_id-Form decode_string b)

  -- Two different ids have different indexed forms, if URL base64 without padding is canonical: of the
  -- texts that isURLBase64WithoutPadding lets through, no two decode to the same bytes.
  pub encode_doc_id-ne :
      (a b : Bytes) → a ≢ b → encode_doc_id decode_string a ≢ encode_doc_id decode_string b
  encode_doc_id-ne a b differ e = differ (encode_doc_id-injective a b e)
