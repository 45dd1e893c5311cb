-- ===== src/Bridge/Management/Forms.antt =====
-- Form fields read back (src/bridge/management_ui.cpp).
use aa2acp.Base.{
  ℕ, ◌+◌, ◌/◌, ◌%◌, ◌<◌, ◌≡◌, refl, sym, ap, ◌∙◌, true, ◌⊎◌, inl, inr, All, List, [], ◌∷◌, ◌++◌,
  Option, none, some, arith, ltb, if◌then◌else◌, Bool-cases, length, drop, take-append_length,
  All-append, AreBytes, IsByte, eqb, Bytes, append_assoc, drop-append_length, length-append,
}
use aa2acp.Base.Texts.{Lacks, index_of-append}
use aa2acp.Bridge.Management.{
  is_hex, hex_value, percent_byte, url_decode_from, url_decode, split_fields, field_name,
  field_value, search_fields, form_field,
}

-- A browser's encoding: each byte as a percent sign and two digits.
abbrev hex_digit : ℕ → ℕ
hex_digit d = if ltb d 10 then 48 + d else 55 + d

pub url_encode : Bytes → Bytes
url_encode [] = []
url_encode (b ∷ value) = 37 ∷ hex_digit (b / 16) ∷ hex_digit (b % 16) ∷ url_encode value

hex_value-hex_digit :
    (d : ℕ) → d < 16 → (is_hex (hex_digit d) ≡ true) × (hex_value (hex_digit d) ≡ d)
unfolding hex_value
hex_value-hex_digit d h = elim (Bool-cases (ltb d 10)) [
  | inl e ↦ rw e (ground arith, ground arith)
  | inr e ↦ rw e (ground arith, ground arith)
]

percent_byte-hex_digit :
    (b : ℕ) (rest : Bytes)
    → IsByte b
    → percent_byte (hex_digit (b / 16) ∷ hex_digit (b % 16) ∷ rest) ≡ some b
unfolding percent_byte
percent_byte-hex_digit b rest small =
    let (high, high_value) = hex_value-hex_digit (b / 16) (omega arith) in
    let (low, low_value) = hex_value-hex_digit (b % 16) (omega arith) in
    rw (high, low, high_value, low_value) (ap some (omega arith))

url_decode_from-percent :
    (rest : Bytes) (b : ℕ)
    → percent_byte rest ≡ some b
    → url_decode_from 0 (37 ∷ rest) ≡ b ∷ url_decode_from 2 rest
unfolding url_decode_from
url_decode_from-percent rest b h = rw h refl

url_decode_from-url_encode :
    (value : Bytes) → AreBytes value → url_decode_from 0 (url_encode value) ≡ value
unfolding url_decode_from url_encode
url_decode_from-url_encode [] bytes = refl
url_decode_from-url_encode (b ∷ value) (small, bytes) =
    url_decode_from-percent _ b (percent_byte-hex_digit b (url_encode value) small)
    ∙ ap (◌∷◌ b) (url_decode_from-url_encode value bytes)

url_decode-url_encode : (value : Bytes) → AreBytes value → url_decode (url_encode value) ≡ value
unfolding url_decode
url_decode-url_encode value bytes = url_decode_from-url_encode value bytes

-- An encoded text holds no separator.
Lacks-url_encode :
    (k : ℕ) (value : Bytes) → (k ≡ 38) ⊎ (k ≡ 61) → AreBytes value → Lacks k (url_encode value)
unfolding url_encode
Lacks-url_encode k [] h bytes = tt
Lacks-url_encode k (b ∷ value) h (small, bytes) =
    (ground arith, (ground arith, (ground arith, Lacks-url_encode k value h bytes)))

abbrev encode_field : Bytes × Bytes → Bytes
encode_field (name, value) = url_encode name ++ (61 ∷ url_encode value)

-- The body of a form.
pub form_body : Bytes × Bytes → List (Bytes × Bytes) → Bytes
form_body field [] = encode_field field
form_body field (next ∷ fields) = encode_field field ++ (38 ∷ form_body next fields)

abbrev pub lookup_field : List (Bytes × Bytes) → Bytes → Option Bytes
lookup_field [] wanted = none
lookup_field ((name, value) ∷ fields) wanted =
    if eqb name wanted then some value else lookup_field fields wanted

abbrev pub IsField : Bytes × Bytes → Type 0
IsField (name, value) = AreBytes name × AreBytes value

Lacks-encode_field : (field : Bytes × Bytes) → IsField field → Lacks 38 (encode_field field)
Lacks-encode_field (name, value) (name_bytes, value_bytes) =
    All-append _ (url_encode name) (61 ∷ url_encode value)
      (Lacks-url_encode 38 name (inl refl) name_bytes)
      (refl, Lacks-url_encode 38 value (inl refl) value_bytes)

split_fields-Lacks : (field : Bytes) → Lacks 38 field → split_fields field ≡ field ∷ []
unfolding split_fields
split_fields-Lacks [] lacks = refl
split_fields-Lacks (c ∷ field) (other, lacks) = rw (other, split_fields-Lacks field lacks) refl

split_fields-append :
    (field text : Bytes)
    → Lacks 38 field
    → split_fields (field ++ (38 ∷ text)) ≡ field ∷ split_fields text
unfolding split_fields
split_fields-append [] text lacks = refl
split_fields-append (c ∷ field) text (other, lacks) =
    rw (other, split_fields-append field text lacks) refl

field_name-encode_field :
    (name value : Bytes) → AreBytes name → field_name (encode_field (name, value)) ≡ name
field_name-encode_field name value bytes =
    let place =
      index_of-append 61 (url_encode name) (url_encode value)
        (Lacks-url_encode 61 name (inr refl) bytes) in
    rw
      (
        place,
        take-append_length (length (url_encode name)) (url_encode name) (61 ∷ url_encode value)
            refl,
      )
      (url_decode-url_encode name bytes)

field_value-encode_field :
    (name value : Bytes)
    → AreBytes name
    → AreBytes value
    → field_value (encode_field (name, value)) ≡ value
field_value-encode_field name value name_bytes bytes =
    let front = url_encode name in
    let place =
      index_of-append 61 front (url_encode value)
        (Lacks-url_encode 61 name (inr refl) name_bytes) in
    let behind : drop (length front + 1) (front ++ (61 ∷ url_encode value)) ≡ url_encode value =
      ap (drop (length front + 1)) (sym (append_assoc front (61 ∷ []) (url_encode value)))
      ∙ drop-append_length (length front + 1) (front ++ (61 ∷ [])) (url_encode value)
          (length-append front (61 ∷ [])) in
    rw (place, behind) (url_decode-url_encode value bytes)

search_fields-encode_field :
    (field : Bytes × Bytes) (more : List Bytes) (wanted : Bytes)
    → IsField field
    → search_fields (encode_field field ∷ more) wanted
      ≡ (if eqb field.0 wanted then some field.1 else search_fields more wanted)
unfolding search_fields
search_fields-encode_field (name, value) more wanted (name_bytes, value_bytes) =
    rw
      (
        field_name-encode_field name value name_bytes,
        field_value-encode_field name value name_bytes value_bytes,
      )
      refl

search_fields-none : (wanted : Bytes) → search_fields [] wanted ≡ none
unfolding search_fields
search_fields-none wanted = refl

-- A form with every byte percent-encoded: `form_field` gives the value of the first field of the name,
-- or nothing if there is none.
pub form_field-form_body :
    (field : Bytes × Bytes) (fields : List (Bytes × Bytes)) (wanted : Bytes)
    → All IsField (field ∷ fields)
    → form_field (form_body field fields) wanted ≡ lookup_field (field ∷ fields) wanted
unfolding form_field form_body
form_field-form_body field [] wanted (here, others) =
    ap (λ l. search_fields l wanted)
      (split_fields-Lacks (encode_field field) (Lacks-encode_field field here))
    ∙ search_fields-encode_field field [] wanted here
    ∙ rw (search_fields-none wanted) refl
form_field-form_body field (next ∷ fields) wanted (here, others) =
    ap (λ l. search_fields l wanted)
      (split_fields-append (encode_field field) (form_body next fields)
        (Lacks-encode_field field here))
    ∙ search_fields-encode_field field _ wanted here
    ∙ ap (λ o. if eqb field.0 wanted then some field.1 else o)
        (form_field-form_body next fields wanted others)
