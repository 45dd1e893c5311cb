-- ===== src/AirPlay/Tlv8/Tests.antt =====
-- Runs of the TLV8 codec, and its theorems at concrete inputs (tests/rtsp_tests.cpp).
use aa2acp.Base.{ℕ, ◌≡◌, refl, List, [], ◌∷◌, none, some, is_empty, if◌then◌else◌, Bytes}
use aa2acp.AirPlay.Tlv8.{
  Map, encode_value, encode_tlv8, append_at, lookup, decode_loop, decode_tlv8,
}
use aa2acp.AirPlay.Tlv8.RoundTrip.{values_of, decode_tlv8-encode_tlv8}

abbrev fields : List (ℕ × Bytes)
fields = (6, 1 ∷ []) ∷ (3, 7 ∷ 8 ∷ []) ∷ (6, 2 ∷ []) ∷ (9, []) ∷ []

fields_encoded : encode_tlv8 fields ≡ 6 ∷ 1 ∷ 1 ∷ 3 ∷ 2 ∷ 7 ∷ 8 ∷ 6 ∷ 1 ∷ 2 ∷ []
unfolding encode_tlv8 encode_value
fields_encoded = refl

truncated_refused : decode_tlv8 (6 ∷ 1 ∷ 1 ∷ 3 ∷ 2 ∷ 7 ∷ []) ≡ some []
unfolding decode_tlv8 decode_loop append_at
truncated_refused = refl

decode_tlv8-encode_tlv8_example :
    (m : Map) × (decode_tlv8 (encode_tlv8 fields) ≡ some m)
    × ((wanted : ℕ)
        → lookup m wanted
          ≡ (if is_empty (values_of fields wanted) then none else some (values_of fields wanted)))
decode_tlv8-encode_tlv8_example = decode_tlv8-encode_tlv8 fields
