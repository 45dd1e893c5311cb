-- ===== src/AirPlay/Tlv8.antt =====
-- HAP TLV8, of pair-setup and pair-verify (src/airplay/rtsp.cpp).
use aa2acp.Base.{
  ℕ, zero, suc, ◌+◌, ◌-◌, min, List, [], ◌∷◌, ◌++◌, Option, none, some, ltb, ◌==◌, if◌then◌else◌,
  length, take, drop, get_or, is_empty, Bytes,
}
pub mod RoundTrip
mod Tests

-- The inner loop of `encode_tlv8` on fuel: pieces of at most 255 bytes, none for an empty value. A
-- piece takes a byte at least.
unfoldable pub encode_value : ℕ → ℕ → Bytes → Bytes
encode_value zero type value = []
encode_value (suc fuel) type value =
    let size = min 255 (length value) in
    let later = encode_value fuel type (drop size value) in
    if is_empty value then [] else type ∷ size ∷ take size value ++ later

unfoldable pub encode_tlv8 : List (ℕ × Bytes) → Bytes
encode_tlv8 [] = []
encode_tlv8 ((type, value) ∷ fields) = encode_value (length value) type value ++ encode_tlv8 fields

-- `std::map<std::uint8_t, Bytes>` as the entries in the order of their first use.
abbrev pub Map : Type 0
Map = List (ℕ × Bytes)

-- `result[type].insert(end, ...)`: a new type gets an entry first.
unfoldable pub append_at : ℕ → Bytes → Map → Map
append_at type bytes [] = (type, bytes) ∷ []
append_at type bytes ((t, old) ∷ rest) =
    let later = append_at type bytes rest in
    if t == type then (t, old ++ bytes) ∷ rest else (t, old) ∷ later

unfoldable pub lookup : Map → ℕ → Option Bytes
lookup [] type = none
lookup ((t, value) ∷ rest) type = if t == type then some value else lookup rest type

-- The loop of `decode_tlv8` on fuel, the outer option. A round takes two bytes at least.
unfoldable pub decode_loop : ℕ → Bytes → Map → Option Map
decode_loop zero bytes result = none
decode_loop (suc fuel) bytes result =
    let size = get_or bytes 1 0 in
    let later =
      decode_loop fuel (drop (2 + size) bytes)
        (append_at (get_or bytes 0 0) (take size (drop 2 bytes)) result) in
    if ltb (length bytes) 2
    then some result
    else if ltb (length bytes) (2 + size)
    then some []
    else later

unfoldable pub decode_tlv8 : Bytes → Option Map
decode_tlv8 bytes = decode_loop (suc (length bytes)) bytes []
