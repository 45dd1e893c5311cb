-- ===== src/Iap2/Csm.antt =====
-- Control-session messages (src/iap2/csm.cpp, include/aa2acp/iap2/csm.hpp): the codec, the search
-- for a parameter, the comparison behind the signature check, and the incremental decoder.
pub mod Messages
pub mod Parameters
pub mod Streams
pub mod Tests
use aa2acp.Base.{
  ◌>>=◌, ℕ, zero, suc, ◌+◌, ◌-◌, ◌%◌, min, ◌*◌, Bool, true, false, not, ◌||◌, ◌&&◌, List, [], ◌∷◌,
  ◌++◌, Option, none, some, ltb, ◌==◌, if◌then◌else◌, length, get_or, take, drop, Bytes, read_u16,
  u16_high, u16_low,
}

pub record Message : Type 0 where
  pub id : ℕ
  pub payload : Bytes

-- `kStart` is 0x4040; the header holds it, the size of the whole message and the identifier.
unfoldable pub encode : ℕ → Bytes → Bytes
encode id payload =
    if ltb (65535 - 6) (length payload)
    then []
    else 0x40
      ∷ 0x40
      ∷ u16_high ((6 + length payload) % 65536)
      ∷ u16_low ((6 + length payload) % 65536)
      ∷ u16_high id
      ∷ u16_low id
      ∷ payload

-- The parameter that `encode_bytes_parameter` wraps.
abbrev pub bytes_parameter : ℕ → Bytes → Bytes
bytes_parameter parameter_id value =
    u16_high ((4 + length value) % 65536)
    ∷ u16_low ((4 + length value) % 65536)
    ∷ u16_high parameter_id
    ∷ u16_low parameter_id
    ∷ value

unfoldable pub encode_bytes_parameter : ℕ → ℕ → Bytes → Bytes
encode_bytes_parameter id parameter_id value =
    if ltb (65535 - 10) (length value) then [] else encode id (bytes_parameter parameter_id value)

-- The loop of `first_bytes_parameter` on fuel, over what is left behind `offset`. A round that goes
-- on takes four bytes at least.
unfoldable pub first_bytes_parameter_loop : ℕ → Bytes → ℕ → Option Bytes
first_bytes_parameter_loop zero rest parameter_id = none
first_bytes_parameter_loop (suc fuel) rest parameter_id =
    let size = read_u16 rest 0 in
    let later = first_bytes_parameter_loop fuel (drop size rest) parameter_id in
    if ltb (length rest) 4
    then none
    else if ltb size 4 || ltb (length rest) size
    then none
    else if read_u16 rest 2 == parameter_id
    then some (take (size - 4) (drop 4 rest))
    else later

unfoldable pub first_bytes_parameter : Bytes → ℕ → Option Bytes
first_bytes_parameter payload parameter_id =
    first_bytes_parameter_loop (suc (length payload)) payload parameter_id

-- `std::equal` over the first span's length, past the end of the second one false.
unfoldable pub is_prefix : Bytes → Bytes → Bool
is_prefix [] bytes = true
is_prefix (p ∷ ps) [] = false
is_prefix (p ∷ ps) (b ∷ bs) = p == b && is_prefix ps bs

abbrev pub sha1_digest_info_prefix : Bytes
sha1_digest_info_prefix =
    0x30 ∷ 0x21 ∷ 0x30 ∷ 0x09 ∷ 0x06 ∷ 0x05 ∷ 0x2b ∷ 0x0e ∷ 0x03 ∷ 0x02 ∷ 0x1a ∷ 0x05 ∷ 0x00 ∷ 0x04
    ∷ 0x14 ∷ []

-- The end of `verify_mfi_v2_signature`, on what OpenSSL recovered from the signature.
unfoldable pub recovered_matches : Bytes → Bytes → Bool
recovered_matches challenge recovered =
    (length recovered == length challenge && is_prefix challenge recovered)
    || (length recovered == 15 + length challenge
        && is_prefix sha1_digest_info_prefix recovered
        && is_prefix challenge (drop 15 recovered))

-- What `verify_mfi_v2_signature` calls of OpenSSL. Null pointers are `none`.
pub record OpenSsl : Type 1 where
  pub Bundle : Type 0
  pub Certificate : Type 0
  pub Key : Type 0
  pub d2i_pkcs7 : Bytes → Option Bundle
  pub is_signed : Bundle → Bool
  pub signers : Bundle → Option (List Certificate)
  pub certificates : Bundle → Option (List Certificate)
  pub get_pubkey : Certificate → Option Key
  pub is_rsa : Key → Bool
  pub verify_recover : Key → Bytes → Option Bytes

unfoldable pub first_or {ℓ} : {A : Type ℓ} → Option (List A) → Option A → Option A
first_or (some (a ∷ rest)) otherwise = some a
first_or (some []) otherwise = otherwise
first_or none otherwise = otherwise

-- The signer's certificate, or else the first one of the bundle.
unfoldable pub signer : (ssl : OpenSsl) → ssl.Bundle → Option ssl.Certificate
signer ssl bundle =
    if ssl.is_signed bundle
    then first_or (ssl.signers bundle) (first_or (ssl.certificates bundle) none)
    else none

-- What RSA recovers from the signature with the key of the signer, if every step succeeds.
unfoldable pub recover : OpenSsl → Bytes → Bytes → Option Bytes
recover ssl signature certificate_der = do
  bundle ← ssl.d2i_pkcs7 certificate_der
  certificate ← signer ssl bundle
  key ← ssl.get_pubkey certificate
  if ssl.is_rsa key then ssl.verify_recover key signature else none

unfoldable pub verify_mfi_v2_signature : OpenSsl → Bytes → Bytes → Bytes → Bool
verify_mfi_v2_signature ssl challenge signature certificate_der =
    elim (recover ssl signature certificate_der) [
      | none ↦ false
      | some recovered ↦ recovered_matches challenge recovered
    ]

abbrev pub maximum_buffer_size : ℕ
maximum_buffer_size = 128 * 1024

-- `Decoder::push`; the decoder's state is its buffer.
unfoldable pub push : Bytes → Bytes → Bytes
push buffer bytes =
    if ltb (maximum_buffer_size - min (length buffer) maximum_buffer_size) (length bytes)
    then []
    else buffer ++ bytes

-- The inner loop of `Decoder::next`: what begins with the start mark, else the last byte.
unfoldable pub find_mark : Bytes → Bytes
find_mark (a ∷ b ∷ rest) = if a == 0x40 && b == 0x40 then a ∷ b ∷ rest else find_mark (b ∷ rest)
find_mark bytes = bytes

-- How a round of the loop of `Decoder::next` ends, with the buffer it leaves.
pub data Round : Type 0 where
  found : Message → Bytes → Round
  stopped : Bytes → Round
  continues : Bytes → Round

-- A start mark at the front of the buffer.
unfoldable pub next_message : Bytes → Round
next_message buffer =
    let size = read_u16 buffer 2 in
    if ltb size 6
    then continues (drop 1 buffer)
    else if ltb (length buffer) size
    then stopped buffer
    else found (record { id = read_u16 buffer 4; payload = take (size - 6) (drop 6 buffer) })
        (drop size buffer)

unfoldable pub next_round : Bytes → Round
next_round buffer =
    let marked = find_mark buffer in
    if ltb (length buffer) 6
    then stopped buffer
    else if length marked == 1
    then stopped marked
    else if not (length marked == length buffer)
    then continues marked
    else next_message buffer

-- `Decoder::next` with the buffer it leaves. The outer option is the fuel: every round that goes on
-- erases a byte at least.
unfoldable pub next_loop : ℕ → Bytes → Option (Option Message × Bytes)
next_loop zero buffer = none
next_loop (suc fuel) buffer = elim (next_round buffer) [
  | found message rest ↦ some (some message, rest)
  | stopped rest ↦ some (none, rest)
  | continues rest ↦ next_loop fuel rest
]

unfoldable pub next : Bytes → Option (Option Message × Bytes)
next buffer = next_loop (suc (length buffer)) buffer

-- The loop `while (message = decoder_.next())` of the owners of a decoder: the messages in order, and
-- the buffer that is left. The outer option is the fuel; a message takes a byte at least.
unfoldable pub drain_loop : ℕ → Bytes → Option (List Message × Bytes)
drain_loop zero buffer = none
drain_loop (suc fuel) buffer = elim (next buffer) [
  | none ↦ none
  | some (message, rest) ↦ elim message [
    | none ↦ some ([], rest)
    | some m ↦ elim (drain_loop fuel rest) [ none ↦ none | some (ms, left) ↦ some (m ∷ ms, left) ]
  ]
]

unfoldable pub drain : Bytes → Option (List Message × Bytes)
drain buffer = drain_loop (suc (length buffer)) buffer
