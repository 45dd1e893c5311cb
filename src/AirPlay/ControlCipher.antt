-- ===== src/AirPlay/ControlCipher.antt =====
-- The encrypted control channel (src/airplay/control_cipher.cpp,
-- include/aa2acp/airplay/control_cipher.hpp), over any AEAD.
use aa2acp.Base.{
  ℕ, zero, suc, ◌+◌, ◌*◌, ◌/◌, ◌%◌, ◌^◌, ◌≤◌, ◌≡◌, Bool, true, false, not, List, [], ◌∷◌, ◌++◌,
  Option, none, some, ltb, ◌==◌, if◌then◌else◌, length, take, drop, get_or, Bytes,
}
pub mod Streams
mod Tests

-- `seal_with_nonce` and `open_with_nonce` of src/airplay/crypto.cpp, over OpenSSL: key, nonce, text,
-- additional data.
pub record Aead : Type 0 where
  pub seal : Bytes → Bytes → Bytes → Bytes → Option Bytes
  pub open_sealed : Bytes → Bytes → Bytes → Bytes → Option Bytes

-- ChaCha20-Poly1305 appends a tag of 16 bytes, and opens what it sealed.
pub record IsAead (aead : Aead) : Type 0 where
  pub tagged :
      (key nonce text additional sealed : Bytes)
      → aead.seal key nonce text additional ≡ some sealed
      → length sealed ≡ length text + 16
  pub opens :
      (key nonce text additional sealed : Bytes)
      → aead.seal key nonce text additional ≡ some sealed
      → aead.open_sealed key nonce sealed additional ≡ some text

pub record ControlCipher : Type 0 where
  pub read_key : Bytes
  pub write_key : Bytes
  pub read_counter : ℕ
  pub write_counter : ℕ

unfoldable pub nonce_for_counter : ℕ → Bytes
nonce_for_counter counter =
    0
    ∷ 0
    ∷ 0
    ∷ 0
    ∷ counter % 256
    ∷ counter / 2 ^ 8 % 256
    ∷ counter / 2 ^ 16 % 256
    ∷ counter / 2 ^ 24 % 256
    ∷ counter / 2 ^ 32 % 256
    ∷ counter / 2 ^ 40 % 256
    ∷ counter / 2 ^ 48 % 256
    ∷ counter / 2 ^ 56 % 256
    ∷ []

abbrev pub header_of : ℕ → Bytes
header_of size = size % 256 ∷ size / 256 % 256 ∷ []

module _ (aead : Aead) where
  unfoldable pub encrypt : Bytes → ControlCipher → Option Bytes × ControlCipher
  encrypt plaintext c =
      let header = header_of (length plaintext) in
      if ltb 65535 (length plaintext)
      then (none, c)
      else elim (aead.seal c.write_key (nonce_for_counter c.write_counter) plaintext header) [
        | none ↦ (none, c)
        | some encrypted ↦ (
          some (header ++ encrypted),
          record c { write_counter = (c.write_counter + 1) % 2 ^ 64 },
        )
      ]

  unfoldable pub decrypt : Bytes → ControlCipher → Option Bytes × ControlCipher
  decrypt frame c =
      let size = get_or frame 0 0 + 256 * get_or frame 1 0 in
      if ltb (length frame) 18
      then (none, c)
      else if not (length frame == size + 18)
      then (none, c)
      else elim (aead.open_sealed c.read_key (nonce_for_counter c.read_counter) (drop 2 frame)
          (take 2 frame)) [
            | none ↦ (none, c)
            | some plaintext ↦
                (some plaintext, record c { read_counter = (c.read_counter + 1) % 2 ^ 64 })
          ]

  -- `decrypt_one`, with the buffer and the cipher it leaves.
  unfoldable pub decrypt_one : Bytes → ControlCipher → Option Bytes × Bytes × ControlCipher
  decrypt_one buffer c =
      let frame_size = get_or buffer 0 0 + 256 * get_or buffer 1 0 + 18 in
      let (plaintext, c') = decrypt (take frame_size buffer) c in
      if ltb (length buffer) 2
      then (some [], buffer, c)
      else if ltb (length buffer) frame_size
      then (some [], buffer, c)
      else elim plaintext [
        | none ↦ (none, buffer, c')
        | some text ↦ (some text, drop frame_size buffer, c')
      ]
