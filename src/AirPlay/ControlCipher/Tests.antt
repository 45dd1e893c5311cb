-- ===== src/AirPlay/ControlCipher/Tests.antt =====
-- A channel with a toy cipher, and the theorems at concrete inputs (tests/control_cipher_tests.cpp).
use aa2acp.Base.{
  ◌≡◌, ◌-◌, refl, sym, ap, ◌∙◌, [], ◌∷◌, ◌++◌, none, some, some-injective, arith, length,
  length-append, take, take-append_length, Bytes,
}
use aa2acp.AirPlay.ControlCipher.{
  Aead, IsAead, ControlCipher, nonce_for_counter, encrypt, decrypt, decrypt_one,
}
use aa2acp.AirPlay.ControlCipher.Streams.{ArePaired, decrypt_one-encrypt}

abbrev tag : Bytes
tag = 0 ∷ 0 ∷ 0 ∷ 0 ∷ 0 ∷ 0 ∷ 0 ∷ 0 ∷ 0 ∷ 0 ∷ 0 ∷ 0 ∷ 0 ∷ 0 ∷ 0 ∷ 0 ∷ []

-- No secrecy: the text with the tag behind it.
abbrev toy : Aead
toy = record {
  seal = λ key nonce text additional. some (text ++ tag);
  open_sealed = λ key nonce sealed additional. some (take (length sealed - 16) sealed);
}

toy-IsAead : IsAead toy
toy-IsAead = record {
  tagged = λ key nonce text additional sealed e.
      ap length (sym (some-injective _ _ e)) ∙ length-append text tag;
  opens = λ key nonce text additional sealed e. ap some (
      ap (λ x. take (length x - 16) x) (sym (some-injective _ _ e))
      ∙ take-append_length (length (text ++ tag) - 16) text tag
          (omega (arith, length-append text tag)));
}

abbrev left_end : ControlCipher
left_end = record { read_key = 1 ∷ []; write_key = 2 ∷ []; read_counter = 7; write_counter = 300 }

abbrev right_end : ControlCipher
right_end = record { read_key = 2 ∷ []; write_key = 1 ∷ []; read_counter = 300; write_counter = 7 }

abbrev frame : Bytes
frame = 2 ∷ 0 ∷ 5 ∷ 6 ∷ tag

encrypted :
    encrypt toy (5 ∷ 6 ∷ []) left_end ≡ (some frame, record left_end { write_counter = 301 })
unfolding encrypt nonce_for_counter
encrypted = refl

wrong_size_refused : decrypt toy (3 ∷ 0 ∷ 5 ∷ 6 ∷ tag) right_end ≡ (none, right_end)
unfolding decrypt nonce_for_counter
wrong_size_refused = refl

nonce_bytes : nonce_for_counter 300 ≡ 0 ∷ 0 ∷ 0 ∷ 0 ∷ 44 ∷ 1 ∷ 0 ∷ 0 ∷ 0 ∷ 0 ∷ 0 ∷ 0 ∷ []
unfolding nonce_for_counter
nonce_bytes = refl

decrypt_one-encrypt_example :
    (receiver' : ControlCipher) × (decrypt_one toy (frame ++ 9 ∷ []) right_end
      ≡ (some (5 ∷ 6 ∷ []), 9 ∷ [], receiver'))
    × ArePaired toy toy-IsAead (record left_end { write_counter = 301 }) receiver'
decrypt_one-encrypt_example =
    decrypt_one-encrypt toy toy-IsAead (5 ∷ 6 ∷ []) frame (9 ∷ []) left_end
      (record left_end { write_counter = 301 }) right_end (refl, refl) encrypted
