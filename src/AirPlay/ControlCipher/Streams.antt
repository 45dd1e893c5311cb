-- ===== src/AirPlay/ControlCipher/Streams.antt =====
-- The receiver of the control channel follows its sender (src/airplay/control_cipher.cpp).
use aa2acp.Base.{
  ℕ, ◌+◌, ◌*◌, ◌/◌, ◌%◌, ◌^◌, ◌≤◌, ◌<◌, ◌≡◌, inl, inr, refl, sym, ap, ◌∙◌, [], ◌∷◌, ◌++◌, Option,
  none, some, some-injective, none-ne-some, arith, ltb, length, length-append, take, drop,
  take-append_length, drop-append_length, get_or, Bytes, Bool-cases, Option-cases,
}
use aa2acp.AirPlay.ControlCipher.{
  Aead, IsAead, ControlCipher, nonce_for_counter, header_of, encrypt, decrypt, decrypt_one,
}

-- Different counters below 2 ^ 64 have different nonces.
pub nonce_for_counter-injective :
    (a b : ℕ) → a < 2 ^ 64 → b < 2 ^ 64 → nonce_for_counter a ≡ nonce_for_counter b → a ≡ b
unfolding nonce_for_counter
nonce_for_counter-injective a b ha hb e =
    let at : (n : ℕ) → get_or (nonce_for_counter a) n 0 ≡ get_or (nonce_for_counter b) n 0 =
      λ n. ap (λ (x : Bytes). get_or x n 0) e in
    let e0 : a % 256 ≡ b % 256 = at 4 in
    let e1 : a / 2 ^ 8 % 256 ≡ b / 2 ^ 8 % 256 = at 5 in
    let e2 : a / 2 ^ 16 % 256 ≡ b / 2 ^ 16 % 256 = at 6 in
    let e3 : a / 2 ^ 24 % 256 ≡ b / 2 ^ 24 % 256 = at 7 in
    let e4 : a / 2 ^ 32 % 256 ≡ b / 2 ^ 32 % 256 = at 8 in
    let e5 : a / 2 ^ 40 % 256 ≡ b / 2 ^ 40 % 256 = at 9 in
    let e6 : a / 2 ^ 48 % 256 ≡ b / 2 ^ 48 % 256 = at 10 in
    let e7 : a / 2 ^ 56 % 256 ≡ b / 2 ^ 56 % 256 = at 11 in omega arith

module _ (aead : Aead) (law : IsAead aead) where
  -- What a frame is, when encryption gives one.
  encrypt_frame :
      (plaintext frame : Bytes) (c c' : ControlCipher)
      → encrypt aead plaintext c ≡ (some frame, c')
      → (length plaintext ≤ 65535)
        × (sealed : Bytes) × (aead.seal c.write_key
              (nonce_for_counter c.write_counter)
              plaintext
              (header_of (length plaintext))
            ≡ some sealed)
        × (frame ≡ header_of (length plaintext) ++ sealed)
        × (c' ≡ record c { write_counter = (c.write_counter + 1) % 2 ^ 64 })
  unfolding encrypt
  encrypt_frame plaintext frame c c' e =
      let header = header_of (length plaintext) in
      elim (Bool-cases (ltb 65535 (length plaintext))) [
        | inl large ↦
            let no : Path (Option Bytes × ControlCipher) (none, c) (some frame, c') =
              rw (large, encrypt) at e in
            absurd (none-ne-some frame (ap (λ (o : Option Bytes × ControlCipher). o.0) no))
        | inr fits ↦
            elim (Option-cases
              (aead.seal c.write_key (nonce_for_counter c.write_counter) plaintext header)) [
                | inl refused ↦
                    let no : Path (Option Bytes × ControlCipher) (none, c) (some frame, c') =
                      rw (fits, refused, encrypt) at e in
                    absurd (none-ne-some frame (ap (λ (o : Option Bytes × ControlCipher). o.0) no))
                | inr (sealed, s) ↦
                    let same : Path (Option Bytes × ControlCipher)
                        (
                          some (header ++ sealed),
                          record c { write_counter = (c.write_counter + 1) % 2 ^ 64 },
                        )
                        (some frame, c') =
                      rw (fits, s, encrypt) at e in
                    (
                      ground (arith, fits),
                      sealed,
                      s,
                      sym (
                          some-injective _ _ (ap (λ (o : Option Bytes × ControlCipher). o.0) same)),
                      sym (ap (λ (o : Option Bytes × ControlCipher). o.1) same),
                    )
              ]
      ]

  decrypt_opens :
      (plaintext sealed : Bytes) (c : ControlCipher)
      → length plaintext ≤ 65535
      → length sealed ≡ length plaintext + 16
      → aead.open_sealed c.read_key
          (nonce_for_counter c.read_counter)
          sealed
          (header_of (length plaintext))
        ≡ some plaintext
      → decrypt aead (header_of (length plaintext) ++ sealed) c
        ≡ (some plaintext, record c { read_counter = (c.read_counter + 1) % 2 ^ 64 })
  unfolding decrypt
  decrypt_opens plaintext sealed c short e opened = ground (arith, opened)

  -- The two ends of a channel: same key, same counter.
  abbrev pub ArePaired : ControlCipher → ControlCipher → Type 0
  ArePaired sender receiver =
      (sender.write_key ≡ receiver.read_key) × (sender.write_counter ≡ receiver.read_counter)

  decrypt_one_whole :
      (buffer frame rest plaintext : Bytes) (c c' : ControlCipher)
      → buffer ≡ frame ++ rest
      → length frame ≡ get_or buffer 0 0 + 256 * get_or buffer 1 0 + 18
      → decrypt aead frame c ≡ (some plaintext, c')
      → decrypt_one aead buffer c ≡ (some plaintext, rest, c')
  unfolding decrypt_one
  decrypt_one_whole buffer frame rest plaintext c c' e whole run =
      let size : ℕ = get_or buffer 0 0 + 256 * get_or buffer 1 0 + 18 in
      let total : length buffer ≡ size + length rest =
        ap length e ∙ omega (arith, length-append frame rest) in
      let front : take size buffer ≡ frame =
        ap (take size) e ∙ take-append_length size frame rest whole in
      let behind : drop size buffer ≡ rest =
        ap (drop size) e ∙ drop-append_length size frame rest whole in
      let opened : decrypt aead (take size buffer) c ≡ (some plaintext, c') =
        ap (λ x. decrypt aead x c) front ∙ run in
      ground (
        arith,
        ap (λ (o : Option Bytes × ControlCipher). o.0) opened,
        ap (λ (o : Option Bytes × ControlCipher). o.1) opened,
      )

  -- Over an AEAD that opens what it sealed, a frame that one end encrypted is decrypted from the front
  -- of the buffer by an end with the same key and counter, to the same text; what follows stays in the buffer, and the counters of the two ends agree again.
  pub decrypt_one-encrypt :
      (plaintext frame rest : Bytes) (sender sender' receiver : ControlCipher)
      → ArePaired sender receiver
      → encrypt aead plaintext sender ≡ (some frame, sender')
      → (receiver' : ControlCipher) × (decrypt_one aead (frame ++ rest) receiver
          ≡ (some plaintext, rest, receiver'))
        × ArePaired sender' receiver'
  decrypt_one-encrypt plaintext frame rest sender sender' receiver (key, counter) e =
      let (short, sealed, s, whole, after) = encrypt_frame plaintext frame sender sender' e in
      let header = header_of (length plaintext) in
      let tagged = law.tagged _ _ _ _ _ s in
      let opened : aead.open_sealed receiver.read_key (nonce_for_counter receiver.read_counter)
            sealed header
          ≡ some plaintext =
        rw (sym key, sym counter) (law.opens _ _ _ _ _ s) in
      let receiver' = record receiver { read_counter = (receiver.read_counter + 1) % 2 ^ 64 } in
      let run : decrypt aead frame receiver ≡ (some plaintext, receiver') =
        rw whole (decrypt_opens plaintext sealed receiver short tagged opened) in
      (
        receiver',
        decrypt_one_whole (frame ++ rest) frame rest plaintext receiver receiver' refl
            (rw whole (omega arith)) run,
        rw after (key, ap (λ n. (n + 1) % 2 ^ 64) counter),
      )

  decrypt_one_waits :
      (buffer : Bytes) (c : ControlCipher)
      → (2 ≤ length buffer → length buffer < get_or buffer 0 0 + 256 * get_or buffer 1 0 + 18)
      → decrypt_one aead buffer c ≡ (some [], buffer, c)
  unfolding decrypt_one
  decrypt_one_waits buffer c h = ground (arith, h)

  -- From a proper part of a frame that the other end encrypted, from its beginning, nothing is
  -- decrypted: the answer is the empty text, and buffer and counters stay.
  pub decrypt_one_prefix :
      (plaintext front back : Bytes) (sender sender' receiver : ControlCipher)
      → encrypt aead plaintext sender ≡ (some (front ++ back), sender')
      → 0 < length back
      → decrypt_one aead front receiver ≡ (some [], front, receiver)
  decrypt_one_prefix plaintext front back sender sender' receiver e more =
      let (short, sealed, s, whole, after) =
        encrypt_frame plaintext (front ++ back) sender sender' e in
      let tagged = law.tagged _ _ _ _ _ s in
      decrypt_one_waits front receiver
        (too_short front plaintext sealed back short tagged whole more)
    where
      too_short :
          (front plaintext sealed back : Bytes)
          → length plaintext ≤ 65535
          → length sealed ≡ length plaintext + 16
          → front ++ back ≡ header_of (length plaintext) ++ sealed
          → 0 < length back
          → 2 ≤ length front
          → length front < get_or front 0 0 + 256 * get_or front 1 0 + 18
      too_short [] plaintext sealed back short tagged whole more h = absurd (omega arith)
      too_short (a ∷ []) plaintext sealed back short tagged whole more h = absurd (omega arith)
      too_short (a ∷ b ∷ front) plaintext sealed back short tagged whole more h =
          let first : a ≡ length plaintext % 256 = ap (λ (x : Bytes). get_or x 0 0) whole in
          let second : b ≡ length plaintext / 256 % 256 = ap (λ (x : Bytes). get_or x 1 0) whole in
          omega (arith, ap length whole, length-append front back)
