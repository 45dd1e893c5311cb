-- ===== src/Iap2/Link/Framing.antt =====
-- PhoneLink finds the frames that `encode_packet` wrote in the bytes it receives
-- (src/iap2/link_layer.cpp).
use aa2acp.Base.{
  ℕ, ◌+◌, ◌-◌, ◌≤◌, ◌≡◌, ◌≢◌, refl, sym, ap, ◌∙◌, true, false, [], ◌∷◌, ◌++◌, append_assoc, some,
  arith, length, length-append, take, drop, take-append_length, drop-append_length, All, Bytes, ltb,
  le→ltb, lt→ltb, get_or,
}
use aa2acp.Iap2.Frame.{Header, checksum, encode_header, decode_header}
use aa2acp.Iap2.Frame.Checksum.{has_valid_checksum-append}
use aa2acp.Iap2.Frame.RoundTrip.{IsHeader, decode_header-encode_header}
use aa2acp.Iap2.Link.State.{Environment, Link}
use aa2acp.Iap2.Link.Output.{frame_length, packet_header, encode_packet}
use aa2acp.Iap2.Link.Input.{
  handle_packet, continues, find_start, process_frame, process_start, process_round,
  process_packets,
}
use aa2acp.Iap2.Link.Termination.{process_packets-continues}

-- Bytes that cannot begin a frame.
abbrev pub IsNoise : Bytes → Type 0
IsNoise = All (λ b. b ≢ 0xff)

find_start-append :
    (noise : Bytes) (second : ℕ) (rest : Bytes)
    → IsNoise noise
    → find_start (noise ++ 0xff ∷ second ∷ rest) ≡ some (0xff ∷ second ∷ rest)
unfolding find_start
find_start-append [] second rest h = refl
find_start-append (a ∷ []) second rest h = ground (arith, h.0)
find_start-append (a ∷ b ∷ noise) second rest h =
    ground (arith, h.0, find_start-append (b ∷ noise) second rest h.1)

length-encode_header : (h : Header) → length (encode_header h) ≡ 9
unfolding encode_header
length-encode_header h = refl

module _ (sequence control session_id acknowledgement : ℕ) where
  abbrev header : Bytes → Header
  header payload = packet_header payload sequence control session_id acknowledgement

  abbrev packet : Bytes → Bytes
  packet payload = encode_packet payload sequence control session_id acknowledgement

  packet-nil : packet [] ≡ encode_header (header [])
  unfolding encode_packet
  packet-nil = refl

  packet-cons :
      (b : ℕ) (bs : Bytes)
      → length (b ∷ bs) ≤ 65525
      → packet (b ∷ bs) ≡ encode_header (header (b ∷ bs)) ++ ((b ∷ bs) ++ checksum (b ∷ bs) ∷ [])
  unfolding encode_packet
  packet-cons b bs h = rw (le→ltb 65525 (length (b ∷ bs)) h)

  header-IsHeader : (payload : Bytes) → length payload ≤ 65525 → IsHeader (header payload)
  header-IsHeader [] h = omega arith
  header-IsHeader (b ∷ bs) h = omega arith

module _ (env : Environment) (now : ℕ) where
  -- A header at the front of the buffer is decoded.
  process_start-encode_header :
      (h : Header) (rest : Bytes) (l : Link)
      → IsHeader h
      → process_start env now (record l { receive_buffer = encode_header h ++ rest })
        ≡ process_frame env h now (record l { receive_buffer = encode_header h ++ rest })
  unfolding process_start
  process_start-encode_header h rest l v =
      let decoded : decode_header (take 9 (encode_header h ++ rest)) ≡ some h =
        rw (take-append_length 9 (encode_header h) rest (length-encode_header h))
          (decode_header-encode_header h v) in
      let second : get_or (encode_header h ++ rest) 1 0 ≡ 0x5a = unfold encode_header in refl in
      let long : ltb (length (encode_header h ++ rest)) 9 ≡ false =
        le→ltb _ _ (omega (arith, length-append (encode_header h) rest, length-encode_header h)) in
      rw (decoded, second, long)

  -- A whole frame at the front of the buffer is handled, and what follows it stays.
  process_frame-packet :
      (h : Header) (b : ℕ) (bs rest : Bytes) (l : Link)
      → h.length ≡ length (b ∷ bs) + 10
      → h.length ≤ l.lsp.max_len
      → process_frame env h now (record l {
        receive_buffer = encode_header h ++ (((b ∷ bs) ++ checksum (b ∷ bs) ∷ []) ++ rest);
      })
        ≡ continues (handle_packet env h (b ∷ bs) now (record l { receive_buffer = rest }))
  unfolding process_frame
  process_frame-packet h b bs rest l e fits =
      let payload : Bytes = b ∷ bs in
      let tail : Bytes = payload ++ checksum payload ∷ [] in
      let buffer : Bytes = encode_header h ++ (tail ++ rest) in
      let tail_length : length tail ≡ h.length - 9 =
        omega (arith, length-append payload (checksum payload ∷ [])) in
      let whole : length buffer ≡ h.length + length rest = omega (
        arith,
        length-append (encode_header h) (tail ++ rest),
        length-append tail rest,
        length-encode_header h,
      ) in
      let within : ltb l.lsp.max_len h.length ≡ false = le→ltb _ _ fits in
      let present : ltb (length buffer) h.length ≡ false = le→ltb _ _ (omega arith) in
      let has_tail : ltb 9 h.length ≡ true = lt→ltb _ _ (omega arith) in
      let at_tail : drop 9 buffer ≡ tail ++ rest =
        drop-append_length 9 (encode_header h) (tail ++ rest) (length-encode_header h) in
      let body : take (h.length - 9) (tail ++ rest) ≡ tail =
        take-append_length (h.length - 9) tail rest tail_length in
      let inside : take (h.length - 10) tail ≡ payload =
        take-append_length (h.length - 10) payload (checksum payload ∷ []) (omega arith) in
      let behind : drop h.length buffer ≡ rest =
        ap (drop h.length) (sym (append_assoc (encode_header h) tail rest))
        ∙ drop-append_length h.length (encode_header h ++ tail) rest
            (omega (arith, length-append (encode_header h) tail, length-encode_header h)) in
      rw (
        within,
        present,
        has_tail,
        at_tail,
        body,
        inside,
        behind,
        has_valid_checksum-append payload,
      )

  process_frame-empty :
      (h : Header) (rest : Bytes) (l : Link)
      → h.length ≡ 9
      → h.length ≤ l.lsp.max_len
      → process_frame env h now (record l { receive_buffer = encode_header h ++ rest })
        ≡ continues (handle_packet env h [] now (record l { receive_buffer = rest }))
  unfolding process_frame
  process_frame-empty h rest l e fits =
      let buffer : Bytes = encode_header h ++ rest in
      let within : ltb l.lsp.max_len h.length ≡ false = le→ltb _ _ fits in
      let present : ltb (length buffer) h.length ≡ false =
        le→ltb _ _ (omega (arith, length-append (encode_header h) rest, length-encode_header h)) in
      let has_tail : ltb 9 h.length ≡ false = le→ltb _ _ (omega arith) in
      let behind : drop h.length buffer ≡ rest =
        drop-append_length h.length (encode_header h) rest
          (omega (arith, length-encode_header h)) in
      rw (within, present, has_tail, behind)

  -- A header behind noise is where the round begins.
  process_round-encode_header :
      (noise : Bytes) (h : Header) (rest : Bytes) (l : Link)
      → IsNoise noise
      → IsHeader h
      → process_round env now (record l { receive_buffer = noise ++ (encode_header h ++ rest) })
        ≡ process_frame env h now (record l { receive_buffer = encode_header h ++ rest })
  unfolding process_round
  process_round-encode_header noise h rest l quiet v =
      let long : ltb (length (noise ++ (encode_header h ++ rest))) 9 ≡ false = le→ltb _ _ (
        omega (
          arith,
          length-append noise (encode_header h ++ rest),
          length-append (encode_header h) rest,
          length-encode_header h,
        )) in
      let found : find_start (noise ++ (encode_header h ++ rest)) ≡ some (encode_header h ++ rest) =
        unfold encode_header in find_start-append noise _ _ quiet in
      rw (long, found) (process_start-encode_header h rest l v)

  module _ (sequence control session_id acknowledgement : ℕ) where
    -- Behind any bytes that cannot begin a frame, a frame that `encode_packet` wrote for a payload
    -- of at most 65525 bytes, and that keeps to the negotiated length, is taken from the buffer
    -- whole and handled with that payload, and processing goes on with what follows it.
    pub process_packets-encode_packet :
        (noise payload rest : Bytes) (l : Link)
        → IsNoise noise
        → length payload ≤ 65525
        → frame_length payload ≤ l.lsp.max_len
        → process_packets env now (record l {
          receive_buffer =
              noise ++ (encode_packet payload sequence control session_id acknowledgement ++ rest);
        })
          ≡ process_packets env now (
              handle_packet env
                (packet_header payload sequence control session_id acknowledgement)
                payload
                now
                (record l { receive_buffer = rest }))
    process_packets-encode_packet noise [] rest l quiet short fits =
        let h = header sequence control session_id acknowledgement [] in
        rw (packet-nil sequence control session_id acknowledgement) (
          process_packets-continues env now _ _ (
            process_round-encode_header noise h rest l quiet (omega arith)
            ∙ process_frame-empty h rest l refl fits))
    process_packets-encode_packet noise (b ∷ bs) rest l quiet short fits =
        let h = header sequence control session_id acknowledgement (b ∷ bs) in
        let tail : Bytes = (b ∷ bs) ++ checksum (b ∷ bs) ∷ [] in
        let exact : h.length ≡ length (b ∷ bs) + 10 = omega arith in
        rw
          (
            packet-cons sequence control session_id acknowledgement b bs short,
            append_assoc (encode_header h) tail rest,
          )
          (process_packets-continues env now _ _ (
            process_round-encode_header noise h (tail ++ rest) l quiet
              (header-IsHeader sequence control session_id acknowledgement (b ∷ bs) short)
            ∙ process_frame-packet h b bs rest l exact (omega arith)))
