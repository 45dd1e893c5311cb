-- ===== src/Iap2/Link/Termination.antt =====
-- The loop of PhoneLink::process_packets (src/iap2/link_layer.cpp) ends.
use aa2acp.Base.{
  ℕ, zero, suc, ◌≤◌, ◌<◌, ◌≡◌, refl, ap, true, [], ◌∷◌, some, arith, length, length-drop, take,
  Bytes, Option-cases, ◌⊎◌, inl, inr,
}
use aa2acp.Iap2.Frame.{Header, Lsp, decode_header}
use aa2acp.Iap2.Frame.RoundTrip.{decode_header-IsHeader}
use aa2acp.Iap2.Link.State.{Environment, Link}
use aa2acp.Iap2.Link.Keeps.{send_ack-Keeps, send_syn-Keeps, run_client-Keeps}
use aa2acp.Iap2.Link.Input.{
  take_acknowledgement, adopt_lsp, handle_syn, handle_handshake_ack, deliver, accept_sequence,
  forward_data, accept_data, handle_data, handle_acknowledged, handle_packet, Round, returns,
  continues, find_start, process_frame, process_start, process_round, process_packets_loop,
  process_packets, buffer_bytes, receive,
}

abbrev size : Link → ℕ
size l = length l.receive_buffer

pub Round-cases : (r : Round) → ((l : Link) × (r ≡ returns l)) ⊎ ((l : Link) × (r ≡ continues l))
Round-cases (returns l) = inl (l, refl)
Round-cases (continues l) = inr (l, refl)

module _ (env : Environment) where
  adopt_lsp-size :
      (h : Header) (r : Lsp) (now : ℕ) (l : Link) → size (adopt_lsp env h r now l) ≡ size l
  unfolding adopt_lsp
  adopt_lsp-size h r now l = ap length (send_syn-Keeps env now true _).same_buffer

  deliver-size : (payload : Bytes) (l : Link) → size (deliver env payload l) ≡ size l
  unfolding deliver
  deliver-size payload l = elim (Option-cases env.control_data) [
    | inl e ↦ rw (e, deliver)
    | inr (client, e) ↦ rw (e, deliver) (ap length (run_client-Keeps env _ _).same_buffer)
  ]

  forward_data-size :
      (h : Header) (payload : Bytes) (l : Link) → size (forward_data env h payload l) ≡ size l
  unfolding forward_data
  forward_data-size h payload l = ground (arith, deliver-size payload l)

  accept_data-size :
      (h : Header) (payload : Bytes) (l : Link) → size (accept_data env h payload l) ≡ size l
  unfolding accept_data
  accept_data-size h payload l =
      grind (arith, send_ack-Keeps, forward_data-size h payload (accept_sequence h l))

  handle_data-size :
      (h : Header) (payload : Bytes) (l : Link) → size (handle_data env h payload l) ≡ size l
  unfolding handle_data
  handle_data-size h payload l = grind (arith, accept_data-size, send_ack-Keeps)

  handle_syn-size :
      (h : Header) (payload : Bytes) (now : ℕ) (l : Link)
      → size (handle_syn env h payload now l) ≡ size l
  unfolding handle_syn
  handle_syn-size h payload now l = grind (arith, adopt_lsp-size, send_ack-Keeps)

  handle_acknowledged-size :
      (h : Header) (payload : Bytes) (now : ℕ) (l : Link)
      → size (handle_acknowledged env h payload now l) ≡ size l
  unfolding handle_acknowledged handle_handshake_ack
  handle_acknowledged-size h payload now l =
      ground (arith, handle_syn-size h payload now l, handle_data-size h payload l)

  handle_packet-size :
      (h : Header) (payload : Bytes) (now : ℕ) (l : Link)
      → size (handle_packet env h payload now l) ≤ size l
  unfolding handle_packet take_acknowledgement
  handle_packet-size h payload now l = grind (arith, handle_acknowledged-size)

  find_start-length : (bs found : Bytes) → find_start bs ≡ some found → length found ≤ length bs
  unfolding find_start
  find_start-length [] found e = cc
  find_start-length (a ∷ []) found e = cc
  find_start-length (a ∷ b ∷ rest) found e = ground (arith, find_start-length (b ∷ rest) found)

  find_start-pos : (bs found : Bytes) → find_start bs ≡ some found → 0 < length found
  unfolding find_start
  find_start-pos [] found e = cc
  find_start-pos (a ∷ []) found e = cc
  find_start-pos (a ∷ b ∷ rest) found e = ground (arith, find_start-pos (b ∷ rest) found)

  Shrinks : ℕ → Round → Type 0
  Shrinks n (returns l) = Unit {0}
  Shrinks n (continues l) = size l < n

  process_frame-Shrinks :
      (h : Header) (now : ℕ) (l : Link)
      → 9 ≤ h.length
      → Shrinks (size l) (process_frame env h now l)
  unfolding process_frame Shrinks
  process_frame-Shrinks h now l least = grind (arith, handle_packet-size, length-drop)

  process_start-Shrinks :
      (now : ℕ) (l : Link) → 0 < size l → Shrinks (size l) (process_start env now l)
  unfolding process_start Shrinks
  process_start-Shrinks now l pos = elim (Option-cases (decode_header (take 9 l.receive_buffer))) [
    | inl e ↦ rw (e, process_start) (ground (arith, length-drop 1 l.receive_buffer))
    | inr (h, e) ↦
        rw (e, process_start)
          (ground (
            arith,
            length-drop 1 l.receive_buffer,
            process_frame-Shrinks h now l,
            decode_header-IsHeader (take 9 l.receive_buffer) h,
          ))
  ]

  Shrinks-mono : (m n : ℕ) (r : Round) → m ≤ n → Shrinks m r → Shrinks n r
  unfolding Shrinks
  Shrinks-mono m n (returns l) h s = tt
  Shrinks-mono m n (continues l) h s = omega arith

  process_round-Shrinks : (now : ℕ) (l : Link) → Shrinks (size l) (process_round env now l)
  unfolding process_round Shrinks
  process_round-Shrinks now l = elim (Option-cases (find_start l.receive_buffer)) [
    | inl e ↦ rw (e, process_round) (ground arith)
    | inr (found, e) ↦
        rw (e, process_round)
          (ground (
            arith,
            Shrinks-mono (length found) (size l)
                (process_start env now (record l { receive_buffer = found })),
            process_start-Shrinks now (record l { receive_buffer = found }),
            find_start-length l.receive_buffer found e,
            find_start-pos l.receive_buffer found e,
          ))
  ]

  -- A round that goes on leaves a shorter buffer.
  continues-size :
      (now : ℕ) (l : Link) {l' : Link} → process_round env now l ≡ continues l' → size l' < size l
  unfolding Shrinks
  continues-size now l e = rw e at (process_round-Shrinks now l)

  process_packets_loop_total :
      (fuel now : ℕ) (l : Link)
      → size l < fuel
      → (l' : Link) × (process_packets_loop env fuel now l ≡ some l')
  unfolding process_packets_loop
  process_packets_loop_total zero now l h = absurd (omega arith)
  process_packets_loop_total (suc fuel) now l h = elim (Round-cases (process_round env now l)) [
    | inl (l', e) ↦ (l', rw (e, process_packets_loop))
    | inr (l', e) ↦
        rw (e, process_packets_loop)
          (process_packets_loop_total fuel now l' (omega (arith, continues-size now l e)))
  ]

  process_packets_loop_fuel :
      (f g now : ℕ) (l : Link)
      → size l < f
      → size l < g
      → process_packets_loop env f now l ≡ process_packets_loop env g now l
  unfolding process_packets_loop
  process_packets_loop_fuel zero g now l h k = absurd (omega arith)
  process_packets_loop_fuel (suc f) zero now l h k = absurd (omega arith)
  process_packets_loop_fuel (suc f) (suc g) now l h k =
      elim (Round-cases (process_round env now l)) [
        | inl (l', e) ↦ rw (e, process_packets_loop)
        | inr (l', e) ↦
            rw (e, process_packets_loop)
              (process_packets_loop_fuel f g now l' (omega (arith, continues-size now l e))
                (omega (arith, continues-size now l e)))
      ]

  pub process_packets_total :
      (now : ℕ) (l : Link) → (l' : Link) × (process_packets env now l ≡ some l')
  unfolding process_packets
  process_packets_total now l = process_packets_loop_total _ now l (omega arith)

  pub process_packets-returns :
      (now : ℕ) (l l' : Link)
      → process_round env now l ≡ returns l'
      → process_packets env now l ≡ some l'
  unfolding process_packets process_packets_loop
  process_packets-returns now l l' e = rw (e, process_packets_loop)

  pub process_packets-continues :
      (now : ℕ) (l l' : Link)
      → process_round env now l ≡ continues l'
      → process_packets env now l ≡ process_packets env now l'
  unfolding process_packets process_packets_loop
  process_packets-continues now l l' e =
      rw (e, process_packets_loop)
        (process_packets_loop_fuel (size l) (suc (size l')) now l' (continues-size now l e)
          (omega arith))

  -- Every received chunk is processed to the end, whatever it holds: the loop of `process_packets`
  -- never runs out of rounds.
  pub receive_total :
      (bytes : Bytes) (now : ℕ) (l : Link) → (l' : Link) × (receive env bytes now l ≡ some l')
  unfolding receive
  receive_total bytes now l = elim (Round-cases (buffer_bytes env bytes now l)) [
    | inl (l', e) ↦ (l', rw (e, receive))
    | inr (l', e) ↦ rw (e, receive) (process_packets_total now l')
  ]
