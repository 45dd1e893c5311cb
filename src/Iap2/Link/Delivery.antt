-- ===== src/Iap2/Link/Delivery.antt =====
-- Which control payloads PhoneLink hands to its owner (handle_packet in src/iap2/link_layer.cpp):
-- those of frames in sequence, each once.
use aa2acp.Base.{
  ℕ, ◌+◌, ◌%◌, ◌≡◌, ◌≢◌, refl, true, false, List, [], ◌∷◌, some, arith, Bytes, is_empty,
  if◌then◌else◌, ◌==◌, ap, IsByte, bit_and, Option-cases, Bool-cases, inl, inr, ◌∙◌, ◌⊎◌,
}
use aa2acp.Iap2.Frame.{Header}
use aa2acp.Iap2.Link.State.{State, Event, sent, delivered, Client, done, send, Environment, Link}
use aa2acp.Iap2.Link.Output.{write_packet, send_ack, send_control, run_client}
use aa2acp.Iap2.Link.Keeps.{Keeps, send_ack-Keeps, run_client-Keeps}
use aa2acp.Iap2.Link.Input.{
  deliver, accept_sequence, forward_data, accept_data, handle_data, handle_acknowledged,
  handle_packet, take_acknowledgement,
}

-- The payloads that the owner was handed, the newest first.
pub payloads : List Event → List Bytes
payloads [] = []
payloads (sent frame accepted ∷ past) = payloads past
payloads (delivered payload ∷ past) = payload ∷ payloads past

-- The link as it was, but for the sequence number of the last frame that was accepted.
pub record Accepts (h : Header) (payload : Bytes) (l l' : Link) : Type 0 where
  pub sequence : l'.last_received_sequence ≡ h.sequence
  pub valid : l'.last_sequence_valid ≡ true
  pub handed : payloads l'.trace ≡ (
      if h.session_id == l.peer_control_session_id
      then payload ∷ payloads l.trace
      else payloads l.trace)

pub record Refuses (l l' : Link) : Type 0 where
  pub sequence : l'.last_received_sequence ≡ l.last_received_sequence
  pub valid : l'.last_sequence_valid ≡ l.last_sequence_valid
  pub handed : payloads l'.trace ≡ payloads l.trace

-- A data frame: the ACK bit alone, and a payload.
pub record IsData (h : Header) (payload : Bytes) : Type 0 where
  pub control : h.control ≡ 0x40
  pub sequence : IsByte h.sequence
  pub nonempty : is_empty payload ≡ false

module _ (env : Environment) where
  write_packet-payloads :
      (payload : Bytes) (sequence control session_id : ℕ) (l : Link)
      → payloads (write_packet env payload sequence control session_id l).trace ≡ payloads l.trace
  unfolding write_packet payloads
  write_packet-payloads payload sequence control session_id l = ground arith

  send_ack-payloads : (l : Link) → payloads (send_ack env l).trace ≡ payloads l.trace
  unfolding send_ack
  send_ack-payloads l = write_packet-payloads _ _ _ _ l

  send_control-payloads :
      (clock : ℕ) (payload : Bytes) (l : Link)
      → payloads (send_control env clock payload l).1.trace ≡ payloads l.trace
  unfolding send_control payloads
  send_control-payloads clock payload l = ground arith

  run_client-payloads :
      (c : Client) (l : Link) → payloads (run_client env c l).trace ≡ payloads l.trace
  unfolding run_client
  run_client-payloads done l = refl
  run_client-payloads (send clock payload continue) l =
      let (answer, l') = send_control env clock payload l in
      run_client-payloads (continue answer) l' ∙ send_control-payloads clock payload l

  deliver-payloads :
      (payload : Bytes) (l : Link) (client : List Event → Bytes → Client)
      → env.control_data ≡ some client
      → payloads (deliver env payload l).trace ≡ payload ∷ payloads l.trace
  unfolding deliver payloads
  deliver-payloads payload l client e = rw (e, deliver) (run_client-payloads _ _)

  deliver-Keeps : (payload : Bytes) (l : Link) → Keeps l (deliver env payload l)
  unfolding deliver
  deliver-Keeps payload l = elim (Option-cases env.control_data) [
    | inl e ↦ rw (e, deliver) (ground arith)
    | inr (client, e) ↦
        rw (e, deliver)
          (ground (
            arith,
            run_client-Keeps env (client l.trace payload)
                (record l { trace = delivered payload ∷ l.trace }),
          ))
  ]

  forward_data-Keeps :
      (h : Header) (payload : Bytes) (l : Link) → Keeps l (forward_data env h payload l)
  unfolding forward_data
  forward_data-Keeps h payload l = ground (arith, deliver-Keeps payload l)

  accept_data-Accepts :
      (h : Header) (payload : Bytes) (l : Link) (client : List Event → Bytes → Client)
      → env.control_data ≡ some client
      → Accepts h payload l (accept_data env h payload l)
  unfolding accept_data forward_data
  accept_data-Accepts h payload l client e =
      let before = accept_sequence h l in
      let after = forward_data env h payload before in
      ground (
        arith,
        forward_data-Keeps h payload before,
        send_ack-Keeps env after,
        send_ack-payloads after,
        deliver-payloads payload before client e,
      )

  send_ack-Refuses : (l : Link) → Refuses l (send_ack env l)
  send_ack-Refuses l = ground (arith, send_ack-Keeps env l, send_ack-payloads l)

  handle_data-Accepts :
      (h : Header) (payload : Bytes) (l : Link) (client : List Event → Bytes → Client)
      → env.control_data ≡ some client
      → l.state ≡ State.normal
      → IsByte l.last_received_sequence
      → h.sequence ≡ (l.last_received_sequence + 1) % 256
      → Accepts h payload l (handle_data env h payload l)
  unfolding handle_data
  handle_data-Accepts h payload l client e n b s =
      ground (arith, accept_data-Accepts h payload l client)

  handle_data-Refuses :
      (h : Header) (payload : Bytes) (l : Link)
      → IsByte l.last_received_sequence
      → IsByte h.sequence
      → l.last_sequence_valid ≡ true
      → h.sequence ≢ (l.last_received_sequence + 1) % 256
      → Refuses l (handle_data env h payload l)
  unfolding handle_data
  handle_data-Refuses h payload l b c v s = ground (arith, send_ack-Refuses l)

  -- An established link that has an owner and has received a sequence number hands the payload of a
  -- data frame (the ACK bit alone, and a nonempty payload) to its owner exactly when the frame carries
  -- the next sequence number (and the control session), and then moves on to that number; any other
  -- data frame leaves the number and the handed payloads.
  pub handle_packet_in_sequence :
      (h : Header) (payload : Bytes) (now : ℕ) (l : Link) (client : List Event → Bytes → Client)
      → env.control_data ≡ some client
      → l.state ≡ State.normal
      → l.last_sequence_valid ≡ true
      → IsByte l.last_received_sequence
      → IsData h payload
      → ((h.sequence ≡ (l.last_received_sequence + 1) % 256)
          × Accepts h payload l (handle_packet env h payload now l))
        ⊎ ((h.sequence ≢ (l.last_received_sequence + 1) % 256)
            × Refuses l (handle_packet env h payload now l))
  unfolding handle_packet handle_acknowledged take_acknowledgement
  handle_packet_in_sequence h payload now l client e n v b d =
      let acked = take_acknowledgement h l in
      let rst = ap (λ (c : ℕ). bit_and c 0x10) d.control in
      let syn = ap (λ (c : ℕ). bit_and c 0x80) d.control in
      let other = ap (λ (c : ℕ). bit_and c 0xbf) d.control in
      elim (Bool-cases (h.sequence == (l.last_received_sequence + 1) % 256)) [
        | inl s ↦ inl (
          ground arith,
          ground (arith, rst, syn, other, handle_data-Accepts h payload acked client),
        )
        | inr s ↦
            inr (ground arith, ground (arith, rst, syn, other, handle_data-Refuses h payload acked))
      ]
