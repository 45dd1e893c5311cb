-- ===== src/Iap2/Link/Output.antt =====
-- The sending half of PhoneLink (src/iap2/link_layer.cpp): packets, the marker, SYN and ACK frames,
-- control messages and their retransmission, `start` and `tick`.
use aa2acp.Base.{
  ℕ, ◌+◌, ◌-◌, ◌%◌, bit_or, Bool, true, false, not, ◌||◌, ◌&&◌, List, [], ◌∷◌, ◌++◌, ltb, leb,
  if◌then◌else◌, length, is_empty, Bytes,
}
use aa2acp.Iap2.Frame.{
  Header, marker, control_syn, control_ack, checksum, encode_lsp, encode_header,
}
use aa2acp.Iap2.Link.State.{
  State, is_negotiate, is_normal, PendingMessage, sent, Client, done, send, Environment, Link,
}

-- `payload.empty() ? 9 : payload.size() + 10`
abbrev pub frame_length : Bytes → ℕ
frame_length payload = if is_empty payload then 9 else length payload + 10

abbrev pub packet_header : Bytes → ℕ → ℕ → ℕ → ℕ → Header
packet_header payload sequence control session_id acknowledgement = record {
  length = frame_length payload % 65536;
  control = control;
  sequence = sequence;
  acknowledgement = acknowledgement;
  session_id = session_id;
}

unfoldable pub encode_packet : Bytes → ℕ → ℕ → ℕ → ℕ → Bytes
encode_packet payload sequence control session_id acknowledgement =
    if not (is_empty payload) && ltb (65535 - 10) (length payload)
    then []
    else if is_empty payload
    then encode_header (packet_header payload sequence control session_id acknowledgement)
    else encode_header (packet_header payload sequence control session_id acknowledgement)
      ++ (payload ++ checksum payload ∷ [])

-- The message that `send_control` makes of a payload, under the next sequence number.
abbrev pub queued_message : ℕ → Bytes → Link → PendingMessage
queued_message clock payload l = record {
  sequence = (l.sent_sequence + 1) % 256;
  frame =
      encode_packet payload ((l.sent_sequence + 1) % 256) control_ack l.peer_control_session_id
        l.last_received_sequence;
  deadline = clock + l.lsp.retransmission_timeout;
  retries = 0;
}

module _ (env : Environment) where
  -- A call of `send_`: the answer, and the link with the call recorded.
  unfoldable pub transmit : Bytes → Link → Bool × Link
  transmit frame l = (
    env.transport l.trace frame,
    record l { trace = sent frame (env.transport l.trace frame) ∷ l.trace },
  )

  unfoldable pub send_marker : Link → Bool × Link
  unfolding transmit
  send_marker l =
      let (accepted, l') = transmit marker l in
      if accepted then (true, l') else (false, record l' { state = State.dead })

  unfoldable pub write_packet : Bytes → ℕ → ℕ → ℕ → Link → Link
  unfolding transmit
  write_packet payload sequence control session_id l =
      let packet = encode_packet payload sequence control session_id l.last_received_sequence in
      let (accepted, l') = transmit packet l in
      if is_empty packet
      then record l { state = State.dead }
      else if accepted
      then l'
      else record l' { state = State.dead }

  -- A SYN that is not outstanding takes the next sequence number.
  abbrev pub claim_syn_sequence : Link → Link
  claim_syn_sequence l = if l.syn_outstanding then l else record l {
    sent_sequence = (l.sent_sequence + 1) % 256;
    syn_sequence = (l.sent_sequence + 1) % 256;
    syn_outstanding = true;
  }

  unfoldable pub send_syn : ℕ → Bool → Link → Link
  send_syn now acknowledge_peer l =
      if not (is_negotiate l.state)
      then l
      else let claimed = claim_syn_sequence l in
        let control = bit_or control_syn (if acknowledge_peer then control_ack else 0) in
        let written = write_packet (encode_lsp l.lsp) claimed.syn_sequence control 0 claimed in
        record written { next_syn = now + 500 }

  unfoldable pub send_ack : Link → Link
  send_ack l = write_packet [] l.sent_sequence control_ack 0 l

  unfoldable pub start : ℕ → Link → Link
  unfolding send_marker
  start now l = elim l.state [
    | State.detect ↦
        let (accepted, l') = send_marker l in
        if accepted then send_syn now false (record l' { state = State.negotiate }) else l'
    | _ ↦ l
  ]

  -- `clock` is what `steady_clock::now()` reads once the frame is sent.
  unfoldable pub send_control : ℕ → Bytes → Link → Bool × Link
  unfolding transmit
  send_control clock payload l =
      if not (is_normal l.state)
        || is_empty payload
        || ltb l.lsp.max_len 10
        || ltb (l.lsp.max_len - 10) (length payload)
      then (false, l)
      else if leb l.lsp.max_outgoing (length l.pending)
      then (false, l)
      else let l1 = record l { sent_sequence = (l.sent_sequence + 1) % 256 } in
        let message = queued_message clock payload l in
        let (accepted, l2) = transmit message.frame l1 in
        if is_empty message.frame
        then (false, record l1 { state = State.dead; pending = [] })
        else if accepted
        then (true, record l2 { pending = l.pending ++ message ∷ [] })
        else (false, record l2 { state = State.dead; pending = [] })

  -- The calls of `send_control` that a callback makes.
  unfoldable pub run_client : Client → Link → Link
  run_client done l = l
  run_client (send clock payload continue) l =
      let (answer, l') = send_control clock payload l in run_client (continue answer) l'

  -- The loop over `pending_` in `tick`; `kept` are the messages before the current one.
  unfoldable pub retransmit : ℕ → List PendingMessage → List PendingMessage → Link → Link
  unfolding transmit
  retransmit now kept [] l = record l { pending = kept }
  retransmit now kept (m ∷ ms) l =
      let m' = record m {
        retries = m.retries + 1;
        deadline = now + l.lsp.retransmission_timeout;
      } in
      let (accepted, l') = transmit m.frame l in
      let waiting = retransmit now (kept ++ m ∷ []) ms l in
      let resent = retransmit now (kept ++ m' ∷ []) ms l' in
      if ltb now m.deadline
      then waiting
      else if leb l.lsp.max_retransmissions m.retries
      then record l { state = State.dead; pending = [] }
      else if accepted
      then resent
      else record l' { state = State.dead; pending = [] }

  unfoldable pub tick : ℕ → Link → Link
  unfolding send_marker
  tick now l = elim l.state [
    | State.dead ↦ l
    | State.detect ↦
        let (accepted, l') = send_marker l in
        if ltb now l.next_marker
        then retransmit now [] l.pending l
        else if accepted
        then retransmit now [] l.pending (record l' { next_marker = now + 1000 })
        else l'
    | State.negotiate ↦
        let l' = send_syn now false l in
        if ltb now l.next_syn then retransmit now [] l.pending l else retransmit now [] l.pending l'
    | State.normal ↦ retransmit now [] l.pending l
  ]
