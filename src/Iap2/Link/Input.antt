-- ===== src/Iap2/Link/Input.antt =====
-- The receiving half of PhoneLink (src/iap2/link_layer.cpp): the receive buffer, the search for
-- frames in it, and what each frame does.
use aa2acp.Base.{
  ℕ, zero, suc, ◌-◌, ◌*◌, min, max, bit_and, Bool, true, false, not, ◌||◌, ◌&&◌, List, [], ◌∷◌,
  ◌++◌, Option, none, some, ltb, ◌==◌, if◌then◌else◌, length, get_or, take, drop, is_empty, Bytes,
}
use aa2acp.Iap2.Frame.{
  Session, Lsp, Header, marker, control_syn, control_ack, control_rst, has_valid_checksum,
  decode_lsp, decode_header,
}
use aa2acp.Iap2.Link.State.{
  State, is_negotiate, is_normal, PendingMessage, delivered, Environment, Link, sequence_sub,
  acknowledged_by,
}
use aa2acp.Iap2.Link.Output.{send_syn, send_ack, run_client}

abbrev pub max_receive_buffer : ℕ
max_receive_buffer = 128 * 1024

unfoldable pub starts_with : Bytes → Bytes → Bool
starts_with [] bytes = true
starts_with (p ∷ ps) [] = false
starts_with (p ∷ ps) (b ∷ bs) = p == b && starts_with ps bs

-- `std::search` for `kMarker`: what follows its first occurrence.
unfoldable pub after_marker : Bytes → Option Bytes
unfolding starts_with
after_marker [] = none
after_marker (b ∷ bs) =
    if starts_with marker (b ∷ bs) then some (drop (length marker) (b ∷ bs)) else after_marker bs

-- `std::erase_if(pending_, acknowledged_by ...)`
unfoldable pub erase_acknowledged : ℕ → List PendingMessage → List PendingMessage
erase_acknowledged acknowledgement [] = []
erase_acknowledged acknowledgement (m ∷ ms) =
    if acknowledged_by m.sequence acknowledgement
    then erase_acknowledged acknowledgement ms
    else m ∷ erase_acknowledged acknowledgement ms

-- The first session of type 0, the control session, else the given default.
unfoldable pub control_session : List Session → ℕ → ℕ
control_session [] default = default
control_session (s ∷ ss) default = if s.type == 0 then s.id else control_session ss default

-- The clamps that `handle_packet` puts on a received LSP.
unfoldable pub clamp_lsp : Lsp → Lsp
clamp_lsp received = record received {
  retransmission_timeout = max received.retransmission_timeout 100;
  max_outgoing = min (max received.max_outgoing 1) 128;
  max_retransmissions = max received.max_retransmissions 1;
  ack_timeout = max received.ack_timeout 50;
}

-- The cumulative acknowledgement that a frame carries.
unfoldable pub take_acknowledgement : Header → Link → Link
take_acknowledgement header l =
    if not (bit_and header.control control_ack == 0) && not (is_empty l.pending)
    then record l { pending = erase_acknowledged header.acknowledgement l.pending }
    else l

abbrev pub accept_sequence : Header → Link → Link
accept_sequence header l = record l {
  last_sequence_valid = true;
  last_received_sequence = header.sequence;
}

module _ (env : Environment) where
  unfoldable pub adopt_lsp : Header → Lsp → ℕ → Link → Link
  adopt_lsp header received now l = send_syn env now true (record l {
    lsp = clamp_lsp received;
    peer_control_session_id = control_session received.sessions l.peer_control_session_id;
    last_sequence_valid = true;
    last_received_sequence = header.sequence;
  })

  -- A frame with the SYN bit.
  unfoldable pub handle_syn : Header → Bytes → ℕ → Link → Link
  handle_syn header payload now l =
      if is_normal l.state
      then send_ack env l
      else elim (decode_lsp payload) [ none ↦ l | some received ↦ adopt_lsp header received now l ]

  -- A frame with the ACK bit while the link negotiates.
  unfoldable pub handle_handshake_ack : Header → Link → Link
  handle_handshake_ack header l =
      if l.syn_outstanding && acknowledged_by l.syn_sequence header.acknowledgement
      then record l { syn_outstanding = false; state = State.normal }
      else l

  -- A call of `control_data_`, with what the owner does in it.
  unfoldable pub deliver : Bytes → Link → Link
  deliver payload l = elim env.control_data [
    | none ↦ l
    | some client ↦
        run_client env (client l.trace payload) (record l { trace = delivered payload ∷ l.trace })
  ]

  -- The payload of an accepted frame goes to the owner if it is of the control session.
  unfoldable pub forward_data : Header → Bytes → Link → Link
  forward_data header payload l =
      if header.session_id == l.peer_control_session_id then deliver payload l else l

  -- A frame of the next sequence number.
  unfoldable pub accept_data : Header → Bytes → Link → Link
  accept_data header payload l =
      send_ack env (forward_data header payload (accept_sequence header l))

  unfoldable pub handle_data : Header → Bytes → Link → Link
  handle_data header payload l =
      let ahead = sequence_sub header.sequence l.last_received_sequence in
      if not (is_normal l.state)
      then l
      else if l.last_sequence_valid
          && not (header.sequence == l.last_received_sequence)
          && ltb 128 ahead
      then send_ack env l
      else if l.last_sequence_valid && ltb 1 ahead
      then send_ack env l
      else if l.last_sequence_valid && header.sequence == l.last_received_sequence
      then send_ack env l
      else accept_data header payload l

  -- `handle_packet` behind the test for a reset.
  unfoldable pub handle_acknowledged : Header → Bytes → ℕ → Link → Link
  handle_acknowledged header payload now l =
      if not (bit_and header.control control_syn == 0)
      then handle_syn header payload now l
      else if not (bit_and header.control control_ack == 0) && is_negotiate l.state
      then handle_handshake_ack header l
      else if bit_and header.control 0xbf == 0 && not (is_empty payload)
      then handle_data header payload l
      else l

  unfoldable pub handle_packet : Header → Bytes → ℕ → Link → Link
  handle_packet header payload now l =
      if not (bit_and header.control control_rst == 0)
      then record l {
        state = State.dead;
        pending = [];
        syn_outstanding = false;
        receive_buffer = [];
      }
      else handle_acknowledged header payload now (take_acknowledgement header l)

-- How a round of the loop of `process_packets` ends: by a return, or by going on.
pub data Round : Type 0 where
  returns : Link → Round
  continues : Link → Round

-- `std::find_if` for 0xff over all but the last byte: what begins there.
unfoldable pub find_start : Bytes → Option Bytes
find_start (a ∷ b ∷ rest) = if a == 0xff then some (a ∷ b ∷ rest) else find_start (b ∷ rest)
find_start _ = none

module _ (env : Environment) where
  -- The frame of a decoded header at the front of the buffer.
  unfoldable pub process_frame : Header → ℕ → Link → Round
  process_frame header now l =
      let buffer = l.receive_buffer in
      let body = take (header.length - 9) (drop 9 buffer) in
      let erased = record l { receive_buffer = drop header.length buffer } in
      if ltb l.lsp.max_len header.length
      then returns (record l { state = State.dead; receive_buffer = [] })
      else if ltb (length buffer) header.length
      then returns l
      else if ltb 9 header.length
      then (if has_valid_checksum body
          then continues (handle_packet env header (take (header.length - 10) body) now erased)
          else continues erased)
      else continues (handle_packet env header [] now erased)

  -- A start byte at the front of the buffer. The source tests the size again only where bytes were
  -- erased; else it is at least nine.
  unfoldable pub process_start : ℕ → Link → Round
  process_start now l =
      let buffer = l.receive_buffer in
      let skipped = record l { receive_buffer = drop 1 buffer } in
      if not (get_or buffer 1 0 == 0x5a)
      then continues skipped
      else if ltb (length buffer) 9
      then returns l
      else elim (decode_header (take 9 buffer)) [
        | none ↦ continues skipped
        | some header ↦ process_frame header now l
      ]

  unfoldable pub process_round : ℕ → Link → Round
  process_round now l =
      let buffer = l.receive_buffer in
      if ltb (length buffer) 9 then returns l else elim (find_start buffer) [
        | none ↦ returns (record l { receive_buffer = drop (length buffer - 1) buffer })
        | some found ↦ process_start now (record l { receive_buffer = found })
      ]

  -- The loop, on fuel: none is left over where the result is `none`.
  unfoldable pub process_packets_loop : ℕ → ℕ → Link → Option Link
  process_packets_loop zero now l = none
  process_packets_loop (suc fuel) now l = elim (process_round now l) [
    | returns l' ↦ some l'
    | continues l' ↦ process_packets_loop fuel now l'
  ]

  -- Every round that goes on erases a byte at least.
  unfoldable pub process_packets : ℕ → Link → Option Link
  process_packets now l = process_packets_loop (suc (length l.receive_buffer)) now l

  -- No marker yet: the last five bytes may begin one. Five is `kMarker.size() - 1`.
  unfoldable pub keep_marker_tail : Bytes → Link → Link
  keep_marker_tail bytes l =
      let buffer = l.receive_buffer in
      record l {
        detect_dump_logged = l.detect_dump_logged || (not (is_empty bytes) && env.has_log);
        receive_buffer = if ltb 5 (length buffer) then drop (length buffer - 5) buffer else buffer;
      }

  -- What `receive` does once the bytes are in the buffer; it goes on to `process_packets`.
  unfoldable pub search_marker : State → Bytes → ℕ → Link → Round
  search_marker State.detect bytes now l = elim (after_marker l.receive_buffer) [
    | none ↦ returns (keep_marker_tail bytes l)
    | some rest ↦
        continues
          (send_syn env now false (record l { receive_buffer = rest; state = State.negotiate }))
  ]
  search_marker _ bytes now l = continues l

  -- `receive` up to its call of `process_packets`.
  unfoldable pub buffer_bytes : Bytes → ℕ → Link → Round
  buffer_bytes bytes now l =
      let buffer = l.receive_buffer in
      if ltb max_receive_buffer (length buffer)
        || ltb (max_receive_buffer - length buffer) (length bytes)
      then returns (record l { state = State.dead; receive_buffer = [] })
      else search_marker l.state bytes now (record l { receive_buffer = buffer ++ bytes })

  unfoldable pub receive : Bytes → ℕ → Link → Option Link
  receive bytes now l = elim (buffer_bytes bytes now l) [
    | returns l' ↦ some l'
    | continues l' ↦ process_packets now l'
  ]
