-- ===== src/Iap2/Link/Tests.antt =====
-- Runs of PhoneLink, and the theorems at concrete inputs. The handshake is that of
-- `test_negotiation` in tests/link_layer_tests.cpp.
use aa2acp.Base.{
  Bool, ℕ, ◌+◌, ◌-◌, ◌%◌, ◌≡◌, ◌≢◌, ◌↔◌, ◌⊎◌, refl, true, false, [], ◌∷◌, ◌++◌, Option, some, none,
  arith, drop, length,
}
use aa2acp.Iap2.Frame.{
  Lsp, Header, default_lsp, control_ack, control_syn, sum_bytes, checksum, encode_sessions,
  encode_lsp, decode_lsp, encode_header, decode_header, has_valid_checksum,
}
use aa2acp.Iap2.Link.State.{State, PendingMessage, done, Environment, Link, new_link, sequence_sub}
use aa2acp.Iap2.Link.Output.{
  packet_header, encode_packet, write_packet, send_syn, start, send_control, tick,
}
use aa2acp.Iap2.Link.Input.{
  starts_with, after_marker, control_session, clamp_lsp, erase_acknowledged, take_acknowledgement,
  adopt_lsp, handle_syn, handle_handshake_ack, handle_acknowledged, handle_packet, find_start,
  process_frame, process_start, process_round, process_packets_loop, process_packets, search_marker,
  buffer_bytes, keep_marker_tail, receive,
}
use aa2acp.Iap2.Link.Termination.{receive_total}
use aa2acp.Iap2.Link.Steps.{here, next, starts, ticks, sends}
use aa2acp.Iap2.Link.Window.{HasWindow, Reach-HasWindow}
use aa2acp.Iap2.Link.Lifecycle.{Reach-dead}
use aa2acp.Iap2.Link.Handshake.{
  AcknowledgesSyn, handle_packet_establishes, IsAdopted, handle_packet-IsAdopted,
}
use aa2acp.Iap2.Link.Delivery.{Accepts, Refuses, handle_packet_in_sequence}
use aa2acp.Iap2.Link.Acknowledge.{
  erase_acknowledged_lem, MaySend, IsHeldBack, is_taken, Queues, send_control_cases,
}
use aa2acp.Iap2.Link.Retransmission.{Resent, GaveUp, tick_cases}
use aa2acp.Iap2.Link.Framing.{process_packets-encode_packet}

-- A transport that takes every frame, and an owner that only listens.
abbrev open_world : Environment
open_world = record {
  transport = λ past frame. true;
  has_log = false;
  control_data = some (λ past payload. done);
}

-- The link after `start`.
abbrev started : Link
started = start open_world 0 new_link

abbrev accessory_lsp : Lsp
accessory_lsp = record default_lsp { max_outgoing = 0; max_retransmissions = 5 }

abbrev accessory_syn : Header
accessory_syn = packet_header (encode_lsp accessory_lsp) 3 control_syn 0 100

abbrev accessory_ack : Header
accessory_ack = packet_header [] 4 control_ack 0 100

abbrev data_header : ℕ → Header
data_header sequence = packet_header (7 ∷ []) sequence control_ack 10 100

-- A link that the accessory has acknowledged, after the accessory's frame 3, with one message.
abbrev waiting_message : PendingMessage
waiting_message = record { sequence = 100; frame = 1 ∷ []; deadline = 200; retries = 0 }

abbrev established : Link
established = record new_link {
  state = State.normal;
  lsp = record default_lsp { max_retransmissions = 5; retransmission_timeout = 100 };
  sent_sequence = 100;
  last_received_sequence = 3;
  last_sequence_valid = true;
  pending = waiting_message ∷ [];
}

abbrev negotiating : Link
negotiating = record new_link {
  state = State.negotiate;
  sent_sequence = 100;
  syn_sequence = 100;
  syn_outstanding = true;
}

abbrev link_of : Option Link → Link
link_of (some l) = l
link_of none = new_link

-- The whole handshake, on bytes: the accessory's SYN, then its ACK of ours.
handshake_runs :
    (link_of (
      receive open_world (encode_packet [] 4 control_ack 0 100) 0 (
        link_of (
          receive open_world
            (encode_packet (encode_lsp accessory_lsp) 3 control_syn 0 100)
            0
            started)))).state
    ≡ State.normal
unfolding receive buffer_bytes search_marker process_packets process_packets_loop process_round
    process_start process_frame find_start handle_packet handle_acknowledged take_acknowledgement
    handle_syn handle_handshake_ack adopt_lsp clamp_lsp control_session start send_syn write_packet
    encode_packet encode_header decode_header has_valid_checksum checksum sum_bytes encode_lsp
    encode_sessions decode_lsp
handshake_runs = refl

-- A marker that arrives in two pieces.
split_marker_runs :
    (link_of (
      receive open_world
        (0xee ∷ 0x10 ∷ [])
        0
        (link_of (receive open_world (9 ∷ 0xff ∷ 0x55 ∷ 0x02 ∷ 0x00 ∷ []) 0 new_link)))).state
    ≡ State.negotiate
unfolding receive buffer_bytes search_marker keep_marker_tail after_marker starts_with
    process_packets process_packets_loop process_round send_syn write_packet encode_packet
    encode_header checksum sum_bytes encode_lsp encode_sessions
split_marker_runs = refl

receive_total_example :
    (l : Link) × (receive open_world (encode_packet [] 4 control_ack 0 100) 0 negotiating ≡ some l)
receive_total_example =
    receive_total open_world (encode_packet [] 4 control_ack 0 100) 0 negotiating

Reach-HasWindow_example : HasWindow (tick open_world 600 started)
Reach-HasWindow_example = Reach-HasWindow open_world (next (next here (starts 0)) (ticks 600))

abbrev dead_link : Link
dead_link = record established { state = State.dead; pending = [] }

Reach-dead_example :
    ((send_control open_world 5 (7 ∷ []) dead_link).1.state ≡ State.dead)
    × ((send_control open_world 5 (7 ∷ []) dead_link).1.trace ≡ [])
Reach-dead_example = Reach-dead open_world (next here (sends 5 (7 ∷ []))) refl

handle_packet_establishes_example :
    ((handle_packet open_world accessory_ack [] 0 negotiating).state ≡ State.normal)
    ↔ AcknowledgesSyn accessory_ack negotiating
handle_packet_establishes_example =
    handle_packet_establishes open_world accessory_ack [] 0 negotiating refl

accessory_lsp_decodes : decode_lsp (encode_lsp accessory_lsp) ≡ some accessory_lsp
unfolding decode_lsp encode_lsp encode_sessions
accessory_lsp_decodes = refl

handle_packet-IsAdopted_example :
    IsAdopted accessory_syn accessory_lsp negotiating
      (handle_packet open_world accessory_syn (encode_lsp accessory_lsp) 0 negotiating)
handle_packet-IsAdopted_example =
    handle_packet-IsAdopted open_world accessory_syn (encode_lsp accessory_lsp) accessory_lsp 0
      negotiating refl (omega arith) refl accessory_lsp_decodes

handle_packet_in_sequence_example :
    ((4 ≡ (established.last_received_sequence + 1) % 256)
      × Accepts
          (data_header 4)
          (7 ∷ [])
          established
          (handle_packet open_world (data_header 4) (7 ∷ []) 0 established))
    ⊎ ((4 ≢ (established.last_received_sequence + 1) % 256)
        × Refuses established (handle_packet open_world (data_header 4) (7 ∷ []) 0 established))
handle_packet_in_sequence_example =
    handle_packet_in_sequence open_world (data_header 4) (7 ∷ []) 0 established
      (λ past payload. done) refl refl refl (omega arith)
      (record { control = refl; sequence = omega arith; nonempty = refl })

erase_acknowledged_lem_example :
    erase_acknowledged 100 established.pending
    ≡ drop (length established.pending - sequence_sub 100 100) established.pending
erase_acknowledged_lem_example =
    erase_acknowledged_lem 100 100 established.pending (omega arith) (omega arith) (omega arith)
      (omega arith) (omega arith)

abbrev send_answer : Bool × Link
send_answer = send_control open_world 5 (7 ∷ []) established

send_control_cases_example :
    (MaySend open_world 5 (7 ∷ []) established
      × (is_taken open_world 5 (7 ∷ []) established ≡ true)
      × Queues open_world 5 (7 ∷ []) established)
    ⊎ (MaySend open_world 5 (7 ∷ []) established
        × (is_taken open_world 5 (7 ∷ []) established ≡ false)
        × (send_answer.0 ≡ false)
        × (send_answer.1.state ≡ State.dead)
        × (send_answer.1.pending ≡ []))
    ⊎ (IsHeldBack open_world 5 (7 ∷ []) established
        × (send_answer.0 ≡ false)
        × (send_answer.1 ≡ established))
send_control_cases_example = send_control_cases open_world 5 (7 ∷ []) established

tick_cases_example :
    Resent 300 [] established.pending established (tick open_world 300 established)
    ⊎ GaveUp 300 established.pending established (tick open_world 300 established)
tick_cases_example = tick_cases open_world 300 established refl (omega arith)

process_packets-encode_packet_example :
    process_packets open_world 0 (record established {
      receive_buffer = (1 ∷ 2 ∷ []) ++ (encode_packet (7 ∷ []) 4 control_ack 10 100 ++ (9 ∷ []));
    })
    ≡ process_packets open_world 0 (
        handle_packet open_world
          (data_header 4)
          (7 ∷ [])
          0
          (record established { receive_buffer = 9 ∷ [] }))
process_packets-encode_packet_example =
    process_packets-encode_packet open_world 0 4 control_ack 10 100 (1 ∷ 2 ∷ []) (7 ∷ []) (9 ∷ [])
      established (omega arith) (omega arith) (omega arith)
