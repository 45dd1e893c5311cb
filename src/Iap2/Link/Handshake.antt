-- ===== src/Iap2/Link/Handshake.antt =====
-- How a negotiating PhoneLink comes to be established (handle_packet in src/iap2/link_layer.cpp),
-- and what an accessory's SYN makes of the link's parameters.
use aa2acp.Base.{ℕ, max, min, bit_and, ◌≡◌, ◌≢◌, ◌↔◌, Bool, true, false, some, arith, Bytes}
use aa2acp.Iap2.Frame.{Header, Lsp, decode_lsp, control_ack, control_syn, control_rst}
use aa2acp.Iap2.Link.State.{State, is_normal, Environment, Link, acknowledged_by}
use aa2acp.Iap2.Link.Output.{write_packet, send_syn}
use aa2acp.Iap2.Link.Keeps.{send_syn-Keeps}
use aa2acp.Iap2.Link.Input.{
  clamp_lsp, control_session, take_acknowledgement, adopt_lsp, handle_syn, handle_handshake_ack,
  handle_data, handle_acknowledged, handle_packet,
}

-- A frame that acknowledges the outstanding SYN: the ACK bit with neither SYN nor RST, and an
-- acknowledgement at or behind the SYN's sequence number.
pub record AcknowledgesSyn (h : Header) (l : Link) : Type 0 where
  pub ack : bit_and h.control control_ack ≢ 0
  pub syn : bit_and h.control control_syn ≡ 0
  pub rst : bit_and h.control control_rst ≡ 0
  pub outstanding : l.syn_outstanding ≡ true
  pub names_syn : acknowledged_by l.syn_sequence h.acknowledgement ≡ true

-- What the link takes from a SYN: its parameters, the four numbers raised to their least values and the
-- window cut at 128, its session and its sequence number.
pub record IsAdopted (h : Header) (received : Lsp) (l l' : Link) : Type 0 where
  pub timeout : l'.lsp.retransmission_timeout ≡ max 100 received.retransmission_timeout
  pub window : l'.lsp.max_outgoing ≡ max 1 (min 128 received.max_outgoing)
  pub retries : l'.lsp.max_retransmissions ≡ max 1 received.max_retransmissions
  pub ack_timeout : l'.lsp.ack_timeout ≡ max 50 received.ack_timeout
  pub max_len : l'.lsp.max_len ≡ received.max_len
  pub sessions : l'.lsp.sessions ≡ received.sessions
  pub session :
      l'.peer_control_session_id ≡ control_session received.sessions l.peer_control_session_id
  pub sequence : l'.last_received_sequence ≡ h.sequence
  pub valid : l'.last_sequence_valid ≡ true

module _ (env : Environment) where
  write_packet-ne-normal :
      (payload : Bytes) (sequence control session_id : ℕ) (l : Link)
      → l.state ≡ State.negotiate
      → (write_packet env payload sequence control session_id l).state ≢ State.normal
  unfolding write_packet
  write_packet-ne-normal payload sequence control session_id l n = ground arith

  send_syn-ne-normal :
      (now : ℕ) (ack : Bool) (l : Link)
      → l.state ≡ State.negotiate
      → (send_syn env now ack l).state ≢ State.normal
  unfolding send_syn
  send_syn-ne-normal now ack l n = grind (arith, write_packet-ne-normal)

  handle_syn-ne-normal :
      (h : Header) (payload : Bytes) (now : ℕ) (l : Link)
      → l.state ≡ State.negotiate
      → (handle_syn env h payload now l).state ≢ State.normal
  unfolding handle_syn adopt_lsp
  handle_syn-ne-normal h payload now l n = grind (arith, send_syn-ne-normal)

  -- A frame establishes a negotiating link exactly when it has the ACK bit, has neither SYN nor RST, and acknowledges the outstanding SYN.
  pub handle_packet_establishes :
      (h : Header) (payload : Bytes) (now : ℕ) (l : Link)
      → l.state ≡ State.negotiate
      → ((handle_packet env h payload now l).state ≡ State.normal) ↔ AcknowledgesSyn h l
  unfolding handle_packet handle_acknowledged take_acknowledgement handle_handshake_ack handle_data
  handle_packet_establishes h payload now l n =
      (λ e. grind (arith, handle_syn-ne-normal), λ a. ground arith)

  -- A SYN without reset, received before the link is established, with a payload that decodes, is
  -- adopted: the link takes its parameters, the timeouts, the retries and the window raised to at least
  -- 100 and 50 ms, 1 and 1, and the window cut at 128, the control session and the sequence number.
  pub handle_packet-IsAdopted :
      (h : Header) (payload : Bytes) (received : Lsp) (now : ℕ) (l : Link)
      → is_normal l.state ≡ false
      → bit_and h.control control_syn ≢ 0
      → bit_and h.control control_rst ≡ 0
      → decode_lsp payload ≡ some received
      → IsAdopted h received l (handle_packet env h payload now l)
  unfolding handle_packet handle_acknowledged take_acknowledgement handle_syn adopt_lsp clamp_lsp
  handle_packet-IsAdopted h payload received now l s syn rst e = grind (arith, send_syn-Keeps)

  -- The accessory's own SYN is not needed: an acknowledgement of the link's SYN alone establishes the
  -- link, with the parameters and the receive sequence as they were.
  pub handle_packet_without_peer_syn :
      (h : Header) (payload : Bytes) (now : ℕ) (l : Link)
      → l.state ≡ State.negotiate
      → AcknowledgesSyn h l
      → ((handle_packet env h payload now l).state ≡ State.normal)
        × ((handle_packet env h payload now l).lsp ≡ l.lsp)
        × ((handle_packet env h payload now l).last_sequence_valid ≡ l.last_sequence_valid)
        × ((handle_packet env h payload now l).last_received_sequence ≡ l.last_received_sequence)
  unfolding handle_packet handle_acknowledged take_acknowledgement handle_handshake_ack
  handle_packet_without_peer_syn h payload now l n a = ground arith
