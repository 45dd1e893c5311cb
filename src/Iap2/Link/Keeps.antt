-- ===== src/Iap2/Link/Keeps.antt =====
-- What the sending half of PhoneLink leaves alone (src/iap2/link_layer.cpp): the received
-- parameters, the receive sequence and the receive buffer.
use aa2acp.Base.{ℕ, ◌≡◌, Bool, arith, Bytes}
use aa2acp.Iap2.Link.State.{Client, done, send, Environment, Link}
use aa2acp.Iap2.Link.Output.{write_packet, send_syn, send_ack, send_control, run_client}

pub record Keeps (l l' : Link) : Type 0 where
  pub same_lsp : l'.lsp ≡ l.lsp
  pub same_session : l'.peer_control_session_id ≡ l.peer_control_session_id
  pub same_received : l'.last_received_sequence ≡ l.last_received_sequence
  pub same_valid : l'.last_sequence_valid ≡ l.last_sequence_valid
  pub same_buffer : l'.receive_buffer ≡ l.receive_buffer

Keeps-trans : {l l' l'' : Link} → Keeps l l' → Keeps l' l'' → Keeps l l''
Keeps-trans a b = ground arith

module _ (env : Environment) where
  pub write_packet-Keeps :
      (payload : Bytes) (sequence control session_id : ℕ) (l : Link)
      → Keeps l (write_packet env payload sequence control session_id l)
  unfolding write_packet
  write_packet-Keeps payload sequence control session_id l = ground arith

  pub send_ack-Keeps : (l : Link) → Keeps l (send_ack env l)
  unfolding send_ack
  send_ack-Keeps l = write_packet-Keeps _ _ _ _ l

  pub send_syn-Keeps : (now : ℕ) (ack : Bool) (l : Link) → Keeps l (send_syn env now ack l)
  unfolding send_syn
  send_syn-Keeps now ack l = grind (arith, write_packet-Keeps)

  pub send_control-Keeps :
      (clock : ℕ) (payload : Bytes) (l : Link) → Keeps l (send_control env clock payload l).1
  unfolding send_control
  send_control-Keeps clock payload l = ground arith

  pub run_client-Keeps : (c : Client) (l : Link) → Keeps l (run_client env c l)
  unfolding run_client
  run_client-Keeps done l = ground arith
  run_client-Keeps (send clock payload continue) l =
      let (answer, l') = send_control env clock payload l in
      Keeps-trans (send_control-Keeps clock payload l) (run_client-Keeps (continue answer) l')

  write_packet-pending :
      (payload : Bytes) (sequence control session_id : ℕ) (l : Link)
      → (write_packet env payload sequence control session_id l).pending ≡ l.pending
  unfolding write_packet
  write_packet-pending payload sequence control session_id l = ground arith

  -- Frames of the handshake leave the waiting control messages alone.
  pub send_syn-pending :
      (now : ℕ) (ack : Bool) (l : Link) → (send_syn env now ack l).pending ≡ l.pending
  unfolding send_syn
  send_syn-pending now ack l = grind (arith, write_packet-pending)

  pub send_ack-pending : (l : Link) → (send_ack env l).pending ≡ l.pending
  unfolding send_ack
  send_ack-pending l = write_packet-pending _ _ _ _ l
