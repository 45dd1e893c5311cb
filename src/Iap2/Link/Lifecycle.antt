-- ===== src/Iap2/Link/Lifecycle.antt =====
-- The states that a PhoneLink goes through (src/iap2/link_layer.cpp): their order, what a dead link
-- does, and how a link comes to be established.
use aa2acp.Base.{
  ℕ, ◌+◌, ◌≤◌, ◌≡◌, refl, Bool, false, List, [], ◌∷◌, ◌++◌, arith, Bytes, Option-cases, inl, inr,
  ◌∙◌,
}
use aa2acp.Iap2.Frame.{Header}
use aa2acp.Iap2.Link.State.{
  State, PendingMessage, Event, sent, Client, done, send, Environment, Link,
}
use aa2acp.Iap2.Link.Output.{
  send_marker, write_packet, send_syn, send_ack, start, send_control, run_client, retransmit, tick,
}
use aa2acp.Iap2.Link.Input.{
  take_acknowledgement, adopt_lsp, handle_syn, handle_handshake_ack, deliver, accept_sequence,
  forward_data, accept_data, handle_data, handle_acknowledged, handle_packet,
}
use aa2acp.Iap2.Link.Steps.{Invariant, Reach, Reach-keeps}

-- The order of the states: detection, negotiation, the established link, the dead link.
abbrev pub rank : State → ℕ
rank State.detect = 0
rank State.negotiate = 1
rank State.normal = 2
rank State.dead = 3

rank-le : (s : State) → rank s ≤ 3
rank-le State.detect = omega arith
rank-le State.negotiate = omega arith
rank-le State.normal = omega arith
rank-le State.dead = omega arith

module _ (env : Environment) where
  write_packet-rank :
      (payload : Bytes) (sequence control session_id : ℕ) (l : Link)
      → rank l.state ≤ rank (write_packet env payload sequence control session_id l).state
  unfolding write_packet
  write_packet-rank payload sequence control session_id l = ground arith

  send_ack-rank : (l : Link) → rank l.state ≤ rank (send_ack env l).state
  unfolding send_ack
  send_ack-rank l = write_packet-rank _ _ _ _ l

  send_syn-rank :
      (now : ℕ) (ack : Bool) (l : Link) → rank l.state ≤ rank (send_syn env now ack l).state
  unfolding send_syn
  send_syn-rank now ack l = grind (arith, write_packet-rank)

  send_control-rank :
      (clock : ℕ) (payload : Bytes) (l : Link)
      → rank l.state ≤ rank (send_control env clock payload l).1.state
  unfolding send_control
  send_control-rank clock payload l = ground arith

  run_client-rank : (c : Client) (l : Link) → rank l.state ≤ rank (run_client env c l).state
  unfolding run_client
  run_client-rank done l = omega arith
  run_client-rank (send clock payload continue) l =
      let (answer, l') = send_control env clock payload l in
      omega (arith, run_client-rank (continue answer) l', send_control-rank clock payload l)

  retransmit-rank :
      (now : ℕ) (kept ms : List PendingMessage) (l : Link)
      → rank l.state ≤ rank (retransmit env now kept ms l).state
  unfolding retransmit
  retransmit-rank now kept [] l = omega arith
  retransmit-rank now kept (m ∷ ms) l =
      let m' : PendingMessage = record m {
        retries = m.retries + 1;
        deadline = now + l.lsp.retransmission_timeout;
      } in
      let accepted = env.transport l.trace m.frame in
      ground (
        arith,
        retransmit-rank now (kept ++ m ∷ []) ms l,
        retransmit-rank now (kept ++ m' ∷ []) ms
            (record l { trace = sent m.frame accepted ∷ l.trace }),
      )

  tick-rank : (now : ℕ) (l : Link) → rank l.state ≤ rank (tick env now l).state
  unfolding tick send_marker
  tick-rank now l = grind (arith, send_syn-rank, retransmit-rank)

  start-rank : (now : ℕ) (l : Link) → rank l.state ≤ rank (start env now l).state
  unfolding start send_marker
  start-rank now l = grind (arith, send_syn-rank)

  handle_syn-rank :
      (h : Header) (payload : Bytes) (now : ℕ) (l : Link)
      → rank l.state ≤ rank (handle_syn env h payload now l).state
  unfolding handle_syn adopt_lsp
  handle_syn-rank h payload now l = grind (arith, send_syn-rank, send_ack-rank)

  deliver-rank : (payload : Bytes) (l : Link) → rank l.state ≤ rank (deliver env payload l).state
  unfolding deliver
  deliver-rank payload l = elim (Option-cases env.control_data) [
    | inl e ↦ rw (e, deliver) (omega arith)
    | inr (client, e) ↦ rw (e, deliver) (run_client-rank _ _)
  ]

  forward_data-rank :
      (h : Header) (payload : Bytes) (l : Link)
      → rank l.state ≤ rank (forward_data env h payload l).state
  unfolding forward_data
  forward_data-rank h payload l = ground (arith, deliver-rank payload l)

  accept_data-rank :
      (h : Header) (payload : Bytes) (l : Link)
      → rank l.state ≤ rank (accept_data env h payload l).state
  unfolding accept_data
  accept_data-rank h payload l = omega (
    arith,
    forward_data-rank h payload (accept_sequence h l),
    send_ack-rank (forward_data env h payload (accept_sequence h l)),
  )

  handle_data-rank :
      (h : Header) (payload : Bytes) (l : Link)
      → rank l.state ≤ rank (handle_data env h payload l).state
  unfolding handle_data
  handle_data-rank h payload l = grind (arith, accept_data-rank, send_ack-rank)

  handle_packet-rank :
      (h : Header) (payload : Bytes) (now : ℕ) (l : Link)
      → rank l.state ≤ rank (handle_packet env h payload now l).state
  unfolding handle_packet handle_acknowledged take_acknowledgement handle_handshake_ack
  handle_packet-rank h payload now l = grind (arith, handle_syn-rank, handle_data-rank)

  rank_invariant : (n : ℕ) → Invariant env (λ l. n ≤ rank l.state)
  rank_invariant n = record {
    on_buffer = λ l bytes v. v;
    on_dump = λ l seen bytes v. v;
    on_overflow = λ l v. omega (arith, rank-le l.state);
    on_marker = λ l rest now e v. ground (
      arith,
      send_syn-rank now false (record l { receive_buffer = rest; state = State.negotiate }),
    );
    on_packet = λ h payload now l v. omega (arith, handle_packet-rank h payload now l);
    on_start = λ now l v. omega (arith, start-rank now l);
    on_tick = λ now l v. omega (arith, tick-rank now l);
    on_send = λ clock payload l v. omega (arith, send_control-rank clock payload l);
  }

  -- The states only move forward, along any history: detection, negotiation, established, dead.
  pub Reach-rank : {l l' : Link} → Reach env l l' → rank l.state ≤ rank l'.state
  Reach-rank {l} r = Reach-keeps env (rank_invariant (rank l.state)) r (omega arith)

  -- A frame that a dead link receives changes neither its state nor what it did.
  handle_packet_dead :
      (h : Header) (payload : Bytes) (now : ℕ) (l : Link)
      → l.state ≡ State.dead
      → ((handle_packet env h payload now l).state ≡ State.dead)
        × ((handle_packet env h payload now l).trace ≡ l.trace)
  unfolding handle_packet handle_acknowledged take_acknowledgement handle_handshake_ack handle_syn
      adopt_lsp send_syn handle_data
  handle_packet_dead h payload now l e = ground arith

  abbrev IsSilent : List Event → Link → Type 0
  IsSilent past l = (l.state ≡ State.dead) × (l.trace ≡ past)

  silence_invariant : (past : List Event) → Invariant env (IsSilent past)
  unfolding start tick send_control
  silence_invariant past = record {
    on_buffer = λ l bytes v. v;
    on_dump = λ l seen bytes v. v;
    on_overflow = λ l v. (refl, v.1);
    on_marker = λ l rest now e v. cc;
    on_packet =
        λ h payload now l v. let (d, s) = handle_packet_dead h payload now l v.0 in (d, s ∙ v.1);
    on_start = λ now l v. ground arith;
    on_tick = λ now l v. ground arith;
    on_send = λ clock payload l v. ground arith;
  }

  -- A dead link stays dead, and neither sends a frame nor delivers a payload, whatever its owner
  -- calls and whatever it receives.
  pub Reach-dead :
      {l l' : Link}
      → Reach env l l'
      → l.state ≡ State.dead
      → (l'.state ≡ State.dead) × (l'.trace ≡ l.trace)
  Reach-dead {l} r e = Reach-keeps env (silence_invariant l.trace) r (e, refl)
