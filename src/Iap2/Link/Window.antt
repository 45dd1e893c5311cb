-- ===== src/Iap2/Link/Window.antt =====
-- The send window of PhoneLink (src/iap2/link_layer.cpp): how many control messages wait for their
-- acknowledgement.
use aa2acp.Base.{
  ℕ, ◌+◌, ◌≤◌, ◌≡◌, refl, ap, Bool, true, false, List, [], ◌∷◌, ◌++◌, arith, length, length-append,
  Bytes, Option-cases, inl, inr,
}
use aa2acp.Iap2.Frame.{Header, Lsp}
use aa2acp.Iap2.Link.State.{
  State, is_normal, PendingMessage, Client, done, send, sent, Environment, Link, new_link,
}
use aa2acp.Iap2.Link.Output.{
  send_marker, write_packet, send_syn, send_ack, start, send_control, run_client, retransmit, tick,
}
use aa2acp.Iap2.Link.Keeps.{send_syn-pending}
use aa2acp.Iap2.Link.Input.{
  erase_acknowledged, clamp_lsp, take_acknowledgement, adopt_lsp, handle_syn, handle_handshake_ack,
  deliver, forward_data, accept_data, handle_data, handle_acknowledged, handle_packet,
}
use aa2acp.Iap2.Link.Steps.{Invariant, Reach, Reach-keeps}

-- How many messages may wait in a state, under a window of the given size.
abbrev pub PendingFits : State → ℕ → ℕ → Type 0
PendingFits State.detect window waiting = waiting ≡ 0
PendingFits State.negotiate window waiting = waiting ≡ 0
PendingFits State.normal window waiting = waiting ≤ window
PendingFits State.dead window waiting = waiting ≤ 128

pub record HasWindow (l : Link) : Type 0 where
  pub window_least : 1 ≤ l.lsp.max_outgoing
  pub window_most : l.lsp.max_outgoing ≤ 128
  pub fits : PendingFits l.state l.lsp.max_outgoing (length l.pending)

PendingFits-le :
    (s : State) (window waiting : ℕ) → window ≤ 128 → PendingFits s window waiting → waiting ≤ 128
PendingFits-le State.detect window waiting h p = omega arith
PendingFits-le State.negotiate window waiting h p = omega arith
PendingFits-le State.normal window waiting h p = omega arith
PendingFits-le State.dead window waiting h p = omega arith

-- Fewer messages fit too.
PendingFits-mono :
    (s : State) (window m n : ℕ) → m ≤ n → PendingFits s window n → PendingFits s window m
PendingFits-mono State.detect window m n h p = omega arith
PendingFits-mono State.negotiate window m n h p = omega arith
PendingFits-mono State.normal window m n h p = omega arith
PendingFits-mono State.dead window m n h p = omega arith

pub length-erase_acknowledged :
    (ack : ℕ) (ms : List PendingMessage) → length (erase_acknowledged ack ms) ≤ length ms
unfolding erase_acknowledged
length-erase_acknowledged ack [] = omega arith
length-erase_acknowledged ack (m ∷ ms) = ground (arith, length-erase_acknowledged ack ms)

module _ (env : Environment) where
  write_packet-HasWindow :
      (payload : Bytes) (sequence control session_id : ℕ) (l : Link)
      → HasWindow l
      → HasWindow (write_packet env payload sequence control session_id l)
  unfolding write_packet
  write_packet-HasWindow payload sequence control session_id l v =
      ground (arith, PendingFits-le l.state l.lsp.max_outgoing (length l.pending))

  send_ack-HasWindow : (l : Link) → HasWindow l → HasWindow (send_ack env l)
  unfolding send_ack
  send_ack-HasWindow l v = write_packet-HasWindow _ _ _ _ l v

  send_syn-HasWindow :
      (now : ℕ) (ack : Bool) (l : Link) → HasWindow l → HasWindow (send_syn env now ack l)
  unfolding send_syn
  send_syn-HasWindow now ack l v = grind (arith, write_packet-HasWindow)

  send_control-HasWindow :
      (clock : ℕ) (payload : Bytes) (l : Link)
      → HasWindow l
      → HasWindow (send_control env clock payload l).1
  unfolding send_control
  send_control-HasWindow clock payload l v = grind (arith, length-append, PendingFits-le)

  run_client-HasWindow : (c : Client) (l : Link) → HasWindow l → HasWindow (run_client env c l)
  unfolding run_client
  run_client-HasWindow done l v = v
  run_client-HasWindow (send clock payload continue) l v =
      let (answer, l') = send_control env clock payload l in
      run_client-HasWindow (continue answer) l' (send_control-HasWindow clock payload l v)

  -- The loop of `tick` keeps every message, or drops them all and the link is dead.
  retransmit-HasWindow :
      (now : ℕ) (kept ms : List PendingMessage) (l : Link)
      → 1 ≤ l.lsp.max_outgoing
      → l.lsp.max_outgoing ≤ 128
      → PendingFits l.state l.lsp.max_outgoing (length kept + length ms)
      → HasWindow (retransmit env now kept ms l)
  unfolding retransmit
  retransmit-HasWindow now kept [] l a b f = record {
    window_least = a;
    window_most = b;
    fits = PendingFits-mono l.state _ _ _ (omega arith) f;
  }
  retransmit-HasWindow now kept (m ∷ ms) l a b f =
      let m' : PendingMessage = record m {
        retries = m.retries + 1;
        deadline = now + l.lsp.retransmission_timeout;
      } in
      let accepted = env.transport l.trace m.frame in
      ground (
        arith,
        retransmit-HasWindow now (kept ++ m ∷ []) ms l a b,
        retransmit-HasWindow now (kept ++ m' ∷ []) ms
            (record l { trace = sent m.frame accepted ∷ l.trace }) a b,
        length-append kept (m ∷ []),
        length-append kept (m' ∷ []),
        PendingFits-mono l.state l.lsp.max_outgoing (length (kept ++ m ∷ []) + length ms)
            (length kept + length (m ∷ ms)),
        PendingFits-mono l.state l.lsp.max_outgoing (length (kept ++ m' ∷ []) + length ms)
            (length kept + length (m ∷ ms)),
      )

  -- The same, from the start of the loop.
  all_waiting :
      (now : ℕ) (l : Link)
      → HasWindow l
      → (l' : Link) → HasWindow l'
      → l'.pending ≡ l.pending
      → HasWindow (retransmit env now [] l.pending l')
  all_waiting now l v l' v' e =
      retransmit-HasWindow now [] l.pending l' v'.window_least v'.window_most
        (PendingFits-mono l'.state _ _ (length l'.pending) (omega (arith, ap length e)) v'.fits)

  tick-HasWindow : (now : ℕ) (l : Link) → HasWindow l → HasWindow (tick env now l)
  unfolding tick send_marker
  tick-HasWindow now l v = grind (arith, send_syn-HasWindow, all_waiting, send_syn-pending)

  start-HasWindow : (now : ℕ) (l : Link) → HasWindow l → HasWindow (start env now l)
  unfolding start send_marker
  start-HasWindow now l v = grind (arith, send_syn-HasWindow)

  adopt_lsp-HasWindow :
      (h : Header) (r : Lsp) (now : ℕ) (l : Link)
      → is_normal l.state ≡ false
      → HasWindow l
      → HasWindow (adopt_lsp env h r now l)
  unfolding adopt_lsp clamp_lsp
  adopt_lsp-HasWindow h r now l e v = send_syn-HasWindow now true _ (ground arith)

  handle_syn-HasWindow :
      (h : Header) (payload : Bytes) (now : ℕ) (l : Link)
      → HasWindow l
      → HasWindow (handle_syn env h payload now l)
  unfolding handle_syn
  handle_syn-HasWindow h payload now l v = grind (arith, adopt_lsp-HasWindow, send_ack-HasWindow)

  deliver-HasWindow : (payload : Bytes) (l : Link) → HasWindow l → HasWindow (deliver env payload l)
  unfolding deliver
  deliver-HasWindow payload l v = elim (Option-cases env.control_data) [
    | inl e ↦ rw (e, deliver) v
    | inr (client, e) ↦ rw (e, deliver) (run_client-HasWindow _ _ (ground arith))
  ]

  handle_data-HasWindow :
      (h : Header) (payload : Bytes) (l : Link)
      → HasWindow l
      → HasWindow (handle_data env h payload l)
  unfolding handle_data accept_data forward_data
  handle_data-HasWindow h payload l v = grind (arith, deliver-HasWindow, send_ack-HasWindow)

  handle_packet-HasWindow :
      (h : Header) (payload : Bytes) (now : ℕ) (l : Link)
      → HasWindow l
      → HasWindow (handle_packet env h payload now l)
  unfolding handle_packet handle_acknowledged take_acknowledgement handle_handshake_ack
  handle_packet-HasWindow h payload now l v = grind (
    arith, handle_syn-HasWindow, handle_data-HasWindow, length-erase_acknowledged, PendingFits-mono,
  )

  window_invariant : Invariant env HasWindow
  window_invariant = record {
    on_buffer = λ l bytes v. ground arith;
    on_dump = λ l seen bytes v. ground arith;
    on_overflow =
        λ l v. ground (arith, PendingFits-le l.state l.lsp.max_outgoing (length l.pending));
    on_marker = λ l rest now e v. send_syn-HasWindow now false _ (ground arith);
    on_packet = handle_packet-HasWindow;
    on_start = start-HasWindow;
    on_tick = tick-HasWindow;
    on_send = send_control-HasWindow;
  }

  -- After any calls on a new link at most 128 control messages wait for their acknowledgement, while
  -- the link is established no more than the negotiated window, and before it is established none.
  pub Reach-HasWindow : {l : Link} → Reach env new_link l → HasWindow l
  Reach-HasWindow r =
      Reach-keeps env window_invariant r
        (record { window_least = omega arith; window_most = omega arith; fits = refl })
