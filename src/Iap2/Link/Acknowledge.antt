-- ===== src/Iap2/Link/Acknowledge.antt =====
-- Cumulative acknowledgement of waiting control messages (acknowledged_by and std::erase_if in
-- src/iap2/link_layer.cpp) over wrapping sequence numbers.
use aa2acp.Base.{
  ℕ, zero, suc, ◌+◌, ◌-◌, ◌%◌, ◌≤◌, ◌<◌, ◌≡◌, refl, Bool, true, false, List, [], ◌∷◌, ◌++◌, arith,
  length, length-append, drop, Bytes, IsByte, lt→ltb, le→ltb, leb, leb→le, is_empty, not, ◌&&◌,
  Bool-cases, inl, inr, ◌⊎◌, sym, ap,
}
use aa2acp.Iap2.Frame.{control_ack, checksum, encode_header}
use aa2acp.Iap2.Link.State.{
  State, is_normal, sent, PendingMessage, Environment, Link, sequence_sub, acknowledged_by,
}
use aa2acp.Iap2.Link.Output.{encode_packet, queued_message, transmit, send_control}
use aa2acp.Iap2.Link.Input.{erase_acknowledged}

-- The messages carry consecutive sequence numbers, and the newest one carries `last`.
abbrev pub Consecutive : ℕ → List PendingMessage → Type 0
Consecutive last [] = Unit {0}
Consecutive last (m ∷ ms) =
    IsByte m.sequence × ((m.sequence + length ms) % 256 ≡ last) × Consecutive last ms

Consecutive-append :
    (last : ℕ) (ms : List PendingMessage) (m : PendingMessage)
    → m.sequence ≡ (last + 1) % 256
    → Consecutive last ms
    → Consecutive ((last + 1) % 256) (ms ++ m ∷ [])
Consecutive-append last [] m e c = (omega arith, omega arith, tt)
Consecutive-append last (x ∷ ms) m e c =
    (c.0, omega (arith, c.1, length-append ms (m ∷ [])), Consecutive-append last ms m e c.2)

drop-nil : (n : ℕ) → drop {A = PendingMessage} n [] ≡ []
drop-nil zero = refl
drop-nil (suc n) = refl

-- A message with `newer` newer ones is acknowledged if the acknowledgement is at most so far behind.
acknowledged_by_seen :
    (last ack sequence newer : ℕ)
    → IsByte last
    → IsByte ack
    → IsByte sequence
    → (sequence + newer) % 256 ≡ last
    → newer < 128
    → sequence_sub last ack ≤ newer
    → acknowledged_by sequence ack ≡ true
acknowledged_by_seen last ack sequence newer bl ba bs e n s = lt→ltb _ _ (omega arith)

acknowledged_by_unseen :
    (last ack sequence newer : ℕ)
    → IsByte last
    → IsByte ack
    → IsByte sequence
    → (sequence + newer) % 256 ≡ last
    → sequence_sub last ack ≤ 128
    → newer < sequence_sub last ack
    → acknowledged_by sequence ack ≡ false
acknowledged_by_unseen last ack sequence newer bl ba bs e n s = le→ltb _ _ (omega arith)

-- Of at most 128 messages that are numbered consecutively up to the newest, an acknowledgement that is
-- at most 128 behind the newest erases the messages up to the one that it names, and keeps the newer
-- ones, in order. Sequence numbers wrap at 256.
pub erase_acknowledged_lem :
    (last ack : ℕ) (ms : List PendingMessage)
    → IsByte last
    → IsByte ack
    → sequence_sub last ack ≤ 128
    → length ms ≤ 128
    → Consecutive last ms
    → erase_acknowledged ack ms ≡ drop (length ms - sequence_sub last ack) ms
unfolding erase_acknowledged
erase_acknowledged_lem last ack [] bl ba u l c = sym (drop-nil (0 - sequence_sub last ack))
erase_acknowledged_lem last ack (m ∷ ms) bl ba u l c =
    let unseen = sequence_sub last ack in
    let rest = erase_acknowledged_lem last ack ms bl ba u (omega arith) c.2 in
    elim (Bool-cases (leb unseen (length ms))) [
      | inl seen ↦
          let split : suc (length ms) - unseen ≡ suc (length ms - unseen) = ground arith in
          rw
            (
              acknowledged_by_seen last ack m.sequence (length ms) bl ba c.0 c.1 (omega arith)
                  (leb→le _ _ seen),
              split,
            )
            rest
      | inr kept ↦
          let none_dropped : suc (length ms) - unseen ≡ 0 = ground arith in
          let none_before : length ms - unseen ≡ 0 = ground arith in
          rw
            (
              acknowledged_by_unseen last ack m.sequence (length ms) bl ba c.0 c.1 u (ground arith),
              none_dropped,
            )
            (ap (◌∷◌ m) (rw none_before at rest))
    ]

length-encode_packet-le :
    (payload : Bytes) (sequence control session_id ack : ℕ)
    → 0 < length payload
    → length (encode_packet payload sequence control session_id ack) ≤ length payload + 10
unfolding encode_packet encode_header
length-encode_packet-le payload sequence control session_id ack h =
    ground (arith, length-append payload (checksum payload ∷ []))

module _ (env : Environment) (clock : ℕ) (payload : Bytes) (l : Link) where
  abbrev pub answer : Bool
  answer = (send_control env clock payload l).0

  abbrev pub link : Link
  link = (send_control env clock payload l).1

  abbrev pub message : PendingMessage
  message = queued_message clock payload l

  -- The payload may be sent: the link is established, the frame has the negotiated length at most, and
  -- the negotiated window has room.
  pub record MaySend : Type 0 where
    pub established : l.state ≡ State.normal
    pub filled : 1 ≤ length payload
    pub fits : length payload + 10 ≤ l.lsp.max_len
    pub room : length l.pending < l.lsp.max_outgoing

  -- Why it may not be sent.
  abbrev pub IsHeldBack : Type 0
  IsHeldBack =
      (is_normal l.state ≡ false)
      ⊎ (length payload ≡ 0)
      ⊎ (l.lsp.max_len < length payload + 10)
      ⊎ (l.lsp.max_outgoing ≤ length l.pending)

  -- The frame can be encoded and the transport takes it.
  abbrev pub is_taken : Bool
  is_taken = not (is_empty message.frame) && env.transport l.trace message.frame

  -- The link after a control message was sent and queued.
  pub record Queues : Type 0 where
    pub accepted : answer ≡ true
    pub state : link.state ≡ State.normal
    pub pending : link.pending ≡ l.pending ++ message ∷ []
    pub sequence : link.sent_sequence ≡ message.sequence
    pub trace : link.trace ≡ sent message.frame true ∷ l.trace
    pub window : length link.pending ≤ l.lsp.max_outgoing
    pub size : length message.frame ≤ l.lsp.max_len

  -- A payload that may be sent is sent in one frame, within the negotiated length, and queued behind the
  -- waiting ones, within the negotiated window, if the transport takes the frame; if it does not, the
  -- link is dead and nothing waits. A payload that may not be sent (the link is not established, the
  -- payload is empty or too long, or the window is full) leaves the link unchanged. `send_control`
  -- answers true in the first case only.
  pub send_control_cases :
      (MaySend × (is_taken ≡ true) × Queues)
      ⊎ (MaySend
          × (is_taken ≡ false)
          × (answer ≡ false)
          × (link.state ≡ State.dead)
          × (link.pending ≡ []))
      ⊎ (IsHeldBack × (answer ≡ false) × (link ≡ l))
  unfolding send_control transmit
  send_control_cases = ground (
    arith,
    length-append l.pending (message ∷ []),
    length-encode_packet-le payload message.sequence control_ack l.peer_control_session_id
        l.last_received_sequence,
  )

  -- `send_control` keeps the sequence numbers of the waiting messages consecutive up to the last
  -- one sent, if they were so before.
  pub send_control-Consecutive :
      Consecutive l.sent_sequence l.pending → Consecutive link.sent_sequence link.pending
  send_control-Consecutive c =
      ground (arith, send_control_cases, Consecutive-append l.sent_sequence l.pending message)
