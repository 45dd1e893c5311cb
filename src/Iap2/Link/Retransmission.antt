-- ===== src/Iap2/Link/Retransmission.antt =====
-- What PhoneLink::tick does to the messages that wait on an established link
-- (src/iap2/link_layer.cpp).
use aa2acp.Base.{
  ℕ, ◌+◌, ◌≤◌, ◌≡◌, Bool, true, false, List, [], ◌∷◌, ◌++◌, append-nil, append_assoc, ◌⊎◌, inl,
  arith, All, All-append, ltb, if◌then◌else◌,
}
use mathlib.Core.List.{map}
use aa2acp.Iap2.Link.State.{State, PendingMessage, Event, sent, Environment, Link}
use aa2acp.Iap2.Link.Output.{retransmit, tick}

-- A message after a tick: as it was before its deadline, else sent once more.
abbrev pub refresh : ℕ → ℕ → PendingMessage → PendingMessage
refresh now timeout m =
    if ltb now m.deadline then m else record m { retries = m.retries + 1; deadline = now + timeout }

-- No message was sent again more often than agreed.
abbrev pub WithinRetries : ℕ → List PendingMessage → Type 0
WithinRetries limit = All λ m. m.retries ≤ limit

-- The frames of the overdue messages, sent in order, the newest event first.
pub resends : ℕ → List PendingMessage → List Event → List Event
resends now [] past = past
resends now (m ∷ ms) past =
    resends now ms (if ltb now m.deadline then past else sent m.frame true ∷ past)

-- The messages as they were, but for the overdue ones, which were sent again.
pub record Resent (now : ℕ) (kept ms : List PendingMessage) (l l' : Link) : Type 0 where
  pub state : l'.state ≡ l.state
  pub pending : l'.pending ≡ kept ++ map (refresh now l.lsp.retransmission_timeout) ms
  pub retries : WithinRetries l.lsp.max_retransmissions l'.pending
  pub trace : l'.trace ≡ resends now ms l.trace

-- A message is overdue that was sent again as often as agreed.
abbrev pub Exhausted : ℕ → ℕ → List PendingMessage → Type 0
Exhausted now limit [] = ⊥
Exhausted now limit (m ∷ ms) = ((m.deadline ≤ now) × (limit ≤ m.retries)) ⊎ Exhausted now limit ms

-- The last event is a frame that the transport refused.
abbrev pub last_refused : List Event → Bool
last_refused (sent frame false ∷ past) = true
last_refused _ = false

-- The link gave up, for one of two reasons.
pub record GaveUp (now : ℕ) (ms : List PendingMessage) (l l' : Link) : Type 0 where
  pub reason : Exhausted now l.lsp.max_retransmissions ms ⊎ (last_refused l'.trace ≡ true)
  pub state : l'.state ≡ State.dead
  pub pending : l'.pending ≡ []

module _ (env : Environment) (now : ℕ) where
  retransmit_cases :
      (kept ms : List PendingMessage) (l : Link)
      → WithinRetries l.lsp.max_retransmissions kept
      → WithinRetries l.lsp.max_retransmissions ms
      → Resent now kept ms l (retransmit env now kept ms l)
        ⊎ GaveUp now ms l (retransmit env now kept ms l)
  unfolding retransmit resends
  retransmit_cases kept [] l wk wm = inl (ground (arith, append-nil kept))
  retransmit_cases kept (m ∷ ms) l wk wm =
      let limit = l.lsp.max_retransmissions in
      let m' : PendingMessage = record m {
        retries = m.retries + 1;
        deadline = now + l.lsp.retransmission_timeout;
      } in
      let l' : Link = record l { trace = sent m.frame true ∷ l.trace } in
      let wait = retransmit_cases (kept ++ m ∷ []) ms l in
      let again = retransmit_cases (kept ++ m' ∷ []) ms l' in
      ground (
        arith,
        wait,
        again,
        All-append (λ (x : PendingMessage). x.retries ≤ limit) kept (m ∷ []),
        All-append (λ (x : PendingMessage). x.retries ≤ limit) kept (m' ∷ []),
        append_assoc kept (m ∷ []) (map (refresh now l.lsp.retransmission_timeout) ms),
        append_assoc kept (m' ∷ []) (map (refresh now l.lsp.retransmission_timeout) ms),
      )

  -- On an established link whose messages were sent again no more often than agreed, a tick sends
  -- each overdue message once more, in order, counts that and moves its deadline, and leaves the
  -- others; no message is then sent again more often than agreed. Or the link is dead and nothing
  -- waits, and either an overdue message was used up or the transport refused the last frame.
  pub tick_cases :
      (l : Link)
      → l.state ≡ State.normal
      → WithinRetries l.lsp.max_retransmissions l.pending
      → Resent now [] l.pending l (tick env now l) ⊎ GaveUp now l.pending l (tick env now l)
  unfolding tick
  tick_cases l n w =
      let loop : tick env now l ≡ retransmit env now [] l.pending l = ground arith in
      rw loop (retransmit_cases [] l.pending l tt w)
