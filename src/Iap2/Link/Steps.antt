-- ===== src/Iap2/Link/Steps.antt =====
-- The histories of a PhoneLink: the calls that its owner makes (`start`, `receive`, `tick`,
-- `send_control`), and the rule by which a property of the link holds after all of them.
use aa2acp.Base.{
  ℕ, zero, suc, ◌≡◌, refl, Bool, true, false, [], some, Bytes, inl, inr, ◌⊎◌, take, drop,
  Option-cases, not, ◌||◌, ◌-◌, ◌==◌, get_or, ltb, length, if◌then◌else◌, sym, ◌∙◌, subst,
}
use aa2acp.Iap2.Frame.{Header, decode_header, has_valid_checksum}
use aa2acp.Iap2.Link.State.{State, Environment, Link}
use aa2acp.Iap2.Link.Output.{start, tick, send_control, send_syn}
use aa2acp.Iap2.Link.Input.{
  max_receive_buffer, handle_packet, Round, returns, continues, find_start, process_frame,
  process_start, process_round, process_packets_loop, process_packets, keep_marker_tail,
  search_marker, buffer_bytes, receive, after_marker,
}
use aa2acp.Iap2.Link.Termination.{Round-cases}

module _ (env : Environment) where
  -- One call of the owner.
  pub data Step (l : Link) : Link → Type 0 where
    starts : (now : ℕ) → Step l (start env now l)
    receives : (bytes : Bytes) (now : ℕ) {l' : Link} → receive env bytes now l ≡ some l' → Step l l'
    ticks : (now : ℕ) → Step l (tick env now l)
    sends : (clock : ℕ) (payload : Bytes) → Step l (send_control env clock payload l).1

  pub data Reach (l : Link) : Link → Type 0 where
    here : Reach l l
    next : {l' l'' : Link} → Reach l l' → Step l' l'' → Reach l l''

  -- A property that each part of each call keeps.
  pub record Invariant (P : Link → Type 0) : Type 0 where
    pub on_buffer : (l : Link) (bytes : Bytes) → P l → P (record l { receive_buffer = bytes })
    pub on_dump :
        (l : Link) (seen : Bool) (bytes : Bytes)
        → P l
        → P (record l { detect_dump_logged = seen; receive_buffer = bytes })
    pub on_overflow : (l : Link) → P l → P (record l { state = State.dead; receive_buffer = [] })
    pub on_marker :
        (l : Link) (rest : Bytes) (now : ℕ)
        → l.state ≡ State.detect
        → P l
        → P (send_syn env now false (record l { receive_buffer = rest; state = State.negotiate }))
    pub on_packet :
        (h : Header) (payload : Bytes) (now : ℕ) (l : Link)
        → P l
        → P (handle_packet env h payload now l)
    pub on_start : (now : ℕ) (l : Link) → P l → P (start env now l)
    pub on_tick : (now : ℕ) (l : Link) → P l → P (tick env now l)
    pub on_send :
        (clock : ℕ) (payload : Bytes) (l : Link) → P l → P (send_control env clock payload l).1

  -- The property at the link that a round leaves.
  data After (P : Link → Type 0) : Round → Type 0 where
    at_return : {l : Link} → P l → After P (returns l)
    at_continue : {l : Link} → P l → After P (continues l)

  After-link :
      (P : Link → Type 0) (l : Link) {r : Round}
      → After P r
      → (r ≡ returns l) ⊎ (r ≡ continues l)
      → P l
  After-link P l (at_return p) (inl e) = subst P (cc) p
  After-link P l (at_return p) (inr e) = cc
  After-link P l (at_continue p) (inl e) = cc
  After-link P l (at_continue p) (inr e) = subst P (cc) p

  module _ {P : Link → Type 0} (inv : Invariant P) where
    if-After : (b : Bool) {r r' : Round} → After P r → After P r' → After P (if b then r else r')
    if-After true a a' = a
    if-After false a a' = a'

    process_frame-After :
        (h : Header) (now : ℕ) (l : Link) → P l → After P (process_frame env h now l)
    unfolding process_frame
    process_frame-After h now l p =
        let buffer = l.receive_buffer in
        let body = take (h.length - 9) (drop 9 buffer) in
        let erased = inv.on_buffer l (drop h.length buffer) p in
        if-After (ltb l.lsp.max_len h.length) (at_return (inv.on_overflow l p)) (
          if-After (ltb (length buffer) h.length) (at_return p) (
            if-After (ltb 9 h.length)
              (if-After (has_valid_checksum body)
                (at_continue (inv.on_packet h (take (h.length - 10) body) now _ erased))
                (at_continue erased))
              (at_continue (inv.on_packet h [] now _ erased))))

    process_start-After : (now : ℕ) (l : Link) → P l → After P (process_start env now l)
    unfolding process_start
    process_start-After now l p =
        let buffer = l.receive_buffer in
        let skipped : After P (continues (record l { receive_buffer = drop 1 buffer })) =
          at_continue (inv.on_buffer l (drop 1 buffer) p) in
        elim (Option-cases (decode_header (take 9 buffer))) [
          | inl e ↦
              rw (e, process_start)
                (if-After (not (get_or buffer 1 0 == 0x5a)) skipped
                  (if-After (ltb (length buffer) 9) (at_return p) skipped))
          | inr (h, e) ↦
              rw (e, process_start)
                (if-After (not (get_or buffer 1 0 == 0x5a)) skipped
                  (if-After (ltb (length buffer) 9) (at_return p) (process_frame-After h now l p)))
        ]

    process_round-After : (now : ℕ) (l : Link) → P l → After P (process_round env now l)
    unfolding process_round
    process_round-After now l p = elim (Option-cases (find_start l.receive_buffer)) [
      | inl e ↦
          rw (e, process_round)
            (if-After (ltb (length l.receive_buffer) 9) (at_return p)
              (at_return (inv.on_buffer l _ p)))
      | inr (found, e) ↦
          rw (e, process_round)
            (if-After (ltb (length l.receive_buffer) 9) (at_return p)
              (process_start-After now _ (inv.on_buffer l found p)))
    ]

    process_packets_loop-keeps :
        (fuel now : ℕ) (l : Link) {l' : Link}
        → process_packets_loop env fuel now l ≡ some l'
        → P l
        → P l'
    unfolding process_packets_loop
    process_packets_loop-keeps zero now l e p = cc
    process_packets_loop-keeps (suc fuel) now l {l'} e p =
        elim (Round-cases (process_round env now l)) [
          | inl (m, r) ↦
              subst P (cc (loop_returns m r)) (After-link P m (process_round-After now l p) (inl r))
          | inr (m, r) ↦
              process_packets_loop-keeps fuel now m (sym (loop_continues m r) ∙ e)
                (After-link P m (process_round-After now l p) (inr r))
        ]
      where
        loop_returns :
            (m : Link)
            → process_round env now l ≡ returns m
            → process_packets_loop env (suc fuel) now l ≡ some m
        loop_returns m r = rw (r, process_packets_loop)

        loop_continues :
            (m : Link)
            → process_round env now l ≡ continues m
            → process_packets_loop env (suc fuel) now l ≡ process_packets_loop env fuel now m
        loop_continues m r = rw (r, process_packets_loop)

    search_marker-After :
        (s : State) (bytes : Bytes) (now : ℕ) (l : Link)
        → l.state ≡ s
        → P l
        → After P (search_marker env s bytes now l)
    unfolding search_marker keep_marker_tail
    search_marker-After State.detect bytes now l e p =
        elim (Option-cases (after_marker l.receive_buffer)) [
          | inl m ↦ rw (m, search_marker) (at_return (inv.on_dump l _ _ p))
          | inr (rest, m) ↦ rw (m, search_marker) (at_continue (inv.on_marker l rest now e p))
        ]
    search_marker-After _ bytes now l e p = at_continue p

    buffer_bytes-After :
        (bytes : Bytes) (now : ℕ) (l : Link) → P l → After P (buffer_bytes env bytes now l)
    unfolding buffer_bytes
    buffer_bytes-After bytes now l p =
        if-After
          (ltb max_receive_buffer (length l.receive_buffer)
            || ltb (max_receive_buffer - length l.receive_buffer) (length bytes))
          (at_return (inv.on_overflow l p))
          (search_marker-After l.state bytes now _ refl (inv.on_buffer l _ p))

    receive-keeps :
        (bytes : Bytes) (now : ℕ) (l : Link) {l' : Link}
        → receive env bytes now l ≡ some l'
        → P l
        → P l'
    unfolding receive process_packets
    receive-keeps bytes now l e p = elim (Round-cases (buffer_bytes env bytes now l)) [
      | inl (m, r) ↦
          subst P (cc (receive_returns m r))
            (After-link P m (buffer_bytes-After bytes now l p) (inl r))
      | inr (m, r) ↦
          process_packets_loop-keeps _ now m (sym (receive_continues m r) ∙ e)
            (After-link P m (buffer_bytes-After bytes now l p) (inr r))
    ]
      where
        receive_returns :
            (m : Link) → buffer_bytes env bytes now l ≡ returns m → receive env bytes now l ≡ some m
        receive_returns m r = rw (r, receive)

        receive_continues :
            (m : Link)
            → buffer_bytes env bytes now l ≡ continues m
            → receive env bytes now l ≡ process_packets env now m
        receive_continues m r = rw (r, receive)

    pub Step-keeps : {l l' : Link} → Step l l' → P l → P l'
    Step-keeps (starts now) p = inv.on_start now _ p
    Step-keeps (receives bytes now e) p = receive-keeps bytes now _ e p
    Step-keeps (ticks now) p = inv.on_tick now _ p
    Step-keeps (sends clock payload) p = inv.on_send clock payload _ p

    pub Reach-keeps : {l l' : Link} → Reach l l' → P l → P l'
    Reach-keeps here p = p
    Reach-keeps (next r s) p = Step-keeps s (Reach-keeps r p)
