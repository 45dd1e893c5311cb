-- ===== src/Iap2/Bootstrap/History.antt =====
-- What holds of a session along any history of calls (src/iap2/bootstrap.cpp).
use aa2acp.Base.{
  ℕ, zero, suc, ◌-◌, ◌<◌, ◌≡◌, inl, inr, refl, sym, ap, subst, ◌∙◌, true, false, Option, none, some,
  some-injective, arith, Bytes, length, Option-cases,
}
use aa2acp.Iap2.Csm.{Message, first_bytes_parameter, verify_mfi_v2_signature, push, next}
use aa2acp.Iap2.Csm.Messages.{Answers, next_total}
use aa2acp.Iap2.Bootstrap.{
  Stage, Session, new_session, Environment, attach, fail, send_empty, begin, handle_identification,
  send_challenge, handle_certificate, is_valid_response, handle_response, handle_stage, handle,
  receive_loop, receive,
}
use aa2acp.Iap2.Bootstrap.Stages.{handle-buffer}

module _ (env : Environment) where
  -- The challenge is the last one drawn.
  abbrev pub IsDrawn : Bytes → ℕ → Type 0
  IsDrawn challenge drawn = (0 < drawn) × (challenge ≡ env.random (drawn - 1))

  abbrev pub IsAuthenticAt : Stage → Bytes → Bytes → ℕ → Type 0
  IsAuthenticAt Stage.await_response challenge certificate drawn = IsDrawn challenge drawn
  IsAuthenticAt Stage.done challenge certificate drawn =
      IsDrawn challenge drawn
      × (signature : Bytes) × (verify_mfi_v2_signature env.ssl challenge signature certificate
          ≡ true)
  IsAuthenticAt _ challenge certificate drawn = Unit {0}

  abbrev pub IsAuthentic : Session → Type 0
  IsAuthentic s = IsAuthenticAt s.stage s.challenge s.certificate s.drawn

  valid_response :
      (m : Message) (s : Session)
      → is_valid_response env m s ≡ true
      → (signature : Bytes) × (verify_mfi_v2_signature env.ssl s.challenge signature s.certificate
          ≡ true)
  unfolding is_valid_response
  valid_response m s h = elim (Option-cases (first_bytes_parameter m.payload 0)) [
    | inl e ↦ (let no : false ≡ true = rw (e, is_valid_response) at h in absurd cc)
    | inr (signature, e) ↦ (signature, rw (e, is_valid_response) at h)
  ]

  handle_identification-IsAuthentic :
      (m : Message) (s : Session) (link : env.Link)
      → s.stage ≡ Stage.await_identification
      → IsAuthentic (handle_identification env m s link).0
  unfolding handle_identification send_empty fail
  handle_identification-IsAuthentic m s link e = ground (arith, e)

  handle_certificate-IsAuthentic :
      (m : Message) (s : Session) (link : env.Link)
      → s.stage ≡ Stage.await_certificate
      → IsAuthentic (handle_certificate env m s link).0
  unfolding handle_certificate fail send_challenge
  handle_certificate-IsAuthentic m s link e = ground (arith, e)

  handle_response-IsAuthentic :
      (m : Message) (s : Session) (link : env.Link)
      → s.stage ≡ Stage.await_response
      → IsDrawn s.challenge s.drawn
      → IsAuthentic (handle_response env m s link).0
  unfolding handle_response fail send_empty
  handle_response-IsAuthentic m s link e drawn = ground (arith, e, valid_response m s, drawn)

  handle_stage-IsAuthentic :
      (stage : Stage) (m : Message) (s : Session) (link : env.Link)
      → s.stage ≡ stage
      → IsAuthenticAt stage s.challenge s.certificate s.drawn
      → IsAuthentic (handle_stage env stage m s link).0
  unfolding handle_stage
  handle_stage-IsAuthentic Stage.await_identification m s link e h =
      handle_identification-IsAuthentic m s link e
  handle_stage-IsAuthentic Stage.await_certificate m s link e h =
      handle_certificate-IsAuthentic m s link e
  handle_stage-IsAuthentic Stage.await_response m s link e h =
      handle_response-IsAuthentic m s link e h
  handle_stage-IsAuthentic Stage.failed m s link e h = rw e h
  handle_stage-IsAuthentic Stage.idle m s link e h = rw e h
  handle_stage-IsAuthentic Stage.done m s link e h = rw e h

  handle-IsAuthentic :
      (m : Message) (s : Session) (link : env.Link)
      → IsAuthentic s
      → IsAuthentic (handle env m s link).0
  unfolding handle
  handle-IsAuthentic m s link h = handle_stage-IsAuthentic s.stage m s link refl h

  begin-IsAuthentic : (s : Session) (link : env.Link) → IsAuthentic (begin env s link).0
  unfolding begin send_empty fail
  begin-IsAuthentic s link = ground arith

  -- What the loop of `receive` comes to: an authentic session with a buffer that is no longer.
  abbrev Receives : ℕ → Session → env.Link → Type 0
  Receives fuel s link =
      (s' : Session) × (link' : env.Link) × (receive_loop env fuel s link ≡ some (s', link'))
      × (IsAuthentic s → IsAuthentic s')

  pub receive_loop-none :
      (fuel : ℕ) (s : Session) (link : env.Link) (rest : Bytes)
      → next s.buffer ≡ some (none, rest)
      → receive_loop env (suc fuel) s link ≡ some (record s { buffer = rest }, link)
  unfolding receive_loop
  receive_loop-none fuel s link rest run = rw (run, receive_loop)

  pub receive_loop-some :
      (fuel : ℕ) (s : Session) (link : env.Link) (m : Message) (rest : Bytes)
      → next s.buffer ≡ some (some m, rest)
      → receive_loop env (suc fuel) s link
        ≡ receive_loop env fuel
            (handle env m (record s { buffer = rest }) link).0
            (handle env m (record s { buffer = rest }) link).1
  unfolding receive_loop
  receive_loop-some fuel s link m rest run = rw (run, receive_loop)

  receive_loop_total :
      (fuel : ℕ) (s : Session) (link : env.Link) → length s.buffer < fuel → Receives fuel s link
  receive_loop_total zero s link h = absurd (omega arith)
  receive_loop_total (suc fuel) s link h =
      let (found, rest, run, a) = next_total s.buffer in
      round found rest run a (λ s' l' shorter. receive_loop_total fuel s' l' shorter)
    where
      round :
          (found : Option Message) (rest : Bytes)
          → next s.buffer ≡ some (found, rest)
          → Answers (length s.buffer) found rest
          → ((s' : Session) (link' : env.Link) → length s'.buffer < fuel → Receives fuel s' link')
          → Receives (suc fuel) s link
      round none rest run a later =
          (record s { buffer = rest }, link, receive_loop-none fuel s link rest run, λ h. h)
      round (some m) rest run a later =
          let taken = record s { buffer = rest } in
          let after = handle env m taken link in
          let (s', link', rec, kept) =
            later after.0 after.1 (omega (arith, ap length (handle-buffer env m taken link))) in
          (
            s',
            link',
            receive_loop-some fuel s link m rest run ∙ rec,
            λ h. kept (handle-IsAuthentic m taken link h),
          )

  -- `receive` always returns.
  receive_total :
      (bytes : Bytes) (s : Session) (link : env.Link)
      → (s' : Session) × (link' : env.Link) × (receive env bytes s link ≡ some (s', link'))
        × (IsAuthentic s → IsAuthentic s')
  unfolding receive
  receive_total bytes s link =
      receive_loop_total (suc (length (push s.buffer bytes)))
        (record s { buffer = push s.buffer bytes }) link (omega arith)

  -- The histories of a session, with any link at any call.
  pub data Reach : Session → Type 0 where
    fresh : Reach new_session
    attached : {s : Session} → Reach s → Reach (attach s)
    began : {s : Session} (link : env.Link) → Reach s → Reach (begin env s link).0
    received :
        {s s' : Session} (bytes : Bytes) (link link' : env.Link)
        → Reach s
        → receive env bytes s link ≡ some (s', link')
        → Reach s'

  attach-IsAuthentic : (s : Session) → IsAuthentic s → IsAuthentic (attach s)
  unfolding attach
  attach-IsAuthentic s h = h

  Reach-IsAuthentic : (s : Session) → Reach s → IsAuthentic s
  Reach-IsAuthentic s fresh = tt
  Reach-IsAuthentic s (attached {s = t} r) = attach-IsAuthentic t (Reach-IsAuthentic t r)
  Reach-IsAuthentic s (began {s = t} link r) = begin-IsAuthentic t link
  Reach-IsAuthentic s (received {s = t} bytes link link' r run) =
      let (s', l', e, kept) = receive_total bytes t link in
      let same : s' ≡ s = ap (λ (o : Session × env.Link). o.0) (some-injective _ _ (sym e ∙ run)) in
      subst IsAuthentic same (kept (Reach-IsAuthentic t r))

  -- Along any history of calls, with any link, a session that is done has checked a signature against
  -- the challenge it drew last and the certificate it holds.
  pub Reach-done :
      (s : Session)
      → Reach s
      → s.stage ≡ Stage.done
      → (s.challenge ≡ env.random (s.drawn - 1))
        × (signature : Bytes) × (verify_mfi_v2_signature env.ssl s.challenge signature s.certificate
            ≡ true)
  Reach-done s r e =
      let (drawn, signature, ok) =
        subst (λ x. IsAuthenticAt x s.challenge s.certificate s.drawn) e (Reach-IsAuthentic s r) in
      (drawn.1, signature, ok)
