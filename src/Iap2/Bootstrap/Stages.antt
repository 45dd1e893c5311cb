-- ===== src/Iap2/Bootstrap/Stages.antt =====
-- When a message fails or completes the authentication, and what holds along any history
-- (src/iap2/bootstrap.cpp).
use aa2acp.Base.{
  ◌≡◌, ◌≢◌, ◌↔◌, ◌⊎◌, inl, inr, refl, true, false, none, some, arith, Bytes, Option-cases,
}
use aa2acp.Iap2.Csm.{
  Message, encode_bytes_parameter, first_bytes_parameter, verify_mfi_v2_signature,
}
use aa2acp.Iap2.Bootstrap.{
  Stage, Session, Environment, fail, try_send, send_empty, handle_identification, send_challenge,
  handle_certificate, is_valid_response, handle_response, handle_stage, handle,
  identification_rejected, authentication_certificate, request_authentication_challenge_response,
  authentication_failed, authentication_response,
}

module _ (env : Environment) where
  -- The reasons for which a message fails the session.
  abbrev pub Fails : Stage → Message → Session → env.Link → Type 0
  Fails Stage.await_identification m s link = m.id ≡ identification_rejected
  Fails Stage.await_certificate m s link =
      (m.id ≡ authentication_certificate)
      × ((first_bytes_parameter m.payload 0 ≡ none)
          ⊎ (try_send env
              (encode_bytes_parameter request_authentication_challenge_response 0
                (env.random s.drawn))
              s link).0
            ≡ false)
  Fails Stage.await_response m s link =
      (m.id ≡ authentication_failed)
      ⊎ ((m.id ≡ authentication_response) × (is_valid_response env m s ≡ false))
  Fails Stage.failed m s link = Unit {0}
  Fails _ m s link = ⊥

  pub handle-buffer :
      (m : Message) (s : Session) (link : env.Link) → (handle env m s link).0.buffer ≡ s.buffer
  unfolding handle handle_stage handle_identification handle_certificate handle_response
      send_challenge send_empty fail
  handle-buffer m s link = ground arith

  handle_identification-Fails_iff :
      (m : Message) (s : Session) (link : env.Link)
      → s.stage ≡ Stage.await_identification
      → ((handle_identification env m s link).0.stage ≡ Stage.failed)
        ↔ (m.id ≡ identification_rejected)
  unfolding handle_identification send_empty fail
  handle_identification-Fails_iff m s link e = (λ h. ground (arith, e), λ h. ground arith)

  handle_certificate-Fails_iff :
      (m : Message) (s : Session) (link : env.Link)
      → s.stage ≡ Stage.await_certificate
      → ((handle_certificate env m s link).0.stage ≡ Stage.failed)
        ↔ Fails Stage.await_certificate m s link
  unfolding handle_certificate send_challenge fail try_send
  handle_certificate-Fails_iff m s link e = (λ h. ground (arith, e), λ h. ground arith)

  handle_response-Fails_iff :
      (m : Message) (s : Session) (link : env.Link)
      → s.stage ≡ Stage.await_response
      → ((handle_response env m s link).0.stage ≡ Stage.failed)
        ↔ Fails Stage.await_response m s link
  unfolding handle_response send_empty fail
  handle_response-Fails_iff m s link e = (λ h. ground (arith, e), λ h. ground arith)

  handle_stage-Fails_iff :
      (stage : Stage) (m : Message) (s : Session) (link : env.Link)
      → s.stage ≡ stage
      → ((handle_stage env stage m s link).0.stage ≡ Stage.failed) ↔ Fails stage m s link
  unfolding handle_stage
  handle_stage-Fails_iff Stage.await_identification m s link e =
      handle_identification-Fails_iff m s link e
  handle_stage-Fails_iff Stage.await_certificate m s link e =
      handle_certificate-Fails_iff m s link e
  handle_stage-Fails_iff Stage.await_response m s link e = handle_response-Fails_iff m s link e
  handle_stage-Fails_iff Stage.failed m s link e = (λ h. tt, λ h. e)
  handle_stage-Fails_iff Stage.idle m s link e = (λ h. cc, λ h. absurd h)
  handle_stage-Fails_iff Stage.done m s link e = (λ h. cc, λ h. absurd h)

  -- A message leaves the session failed exactly if: it rejects the identification that is awaited; it
  -- is the awaited certificate and has no certificate parameter, or the link refuses the challenge;
  -- it says that authentication failed, or is a response that is not valid, when a response is
  -- awaited; or the session had failed before. A link that refuses another message of the session
  -- does not count.
  pub handle-Fails_iff :
      (m : Message) (s : Session) (link : env.Link)
      → ((handle env m s link).0.stage ≡ Stage.failed) ↔ Fails s.stage m s link
  unfolding handle
  handle-Fails_iff m s link = handle_stage-Fails_iff s.stage m s link refl

  -- The message is a response with a signature that passes the check against the session's own
  -- challenge and certificate.
  abbrev pub Authenticates : Message → Session → Type 0
  Authenticates m s =
      (m.id ≡ authentication_response)
      × (signature : Bytes) × (first_bytes_parameter m.payload 0 ≡ some signature)
      × (verify_mfi_v2_signature env.ssl s.challenge signature s.certificate ≡ true)

  is_valid_response_iff :
      (m : Message) (s : Session)
      → (is_valid_response env m s ≡ true) ↔ (
          (signature : Bytes) × (first_bytes_parameter m.payload 0 ≡ some signature)
          × (verify_mfi_v2_signature env.ssl s.challenge signature s.certificate ≡ true))
  unfolding is_valid_response
  is_valid_response_iff m s = elim (Option-cases (first_bytes_parameter m.payload 0)) [
    | inl e ↦ rw (e, is_valid_response) (λ h. cc, λ h. cc)
    | inr (signature, e) ↦
        rw (e, is_valid_response) (λ h. (signature, refl, h), λ (other, same, h). ground arith)
  ]

  handle_response-done_iff :
      (m : Message) (s : Session) (link : env.Link)
      → s.stage ≡ Stage.await_response
      → ((handle_response env m s link).0.stage ≡ Stage.done)
        ↔ ((m.id ≡ authentication_response) × (is_valid_response env m s ≡ true))
  unfolding handle_response send_empty fail
  handle_response-done_iff m s link e = (λ h. ground (arith, e), λ h. ground arith)

  handle_stage-done_iff :
      (stage : Stage) (m : Message) (s : Session) (link : env.Link)
      → s.stage ≡ stage
      → stage ≢ Stage.done
      → ((handle_stage env stage m s link).0.stage ≡ Stage.done)
        ↔ ((stage ≡ Stage.await_response) × Authenticates m s)
  unfolding handle_stage handle_identification handle_certificate send_challenge send_empty fail
  handle_stage-done_iff Stage.await_identification m s link e other =
      (λ h. ground (arith, e), λ h. cc)
  handle_stage-done_iff Stage.await_certificate m s link e other = (λ h. ground (arith, e), λ h. cc)
  handle_stage-done_iff Stage.await_response m s link e other =
      let (to, from) = handle_response-done_iff m s link e in
      let (valid, invalid) = is_valid_response_iff m s in
      (
        λ h. let (id, v) = to h in let (sg, found, ok) = valid v in (refl, (id, sg, found, ok)),
        λ (_, (id, sg, found, ok)). from (id, invalid (sg, found, ok)),
      )
  handle_stage-done_iff Stage.failed m s link e other = (λ h. cc, λ h. cc)
  handle_stage-done_iff Stage.idle m s link e other = (λ h. cc, λ h. cc)
  handle_stage-done_iff Stage.done m s link e other = absurd (other refl)

  -- A message completes the authentication of a session that was not done exactly if the session
  -- awaits a response, and the message is one whose signature passes the check against the
  -- session's own challenge and certificate.
  pub handle-done_iff :
      (m : Message) (s : Session) (link : env.Link)
      → s.stage ≢ Stage.done
      → ((handle env m s link).0.stage ≡ Stage.done)
        ↔ ((s.stage ≡ Stage.await_response) × Authenticates m s)
  unfolding handle
  handle-done_iff m s link other = handle_stage-done_iff s.stage m s link refl other
