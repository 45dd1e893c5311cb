-- ===== src/Iap2/Probe/Handover.antt =====
-- When the handover is complete (src/iap2/carplay_probe.cpp).
use aa2acp.Base.{
  ℕ, zero, suc, ◌<◌, ◌≡◌, ◌≢◌, ◌↔◌, ◌⊎◌, ap, ◌∙◌, true, false, [], ◌∷◌, Option, none, some, arith,
  length, is_empty, Bytes,
}
use aa2acp.Iap2.Csm.{Message, encode_bytes_parameter, push, next}
use aa2acp.Iap2.Csm.Messages.{Answers, next_total}
use aa2acp.Iap2.Probe.{
  string_parameter, Probe, Environment, fail, try_send, configuration_of, report_join,
  handle_start_session, handle_wifi_configuration, handle, receive_loop, receive,
  carplay_start_session, accessory_wifi_configuration, wireless_carplay_update,
}

module _ (env : Environment) where
  -- The probe may go on without a handler; with one, it has joined the network, the link took the
  -- report, and the AirPlay endpoint is known.
  abbrev pub IsJoined : Message → Probe → env.Link → Type 0
  IsJoined m p link =
      (p.has_join_handler ≡ false)
      ⊎ ((env.join (configuration_of env m) link ≡ true)
          × ((try_send env (encode_bytes_parameter wireless_carplay_update 0 (1 ∷ [])) p link).0
              ≡ true)
          × (is_empty p.airplay_host ≡ false)
          × (p.airplay_port ≢ 0))

  -- The messages that complete the handover.
  abbrev pub Completes : Message → Probe → env.Link → Type 0
  Completes m p link =
      ((m.id ≡ carplay_start_session) × (p.request_wifi ≡ false))
      ⊎ ((m.id ≡ accessory_wifi_configuration)
          × (p.awaiting_wifi_configuration ≡ true)
          × (is_empty (string_parameter m 1) ≡ false)
          × IsJoined m p link)

  -- A message completes a handover that was not complete exactly if it starts the session and no Wi-Fi
  -- settings are wanted, or it brings the awaited Wi-Fi settings with a nonempty SSID and the probe has
  -- no join handler, or the handler joins the network, the link takes the report, and host and port of
  -- the AirPlay endpoint are known by then.
  pub handle-Completes_iff :
      (m : Message) (p : Probe) (link : env.Link)
      → p.done ≡ false
      → ((handle env m p link).0.done ≡ true) ↔ Completes m p link
  unfolding handle handle_start_session handle_wifi_configuration report_join fail
  handle-Completes_iff m p link e = (λ h. ground (arith, e), λ h. ground (arith, e))

  -- What never goes back to false.
  abbrev pub Keeps : Probe → Probe → Type 0
  Keeps p p' =
      (p.done ≡ true → p'.done ≡ true)
      × (p.failed ≡ true → p'.failed ≡ true)
      × (p.started ≡ true → p'.started ≡ true)

  handle-Keeps : (m : Message) (p : Probe) (link : env.Link) → Keeps p (handle env m p link).0
  unfolding handle handle_start_session handle_wifi_configuration report_join fail
  handle-Keeps m p link = (λ h. ground (arith, h), λ h. ground (arith, h), λ h. ground (arith, h))

  handle-buffer :
      (m : Message) (p : Probe) (link : env.Link) → (handle env m p link).0.buffer ≡ p.buffer
  unfolding handle handle_start_session handle_wifi_configuration report_join fail
  handle-buffer m p link = ground arith

  receive_loop-none :
      (fuel : ℕ) (p : Probe) (link : env.Link) (rest : Bytes)
      → next p.buffer ≡ some (none, rest)
      → receive_loop env (suc fuel) p link ≡ some (record p { buffer = rest }, link)
  unfolding receive_loop
  receive_loop-none fuel p link rest run = rw (run, receive_loop)

  receive_loop-some :
      (fuel : ℕ) (p : Probe) (link : env.Link) (m : Message) (rest : Bytes)
      → next p.buffer ≡ some (some m, rest)
      → receive_loop env (suc fuel) p link
        ≡ receive_loop env fuel
            (handle env m (record p { buffer = rest }) link).0
            (handle env m (record p { buffer = rest }) link).1
  unfolding receive_loop
  receive_loop-some fuel p link m rest run = rw (run, receive_loop)

  abbrev Receives : ℕ → Probe → env.Link → Type 0
  Receives fuel p link =
      (p' : Probe) × (link' : env.Link) × (receive_loop env fuel p link ≡ some (p', link'))
      × Keeps p p'

  Keeps-after : (a b c : Probe) → Keeps a b → Keeps b c → Keeps a c
  Keeps-after a b c (d, f, s) (d', f', s') = (λ h. d' (d h), λ h. f' (f h), λ h. s' (s h))

  receive_loop_total :
      (fuel : ℕ) (p : Probe) (link : env.Link) → length p.buffer < fuel → Receives fuel p link
  receive_loop_total zero p link h = absurd (omega arith)
  receive_loop_total (suc fuel) p link h =
      let (found, rest, run, a) = next_total p.buffer in
      round found rest run a (λ p' link' shorter. receive_loop_total fuel p' link' shorter)
    where
      round :
          (found : Option Message) (rest : Bytes)
          → next p.buffer ≡ some (found, rest)
          → Answers (length p.buffer) found rest
          → ((p' : Probe) (link' : env.Link) → length p'.buffer < fuel → Receives fuel p' link')
          → Receives (suc fuel) p link
      round none rest run a later = (
        record p { buffer = rest },
        link,
        receive_loop-none fuel p link rest run,
        (λ h. h, λ h. h, λ h. h),
      )
      round (some m) rest run a later =
          let taken = record p { buffer = rest } in
          let after = handle env m taken link in
          let (p', link', rec, kept) =
            later after.0 after.1 (omega (arith, ap length (handle-buffer m taken link))) in
          (
            p',
            link',
            receive_loop-some fuel p link m rest run ∙ rec,
            Keeps-after taken after.0 p' (handle-Keeps m taken link) kept,
          )

  -- `receive` always returns, and a probe that is done, has failed or has started stays so.
  pub receive-Keeps :
      (bytes : Bytes) (p : Probe) (link : env.Link)
      → (p' : Probe) × (link' : env.Link) × (receive env bytes p link ≡ some (p', link'))
        × Keeps p p'
  unfolding receive
  receive-Keeps bytes p link =
      receive_loop_total (suc (length (push p.buffer bytes)))
        (record p { buffer = push p.buffer bytes }) link (omega arith)
