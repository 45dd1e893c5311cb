-- ===== src/Iap2/Probe/Tests.antt =====
-- Runs of the handover, and its theorems at concrete inputs (tests/carplay_probe_tests.cpp).
use aa2acp.Base.{◌≡◌, ◌↔◌, refl, true, List, [], ◌∷◌, some, arith, if◌then◌else◌, Bytes}
use aa2acp.Iap2.Csm.{
  Message, encode, encode_bytes_parameter, first_bytes_parameter_loop, first_bytes_parameter, next,
}
use aa2acp.Iap2.Probe.{
  without_zero, string_parameter, u32_parameter, u8_parameter, Probe, new_probe, Environment,
  attach, set_wifi_join_handler, set_airplay_endpoint, fail, try_send, begin, report_join,
  handle_wifi_configuration, handle, carplay_availability,
}
use aa2acp.Iap2.Probe.Announcement.{Announces, begin-Announces}
use aa2acp.Iap2.Probe.Handover.{Completes, handle-Completes_iff}

-- A link that takes everything and remembers it, and a network that can be joined.
abbrev willing : Environment
willing = record {
  Link = List Bytes;
  send_control = λ bytes sent. (true, bytes ∷ sent);
  join = λ configuration sent. true;
}

abbrev asking : Probe
asking = record (new_probe (65 ∷ [])) {
  attached = true;
  has_join_handler = true;
  request_wifi = true;
  awaiting_wifi_configuration = true;
  started = true;
  airplay_port = 7000;
  airplay_host = 104 ∷ [];
}

abbrev settings : Message
settings = record { id = 0x5703; payload = 0 ∷ 7 ∷ 0 ∷ 1 ∷ 110 ∷ 101 ∷ 0 ∷ 0 ∷ 5 ∷ 0 ∷ 4 ∷ 36 ∷ [] }

ssid_read : string_parameter settings 1 ≡ 110 ∷ 101 ∷ []
unfolding string_parameter first_bytes_parameter first_bytes_parameter_loop without_zero
ssid_read = refl

channel_read : u8_parameter settings 4 ≡ 36
unfolding u8_parameter first_bytes_parameter first_bytes_parameter_loop
channel_read = refl

port_read :
    u32_parameter (record { id = 0x4301; payload = 0 ∷ 8 ∷ 0 ∷ 2 ∷ 0 ∷ 0 ∷ 0x1b ∷ 0x58 ∷ [] }) 2
    ≡ 7000
unfolding u32_parameter first_bytes_parameter first_bytes_parameter_loop
port_read = refl

joined : handle willing settings asking [] ≡ (
  record asking { done = true },
  (0x40 ∷ 0x40 ∷ 0 ∷ 11 ∷ 0x4e ∷ 0x0d ∷ 0 ∷ 5 ∷ 0 ∷ 0 ∷ 1 ∷ []) ∷ [],
)
unfolding handle handle_wifi_configuration report_join try_send string_parameter
    first_bytes_parameter first_bytes_parameter_loop without_zero encode_bytes_parameter encode
joined = refl

endpoint_set :
    set_airplay_endpoint (104 ∷ []) 7000 (set_wifi_join_handler (attach (new_probe [])))
    ≡ record (new_probe []) {
      attached = true;
      has_join_handler = true;
      request_wifi = true;
      airplay_port = 7000;
      airplay_host = 104 ∷ [];
    }
unfolding set_airplay_endpoint set_wifi_join_handler attach
endpoint_set = refl

begin-Announces_example :
    (payload bytes : Bytes) × (next bytes
      ≡ some (some (record { id = carplay_availability; payload = payload }), []))
    × Announces (65 ∷ 66 ∷ []) payload
    × (begin willing (record (new_probe (65 ∷ 66 ∷ [])) { attached = true }) [] ≡ (
      if true
          then record (new_probe (65 ∷ 66 ∷ [])) { attached = true; started = true }
          else fail (record (new_probe (65 ∷ 66 ∷ [])) { attached = true }),
      bytes ∷ [],
    ))
begin-Announces_example =
    begin-Announces willing (record (new_probe (65 ∷ 66 ∷ [])) { attached = true }) [] refl refl
      (omega arith) (omega arith)

handle-Completes_iff_example :
    ((handle willing settings asking []).0.done ≡ true) ↔ Completes willing settings asking []
handle-Completes_iff_example = handle-Completes_iff willing settings asking [] refl
