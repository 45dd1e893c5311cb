-- ===== src/Iap2/Probe.antt =====
-- The wireless handover after the authentication (src/iap2/carplay_probe.cpp,
-- include/aa2acp/iap2/carplay_probe.hpp), over a link that answers `send_control`.
use aa2acp.Base.{
  ℕ, zero, suc, ◌+◌, ◌*◌, ◌-◌, ◌%◌, ◌^◌, Bool, true, false, not, ◌&&◌, ◌||◌, List, [], ◌∷◌, ◌++◌,
  Option, none, some, ◌==◌, length, is_empty, get_or, if◌then◌else◌, Bytes, u16_high, u16_low,
}
use aa2acp.Iap2.Csm.{
  Message, encode, bytes_parameter, encode_bytes_parameter, first_bytes_parameter, push, next,
}
pub mod Announcement
pub mod Handover
mod Tests

abbrev pub carplay_availability : ℕ
carplay_availability = 0x4300

abbrev pub carplay_start_session : ℕ
carplay_start_session = 0x4301

abbrev pub request_accessory_wifi_configuration : ℕ
request_accessory_wifi_configuration = 0x5702

abbrev pub accessory_wifi_configuration : ℕ
accessory_wifi_configuration = 0x5703

abbrev pub wireless_carplay_update : ℕ
wireless_carplay_update = 0x4e0d

unfoldable pub append_u16 : Bytes → ℕ → Bytes
append_u16 output value = output ++ u16_high value ∷ u16_low value ∷ []

unfoldable pub append_parameter : Bytes → ℕ → Bytes → Bytes
append_parameter output id value =
    append_u16 (append_u16 output ((length value + 4) % 65536)) id ++ value

unfoldable pub attributes : Bool → Bytes → Bytes
attributes available identifier =
    let output = append_parameter [] 0 ((if available then 1 else 0) ∷ []) in
    if is_empty identifier then output else append_parameter output 1 (identifier ++ 0 ∷ [])

-- The string without one last zero byte.
unfoldable pub without_zero : Bytes → Bytes
without_zero [] = []
without_zero (b ∷ []) = if b == 0 then [] else b ∷ []
without_zero (a ∷ b ∷ rest) = a ∷ without_zero (b ∷ rest)

unfoldable pub string_parameter : Message → ℕ → Bytes
string_parameter message id = elim (first_bytes_parameter message.payload id) [
  | none ↦ []
  | some value ↦ without_zero value
]

unfoldable pub u32_parameter : Message → ℕ → ℕ
u32_parameter message id = elim (first_bytes_parameter message.payload id) [
  | none ↦ 0
  | some value ↦
      if not (length value == 4)
      then 0
      else get_or value 0 0 * 2 ^ 24
        + get_or value 1 0 * 2 ^ 16
        + get_or value 2 0 * 2 ^ 8
        + get_or value 3 0
]

unfoldable pub u8_parameter : Message → ℕ → ℕ
u8_parameter message id = elim (first_bytes_parameter message.payload id) [
  | none ↦ 0
  | some value ↦ if length value == 1 then get_or value 0 0 else 0
]

pub record WifiConfiguration : Type 0 where
  pub ssid : Bytes
  pub passphrase : Bytes
  pub security_type : ℕ
  pub channel : ℕ

-- `buffer` is the decoder; `attached` says whether `link_` is set, and `has_join_handler` whether
-- `wifi_join_handler_` is.
pub record Probe : Type 0 where
  pub buffer : Bytes
  pub attached : Bool
  pub bluetooth_identifier : Bytes
  pub has_join_handler : Bool
  pub request_wifi : Bool
  pub awaiting_wifi_configuration : Bool
  pub started : Bool
  pub done : Bool
  pub failed : Bool
  pub airplay_port : ℕ
  pub airplay_host : Bytes

abbrev pub new_probe : Bytes → Probe
new_probe identifier = record {
  buffer = [];
  attached = false;
  bluetooth_identifier = identifier;
  has_join_handler = false;
  request_wifi = false;
  awaiting_wifi_configuration = false;
  started = false;
  done = false;
  failed = false;
  airplay_port = 0;
  airplay_host = [];
}

-- The link with its `send_control`, and the handler that joins a network, which may answer
-- differently at each state of the link.
pub record Environment : Type 1 where
  pub Link : Type 0
  pub send_control : Bytes → Link → Bool × Link
  pub join : WifiConfiguration → Link → Bool

unfoldable pub attach : Probe → Probe
attach p = record p { attached = true }

unfoldable pub request_wifi_configuration : Bool → Probe → Probe
request_wifi_configuration enabled p = record p { request_wifi = enabled }

unfoldable pub set_wifi_join_handler : Probe → Probe
set_wifi_join_handler p = record p { has_join_handler = true; request_wifi = true }

unfoldable pub set_airplay_endpoint : Bytes → ℕ → Probe → Probe
set_airplay_endpoint host port p = record p { airplay_host = host; airplay_port = port }

unfoldable pub fail : Probe → Probe
fail p = record p { failed = true }

-- The payload of CarPlayAvailability.
unfoldable pub availability : Bytes → Bytes
availability identifier = append_parameter [] 1 (attributes true identifier)

module _ (env : Environment) where
  unfoldable pub try_send : Bytes → Probe → env.Link → Bool × env.Link
  try_send bytes p link = if p.attached then env.send_control bytes link else (false, link)

  unfoldable pub begin : Probe → env.Link → Probe × env.Link
  begin p link =
      let (requested, link1) =
        env.send_control (encode request_accessory_wifi_configuration []) link in
      let (announced, link2) =
        env.send_control (encode carplay_availability (availability p.bluetooth_identifier)) link in
      if not p.attached
      then (fail p, link)
      else if p.request_wifi
      then (if requested
          then (record p { awaiting_wifi_configuration = true; started = true }, link1)
          else (fail p, link1))
      else if is_empty p.bluetooth_identifier
      then (fail p, link)
      else if announced
      then (record p { started = true }, link2)
      else (fail p, link2)

  -- CarPlayStartSession.
  unfoldable pub handle_start_session : Message → Probe → env.Link → Probe × env.Link
  handle_start_session message p link =
      let p1 = record p {
        airplay_port = u32_parameter message 2;
        airplay_host = string_parameter message 3;
      } in
      let (requested, link1) = try_send (encode request_accessory_wifi_configuration []) p1 link in
      if not p.request_wifi
      then (record p1 { done = true }, link)
      else if requested
      then (record p1 { awaiting_wifi_configuration = true }, link1)
      else (fail p1, link1)

  abbrev pub configuration_of : Message → WifiConfiguration
  configuration_of message = record {
    ssid = string_parameter message 1;
    passphrase = string_parameter message 2;
    security_type = u8_parameter message 3;
    channel = u8_parameter message 4;
  }

  -- The end of AccessoryWifiConfiguration, when there is a handler and it has joined the network.
  unfoldable pub report_join : Probe → env.Link → Probe × env.Link
  report_join p link =
      let (reported, link1) =
        try_send (encode_bytes_parameter wireless_carplay_update 0 (1 ∷ [])) p link in
      if not reported
      then (fail p, link1)
      else if not (is_empty p.airplay_host) && not (p.airplay_port == 0)
      then (record p { done = true }, link1)
      else (p, link1)

  unfoldable pub handle_wifi_configuration : Message → Probe → env.Link → Probe × env.Link
  handle_wifi_configuration message p link =
      if is_empty (configuration_of message).ssid
      then (fail p, link)
      else if not p.has_join_handler
      then (record p { done = true }, link)
      else if env.join (configuration_of message) link
      then report_join p link
      else (fail p, link)

  unfoldable pub handle : Message → Probe → env.Link → Probe × env.Link
  handle message p link =
      if message.id == carplay_start_session
      then handle_start_session message p link
      else if message.id == accessory_wifi_configuration && p.awaiting_wifi_configuration
      then handle_wifi_configuration message p link
      else (p, link)

  -- The loop of `receive`, on fuel; the outer option. Every message takes a byte of the buffer at
  -- least.
  unfoldable pub receive_loop : ℕ → Probe → env.Link → Option (Probe × env.Link)
  receive_loop zero p link = none
  receive_loop (suc fuel) p link = elim (next p.buffer) [
    | none ↦ none
    | some (found, rest) ↦ elim found [
      | none ↦ some (record p { buffer = rest }, link)
      | some message ↦
          let (p1, link1) = handle message (record p { buffer = rest }) link in
          receive_loop fuel p1 link1
    ]
  ]

  unfoldable pub receive : Bytes → Probe → env.Link → Option (Probe × env.Link)
  receive bytes p link =
      let pushed = record p { buffer = push p.buffer bytes } in
      receive_loop (suc (length pushed.buffer)) pushed link
