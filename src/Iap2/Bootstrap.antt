-- ===== src/Iap2/Bootstrap.antt =====
-- The identification and authentication of the accessory (src/iap2/bootstrap.cpp,
-- include/aa2acp/iap2/bootstrap.hpp), over a link that answers `send_control`.
use aa2acp.Base.{
  ℕ, zero, suc, ◌+◌, Bool, true, false, not, List, [], ◌∷◌, Option, none, some, ◌==◌, length,
  if◌then◌else◌, Bytes,
}
use aa2acp.Iap2.Csm.{
  Message, OpenSsl, encode, encode_bytes_parameter, first_bytes_parameter, verify_mfi_v2_signature,
  push, next,
}
pub mod Stages
pub mod History
pub mod Chunks
mod Tests

abbrev pub start_identification : ℕ
start_identification = 0x1d00

abbrev pub identification_information : ℕ
identification_information = 0x1d01

abbrev pub identification_accepted : ℕ
identification_accepted = 0x1d02

abbrev pub identification_rejected : ℕ
identification_rejected = 0x1d03

abbrev pub request_authentication_certificate : ℕ
request_authentication_certificate = 0xaa00

abbrev pub authentication_certificate : ℕ
authentication_certificate = 0xaa01

abbrev pub request_authentication_challenge_response : ℕ
request_authentication_challenge_response = 0xaa02

abbrev pub authentication_response : ℕ
authentication_response = 0xaa03

abbrev pub authentication_failed : ℕ
authentication_failed = 0xaa04

abbrev pub authentication_succeeded : ℕ
authentication_succeeded = 0xaa05

pub data Stage : Type 0 where
  idle await_identification await_certificate await_response done failed : Stage

-- `buffer` is the decoder. `attached` says whether `link_` is set; `drawn` is no member: it counts
-- the challenges drawn from `std::random_device`.
pub record Session : Type 0 where
  pub buffer : Bytes
  pub attached : Bool
  pub challenge : Bytes
  pub certificate : Bytes
  pub stage : Stage
  pub drawn : ℕ

abbrev pub new_session : Session
new_session = record {
  buffer = [];
  attached = false;
  challenge = 0 ∷ 0 ∷ 0 ∷ 0 ∷ 0 ∷ 0 ∷ 0 ∷ 0 ∷ 0 ∷ 0 ∷ 0 ∷ 0 ∷ 0 ∷ 0 ∷ 0 ∷ 0 ∷ 0 ∷ 0 ∷ 0 ∷ 0 ∷ [];
  certificate = [];
  stage = Stage.idle;
  drawn = 0;
}

-- The link with its `send_control`, OpenSSL, and the random challenges.
pub record Environment : Type 1 where
  pub Link : Type 0
  pub send_control : Bytes → Link → Bool × Link
  pub ssl : OpenSsl
  pub random : ℕ → Bytes

unfoldable pub attach : Session → Session
attach s = record s { attached = true }

unfoldable pub is_done : Session → Bool
is_done s = elim s.stage [ Stage.done ↦ true | _ ↦ false ]

unfoldable pub is_failed : Session → Bool
is_failed s = elim s.stage [ Stage.failed ↦ true | _ ↦ false ]

unfoldable pub is_started : Session → Bool
is_started s = elim s.stage [ Stage.idle ↦ false | _ ↦ true ]

unfoldable pub fail : Session → Session
fail s = record s { stage = Stage.failed }

module _ (env : Environment) where
  -- `link_ == nullptr || !link_->send_control(bytes)`, negated, and the link it leaves.
  unfoldable pub try_send : Bytes → Session → env.Link → Bool × env.Link
  try_send bytes s link = if s.attached then env.send_control bytes link else (false, link)

  unfoldable pub send_empty : ℕ → Session → env.Link → Session × env.Link
  send_empty id s link =
      let (accepted, link') = try_send (encode id []) s link in
      (if accepted then s else fail s, link')

  unfoldable pub begin : Session → env.Link → Session × env.Link
  begin s link =
      send_empty start_identification (record s { stage = Stage.await_identification }) link

  -- `handle` while the stage is AwaitIdentification. What `send_empty` did to the stage is
  -- overwritten.
  unfoldable pub handle_identification : Message → Session → env.Link → Session × env.Link
  handle_identification message s link =
      let (s1, link1) = send_empty identification_accepted s link in
      let (s2, link2) = send_empty request_authentication_certificate s1 link1 in
      if message.id == identification_rejected
      then (fail s, link)
      else if message.id == identification_information
      then (record s2 { stage = Stage.await_certificate }, link2)
      else (s, link)

  -- The rest of AwaitCertificate, once the certificate is there.
  unfoldable pub send_challenge : Bytes → Session → env.Link → Session × env.Link
  send_challenge certificate s link =
      let challenge = env.random s.drawn in
      let s1 = record s { certificate = certificate; challenge = challenge; drawn = s.drawn + 1 } in
      let request = encode_bytes_parameter request_authentication_challenge_response 0 challenge in
      let (accepted, link1) = try_send request s1 link in
      (if accepted then record s1 { stage = Stage.await_response } else fail s1, link1)

  unfoldable pub handle_certificate : Message → Session → env.Link → Session × env.Link
  handle_certificate message s link =
      if not (message.id == authentication_certificate)
      then (s, link)
      else elim (first_bytes_parameter message.payload 0) [
        | none ↦ (fail s, link)
        | some certificate ↦ send_challenge certificate s link
      ]

  -- `!signature || !verify_mfi_v2_signature(...)`, negated.
  unfoldable pub is_valid_response : Message → Session → Bool
  is_valid_response message s = elim (first_bytes_parameter message.payload 0) [
    | none ↦ false
    | some signature ↦ verify_mfi_v2_signature env.ssl s.challenge signature s.certificate
  ]

  unfoldable pub handle_response : Message → Session → env.Link → Session × env.Link
  handle_response message s link =
      let (s1, link1) = send_empty authentication_succeeded s link in
      if message.id == authentication_failed
      then (fail s, link)
      else if not (message.id == authentication_response)
      then (s, link)
      else if is_valid_response message s
      then (record s1 { stage = Stage.done }, link1)
      else (fail s, link)

  unfoldable pub handle_stage : Stage → Message → Session → env.Link → Session × env.Link
  handle_stage Stage.await_identification message s link = handle_identification message s link
  handle_stage Stage.await_certificate message s link = handle_certificate message s link
  handle_stage Stage.await_response message s link = handle_response message s link
  handle_stage _ message s link = (s, link)

  unfoldable pub handle : Message → Session → env.Link → Session × env.Link
  handle message s link = handle_stage s.stage message s link

  -- The loop of `receive`, on fuel; the outer option. Every message takes a byte of the buffer at
  -- least.
  unfoldable pub receive_loop : ℕ → Session → env.Link → Option (Session × env.Link)
  receive_loop zero s link = none
  receive_loop (suc fuel) s link = elim (next s.buffer) [
    | none ↦ none
    | some (found, rest) ↦ elim found [
      | none ↦ some (record s { buffer = rest }, link)
      | some message ↦
          let (s1, link1) = handle message (record s { buffer = rest }) link in
          receive_loop fuel s1 link1
    ]
  ]

  unfoldable pub receive : Bytes → Session → env.Link → Option (Session × env.Link)
  receive bytes s link =
      let pushed = record s { buffer = push s.buffer bytes } in
      receive_loop (suc (length pushed.buffer)) pushed link
