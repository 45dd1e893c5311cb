-- ===== src/Iap2/Bootstrap/Tests.antt =====
-- A whole authentication, and the theorems at concrete inputs (tests/bootstrap_tests.cpp).
use aa2acp.Base.{none, ◌≡◌, ◌↔◌, refl, Bool, true, false, List, [], ◌∷◌, ◌++◌, some, arith, Bytes}
use aa2acp.Iap2.Csm.{
  Message, recover, first_or, signer, encode, encode_bytes_parameter, first_bytes_parameter_loop,
  first_bytes_parameter, recovered_matches, is_prefix, verify_mfi_v2_signature, push, next,
  next_loop, next_round, next_message, find_mark,
}
use aa2acp.Iap2.Frame.{default_lsp, encode_header}
use aa2acp.Iap2.Link.State.{State, new_link}
use aa2acp.Iap2.Link.State.{Link as PhoneLink}
use aa2acp.Iap2.Link.Output.{send_control, encode_packet}
use aa2acp.Iap2.Csm.Tests.{identity_ssl}
use aa2acp.Iap2.Bootstrap.{
  Stage, Session, new_session, Environment, attach, fail, try_send, send_empty, begin,
  handle_identification, send_challenge, handle_certificate, is_valid_response, handle_response,
  handle_stage, handle, receive_loop, receive,
}
use aa2acp.Iap2.Bootstrap.Stages.{Fails, Authenticates, handle-Fails_iff, handle-done_iff}
use aa2acp.Iap2.Bootstrap.History.{Reach, fresh, attached, began, received, Reach-done}
use aa2acp.Iap2.Bootstrap.Chunks.{handle_all, receive_chunks}

-- A link that takes everything, or nothing, and remembers what it was given.
abbrev recorder : Bool → Environment
recorder answer = record {
  Link = List Bytes;
  send_control = λ bytes sent. (answer, bytes ∷ sent);
  ssl = identity_ssl;
  random = λ n. 1 ∷ 2 ∷ [];
}

abbrev information : Bytes
information = 0x40 ∷ 0x40 ∷ 0 ∷ 6 ∷ 0x1d ∷ 1 ∷ []

abbrev certificate : Bytes
certificate = 0x40 ∷ 0x40 ∷ 0 ∷ 11 ∷ 0xaa ∷ 1 ∷ 0 ∷ 5 ∷ 0 ∷ 0 ∷ 9 ∷ []

abbrev response : Bytes
response = 0x40 ∷ 0x40 ∷ 0 ∷ 12 ∷ 0xaa ∷ 3 ∷ 0 ∷ 6 ∷ 0 ∷ 0 ∷ 1 ∷ 2 ∷ []

abbrev response_message : Message
response_message = record { id = 0xaa03; payload = 0 ∷ 6 ∷ 0 ∷ 0 ∷ 1 ∷ 2 ∷ [] }

abbrev waiting : Stage → Session
waiting stage = record new_session {
  attached = true;
  challenge = 1 ∷ 2 ∷ [];
  certificate = 9 ∷ [];
  stage = stage;
  drawn = 1;
}

abbrev sent_all : List Bytes
sent_all =
    (0x40 ∷ 0x40 ∷ 0 ∷ 6 ∷ 0xaa ∷ 5 ∷ [])
    ∷ (0x40 ∷ 0x40 ∷ 0 ∷ 12 ∷ 0xaa ∷ 2 ∷ 0 ∷ 6 ∷ 0 ∷ 0 ∷ 1 ∷ 2 ∷ [])
    ∷ (0x40 ∷ 0x40 ∷ 0 ∷ 6 ∷ 0xaa ∷ 0 ∷ [])
    ∷ (0x40 ∷ 0x40 ∷ 0 ∷ 6 ∷ 0x1d ∷ 2 ∷ [])
    ∷ []

whole_run :
    receive
      (recorder true)
      (information ++ certificate ++ response)
      (record new_session { attached = true; stage = Stage.await_identification })
      []
    ≡ some (waiting Stage.done, sent_all)
unfolding receive receive_loop handle handle_stage handle_identification handle_certificate
    handle_response send_challenge send_empty fail try_send is_valid_response push next next_loop
    next_round next_message find_mark encode encode_bytes_parameter first_bytes_parameter
    first_bytes_parameter_loop verify_mfi_v2_signature recover signer first_or recovered_matches
    is_prefix
whole_run = refl

-- The link refuses both answers to the identification, and the session goes on all the same.
refused_identification :
    (handle
      (recorder false)
      (record { id = 0x1d01; payload = [] })
      (record new_session { attached = true; stage = Stage.await_identification })
      []).0.stage
    ≡ Stage.await_certificate
unfolding handle handle_stage handle_identification send_empty try_send fail
refused_identification = refl

began_session : attach new_session ≡ record new_session { attached = true }
unfolding attach
began_session = refl

done_reached : Reach (recorder true) (waiting Stage.done)
unfolding attach begin send_empty try_send encode
done_reached =
    received (information ++ certificate ++ response) [] sent_all (began [] (attached fresh))
      whole_run

Reach-done_example :
    ((waiting Stage.done).challenge ≡ (recorder true).random 0)
    × (signature : Bytes) × (verify_mfi_v2_signature identity_ssl (1 ∷ 2 ∷ []) signature (9 ∷ [])
        ≡ true)
Reach-done_example = Reach-done (recorder true) (waiting Stage.done) done_reached refl

handle-Fails_iff_example :
    ((handle (recorder false) response_message (waiting Stage.await_response) []).0.stage
      ≡ Stage.failed)
    ↔ Fails (recorder false) Stage.await_response response_message (waiting Stage.await_response) []
handle-Fails_iff_example =
    handle-Fails_iff (recorder false) response_message (waiting Stage.await_response) []

handle-done_iff_example :
    ((handle (recorder false) response_message (waiting Stage.await_response) []).0.stage
      ≡ Stage.done)
    ↔ ((Path Stage Stage.await_response Stage.await_response)
        × Authenticates (recorder false) response_message (waiting Stage.await_response))
handle-done_iff_example =
    handle-done_iff (recorder false) response_message (waiting Stage.await_response) [] (λ e. cc)

receive_chunks_example :
    (s1 : Session) × (link1 : List Bytes) × (receive
        (recorder true)
        (0x40 ∷ 0x40 ∷ 0 ∷ [])
        (waiting Stage.await_response)
        []
      ≡ some (s1, link1))
    × (receive (recorder true) (12 ∷ 0xaa ∷ 3 ∷ 0 ∷ 6 ∷ 0 ∷ 0 ∷ 1 ∷ 2 ∷ []) s1 link1
        ≡ some
            (handle_all (recorder true) (response_message ∷ []) (waiting Stage.await_response) []))
unfolding encode
receive_chunks_example =
    receive_chunks (recorder true) (response_message ∷ []) (0x40 ∷ 0x40 ∷ 0 ∷ [])
      (12 ∷ 0xaa ∷ 3 ∷ 0 ∷ 6 ∷ 0 ∷ 0 ∷ 1 ∷ 2 ∷ []) (waiting Stage.await_response) []
      (record { id = omega arith; short = omega arith }, tt) refl (omega arith) refl

-- PhoneLink as the link of a session, over a transport that takes every frame.
abbrev over_phone_link : Environment
over_phone_link = record {
  Link = PhoneLink;
  send_control = λ bytes link.
      send_control (record { transport = λ past frame. true; has_log = false; control_data = none })
        0 bytes link;
  ssl = identity_ssl;
  random = λ n. 1 ∷ 2 ∷ [];
}

-- Before the link is established, the session cannot begin.
begun_too_early :
    (begin over_phone_link (record new_session { attached = true }) new_link).0.stage ≡ Stage.failed
unfolding begin send_empty try_send fail send_control
begun_too_early = refl

begun_on_established_link :
    (begin over_phone_link
      (record new_session { attached = true })
      (record new_link {
        state = State.normal;
        lsp = record default_lsp { max_outgoing = 4; max_len = 256 };
      })).0.stage
    ≡ Stage.await_identification
unfolding begin send_empty try_send fail send_control encode encode_packet encode_header
begun_on_established_link = refl
