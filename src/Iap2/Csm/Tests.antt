-- ===== src/Iap2/Csm/Tests.antt =====
-- Runs of the control-session codec, and its theorems at concrete inputs (tests/csm_tests.cpp).
use aa2acp.Base.{◌≡◌, ◌↔◌, ◌⊎◌, refl, true, List, [], ◌∷◌, ◌++◌, none, some, arith, Bytes}
use aa2acp.Iap2.Csm.{
  Message, OpenSsl, recover, first_or, signer, encode, first_bytes_parameter_loop,
  first_bytes_parameter, sha1_digest_info_prefix, recovered_matches, is_prefix,
  verify_mfi_v2_signature, push, drain, next, next_loop, next_round, next_message, find_mark,
}
use aa2acp.Iap2.Csm.Parameters.{verify_mfi_v2_signature_iff}
use aa2acp.Iap2.Csm.Streams.{drain_chunks}

start_encoded : encode 0x1d00 [] ≡ 0x40 ∷ 0x40 ∷ 0 ∷ 6 ∷ 0x1d ∷ 0 ∷ []
unfolding encode
start_encoded = refl

bad_parameter_refused : first_bytes_parameter (0 ∷ 9 ∷ 0 ∷ 0 ∷ 7 ∷ []) 0 ≡ none
unfolding first_bytes_parameter first_bytes_parameter_loop
bad_parameter_refused = refl

-- A small header length costs a byte of the buffer, and the search goes on behind it.
small_size_skipped :
    next (0x40 ∷ 0x40 ∷ 0 ∷ 2 ∷ 0x40 ∷ 0x40 ∷ 0 ∷ 6 ∷ 1 ∷ 2 ∷ [])
    ≡ some (some (record { id = 258; payload = [] }), [])
unfolding next next_loop next_round next_message find_mark
small_size_skipped = refl

-- Each certificate is its own key, and recovery gives the signature without its first byte.
abbrev pub identity_ssl : OpenSsl
identity_ssl = record {
  Bundle = Bytes;
  Certificate = Bytes;
  Key = Bytes;
  d2i_pkcs7 = λ bytes. some bytes;
  is_signed = λ bundle. true;
  signers = λ bundle. some (bundle ∷ []);
  certificates = λ bundle. none;
  get_pubkey = λ certificate. some certificate;
  is_rsa = λ key. true;
  verify_recover = λ key signature. some signature;
}

abbrev two_messages : List Message
two_messages =
    record { id = 0x1d00; payload = [] } ∷ record { id = 0xaa02; payload = 7 ∷ 8 ∷ [] } ∷ []

drain_chunks_example :
    (ms ns : List Message) × (rest : Bytes) × (drain
        (push [] (0x40 ∷ 0x40 ∷ 0 ∷ 6 ∷ 0x1d ∷ 0 ∷ 0x40 ∷ 0x40 ∷ []))
      ≡ some (ms, rest))
    × (drain (push rest (0 ∷ 8 ∷ 0xaa ∷ 2 ∷ 7 ∷ 8 ∷ [])) ≡ some (ns, []))
    × (ms ++ ns ≡ two_messages)
unfolding encode
drain_chunks_example =
    drain_chunks two_messages (0x40 ∷ 0x40 ∷ 0 ∷ 6 ∷ 0x1d ∷ 0 ∷ 0x40 ∷ 0x40 ∷ [])
      (0 ∷ 8 ∷ 0xaa ∷ 2 ∷ 7 ∷ 8 ∷ [])
      (
        record { id = omega arith; short = omega arith },
        (record { id = omega arith; short = omega arith }, tt),
      )
      refl (omega arith)

verify_mfi_v2_signature_iff_example :
    (verify_mfi_v2_signature identity_ssl (1 ∷ 2 ∷ []) (1 ∷ 3 ∷ []) (9 ∷ []) ≡ true) ↔ (
      (recover identity_ssl (1 ∷ 3 ∷ []) (9 ∷ []) ≡ some (1 ∷ 2 ∷ []))
      ⊎ (recover identity_ssl (1 ∷ 3 ∷ []) (9 ∷ []) ≡ some (sha1_digest_info_prefix ++ 1 ∷ 2 ∷ [])))
verify_mfi_v2_signature_iff_example =
    verify_mfi_v2_signature_iff identity_ssl (1 ∷ 2 ∷ []) (1 ∷ 3 ∷ []) (9 ∷ [])

signature_accepted : verify_mfi_v2_signature identity_ssl (1 ∷ 2 ∷ []) (1 ∷ 2 ∷ []) (9 ∷ []) ≡ true
unfolding verify_mfi_v2_signature recover signer first_or recovered_matches is_prefix
signature_accepted = refl
