-- ===== src/Iap2/Frame/Tests.antt =====
-- Runs of the frame codecs, and the theorems at concrete inputs.
use aa2acp.Base.{◌≡◌, ◌↔◌, refl, false, [], ◌∷◌, some, none, arith, Bytes}
use aa2acp.Iap2.Frame.{
  default_lsp, Header, control_syn, sum_bytes, checksum, has_valid_checksum, encode_sessions,
  encode_lsp, decode_lsp, encode_header, decode_header,
}
use aa2acp.Iap2.Frame.Checksum.{has_valid_checksum_corrupted}
use aa2acp.Iap2.Frame.RoundTrip.{decode_header_iff}

-- The header of `test_header_round_trip` in tests/link_layer_tests.cpp.
abbrev syn_header : Header
syn_header = record {
  length = 24;
  control = control_syn;
  sequence = 100;
  acknowledgement = 42;
  session_id = 10;
}

abbrev syn_bytes : Bytes
syn_bytes = 0xff ∷ 0x5a ∷ 0 ∷ 24 ∷ 0x80 ∷ 100 ∷ 42 ∷ 10 ∷ 0x77 ∷ []

syn_encoded : syn_bytes ≡ encode_header syn_header
unfolding encode_header checksum sum_bytes
syn_encoded = refl

short_length_refused : decode_header (0xff ∷ 0x5a ∷ 0 ∷ 8 ∷ 0 ∷ 0 ∷ 0 ∷ 0 ∷ 0x9f ∷ []) ≡ none
unfolding decode_header has_valid_checksum sum_bytes
short_length_refused = refl

small_maximum_refused : decode_lsp (encode_lsp (record default_lsp { max_len = 8 })) ≡ none
unfolding decode_lsp encode_lsp encode_sessions
small_maximum_refused = refl

has_valid_checksum_corrupted_example : has_valid_checksum (1 ∷ 7 ∷ 0xfd ∷ []) ≡ false
unfolding has_valid_checksum sum_bytes
has_valid_checksum_corrupted_example =
    has_valid_checksum_corrupted (1 ∷ []) (0xfd ∷ []) 2 7 (omega arith) (omega arith) (omega arith)
      refl

decode_header_iff_example :
    (decode_header syn_bytes ≡ some syn_header) ↔ (syn_bytes ≡ encode_header syn_header)
decode_header_iff_example = decode_header_iff syn_bytes syn_header refl (omega arith) (omega arith)
