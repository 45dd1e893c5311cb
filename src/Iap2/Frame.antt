-- ===== src/Iap2/Frame.antt =====
-- Frame codecs of src/iap2/link_layer.cpp: the checksum, link synchronization payloads (LSP) and
-- the nine-byte header, with the types of include/aa2acp/iap2/link_layer.hpp.
pub mod Checksum
pub mod RoundTrip
mod Tests
use aa2acp.Base.{
  ℕ, suc, ◌+◌, ◌-◌, ◌*◌, ◌/◌, ◌%◌, Bool, true, false, not, ◌||◌, List, [], ◌∷◌, ◌++◌, Option, none,
  some, ltb, ◌==◌, if◌then◌else◌, length, get_or, take, drop, Bytes, read_u16, u16_high, u16_low,
  is_empty,
}

abbrev pub marker : Bytes
marker = 0xff ∷ 0x55 ∷ 0x02 ∷ 0x00 ∷ 0xee ∷ 0x10 ∷ []

abbrev pub control_syn : ℕ
control_syn = 0x80

abbrev pub control_ack : ℕ
control_ack = 0x40

abbrev pub control_rst : ℕ
control_rst = 0x10

abbrev pub control_session_id : ℕ
control_session_id = 10

pub record Session : Type 0 where
  pub id : ℕ
  pub type : ℕ
  pub version : ℕ

pub record Lsp : Type 0 where
  pub max_outgoing : ℕ
  pub max_len : ℕ
  pub retransmission_timeout : ℕ
  pub ack_timeout : ℕ
  pub max_retransmissions : ℕ
  pub max_ack : ℕ
  pub sessions : List Session

-- The member initialisers of `Lsp`.
abbrev pub default_lsp : Lsp
default_lsp = record {
  max_outgoing = 4;
  max_len = 65535;
  retransmission_timeout = 0;
  ack_timeout = 0;
  max_retransmissions = 0;
  max_ack = 0;
  sessions =
      record { id = control_session_id; type = 0; version = 2 }
      ∷ record { id = 11; type = 2; version = 1 }
      ∷ record { id = 12; type = 1; version = 2 }
      ∷ [];
}

pub record Header : Type 0 where
  pub length : ℕ
  pub control : ℕ
  pub sequence : ℕ
  pub acknowledgement : ℕ
  pub session_id : ℕ

-- `sum = static_cast<uint8_t>(sum + byte)` over a span.
unfoldable pub sum_bytes : ℕ → Bytes → ℕ
sum_bytes sum [] = sum
sum_bytes sum (byte ∷ bytes) = sum_bytes ((sum + byte) % 256) bytes

unfoldable pub checksum : Bytes → ℕ
checksum bytes = (256 - sum_bytes 0 bytes) % 256

unfoldable pub has_valid_checksum : Bytes → Bool
has_valid_checksum bytes = sum_bytes 0 bytes == 0

unfoldable pub encode_sessions : List Session → Bytes
encode_sessions [] = []
encode_sessions (session ∷ rest) =
    session.id ∷ session.type ∷ session.version ∷ encode_sessions rest

unfoldable pub encode_lsp : Lsp → Bytes
encode_lsp lsp =
    1
    ∷ lsp.max_outgoing
    ∷ u16_high lsp.max_len
    ∷ u16_low lsp.max_len
    ∷ u16_high lsp.retransmission_timeout
    ∷ u16_low lsp.retransmission_timeout
    ∷ u16_high lsp.ack_timeout
    ∷ u16_low lsp.ack_timeout
    ∷ lsp.max_retransmissions
    ∷ lsp.max_ack
    ∷ encode_sessions lsp.sessions

-- The loop `for (offset = 10; offset < bytes.size(); offset += 3)` over what follows offset 10; the
-- size is a multiple of three there.
unfoldable pub decode_sessions : Bytes → List Session
decode_sessions (id ∷ type ∷ version ∷ rest) =
    record { id = id; type = type; version = version } ∷ decode_sessions rest
decode_sessions _ = []

unfoldable pub decode_lsp : Bytes → Option Lsp
unfolding decode_sessions
decode_lsp bytes =
    if ltb (length bytes) 10 || not (get_or bytes 0 0 == 1) || not ((length bytes - 10) % 3 == 0)
    then none
    else if ltb (read_u16 bytes 2) 9
    then none
    else some (record {
      max_outgoing = get_or bytes 1 0;
      max_len = read_u16 bytes 2;
      retransmission_timeout = read_u16 bytes 4;
      ack_timeout = read_u16 bytes 6;
      max_retransmissions = get_or bytes 8 0;
      max_ack = get_or bytes 9 0;
      sessions = decode_sessions (drop 10 bytes);
    })

-- The first eight bytes of a header; `0xff5a` is `kPacketStart`.
abbrev pub header_fields : Header → Bytes
header_fields header =
    u16_high 0xff5a
    ∷ u16_low 0xff5a
    ∷ u16_high header.length
    ∷ u16_low header.length
    ∷ header.control
    ∷ header.sequence
    ∷ header.acknowledgement
    ∷ header.session_id
    ∷ []

unfoldable pub encode_header : Header → Bytes
encode_header header = header_fields header ++ checksum (header_fields header) ∷ []

unfoldable pub decode_header : Bytes → Option Header
decode_header bytes =
    if not (has_valid_checksum bytes) || not (read_u16 bytes 0 == 0xff5a)
    then none
    else if ltb (read_u16 bytes 2) 9
    then none
    else some (record {
      length = read_u16 bytes 2;
      control = get_or bytes 4 0;
      sequence = get_or bytes 5 0;
      acknowledgement = get_or bytes 6 0;
      session_id = get_or bytes 7 0;
    })
