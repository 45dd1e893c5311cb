-- ===== src/Iap2/Frame/RoundTrip.antt =====
-- Encoding and decoding of link synchronization payloads and headers (src/iap2/link_layer.cpp).
use aa2acp.Base.{
  ℕ, ◌*◌, ◌≤◌, ◌≡◌, ◌↔◌, refl, ap, List, [], ◌∷◌, some, arith, length, Bytes, IsU16, AreBytes,
}
use aa2acp.Iap2.Frame.{
  Session, Lsp, Header, encode_sessions, encode_lsp, decode_sessions, decode_lsp, header_fields,
  encode_header, decode_header,
}
use aa2acp.Iap2.Frame.Checksum.{has_valid_checksum-append, checksum_unique}

-- The ranges of the fields of `Lsp` that the decoder accepts.
pub record IsLsp (l : Lsp) : Type 0 where
  pub max_len_u16 : IsU16 l.max_len
  pub max_len_least : 9 ≤ l.max_len
  pub timeout_u16 : IsU16 l.retransmission_timeout
  pub ack_timeout_u16 : IsU16 l.ack_timeout

-- The ranges of the fields of `Header` that the decoder accepts.
pub record IsHeader (h : Header) : Type 0 where
  pub length_u16 : IsU16 h.length
  pub length_least : 9 ≤ h.length

decode_sessions-encode_sessions : (ss : List Session) → decode_sessions (encode_sessions ss) ≡ ss
unfolding decode_sessions encode_sessions
decode_sessions-encode_sessions [] = refl
decode_sessions-encode_sessions (s ∷ ss) = ap (◌∷◌ s) (decode_sessions-encode_sessions ss)

length-encode_sessions : (ss : List Session) → length (encode_sessions ss) ≡ 3 * length ss
unfolding encode_sessions
length-encode_sessions [] = refl
length-encode_sessions (s ∷ ss) = omega (arith, length-encode_sessions ss)

-- A payload that `encode_lsp` wrote decodes to the same parameters, if the 16-bit fields fit and
-- the maximum length holds a header.
pub decode_lsp-encode_lsp : (l : Lsp) → IsLsp l → decode_lsp (encode_lsp l) ≡ some l
unfolding decode_lsp encode_lsp
decode_lsp-encode_lsp l v =
    ground (arith, decode_sessions-encode_sessions l.sessions, length-encode_sessions l.sessions)

pub decode_header-encode_header :
    (h : Header) → IsHeader h → decode_header (encode_header h) ≡ some h
unfolding decode_header encode_header
decode_header-encode_header h v = ground (arith, has_valid_checksum-append (header_fields h))

pub decode_header-IsHeader :
    (bytes : Bytes) (h : Header) → decode_header bytes ≡ some h → IsHeader h
unfolding decode_header
decode_header-IsHeader bytes h e = ground arith

-- Only the encoding of a header decodes to it: the start marker, the length and the checksum are
-- determined.
encode_header-decode_header :
    (b0 b1 b2 b3 b4 b5 b6 b7 b8 : ℕ) (h : Header)
    → AreBytes (b0 ∷ b1 ∷ b2 ∷ b3 ∷ b4 ∷ b5 ∷ b6 ∷ b7 ∷ b8 ∷ [])
    → decode_header (b0 ∷ b1 ∷ b2 ∷ b3 ∷ b4 ∷ b5 ∷ b6 ∷ b7 ∷ b8 ∷ []) ≡ some h
    → (b0 ∷ b1 ∷ b2 ∷ b3 ∷ b4 ∷ b5 ∷ b6 ∷ b7 ∷ b8 ∷ []) ≡ encode_header h
unfolding decode_header encode_header
encode_header-decode_header b0 b1 b2 b3 b4 b5 b6 b7 b8 h bs e =
    ground (arith, checksum_unique (b0 ∷ b1 ∷ b2 ∷ b3 ∷ b4 ∷ b5 ∷ b6 ∷ b7 ∷ []) b8)

-- Nine bytes decode to a header exactly when they are the encoding of that header, for a header
-- whose length field fits 16 bits and is at least nine.
pub decode_header_iff :
    (bytes : Bytes) (h : Header)
    → length bytes ≡ 9
    → AreBytes bytes
    → IsHeader h
    → (decode_header bytes ≡ some h) ↔ (bytes ≡ encode_header h)
decode_header_iff (b0 ∷ b1 ∷ b2 ∷ b3 ∷ b4 ∷ b5 ∷ b6 ∷ b7 ∷ b8 ∷ []) h len bs v = (
  encode_header-decode_header b0 b1 b2 b3 b4 b5 b6 b7 b8 h bs,
  λ e. rw e (decode_header-encode_header h v),
)
decode_header_iff _ h len bs v = absurd (omega arith)
