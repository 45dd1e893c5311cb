-- ===== src/Bridge/Management.antt =====
-- The texts of the management pages: escaping, form fields, the framing of a request, and the names
-- of the hotspot (src/bridge/management_ui.cpp, src/bridge_daemon_main.cpp). Texts are lists of bytes.
use aa2acp.Base.{
  ℕ, zero, suc, ◌+◌, ◌-◌, ◌*◌, ◌%◌, ◌^◌, Bool, true, false, not, ◌&&◌, ◌||◌, List, [], ◌∷◌, ◌++◌,
  Option, none, some, ◌>>=◌, ltb, leb, ◌==◌, if◌then◌else◌, length, take, drop, is_empty, eqb,
  Bytes,
}
use aa2acp.Base.Texts.{find, index_of, lower, is_digit, parse_decimal, decimal}
use aa2acp.Base.Headers.{crlf, header_mark}
pub mod Escaping
pub mod Forms
pub mod Requests
pub mod Agreement
pub mod Accepted
pub mod Hotspot
mod Tests

-- "&amp;", "&lt;", "&gt;", "&quot;" and "&#39;".
unfoldable pub escape_character : ℕ → Bytes
escape_character c =
    if c == 38
    then 38 ∷ 97 ∷ 109 ∷ 112 ∷ 59 ∷ []
    else if c == 60
    then 38 ∷ 108 ∷ 116 ∷ 59 ∷ []
    else if c == 62
    then 38 ∷ 103 ∷ 116 ∷ 59 ∷ []
    else if c == 34
    then 38 ∷ 113 ∷ 117 ∷ 111 ∷ 116 ∷ 59 ∷ []
    else if c == 39
    then 38 ∷ 35 ∷ 51 ∷ 57 ∷ 59 ∷ []
    else c ∷ []

unfoldable pub html_escape : Bytes → Bytes
html_escape [] = []
html_escape (c ∷ value) = escape_character c ++ html_escape value

-- `std::isxdigit`.
abbrev pub is_hex : ℕ → Bool
is_hex c = is_digit c || leb 65 c && leb c 70 || leb 97 c && leb c 102

-- The value of a hexadecimal digit in `std::stoi`.
unfoldable pub hex_value : ℕ → ℕ
hex_value c = if is_digit c then c - 48 else if leb c 70 then c - 55 else c - 87

-- The two digits behind a percent sign.
unfoldable pub percent_byte : Bytes → Option ℕ
percent_byte (a ∷ b ∷ rest) =
    if is_hex a && is_hex b then some (hex_value a * 16 + hex_value b) else none
percent_byte _ = none

-- The loop of `url_decode`, with the number of bytes that `index += 2` still passes over.
unfoldable pub url_decode_from : ℕ → Bytes → Bytes
url_decode_from skip [] = []
url_decode_from (suc skip) (c ∷ rest) = url_decode_from skip rest
url_decode_from zero (c ∷ rest) =
    let kept = c ∷ url_decode_from 0 rest in
    let jumped = url_decode_from 2 rest in
    if c == 43
    then 32 ∷ url_decode_from 0 rest
    else if c == 37
    then elim (percent_byte rest) [ none ↦ kept | some b ↦ b ∷ jumped ]
    else kept

unfoldable pub url_decode : Bytes → Bytes
url_decode value = url_decode_from 0 value

abbrev pub add_to_first : ℕ → List Bytes → List Bytes
add_to_first c [] = (c ∷ []) ∷ []
add_to_first c (field ∷ fields) = (c ∷ field) ∷ fields

-- The fields between the ampersands, one for each round of `form_field`.
unfoldable pub split_fields : Bytes → List Bytes
split_fields [] = [] ∷ []
split_fields (c ∷ text) =
    let later = split_fields text in if c == 38 then [] ∷ later else add_to_first c later

-- `substr(0, n)` and `substr(n + 1)`, where `n` may be `npos`.
abbrev pub front_part : Option ℕ → Bytes → Bytes
front_part none text = text
front_part (some n) text = take n text

abbrev pub back_part : Option ℕ → Bytes → Bytes
back_part none text = []
back_part (some n) text = drop (n + 1) text

abbrev pub field_name : Bytes → Bytes
field_name field = url_decode (front_part (index_of 61 field) field)

abbrev pub field_value : Bytes → Bytes
field_value field = url_decode (back_part (index_of 61 field) field)

unfoldable pub search_fields : List Bytes → Bytes → Option Bytes
search_fields [] wanted = none
search_fields (field ∷ fields) wanted =
    let later = search_fields fields wanted in
    if eqb (field_name field) wanted then some (field_value field) else later

unfoldable pub form_field : Bytes → Bytes → Option Bytes
form_field body wanted = search_fields (split_fields body) wanted

-- "content-length"
abbrev pub length_key : Bytes
length_key = 99 ∷ 111 ∷ 110 ∷ 116 ∷ 101 ∷ 110 ∷ 116 ∷ 45 ∷ 108 ∷ 101 ∷ 110 ∷ 103 ∷ 116 ∷ 104 ∷ []

-- `std::isspace`.
abbrev pub is_space : ℕ → Bool
is_space c = c == 32 || leb 9 c && leb c 13

unfoldable pub skip_gap : Bytes → Bytes
skip_gap [] = []
skip_gap (c ∷ text) = let later = skip_gap text in if c == 32 || c == 9 then later else c ∷ text

unfoldable pub drop_last_spaces : Bytes → Bytes
drop_last_spaces [] = []
drop_last_spaces (c ∷ text) =
    let later = drop_last_spaces text in if is_empty later && is_space c then [] else c ∷ later

-- `HttpRequestFraming`.
pub data HttpRequestFraming : Type 0 where
  incomplete : HttpRequestFraming
  invalid : HttpRequestFraming
  complete : Bytes → HttpRequestFraming

-- A second length must be the same; `none` is the rejection.
unfoldable pub agree : Option ℕ → ℕ → Option (Option ℕ)
agree none parsed = some (some parsed)
agree (some size) parsed = if size == parsed then some (some parsed) else none

unfoldable pub read_field : Bytes → Bytes → Option ℕ → Option (Option ℕ)
read_field name value body_size =
    if eqb (lower name) length_key
    then (parse_decimal (2 ^ 64) (skip_gap (drop_last_spaces value)) >>= agree body_size)
    else some body_size

abbrev pub read_at : Option ℕ → Bytes → Option ℕ → Option (Option ℕ)
read_at none line body_size = some body_size
read_at (some separator) line body_size =
    read_field (take separator line) (drop (separator + 1) line) body_size

unfoldable pub read_line : Bytes → Option ℕ → Option (Option ℕ)
read_line line body_size = read_at (index_of 58 line) line body_size

-- How the loop over the lines ends: out of fuel, with a bad field, or with the body's size.
pub data LineScan : Type 0 where
  unfinished : LineScan
  bad : LineScan
  sized : Option ℕ → LineScan

abbrev pub behind_line : Option (Option ℕ) → (Option ℕ → LineScan) → LineScan
behind_line none next = bad
behind_line (some body_size) next = next body_size

-- The loop on the text from the start of the line on, and on the distance to the header's end. A round
-- takes two bytes at least.
unfoldable pub read_lines : ℕ → Bytes → ℕ → Option ℕ → LineScan
read_lines zero text left body_size = unfinished
read_lines (suc fuel) text left body_size =
    let later = read_lines fuel in
    if left == 0 then sized body_size else elim (find crlf text) [
      | none ↦ behind_line (read_line (take left text) body_size) sized
      | some line_end ↦
          if leb left line_end
          then behind_line (read_line (take left text) body_size) sized
          else behind_line (read_line (take line_end text) body_size)
              (later (drop (line_end + 2) text) (left - (line_end + 2)))
    ]

abbrev pub value_or_zero : Option ℕ → ℕ
value_or_zero none = 0
value_or_zero (some n) = n

-- Behind the loop. `max_size` is that of `std::string_view`.
unfoldable pub framed_body : ℕ → Bytes → ℕ → ℕ → Option ℕ → HttpRequestFraming
framed_body max_size request maximum_body body_start body_size =
    let size = value_or_zero body_size in
    if ltb maximum_body size || ltb (max_size - size) body_start
    then invalid
    else if ltb (length request) (body_start + size)
    then incomplete
    else if ltb (body_start + size) (length request)
    then invalid
    else complete (take size (drop body_start request))

-- A scan that is not finished does not occur.
abbrev pub framing_at_end : ℕ → Bytes → ℕ → ℕ → LineScan → HttpRequestFraming
framing_at_end max_size request maximum_body header_end unfinished = invalid
framing_at_end max_size request maximum_body header_end bad = invalid
framing_at_end max_size request maximum_body header_end (sized body_size) =
    framed_body max_size request maximum_body (header_end + 4) body_size

-- Behind the search for the header's end.
abbrev pub frame_from : ℕ → Bytes → ℕ → ℕ → Option ℕ → HttpRequestFraming
frame_from max_size request maximum_headers maximum_body none =
    if ltb maximum_headers (length request) then invalid else incomplete
frame_from max_size request maximum_headers maximum_body (some header_end) =
    if ltb maximum_headers header_end
    then invalid
    else framing_at_end max_size request maximum_body header_end
        (read_lines (suc header_end) request header_end none)

unfoldable pub frame_http_request : ℕ → Bytes → ℕ → ℕ → HttpRequestFraming
frame_http_request max_size request maximum_headers maximum_body =
    frame_from max_size request maximum_headers maximum_body (find header_mark request)

-- "changeme"
abbrev pub default_hotspot_passphrase : Bytes
default_hotspot_passphrase = 99 ∷ 104 ∷ 97 ∷ 110 ∷ 103 ∷ 101 ∷ 109 ∷ 101 ∷ []

-- None of "\r\n=".
unfoldable pub is_storable : Bytes → Bool
is_storable [] = true
is_storable (c ∷ text) = not (c == 13) && not (c == 10) && not (c == 61) && is_storable text

unfoldable pub valid_hotspot_passphrase : Bytes → Bool
valid_hotspot_passphrase passphrase =
    not (eqb passphrase default_hotspot_passphrase)
    && leb 8 (length passphrase)
    && is_storable passphrase

-- `ssid.rfind('-')`: what stands before it, and behind it.
unfoldable pub last_dash : Bytes → Option (Bytes × Bytes)
last_dash [] = none
last_dash (c ∷ text) = elim (last_dash text) [
  | none ↦ if c == 45 then some ([], text) else none
  | some (front, back) ↦ some (c ∷ front, back)
]

-- The loop over the digits of the counter, in 32 bits.
unfoldable pub read_counter_from : ℕ → Bytes → Option ℕ
read_counter_from counter [] = some counter
read_counter_from counter (c ∷ text) =
    let later = read_counter_from ((counter * 10 + (c - 48)) % 2 ^ 32) text in
    if not (is_digit c) || ltb 99999999 counter then none else later

-- "-2"
abbrev pub second : Bytes
second = 45 ∷ 50 ∷ []

abbrev pub next_counter : Bytes → Bytes → Option ℕ → Bytes
next_counter ssid front none = ssid ++ second
next_counter ssid front (some counter) = front ++ (45 ∷ decimal ((counter + 1) % 2 ^ 32))

abbrev pub next_name : Bytes → Option (Bytes × Bytes) → Bytes
next_name ssid none = ssid ++ second
next_name ssid (some (front, back)) =
    if is_empty back then ssid ++ second else next_counter ssid front (read_counter_from 0 back)

unfoldable pub next_management_hotspot_ssid : Bytes → Bytes
next_management_hotspot_ssid ssid = next_name ssid (last_dash ssid)
