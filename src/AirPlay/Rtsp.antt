-- ===== src/AirPlay/Rtsp.antt =====
-- The RTSP messages of the AirPlay connection (src/airplay/rtsp.cpp, include/aa2acp/airplay/rtsp.hpp).
-- Texts are lists of bytes.
use aa2acp.Base.{
  ℕ, zero, suc, ◌+◌, ◌-◌, ◌^◌, Bool, true, false, not, ◌&&◌, ◌||◌, List, [], ◌∷◌, ◌++◌, Option,
  none, some, ◌>>=◌, ltb, leb, ◌==◌, if◌then◌else◌, length, take, drop, is_empty, eqb, Bytes,
}
use aa2acp.Base.Texts.{starts_with, find, index_of, lower, digits_value, parse_decimal, decimal}
use aa2acp.Base.Headers.{crlf, header_mark, ended_lines}
pub mod Framing
pub mod Sizes
pub mod Lines
pub mod Messages
pub mod Responses
mod Tests

abbrev pub is_blank : ℕ → Bool
is_blank c = c == 32 || c == 9

unfoldable pub skip_blanks : Bytes → Bytes
skip_blanks [] = []
skip_blanks (c ∷ text) = let later = skip_blanks text in if is_blank c then later else c ∷ text

unfoldable pub drop_last_blanks : Bytes → Bytes
drop_last_blanks [] = []
drop_last_blanks (c ∷ text) =
    let later = drop_last_blanks text in if is_empty later && is_blank c then [] else c ∷ later

-- `trim`.
unfoldable pub trim : Bytes → Bytes
trim value = drop_last_blanks (skip_blanks value)

-- " RTSP/1.0"
abbrev pub protocol : Bytes
protocol = 82 ∷ 84 ∷ 83 ∷ 80 ∷ 47 ∷ 49 ∷ 46 ∷ 48 ∷ []

-- "CSeq"
abbrev pub cseq_name : Bytes
cseq_name = 67 ∷ 83 ∷ 101 ∷ 113 ∷ []

-- "User-Agent", and as `lower` gives it.
abbrev pub user_agent_name : Bytes
user_agent_name = 85 ∷ 115 ∷ 101 ∷ 114 ∷ 45 ∷ 65 ∷ 103 ∷ 101 ∷ 110 ∷ 116 ∷ []

abbrev pub user_agent_key : Bytes
user_agent_key = 117 ∷ 115 ∷ 101 ∷ 114 ∷ 45 ∷ 97 ∷ 103 ∷ 101 ∷ 110 ∷ 116 ∷ []

-- "AA2ACP/0.1"
abbrev pub user_agent : Bytes
user_agent = 65 ∷ 65 ∷ 50 ∷ 65 ∷ 67 ∷ 80 ∷ 47 ∷ 48 ∷ 46 ∷ 49 ∷ []

-- "Content-Type"
abbrev pub content_type_name : Bytes
content_type_name = 67 ∷ 111 ∷ 110 ∷ 116 ∷ 101 ∷ 110 ∷ 116 ∷ 45 ∷ 84 ∷ 121 ∷ 112 ∷ 101 ∷ []

-- "Content-Length", and as `lower` gives it.
abbrev pub content_length_name : Bytes
content_length_name =
    67 ∷ 111 ∷ 110 ∷ 116 ∷ 101 ∷ 110 ∷ 116 ∷ 45 ∷ 76 ∷ 101 ∷ 110 ∷ 103 ∷ 116 ∷ 104 ∷ []

abbrev pub content_length_key : Bytes
content_length_key =
    99 ∷ 111 ∷ 110 ∷ 116 ∷ 101 ∷ 110 ∷ 116 ∷ 45 ∷ 108 ∷ 101 ∷ 110 ∷ 103 ∷ 116 ∷ 104 ∷ []

-- `RequestHeaders`.
abbrev pub Headers : Type 0
Headers = List (Bytes × Bytes)

-- `name + ": " + value + "\r\n"`.
abbrev pub header_line : Bytes → Bytes → Bytes
header_line name value = name ++ (58 ∷ 32 ∷ value)

unfoldable pub has_user_agent : Headers → Bool
has_user_agent [] = false
has_user_agent ((name, value) ∷ headers) = eqb (lower name) user_agent_key || has_user_agent headers

unfoldable pub header_lines : Headers → List Bytes
header_lines [] = []
header_lines ((name, value) ∷ headers) = header_line name value ∷ header_lines headers

-- The lines of the request, each to be ended by "\r\n"; the sequence number is not negative.
unfoldable pub request_lines : Bytes → Bytes → ℕ → Bytes → Bytes → Headers → List Bytes
request_lines method path cseq body content_type additional =
    (method ++ (32 ∷ path ++ (32 ∷ protocol)))
    ∷ header_line cseq_name (decimal cseq)
    ∷ ((if has_user_agent additional then [] else header_line user_agent_name user_agent ∷ [])
        ++ (header_lines additional
            ++ ((if is_empty content_type
                  then []
                  else header_line content_type_name content_type ∷ [])
                ++ (header_line content_length_name (decimal (length body)) ∷ []))))

unfoldable pub encode_request : Bytes → Bytes → ℕ → Bytes → Bytes → Headers → Bytes
encode_request method path cseq body content_type additional =
    ended_lines (request_lines method path cseq body content_type additional) ++ (13 ∷ 10 ∷ body)

-- `kContentLengthNotSet`, a value that the header can have.
abbrev pub not_set : ℕ
not_set = 2 ^ 64 - 1

abbrev pub max_content_length : ℕ
max_content_length = 1048576

-- One line of the loop: the content length behind it, or the rejection.
unfoldable pub scan_field : Bytes → Bytes → ℕ → Option ℕ
scan_field name value content_length =
    if eqb (lower name) content_length_key
    then if not (content_length == not_set) then none else parse_decimal (2 ^ 64) (trim value)
    else some content_length

abbrev pub scan_at : Option ℕ → Bytes → ℕ → Option ℕ
scan_at none line content_length = some content_length
scan_at (some colon) line content_length =
    scan_field (take colon line) (drop (colon + 1) line) content_length

unfoldable pub scan_line : Bytes → ℕ → Option ℕ
scan_line line content_length = scan_at (index_of 58 line) line content_length

-- How the loop ends: out of fuel, with the rejection, or with the content length.
pub data Scan : Type 0 where
  unfinished : Scan
  rejected : Scan
  scanned : ℕ → Scan

-- Behind one line: the rejection, or the rest of the loop.
abbrev pub after_line : Option ℕ → (ℕ → Scan) → Scan
after_line none next = rejected
after_line (some content_length) next = next content_length

-- The loop over the lines, on the text from the cursor on and on the distance to the header's end. A
-- round takes two bytes at least.
unfoldable pub scan_lines : ℕ → Bytes → ℕ → ℕ → Scan
scan_lines zero text left content_length = unfinished
scan_lines (suc fuel) text left content_length =
    let later = scan_lines fuel in
    if left == 0 then scanned content_length else elim (find crlf text) [
      | none ↦ after_line (scan_line (take left text) content_length) scanned
      | some line_end ↦
          after_line (scan_line (take line_end text) content_length)
            (later (drop (line_end + 2) text) (left - (line_end + 2)))
    ]

-- Behind the loop.
unfoldable pub checked_size : Bytes → ℕ → ℕ → Option ℕ
checked_size bytes header_end content_length =
    let size = if content_length == not_set then 0 else content_length in
    if ltb max_content_length size
    then none
    else if ltb (length bytes - (header_end + 4)) size
    then none
    else some (header_end + 4 + size)

-- A scan that is not finished does not occur.
abbrev pub size_at_end : Bytes → ℕ → Scan → Option ℕ
size_at_end bytes header_end unfinished = none
size_at_end bytes header_end rejected = none
size_at_end bytes header_end (scanned content_length) = checked_size bytes header_end content_length

unfoldable pub complete_response_size : Bytes → Option ℕ
complete_response_size bytes = find header_mark bytes >>= λ header_end.
    size_at_end bytes header_end (scan_lines (suc header_end) bytes header_end not_set)

-- A C++ `int`.
pub data ℤ : Type 0 where
  pos : ℕ → ℤ
  negsuc : ℕ → ℤ

-- `std::from_chars` of an `int`, that must take the whole text.
unfoldable pub parse_status : Bytes → Option ℤ
parse_status [] = none
parse_status (c ∷ text) =
    if c == 45
    then (parse_decimal (2 ^ 31 + 1) text >>= λ value.
        some (if value == 0 then pos 0 else negsuc (value - 1)))
    else (parse_decimal (2 ^ 31) (c ∷ text) >>= λ value. some (pos value))

-- `std::map<std::string, std::string>` as its entries in the order of their arrival; `emplace` keeps
-- the value of a key that is there.
unfoldable pub emplace_header : Bytes → Bytes → Headers → Headers
emplace_header key value [] = (key, value) ∷ []
emplace_header key value ((k, v) ∷ headers) =
    let later = emplace_header key value headers in
    if eqb k key then (k, v) ∷ headers else (k, v) ∷ later

abbrev pub take_at : Option ℕ → Bytes → Headers → Headers
take_at none line headers = headers
take_at (some colon) line headers =
    emplace_header (lower (trim (take colon line))) (trim (drop (colon + 1) line)) headers

unfoldable pub take_line : Bytes → Headers → Headers
take_line line headers = take_at (index_of 58 line) line headers

pub record Response : Type 0 where
  pub status : ℤ
  pub headers : Headers
  pub body : Bytes

-- The loop over the header lines on fuel; `none` if it ran out. Each line ends at the header's end at
-- the latest.
unfoldable pub take_lines : ℕ → Bytes → ℕ → Headers → Option Headers
take_lines zero text left headers = none
take_lines (suc fuel) text left headers =
    let later = take_lines fuel in
    if left == 0 then some headers else elim (find crlf text) [
      | none ↦ none
      | some next ↦
          later (drop (next + 2) text) (left - (next + 2)) (take_line (take next text) headers)
    ]

-- The status number, up to the first space.
abbrev pub cut_at : Option ℕ → Bytes → Bytes
cut_at none text = text
cut_at (some n) text = take n text

unfoldable pub status_number : Bytes → Bytes
status_number status_text = cut_at (index_of 32 status_text) status_text

-- `parse_response` behind the size, on the text of the whole response.
unfoldable pub parse_text : Bytes → Option Response
parse_text text = do
  header_end ← find header_mark text
  line_end ← find crlf text
  if not (starts_with (protocol ++ (32 ∷ [])) text) then none else (do
    status ← parse_status (status_number (drop 9 (take line_end text)))
    headers ←
        take_lines (suc header_end) (drop (line_end + 2) text) (header_end - (line_end + 2)) []
    some (record { status = status; headers = headers; body = drop (header_end + 4) text }))

unfoldable pub parse_response : Bytes → Option Response
parse_response bytes =
    complete_response_size bytes >>= λ full_size. parse_text (take full_size bytes)
