-- ===== src/AirPlay/Rtsp/Tests.antt =====
-- Runs of the message functions, and their theorems at concrete messages
-- (tests/airplay_rtsp_tests.cpp).
use aa2acp.Base.{
  ◌≤◌, ◌≢◌, ◌↔◌, All, ℕ, ◌+◌, ◌≡◌, refl, List, [], ◌∷◌, ◌++◌, Option, none, some, length, arith,
  Bytes,
}
use aa2acp.Base.Texts.{starts_with, find, index_of, lower, parse_decimal, digits_value, decimal}
use aa2acp.Base.Headers.{ended_lines}
use aa2acp.AirPlay.Rtsp.{
  skip_blanks, drop_last_blanks, trim, content_length_name, encode_request, not_set,
  max_content_length, scan_field, scan_line, scan_lines, checked_size, complete_response_size, pos,
  emplace_header, parse_response,
}
use aa2acp.AirPlay.Rtsp.Sizes.{number_of, length_values, SaysSize, complete_response_size_iff}
use aa2acp.AirPlay.Rtsp.Messages.{complete_response_size-encode_request}
use aa2acp.AirPlay.Rtsp.Responses.{received, response, parse_response-response}

-- "a:b"
abbrev field : Bytes
field = 97 ∷ 58 ∷ 98 ∷ []

-- "Content-Length:" and the value.
abbrev length_field : Bytes → Bytes
length_field value = content_length_name ++ (58 ∷ value)

abbrev framed_size : List Bytes → Bytes → Option ℕ
framed_size lines body = complete_response_size (ended_lines lines ++ (13 ∷ 10 ∷ body))

-- Two fields with a length are rejected, also when they agree.
duplicates_rejected :
    framed_size (field ∷ length_field (50 ∷ []) ∷ length_field (50 ∷ []) ∷ []) (120 ∷ 120 ∷ [])
    ≡ none
unfolding complete_response_size find starts_with ended_lines scan_lines scan_line scan_field
    index_of lower trim skip_blanks drop_last_blanks parse_decimal digits_value
duplicates_rejected = refl

-- The length 2^64 - 1 counts as no length at all.
greatest_length_ignored :
    framed_size
      (length_field (
          49 ∷ 56 ∷ 52 ∷ 52 ∷ 54 ∷ 55 ∷ 52 ∷ 52 ∷ 48 ∷ 55 ∷ 51 ∷ 55 ∷ 48 ∷ 57 ∷ 53 ∷ 53 ∷ 49 ∷ 54
          ∷ 49 ∷ 53 ∷ [])
        ∷ [])
      []
    ≡ some 39
unfolding complete_response_size find starts_with ended_lines scan_lines scan_line scan_field
    index_of lower trim skip_blanks drop_last_blanks parse_decimal digits_value checked_size
greatest_length_ignored = refl

-- The line has no length.
field_sayable : All (λ value. number_of value ≢ some not_set) (length_values (field ∷ []))
unfolding index_of lower
field_sayable = tt

complete_response_size_iff_example : (framed_size (field ∷ []) (120 ∷ []) ≡ some 7) ↔ (
    (size : ℕ) × SaysSize (length_values (field ∷ [])) size
    × (size ≤ max_content_length)
    × (size ≤ 1)
    × (7 ≡ length (ended_lines (field ∷ [])) + 2 + size))
complete_response_size_iff_example =
    complete_response_size_iff field [] (120 ∷ []) 7 ((refl, (refl, (refl, (refl, tt)))), tt)
      field_sayable

plain_size : framed_size (field ∷ []) [] ≡ some 7
unfolding complete_response_size find starts_with ended_lines scan_lines scan_line scan_field
    index_of lower checked_size
plain_size = refl

-- "GET /x" with a field "a: b".
abbrev request : Bytes
request =
    encode_request (71 ∷ 69 ∷ 84 ∷ []) (47 ∷ 120 ∷ []) 7 (1 ∷ 2 ∷ []) [] ((97 ∷ [], 98 ∷ []) ∷ [])

complete_response_size-encode_request_example :
    complete_response_size (request ++ (9 ∷ [])) ≡ some (length request)
unfolding lower
complete_response_size-encode_request_example =
    complete_response_size-encode_request (71 ∷ 69 ∷ 84 ∷ []) (47 ∷ 120 ∷ []) 7 (1 ∷ 2 ∷ []) []
      ((97 ∷ [], 98 ∷ []) ∷ []) (refl, (refl, (refl, tt))) (refl, (refl, (refl, tt)))
      (refl, (refl, tt)) tt (((refl, tt), (refl, tt), (refl, tt), refl), tt) (9 ∷ []) (omega arith)

-- 200 OK, with a field "a: b".
parse_response-response_example :
    parse_response (response 200 (79 ∷ 75 ∷ []) ((97 ∷ [], 98 ∷ []) ∷ []) (5 ∷ []) ++ (9 ∷ []))
    ≡ some (record {
      status = pos 200;
      headers =
          emplace_header
            (lower (trim content_length_name))
            (trim (decimal 1))
            (received ((97 ∷ [], 98 ∷ []) ∷ []) []);
      body = 5 ∷ [];
    })
unfolding lower
parse_response-response_example =
    parse_response-response 200 (79 ∷ 75 ∷ []) ((97 ∷ [], 98 ∷ []) ∷ []) (5 ∷ []) (omega arith)
      (refl, (refl, tt)) (((refl, tt), (refl, tt), (refl, tt), refl), tt) (9 ∷ []) (omega arith)
