-- ===== src/Bridge/Management/Tests.antt =====
-- Runs of the management texts, and their theorems at concrete texts (tests/management_ui_tests.cpp).
use aa2acp.Base.{◌^◌, ◌≡◌, refl, false, [], ◌∷◌, ◌++◌, some, arith, Bytes}
use aa2acp.Base.Texts.{
  find, starts_with, index_of, lower, parse_decimal, digits_value, digits, decimal,
}
use aa2acp.Base.Headers.{ended_lines}
use aa2acp.Bridge.Management.{
  url_decode, url_decode_from, percent_byte, hex_value, form_field, invalid, complete, agree,
  skip_gap, drop_last_spaces, read_field, read_line, read_lines, framed_body, frame_http_request,
  valid_hotspot_passphrase, default_hotspot_passphrase, next_management_hotspot_ssid,
}
use aa2acp.Bridge.Management.Forms.{form_body, form_field-form_body}
use aa2acp.Bridge.Management.Hotspot.{next_management_hotspot_ssid-decimal}
use aa2acp.Bridge.Management.Escaping.{IsInert, html_unescape, html_escape_lem}
use aa2acp.Bridge.Management.{html_escape}

-- "a+%4a%4" to "a J%4".
decoded : url_decode (97 ∷ 43 ∷ 37 ∷ 52 ∷ 97 ∷ 37 ∷ 52 ∷ []) ≡ 97 ∷ 32 ∷ 74 ∷ 37 ∷ 52 ∷ []
unfolding url_decode url_decode_from percent_byte hex_value
decoded = refl

default_refused : valid_hotspot_passphrase default_hotspot_passphrase ≡ false
unfolding valid_hotspot_passphrase
default_refused = refl

html_escape_lem_example :
    IsInert (html_escape (60 ∷ 38 ∷ []))
    × (html_unescape (html_escape (60 ∷ 38 ∷ [])) ≡ 60 ∷ 38 ∷ [])
html_escape_lem_example = html_escape_lem (60 ∷ 38 ∷ [])

form_field-form_body_example :
    form_field (form_body (97 ∷ [], 49 ∷ []) ((98 ∷ [], 50 ∷ []) ∷ [])) (98 ∷ []) ≡ some (50 ∷ [])
form_field-form_body_example =
    form_field-form_body (97 ∷ [], 49 ∷ []) ((98 ∷ [], 50 ∷ []) ∷ []) (98 ∷ [])
      (((omega arith, tt), (omega arith, tt)), (((omega arith, tt), (omega arith, tt)), tt))

-- "content-length:1"
abbrev length_line : Bytes
length_line =
    99 ∷ 111 ∷ 110 ∷ 116 ∷ 101 ∷ 110 ∷ 116 ∷ 45 ∷ 108 ∷ 101 ∷ 110 ∷ 103 ∷ 116 ∷ 104 ∷ 58 ∷ 49 ∷ []

framed_run :
    frame_http_request (2 ^ 62) (ended_lines (length_line ∷ []) ++ (13 ∷ 10 ∷ 120 ∷ [])) 1024 1024
    ≡ complete (120 ∷ [])
unfolding frame_http_request find starts_with ended_lines read_lines read_line read_field index_of
    lower skip_gap drop_last_spaces parse_decimal digits_value agree framed_body
framed_run = refl

-- Two lengths that contradict each other are refused.
contradiction_refused :
    frame_http_request
      (2 ^ 62)
      (ended_lines (length_line ∷ (length_line ++ (48 ∷ [])) ∷ []) ++ (13 ∷ 10 ∷ 120 ∷ []))
      1024
      1024
    ≡ invalid
unfolding frame_http_request find starts_with ended_lines read_lines read_line read_field index_of
    lower skip_gap drop_last_spaces parse_decimal digits_value agree framed_body
contradiction_refused = refl

-- "A-9" is followed by "A-10".
tenth_name : next_management_hotspot_ssid (65 ∷ 45 ∷ 57 ∷ []) ≡ 65 ∷ 45 ∷ 49 ∷ 48 ∷ []
unfolding decimal digits
tenth_name = next_management_hotspot_ssid-decimal (65 ∷ []) 9 (omega arith)
