-- ===== src/Bridge/Management/Accepted.antt =====
-- Which requests to the management pages are complete, and which wait for more
-- (src/bridge/management_ui.cpp, `frame_http_request`).
use aa2acp.Base.{ℕ, ◌+◌, ◌-◌, ◌≤◌, List, ◌∷◌, ◌++◌, some, ltb, if◌then◌else◌, length, Bytes}
use aa2acp.Base.Headers.{ended_lines}
use aa2acp.Bridge.Management.{HttpRequestFraming, invalid, frame_http_request}
use aa2acp.Bridge.Management.Requests.{framed_rest}
use aa2acp.Bridge.Management.Agreement.{length_values, AgreeOn}

-- A header, without its last line end, and a body of that size are within the limits.
pub record IsWithin (max_size maximum_headers maximum_body header_end size : ℕ) : Type 0 where
  pub header : header_end ≤ maximum_headers
  pub body : size ≤ maximum_body
  pub representable : header_end + 4 + size ≤ max_size

module _ (max_size maximum_headers maximum_body header_end size : ℕ) (rest : Bytes) where
  abbrev sized_framing : HttpRequestFraming
  sized_framing =
      if ltb maximum_headers header_end
      then invalid
      else framed_rest max_size maximum_body (header_end + 4) rest (some (some size))

module _ (max_size maximum_headers maximum_body : ℕ) (line : Bytes) (lines : List Bytes)
    (rest : Bytes) where
  abbrev pub framing : HttpRequestFraming
  framing =
      frame_http_request max_size (ended_lines (line ∷ lines) ++ (13 ∷ 10 ∷ rest)) maximum_headers
        maximum_body

  -- The fields agree on a size within the limits.
  abbrev pub Announces : ℕ → Type 0
  Announces size =
      AgreeOn (length_values (line ∷ lines)) size
      × IsWithin max_size maximum_headers maximum_body (length (ended_lines (line ∷ lines)) - 2)
          size

  abbrev header_end : ℕ
  header_end = length (ended_lines (line ∷ lines)) - 2
