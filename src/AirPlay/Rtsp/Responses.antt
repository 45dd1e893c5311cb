-- ===== src/AirPlay/Rtsp/Responses.antt =====
-- Responses read from a stream (src/airplay/rtsp.cpp, `parse_response`).
use aa2acp.Base.{
  ℕ, zero, suc, ◌+◌, ◌-◌, ◌≤◌, ◌<◌, ◌^◌, ◌≡◌, refl, sym, ap, ◌∙◌, true, false, List, [], ◌∷◌, ◌++◌,
  append_assoc, some, arith, ◌==◌, length, length-append, take, drop, take-append_length,
  drop-append_length, All, All-append, ==_refl, Bytes,
}
use aa2acp.Base.Texts.{
  starts_with, find, lower, parse_decimal, decimal, Lacks, lacks, lacks-Lacks, Lacks-decimal,
  parse_decimal-decimal, index_of-append,
}
use aa2acp.Base.Headers.{
  AreLines, IsLine, crlf, drop_line, ended_lines, ended_lines-append, ended_none, find-header_mark,
  find-crlf, header_mark, length-ended_lines, length-positive, lines_le,
}
use aa2acp.AirPlay.Rtsp.{
  skip_blanks, trim, protocol, content_length_name, Headers, header_line, header_lines,
  max_content_length, ℤ, pos, parse_status, emplace_header, take_line, Response, take_lines,
  status_number, parse_text, parse_response, complete_response_size,
}
use aa2acp.AirPlay.Rtsp.Lines.{take-colon, drop-colon, words-IsPlain}
use aa2acp.AirPlay.Rtsp.Messages.{
  IsField, IsPassed, header_lines-IsPassed, AreLines-IsPassed, length_line, length_line-IsLine,
  message_found,
}

-- What the fields leave in the map: names in lower case, names and values without outer blanks.
abbrev pub received : Headers → Headers → Headers
received [] result = result
received ((name, value) ∷ headers) result =
    received headers (emplace_header (lower (trim name)) (trim value) result)

abbrev fold_fields : List Bytes → Headers → Headers
fold_fields [] headers = headers
fold_fields (line ∷ lines) headers = fold_fields lines (take_line line headers)

take_lines_end :
    (fuel : ℕ) (text : Bytes) (headers : Headers)
    → take_lines (suc fuel) text 0 headers ≡ some headers
unfolding take_lines
take_lines_end fuel text headers = refl

take_lines-line :
    (fuel left : ℕ) (line text : Bytes) (headers : Headers)
    → IsLine line
    → 1 ≤ left
    → take_lines (suc fuel) (line ++ (13 ∷ 10 ∷ text)) left headers
      ≡ take_lines fuel text (left - (length line + 2)) (take_line line headers)
unfolding take_lines
take_lines-line fuel left line text headers whole_line some_left =
    let more : (left == 0) ≡ false = ground arith in
    let front = take-append_length (length line) line (13 ∷ 10 ∷ text) refl in
    rw (more, find-crlf line text whole_line, front, drop_line line text) refl

take_lines-fold_fields :
    (lines : List Bytes) (fuel : ℕ) (rest : Bytes) (headers : Headers)
    → AreLines lines
    → length lines < fuel
    → take_lines fuel
        (ended_lines lines ++ (13 ∷ 10 ∷ rest))
        (length (ended_lines lines) - 2)
        headers
      ≡ some (fold_fields lines headers)
take_lines-fold_fields lines zero rest headers ok enough = absurd (omega arith)
take_lines-fold_fields [] (suc fuel) rest headers ok enough =
    ap (λ left. take_lines (suc fuel) (ended_lines [] ++ (13 ∷ 10 ∷ rest)) left headers) ended_none
    ∙ take_lines_end fuel (ended_lines [] ++ (13 ∷ 10 ∷ rest)) headers
take_lines-fold_fields (line ∷ lines) (suc fuel) rest headers (here, others) enough =
    let text = ended_lines lines ++ (13 ∷ 10 ∷ rest) in
    let size = length-ended_lines line lines in
    let left = length (ended_lines (line ∷ lines)) - 2 in
    let next : left - (length line + 2) ≡ length (ended_lines lines) - 2 = omega arith in
    let step =
      take_lines-line fuel left line text headers here (omega (arith, length-positive line here)) in
    ap (λ t. take_lines (suc fuel) t left headers) (ended_lines-append line lines (13 ∷ 10 ∷ rest))
    ∙ step
    ∙ rw next (take_lines-fold_fields lines fuel rest (take_line line headers) others (omega arith))

take_line-header_line :
    (name value : Bytes) (headers : Headers)
    → Lacks 58 name
    → take_line (header_line name value) headers
      ≡ emplace_header (lower (trim name)) (trim value) headers
unfolding take_line trim skip_blanks
take_line-header_line name value headers short =
    rw
      (
        index_of-append 58 name (32 ∷ value) short,
        take-colon name (32 ∷ value),
        drop-colon name (32 ∷ value),
      )
      refl

fold_fields-received :
    (headers : Headers) (more : List Bytes) (result : Headers)
    → All IsField headers
    → fold_fields (header_lines headers ++ more) result ≡ fold_fields more (received headers result)
unfolding header_lines
fold_fields-received [] more result fields = refl
fold_fields-received ((name, value) ∷ headers) more result (field, fields) =
    ap (fold_fields (header_lines headers ++ more))
      (take_line-header_line name value result field.2)
    ∙ fold_fields-received headers more (emplace_header (lower (trim name)) (trim value) result)
        fields

-- The status comes back.
parse_status-digits :
    (c n : ℕ) (text : Bytes)
    → (c == 45) ≡ false
    → parse_decimal (2 ^ 31) (c ∷ text) ≡ some n
    → parse_status (c ∷ text) ≡ some (pos n)
unfolding parse_status
parse_status-digits c n text sign h = rw (sign, h) refl

parse_status-Lacks :
    (n : ℕ) (text : Bytes)
    → Lacks 45 text
    → parse_decimal (2 ^ 31) text ≡ some n
    → parse_status text ≡ some (pos n)
unfolding parse_decimal
parse_status-Lacks n [] lacks h = absurd cc
parse_status-Lacks n (c ∷ text) lacks h = parse_status-digits c n text lacks.0 h

status_number-append :
    (n : ℕ) (reason : Bytes) → status_number (decimal n ++ (32 ∷ reason)) ≡ decimal n
unfolding status_number
status_number-append n reason =
    rw (index_of-append 32 (decimal n) reason (Lacks-decimal 32 n (omega arith)))
      (take-append_length (length (decimal n)) (decimal n) (32 ∷ reason) refl)

-- "RTSP/1.0", the status and the reason.
abbrev pub status_line : ℕ → Bytes → Bytes
status_line status reason = protocol ++ (32 ∷ decimal status ++ (32 ∷ reason))

-- A response as it stands on the wire.
abbrev pub response : ℕ → Bytes → Headers → Bytes → Bytes
response status reason headers body =
    ended_lines (status_line status reason ∷ header_lines headers ++ (length_line body ∷ []))
    ++ (13 ∷ 10 ∷ body)

-- A text of which all parts are found.
parse_text-parts :
    (text body : Bytes) (header_end line_end : ℕ) (status : ℤ) (headers : Headers)
    → find header_mark text ≡ some header_end
    → find crlf text ≡ some line_end
    → starts_with (protocol ++ (32 ∷ [])) text ≡ true
    → parse_status (status_number (drop 9 (take line_end text))) ≡ some status
    → take_lines (suc header_end) (drop (line_end + 2) text) (header_end - (line_end + 2)) []
      ≡ some headers
    → drop (header_end + 4) text ≡ body
    → parse_text text ≡ some (record { status = status; headers = headers; body = body })
unfolding parse_text
parse_text-parts text body header_end line_end status headers mark first begins number fields rest =
    rw (mark, first, begins, number, fields, rest) refl

starts_with-append : (front text : Bytes) → starts_with front (front ++ text) ≡ true
unfolding starts_with
starts_with-append [] text = refl
starts_with-append (c ∷ front) text = rw (==_refl c) (starts_with-append front text)

module _ (status : ℕ) (reason : Bytes) (headers : Headers) (body : Bytes)
    (small_status : status < 2 ^ 31) (plain_reason : Lacks 13 reason)
    (fields : All IsField headers) where
  abbrev first_line : Bytes
  first_line = status_line status reason

  abbrev field_lines : List Bytes
  field_lines = header_lines headers ++ (length_line body ∷ [])

  status_line-IsPassed : IsPassed first_line
  status_line-IsPassed = (
    (
      refl,
      All-append _ protocol (32 ∷ decimal status ++ (32 ∷ reason)) (lacks-Lacks 13 protocol refl) (
        refl,
        All-append _ (decimal status) (32 ∷ reason) (Lacks-decimal 13 status (omega arith))
            (refl, plain_reason),
      ),
    ),
    words-IsPlain protocol (decimal status ++ (32 ∷ reason)) (lacks-Lacks 58 protocol refl),
  )

  fields-AreLines : AreLines field_lines
  fields-AreLines =
      All-append IsLine (header_lines headers) (length_line body ∷ [])
        (AreLines-IsPassed (header_lines headers) (header_lines-IsPassed headers fields))
        (length_line-IsLine body, tt)

  parsed : Response
  parsed = record {
    status = pos status;
    headers =
        emplace_header (lower (trim content_length_name)) (trim (decimal (length body)))
          (received headers []);
    body = body;
  }

  headers_read :
      (fuel : ℕ)
      → length field_lines < fuel
      → take_lines fuel
          (ended_lines field_lines ++ (13 ∷ 10 ∷ body))
          (length (ended_lines field_lines) - 2)
          []
        ≡ some (
            emplace_header
              (lower (trim content_length_name))
              (trim (decimal (length body)))
              (received headers []))
  headers_read fuel enough =
      take_lines-fold_fields field_lines fuel body [] fields-AreLines enough
      ∙ ap some (
          fold_fields-received headers (length_line body ∷ []) [] fields
          ∙ take_line-header_line content_length_name (decimal (length body)) (received headers [])
              (lacks-Lacks 58 content_length_name refl))

  parse_text-response : parse_text (response status reason headers body) ≡ some parsed
  unfolding parsed
  parse_text-response =
      let text = response status reason headers body in
      let behind = ended_lines field_lines ++ (13 ∷ 10 ∷ body) in
      let header_end = length (ended_lines (first_line ∷ field_lines)) - 2 in
      let whole = ended_lines-append first_line field_lines (13 ∷ 10 ∷ body) in
      let size = length-ended_lines first_line field_lines in
      let line_end = ap (find crlf) whole ∙ find-crlf first_line behind status_line-IsPassed.0 in
      let begins : starts_with (protocol ++ (32 ∷ [])) text ≡ true =
        ap (starts_with (protocol ++ (32 ∷ []))) whole
        ∙ starts_with-append (protocol ++ (32 ∷ []))
            (decimal status ++ (32 ∷ reason) ++ (13 ∷ 10 ∷ behind)) in
      let line : take (length first_line) text ≡ first_line =
        ap (take (length first_line)) whole
        ∙ take-append_length (length first_line) first_line (13 ∷ 10 ∷ behind) refl in
      let number : parse_status (status_number (drop 9 (take (length first_line) text)))
          ≡ some (pos status) =
        ap (λ t. parse_status (status_number (drop 9 t))) line
        ∙ ap parse_status (status_number-append status reason)
        ∙ parse_status-Lacks status (decimal status) (Lacks-decimal 45 status (omega arith))
            (parse_decimal-decimal (2 ^ 31) status small_status) in
      let after : drop (length first_line + 2) text ≡ behind =
        ap (drop (length first_line + 2)) whole ∙ drop_line first_line behind in
      let left : header_end - (length first_line + 2) ≡ length (ended_lines field_lines) - 2 =
        omega arith in
      let lines_fit = lines_le field_lines fields-AreLines in
      let read =
        ap (λ t. take_lines (suc header_end) t (header_end - (length first_line + 2)) []) after
        ∙ ap (λ n. take_lines (suc header_end) behind n []) left
        ∙ headers_read (suc header_end) (omega arith) in
      let top = ended_lines (first_line ∷ field_lines) in
      let end : drop (header_end + 4) text ≡ body =
        ap (drop (header_end + 4)) (sym (append_assoc top (13 ∷ 10 ∷ []) body))
        ∙ drop-append_length (header_end + 4) (top ++ (13 ∷ 10 ∷ [])) body
            (omega (arith, length-append top (13 ∷ 10 ∷ []))) in
      parse_text-parts text body header_end (length first_line) (pos status) _
        (find-header_mark first_line field_lines body (status_line-IsPassed.0, fields-AreLines))
        line_end begins number read end

  -- A response at the front of a stream is read whole: its status, its fields with names in lower case
  -- and without outer blanks, of which the first of a name counts, and its body. No carriage return
  -- stands in the reason or the fields, no colon in a name, the last field says the length of the
  -- body, and the body has at most 1 MiB.
  pub parse_response-response :
      (rest : Bytes)
      → length body ≤ max_content_length
      → parse_response (response status reason headers body ++ rest)
        ≡ some (record {
          status = pos status;
          headers =
              emplace_header
                (lower (trim content_length_name))
                (trim (decimal (length body)))
                (received headers []);
          body = body;
        })
  unfolding parse_response parsed
  parse_response-response rest small =
      let top = ended_lines (first_line ∷ field_lines) in
      let text = response status reason headers body in
      let found =
        message_found first_line (header_lines headers) body rest
          (status_line-IsPassed, header_lines-IsPassed headers fields) small in
      let whole = append_assoc top (13 ∷ 10 ∷ body) rest in
      let size = ap complete_response_size whole ∙ found in
      let cut : take (length top + 2 + length body) (text ++ rest) ≡ text =
        take-append_length (length top + 2 + length body) text rest
          (omega (arith, length-append top (13 ∷ 10 ∷ body))) in
      rw (size, cut) parse_text-response
