-- ===== src/AirPlay/Rtsp/Framing.antt =====
-- Where a message ends (src/airplay/rtsp.cpp, `complete_response_size`).
use aa2acp.Base.{
  ℕ, zero, suc, ◌+◌, ◌-◌, ◌≤◌, ◌<◌, ◌≡◌, ◌≢◌, refl, sym, ap, ◌∙◌, inl, inr, false, List, [], ◌∷◌,
  ◌++◌, Option, none, some, ◌>>=◌, >>=-eq-some, if-eq-some, some-injective, arith, ltb, ◌==◌,
  if◌then◌else◌, length, length-append, take, drop, take-append_length, Bytes, Bool-cases,
  Option-cases,
}
use aa2acp.Base.Texts.{find, find_inside}
use aa2acp.Base.Headers.{
  crlf, header_mark, ended_lines, IsLine, AreLines, length-ended_lines, length-positive,
  find-header_mark, find-crlf, ended_lines-append, drop_line, ended_none, lines_le,
}
use aa2acp.AirPlay.Rtsp.{
  not_set, max_content_length, scan_line, Scan, unfinished, rejected, scanned, after_line,
  scan_lines, checked_size, size_at_end, complete_response_size,
}

-- The loop over whole lines.
abbrev pub fold_lines : List Bytes → ℕ → Option ℕ
fold_lines [] content_length = some content_length
fold_lines (line ∷ lines) content_length = scan_line line content_length >>= fold_lines lines

abbrev pub outcome : Option ℕ → Scan
outcome none = rejected
outcome (some size) = scanned size

-- One round of the loop takes a line.
scan_lines-line :
    (fuel left : ℕ) (line text : Bytes) (n : ℕ)
    → IsLine line
    → 1 ≤ left
    → scan_lines (suc fuel) (line ++ (13 ∷ 10 ∷ text)) left n
      ≡ after_line (scan_line line n) (scan_lines fuel text (left - (length line + 2)))
unfolding scan_lines
scan_lines-line fuel left line text n whole_line some_left =
    let more : (left == 0) ≡ false = ground arith in
    let front = take-append_length (length line) line (13 ∷ 10 ∷ text) refl in
    rw (more, find-crlf line text whole_line, front, drop_line line text) refl

scan_lines_end : (fuel n : ℕ) (text : Bytes) → scan_lines (suc fuel) text 0 n ≡ scanned n
unfolding scan_lines
scan_lines_end fuel n text = refl

after_line-bind :
    (o : Option ℕ) (next : ℕ → Scan) (f : ℕ → Option ℕ)
    → ((size : ℕ) → next size ≡ outcome (f size))
    → after_line o next ≡ outcome (o >>= f)
after_line-bind none next f h = refl
after_line-bind (some size) next f h = h size

-- The loop goes over the lines one by one.
pub scan_lines-fold_lines :
    (lines : List Bytes) (fuel : ℕ) (rest : Bytes) (content_length : ℕ)
    → AreLines lines
    → length lines < fuel
    → scan_lines fuel
        (ended_lines lines ++ (13 ∷ 10 ∷ rest))
        (length (ended_lines lines) - 2)
        content_length
      ≡ outcome (fold_lines lines content_length)
scan_lines-fold_lines lines zero rest n ok enough = absurd (omega arith)
scan_lines-fold_lines [] (suc fuel) rest n ok enough =
    ap (λ left. scan_lines (suc fuel) (ended_lines [] ++ (13 ∷ 10 ∷ rest)) left n) ended_none
    ∙ scan_lines_end fuel n (ended_lines [] ++ (13 ∷ 10 ∷ rest))
scan_lines-fold_lines (line ∷ lines) (suc fuel) rest n (here, others) enough =
    let text = ended_lines lines ++ (13 ∷ 10 ∷ rest) in
    let size = length-ended_lines line lines in
    let left = length (ended_lines (line ∷ lines)) - 2 in
    let next : left - (length line + 2) ≡ length (ended_lines lines) - 2 = omega arith in
    let step =
      scan_lines-line fuel left line text n here (omega (arith, length-positive line here)) in
    ap (λ t. scan_lines (suc fuel) t left n) (ended_lines-append line lines (13 ∷ 10 ∷ rest))
    ∙ step
    ∙ rw next (
        after_line-bind (scan_line line n) _ (fold_lines lines)
          (λ size. scan_lines-fold_lines lines fuel rest size others (omega arith)))

-- The size of a message whose header has a size, given the content length that the fields say.
abbrev pub message_size : ℕ → ℕ → ℕ → Option ℕ
message_size header_size available content_length =
    let size = if content_length == not_set then 0 else content_length in
    if ltb max_content_length size
    then none
    else if ltb available size
    then none
    else some (header_size + size)

size_at_end-outcome :
    (bytes : Bytes) (header_end header_size available : ℕ) (o : Option ℕ)
    → header_end + 4 ≡ header_size
    → length bytes - header_size ≡ available
    → size_at_end bytes header_end (outcome o) ≡ (o >>= message_size header_size available)
unfolding checked_size
size_at_end-outcome bytes header_end header_size available none e h = refl
size_at_end-outcome bytes header_end header_size available (some n) e h = rw (e, h) refl

-- A message of whole lines: the fields decide its size, and whether it is there whole.
pub complete_response_size_lem :
    (line : Bytes) (lines : List Bytes) (rest : Bytes)
    → AreLines (line ∷ lines)
    → complete_response_size (ended_lines (line ∷ lines) ++ (13 ∷ 10 ∷ rest)) ≡ (
        fold_lines (line ∷ lines) not_set
        >>= message_size (length (ended_lines (line ∷ lines)) + 2) (length rest))
unfolding complete_response_size
complete_response_size_lem line lines rest ok =
    let text = ended_lines (line ∷ lines) ++ (13 ∷ 10 ∷ rest) in
    let header_end = length (ended_lines (line ∷ lines)) - 2 in
    let size = length-ended_lines line lines in
    let loop =
      scan_lines-fold_lines (line ∷ lines) (suc header_end) rest not_set ok
        (omega (arith, lines_le (line ∷ lines) ok)) in
    let total = length-append (ended_lines (line ∷ lines)) (13 ∷ 10 ∷ rest) in
    rw (find-header_mark line lines rest ok) (
      ap (size_at_end text header_end) loop
      ∙ size_at_end-outcome text header_end (length (ended_lines (line ∷ lines)) + 2) (length rest)
          (fold_lines (line ∷ lines) not_set) (omega arith) (omega arith))

after_line_finished :
    (o : Option ℕ) (next : ℕ → Scan)
    → ((size : ℕ) → next size ≢ unfinished)
    → after_line o next ≢ unfinished
after_line_finished none next h p = absurd cc
after_line_finished (some size) next h p = h size p

scanned-finished : (size : ℕ) → scanned size ≢ unfinished
scanned-finished size p = absurd cc

-- Every loop over the lines comes to its end on the fuel that `complete_response_size` gives.
pub scan_lines_total :
    (fuel : ℕ) (text : Bytes) (left content_length : ℕ)
    → left < fuel
    → scan_lines fuel text left content_length ≢ unfinished
unfolding scan_lines
scan_lines_total zero text left n h = absurd (omega arith)
scan_lines_total (suc fuel) text left n h = elim (Bool-cases (left == 0)) [
  | inl e ↦ rw e (scanned-finished n)
  | inr e ↦ elim (Option-cases (find crlf text)) [
    | inl nowhere ↦
        rw (e, nowhere)
          (after_line_finished (scan_line (take left text) n) scanned scanned-finished)
    | inr (line_end, there) ↦
        rw (e, there)
          (after_line_finished (scan_line (take line_end text) n) _ (λ size.
            scan_lines_total fuel (drop (line_end + 2) text) (left - (line_end + 2)) size
              (ground arith)))
  ]
]

-- The size of a message ends behind its header, inside the bytes, and at most 1 MiB further on.
abbrev pub EndsBehind : Bytes → ℕ → ℕ → Type 0
EndsBehind bytes header_end size =
    (header_end + 4 ≤ size) × (size ≤ header_end + 4 + max_content_length) × (size ≤ length bytes)

checked_size_bounds :
    (bytes : Bytes) (header_end n size : ℕ)
    → header_end + 4 ≤ length bytes
    → checked_size bytes header_end n ≡ some size
    → EndsBehind bytes header_end size
unfolding checked_size
checked_size_bounds bytes header_end n size inside h =
    let length_said = if n == not_set then 0 else n in
    let (small, rest) = if-eq-some (ltb max_content_length length_said) _ h in
    let (there, last) = if-eq-some (ltb (length bytes - (header_end + 4)) length_said) _ rest in
    let low : length_said ≤ max_content_length = ground arith in
    let high : length_said ≤ length bytes - (header_end + 4) = ground arith in
    rw (sym (some-injective _ _ last)) (omega arith, omega arith, omega arith)

-- A message that is accepted has a header, and ends inside the bytes received, at most 1 MiB behind
-- its header.
pub complete_response_size_bounds :
    (bytes : Bytes) (size : ℕ)
    → complete_response_size bytes ≡ some size
    → (header_end : ℕ) × (find header_mark bytes ≡ some header_end)
      × EndsBehind bytes header_end size
unfolding complete_response_size
complete_response_size_bounds bytes size h =
    let (header_end, found, rest) = >>=-eq-some (find header_mark bytes) _ h in
    let inside = find_inside header_mark bytes header_end found in
    (header_end, found, size_at_end_bounds bytes header_end size _ inside rest)
  where
    size_at_end_bounds :
        (b : Bytes) (e s : ℕ) (scan : Scan)
        → e + 4 ≤ length b
        → size_at_end b e scan ≡ some s
        → EndsBehind b e s
    size_at_end_bounds b e s unfinished inside p = absurd cc
    size_at_end_bounds b e s rejected inside p = absurd cc
    size_at_end_bounds b e s (scanned n) inside p = checked_size_bounds b e n s inside p
