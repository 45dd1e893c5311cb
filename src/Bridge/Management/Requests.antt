-- ===== src/Bridge/Management/Requests.antt =====
-- The framing of a request to the management pages (src/bridge/management_ui.cpp,
-- `frame_http_request`).
use aa2acp.Base.{
  ℕ, zero, suc, ◌+◌, ◌-◌, ◌<◌, ◌≡◌, refl, sym, ap, ◌∙◌, Bool, true, false, ◌||◌, inl, inr, List, [],
  ◌∷◌, ◌++◌, append-nil, append_assoc, Option, none, some, ◌>>=◌, arith, ltb, leb, ◌==◌,
  if◌then◌else◌, Bool-cases, le→leb, lt→leb, length, length-append, take, drop, take-append_length,
  drop-append_length, Bytes,
}
use aa2acp.Base.Headers.{
  ended_lines, IsLine, AreLines, length-ended_lines, length-positive, find-header_mark, find-crlf,
  ended_lines-append, drop_line, lines_le, length-ended_lines_none,
}
use aa2acp.Bridge.Management.{
  HttpRequestFraming, incomplete, invalid, complete, read_line, LineScan, bad, sized, behind_line,
  read_lines, value_or_zero, framed_body, framing_at_end, frame_http_request,
}

-- The size of the body that the lines say, or the rejection.
abbrev pub fold_sizes : List Bytes → Option ℕ → Option (Option ℕ)
fold_sizes [] body_size = some body_size
fold_sizes (line ∷ lines) body_size = read_line line body_size >>= fold_sizes lines

abbrev outcome : Option (Option ℕ) → LineScan
outcome none = bad
outcome (some body_size) = sized body_size

behind_line-bind :
    (o : Option (Option ℕ)) (next : Option ℕ → LineScan) (f : Option ℕ → Option (Option ℕ))
    → ((body_size : Option ℕ) → next body_size ≡ outcome (f body_size))
    → behind_line o next ≡ outcome (o >>= f)
behind_line-bind none next f h = refl
behind_line-bind (some body_size) next f h = h body_size

read_lines-last :
    (fuel : ℕ) (line text : Bytes) (body_size : Option ℕ)
    → IsLine line
    → read_lines (suc fuel) (line ++ (13 ∷ 10 ∷ text)) (length line) body_size
      ≡ behind_line (read_line line body_size) sized
unfolding read_lines
read_lines-last fuel line text body_size whole =
    let more : (length line == 0) ≡ false = ground (arith, length-positive line whole) in
    let last : leb (length line) (length line) ≡ true = le→leb _ _ (omega arith) in
    let front = take-append_length (length line) line (13 ∷ 10 ∷ text) refl in
    rw (more, find-crlf line text whole, last, front) refl

read_lines-line :
    (fuel left : ℕ) (line text : Bytes) (body_size : Option ℕ)
    → IsLine line
    → length line < left
    → read_lines (suc fuel) (line ++ (13 ∷ 10 ∷ text)) left body_size
      ≡ behind_line (read_line line body_size) (read_lines fuel text (left - (length line + 2)))
unfolding read_lines
read_lines-line fuel left line text body_size whole further =
    let more : (left == 0) ≡ false = ground arith in
    let not_last : leb left (length line) ≡ false = lt→leb _ _ further in
    let front = take-append_length (length line) line (13 ∷ 10 ∷ text) refl in
    rw (more, find-crlf line text whole, not_last, front, drop_line line text) refl

read_lines-fold_sizes :
    (lines : List Bytes) (line : Bytes) (fuel : ℕ) (rest : Bytes) (body_size : Option ℕ)
    → AreLines (line ∷ lines)
    → length lines < fuel
    → read_lines fuel
        (ended_lines (line ∷ lines) ++ (13 ∷ 10 ∷ rest))
        (length (ended_lines (line ∷ lines)) - 2)
        body_size
      ≡ outcome (fold_sizes (line ∷ lines) body_size)
read_lines-fold_sizes lines line zero rest body_size whole enough = absurd (omega arith)
read_lines-fold_sizes [] line (suc fuel) rest body_size (here, none_left) enough =
    let size = length-ended_lines line [] in
    let left : length (ended_lines (line ∷ [])) - 2 ≡ length line =
      omega (arith, length-ended_lines_none) in
    let text = ended_lines [] ++ (13 ∷ 10 ∷ rest) in
    ap (λ t. read_lines (suc fuel) t (length (ended_lines (line ∷ [])) - 2) body_size)
      (ended_lines-append line [] (13 ∷ 10 ∷ rest))
    ∙ ap (λ n. read_lines (suc fuel) (line ++ (13 ∷ 10 ∷ text)) n body_size) left
    ∙ read_lines-last fuel line text body_size here
    ∙ behind_line-bind (read_line line body_size) sized (fold_sizes []) (λ s. refl)
read_lines-fold_sizes (next ∷ lines) line (suc fuel) rest body_size (here, others) enough =
    let later = next ∷ lines in
    let size = length-ended_lines line later in
    let left = length (ended_lines (line ∷ later)) - 2 in
    let after : left - (length line + 2) ≡ length (ended_lines later) - 2 = omega arith in
    let long = lines_le later others in
    ap (λ t. read_lines (suc fuel) t left body_size)
      (ended_lines-append line later (13 ∷ 10 ∷ rest))
    ∙ read_lines-line fuel left line (ended_lines later ++ (13 ∷ 10 ∷ rest)) body_size here
        (omega arith)
    ∙ rw after (
        behind_line-bind (read_line line body_size) _ (fold_sizes later)
          (λ s. read_lines-fold_sizes lines next fuel rest s others (omega arith)))

-- What is received behind the header is the body if it has the size that was said; with less the
-- request is not complete, with more it is refused.
abbrev pub framed_rest : ℕ → ℕ → ℕ → Bytes → Option (Option ℕ) → HttpRequestFraming
framed_rest max_size maximum_body header_size rest none = invalid
framed_rest max_size maximum_body header_size rest (some body_size) =
    let size = value_or_zero body_size in
    if ltb maximum_body size || ltb (max_size - size) header_size
    then invalid
    else if ltb (length rest) size
    then incomplete
    else if ltb size (length rest)
    then invalid
    else complete rest

take_all :
    (n : ℕ) (rest : Bytes)
    → ltb (length rest) n ≡ false
    → ltb n (length rest) ≡ false
    → take n rest ≡ rest
take_all n rest low high =
    let size : length rest ≡ n = ground arith in
    ap (take n) (sym (append-nil rest)) ∙ take-append_length n rest [] size

framed_rest-complete :
    (size : ℕ) (rest chunk : Bytes) (a b c : HttpRequestFraming) (refused : Bool)
    → (ltb (length rest) size ≡ false → ltb size (length rest) ≡ false → chunk ≡ rest)
    → (if refused
        then a
        else if ltb (length rest) size
        then b
        else if ltb size (length rest)
        then c
        else complete chunk)
      ≡ (if refused
          then a
          else if ltb (length rest) size
          then b
          else if ltb size (length rest)
          then c
          else complete rest)
framed_rest-complete size rest chunk a b c true same = refl
framed_rest-complete size rest chunk a b c false same = elim (Bool-cases (ltb (length rest) size)) [
  | inl e ↦ rw e refl
  | inr e ↦ elim (Bool-cases (ltb size (length rest))) [
    | inl f ↦ rw (e, f) refl
    | inr f ↦ rw (e, f) (ap complete (same e f))
  ]
]

framing_at_end-outcome :
    (max_size : ℕ) (request rest : Bytes) (maximum_body header_end : ℕ) (o : Option (Option ℕ))
    → drop (header_end + 4) request ≡ rest
    → length request ≡ header_end + 4 + length rest
    → framing_at_end max_size request maximum_body header_end (outcome o)
      ≡ framed_rest max_size maximum_body (header_end + 4) rest o
unfolding framed_body
framing_at_end-outcome max_size request rest maximum_body header_end none behind total = refl
framing_at_end-outcome max_size request rest maximum_body header_end (some body_size) behind total =
    let size = value_or_zero body_size in
    let start = header_end + 4 in
    let less : ltb (length request) (start + size) ≡ ltb (length rest) size = ground arith in
    let more : ltb (start + size) (length request) ≡ ltb size (length rest) = ground arith in
    rw (less, more, behind)
      (framed_rest-complete size rest (take size rest) invalid incomplete invalid
        (ltb maximum_body size || ltb (max_size - size) start) (take_all size rest))

-- The framing of whole lines, over the fold.
pub frame_http_request_fold :
    (max_size maximum_headers maximum_body : ℕ) (line : Bytes) (lines : List Bytes) (rest : Bytes)
    → AreLines (line ∷ lines)
    → frame_http_request max_size
        (ended_lines (line ∷ lines) ++ (13 ∷ 10 ∷ rest))
        maximum_headers
        maximum_body
      ≡ (if ltb maximum_headers (length (ended_lines (line ∷ lines)) - 2)
          then invalid
          else framed_rest max_size maximum_body
              (length (ended_lines (line ∷ lines)) - 2 + 4)
              rest
              (fold_sizes (line ∷ lines) none))
unfolding frame_http_request
frame_http_request_fold max_size maximum_headers maximum_body line lines rest whole =
    let top = ended_lines (line ∷ lines) in
    let request = top ++ (13 ∷ 10 ∷ rest) in
    let header_end = length top - 2 in
    let long = lines_le (line ∷ lines) whole in
    let loop = read_lines-fold_sizes lines line (suc header_end) rest none whole (omega arith) in
    let behind : drop (header_end + 4) request ≡ rest =
      ap (drop (header_end + 4)) (sym (append_assoc top (13 ∷ 10 ∷ []) rest))
      ∙ drop-append_length (header_end + 4) (top ++ (13 ∷ 10 ∷ [])) rest
          (omega (arith, length-append top (13 ∷ 10 ∷ []))) in
    let total : length request ≡ header_end + 4 + length rest =
      omega (arith, length-append top (13 ∷ 10 ∷ rest)) in
    rw (find-header_mark line lines rest whole) (
      ap (λ o. if ltb maximum_headers header_end then invalid else o)
        (ap (framing_at_end max_size request maximum_body header_end) loop
          ∙ framing_at_end-outcome max_size request rest maximum_body header_end
              (fold_sizes (line ∷ lines) none) behind total))
