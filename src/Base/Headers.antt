-- ===== src/Base/Headers.antt =====
-- The header of a message: lines that each end in "\r\n", and an empty line.
use Prim.Native.Nat.{ℕ, suc, ◌+◌, ◌-◌, ◌*◌, ◌≤◌}
use mathlib.Core.Path.{◌≡◌, refl, sym, ap, ◌∙◌}
use mathlib.Core.Bool.{false}
use mathlib.Core.Option.{some}
use mathlib.Core.List.{List, [], ◌∷◌, ◌++◌, append_assoc}
use native.Mathlib.Omega.{arith}
use aa2acp.Base.Lists.{length, is_empty, All, drop, length-append, drop-append_length}
use aa2acp.Base.Tests.{◌==◌}
use aa2acp.Base.Words.{Bytes}
use aa2acp.Base.Texts.{find, starts_with, Lacks, find-append, find_miss}

abbrev pub crlf : Bytes
crlf = 13 ∷ 10 ∷ []

-- "\r\n\r\n"
abbrev pub header_mark : Bytes
header_mark = 13 ∷ 10 ∷ 13 ∷ 10 ∷ []

unfoldable pub ended_lines : List Bytes → Bytes
ended_lines [] = []
ended_lines (line ∷ lines) = line ++ (13 ∷ 10 ∷ ended_lines lines)

-- A line of a header: not empty, and without carriage returns.
abbrev pub IsLine : Bytes → Type 0
IsLine line = (is_empty line ≡ false) × Lacks 13 line

abbrev pub AreLines : List Bytes → Type 0
AreLines = All IsLine

pub length-ended_lines :
    (line : Bytes) (lines : List Bytes)
    → length (ended_lines (line ∷ lines)) ≡ length line + suc (suc (length (ended_lines lines)))
unfolding ended_lines
length-ended_lines line lines = length-append line (13 ∷ 10 ∷ ended_lines lines)

pub length-positive : (line : Bytes) → IsLine line → 1 ≤ length line
length-positive [] (filled, lacks) = absurd cc
length-positive (c ∷ line) h = omega arith

-- The mark is not at the end of a line that another one follows.
find-crlf_line :
    (line text : Bytes) (n : ℕ)
    → IsLine line
    → find header_mark (line ++ text) ≡ some n
    → find header_mark (13 ∷ 10 ∷ line ++ text) ≡ some (suc (suc n))
unfolding starts_with
find-crlf_line [] text n (filled, lacks) h = absurd cc
find-crlf_line (c ∷ line) text n (filled, (other, lacks)) h =
    let other' : (13 == c) ≡ false = ground arith in
    let second = find_miss header_mark ((c ∷ line) ++ text) 10 n refl h in
    find_miss header_mark (10 ∷ (c ∷ line) ++ text) 13 (suc n) (rw other' refl) second

pub find-header_mark :
    (line : Bytes) (lines : List Bytes) (rest : Bytes)
    → AreLines (line ∷ lines)
    → find header_mark (ended_lines (line ∷ lines) ++ (13 ∷ 10 ∷ rest))
      ≡ some (length (ended_lines (line ∷ lines)) - 2)
unfolding ended_lines find starts_with
find-header_mark line [] rest (here, others) =
    let end : find header_mark (13 ∷ 10 ∷ 13 ∷ 10 ∷ rest) ≡ some 0 = refl in
    ap (find header_mark) (append_assoc line (13 ∷ 10 ∷ []) (13 ∷ 10 ∷ rest))
    ∙ find-append 13 (10 ∷ 13 ∷ 10 ∷ []) line _ 0 here.1 end
    ∙ ap some (omega (arith, length-append line (13 ∷ 10 ∷ [])))
find-header_mark line (next ∷ lines) rest (here, others) =
    let behind = ended_lines (next ∷ lines) in
    let later = find-header_mark next lines rest others in
    let text = 13 ∷ 10 ∷ ended_lines lines in
    let later' = rw (append_assoc next text (13 ∷ 10 ∷ rest)) at later in
    let mark = find-crlf_line next (text ++ (13 ∷ 10 ∷ rest)) _ others.0 later' in
    let whole : (line ++ (13 ∷ 10 ∷ behind)) ++ (13 ∷ 10 ∷ rest)
        ≡ line ++ (13 ∷ 10 ∷ next ++ (text ++ (13 ∷ 10 ∷ rest))) =
      append_assoc line (13 ∷ 10 ∷ behind) (13 ∷ 10 ∷ rest)
      ∙ ap (λ t. line ++ (13 ∷ 10 ∷ t)) (append_assoc next text (13 ∷ 10 ∷ rest)) in
    ap (find header_mark) whole
    ∙ find-append 13 (10 ∷ 13 ∷ 10 ∷ []) line _ _ here.1 mark
    ∙ ap some (
        omega (
          arith,
          length-append line (13 ∷ 10 ∷ behind),
          length-ended_lines next lines,
          length-append next text,
        ))

pub find-crlf :
    (line text : Bytes) → IsLine line → find crlf (line ++ (13 ∷ 10 ∷ text)) ≡ some (length line)
unfolding find starts_with
find-crlf line text whole_line =
    find-append 13 (10 ∷ []) line (13 ∷ 10 ∷ text) 0 whole_line.1 refl ∙ ap some (omega arith)

pub ended_lines-append :
    (line : Bytes) (lines : List Bytes) (text : Bytes)
    → ended_lines (line ∷ lines) ++ text ≡ line ++ (13 ∷ 10 ∷ ended_lines lines ++ text)
unfolding ended_lines
ended_lines-append line lines text = append_assoc line (13 ∷ 10 ∷ ended_lines lines) text

pub drop_line : (line text : Bytes) → drop (length line + 2) (line ++ (13 ∷ 10 ∷ text)) ≡ text
drop_line line text =
    ap (drop (length line + 2)) (sym (append_assoc line (13 ∷ 10 ∷ []) text))
    ∙ drop-append_length (length line + 2) (line ++ (13 ∷ 10 ∷ [])) text
        (length-append line (13 ∷ 10 ∷ []))

pub ended_none : length (ended_lines []) - 2 ≡ 0
unfolding ended_lines
ended_none = refl

pub lines_le : (lines : List Bytes) → AreLines lines → 3 * length lines ≤ length (ended_lines lines)
lines_le [] ok = omega arith
lines_le (line ∷ lines) (here, others) =
    omega (arith, length-ended_lines line lines, length-positive line here, lines_le lines others)

pub length-ended_lines_none : length (ended_lines []) ≡ 0
unfolding ended_lines
length-ended_lines_none = refl
