-- ===== src/AirPlay/Rtsp/Messages.antt =====
-- Requests that are written, found whole again in a stream (src/airplay/rtsp.cpp).
use aa2acp.Base.{
  ℕ, ◌+◌, ◌≤◌, ◌≡◌, refl, sym, ap, ◌∙◌, Bool, true, false, List, [], ◌∷◌, ◌++◌, append_assoc, some,
  arith, ltb, ◌==◌, if◌then◌else◌, le→ltb, length, length-append, is_empty, All, All-append, eqb,
  Bytes,
}
use aa2acp.Base.Texts.{lower, decimal, Lacks, lacks, lacks-Lacks, Lacks-decimal}
use aa2acp.Base.Headers.{AreLines, IsLine, ended_lines}
use aa2acp.AirPlay.Rtsp.{
  protocol, cseq_name, user_agent_name, user_agent, content_type_name, content_length_name,
  content_length_key, Headers, header_line, has_user_agent, header_lines, request_lines,
  encode_request, not_set, max_content_length, complete_response_size,
}
use aa2acp.AirPlay.Rtsp.Framing.{fold_lines, complete_response_size_lem}
use aa2acp.AirPlay.Rtsp.Lines.{
  IsPlain, header_line-IsPlain, fold_lines-IsPlain, scan_line-content_length, words-IsPlain,
}

-- A field that does not say the length of the body, on one line.
abbrev pub IsField : Bytes × Bytes → Type 0
IsField (name, value) =
    Lacks 13 name × Lacks 13 value × Lacks 58 name × (eqb (lower name) content_length_key ≡ false)

pub is_empty-append : (a : Bytes) (c : ℕ) (b : Bytes) → is_empty (a ++ (c ∷ b)) ≡ false
is_empty-append [] c b = refl
is_empty-append (x ∷ a) c b = refl

header_line-IsLine :
    (name value : Bytes) → Lacks 13 name → Lacks 13 value → IsLine (header_line name value)
header_line-IsLine name value plain_name plain_value = (
  is_empty-append name 58 (32 ∷ value),
  All-append _ name (58 ∷ 32 ∷ value) plain_name (refl, (refl, plain_value)),
)

-- A line that the framing passes over.
abbrev pub IsPassed : Bytes → Type 0
IsPassed line = IsLine line × IsPlain line

header_line-IsPassed :
    (name value : Bytes) → IsField (name, value) → IsPassed (header_line name value)
header_line-IsPassed name value (plain_name, plain_value, short, other) = (
  header_line-IsLine name value plain_name plain_value,
  header_line-IsPlain name value short other,
)

pub header_lines-IsPassed :
    (headers : Headers) → All IsField headers → All IsPassed (header_lines headers)
unfolding header_lines
header_lines-IsPassed [] fields = tt
header_lines-IsPassed ((name, value) ∷ headers) (field, fields) =
    (header_line-IsPassed name value field, header_lines-IsPassed headers fields)

pub AreLines-IsPassed : (lines : List Bytes) → All IsPassed lines → AreLines lines
AreLines-IsPassed [] passed = tt
AreLines-IsPassed (line ∷ lines) (here, passed) = (here.0, AreLines-IsPassed lines passed)

IsPlain-IsPassed : (lines : List Bytes) → All IsPassed lines → All IsPlain lines
IsPlain-IsPassed [] passed = tt
IsPlain-IsPassed (line ∷ lines) (here, passed) = (here.1, IsPlain-IsPassed lines passed)

-- The last line of a message with a body.
abbrev pub length_line : Bytes → Bytes
length_line body = header_line content_length_name (decimal (length body))

pub length_line-IsLine : (body : Bytes) → IsLine (length_line body)
length_line-IsLine body =
    header_line-IsLine content_length_name (decimal (length body))
      (lacks-Lacks 13 content_length_name refl) (Lacks-decimal 13 (length body) (omega arith))

-- Lines that are passed over, the length of the body, and the body, whatever comes behind.
pub message_found :
    (line : Bytes) (lines : List Bytes) (body rest : Bytes)
    → All IsPassed (line ∷ lines)
    → length body ≤ max_content_length
    → complete_response_size
        (ended_lines (line ∷ lines ++ (length_line body ∷ [])) ++ (13 ∷ 10 ∷ (body ++ rest)))
      ≡ some (length (ended_lines (line ∷ lines ++ (length_line body ∷ []))) + 2 + length body)
message_found line lines body rest passed small =
    let all = lines ++ (length_line body ∷ []) in
    let whole : AreLines (line ∷ all) = (
      passed.0.0,
      All-append IsLine lines (length_line body ∷ []) (AreLines-IsPassed lines passed.1)
          (length_line-IsLine body, tt),
    ) in
    let folded : fold_lines (line ∷ all) not_set ≡ some (length body) =
      fold_lines-IsPlain (line ∷ lines) (length_line body ∷ []) not_set
        (IsPlain-IsPassed (line ∷ lines) passed)
      ∙ rw (scan_line-content_length (length body) (omega arith)) refl in
    let said : (length body == not_set) ≡ false = ground arith in
    let fits : ltb max_content_length (length body) ≡ false = le→ltb _ _ small in
    let there : ltb (length (body ++ rest)) (length body) ≡ false =
      le→ltb _ _ (omega (arith, length-append body rest)) in
    complete_response_size_lem line all (body ++ rest) whole ∙ rw (folded, said, fits, there) refl

known-IsPassed :
    (name value : Bytes)
    → lacks 13 name ≡ true
    → lacks 58 name ≡ true
    → Lacks 13 value
    → eqb (lower name) content_length_key ≡ false
    → IsPassed (header_line name value)
known-IsPassed name value plain short plain_value other =
    header_line-IsPassed name value
      (lacks-Lacks 13 name plain, plain_value, lacks-Lacks 58 name short, other)

optional-IsPassed :
    (absent : Bool) (line : Bytes) → IsPassed line → All IsPassed (if absent then [] else line ∷ [])
optional-IsPassed true line passed = tt
optional-IsPassed false line passed = (passed, tt)

module _ (method path : Bytes) (cseq : ℕ) (body content_type : Bytes) (additional : Headers)
    (word : Lacks 58 method) (plain_method : Lacks 13 method) (plain_path : Lacks 13 path)
    (plain_type : Lacks 13 content_type) (fields : All IsField additional) where
  abbrev request_line : Bytes
  request_line = method ++ (32 ∷ path ++ (32 ∷ protocol))

  abbrev own_agent : List Bytes
  own_agent = if has_user_agent additional then [] else header_line user_agent_name user_agent ∷ []

  abbrev own_type : List Bytes
  own_type = if is_empty content_type then [] else header_line content_type_name content_type ∷ []

  -- The lines between the first and the last one.
  abbrev middle_lines : List Bytes
  middle_lines =
      header_line cseq_name (decimal cseq) ∷ (own_agent ++ (header_lines additional ++ own_type))

  request_lines-middle :
      request_lines method path cseq body content_type additional
      ≡ request_line ∷ middle_lines ++ (length_line body ∷ [])
  unfolding request_lines
  request_lines-middle = sym (
      ap (λ lines. request_line ∷ header_line cseq_name (decimal cseq) ∷ lines)
        (append_assoc own_agent (header_lines additional ++ own_type) (length_line body ∷ [])
          ∙ ap (λ lines. own_agent ++ lines)
              (append_assoc (header_lines additional) own_type (length_line body ∷ []))))

  lines-IsPassed : All IsPassed (request_line ∷ middle_lines)
  unfolding lower
  lines-IsPassed =
      let first : IsPassed request_line = (
        (
          is_empty-append method 32 (path ++ (32 ∷ protocol)),
          All-append _ method (32 ∷ path ++ (32 ∷ protocol)) plain_method (
            refl,
            All-append _ path (32 ∷ protocol) plain_path (lacks-Lacks 13 (32 ∷ protocol) refl),
          ),
        ),
        words-IsPlain method (path ++ (32 ∷ protocol)) word,
      ) in
      let sequence =
        known-IsPassed cseq_name (decimal cseq) refl refl (Lacks-decimal 13 cseq (omega arith))
          refl in
      let agent =
        known-IsPassed user_agent_name user_agent refl refl (lacks-Lacks 13 user_agent refl) refl in
      let kind = known-IsPassed content_type_name content_type refl refl plain_type refl in
      (
        first,
        (
          sequence,
          All-append IsPassed own_agent (header_lines additional ++ own_type)
              (optional-IsPassed (has_user_agent additional) _ agent)
              (All-append IsPassed (header_lines additional) own_type
                (header_lines-IsPassed additional fields)
                (optional-IsPassed (is_empty content_type) _ kind)),
        ),
      )

  -- A request that is written is found whole in front of whatever follows: no carriage return stands
  -- in its parts, no colon in its method and field names, no added field says the length of the body,
  -- and the body has at most 1 MiB.
  pub complete_response_size-encode_request :
      (rest : Bytes)
      → length body ≤ max_content_length
      → complete_response_size
          (encode_request method path cseq body content_type additional ++ rest)
        ≡ some (length (encode_request method path cseq body content_type additional))
  unfolding encode_request
  complete_response_size-encode_request rest small =
      let lines = request_line ∷ middle_lines ++ (length_line body ∷ []) in
      let text = ended_lines lines in
      let found = message_found request_line middle_lines body rest lines-IsPassed small in
      let size = length-append text (13 ∷ 10 ∷ body) in
      rw (request_lines-middle, append_assoc text (13 ∷ 10 ∷ body) rest)
        (found ∙ ap some (omega arith))
