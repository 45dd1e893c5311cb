-- ===== src/AirPlay/Rtsp/Sizes.antt =====
-- Which size complete_response_size finds (src/airplay/rtsp.cpp).
use aa2acp.Base.{
  ℕ, ◌+◌, ◌^◌, ◌≤◌, ◌≡◌, ◌≢◌, ◌↔◌, ◌⊎◌, refl, sym, ap, ◌∙◌, false, not, inl, inr, List, [], ◌∷◌,
  ◌++◌, Option, none, some, some-injective, ◌>>=◌, arith, ◌==◌, if◌then◌else◌, Bool-cases,
  Option-cases, is_empty, length, take, drop, All, eqb, Bytes,
}
use aa2acp.Base.Texts.{index_of, lower, parse_decimal}
use aa2acp.Base.Headers.{ended_lines, AreLines}
use aa2acp.AirPlay.Rtsp.{
  trim, content_length_key, not_set, max_content_length, scan_field, scan_at, scan_line,
  complete_response_size,
}
use aa2acp.AirPlay.Rtsp.Framing.{fold_lines, message_size, complete_response_size_lem}

-- The value of a line with a colon at that place, in front of those of the later lines, if its name is
-- content-length, in any case.
abbrev pub add_value : Option ℕ → Bytes → List Bytes → List Bytes
add_value none line values = values
add_value (some n) line values =
    if eqb (lower (take n line)) content_length_key then drop (n + 1) line ∷ values else values

abbrev pub length_values : List Bytes → List Bytes
length_values [] = []
length_values (line ∷ lines) = add_value (index_of 58 line) line (length_values lines)

-- The number that a value says, blanks around it aside.
abbrev pub number_of : Bytes → Option ℕ
number_of value = parse_decimal (2 ^ 64) (trim value)

-- A size is said by the only length field, or there is none and it is 0.
abbrev pub SaysSize : List Bytes → ℕ → Type 0
SaysSize [] size = size ≡ 0
SaysSize (value ∷ []) size = number_of value ≡ some size
SaysSize (value ∷ other ∷ values) size = ⊥

abbrev said : List Bytes → Option ℕ
said [] = some not_set
said (value ∷ []) = number_of value
said (value ∷ other ∷ values) = none

scan_at-cases :
    (o : Option ℕ) (line : Bytes) (n : ℕ)
    → (((values : List Bytes) → add_value o line values ≡ values) × (scan_at o line n ≡ some n))
      ⊎ ((value : Bytes) × ((values : List Bytes) → add_value o line values ≡ value ∷ values)
          × (scan_at o line n ≡ (if not (n == not_set) then none else number_of value)))
unfolding scan_field
scan_at-cases none line n = inl ((λ values. refl), refl)
scan_at-cases (some k) line n = elim (Bool-cases (eqb (lower (take k line)) content_length_key)) [
  | inl f ↦ inr (drop (k + 1) line, (λ values. rw f refl), rw f refl)
  | inr f ↦ inl ((λ values. rw f refl), rw f refl)
]

-- Behind a length field, a second one is refused.
fold_lines-set :
    (lines : List Bytes) (n : ℕ)
    → (n == not_set) ≡ false
    → fold_lines lines n ≡ (if is_empty (length_values lines) then some n else none)
unfolding scan_line
fold_lines-set [] n set = refl
fold_lines-set (line ∷ lines) n set = elim (scan_at-cases (index_of 58 line) line n) [
  | inl (same, e) ↦ rw (e, same (length_values lines)) (fold_lines-set lines n set)
  | inr (value, more, e) ↦ rw (e, more (length_values lines), set) refl
]

fold_lines-said :
    (lines : List Bytes)
    → All (λ value. number_of value ≢ some not_set) (length_values lines)
    → fold_lines lines not_set ≡ said (length_values lines)
unfolding scan_line
fold_lines-said [] sayable = refl
fold_lines-said (line ∷ lines) sayable = elim (scan_at-cases (index_of 58 line) line not_set) [
  | inl (same, e) ↦
      let later = rw (same (length_values lines)) at sayable in
      rw (e, same (length_values lines)) (fold_lines-said lines later)
  | inr (value, more, e) ↦
      let here = rw (more (length_values lines)) at sayable in
      rw (e, more (length_values lines)) (first value (length_values lines) refl here.0)
]
  where
    unsaid :
        (value : Bytes) (values : List Bytes)
        → number_of value ≡ none
        → none ≡ said (value ∷ values)
    unsaid value [] bad = sym bad
    unsaid value (other ∷ values) bad = refl

    differs : (m : ℕ) → m ≢ not_set → (m == not_set) ≡ false
    differs m other = ground arith

    one :
        (value : Bytes) (values : List Bytes) (m : ℕ)
        → number_of value ≡ some m
        → length_values lines ≡ values
        → (if is_empty (length_values lines) then some m else none) ≡ said (value ∷ values)
    one value [] m e same = rw same (sym e)
    one value (other ∷ values) m e same = rw same refl

    first :
        (value : Bytes) (values : List Bytes)
        → length_values lines ≡ values
        → number_of value ≢ some not_set
        → (number_of value >>= fold_lines lines) ≡ said (value ∷ values)
    first value values same sayable_here = elim (Option-cases (number_of value)) [
      | inl bad ↦ rw bad (unsaid value values bad)
      | inr (m, e) ↦ rw e (
          fold_lines-set lines m (differs m (λ p. sayable_here (e ∙ ap some p)))
          ∙ one value values m e same)
    ]

-- A message of whole lines, in which no length field says 2^64 - 1 (which would count as no field), has
-- a size exactly if its only length field says a size of at most 1 MiB that is received behind the
-- header, or there is none and the size is 0. Two length fields are refused. The message ends behind
-- that size.
pub complete_response_size_iff :
    (line : Bytes) (lines : List Bytes) (rest : Bytes) (total : ℕ)
    → AreLines (line ∷ lines)
    → All (λ value. number_of value ≢ some not_set) (length_values (line ∷ lines))
    → (complete_response_size (ended_lines (line ∷ lines) ++ (13 ∷ 10 ∷ rest)) ≡ some total) ↔ (
        (size : ℕ) × SaysSize (length_values (line ∷ lines)) size
        × (size ≤ max_content_length)
        × (size ≤ length rest)
        × (total ≡ length (ended_lines (line ∷ lines)) + 2 + size))
complete_response_size_iff line lines rest total whole sayable =
    let values = length_values (line ∷ lines) in
    let header_size = length (ended_lines (line ∷ lines)) + 2 in
    rw (complete_response_size_lem line lines rest whole, fold_lines-said (line ∷ lines) sayable)
      (sized values header_size sayable)
  where
    sized_some :
        (header_size n : ℕ)
        → n ≢ not_set
        → (message_size header_size (length rest) n ≡ some total)
          ↔ ((n ≤ max_content_length) × (n ≤ length rest) × (total ≡ header_size + n))
    sized_some header_size n other = ((λ e. ground arith), λ h. ground arith)

    sized :
        (values : List Bytes) (header_size : ℕ)
        → All (λ value. number_of value ≢ some not_set) values
        → ((said values >>= message_size header_size (length rest)) ≡ some total) ↔ (
            (size : ℕ) × SaysSize values size
            × (size ≤ max_content_length)
            × (size ≤ length rest)
            × (total ≡ header_size + size))
    sized [] header_size sayable_here = (
      (λ e. (0, refl, omega arith, omega arith, ground arith)),
      (λ (size, zero_size, small, there, sum). ground arith),
    )
    sized (value ∷ []) header_size sayable_here = elim (Option-cases (number_of value)) [
      | inl bad ↦ rw bad ((λ e. absurd cc), (λ (size, says, small, there, sum). absurd cc))
      | inr (n, e) ↦
          let both = sized_some header_size n (λ p. sayable_here.0 (e ∙ ap some p)) in
          rw e (
            (λ h. let (small, there, sum) = both.0 h in (n, refl, small, there, sum)),
            (λ (size, says, small, there, sum).
                let same : n ≡ size = some-injective _ _ says in
                both.1 (rw same (small, there, sum))),
          )
    ]
    sized (value ∷ other ∷ values) header_size sayable_here =
        ((λ e. absurd cc), (λ (size, says, small, there, sum). absurd says))
