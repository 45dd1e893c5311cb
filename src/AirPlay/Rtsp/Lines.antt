-- ===== src/AirPlay/Rtsp/Lines.antt =====
-- The lines of a header, one by one (src/airplay/rtsp.cpp).
use aa2acp.Base.{
  ℕ, suc, ◌+◌, ◌<◌, ◌^◌, ◌≡◌, refl, sym, ap, ◌∙◌, false, List, [], ◌∷◌, ◌++◌, append_assoc, none,
  some, arith, Bool-cases, length, length-append, take, drop, take-append_length,
  drop-append_length, is_empty, All, eqb, eqb→≡, ◌⊎◌, inl, inr, subst, ==_refl, Option-cases, Bytes,
}
use aa2acp.Base.Texts.{
  index_of, lower, decimal, Lacks, lacks-Lacks, index_of-append, Lacks-decimal,
  parse_decimal-decimal,
}
use aa2acp.AirPlay.Rtsp.{
  skip_blanks, drop_last_blanks, trim, content_length_name, content_length_key, header_line,
  not_set, scan_field, scan_line,
}
use aa2acp.AirPlay.Rtsp.Framing.{fold_lines}

-- A text without blanks is what `trim` leaves of it, also behind a space.
drop_last_blanks_lem : (text : Bytes) → Lacks 32 text → Lacks 9 text → drop_last_blanks text ≡ text
unfolding drop_last_blanks
drop_last_blanks_lem [] spaces tabs = refl
drop_last_blanks_lem (c ∷ text) (s, spaces) (t, tabs) =
    rw (drop_last_blanks_lem text spaces tabs)
      (elim (Bool-cases (is_empty text)) [ inl e ↦ rw (e, s, t) refl | inr e ↦ rw e refl ])

skip_blanks_lem : (text : Bytes) → Lacks 32 text → Lacks 9 text → skip_blanks text ≡ text
unfolding skip_blanks
skip_blanks_lem [] spaces tabs = refl
skip_blanks_lem (c ∷ text) (s, spaces) (t, tabs) = rw (s, t) refl

skip_blanks-space : (text : Bytes) → skip_blanks (32 ∷ text) ≡ skip_blanks text
unfolding skip_blanks
skip_blanks-space text = refl

pub trim-space : (text : Bytes) → Lacks 32 text → Lacks 9 text → trim (32 ∷ text) ≡ text
unfolding trim
trim-space text spaces tabs =
    rw (skip_blanks-space text, skip_blanks_lem text spaces tabs)
      (drop_last_blanks_lem text spaces tabs)

pub take-colon : (name rest : Bytes) → take (length name) (name ++ (58 ∷ rest)) ≡ name
take-colon name rest = take-append_length (length name) name (58 ∷ rest) refl

pub drop-colon : (name rest : Bytes) → drop (length name + 1) (name ++ (58 ∷ rest)) ≡ rest
drop-colon name rest =
    ap (drop (length name + 1)) (sym (append_assoc name (58 ∷ []) rest))
    ∙ drop-append_length (length name + 1) (name ++ (58 ∷ [])) rest (length-append name (58 ∷ []))

pub scan_line-header_line :
    (name value : Bytes) (n : ℕ)
    → Lacks 58 name
    → scan_line (header_line name value) n ≡ scan_field name (32 ∷ value) n
unfolding scan_line
scan_line-header_line name value n lacks =
    rw
      (
        index_of-append 58 name (32 ∷ value) lacks,
        take-colon name (32 ∷ value),
        drop-colon name (32 ∷ value),
      )
      refl

-- A line that leaves the content length as it is.
abbrev pub IsPlain : Bytes → Type 0
IsPlain line = (n : ℕ) → scan_line line n ≡ some n

pub header_line-IsPlain :
    (name value : Bytes)
    → Lacks 58 name
    → eqb (lower name) content_length_key ≡ false
    → IsPlain (header_line name value)
unfolding scan_field
header_line-IsPlain name value lacks other n =
    scan_line-header_line name value n lacks ∙ rw other refl

pub fold_lines-IsPlain :
    (lines more : List Bytes) (n : ℕ)
    → All IsPlain lines
    → fold_lines (lines ++ more) n ≡ fold_lines more n
fold_lines-IsPlain [] more n plain = refl
fold_lines-IsPlain (line ∷ lines) more n (here, plain) =
    rw (here n) (fold_lines-IsPlain lines more n plain)

Lacks-content_length_name : Lacks 58 content_length_name
Lacks-content_length_name = lacks-Lacks 58 content_length_name refl

trimmed_size : (size : ℕ) → trim (32 ∷ decimal size) ≡ decimal size
trimmed_size size =
    trim-space (decimal size) (Lacks-decimal 32 size (omega arith))
      (Lacks-decimal 9 size (omega arith))

-- The field that says the length of the body.
pub scan_line-content_length :
    (size : ℕ)
    → size < 2 ^ 64
    → scan_line (header_line content_length_name (decimal size)) not_set ≡ some size
unfolding scan_field lower
scan_line-content_length size small =
    scan_line-header_line content_length_name (decimal size) not_set Lacks-content_length_name
    ∙ rw (trimmed_size size) (parse_decimal-decimal (2 ^ 64) size small)

-- A text with a space in it is no name of a field.
lower-append : (a b : Bytes) → lower (a ++ b) ≡ lower a ++ lower b
unfolding lower
lower-append [] b = refl
lower-append (c ∷ a) b = rw (lower-append a b) refl

not_Lacks-append : (k : ℕ) (a b : Bytes) → ¬ Lacks k (a ++ (k ∷ b))
not_Lacks-append k [] b (h, rest) = let same = ==_refl k in absurd cc
not_Lacks-append k (c ∷ a) b (h, rest) = not_Lacks-append k a b rest

Lacks-content_length_key : Lacks 32 content_length_key
Lacks-content_length_key = lacks-Lacks 32 content_length_key refl

lower_space : (b : Bytes) → lower (32 ∷ b) ≡ 32 ∷ lower b
unfolding lower
lower_space b = refl

spaced_key : (a b : Bytes) → eqb (lower (a ++ (32 ∷ b))) content_length_key ≡ false
spaced_key a b = elim (Bool-cases (eqb (lower (a ++ (32 ∷ b))) content_length_key)) [
  | inr e ↦ e
  | inl e ↦
      (let same =
          sym (eqb→≡ _ _ e) ∙ lower-append a (32 ∷ b) ∙ ap (λ t. lower a ++ t) (lower_space b) in
        absurd (
          not_Lacks-append 32 (lower a) (lower b) (subst (Lacks 32) same Lacks-content_length_key)))
]

-- A colon behind a word and a space.
index_of-word :
    (word text : Bytes)
    → Lacks 58 word
    → (index_of 58 (word ++ (32 ∷ text)) ≡ none)
      ⊎ ((k : ℕ) × (index_of 58 (word ++ (32 ∷ text)) ≡ some (length word + 1 + k)))
unfolding index_of
index_of-word [] text lacks = elim (Option-cases (index_of 58 text)) [
  | inl e ↦ inl (rw e refl)
  | inr (k, e) ↦ inr (k, rw e (ap some (omega arith)))
]
index_of-word (c ∷ word) text (other, lacks) = elim (index_of-word word text lacks) [
  | inl e ↦ inl (rw (other, e) refl)
  | inr (k, e) ↦ inr (k, rw (other, e) (ap some (omega arith)))
]

take-word :
    (word text : Bytes) (k : ℕ)
    → take (length word + 1 + k) (word ++ (32 ∷ text)) ≡ word ++ (32 ∷ take k text)
take-word [] text k =
    let more : 0 + 1 + k ≡ suc k = omega arith in ap (λ n. take n (32 ∷ text)) more
take-word (c ∷ word) text k =
    let more : suc (length word) + 1 + k ≡ suc (length word + 1 + k) = omega arith in
    ap (λ n. take n (c ∷ word ++ (32 ∷ text))) more ∙ ap (◌∷◌ c) (take-word word text k)

-- The first line of a request or of a response.
pub words-IsPlain : (word text : Bytes) → Lacks 58 word → IsPlain (word ++ (32 ∷ text))
unfolding scan_line scan_field
words-IsPlain word text lacks n = elim (index_of-word word text lacks) [
  | inl e ↦ rw e refl
  | inr (k, e) ↦ rw (e, take-word word text k, spaced_key word (take k text)) refl
]
