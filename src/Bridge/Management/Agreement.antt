-- ===== src/Bridge/Management/Agreement.antt =====
-- The size that the content-length fields of a request agree on (src/bridge/management_ui.cpp).
use aa2acp.Base.{
  ℕ, ◌+◌, ◌^◌, ◌≡◌, refl, sym, ap, subst, ◌∙◌, inl, inr, List, [], ◌∷◌, Option, none, some,
  some-injective, ◌>>=◌, >>=-eq-some, ◌==◌, ==_refl, ==_iff, if◌then◌else◌, Bool-cases, take, drop,
  All, eqb, Bytes,
}
use aa2acp.Base.Texts.{index_of, lower, parse_decimal}
use aa2acp.Bridge.Management.{
  length_key, skip_gap, drop_last_spaces, agree, read_field, read_at, read_line, value_or_zero,
}
use aa2acp.Bridge.Management.Requests.{fold_sizes}

-- The value of a line with a colon at that place, in front of those of the later lines, if its name is
-- content-length, in any case.
abbrev pub add_value : Option ℕ → Bytes → List Bytes → List Bytes
add_value none line values = values
add_value (some n) line values =
    if eqb (lower (take n line)) length_key then drop (n + 1) line ∷ values else values

abbrev pub length_values : List Bytes → List Bytes
length_values [] = []
length_values (line ∷ lines) = add_value (index_of 58 line) line (length_values lines)

-- A value says a size: a decimal number below 2^64, spaces around it aside.
abbrev pub SaysSize : ℕ → Bytes → Type 0
SaysSize size value = parse_decimal (2 ^ 64) (skip_gap (drop_last_spaces value)) ≡ some size

-- The size that the fields agree on: all say it, or there is no such field and it is 0.
abbrev pub AgreeOn : List Bytes → ℕ → Type 0
AgreeOn [] size = size ≡ 0
AgreeOn (value ∷ values) size = All (SaysSize size) (value ∷ values)

-- What the fields come to behind one that said a size, or none.
unfoldable pub AgreeFrom : Option ℕ → List Bytes → ℕ → Type 0
AgreeFrom none values size = AgreeOn values size
AgreeFrom (some n) values size = (n ≡ size) × All (SaysSize size) values

module _ (value : Bytes) (values : List Bytes) (size : ℕ) where
  AgreeFrom-cons :
      (before after : Option ℕ)
      → (parse_decimal (2 ^ 64) (skip_gap (drop_last_spaces value)) >>= agree before) ≡ some after
      → AgreeFrom after values size
      → AgreeFrom before (value ∷ values) size
  unfolding agree AgreeFrom
  AgreeFrom-cons none after e h =
      let (m, says, same) = >>=-eq-some _ (agree none) e in
      let (n_size, others) =
        subst (λ o. AgreeFrom o values size) (sym (some-injective _ _ same)) h in
      ((says ∙ ap some n_size), others)
  AgreeFrom-cons (some n) after e h =
      let (m, says, same) = >>=-eq-some _ (agree (some n)) e in
      elim (Bool-cases (n == m)) [
        | inl equal ↦
            let kept : Path (Option (Option ℕ)) (some (some m)) (some after) = rw equal at same in
            let (m_size, others) =
              subst (λ o. AgreeFrom o values size) (sym (some-injective _ _ kept)) h in
            (((==_iff n m).0 equal ∙ m_size), ((says ∙ ap some m_size), others))
        | inr other ↦
            let no : Path (Option (Option ℕ)) none (some after) = rw other at same in absurd cc
      ]

  AgreeFrom-head :
      (before : Option ℕ)
      → AgreeFrom before (value ∷ values) size
      → (after : Option ℕ) × ((parse_decimal (2 ^ 64) (skip_gap (drop_last_spaces value))
            >>= agree before)
          ≡ some after)
        × AgreeFrom after values size
  unfolding agree AgreeFrom
  AgreeFrom-head none (says, others) = (some size, rw says refl, (refl, others))
  AgreeFrom-head (some n) (n_size, (says, others)) =
      (some size, rw (says, n_size, ==_refl size) refl, (refl, others))

module _ (line : Bytes) (lines : List Bytes) (size : ℕ) where
  AgreeFrom-line :
      (o before after : Option ℕ)
      → read_at o line before ≡ some after
      → AgreeFrom after (length_values lines) size
      → AgreeFrom before (add_value o line (length_values lines)) size
  unfolding read_field
  AgreeFrom-line none before after e h =
      subst (λ b. AgreeFrom b (length_values lines) size) (sym (some-injective _ _ e)) h
  AgreeFrom-line (some n) before after e h =
      elim (Bool-cases (eqb (lower (take n line)) length_key)) [
        | inl f ↦
            let here = rw f at e in
            rw f (AgreeFrom-cons (drop (n + 1) line) (length_values lines) size before after here h)
        | inr f ↦
            let here : Path (Option (Option ℕ)) (some before) (some after) = rw f at e in
            rw f (
              subst (λ b. AgreeFrom b (length_values lines) size) (sym (some-injective _ _ here)) h)
      ]

  AgreeFrom-read :
      (o before : Option ℕ)
      → AgreeFrom before (add_value o line (length_values lines)) size
      → (after : Option ℕ) × (read_at o line before ≡ some after)
        × AgreeFrom after (length_values lines) size
  unfolding read_field
  AgreeFrom-read none before h = (before, refl, h)
  AgreeFrom-read (some n) before h = elim (Bool-cases (eqb (lower (take n line)) length_key)) [
    | inl f ↦
        let here : AgreeFrom before (drop (n + 1) line ∷ length_values lines) size = rw f at h in
        let (after, read, rest) =
          AgreeFrom-head (drop (n + 1) line) (length_values lines) size before here in
        (after, rw f read, rest)
    | inr f ↦
        let here : AgreeFrom before (length_values lines) size = rw f at h in
        (before, rw f refl, here)
  ]

pub fold_sizes-AgreeFrom :
    (lines : List Bytes) (before after : Option ℕ)
    → fold_sizes lines before ≡ some after
    → AgreeFrom before (length_values lines) (value_or_zero after)
unfolding read_line AgreeFrom
fold_sizes-AgreeFrom [] none after e = subst (λ o. value_or_zero o ≡ 0) (some-injective _ _ e) refl
fold_sizes-AgreeFrom [] (some n) after e = (ap value_or_zero (some-injective _ _ e), tt)
fold_sizes-AgreeFrom (line ∷ lines) before after e =
    let (next, read, rest) = >>=-eq-some (read_line line before) (fold_sizes lines) e in
    AgreeFrom-line line lines (value_or_zero after) (index_of 58 line) before next read
      (fold_sizes-AgreeFrom lines next after rest)

pub AgreeFrom-fold_sizes :
    (lines : List Bytes) (before : Option ℕ) (size : ℕ)
    → AgreeFrom before (length_values lines) size
    → (after : Option ℕ) × (fold_sizes lines before ≡ some after) × (value_or_zero after ≡ size)
unfolding read_line AgreeFrom
AgreeFrom-fold_sizes [] none size h = (none, refl, sym h)
AgreeFrom-fold_sizes [] (some n) size (n_size, t) = (some n, refl, n_size)
AgreeFrom-fold_sizes (line ∷ lines) before size h =
    let (next, read, rest) = AgreeFrom-read line lines size (index_of 58 line) before h in
    let (after, folded, value) = AgreeFrom-fold_sizes lines next size rest in
    (after, rw read folded, value)
