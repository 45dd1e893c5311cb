-- ===== src/Base/Texts.antt =====
-- The standard library's functions on texts that the program uses: a text is a list of bytes, a
-- position that was not found is `none`.
use Prim.Native.Nat.{ℕ, zero, suc, ◌+◌, ◌-◌, ◌*◌, ◌/◌, ◌%◌, ◌≤◌, ◌<◌}
use mathlib.Core.Path.{◌≡◌, refl, sym, ap, ◌∙◌}
use mathlib.Core.Logic.{inl, inr}
use mathlib.Core.Bool.{Bool, true, false, not, ◌&&◌}
use mathlib.Core.Option.{Option, none, some, some-injective, none-ne-some}
use mathlib.Core.Option
use mathlib.Core.List.{[], ◌∷◌, ◌++◌}
use native.Mathlib.Omega.{arith}
use aa2acp.Base.Lists.{length, is_empty, All, All-append}
use aa2acp.Base.Tests.{
  ltb, leb, ◌==◌, if◌then◌else◌, ◌>>=◌, lt→ltb, Bool-cases, Option-cases, if-cases,
}
use aa2acp.Base.Words.{Bytes}

unfoldable pub starts_with : Bytes → Bytes → Bool
starts_with [] text = true
starts_with (x ∷ needle) [] = false
starts_with (x ∷ needle) (c ∷ text) = x == c && starts_with needle text

-- `text.find(needle)`.
unfoldable pub find : Bytes → Bytes → Option ℕ
find needle [] = if is_empty needle then some 0 else none
find needle (c ∷ text) =
    let later = Option.map suc (find needle text) in
    if starts_with needle (c ∷ text) then some 0 else later

-- `text.find(c)` of one character.
unfoldable pub index_of : ℕ → Bytes → Option ℕ
index_of wanted [] = none
index_of wanted (c ∷ text) =
    let later = Option.map suc (index_of wanted text) in if c == wanted then some 0 else later

-- `std::tolower` in the "C" locale.
unfoldable pub lower : Bytes → Bytes
lower [] = []
lower (c ∷ text) = (if leb 65 c && leb c 90 then c + 32 else c) ∷ lower text

abbrev pub is_digit : ℕ → Bool
is_digit c = leb 48 c && leb c 57

unfoldable pub digits_value : ℕ → Bytes → Option ℕ
digits_value value [] = some value
digits_value value (c ∷ text) =
    let later = digits_value (value * 10 + (c - 48)) text in if is_digit c then later else none

-- `std::from_chars` of an unsigned number below the limit, that must take the whole text.
unfoldable pub parse_decimal : ℕ → Bytes → Option ℕ
parse_decimal limit [] = none
parse_decimal limit (c ∷ text) =
    digits_value 0 (c ∷ text) >>= λ value. if ltb value limit then some value else none

unfoldable pub digits : ℕ → ℕ → Bytes
digits zero n = []
digits (suc fuel) n =
    let high = digits fuel (n / 10) in
    if ltb n 10 then (48 + n) ∷ [] else high ++ ((48 + n % 10) ∷ [])

-- `std::to_string`; a digit is taken off in each round.
unfoldable pub decimal : ℕ → Bytes
decimal n = digits (suc n) n

digits_value-append :
    (text : Bytes) (c v : ℕ) (value : ℕ)
    → is_digit c ≡ true
    → digits_value value text ≡ some v
    → digits_value value (text ++ (c ∷ [])) ≡ some (v * 10 + (c - 48))
unfolding digits_value
digits_value-append [] c v value digit h = ground arith
digits_value-append (x ∷ text) c v value digit h =
    ground (arith, digits_value-append text c v (value * 10 + (x - 48)) digit)

digits_value-digits : (fuel n : ℕ) → n < fuel → digits_value 0 (digits fuel n) ≡ some n
unfolding digits digits_value
digits_value-digits zero n h = absurd (omega arith)
digits_value-digits (suc fuel) n h = elim (Bool-cases (ltb n 10)) [
  | inl e ↦ rw e (ground arith)
  | inr e ↦ rw e (
      digits_value-append (digits fuel (n / 10)) (48 + n % 10) (n / 10) 0 (ground arith)
        (digits_value-digits fuel (n / 10) (ground arith))
      ∙ ap some (omega arith))
]

parse_decimal-value :
    (limit v : ℕ) (text : Bytes)
    → is_empty text ≡ false
    → digits_value 0 text ≡ some v
    → v < limit
    → parse_decimal limit text ≡ some v
unfolding parse_decimal
parse_decimal-value limit v [] some_text value small = absurd cc
parse_decimal-value limit v (c ∷ text) some_text value small = rw (value, lt→ltb v limit small) refl

is_empty-append : (text : Bytes) (c : ℕ) → is_empty (text ++ (c ∷ [])) ≡ false
is_empty-append [] c = refl
is_empty-append (x ∷ text) c = refl

is_empty-digits : (fuel n : ℕ) → is_empty (digits (suc fuel) n) ≡ false
unfolding digits
is_empty-digits fuel n = elim (Bool-cases (ltb n 10)) [
  | inl e ↦ rw e refl
  | inr e ↦ rw e (is_empty-append (digits fuel (n / 10)) (48 + n % 10))
]

pub is_empty-decimal : (n : ℕ) → is_empty (decimal n) ≡ false
unfolding decimal
is_empty-decimal n = is_empty-digits n n

-- A number that was printed is read back.
pub parse_decimal-decimal : (limit n : ℕ) → n < limit → parse_decimal limit (decimal n) ≡ some n
unfolding decimal
parse_decimal-decimal limit n small =
    parse_decimal-value limit n (digits (suc n) n) (is_empty-digits n n)
      (digits_value-digits (suc n) n (omega arith)) small

-- A text without a character.
abbrev pub Lacks : ℕ → Bytes → Type 0
Lacks k = All (λ c. (c == k) ≡ false)

-- The same as a test, for texts that are known.
abbrev pub lacks : ℕ → Bytes → Bool
lacks k [] = true
lacks k (c ∷ text) = not (c == k) && lacks k text

pub lacks-Lacks : (k : ℕ) (text : Bytes) → lacks k text ≡ true → Lacks k text
lacks-Lacks k [] h = tt
lacks-Lacks k (c ∷ text) h = ground (arith, lacks-Lacks k text)

pub Lacks-digits : (k fuel n : ℕ) → k < 48 → Lacks k (digits fuel n)
unfolding digits
Lacks-digits k zero n h = tt
Lacks-digits k (suc fuel) n h = elim (Bool-cases (ltb n 10)) [
  | inl e ↦ rw e (ground arith)
  | inr e ↦ rw e (
      All-append (λ c. (c == k) ≡ false) (digits fuel (n / 10)) ((48 + n % 10) ∷ [])
        (Lacks-digits k fuel (n / 10) h) (ground arith, tt))
]

pub Lacks-decimal : (k n : ℕ) → k < 48 → Lacks k (decimal n)
unfolding decimal
Lacks-decimal k n h = Lacks-digits k (suc n) n h

-- A position where it does not stand is passed over.
pub find_miss :
    (needle text : Bytes) (c n : ℕ)
    → starts_with needle (c ∷ text) ≡ false
    → find needle text ≡ some n
    → find needle (c ∷ text) ≡ some (suc n)
unfolding find
find_miss needle text c n miss later = rw (miss, later) refl

-- What begins with the character is not found in a text that lacks it, but behind it.
pub find-append :
    (k : ℕ) (needle front text : Bytes) (n : ℕ)
    → Lacks k front
    → find (k ∷ needle) text ≡ some n
    → find (k ∷ needle) (front ++ text) ≡ some (length front + n)
unfolding find starts_with
find-append k needle [] text n lacks h = h ∙ ap some (omega arith)
find-append k needle (c ∷ front) text n (other, lacks) h =
    let other' : (k == c) ≡ false = ground arith in
    rw (other', find-append k needle front text n lacks h) (ap some (omega arith))

pub index_of-append :
    (k : ℕ) (front text : Bytes)
    → Lacks k front
    → index_of k (front ++ (k ∷ text)) ≡ some (length front)
unfolding index_of
index_of-append k [] text lacks = ground arith
index_of-append k (c ∷ front) text (other, lacks) =
    rw (other, index_of-append k front text lacks) refl

pub index_of-Lacks : (k : ℕ) (text : Bytes) → Lacks k text → index_of k text ≡ none
unfolding index_of
index_of-Lacks k [] lacks = refl
index_of-Lacks k (c ∷ text) (other, lacks) = rw (other, index_of-Lacks k text lacks) refl

starts_with-le :
    (needle text : Bytes) → starts_with needle text ≡ true → length needle ≤ length text
unfolding starts_with
starts_with-le [] text h = omega arith
starts_with-le (x ∷ needle) [] h = absurd cc
starts_with-le (x ∷ needle) (c ∷ text) h = ground (arith, starts_with-le needle text)

-- What is found lies inside the text.
pub find_inside :
    (needle text : Bytes) (n : ℕ) → find needle text ≡ some n → n + length needle ≤ length text
unfolding find
find_inside [] [] n h = rw (sym (some-injective _ _ h)) (omega arith)
find_inside (x ∷ needle) [] n h = absurd cc
find_inside needle (c ∷ text) n h = elim (if-cases (starts_with needle (c ∷ text)) _ _ h) [
  | inl (e, here) ↦
      rw (sym (some-injective _ _ here)) (omega (arith, starts_with-le needle (c ∷ text) e))
  | inr (e, later) ↦ elim (Option-cases (find needle text)) [
    | inl nowhere ↦ absurd (none-ne-some n (rw nowhere at later))
    | inr (m, there) ↦
        rw (sym (some-injective _ _ (rw there at later)))
          (omega (arith, find_inside needle text m there))
  ]
]
