-- ===== src/AirPlay/AccessUnits/Slices.antt =====
-- The payload that first_mb_in_slice reads (src/airplay/session.cpp).
use aa2acp.Base.{
  ℕ, zero, suc, ◌+◌, ◌-◌, ◌*◌, ◌%◌, ◌^◌, ◌≤◌, ◌<◌, ◌≡◌, ◌↔◌, refl, sym, ap, ◌∙◌, true, false, ◌&&◌,
  inl, inr, [], ◌∷◌, Option, none, some, some-injective, ◌>>=◌, >>=-eq-some, if-eq-some, if-cases,
  ltb, leb, ◌==◌, if◌then◌else◌, Bool-cases, length, Bytes, IsByte, arith,
}
use aa2acp.AirPlay.AccessUnits.{fill_rbsp, bit_at, count_zeros, read_suffix, first_mb_in_slice}

-- The payload is read as it stands, the bytes of its escapes included.
fill_rbsp_lem : (bytes : Bytes) → fill_rbsp bytes ≡ bytes
unfolding fill_rbsp
fill_rbsp_lem [] = refl
fill_rbsp_lem (a ∷ []) = refl
fill_rbsp_lem (a ∷ b ∷ []) = refl
fill_rbsp_lem (a ∷ b ∷ c ∷ rest) =
    ground (arith, fill_rbsp_lem (c ∷ rest), fill_rbsp_lem (b ∷ c ∷ rest))

power_suc : (n : ℕ) → 2 ^ suc n ≡ 2 * 2 ^ n
power_suc n = omega arith

power-le : (n m : ℕ) → n ≤ m → 2 ^ n ≤ 2 ^ m
power-le zero zero h = omega arith
power-le (suc n) zero h = absurd (omega arith)
power-le zero (suc m) h = omega (arith, power_suc m, power-le 0 m (omega arith))
power-le (suc n) (suc m) h = omega (arith, power_suc m, power_suc n, power-le n m (omega arith))

bit_at-lt : (rbsp : Bytes) (offset : ℕ) → bit_at rbsp offset < 2
bit_at-lt rbsp offset = omega arith

count_zeros_bounds :
    (fuel : ℕ) (rbsp : Bytes) (zero_bits n : ℕ)
    → zero_bits ≤ 31
    → count_zeros fuel rbsp zero_bits ≡ some n
    → (zero_bits ≤ n) × (n ≤ 31)
unfolding count_zeros
count_zeros_bounds zero rbsp zero_bits n low e = absurd cc
count_zeros_bounds (suc fuel) rbsp zero_bits n low e =
    elim (if-cases (ltb zero_bits (length rbsp * 8) && bit_at rbsp zero_bits == 0) _ _ e) [
      | inl (zero_bit, found) ↦
          let (few, later) = if-eq-some (ltb 31 (suc zero_bits)) _ found in
          let (above, most) = count_zeros_bounds fuel rbsp (suc zero_bits) n (ground arith) later in
          (omega arith, most)
      | inr (last, found) ↦ let same = some-injective _ _ found in (omega arith, omega arith)
    ]

count_zeros_further :
    (fuel : ℕ) (rbsp : Bytes) (zero_bits : ℕ)
    → ltb zero_bits (length rbsp * 8) ≡ true
    → (bit_at rbsp zero_bits == 0) ≡ true
    → ltb 31 (suc zero_bits) ≡ false
    → count_zeros (suc fuel) rbsp zero_bits ≡ count_zeros fuel rbsp (suc zero_bits)
unfolding count_zeros
count_zeros_further fuel rbsp zero_bits left bit few = rw (left, bit, few) refl

read_suffix-lt :
    (bits : ℕ) (rbsp : Bytes) (bit_offset suffix n width : ℕ)
    → suffix < 2 ^ width
    → read_suffix bits rbsp bit_offset suffix ≡ some n
    → n < 2 ^ (width + bits)
unfolding read_suffix
read_suffix-lt zero rbsp bit_offset suffix n width low e =
    let same = some-injective _ _ e in
    let sum : width + 0 ≡ width = omega arith in rw (sum, sym same) low
read_suffix-lt (suc bits) rbsp bit_offset suffix n width low e =
    let (there, later) = if-eq-some (leb (length rbsp * 8) bit_offset) _ e in
    let next = suffix * 2 % 2 ^ 32 + bit_at rbsp bit_offset in
    let small : next < 2 ^ suc width =
      omega (arith, power_suc width, bit_at-lt rbsp bit_offset, low) in
    let sum : width + suc bits ≡ suc width + bits = omega arith in
    rw sum (read_suffix-lt bits rbsp (suc bit_offset) next n (suc width) small later)

-- A number with zeros in front is not 0, and does not wrap.
read_suffix-positive :
    (rbsp : Bytes) (n bit_offset suffix : ℕ)
    → 1 ≤ n
    → n ≤ 31
    → read_suffix n rbsp bit_offset 0 ≡ some suffix
    → 1 ≤ (2 ^ n - 1 + suffix) % 2 ^ 32
read_suffix-positive rbsp n bit_offset suffix some_zero few e =
    let low = power-le 1 n some_zero in
    let high = power-le n 31 few in
    let small = read_suffix-lt n rbsp bit_offset 0 suffix 0 (omega arith) e in
    let sum : 2 ^ (0 + n) ≡ 2 ^ n = ap (λ k. 2 ^ k) (omega arith) in omega arith

module _ (header b : ℕ) (payload : Bytes) where
  abbrev bits_left : ℕ
  bits_left = length (b ∷ payload) * 8

  abbrev number_behind : ℕ → Option ℕ
  number_behind zero_bits =
      if leb bits_left zero_bits
      then none
      else (read_suffix zero_bits (b ∷ payload) (suc zero_bits) 0 >>= λ suffix.
          some ((2 ^ zero_bits - 1 + suffix) % 2 ^ 32))

  first_mb_in_slice-number :
      first_mb_in_slice (header ∷ b ∷ payload) ≡ (count_zeros 32 (b ∷ payload) 0 >>= number_behind)
  unfolding first_mb_in_slice
  first_mb_in_slice-number =
      ap
        (λ rbsp. count_zeros 32 rbsp 0 >>= λ zero_bits.
          if leb (length rbsp * 8) zero_bits
          then none
          else (read_suffix zero_bits rbsp (suc zero_bits) 0 >>= λ suffix.
              some ((2 ^ zero_bits - 1 + suffix) % 2 ^ 32)))
        (fill_rbsp_lem (b ∷ payload))

  -- With its first bit set, the payload says 0.
  first_bit_counted : 128 ≤ b → b < 256 → count_zeros 32 (b ∷ payload) 0 ≡ some 0
  unfolding count_zeros
  first_bit_counted high byte =
      let bit : (bit_at (b ∷ payload) 0 == 0) ≡ false = ground arith in ground arith

  leading_zeros_counted :
      (n : ℕ) → b < 128 → count_zeros 32 (b ∷ payload) 0 ≡ some n → (1 ≤ n) × (n ≤ 31)
  leading_zeros_counted n low e =
      let bit : (bit_at (b ∷ payload) 0 == 0) ≡ true = ground arith in
      let left : ltb 0 bits_left ≡ true = ground arith in
      let later = sym (count_zeros_further 31 (b ∷ payload) 0 left bit refl) ∙ e in
      count_zeros_bounds 31 (b ∷ payload) 1 n (omega arith) later

  -- A slice of two bytes or more starts at macroblock 0 exactly if the first bit behind its header is
  -- set.
  pub first_mb_in_slice-zero :
      IsByte b → (first_mb_in_slice (header ∷ b ∷ payload) ≡ some 0) ↔ (128 ≤ b)
  unfolding read_suffix
  first_mb_in_slice-zero byte = (
    (λ e. elim (Bool-cases (ltb b 128)) [
      | inr high ↦ ground arith
      | inl low ↦
          let (n, counted, behind) =
            >>=-eq-some (count_zeros 32 (b ∷ payload) 0) number_behind
              (sym first_mb_in_slice-number ∙ e) in
          let (some_zero, few) = leading_zeros_counted n (ground arith) counted in
          let (there, read) = if-eq-some (leb bits_left n) _ behind in
          let (suffix, said, result) = >>=-eq-some (read_suffix n (b ∷ payload) (suc n) 0) _ read in
          let positive = read_suffix-positive (b ∷ payload) n (suc n) suffix some_zero few said in
          let zero_number = some-injective _ _ result in absurd (omega arith)
    ]),
    (λ high.
        let left : leb bits_left 0 ≡ false = ground arith in
        first_mb_in_slice-number ∙ rw (first_bit_counted high byte, left) refl),
  )
