-- ===== src/Iap2/Frame/Checksum.antt =====
-- The additive checksum of src/iap2/link_layer.cpp.
use aa2acp.Base.{ℕ, ◌+◌, ◌%◌, ◌<◌, ◌≡◌, ◌≢◌, true, false, [], ◌∷◌, ◌++◌, arith, Bytes, IsByte}
use aa2acp.Iap2.Frame.{sum_bytes, checksum, has_valid_checksum}

-- The sum of the bytes with no wrap.
total : Bytes → ℕ
total [] = 0
total (b ∷ bs) = b + total bs

sum_bytes-total : (acc : ℕ) (bs : Bytes) → acc < 256 → sum_bytes acc bs ≡ (acc + total bs) % 256
unfolding sum_bytes total
sum_bytes-total acc [] h = omega arith
sum_bytes-total acc (b ∷ bs) h = omega (arith, sum_bytes-total ((acc + b) % 256) bs (omega arith))

total-append : (xs ys : Bytes) → total (xs ++ ys) ≡ total xs + total ys
unfolding total
total-append [] ys = omega arith
total-append (x ∷ xs) ys = omega (arith, total-append xs ys)

pub checksum-lt : (bs : Bytes) → checksum bs < 256
unfolding checksum
checksum-lt bs = omega arith

-- The appended checksum makes the sum zero.
pub has_valid_checksum-append : (bs : Bytes) → has_valid_checksum (bs ++ checksum bs ∷ []) ≡ true
unfolding has_valid_checksum checksum total
has_valid_checksum-append bs = ground (
  arith,
  sum_bytes-total 0 bs (omega arith),
  sum_bytes-total 0 (bs ++ checksum bs ∷ []) (omega arith),
  total-append bs (checksum bs ∷ []),
)

-- No other byte does.
pub checksum_unique :
    (bs : Bytes) (c : ℕ) → c < 256 → has_valid_checksum (bs ++ c ∷ []) ≡ true → c ≡ checksum bs
unfolding has_valid_checksum checksum total
checksum_unique bs c h valid = ground (
  arith,
  sum_bytes-total 0 bs (omega arith),
  sum_bytes-total 0 (bs ++ c ∷ []) (omega arith),
  total-append bs (c ∷ []),
)

-- A span with a valid checksum has an invalid one after any single byte is changed.
pub has_valid_checksum_corrupted :
    (xs ys : Bytes) (b c : ℕ)
    → IsByte b
    → IsByte c
    → b ≢ c
    → has_valid_checksum (xs ++ b ∷ ys) ≡ true
    → has_valid_checksum (xs ++ c ∷ ys) ≡ false
unfolding has_valid_checksum total
has_valid_checksum_corrupted xs ys b c hb hc differ valid = ground (
  arith,
  sum_bytes-total 0 (xs ++ b ∷ ys) (omega arith),
  sum_bytes-total 0 (xs ++ c ∷ ys) (omega arith),
  total-append xs (b ∷ ys),
  total-append xs (c ∷ ys),
)
