-- ===== src/AirPlay/Plist/BigEndian.antt =====
-- `read_be` reads what `append_be` wrote, and a number fits the bytes chosen for it
-- (src/airplay/bplist.cpp).
use aa2acp.Base.{
  ℕ, zero, suc, ◌+◌, ◌-◌, ◌*◌, ◌/◌, ◌%◌, ◌^◌, ◌≤◌, ◌<◌, ◌≡◌, ◌⊎◌, inl, inr, refl, sym, ap, ◌∙◌, [],
  ◌∷◌, ◌++◌, some, arith, length, take, drop, take-append_length, length-append, length-drop, Bytes,
}
use aa2acp.AirPlay.Plist.{shift_bytes, big_endian, fold_be, read_be, bytes_for}

-- Nothing is left above that many bytes.
abbrev pub Fits : ℕ → ℕ → Type 0
Fits value size = shift_bytes value size ≡ 0

pub length-big_endian : (value size : ℕ) → length (big_endian value size) ≡ size
unfolding big_endian
length-big_endian value zero = refl
length-big_endian value (suc size) = ap suc (length-big_endian value size)

-- The lowest byte is the last.
big_endian_last :
    (value size : ℕ)
    → big_endian value (suc size) ≡ big_endian (value / 256) size ++ (value % 256 ∷ [])
unfolding big_endian shift_bytes
big_endian_last value zero = refl
big_endian_last value (suc size) = rw (big_endian_last value size) refl

fold_be-append :
    (b : ℕ) (bytes : Bytes) (result : ℕ)
    → fold_be result (bytes ++ (b ∷ [])) ≡ fold_be result bytes * 256 % 2 ^ 64 + b
unfolding fold_be
fold_be-append b [] result = refl
fold_be-append b (x ∷ bytes) result = fold_be-append b bytes (result * 256 % 2 ^ 64 + x)

fold_be-big_endian :
    (value size : ℕ) → value < 2 ^ 64 → Fits value size → fold_be 0 (big_endian value size) ≡ value
unfolding fold_be shift_bytes big_endian
fold_be-big_endian value zero small fits = sym fits
fold_be-big_endian value (suc size) small fits =
    let again = fold_be-big_endian (value / 256) size (omega arith) fits in
    rw (big_endian_last value size)
      (fold_be-append (value % 256) (big_endian (value / 256) size) 0 ∙ rw again (omega arith))

-- The number that stands at an offset is read, whatever comes behind.
pub read_be-big_endian :
    (bytes rest : Bytes) (offset value size : ℕ)
    → value < 2 ^ 64
    → Fits value size
    → size ≤ 8
    → offset ≤ length bytes
    → drop offset bytes ≡ big_endian value size ++ rest
    → read_be bytes offset size ≡ some value
unfolding read_be
read_be-big_endian bytes rest offset value size small fits width inside found =
    let left : length bytes - offset ≡ size + length rest =
      sym (length-drop offset bytes)
      ∙ ap length found
      ∙ length-append (big_endian value size) rest
      ∙ ap (λ n. n + length rest) (length-big_endian value size) in
    let chunk : take size (drop offset bytes) ≡ big_endian value size =
      ap (take size) found ∙ take-append_length size _ rest (length-big_endian value size) in
    let value_back = fold_be-big_endian value size small fits in
    rw chunk (ground (arith, value_back))

-- Smaller numbers need no more bytes.
pub Fits-le : (size a b : ℕ) → a ≤ b → Fits b size → Fits a size
unfolding shift_bytes
Fits-le zero a b h fits = omega arith
Fits-le (suc size) a b h fits = Fits-le size (a / 256) (b / 256) (omega arith) fits

pub Fits-word : (value : ℕ) → value < 2 ^ 64 → Fits value 8
unfolding shift_bytes
Fits-word value h = omega arith

-- The sizes that are chosen, each with the numbers it is chosen for.
pub bytes_for-cases :
    (value : ℕ)
    → ((bytes_for value ≡ 1) × (value < 256))
      ⊎ (((bytes_for value ≡ 2) × (value < 65536))
          ⊎ (((bytes_for value ≡ 4) × (value < 2 ^ 32)) ⊎ (bytes_for value ≡ 8)))
unfolding bytes_for
bytes_for-cases value = ground arith

pub Fits-bytes_for : (value : ℕ) → value < 2 ^ 64 → Fits value (bytes_for value)
unfolding shift_bytes
Fits-bytes_for value h = elim (bytes_for-cases value) [
  | inl (e, small) ↦ rw e (omega arith)
  | inr (inl (e, small)) ↦ rw e (omega arith)
  | inr (inr (inl (e, small))) ↦ rw e (omega arith)
  | inr (inr (inr e)) ↦ rw e (omega arith)
]

pub bytes_for-le : (value : ℕ) → bytes_for value ≤ 8
bytes_for-le value = omega (arith, bytes_for-cases value)

-- Numbers of such a size that stand in the bytes left pass the test by division.
pub room-bytes_for :
    (value items left more : ℕ)
    → left ≡ items * bytes_for value + more
    → items ≤ left / bytes_for value
room-bytes_for value items left more e = elim (bytes_for-cases value) [
  | inl (w, small) ↦ rw w (omega (arith, rw w at e))
  | inr (inl (w, small)) ↦ rw w (omega (arith, rw w at e))
  | inr (inr (inl (w, small))) ↦ rw w (omega (arith, rw w at e))
  | inr (inr (inr w)) ↦ rw w (omega (arith, rw w at e))
]

pub room_twice-bytes_for :
    (value items left more : ℕ)
    → left ≡ items * 2 * bytes_for value + more
    → items ≤ left / (2 * bytes_for value)
room_twice-bytes_for value items left more e = elim (bytes_for-cases value) [
  | inl (w, small) ↦ rw w (omega (arith, rw w at e))
  | inr (inl (w, small)) ↦ rw w (omega (arith, rw w at e))
  | inr (inr (inl (w, small))) ↦ rw w (omega (arith, rw w at e))
  | inr (inr (inr w)) ↦ rw w (omega (arith, rw w at e))
]
