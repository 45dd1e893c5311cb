-- ===== src/Base/Words.antt =====
-- Bytes and unsigned words: a byte string is a list of numbers, a uint8_t is below 256, and the
-- big-endian 16-bit accessors of iap2/link_layer.cpp and iap2/csm.cpp.
use Prim.Native.Nat.{ℕ, ◌+◌, ◌*◌, ◌/◌, ◌%◌, ◌<◌}
use mathlib.Core.Path.{◌≡◌, refl}
use mathlib.Core.Bool.{Bool, true, false, ◌&&◌}
use mathlib.Core.List.{List, [], ◌∷◌}
use native.Mathlib.Omega.{arith}
use aa2acp.Base.Lists.{get_or, All}
use aa2acp.Base.Tests.{◌==◌}

abbrev pub Bytes : Type 0
Bytes = List ℕ

abbrev pub IsByte : ℕ → Type 0
IsByte b = b < 256

abbrev pub IsU16 : ℕ → Type 0
IsU16 v = v < 65536

abbrev pub AreBytes : Bytes → Type 0
AreBytes = All IsByte

-- `read_u16`: both callers check the size first; past the end the model reads 0.
abbrev pub read_u16 : Bytes → ℕ → ℕ
read_u16 bytes offset = (get_or bytes offset 0 * 256 + get_or bytes (offset + 1) 0) % 65536

-- The two bytes that `write_u16` stores.
abbrev pub u16_high : ℕ → ℕ
u16_high value = value / 256 % 256

abbrev pub u16_low : ℕ → ℕ
u16_low value = value % 256

pub u16_parts : (v : ℕ) → IsU16 v → (u16_high v * 256 + u16_low v) % 65536 ≡ v
u16_parts v h = omega arith

-- Equality of byte strings, as a test.
abbrev pub eqb : Bytes → Bytes → Bool
eqb [] [] = true
eqb (x ∷ xs) (y ∷ ys) = x == y && eqb xs ys
eqb _ _ = false

pub eqb_refl : (a : Bytes) → eqb a a ≡ true
eqb_refl [] = refl
eqb_refl (x ∷ a) = ground (arith, eqb_refl a)

pub eqb→≡ : (a b : Bytes) → eqb a b ≡ true → a ≡ b
eqb→≡ [] [] h = refl
eqb→≡ [] (y ∷ b) h = absurd cc
eqb→≡ (x ∷ a) [] h = absurd cc
eqb→≡ (x ∷ a) (y ∷ b) h = ground (arith, eqb→≡ a b)
