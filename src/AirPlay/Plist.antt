-- ===== src/AirPlay/Plist.antt =====
-- Values of Apple's binary property lists and the big-endian words of their files
-- (include/aa2acp/airplay/bplist.hpp, src/airplay/bplist.cpp).
use aa2acp.Base.{
  ℕ, zero, suc, ◌+◌, ◌-◌, ◌*◌, ◌/◌, ◌%◌, ◌^◌, Bool, ◌||◌, List, [], ◌∷◌, ◌++◌, Option, none, some,
  ltb, leb, ◌==◌, if◌then◌else◌, length, take, drop, Bytes,
}
pub mod Encoder
pub mod Decoder
pub mod BigEndian
pub mod Layout
pub mod Placed
pub mod File
pub mod Leaves
pub mod Measures
pub mod Containers
pub mod Sorted
pub mod Parts
pub mod Reads
pub mod Offsets
pub mod RoundTrip
pub mod Budget
pub mod Limits
mod Tests

-- A `double` is its 64-bit pattern. `std::map` keeps its entries in the order of the keys, and so
-- does `Entries`.
mutual
  pub data PlistValue : Type 0 where
    boolean : Bool → PlistValue
    integer : ℕ → PlistValue
    real : ℕ → PlistValue
    string : Bytes → PlistValue
    blob : Bytes → PlistValue
    array : Values → PlistValue
    dictionary : Entries → PlistValue

  pub data Values : Type 0 where
    nil : Values
    cons : PlistValue → Values → Values

  pub data Entries : Type 0 where
    empty : Entries
    entry : Bytes → PlistValue → Entries → Entries

abbrev pub magic : Bytes
magic = 98 ∷ 112 ∷ 108 ∷ 105 ∷ 115 ∷ 116 ∷ 48 ∷ 48 ∷ []

-- `value >> (index * 8)`.
unfoldable pub shift_bytes : ℕ → ℕ → ℕ
shift_bytes value zero = value
shift_bytes value (suc index) = shift_bytes (value / 256) index

-- What `append_be` appends.
unfoldable pub big_endian : ℕ → ℕ → Bytes
big_endian value zero = []
big_endian value (suc index) = shift_bytes value index % 256 ∷ big_endian value index

-- The loop of `read_be` over the bytes it reads, in 64 bits.
unfoldable pub fold_be : ℕ → Bytes → ℕ
fold_be result [] = result
fold_be result (b ∷ bytes) = fold_be (result * 256 % 2 ^ 64 + b) bytes

unfoldable pub read_be : Bytes → ℕ → ℕ → Option ℕ
read_be bytes offset size =
    if ltb 8 size || ltb (length bytes) offset || ltb (length bytes - offset) size
    then none
    else some (fold_be 0 (take size (drop offset bytes)))

unfoldable pub bytes_for : ℕ → ℕ
bytes_for value =
    if leb value 255
    then 1
    else if leb value 65535
    then 2
    else if leb value 4294967295
    then 4
    else 8

unfoldable pub log2_bytes : ℕ → ℕ
log2_bytes size = if size == 1 then 0 else if size == 2 then 1 else if size == 4 then 2 else 3

-- `count_marker`; the type is a nibble, so the `|` is a sum.
unfoldable pub count_marker : ℕ → ℕ → Bytes
count_marker type count =
    if ltb count 15
    then (type * 16 + count) % 256 ∷ []
    else (type * 16 + 15) % 256
      ∷ (16 + log2_bytes (bytes_for count))
      ∷ big_endian count (bytes_for count)

-- The function `integer` of the source.
unfoldable pub encode_integer : ℕ → Bytes
encode_integer value = (16 + log2_bytes (bytes_for value)) ∷ big_endian value (bytes_for value)
