-- ===== src/AirPlay/AccessUnits.antt =====
-- The H.264 access units of the video (src/airplay/session.cpp: first_mb_in_slice,
-- h264_access_units, avcc_config).
use aa2acp.Base.{
  ℕ, zero, suc, ◌+◌, ◌-◌, ◌*◌, ◌/◌, ◌%◌, ◌^◌, Bool, true, false, not, ◌&&◌, ◌||◌, List, [], ◌∷◌,
  ◌++◌, Option, none, some, ◌>>=◌, ltb, leb, ◌==◌, if◌then◌else◌, is_empty, length, get_or, Bytes,
}
pub mod Order
pub mod Slices
mod Tests

-- The loop that fills `rbsp`. It goes on at the 3 of an escape, which it keeps.
unfoldable pub fill_rbsp : Bytes → Bytes
fill_rbsp (a ∷ b ∷ c ∷ rest) =
    let behind = fill_rbsp (c ∷ rest) in
    let next = fill_rbsp (b ∷ c ∷ rest) in
    if a == 0 && b == 0 && c == 3 then 0 ∷ 0 ∷ behind else a ∷ next
fill_rbsp bytes = bytes

-- The bit at an offset, the highest of a byte first.
abbrev pub bit_at : Bytes → ℕ → ℕ
bit_at rbsp offset = get_or rbsp (offset / 8) 0 / 2 ^ (7 - offset % 8) % 2

-- The loop over `zero_bits`, which `bit_offset` is equal to, on fuel; it ends at 32 zeros.
unfoldable pub count_zeros : ℕ → Bytes → ℕ → Option ℕ
count_zeros zero rbsp zero_bits = none
count_zeros (suc fuel) rbsp zero_bits =
    let later = count_zeros fuel rbsp (suc zero_bits) in
    if ltb zero_bits (length rbsp * 8) && bit_at rbsp zero_bits == 0
    then (if ltb 31 (suc zero_bits) then none else later)
    else some zero_bits

-- The loop over `suffix`, whose lowest bit is 0 when a bit is added.
unfoldable pub read_suffix : ℕ → Bytes → ℕ → ℕ → Option ℕ
read_suffix zero rbsp bit_offset suffix = some suffix
read_suffix (suc bits) rbsp bit_offset suffix =
    let later =
      read_suffix bits rbsp (suc bit_offset) (suffix * 2 % 2 ^ 32 + bit_at rbsp bit_offset) in
    if leb (length rbsp * 8) bit_offset then none else later

unfoldable pub first_mb_in_slice : Bytes → Option ℕ
first_mb_in_slice [] = none
first_mb_in_slice (header ∷ []) = none
first_mb_in_slice (header ∷ b ∷ payload) =
    let rbsp = fill_rbsp (b ∷ payload) in
    count_zeros 32 rbsp 0 >>= λ zero_bits.
    if leb (length rbsp * 8) zero_bits
    then none
    else (read_suffix zero_bits rbsp (suc zero_bits) 0 >>= λ suffix.
        some ((2 ^ zero_bits - 1 + suffix) % 2 ^ 32))

-- `nalu[0] & 0x1f` of a unit that is not empty.
abbrev pub type_of : Bytes → ℕ
type_of [] = 0
type_of (header ∷ payload) = header % 32

-- `type >= 1 && type <= 5`
abbrev pub is_slice : Bytes → Bool
is_slice nalu = leb 1 (type_of nalu) && leb (type_of nalu) 5

-- `!first_mb || *first_mb == 0`
abbrev pub starts_picture : Option ℕ → Bool
starts_picture none = true
starts_picture (some first_mb) = first_mb == 0

-- The variables of `h264_access_units`.
pub record Grouping : Type 0 where
  pub result : List (List Bytes)
  pub current : List Bytes
  pub has_vcl : Bool

unfoldable pub flush : Grouping → Grouping
flush g = record {
  result = if is_empty g.current then g.result else g.result ++ g.current ∷ [];
  current = [];
  has_vcl = false;
}

-- The two conditions in a round of the loop, in their order.
unfoldable pub before_header : Bytes → Grouping → Grouping
before_header nalu g =
    let type = type_of nalu in
    if type == 9 || (type == 7 || type == 8) && g.has_vcl then flush g else g

unfoldable pub before_slice : Bytes → Grouping → Grouping
before_slice nalu g =
    if is_slice nalu
    then record (if g.has_vcl && starts_picture (first_mb_in_slice nalu) then flush g else g) {
      has_vcl = true;
    }
    else g

-- `current.push_back`
unfoldable pub push_unit : Bytes → Grouping → Grouping
push_unit nalu g = record g { current = g.current ++ nalu ∷ [] }

unfoldable pub group : List Bytes → Grouping → Grouping
group [] g = g
group ([] ∷ nalus) g = group nalus g
group ((b ∷ nalu) ∷ nalus) g =
    group nalus (push_unit (b ∷ nalu) (before_slice (b ∷ nalu) (before_header (b ∷ nalu) g)))

unfoldable pub h264_access_units : List Bytes → List (List Bytes)
h264_access_units nalus =
    (flush (group nalus (record { result = []; current = []; has_vcl = false }))).result

-- `std::find_if` for a unit of a type.
unfoldable pub find_type : ℕ → List Bytes → Option Bytes
find_type type [] = none
find_type type (nalu ∷ nalus) =
    if not (is_empty nalu) && type_of nalu == type then some nalu else find_type type nalus

-- The bytes of a configuration, and the limits on the two sets.
abbrev pub config_of : Bytes → Bytes → Option Bytes
config_of sps pps =
    if ltb (length sps) 4 || ltb 65535 (length sps) || ltb 65535 (length pps)
    then none
    else some (
        1
          ∷ get_or sps 1 0
          ∷ get_or sps 2 0
          ∷ get_or sps 3 0
          ∷ 255
          ∷ 225
          ∷ length sps / 256 % 256
          ∷ length sps % 256
          ∷ []
        ++ sps
        ++ 1 ∷ length pps / 256 % 256 ∷ length pps % 256 ∷ []
        ++ pps)

unfoldable pub avcc_config : List Bytes → Option Bytes
avcc_config nalus = find_type 7 nalus >>= λ sps. find_type 8 nalus >>= λ pps. config_of sps pps
