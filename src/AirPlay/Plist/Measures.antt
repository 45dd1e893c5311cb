-- ===== src/AirPlay/Plist/Measures.antt =====
-- What the decoder's limits count, and the values that C++ can hold (src/airplay/bplist.cpp).
use aa2acp.Base.{ℕ, suc, ◌+◌, ◌≤◌, ◌<◌, ◌^◌, ◌≡◌, max, true, length, arith, Bytes}
use aa2acp.AirPlay.Plist.{
  PlistValue, boolean, integer, real, string, blob, array, dictionary, Values, nil, cons, Entries,
  empty, entry,
}
use aa2acp.AirPlay.Plist.Decoder.{before}

-- The levels of a value: one for the value itself, the rest for its parts.
unfoldable mutual
  pub levels_of : PlistValue → ℕ
  levels_of (array items) = suc (item_levels items)
  levels_of (dictionary entries) = suc (entry_levels entries)
  levels_of _ = 1

  pub item_levels : Values → ℕ
  item_levels nil = 0
  item_levels (cons item items) = max (levels_of item) (item_levels items)

  pub entry_levels : Entries → ℕ
  entry_levels empty = 0
  entry_levels (entry key value entries) = max (levels_of value) (entry_levels entries)

-- The bytes of data and text, keys included.
unfoldable mutual
  pub copied_of : PlistValue → ℕ
  copied_of (string value) = length value
  copied_of (blob value) = length value
  copied_of (array items) = item_copied items
  copied_of (dictionary entries) = entry_copied entries
  copied_of _ = 0

  pub item_copied : Values → ℕ
  item_copied nil = 0
  item_copied (cons item items) = copied_of item + item_copied items

  pub entry_copied : Entries → ℕ
  entry_copied empty = 0
  entry_copied (entry key value entries) = length key + copied_of value + entry_copied entries

-- The keys stand in the order of a `std::map`, each once.
abbrev pub AllAfter : Bytes → Entries → Type 0
AllAfter key empty = Unit {0}
AllAfter key (entry k value entries) = (before key k ≡ true) × AllAfter key entries

abbrev pub IsSorted : Entries → Type 0
IsSorted empty = Unit {0}
IsSorted (entry key value entries) = AllAfter key entries × IsSorted entries

-- Integers are `std::uint64_t`, doubles have 64 bits, dictionaries are maps.
unfoldable mutual
  pub IsPlist : PlistValue → Type 0
  IsPlist (integer value) = value < 2 ^ 64
  IsPlist (real value) = value < 2 ^ 64
  IsPlist (array items) = ArePlists items
  IsPlist (dictionary entries) = IsSorted entries × ArePlistEntries entries
  IsPlist _ = Unit {0}

  pub ArePlists : Values → Type 0
  ArePlists nil = Unit {0}
  ArePlists (cons item items) = IsPlist item × ArePlists items

  pub ArePlistEntries : Entries → Type 0
  ArePlistEntries empty = Unit {0}
  ArePlistEntries (entry key value entries) = IsPlist value × ArePlistEntries entries

pub levels_of-positive : (value : PlistValue) → 1 ≤ levels_of value
unfolding levels_of
levels_of-positive (boolean value) = omega arith
levels_of-positive (integer value) = omega arith
levels_of-positive (real value) = omega arith
levels_of-positive (string value) = omega arith
levels_of-positive (blob value) = omega arith
levels_of-positive (array items) = omega arith
levels_of-positive (dictionary entries) = omega arith
