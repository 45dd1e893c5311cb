-- ===== src/AirPlay/Plist/Decoder.antt =====
-- The decoder of src/airplay/bplist.cpp, with its limits on depth, nodes and bytes.
use aa2acp.Base.{
  ℕ, zero, suc, ◌+◌, ◌-◌, ◌*◌, ◌/◌, ◌%◌, ◌^◌, Bool, true, false, ◌&&◌, ◌||◌, not, List, [], ◌∷◌,
  ◌++◌, Option, none, some, ◌>>=◌, ltb, leb, ◌==◌, if◌then◌else◌, length, take, drop, get_or, Bytes,
  eqb,
}
use aa2acp.AirPlay.Plist.{
  PlistValue, boolean, integer, real, string, blob, array, dictionary, Values, nil, cons, Entries,
  empty, entry, magic, read_be,
}

pub record Decoder : Type 0 where
  pub bytes : Bytes
  pub offset_size : ℕ
  pub ref_size : ℕ
  pub offsets : List ℕ

-- The two mutable counters of a decode.
pub record Usage : Type 0 where
  pub nodes : ℕ
  pub copied : ℕ

abbrev pub max_depth : ℕ
max_depth = 64

abbrev pub max_nodes : ℕ
max_nodes = 65536

abbrev pub max_bytes : ℕ
max_bytes = 8388608

-- A value and the counters behind it. A failure ends the decode, so its counters are never read.
abbrev pub Read : Type 0
Read = Option (PlistValue × Usage)

-- `count`.
unfoldable pub read_count : Bytes → ℕ → ℕ → Option (ℕ × ℕ)
read_count bytes offset nibble =
    if not (nibble == 15)
    then some (nibble, offset + 1)
    else if ltb (length bytes) (offset + 2) || not (get_or bytes (offset + 1) 0 / 16 == 1)
    then none
    else let size = 2 ^ (get_or bytes (offset + 1) 0 % 16) in
      read_be bytes (offset + 2) size >>= λ value. some (value, offset + 2 + size)

-- One UTF-16 unit in UTF-8; a unit is below 65,536.
unfoldable pub utf8 : ℕ → Bytes
utf8 code =
    if ltb code 128
    then code ∷ []
    else if ltb code 2048
    then (192 + code / 64) ∷ (128 + code % 64) ∷ []
    else (224 + code / 4096) ∷ (128 + code / 64 % 64) ∷ (128 + code % 64) ∷ []

unfoldable pub utf16_text : ℕ → Bytes → Bytes
utf16_text zero bytes = []
utf16_text (suc items) bytes =
    utf8 (get_or bytes 0 0 * 256 + get_or bytes 1 0) ++ utf16_text items (drop 2 bytes)

-- `static_cast<double>` of a float, on the bit patterns: the place of the leading bit of a fraction
-- below 2 ^ 23, by a search downwards.
unfoldable pub leading_bit : ℕ → ℕ → ℕ
leading_bit zero fraction = 0
leading_bit (suc place) fraction =
    if leb (2 ^ suc place) fraction then suc place else leading_bit place fraction

unfoldable pub widen : ℕ → ℕ
widen pattern =
    let sign = pattern / 2 ^ 31 * 2 ^ 63 in
    let exponent = pattern / 2 ^ 23 % 256 in
    let fraction = pattern % 2 ^ 23 in
    let place = leading_bit 22 fraction in
    if exponent == 255
    then if fraction == 0
      then sign + 2047 * 2 ^ 52
      else sign + 2047 * 2 ^ 52 + 2 ^ 51 + fraction % 2 ^ 22 * 2 ^ 29
    else if not (exponent == 0)
    then sign + (exponent + 896) * 2 ^ 52 + fraction * 2 ^ 29
    else if fraction == 0
    then sign
    else sign + (place + 874) * 2 ^ 52 + (fraction - 2 ^ place) * 2 ^ (52 - place)

-- The order of `std::string`.
unfoldable pub before : Bytes → Bytes → Bool
before a [] = false
before [] (y ∷ b) = true
before (x ∷ a) (y ∷ b) = if ltb x y then true else if x == y then before a b else false

-- `std::map::emplace`: a key that is there keeps its value.
unfoldable pub emplace : Bytes → PlistValue → Entries → Entries
emplace key value empty = entry key value empty
emplace key value (entry k v entries) =
    let later = emplace key value entries in
    if eqb k key
    then entry k v entries
    else if before key k
    then entry key value (entry k v entries)
    else entry k v later

-- The references of a container.
unfoldable pub read_refs : Decoder → ℕ → ℕ → Option (List ℕ)
read_refs d zero start = some []
read_refs d (suc items) start = do
  ref ← read_be d.bytes start d.ref_size
  refs ← read_refs d items (start + d.ref_size)
  if leb (length d.offsets) ref then none else some (ref ∷ refs)

-- The loops over the references, `object` at the next depth being an argument.
unfoldable pub read_items : (ℕ → Usage → Read) → List ℕ → Usage → Option (Values × Usage)
read_items object [] usage = some (nil, usage)
read_items object (ref ∷ refs) usage = do
  (value, used) ← object ref usage
  (values, final) ← read_items object refs used
  some (cons value values, final)

unfoldable pub as_string : PlistValue → Option Bytes
as_string (string key) = some key
as_string _ = none

unfoldable pub read_entries :
    (ℕ → Usage → Read) → List ℕ → List ℕ → Entries → Usage → Option (Entries × Usage)
read_entries object (k ∷ keys) (v ∷ values) result usage = do
  (key, used) ← object k usage
  (value, final) ← object v used
  name ← as_string key
  read_entries object keys values (emplace name value result) final
read_entries object _ _ result usage = some (result, usage)

unfoldable pub read_container : Decoder → (ℕ → Usage → Read) → ℕ → ℕ → ℕ → Usage → Read
read_container d object type items start usage =
    if type == 13
    then (do
      refs ← read_refs d (items * 2) start
      (entries, used) ← read_entries object (take items refs) (drop items refs) empty usage
      some (dictionary entries, used))
    else (do
      refs ← read_refs d items start
      (values, used) ← read_items object refs usage
      some (array values, used))

-- `object` behind its `count`: data, text, UTF-16 text, and the containers.
unfoldable pub read_sized : Decoder → (ℕ → Usage → Read) → ℕ → ℕ → ℕ → Usage → Read
read_sized d object type items start usage =
    let left = length d.bytes - start in
    let chunk = take items (drop start d.bytes) in
    let inside = leb start (length d.bytes) in
    if (type == 4 || type == 5) && inside && leb items left
    then if ltb max_bytes (usage.copied + items)
      then none
      else some (
        if type == 4 then blob chunk else string chunk,
        record usage { copied = usage.copied + items },
      )
    else if type == 6 && inside && leb items (left / 2)
    then if ltb max_bytes (usage.copied + items * 3)
      then none
      else some (
        string (utf16_text items (drop start d.bytes)),
        record usage { copied = usage.copied + items * 3 },
      )
    else if (type == 10 || type == 13)
        && inside
        && leb items (left / d.ref_size)
        && (not (type == 13) || leb items (left / (2 * d.ref_size)))
    then read_container d object type items start usage
    else none

unfoldable pub read_real : Bytes → ℕ → ℕ → Option PlistValue
read_real bytes offset size = do
  value ← read_be bytes (offset + 1) size
  if size == 8 then some (real value) else if size == 4 then some (real (widen value)) else none

-- `object` behind its two guards, at the marker of the node.
unfoldable pub read_marked : Decoder → (ℕ → Usage → Read) → ℕ → ℕ → ℕ → Usage → Read
read_marked d object type nibble offset usage =
    if type == 0 && (nibble == 8 || nibble == 9)
    then some (boolean (nibble == 9), usage)
    else if type == 1
    then (read_be d.bytes (offset + 1) (2 ^ nibble) >>= λ value. some (integer value, usage))
    else if type == 2
    then (read_real d.bytes offset (2 ^ nibble) >>= λ value. some (value, usage))
    else do
      (items, start) ← read_count d.bytes offset nibble
      read_sized d object type items start usage

-- `object` on the number of depths left: 65 at the root, none beyond `kMaxDepth`.
unfoldable pub object : Decoder → ℕ → ℕ → Usage → Read
object d zero index usage = none
object d (suc levels) index usage =
    let offset = get_or d.offsets index 0 in
    let marker = get_or d.bytes offset 0 in
    if leb (length d.offsets) index || ltb max_nodes (usage.nodes + 1)
    then none
    else read_marked d (object d levels) (marker / 16) (marker % 16) offset
        (record usage { nodes = usage.nodes + 1 })

-- The offset table, each entry before the table itself.
unfoldable pub read_offsets : Bytes → ℕ → ℕ → ℕ → ℕ → Option (List ℕ)
read_offsets bytes table size zero start = some []
read_offsets bytes table size (suc count) start = do
  offset ← read_be bytes start size
  offsets ← read_offsets bytes table size count (start + size)
  if leb table offset then none else some (offset ∷ offsets)

-- The guard on the trailer.
unfoldable pub is_bad_trailer : ℕ → ℕ → ℕ → ℕ → ℕ → ℕ → Bool
is_bad_trailer length offset_size ref_size count top table =
    count == 0
    || leb count top
    || offset_size == 0
    || ref_size == 0
    || ltb max_nodes count
    || ltb length table
    || ltb ((length - table) / offset_size) count

unfoldable pub read_table : Bytes → ℕ → ℕ → ℕ → ℕ → ℕ → Option PlistValue
read_table bytes offset_size ref_size count top table = do
  offsets ← read_offsets bytes table offset_size count table
  let d : Decoder = record {
    bytes = bytes;
    offset_size = offset_size;
    ref_size = ref_size;
    offsets = offsets;
  }
  (value, usage) ← object d (suc max_depth) top (record { nodes = 0; copied = 0 })
  some value

unfoldable pub read_trailer : Bytes → ℕ → Option PlistValue
read_trailer bytes trailer = do
  let offset_size = get_or bytes (trailer + 6) 0
  let ref_size = get_or bytes (trailer + 7) 0
  count ← read_be bytes (trailer + 8) 8
  top ← read_be bytes (trailer + 16) 8
  table ← read_be bytes (trailer + 24) 8
  if is_bad_trailer (length bytes) offset_size ref_size count top table
      then none
      else read_table bytes offset_size ref_size count top table

unfoldable pub decode_bplist : Bytes → Option PlistValue
decode_bplist bytes =
    if ltb (length bytes) 40 || not (eqb (take 8 bytes) magic)
    then none
    else read_trailer bytes (length bytes - 32)
