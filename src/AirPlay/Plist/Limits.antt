-- ===== src/AirPlay/Plist/Limits.antt =====
-- What a decoded value can hold, whatever the file (src/airplay/bplist.cpp).
use aa2acp.Base.{
  ℕ, zero, suc, ◌+◌, ◌-◌, ◌*◌, ◌/◌, ◌≤◌, ◌^◌, ◌≡◌, refl, inl, inr, subst, ◌&&◌, ◌||◌, not, none,
  some, >>=-eq-some, if-eq-some, if-cases, arith, ltb, leb, ◌==◌, if◌then◌else◌, Bool-cases, length,
  length-take, take, drop, get_or, Bytes, eqb, some-injective,
}
use aa2acp.AirPlay.Plist.{PlistValue, boolean, integer, string, blob, magic, read_be}
use aa2acp.AirPlay.Plist.Decoder.{
  Decoder, Usage, Read, max_nodes, max_bytes, max_depth, read_count, utf16_text, read_sized,
  read_real, read_marked, object, read_offsets, is_bad_trailer, read_table, read_trailer,
  decode_bplist,
}
use aa2acp.AirPlay.Plist.Layout.{node_count}
use aa2acp.AirPlay.Plist.Parts.{counted}
use aa2acp.AirPlay.Plist.Measures.{levels_of, copied_of}
use aa2acp.AirPlay.Plist.Budget.{IsPaid, PaysValue, read_container-paid, length-utf16_text}

abbrev IsScalar : PlistValue → Type 0
IsScalar value = (node_count value ≡ 1) × (levels_of value ≡ 1) × (copied_of value ≡ 0)

read_real-IsScalar :
    (bytes : Bytes) (offset size : ℕ) (value : PlistValue)
    → read_real bytes offset size ≡ some value
    → IsScalar value
unfolding read_real node_count levels_of copied_of
read_real-IsScalar bytes offset size value h =
    let (number, read, rest) = >>=-eq-some (read_be bytes (offset + 1) size) _ h in
    elim (if-cases (size == 8) _ _ rest) [
      | inl (e, last) ↦ subst IsScalar (some-injective _ _ last) (refl, refl, refl)
      | inr (e, rest') ↦ elim (if-cases (size == 4) _ _ rest') [
        | inl (e', last) ↦ subst IsScalar (some-injective _ _ last) (refl, refl, refl)
        | inr (e', fails) ↦ absurd cc
      ]
    ]

module _ (levels : ℕ) (below : ℕ → Usage → Read) (paid : IsPaid levels below) where
  -- Data and text behind the test on the bytes copied.
  copied_paid :
      (value : PlistValue) (size : ℕ) (usage : Usage) (r : PlistValue × Usage)
      → usage.nodes + 1 ≤ max_nodes
      → node_count value ≡ 1
      → levels_of value ≡ 1
      → copied_of value ≤ size
      → (if ltb max_bytes (usage.copied + size)
          then none
          else some (value, record (counted usage) { copied = usage.copied + size }))
        ≡ some r
      → PaysValue levels usage r
  copied_paid value size usage r room one level short h =
      let (fits, last) = if-eq-some (ltb max_bytes (usage.copied + size)) _ h in
      subst (PaysValue levels usage) (some-injective _ _ last)
        (omega arith, (omega arith, omega arith), (room, ground arith))

  read_sized-paid :
      (d : Decoder) (type items start : ℕ) (usage : Usage) (r : PlistValue × Usage)
      → usage.nodes + 1 ≤ max_nodes
      → usage.copied ≤ max_bytes
      → read_sized d below type items start (counted usage) ≡ some r
      → PaysValue levels usage r
  unfolding read_sized node_count copied_of levels_of
  read_sized-paid d type items start usage r room within h =
      let chunk = take items (drop start d.bytes) in
      let short : length chunk ≤ items = omega (arith, length-take items (drop start d.bytes)) in
      let left = length d.bytes - start in
      let inside = leb start (length d.bytes) in
      let is_chunk = (type == 4 || type == 5) && inside && leb items left in
      let is_utf16 = type == 6 && inside && leb items (left / 2) in
      let is_container =
        (type == 10 || type == 13)
        && inside
        && leb items (left / d.ref_size)
        && (not (type == 13) || leb items (left / (2 * d.ref_size))) in
      elim (if-cases is_chunk _ _ h) [
        | inl (e, found) ↦ elim (Bool-cases (type == 4)) [
          | inl four ↦
              copied_paid (blob chunk) items usage r room refl refl short (rw four at found)
          | inr five ↦
              copied_paid (string chunk) items usage r room refl refl short (rw five at found)
        ]
        | inr (e, rest) ↦ elim (if-cases is_utf16 _ _ rest) [
          | inl (e', found) ↦
              copied_paid (string (utf16_text items (drop start d.bytes))) (items * 3) usage r room
                refl refl (length-utf16_text items (drop start d.bytes)) found
          | inr (e', rest') ↦ elim (if-cases is_container _ _ rest') [
            | inl (e'', found) ↦
                read_container-paid levels below paid d type items start usage r room within found
            | inr (e'', fails) ↦ absurd cc
          ]
        ]
      ]

  -- A value without parts or text.
  scalar_paid :
      (value : PlistValue) (usage : Usage) (r : PlistValue × Usage)
      → usage.nodes + 1 ≤ max_nodes
      → usage.copied ≤ max_bytes
      → node_count value ≡ 1
      → levels_of value ≡ 1
      → copied_of value ≡ 0
      → ◌≡◌ {A = Read} (some (value, counted usage)) (some r)
      → PaysValue levels usage r
  scalar_paid value usage r room within one level short h =
      subst (PaysValue levels usage) (some-injective _ _ h)
        (omega arith, (omega arith, omega arith), (room, within))

  read_marked-paid :
      (d : Decoder) (type nibble offset : ℕ) (usage : Usage) (r : PlistValue × Usage)
      → usage.nodes + 1 ≤ max_nodes
      → usage.copied ≤ max_bytes
      → read_marked d below type nibble offset (counted usage) ≡ some r
      → PaysValue levels usage r
  unfolding read_marked read_real node_count copied_of levels_of
  read_marked-paid d type nibble offset usage r room within h =
      elim (if-cases (type == 0 && (nibble == 8 || nibble == 9)) _ _ h) [
        | inl (e, found) ↦
            scalar_paid (boolean (nibble == 9)) usage r room within refl refl refl found
        | inr (e, rest) ↦ elim (if-cases (type == 1) _ _ rest) [
          | inl (e', found) ↦
              (let (value, number, last) =
                  >>=-eq-some (read_be d.bytes (offset + 1) (2 ^ nibble)) _ found in
                scalar_paid (integer value) usage r room within refl refl refl last)
          | inr (e', rest') ↦ elim (if-cases (type == 2) _ _ rest') [
            | inl (e'', found) ↦
                (let (value, number, last) =
                    >>=-eq-some (read_real d.bytes offset (2 ^ nibble)) _ found in
                  let (one, level, short) =
                    read_real-IsScalar d.bytes offset (2 ^ nibble) value number in
                  scalar_paid value usage r room within one level short last)
            | inr (e'', found) ↦
                (let ((items, start), counted_items, last) =
                    >>=-eq-some (read_count d.bytes offset nibble) _ found in
                  read_sized-paid d type items start usage r room within last)
          ]
        ]
      ]

-- A value at any depth is paid for.
object-IsPaid : (d : Decoder) (levels : ℕ) → IsPaid levels (object d levels)
unfolding object
object-IsPaid d zero n usage value used within h = absurd cc
object-IsPaid d (suc levels) n usage value used within h =
    let (guard, found) =
      if-eq-some (leb (length d.offsets) n || ltb max_nodes (usage.nodes + 1)) _ h in
    let room : usage.nodes + 1 ≤ max_nodes = ground arith in
    read_marked-paid levels (object d levels) (object-IsPaid d levels) d _ _ _ usage (value, used)
      room within.1 found

abbrev pub IsBounded : PlistValue → Type 0
IsBounded value =
    (levels_of value ≤ suc max_depth)
    × (node_count value ≤ max_nodes)
    × (copied_of value ≤ max_bytes)

read_table-bounds :
    (bytes : Bytes) (offset_size ref_size count top table : ℕ) (value : PlistValue)
    → read_table bytes offset_size ref_size count top table ≡ some value
    → IsBounded value
unfolding read_table
read_table-bounds bytes offset_size ref_size count top table value h =
    let (offsets, read, rest) =
      >>=-eq-some (read_offsets bytes table offset_size count table) _ h in
    let d : Decoder = record {
      bytes = bytes;
      offset_size = offset_size;
      ref_size = ref_size;
      offsets = offsets;
    } in
    let start : Usage = record { nodes = 0; copied = 0 } in
    let ((result, used), decoded, last) = >>=-eq-some (object d (suc max_depth) top start) _ rest in
    let (deep, covers, within) =
      object-IsPaid d (suc max_depth) top start result used (omega arith, omega arith) decoded in
    subst IsBounded (some-injective _ _ last) (deep, omega arith, omega arith)

-- Whatever the file, a decoded value has at most 65 levels, 65,536 nodes, and 8 MiB of data and
-- text.
pub decode_bplist-bounds :
    (bytes : Bytes) (value : PlistValue) → decode_bplist bytes ≡ some value → IsBounded value
unfolding decode_bplist read_trailer
decode_bplist-bounds bytes value h =
    let trailer = length bytes - 32 in
    let (long, in_file) =
      if-eq-some (ltb (length bytes) 40 || not (eqb (take 8 bytes) magic)) _ h in
    let (count, c, behind_count) = >>=-eq-some (read_be bytes (trailer + 8) 8) _ in_file in
    let (top, t, behind_top) = >>=-eq-some (read_be bytes (trailer + 16) 8) _ behind_count in
    let (table, s, behind_table) = >>=-eq-some (read_be bytes (trailer + 24) 8) _ behind_top in
    let bad =
      is_bad_trailer (length bytes) (get_or bytes (trailer + 6) 0) (get_or bytes (trailer + 7) 0)
        count top table in
    let (good, in_table) = if-eq-some bad _ behind_table in
    read_table-bounds bytes _ _ count top table value in_table
