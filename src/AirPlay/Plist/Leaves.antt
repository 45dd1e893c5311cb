-- ===== src/AirPlay/Plist/Leaves.antt =====
-- Nodes without parts, read back: counts, numbers and texts (src/airplay/bplist.cpp).
use aa2acp.Base.{
  ℕ, suc, ◌+◌, ◌-◌, ◌*◌, ◌/◌, ◌%◌, ◌≤◌, ◌<◌, ◌^◌, ◌≡◌, ◌⊎◌, inl, inr, refl, ap, ◌∙◌, Bool, true,
  false, ◌||◌, [], ◌∷◌, ◌++◌, some, arith, ltb, leb, ◌==◌, if◌then◌else◌, le→ltb, le→leb, lt→leb,
  ltb→lt, Bool-cases, length, length-append, drop, take, take-append_length, get_or, Bytes,
}
use aa2acp.AirPlay.Plist.{
  PlistValue, boolean, integer, real, string, blob, big_endian, bytes_for, log2_bytes, count_marker,
  encode_integer,
}
use aa2acp.AirPlay.Plist.BigEndian.{Fits-word, Fits-bytes_for, bytes_for-cases, length-big_endian}
use aa2acp.AirPlay.Plist.Placed.{
  StandsAt, StandsAt-skip, StandsAt-get, StandsAt-drop, StandsAt-length, StandsAt-read_be,
}
use aa2acp.AirPlay.Plist.Encoder.{boolean_byte}
use aa2acp.AirPlay.Plist.Decoder.{
  Decoder, Usage, Read, max_bytes, read_count, read_sized, read_real, read_marked, object,
  max_nodes,
}

-- The size that a length byte stands for.
pub log2_bytes-bytes_for :
    (value : ℕ)
    → (2 ^ ((16 + log2_bytes (bytes_for value)) % 16) ≡ bytes_for value)
      × ((16 + log2_bytes (bytes_for value)) / 16 ≡ 1)
      × (bytes_for value ≤ 8)
unfolding log2_bytes
log2_bytes-bytes_for value = elim (bytes_for-cases value) [
  | inl (e, small) ↦ rw e (refl, refl, omega arith)
  | inr (inl (e, small)) ↦ rw e (refl, refl, omega arith)
  | inr (inr (inl (e, small))) ↦ rw e (refl, refl, omega arith)
  | inr (inr (inr e)) ↦ rw e (refl, refl, omega arith)
]

pub length-count_marker :
    (type count : ℕ)
    → length (count_marker type count) ≡ (if ltb count 15 then 1 else 2 + bytes_for count)
unfolding count_marker
length-count_marker type count = ground (arith, length-big_endian count (bytes_for count))

-- A count is read back, with its type, from one byte or from a byte, a size and a number.
abbrev ReadsCount : Bytes → ℕ → ℕ → ℕ → ℕ → Type 0
ReadsCount bytes offset type count size =
    (get_or bytes offset 0 / 16 ≡ type)
    × (read_count bytes offset (get_or bytes offset 0 % 16) ≡ some (count, offset + size))

read_count_small :
    (bytes tail : Bytes) (offset type count : ℕ)
    → type < 16
    → count < 15
    → StandsAt bytes offset ((type * 16 + count) % 256 ∷ tail)
    → ReadsCount bytes offset type count 1
unfolding read_count
read_count_small bytes tail offset type count kind small found =
    let first : get_or bytes offset 0 ≡ type * 16 + count =
      ap (λ n. get_or bytes n 0) (omega arith) ∙ StandsAt-get offset 0 _ found ∙ omega arith in
    let nibble : (type * 16 + count) % 16 ≡ count = omega arith in
    let other : (count == 15) ≡ false = ground arith in
    rw first (omega arith, rw (nibble, other) refl)

read_count_large :
    (bytes tail : Bytes) (offset type count : ℕ)
    → type < 16
    → count < 2 ^ 64
    → StandsAt bytes offset (
        (type * 16 + 15) % 256
          ∷ (16 + log2_bytes (bytes_for count))
          ∷ big_endian count (bytes_for count)
        ++ tail)
    → ReadsCount bytes offset type count (suc (suc (bytes_for count)))
unfolding read_count
read_count_large bytes tail offset type count kind small found =
    let first : get_or bytes offset 0 ≡ type * 16 + 15 =
      ap (λ n. get_or bytes n 0) (omega arith) ∙ StandsAt-get offset 0 _ found ∙ omega arith in
    let nibble : (type * 16 + 15) % 16 ≡ 15 = omega arith in
    let (power, high, narrow) = log2_bytes-bytes_for count in
    let enough : ltb (length bytes) (offset + 2) ≡ false =
      le→ltb _ _ (omega (arith, StandsAt-length offset _ found)) in
    let number =
      StandsAt-read_be (offset + 2) count (bytes_for count) tail small (Fits-bytes_for count small)
        narrow (StandsAt-skip offset 2 (_ ∷ _ ∷ []) _ refl found) in
    rw first (
      omega arith,
      rw (nibble, enough, StandsAt-get offset 1 _ found, high, power, number)
          (ap (λ n. some (count, n)) (omega arith)),
    )

pub read_count-count_marker :
    (bytes tail : Bytes) (offset type count : ℕ)
    → type < 16
    → count < 2 ^ 64
    → StandsAt bytes offset (count_marker type count ++ tail)
    → ReadsCount bytes offset type count (length (count_marker type count))
unfolding count_marker
read_count-count_marker bytes tail offset type count kind small found =
    elim (Bool-cases (ltb count 15)) [
      | inl e ↦
          rw e
            (read_count_small bytes tail offset type count kind (ltb→lt count 15 e) (rw e at found))
      | inr e ↦
          rw (e, length-big_endian count (bytes_for count))
            (read_count_large bytes tail offset type count kind small (rw e at found))
    ]

-- The counters behind some more nodes and bytes.
abbrev pub advance : Usage → ℕ → ℕ → Usage
advance usage nodes copied = record { nodes = usage.nodes + nodes; copied = usage.copied + copied }

-- `object` behind its guards.
pub object-marked :
    (d : Decoder) (levels n : ℕ) (usage : Usage)
    → n < length d.offsets
    → usage.nodes + 1 ≤ max_nodes
    → object d (suc levels) n usage ≡ (
        let offset = get_or d.offsets n 0 in
        let marker = get_or d.bytes offset 0 in
        read_marked d
          (object d levels)
          (marker / 16)
          (marker % 16)
          offset
          (record usage { nodes = usage.nodes + 1 }))
unfolding object
object-marked d levels n usage inside room =
    rw (lt→leb (length d.offsets) n inside, le→ltb max_nodes (usage.nodes + 1) room) refl

-- The type of data, or of a text.
abbrev ChunkType : ℕ → Type 0
ChunkType type = (type ≡ 4) ⊎ (type ≡ 5)

abbrev chunk_value : ℕ → Bytes → PlistValue
chunk_value type chunk = if type == 4 then blob chunk else string chunk

module _ (d : Decoder) (below : ℕ → Usage → Read) (chunk tail : Bytes) (type : ℕ) (usage : Usage)
    (kind : ChunkType type) (enough : usage.copied + length chunk ≤ max_bytes) where
  read_sized-chunk :
      (start : ℕ)
      → StandsAt d.bytes start (chunk ++ tail)
      → read_sized d below type (length chunk) start usage
        ≡ some (chunk_value type chunk, record usage { copied = usage.copied + length chunk })
  unfolding read_sized
  read_sized-chunk start found =
      let total = StandsAt-length start _ found in
      let sum = length-append chunk tail in
      let either : ((type == 4) || (type == 5)) ≡ true = ground arith in
      let inside : leb start (length d.bytes) ≡ true = le→leb _ _ (omega arith) in
      let room : leb (length chunk) (length d.bytes - start) ≡ true = le→leb _ _ (omega arith) in
      let small : ltb max_bytes (usage.copied + length chunk) ≡ false = le→ltb _ _ enough in
      let copy : take (length chunk) (drop start d.bytes) ≡ chunk =
        ap (take (length chunk)) (StandsAt-drop start _ found)
        ∙ take-append_length (length chunk) chunk tail refl in
      rw (either, inside, room, small, copy) refl

  pub read_marked-chunk :
      (offset : ℕ)
      → StandsAt d.bytes offset (count_marker type (length chunk) ++ (chunk ++ tail))
      → (let marker = get_or d.bytes offset 0 in
          read_marked d below (marker / 16) (marker % 16) offset usage)
        ≡ some (chunk_value type chunk, record usage { copied = usage.copied + length chunk })
  unfolding read_marked
  read_marked-chunk offset found =
      let header = length (count_marker type (length chunk)) in
      let (high, count) =
        read_count-count_marker d.bytes (chunk ++ tail) offset type (length chunk) (omega arith)
          (omega arith) found in
      let zero_type : (type == 0) ≡ false = ground arith in
      let one_type : (type == 1) ≡ false = ground arith in
      let two_type : (type == 2) ≡ false = ground arith in
      rw (high, zero_type, one_type, two_type, count)
        (read_sized-chunk (offset + header) (StandsAt-skip offset header _ _ refl found))

pub read_marked-integer :
    (d : Decoder) (below : ℕ → Usage → Read) (offset value : ℕ) (tail : Bytes) (usage : Usage)
    → value < 2 ^ 64
    → StandsAt d.bytes offset (encode_integer value ++ tail)
    → (let marker = get_or d.bytes offset 0 in
        read_marked d below (marker / 16) (marker % 16) offset usage)
      ≡ some (integer value, usage)
unfolding read_marked encode_integer
read_marked-integer d below offset value tail usage small found =
    let (power, high, narrow) = log2_bytes-bytes_for value in
    let first : get_or d.bytes offset 0 ≡ 16 + log2_bytes (bytes_for value) =
      ap (λ n. get_or d.bytes n 0) (omega arith) ∙ StandsAt-get offset 0 _ found in
    let number =
      StandsAt-read_be (offset + 1) value (bytes_for value) tail small (Fits-bytes_for value small)
        narrow (StandsAt-skip offset 1 (_ ∷ []) _ refl found) in
    rw (first, high, power, number) refl

pub read_marked-real :
    (d : Decoder) (below : ℕ → Usage → Read) (offset value : ℕ) (tail : Bytes) (usage : Usage)
    → value < 2 ^ 64
    → StandsAt d.bytes offset (35 ∷ big_endian value 8 ++ tail)
    → (let marker = get_or d.bytes offset 0 in
        read_marked d below (marker / 16) (marker % 16) offset usage)
      ≡ some (real value, usage)
unfolding read_marked read_real
read_marked-real d below offset value tail usage small found =
    let first : get_or d.bytes offset 0 ≡ 35 =
      ap (λ n. get_or d.bytes n 0) (omega arith) ∙ StandsAt-get offset 0 _ found in
    let number =
      StandsAt-read_be (offset + 1) value 8 tail small (Fits-word value small) (omega arith)
        (StandsAt-skip offset 1 (_ ∷ []) _ refl found) in
    rw (first, number) refl

read_marked-boolean_byte :
    (d : Decoder) (below : ℕ → Usage → Read) (offset : ℕ) (value : Bool) (usage : Usage)
    → read_marked d below (boolean_byte value / 16) (boolean_byte value % 16) offset usage
      ≡ some (boolean value, usage)
unfolding read_marked
read_marked-boolean_byte d below offset true usage = refl
read_marked-boolean_byte d below offset false usage = refl

pub read_marked-boolean :
    (d : Decoder) (below : ℕ → Usage → Read) (offset : ℕ) (value : Bool) (tail : Bytes)
    (usage : Usage)
    → StandsAt d.bytes offset (boolean_byte value ∷ tail)
    → (let marker = get_or d.bytes offset 0 in
        read_marked d below (marker / 16) (marker % 16) offset usage)
      ≡ some (boolean value, usage)
read_marked-boolean d below offset value tail usage found =
    let first : get_or d.bytes offset 0 ≡ boolean_byte value =
      ap (λ n. get_or d.bytes n 0) (omega arith) ∙ StandsAt-get offset 0 _ found in
    rw first (read_marked-boolean_byte d below offset value usage)
