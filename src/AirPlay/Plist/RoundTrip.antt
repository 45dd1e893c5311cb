-- ===== src/AirPlay/Plist/RoundTrip.antt =====
-- `decode_bplist` reads back what `encode_bplist` wrote (src/airplay/bplist.cpp).
use aa2acp.Base.{
  ℕ, suc, ◌+◌, ◌-◌, ◌*◌, ◌/◌, ◌≤◌, ◌<◌, ◌^◌, ◌≡◌, refl, sym, ap, ◌∙◌, false, List, [], ◌∷◌, ◌++◌,
  append-nil, append_assoc, some, arith, ltb, ◌==◌, le→ltb, lt→leb, length, length-append, take,
  All, Bytes,
}
use aa2acp.AirPlay.Plist.{PlistValue, magic, big_endian, bytes_for}
use aa2acp.AirPlay.Plist.BigEndian.{
  Fits-word, bytes_for-le, bytes_for-cases, room-bytes_for, length-big_endian,
}
use aa2acp.AirPlay.Plist.Placed.{
  StandsAt, StandsAt-skip, StandsAt-get, StandsAt-length, StandsAt-read_be,
}
use aa2acp.AirPlay.Plist.Encoder.{Node, append_all, add, finish, encode_bplist}
use aa2acp.AirPlay.Plist.Decoder.{
  Decoder, max_nodes, max_bytes, max_depth, read_offsets, is_bad_trailer, read_table, read_trailer,
  decode_bplist,
}
use aa2acp.AirPlay.Plist.Layout.{node_count, layout, length-parts, add-layout}
use aa2acp.AirPlay.Plist.File.{
  render_all, starts, write_nodes-render_all, length-append_all, read_offsets-append_all, AreStored,
  AreStored-render_all,
}
use aa2acp.AirPlay.Plist.Offsets.{
  HasBytes, HasBytes-head_node, HasBytes-parts, length-starts, starts_below,
}
use aa2acp.AirPlay.Plist.Containers.{HasWidth}
use aa2acp.AirPlay.Plist.Measures.{levels_of, copied_of, IsPlist}
use aa2acp.AirPlay.Plist.Reads.{IsRead, object-stored}

spread :
    (a b c e f g : Bytes) → a ++ b ++ c ++ e ++ f ++ g ≡ a ++ (b ++ (c ++ (e ++ (f ++ (g ++ [])))))
spread a b c e f g = simp (append_assoc, append-nil)

module _ (nodes : List Node) where
  abbrev ref_size : ℕ
  ref_size = bytes_for (length nodes - 1)

  abbrev offsets : List ℕ
  offsets = starts ref_size 8 nodes

  abbrev body : Bytes
  body = magic ++ render_all ref_size nodes

  abbrev offset_size : ℕ
  offset_size = bytes_for (length body)

  abbrev table : Bytes
  table = append_all offset_size offsets

  -- The sizes and the three numbers at the end of the file.
  abbrev numbers : Bytes
  numbers = big_endian (length nodes) 8 ++ (big_endian 0 8 ++ (big_endian (length body) 8 ++ []))

  abbrev trailer : Bytes
  trailer = (0 ∷ 0 ∷ 0 ∷ 0 ∷ 0 ∷ 0 ∷ offset_size ∷ ref_size ∷ []) ++ numbers

  finish-parts : finish 0 nodes ≡ body ++ (table ++ trailer)
  unfolding finish
  finish-parts = rw (write_nodes-render_all ref_size nodes magic) (
      spread body table (0 ∷ 0 ∷ 0 ∷ 0 ∷ 0 ∷ 0 ∷ offset_size ∷ ref_size ∷ [])
        (big_endian (length nodes) 8) (big_endian 0 8) (big_endian (length body) 8))

  length-trailer : length trailer ≡ 32
  length-trailer = omega (
    arith,
    length-append (big_endian (length nodes) 8)
        (big_endian 0 8 ++ (big_endian (length body) 8 ++ [])),
    length-append (big_endian 0 8) (big_endian (length body) 8 ++ []),
    length-append (big_endian (length body) 8) [],
    length-big_endian (length nodes) 8,
    length-big_endian 0 8,
    length-big_endian (length body) 8,
  )

  length-table : length table ≡ length nodes * offset_size
  length-table =
      length-append_all offset_size offsets
      ∙ ap (λ n. n * offset_size) (length-starts ref_size nodes 8)

  module _ (file : Bytes) (written : file ≡ body ++ (table ++ trailer))
      (short : length file < 2 ^ 64) (filled : All HasBytes nodes) (some_nodes : 1 ≤ length nodes)
      (few : length nodes ≤ max_nodes) where
    abbrev place : ℕ
    place = length body + length table

    trailer_found : StandsAt file place trailer
    trailer_found =
        (body ++ table, written ∙ sym (append_assoc body table trailer), length-append body table)

    total : length file ≡ place + 32
    total = StandsAt-length place trailer trailer_found ∙ omega (arith, length-trailer)

    sizes_positive : (value : ℕ) → (bytes_for value == 0) ≡ false
    sizes_positive value = ground (arith, bytes_for-cases value)

    body_in_file : length body ≤ length file
    body_in_file = omega (arith, total)

    good_trailer :
        is_bad_trailer (length file) offset_size ref_size (length nodes) 0 (length body) ≡ false
    unfolding is_bad_trailer
    good_trailer =
        let counted : (length nodes == 0) ≡ false = ground arith in
        let room : length nodes ≤ (length file - length body) / offset_size =
          room-bytes_for (length body) (length nodes) _ 32 (omega (arith, total, length-table)) in
        rw
          (
            counted,
            lt→leb (length nodes) 0 some_nodes,
            sizes_positive (length body),
            sizes_positive (length nodes - 1),
            le→ltb max_nodes (length nodes) few,
            le→ltb (length file) (length body) body_in_file,
            le→ltb _ (length nodes) room,
          )
          refl

    offsets_read :
        read_offsets file (length body) offset_size (length nodes) (length body) ≡ some offsets
    offsets_read =
        let below =
          starts_below ref_size (length body) 8 nodes filled
            (omega (arith, length-append magic (render_all ref_size nodes)))
            (omega (arith, body_in_file)) in
        let count = length-starts ref_size nodes 8 in
        rw count at (
          read_offsets-append_all file (length body) offset_size (length body) offsets trailer
            (bytes_for-le (length body)) below (body, written, refl))

    trailer_read :
        read_trailer file place
        ≡ read_table file offset_size ref_size (length nodes) 0 (length body)
    unfolding read_trailer
    trailer_read =
        let small : length nodes < 2 ^ 64 = omega arith in
        let table_small : length body < 2 ^ 64 = omega (arith, body_in_file) in
        let at_numbers =
          StandsAt-skip place 8 (_ ∷ _ ∷ _ ∷ _ ∷ _ ∷ _ ∷ _ ∷ _ ∷ []) numbers refl trailer_found in
        let at_top =
          StandsAt-skip (place + 8) 8 _ _ (length-big_endian (length nodes) 8) at_numbers in
        let at_table = StandsAt-skip (place + 8 + 8) 8 _ _ (length-big_endian 0 8) at_top in
        let count =
          StandsAt-read_be (place + 8) (length nodes) 8 _ small (Fits-word _ small) (omega arith)
            at_numbers in
        let top =
          StandsAt-read_be (place + 8 + 8) 0 8 _ (omega arith) (Fits-word 0 (omega arith))
            (omega arith) at_top in
        let start =
          StandsAt-read_be (place + 8 + 8 + 8) (length body) 8 _ table_small
            (Fits-word _ table_small) (omega arith) at_table in
        let sixteen : place + 16 ≡ place + 8 + 8 = omega arith in
        let twenty_four : place + 24 ≡ place + 8 + 8 + 8 = omega arith in
        rw
          (
            StandsAt-get place 6 trailer trailer_found,
            StandsAt-get place 7 trailer trailer_found,
            sixteen,
            twenty_four,
            count,
            top,
            start,
            good_trailer,
          )
          refl

    decode_bplist-trailer : decode_bplist file ≡ read_trailer file place
    unfolding decode_bplist
    decode_bplist-trailer =
        let long : ltb (length file) 40 ≡ false =
          le→ltb _ _ (omega (arith, total, length-append magic (render_all ref_size nodes))) in
        let starts_magic : take 8 file ≡ magic = ap (take 8) written in
        let behind : length file - 32 ≡ place = omega (arith, total) in
        rw (long, starts_magic, behind) refl

    abbrev decoder : Decoder
    decoder = record {
      bytes = file;
      offset_size = offset_size;
      ref_size = ref_size;
      offsets = offsets;
    }

    stored : AreStored decoder 0 nodes
    stored = AreStored-render_all decoder nodes magic (table ++ trailer) [] written refl

    wide : HasWidth decoder
    wide =
        let count = length-starts ref_size nodes 8 in
        (ap (λ n. bytes_for (n - 1)) (sym count), omega (arith, count))

    decode_bplist-nodes :
        (value : PlistValue)
        → IsRead decoder wide (suc max_depth) 0 value (record { nodes = 0; copied = 0 })
        → decode_bplist file ≡ some value
    unfolding read_table
    decode_bplist-nodes value read =
        decode_bplist-trailer ∙ trailer_read ∙ rw (offsets_read, read) refl

-- A value comes back from its file: integers and doubles have 64 bits, dictionaries are sorted maps,
-- the decoder's limits hold (65 levels, 65,536 nodes, 8 MiB of data and text), and the file is
-- shorter than 2^64 bytes.
pub decode_bplist-encode_bplist :
    (root : PlistValue)
    → IsPlist root
    → levels_of root ≤ suc max_depth
    → node_count root ≤ max_nodes
    → copied_of root ≤ max_bytes
    → length (encode_bplist root) < 2 ^ 64
    → decode_bplist (encode_bplist root) ≡ some root
unfolding encode_bplist
decode_bplist-encode_bplist root plist deep few small short =
    let nodes = layout 0 root in
    let written = ap (λ p. finish p.0 p.1) (add-layout root) ∙ finish-parts nodes in
    let count : length nodes ≡ node_count root = length-parts 0 root in
    let filled : All HasBytes nodes = (HasBytes-head_node 0 root, HasBytes-parts 0 root) in
    let some_nodes : 1 ≤ length nodes = omega arith in
    let few_nodes : length nodes ≤ max_nodes = omega (arith, count) in
    let file = finish (add root []).0 (add root []).1 in
    let start = length-starts (bytes_for (length nodes - 1)) nodes 8 in
    decode_bplist-nodes nodes file written short filled some_nodes few_nodes root (
      object-stored (decoder nodes file written short filled some_nodes few_nodes)
        (wide nodes file written short filled some_nodes few_nodes) root (suc max_depth) 0
        (record { nodes = 0; copied = 0 }) deep
        (stored nodes file written short filled some_nodes few_nodes) (omega (arith, start, count))
        plist (omega arith, omega arith))
