-- ===== src/AirPlay/Plist/Containers.antt =====
-- Arrays and dictionaries read back, given that their parts are (src/airplay/bplist.cpp).
use aa2acp.Base.{
  ℕ, ◌+◌, ◌-◌, ◌*◌, ◌/◌, ◌%◌, ◌≤◌, ◌<◌, ◌^◌, ◌≡◌, refl, true, List, [], ◌∷◌, ◌++◌, some, arith, leb,
  le→leb, length, length-append, take-append_length, drop-append_length, get_or, All, Bytes,
}
use aa2acp.AirPlay.Plist.{array, dictionary, Values, Entries, empty, bytes_for, count_marker}
use aa2acp.AirPlay.Plist.BigEndian.{
  Fits, Fits-le, Fits-bytes_for, bytes_for-le, room-bytes_for, room_twice-bytes_for,
}
use aa2acp.AirPlay.Plist.Placed.{StandsAt, StandsAt-skip, StandsAt-length}
use aa2acp.AirPlay.Plist.Encoder.{append_all}
use aa2acp.AirPlay.Plist.Decoder.{
  Decoder, Usage, Read, read_refs, read_items, read_entries, read_container, read_sized,
  read_marked,
}
use aa2acp.AirPlay.Plist.File.{length-append_all, read_refs-append_all}
use aa2acp.AirPlay.Plist.Leaves.{read_count-count_marker}

-- The file has fewer than 2^64 nodes, and references of the size chosen for them.
abbrev pub HasWidth : Decoder → Type 0
HasWidth d = (d.ref_size ≡ bytes_for (length d.offsets - 1)) × (length d.offsets < 2 ^ 64)

abbrev pub AreNodes : Decoder → List ℕ → Type 0
AreNodes d = All (λ ref. ref < length d.offsets)

module _ (d : Decoder) (wide : HasWidth d) where
  refs_fit :
      (refs : List ℕ)
      → AreNodes d refs
      → All (λ ref. (ref < 2 ^ 64) × Fits ref d.ref_size × (ref < length d.offsets)) refs
  refs_fit [] h = tt
  refs_fit (ref ∷ refs) (inside, h) =
      let top = Fits-bytes_for (length d.offsets - 1) (omega (arith, wide.1)) in
      let fit : Fits ref d.ref_size =
        rw wide.0 (Fits-le (bytes_for (length d.offsets - 1)) ref _ (omega arith) top) in
      ((omega (arith, wide.1), fit, inside), refs_fit refs h)

  read_refs-refs :
      (start : ℕ) (refs : List ℕ) (tail : Bytes)
      → AreNodes d refs
      → StandsAt d.bytes start (append_all d.ref_size refs ++ tail)
      → read_refs d (length refs) start ≡ some refs
  read_refs-refs start refs tail nodes found =
      read_refs-append_all d start refs tail (rw wide.0 (bytes_for-le (length d.offsets - 1)))
        (refs_fit refs nodes) found

  -- The tests on the bytes left hold.
  room : (items left more : ℕ) → left ≡ items * d.ref_size + more → items ≤ left / d.ref_size
  room items left more e = rw wide.0 (room-bytes_for _ items left more (rw wide.0 at e))

  room_twice :
      (items left more : ℕ) → left ≡ items * 2 * d.ref_size + more → items ≤ left / (2 * d.ref_size)
  room_twice items left more e = rw wide.0 (room_twice-bytes_for _ items left more (rw wide.0 at e))

  -- How far the references of a container reach.
  refs_left :
      (start : ℕ) (refs : List ℕ) (tail : Bytes)
      → StandsAt d.bytes start (append_all d.ref_size refs ++ tail)
      → length d.bytes - start ≡ length refs * d.ref_size + length tail
  refs_left start refs tail found = omega (
    arith,
    StandsAt-length start _ found,
    length-append (append_all d.ref_size refs) tail,
    length-append_all d.ref_size refs,
  )

  module _ (below : ℕ → Usage → Read) (tail : Bytes) (usage used : Usage) where
    read_sized-array :
        (start : ℕ) (refs : List ℕ) (values : Values)
        → AreNodes d refs
        → StandsAt d.bytes start (append_all d.ref_size refs ++ tail)
        → read_items below refs usage ≡ some (values, used)
        → read_sized d below 10 (length refs) start usage ≡ some (array values, used)
    unfolding read_sized read_container
    read_sized-array start refs values nodes found parts =
        let inside : leb start (length d.bytes) ≡ true =
          le→leb _ _ (omega (arith, StandsAt-length start _ found)) in
        let fits : leb (length refs) ((length d.bytes - start) / d.ref_size) ≡ true =
          le→leb _ _ (room (length refs) _ (length tail) (refs_left start refs tail found)) in
        rw (inside, fits, read_refs-refs start refs tail nodes found, parts) refl

    pub read_marked-array :
        (offset : ℕ) (refs : List ℕ) (values : Values)
        → AreNodes d refs
        → StandsAt d.bytes offset
            (count_marker 10 (length refs) ++ (append_all d.ref_size refs ++ tail))
        → length refs < 2 ^ 64
        → read_items below refs usage ≡ some (values, used)
        → (let marker = get_or d.bytes offset 0 in
            read_marked d below (marker / 16) (marker % 16) offset usage)
          ≡ some (array values, used)
    unfolding read_marked
    read_marked-array offset refs values nodes found small parts =
        let header = length (count_marker 10 (length refs)) in
        let (high, count) =
          read_count-count_marker d.bytes _ offset 10 (length refs) (omega arith) small found in
        let later = StandsAt-skip offset header _ _ refl found in
        rw (high, count) (read_sized-array (offset + header) refs values nodes later parts)

    module _ (items : ℕ) (keys values : List ℕ) (entries : Entries) (total : length keys ≡ items)
        (nodes : AreNodes d (keys ++ values)) (pairs : length (keys ++ values) ≡ items * 2)
        (parts : read_entries below keys values empty usage ≡ some (entries, used)) where
      read_sized-dictionary :
          (start : ℕ)
          → StandsAt d.bytes start (append_all d.ref_size (keys ++ values) ++ tail)
          → read_sized d below 13 items start usage ≡ some (dictionary entries, used)
      unfolding read_sized read_container
      read_sized-dictionary start found =
          let refs = keys ++ values in
          let left = refs_left start refs tail found in
          let inside : leb start (length d.bytes) ≡ true =
            le→leb _ _ (omega (arith, StandsAt-length start _ found)) in
          let fits : leb items ((length d.bytes - start) / d.ref_size) ≡ true =
            le→leb _ _ (omega (arith, room (length refs) _ (length tail) left)) in
          let fits_twice : leb items ((length d.bytes - start) / (2 * d.ref_size)) ≡ true =
            le→leb _ _ (room_twice items _ (length tail) (rw pairs at left)) in
          let all_refs = rw pairs at (read_refs-refs start refs tail nodes found) in
          rw
            (
              inside,
              fits,
              fits_twice,
              all_refs,
              take-append_length items keys values total,
              drop-append_length items keys values total,
              parts,
            )
            refl

      pub read_marked-dictionary :
          (offset : ℕ)
          → StandsAt d.bytes offset
              (count_marker 13 items ++ (append_all d.ref_size (keys ++ values) ++ tail))
          → items < 2 ^ 64
          → (let marker = get_or d.bytes offset 0 in
              read_marked d below (marker / 16) (marker % 16) offset usage)
            ≡ some (dictionary entries, used)
      unfolding read_marked
      read_marked-dictionary offset found small =
          let header = length (count_marker 13 items) in
          let (high, count) =
            read_count-count_marker d.bytes _ offset 13 items (omega arith) small found in
          rw (high, count)
            (read_sized-dictionary (offset + header) (StandsAt-skip offset header _ _ refl found))
