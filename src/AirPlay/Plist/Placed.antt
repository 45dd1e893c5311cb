-- ===== src/AirPlay/Plist/Placed.antt =====
-- Bytes at an offset of a file (src/airplay/bplist.cpp).
use aa2acp.Base.{
  ℕ, ◌+◌, ◌≤◌, ◌<◌, ◌^◌, ◌≡◌, sym, ◌∙◌, ◌++◌, append_assoc, some, arith, length, length-append,
  drop, drop-append_length, get_or, get_or-append, get_or-append, Bytes,
}
use aa2acp.AirPlay.Plist.{big_endian, read_be}
use aa2acp.AirPlay.Plist.BigEndian.{Fits, read_be-big_endian}

-- From the offset on, the file is the given tail.
abbrev pub StandsAt : Bytes → ℕ → Bytes → Type 0
StandsAt bytes offset tail = (front : Bytes) × (bytes ≡ front ++ tail) × (length front ≡ offset)

module _ {bytes : Bytes} where
  pub StandsAt-skip :
      (offset size : ℕ) (chunk tail : Bytes)
      → length chunk ≡ size
      → StandsAt bytes offset (chunk ++ tail)
      → StandsAt bytes (offset + size) tail
  StandsAt-skip offset size chunk tail width (front, file, place) = (
    front ++ chunk,
    file ∙ sym (append_assoc front chunk tail),
    omega (arith, length-append front chunk),
  )

  pub StandsAt-length :
      (offset : ℕ) (tail : Bytes) → StandsAt bytes offset tail → length bytes ≡ offset + length tail
  StandsAt-length offset tail (front, file, place) =
      rw file (omega (arith, length-append front tail))

  pub StandsAt-drop :
      (offset : ℕ) (tail : Bytes) → StandsAt bytes offset tail → drop offset bytes ≡ tail
  StandsAt-drop offset tail (front, file, place) =
      rw file (drop-append_length offset front tail place)

  pub StandsAt-get :
      (offset i : ℕ) (tail : Bytes)
      → StandsAt bytes offset tail
      → get_or bytes (offset + i) 0 ≡ get_or tail i 0
  StandsAt-get offset i tail (front, file, place) =
      rw (file, sym place) (get_or-append front tail i 0)

  -- A number that was appended is read back.
  pub StandsAt-read_be :
      (offset value size : ℕ) (tail : Bytes)
      → value < 2 ^ 64
      → Fits value size
      → size ≤ 8
      → StandsAt bytes offset (big_endian value size ++ tail)
      → read_be bytes offset size ≡ some value
  StandsAt-read_be offset value size tail small fits width found =
      read_be-big_endian bytes tail offset value size small fits width
        (omega (arith, StandsAt-length offset _ found)) (StandsAt-drop offset _ found)
