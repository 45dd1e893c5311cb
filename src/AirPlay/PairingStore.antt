-- ===== src/AirPlay/PairingStore.antt =====
-- The stored pairing (src/airplay/pairing_store.cpp): the format of the file. Its writing under another
-- name and its permissions are file I/O.
use aa2acp.Base.{
  ℕ, suc, ◌+◌, ◌*◌, ◌/◌, ◌%◌, Bool, not, ◌||◌, List, [], ◌∷◌, ◌++◌, Option, none, some, ◌>>=◌, ltb,
  ◌==◌, if◌then◌else◌, length, take, drop, is_empty, eqb, Bytes,
}
pub mod RoundTrip
mod Tests

-- "ACPPAIR1"
abbrev pub pairing_magic : Bytes
pairing_magic = 65 ∷ 67 ∷ 80 ∷ 80 ∷ 65 ∷ 73 ∷ 82 ∷ 49 ∷ []

pub record PairingRecord : Type 0 where
  pub controller_id : Bytes
  pub private_key : Bytes
  pub public_key : Bytes
  pub accessory_public_key : Bytes

-- What `write_u16` writes, the low byte first.
abbrev pub little_endian : ℕ → Bytes
little_endian value = value % 256 ∷ value / 256 % 256 ∷ []

-- What `save_pairing_record` writes; `none` if the record is refused.
unfoldable pub saved_record : PairingRecord → Option Bytes
saved_record r =
    if is_empty r.controller_id
      || ltb 1024 (length r.controller_id)
      || not (length r.private_key == 32)
      || not (length r.public_key == 32)
      || not (length r.accessory_public_key == 32)
    then none
    else some (
        pairing_magic
        ++ (little_endian (length r.controller_id % 65536)
            ++ (r.controller_id ++ (r.private_key ++ (r.public_key ++ r.accessory_public_key)))))

-- A read of that many bytes from the stream: the bytes and the rest, or the stream fails.
unfoldable pub read_bytes : ℕ → Bytes → Option (Bytes × Bytes)
read_bytes size stream =
    if ltb (length stream) size then none else some (take size stream, drop size stream)

abbrev pub u16_of : Bytes × Bytes → Option (ℕ × Bytes)
u16_of (low ∷ high ∷ [], rest) = some (low + high * 256, rest)
u16_of _ = none

unfoldable pub read_size : Bytes → Option (ℕ × Bytes)
read_size stream = read_bytes 2 stream >>= u16_of

unfoldable pub read_record : ℕ → Bytes → Option PairingRecord
read_record size stream = do
  (id, after_id) ← read_bytes size stream
  (private_key, after_private) ← read_bytes 32 after_id
  (public_key, after_public) ← read_bytes 32 after_private
  (accessory_key, rest) ← read_bytes 32 after_public
  some (record {
    controller_id = id;
    private_key = private_key;
    public_key = public_key;
    accessory_public_key = accessory_key;
  })

-- `load_pairing_record` on the file's content.
unfoldable pub load_pairing_record : Bytes → Option PairingRecord
load_pairing_record content = do
  (magic, after_magic) ← read_bytes 8 content
  (size, after_size) ← (if eqb magic pairing_magic then read_size after_magic else none)
  if size == 0 || ltb 1024 size then none else read_record size after_size
