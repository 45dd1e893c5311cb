-- ===== src/AirPlay/PairingStore/RoundTrip.antt =====
-- A stored pairing is loaded as it was (src/airplay/pairing_store.cpp).
use aa2acp.Base.{
  ℕ, ◌+◌, ◌*◌, ◌/◌, ◌%◌, ◌<◌, ◌≤◌, ◌↔◌, subst, some-injective, if-eq-some, ◌≡◌, refl, sym, ap, ◌∙◌,
  false, not, ◌||◌, [], ◌∷◌, ◌++◌, append-nil, some, arith, ltb, ◌==◌, le→ltb, length,
  length-append, take-append_length, drop-append_length, is_empty, Bytes,
}
use aa2acp.AirPlay.PairingStore.{
  pairing_magic, PairingRecord, little_endian, saved_record, read_bytes, read_size, read_record,
  load_pairing_record,
}

-- The records that can be stored: an identifier of 1 to 1,024 bytes and three keys of 32 bytes.
pub record IsStorable (r : PairingRecord) : Type 0 where
  pub named : 1 ≤ length r.controller_id
  pub short : length r.controller_id ≤ 1024
  pub private_size : length r.private_key ≡ 32
  pub public_size : length r.public_key ≡ 32
  pub accessory_size : length r.accessory_public_key ≡ 32

read_bytes-append :
    (size : ℕ) (chunk rest : Bytes)
    → length chunk ≡ size
    → read_bytes size (chunk ++ rest) ≡ some (chunk, rest)
unfolding read_bytes
read_bytes-append size chunk rest width =
    let there : ltb (length (chunk ++ rest)) size ≡ false =
      le→ltb _ _ (omega (arith, length-append chunk rest)) in
    rw (there, take-append_length size chunk rest width, drop-append_length size chunk rest width)
      refl

read_size-append :
    (size : ℕ) (rest : Bytes)
    → size < 65536
    → read_size (little_endian (size % 65536) ++ rest) ≡ some (size, rest)
unfolding read_size
read_size-append size rest small =
    let sum : size % 65536 % 256 + size % 65536 / 256 % 256 * 256 ≡ size = omega arith in
    rw (read_bytes-append 2 (little_endian (size % 65536)) rest refl) (ap (λ n. some (n, rest)) sum)

read_record-append :
    (r : PairingRecord)
    → length r.private_key ≡ 32
    → length r.public_key ≡ 32
    → length r.accessory_public_key ≡ 32
    → read_record
        (length r.controller_id)
        (r.controller_id ++ (r.private_key ++ (r.public_key ++ r.accessory_public_key)))
      ≡ some r
unfolding read_record
read_record-append r private_size public_size accessory_size =
    let last : read_bytes 32 r.accessory_public_key ≡ some (r.accessory_public_key, []) =
      ap (read_bytes 32) (sym (append-nil r.accessory_public_key))
      ∙ read_bytes-append 32 r.accessory_public_key [] accessory_size in
    rw
      (
        read_bytes-append (length r.controller_id) r.controller_id
            (r.private_key ++ (r.public_key ++ r.accessory_public_key)) refl,
        read_bytes-append 32 r.private_key (r.public_key ++ r.accessory_public_key) private_size,
        read_bytes-append 32 r.public_key r.accessory_public_key public_size,
        last,
      )
      refl

is_empty-false : (id : Bytes) → 1 ≤ length id → is_empty id ≡ false
is_empty-false [] h = absurd (omega arith)
is_empty-false (c ∷ id) h = refl

length-positive : (id : Bytes) → is_empty id ≡ false → 1 ≤ length id
length-positive [] h = absurd cc
length-positive (c ∷ id) h = omega arith

saved_record-IsStorable :
    (r : PairingRecord) (content : Bytes) → saved_record r ≡ some content → IsStorable r
unfolding saved_record
saved_record-IsStorable r content h =
    let (accepted, rest) =
      if-eq-some
        (is_empty r.controller_id
          || ltb 1024 (length r.controller_id)
          || not (length r.private_key == 32)
          || not (length r.public_key == 32)
          || not (length r.accessory_public_key == 32))
        _ h in
    let filled : is_empty r.controller_id ≡ false = ground arith in
    record {
      named = length-positive r.controller_id filled;
      short = ground arith;
      private_size = ground arith;
      public_size = ground arith;
      accessory_size = ground arith;
    }

load_pairing_record-content :
    (r : PairingRecord)
    → IsStorable r
    → (content : Bytes) × (saved_record r ≡ some content) × (load_pairing_record content ≡ some r)
unfolding saved_record load_pairing_record
load_pairing_record-content r s =
    let filled = is_empty-false r.controller_id s.named in
    let short : ltb 1024 (length r.controller_id) ≡ false = le→ltb _ _ s.short in
    let some_size : (length r.controller_id == 0) ≡ false = ground (arith, s.named) in
    let size = length r.controller_id in
    let keys = r.controller_id ++ (r.private_key ++ (r.public_key ++ r.accessory_public_key)) in
    let behind = little_endian (size % 65536) ++ keys in
    let accepted : (is_empty r.controller_id
          || ltb 1024 size
          || not (length r.private_key == 32)
          || not (length r.public_key == 32)
          || not (length r.accessory_public_key == 32))
        ≡ false =
      rw (filled, short, s.private_size, s.public_size, s.accessory_size) refl in
    (
      pairing_magic ++ behind,
      rw accepted refl,
      rw
          (
            read_bytes-append 8 pairing_magic behind refl,
            read_size-append size keys (omega (arith, s.short)),
            some_size,
            short,
          )
          (read_record-append r s.private_size s.public_size s.accessory_size),
    )

-- A file is written for exactly the records with an identifier of 1 to 1,024 bytes and three keys of 32
-- bytes, and what is written for a record is loaded as the record.
pub load_pairing_record-saved_record :
    (r : PairingRecord)
    → (((content : Bytes) × (saved_record r ≡ some content)) ↔ IsStorable r)
      × ((content : Bytes) → saved_record r ≡ some content → load_pairing_record content ≡ some r)
load_pairing_record-saved_record r = (
  (
    (λ (content, h). saved_record-IsStorable r content h),
    (λ s. let (content, written, loaded) = load_pairing_record-content r s in (content, written)),
  ),
  (λ content h.
      let (c, written, loaded) =
        load_pairing_record-content r (saved_record-IsStorable r content h) in
      subst (λ x. load_pairing_record x ≡ some r) (some-injective _ _ (sym written ∙ h)) loaded),
)
