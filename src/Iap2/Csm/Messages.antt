-- ===== src/Iap2/Csm/Messages.antt =====
-- The incremental decoder reads back what `csm::encode` wrote (src/iap2/csm.cpp).
use aa2acp.Base.{
  ℕ, zero, suc, ◌+◌, ◌-◌, ◌*◌, ◌%◌, ◌≤◌, ◌<◌, ◌≡◌, ◌≢◌, ◌⊎◌, inl, inr, refl, sym, ap, ◌∙◌, [], ◌∷◌,
  ◌++◌, Option, none, some, arith, length, length-append, length-drop, take, drop,
  take-append_length, drop-append_length, All, Bytes, IsU16, read_u16, le→ltb, lt→ltb, u16_high,
  u16_low,
}
use aa2acp.Iap2.Csm.{
  Message, encode, find_mark, Round, found, stopped, continues, next_message, next_round, next_loop,
  next,
}

find_mark-length : (bs : Bytes) → length (find_mark bs) ≤ length bs
unfolding find_mark
find_mark-length [] = omega arith
find_mark-length (a ∷ []) = omega arith
find_mark-length (a ∷ b ∷ rest) = ground (arith, find_mark-length (b ∷ rest))

find_mark-pos : (bs : Bytes) → 0 < length bs → 0 < length (find_mark bs)
unfolding find_mark
find_mark-pos [] h = absurd (omega arith)
find_mark-pos (a ∷ []) h = omega arith
find_mark-pos (a ∷ b ∷ rest) h = ground (arith, find_mark-pos (b ∷ rest))

-- What a round leaves is shorter if it goes on or finds a message, and never longer.
abbrev Leaves : ℕ → Round → Type 0
Leaves n (found message rest) = suc (length rest) ≤ n
Leaves n (stopped rest) = length rest ≤ n
Leaves n (continues rest) = suc (length rest) ≤ n

next_round-Leaves : (buffer : Bytes) → Leaves (length buffer) (next_round buffer)
unfolding next_round next_message
next_round-Leaves buffer =
    ground
      (arith, find_mark-length buffer, length-drop 1 buffer, length-drop (read_u16 buffer 2) buffer)

Round-cases :
    (r : Round)
    → ((m : Message) × (bs : Bytes) × (r ≡ found m bs))
      ⊎ ((bs : Bytes) × (r ≡ stopped bs))
      ⊎ ((bs : Bytes) × (r ≡ continues bs))
Round-cases (found m bs) = inl (m, bs, refl)
Round-cases (stopped bs) = inr (inl (bs, refl))
Round-cases (continues bs) = inr (inr (bs, refl))

-- The decoder comes to an answer on every buffer, and what it leaves is no longer than before, and
-- shorter if it found a message.
abbrev pub Answers : ℕ → Option Message → Bytes → Type 0
Answers n none rest = length rest ≤ n
Answers n (some message) rest = length rest < n

next_loop_total :
    (fuel : ℕ) (buffer : Bytes)
    → length buffer < fuel
    → (m : Option Message) × (rest : Bytes) × (next_loop fuel buffer ≡ some (m, rest))
      × Answers (length buffer) m rest
unfolding next_loop
next_loop_total zero buffer h = absurd (omega arith)
next_loop_total (suc fuel) buffer h = elim (Round-cases (next_round buffer)) [
  | inl (m, rest, e) ↦ (some m, rest, rw (e, next_loop), rw e at (next_round-Leaves buffer))
  | inr (inl (rest, e)) ↦ (none, rest, rw (e, next_loop), rw e at (next_round-Leaves buffer))
  | inr (inr (left, e)) ↦
      let shorter : suc (length left) ≤ length buffer = rw e at (next_round-Leaves buffer) in
      let (m, rest, run, answers) = next_loop_total fuel left (omega arith) in
      (m, rest, rw (e, next_loop) run, Answers-mono m rest (omega arith) answers)
]
  where
    Answers-mono :
        (m : Option Message) (rest : Bytes) {k n : ℕ} → k ≤ n → Answers k m rest → Answers n m rest
    Answers-mono none rest h a = omega arith
    Answers-mono (some m) rest h a = omega arith

-- The decoder comes to an answer on every buffer. If it finds a message the buffer gets shorter, and
-- it never gets longer.
pub next_total :
    (buffer : Bytes)
    → (m : Option Message) × (rest : Bytes) × (next buffer ≡ some (m, rest))
      × Answers (length buffer) m rest
unfolding next
next_total buffer = next_loop_total (suc (length buffer)) buffer (omega arith)

-- Bytes that cannot begin a message.
abbrev pub IsNoise : Bytes → Type 0
IsNoise = All (λ b. b ≢ 0x40)

find_mark-append :
    (noise rest : Bytes)
    → IsNoise noise
    → find_mark (noise ++ 0x40 ∷ 0x40 ∷ rest) ≡ 0x40 ∷ 0x40 ∷ rest
unfolding find_mark
find_mark-append [] rest h = refl
find_mark-append (a ∷ []) rest h = ground (arith, h.0)
find_mark-append (a ∷ b ∷ noise) rest h = ground (arith, h.0, find_mark-append (b ∷ noise) rest h.1)

next_loop_continues :
    (fuel : ℕ) (buffer left : Bytes)
    → next_round buffer ≡ continues left
    → next_loop (suc fuel) buffer ≡ next_loop fuel left
unfolding next_loop
next_loop_continues fuel buffer left e = rw (e, next_loop)

next_message_sized :
    (buffer : Bytes) (size : ℕ)
    → read_u16 buffer 2 ≡ size
    → 6 ≤ size
    → size ≤ length buffer
    → next_message buffer
      ≡ found
          (record { id = read_u16 buffer 4; payload = take (size - 6) (drop 6 buffer) })
          (drop size buffer)
unfolding next_message
next_message_sized buffer size e large present =
    rw (e, le→ltb size 6 large, le→ltb (length buffer) size present)

pub next_short : (buffer : Bytes) → length buffer < 6 → next buffer ≡ some (none, buffer)
unfolding next next_loop next_round
next_short buffer h = rw (lt→ltb (length buffer) 6 h, next_loop)

-- A message whose header says that more is to come stays.
next_incomplete :
    (high low : ℕ) (tail : Bytes)
    → 2 ≤ length tail
    → 6 ≤ (high * 256 + low) % 65536
    → 4 + length tail < (high * 256 + low) % 65536
    → next (0x40 ∷ 0x40 ∷ high ∷ low ∷ tail) ≡ some (none, 0x40 ∷ 0x40 ∷ high ∷ low ∷ tail)
unfolding next next_loop next_round next_message find_mark
next_incomplete high low tail a b c = ground arith

module _ (id : ℕ) (payload : Bytes) (id_fits : IsU16 id) (short : length payload ≤ 65529) where
  abbrev size : ℕ
  size = 6 + length payload

  abbrev message : Message
  message = record { id = id; payload = payload }

  abbrev written : Bytes
  written =
      0x40
      ∷ 0x40
      ∷ u16_high (size % 65536)
      ∷ u16_low (size % 65536)
      ∷ u16_high id
      ∷ u16_low id
      ∷ payload

  encode-written : encode id payload ≡ written
  unfolding encode
  encode-written = rw (le→ltb (65535 - 6) (length payload) short)

  next_message-written : (rest : Bytes) → next_message (written ++ rest) ≡ found message rest
  next_message-written rest =
      let id_read : read_u16 (written ++ rest) 4 ≡ id = omega arith in
      let body : take (size - 6) (payload ++ rest) ≡ payload =
        take-append_length (size - 6) payload rest (omega arith) in
      let behind : drop size (written ++ rest) ≡ rest =
        drop-append_length size written rest (omega arith) in
      next_message_sized (written ++ rest) size (omega arith) (omega arith)
        (omega (arith, length-append payload rest))
      ∙ cc

  next_round-written : (rest : Bytes) → next_round (written ++ rest) ≡ found message rest
  unfolding next_round find_mark
  next_round-written rest = ground (arith, next_message-written rest, length-append payload rest)

  -- A message at the front of the buffer is found in the first round.
  next_loop-written :
      (fuel : ℕ) (rest : Bytes) → next_loop (suc fuel) (written ++ rest) ≡ some (some message, rest)
  unfolding next_loop
  next_loop-written fuel rest = rw (next_round-written rest, next_loop)

  next_round_noise :
      (n : ℕ) (noise rest : Bytes)
      → IsNoise (n ∷ noise)
      → next_round ((n ∷ noise) ++ (written ++ rest)) ≡ continues (written ++ rest)
  unfolding next_round
  next_round_noise n noise rest quiet =
      let marked : find_mark ((n ∷ noise) ++ (written ++ rest)) ≡ written ++ rest =
        find_mark-append (n ∷ noise) _ quiet in
      let longer : length ((n ∷ noise) ++ (written ++ rest))
          ≡ suc (length noise) + length (written ++ rest) =
        length-append (n ∷ noise) (written ++ rest) in
      rw marked (ground (arith, longer))

  -- Behind any bytes that cannot begin a message, a message that `encode` wrote for an identifier of
  -- 16 bits and a payload of at most 65529 bytes is found whole, and what follows it is left.
  pub next-encode :
      (noise rest : Bytes)
      → IsNoise noise
      → next (noise ++ (encode id payload ++ rest)) ≡ some (some message, rest)
  unfolding next
  next-encode [] rest quiet = rw encode-written (next_loop-written _ rest)
  next-encode (n ∷ noise) rest quiet = rw encode-written (
      next_loop_continues (suc (length (noise ++ (written ++ rest)))) _ _
        (next_round_noise n noise rest quiet)
      ∙ next_loop-written (length (noise ++ (written ++ rest))) rest)

  -- A proper part of a message from its beginning is no message yet, and is kept whole.
  pub next_prefix :
      (front back : Bytes)
      → encode id payload ≡ front ++ back
      → 0 < length back
      → next front ≡ some (none, front)
  unfolding next
  next_prefix (b0 ∷ b1 ∷ b2 ∷ b3 ∷ b4 ∷ b5 ∷ front) back e more =
      let same : written ≡ (b0 ∷ b1 ∷ b2 ∷ b3 ∷ b4 ∷ b5 ∷ front) ++ back = sym encode-written ∙ e in
      let enough : length written ≡ 6 + (length front + length back) =
        ap length same ∙ omega (arith, length-append front back) in
      ground (arith, same, next_incomplete b2 b3 (b4 ∷ b5 ∷ front))
  next_prefix front back e more = next_short front (omega arith)
