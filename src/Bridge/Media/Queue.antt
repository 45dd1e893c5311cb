-- ===== src/Bridge/Media/Queue.antt =====
-- The queue with its byte count, and what `enqueue` drops (src/bridge/media_forwarders.cpp).
use aa2acp.Base.{
  ℕ, suc, ◌+◌, ◌%◌, ◌^◌, ◌≤◌, ◌<◌, ◌≡◌, ◌⊎◌, inl, inr, refl, sym, ap, ◌∙◌, true, false, ◌||◌, List,
  [], ◌∷◌, ◌++◌, arith, ltb, leb, length, length-append, is_empty, Bytes, Bool-cases, le→ltb,
}
use aa2acp.Bridge.Media.{
  maximum_queued_bytes, Forwarder, minus, drop_oldest, enqueue, take_frame, queue_dependent, only,
}

-- The bytes of a queue.
abbrev pub total : List Bytes → ℕ
total [] = 0
total (frame ∷ rest) = length frame + total rest

pub total-append : (xs ys : List Bytes) → total (xs ++ ys) ≡ total xs + total ys
total-append [] ys = omega arith
total-append (x ∷ xs) ys = omega (arith, total-append xs ys)

-- The count is right, and both bounds are kept.
pub record IsBounded (f : Forwarder) : Type 0 where
  pub counted : f.queued_bytes ≡ total f.frames
  pub bytes : total f.frames ≤ maximum_queued_bytes
  pub frames : length f.frames ≤ f.maximum_queued_frames
  pub some_frame : 1 ≤ f.maximum_queued_frames

-- There is room for a frame of a size behind these frames.
abbrev pub HasRoom : ℕ → ℕ → List Bytes → Type 0
HasRoom maximum size frames =
    (length frames < maximum) × (total frames + size ≤ maximum_queued_bytes)

abbrev pub IsFull : ℕ → ℕ → List Bytes → Type 0
IsFull maximum size frames =
    (maximum ≤ length frames) ⊎ (maximum_queued_bytes < total frames + size)

-- The frames were dropped one by one, each when the queue that began with it was full.
abbrev pub AreForced : ℕ → ℕ → List Bytes → List Bytes → Type 0
AreForced maximum size [] left = Unit {0}
AreForced maximum size (frame ∷ dropped) left =
    IsFull maximum size (frame ∷ dropped ++ left) × AreForced maximum size dropped left

-- What `drop_oldest` leaves: the newest frames, with room for one more, and no frame was dropped while
-- there was room.
abbrev pub Leaves : ℕ → ℕ → List Bytes → List Bytes → Type 0
Leaves maximum size frames left =
    (dropped : List Bytes) × (frames ≡ dropped ++ left)
    × HasRoom maximum size left
    × AreForced maximum size dropped left

drop_oldest-full :
    (maximum size : ℕ) (front : Bytes) (rest : List Bytes) (queued : ℕ)
    → (leb maximum (length (front ∷ rest)) || ltb maximum_queued_bytes ((queued + size) % 2 ^ 64))
      ≡ true
    → drop_oldest maximum size (front ∷ rest) queued
      ≡ drop_oldest maximum size rest (minus queued (length front))
unfolding drop_oldest
drop_oldest-full maximum size front rest queued h = rw (h, drop_oldest)

drop_oldest-room :
    (maximum size : ℕ) (front : Bytes) (rest : List Bytes) (queued : ℕ)
    → (leb maximum (length (front ∷ rest)) || ltb maximum_queued_bytes ((queued + size) % 2 ^ 64))
      ≡ false
    → drop_oldest maximum size (front ∷ rest) queued ≡ (front ∷ rest, queued)
unfolding drop_oldest
drop_oldest-room maximum size front rest queued h = rw (h, drop_oldest)

drop_oldest_lem :
    (maximum size : ℕ) (frames : List Bytes)
    → 1 ≤ maximum
    → size ≤ maximum_queued_bytes
    → total frames ≤ maximum_queued_bytes
    → (left : List Bytes) × (drop_oldest maximum size frames (total frames) ≡ (left, total left))
      × Leaves maximum size frames left
unfolding drop_oldest
drop_oldest_lem maximum size [] one fits bounded =
    ([], refl, ([], refl, (omega arith, omega arith), tt))
drop_oldest_lem maximum size (front ∷ rest) one fits bounded =
    elim (Bool-cases (
      leb maximum (length (front ∷ rest))
      || ltb maximum_queued_bytes ((total (front ∷ rest) + size) % 2 ^ 64))) [
        | inl full ↦
            let (left, run, (dropped, split, room, needed)) =
              drop_oldest_lem maximum size rest one fits (omega arith) in
            let counted : minus (total (front ∷ rest)) (length front) ≡ total rest = omega arith in
            (
              left,
              drop_oldest-full maximum size front rest _ full ∙ rw counted run,
              (
                front ∷ dropped,
                ap (◌∷◌ front) split,
                room,
                (is_full (ap (◌∷◌ front) split) full, needed),
              ),
            )
        | inr free ↦ (
          front ∷ rest,
          drop_oldest-room maximum size front rest _ free,
          ([], refl, ground arith, tt),
        )
      ]
  where
    is_full :
        {frames : List Bytes}
        → front ∷ rest ≡ frames
        → (leb maximum (length (front ∷ rest))
            || ltb maximum_queued_bytes ((total (front ∷ rest) + size) % 2 ^ 64))
          ≡ true
        → IsFull maximum size frames
    is_full e full = rw (sym e) (ground arith)

enqueue_accepts :
    (frame : Bytes) (f : Forwarder) (left : List Bytes)
    → 0 < length frame
    → length frame ≤ maximum_queued_bytes
    → drop_oldest f.maximum_queued_frames (length frame) f.frames f.queued_bytes
      ≡ (left, total left)
    → total left + length frame ≤ maximum_queued_bytes
    → enqueue frame f
      ≡ record f { frames = left ++ frame ∷ []; queued_bytes = total left + length frame }
unfolding enqueue
enqueue_accepts frame f left some_byte fits run room =
    let small : (total left + length frame) % 2 ^ 64 ≡ total left + length frame = omega arith in
    rw (run, le→ltb maximum_queued_bytes (length frame) fits, non_empty frame some_byte, small) refl
  where
    non_empty : (bs : Bytes) → 0 < length bs → is_empty bs ≡ false
    non_empty [] h = absurd (omega arith)
    non_empty (b ∷ bs) h = refl

-- A frame of one byte to 16 MiB that comes to a bounded queue is put behind the newest frames of it;
-- the oldest are dropped one by one, each only when the queue was too long or too large for the new
-- frame with it. The queue stays bounded.
pub enqueue_lem :
    (frame : Bytes) (f : Forwarder)
    → IsBounded f
    → 0 < length frame
    → length frame ≤ maximum_queued_bytes
    → (left : List Bytes) × Leaves f.maximum_queued_frames (length frame) f.frames left
      × ((enqueue frame f).frames ≡ left ++ frame ∷ [])
      × IsBounded (enqueue frame f)
enqueue_lem frame f v some_byte fits =
    let (left, run, leaves) =
      drop_oldest_lem f.maximum_queued_frames (length frame) f.frames v.some_frame fits v.bytes in
    let room = leaves.2 in
    let accepted = enqueue_accepts frame f left some_byte fits (rw (v.counted) run) room.1 in
    let sum = total-append left (frame ∷ []) in
    let more = length-append left (frame ∷ []) in
    (
      left,
      leaves,
      rw accepted refl,
      rw accepted (record {
        counted = omega arith;
        bytes = omega arith;
        frames = omega arith;
        some_frame = v.some_frame;
      }),
    )

pub enqueue-IsBounded : (frame : Bytes) (f : Forwarder) → IsBounded f → IsBounded (enqueue frame f)
unfolding enqueue
enqueue-IsBounded [] f v = v
enqueue-IsBounded (b ∷ frame) f v =
    elim (Bool-cases (ltb maximum_queued_bytes (length (b ∷ frame)))) [
      | inl large ↦ rw large v
      | inr fits ↦ (enqueue_lem (b ∷ frame) f v (omega arith) (ground arith)).3
    ]

pub take_frame-IsBounded : (f : Forwarder) → IsBounded f → IsBounded (take_frame f).1
unfolding take_frame
take_frame-IsBounded f v = taken f.frames refl
  where
    taken : (frames : List Bytes) → f.frames ≡ frames → IsBounded (take_frame f).1
    taken [] e = rw (e, take_frame) v
    taken (frame ∷ rest) e =
        let before : total f.frames ≡ length frame + total rest = ap total e in
        let longer : length f.frames ≡ suc (length rest) = ap length e in
        rw (e, take_frame)
          (record {
            counted = omega (arith, v.counted, v.bytes, before);
            bytes = omega (arith, v.bytes, before);
            frames = omega (arith, v.frames, longer);
            some_frame = v.some_frame;
          })

pub queue_dependent-IsBounded :
    (frame : Bytes) (f : Forwarder)
    → IsBounded f
    → length frame ≤ maximum_queued_bytes
    → IsBounded (queue_dependent frame f)
unfolding queue_dependent
queue_dependent-IsBounded frame f v fits =
    let sum = total-append f.frames (frame ∷ []) in
    let more = length-append f.frames (frame ∷ []) in
    ground (arith, v.counted, v.bytes, v.frames, v.some_frame)

pub only-IsBounded :
    (frame : Bytes) (f : Forwarder)
    → IsBounded f
    → length frame ≤ maximum_queued_bytes
    → IsBounded (only frame f)
only-IsBounded frame f v h = record {
  counted = omega arith;
  bytes = omega arith;
  frames = v.some_frame;
  some_frame = v.some_frame;
}
