-- ===== src/Bridge/Ipc/Queue.antt =====
-- The queue of FrameSocketWriter: a writer that cannot send a frame puts it back
-- (src/bridge/carplay_ipc.cpp).
use aa2acp.Base.{
  none-ne-some, some-injective, ◌+◌, ◌%◌, ◌^◌, ◌≤◌, ◌≡◌, refl, sym, ap, List, [], ◌∷◌, Option, none,
  some, arith, length, length-append, Bytes, lt→ltb, le→leb,
}
use aa2acp.Bridge.Media.{minus}
use aa2acp.Bridge.Media.Queue.{total, total-append}
use aa2acp.Bridge.Ipc.{maximum_queued_frames, maximum_ipc_bytes, Writer, send, take_front, requeue}

-- The count is right, and both bounds are kept.
pub record IsBounded (w : Writer) : Type 0 where
  pub counted : w.queued_bytes ≡ total w.frames
  pub bytes : total w.frames ≤ maximum_ipc_bytes
  pub frames : length w.frames ≤ maximum_queued_frames

send-IsBounded : (frame : Bytes) (w : Writer) → IsBounded w → IsBounded (send frame w).1
unfolding send
send-IsBounded frame w v =
    let sum = total-append w.frames (frame ∷ []) in
    let more = length-append w.frames (frame ∷ []) in
    ground (arith, v.counted, v.bytes, v.frames, sum, more)

-- A bounded queue that gives its oldest frame for sending, and gets it back since the transport failed,
-- is the queue it was.
pub requeue-take_front :
    (w w' : Writer) (frame : Bytes)
    → IsBounded w
    → take_front w ≡ (some frame, w')
    → requeue frame w' ≡ w
unfolding requeue take_front
requeue-take_front w w' frame v e = taken w.frames refl
  where
    taken : (frames : List Bytes) → w.frames ≡ frames → requeue frame w' ≡ w
    taken [] h =
        let no : Path (Option Bytes × Writer) (none, w) (some frame, w') =
          rw (h, take_front) at e in
        absurd (none-ne-some frame (ap (λ (o : Option Bytes × Writer). o.0) no))
    taken (front ∷ rest) h =
        let same : Path (Option Bytes × Writer)
            (
              some front,
              record w { frames = rest; queued_bytes = minus w.queued_bytes (length front) },
            )
            (some frame, w') =
          rw (h, take_front) at e in
        let first : front ≡ frame =
          some-injective _ _ (ap (λ (o : Option Bytes × Writer). o.0) same) in
        let after = ap (λ (o : Option Bytes × Writer). o.1) same in
        let sum = ap total h in
        let more = ap length h in
        let restored : (minus w.queued_bytes (length front) + length front) % 2 ^ 64
            ≡ w.queued_bytes =
          omega (arith, v.counted, v.bytes, sum) in
        rw
          (
            sym first,
            sym after,
            restored,
            lt→ltb (length rest) maximum_queued_frames (omega arith),
            le→leb w.queued_bytes maximum_ipc_bytes (omega arith),
          )
          (ap (λ x. record w { frames = x }) (sym h))
