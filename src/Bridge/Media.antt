-- ===== src/Bridge/Media.antt =====
-- The bounded frame queues between Android Auto and the CarPlay worker
-- (src/bridge/media_forwarders.cpp, include/aa2acp/bridge/media_forwarders.hpp). One definition is
-- one section under the mutex.
use aa2acp.Base.{
  eqb, ℕ, zero, suc, ◌+◌, ◌-◌, ◌*◌, ◌/◌, ◌%◌, ◌^◌, min, Bool, true, false, not, ◌&&◌, ◌||◌, List,
  [], ◌∷◌, ◌++◌, Option, none, some, ltb, leb, ◌==◌, if◌then◌else◌, length, take, drop, is_empty,
  Bytes,
}
pub mod Queue
pub mod Nalus
pub mod Push
pub mod Video
mod Tests

abbrev pub maximum_queued_bytes : ℕ
maximum_queued_bytes = 16 * 1024 * 1024

-- The queue that MediaSocketForwarder shares with its thread.
pub record Forwarder : Type 0 where
  pub maximum_queued_frames : ℕ
  pub frames : List Bytes
  pub queued_bytes : ℕ

-- `queued_bytes_ -= size` on a `std::size_t` of 64 bits.
abbrev pub minus : ℕ → ℕ → ℕ
minus a b = (a + 2 ^ 64 - b % 2 ^ 64) % 2 ^ 64

-- The loop of `enqueue` that drops the oldest frames: what is left of the queue.
unfoldable pub drop_oldest : ℕ → ℕ → List Bytes → ℕ → List Bytes × ℕ
drop_oldest maximum size [] queued = ([], queued)
drop_oldest maximum size (front ∷ rest) queued =
    if leb maximum (length (front ∷ rest)) || ltb maximum_queued_bytes ((queued + size) % 2 ^ 64)
    then drop_oldest maximum size rest (minus queued (length front))
    else (front ∷ rest, queued)

unfoldable pub enqueue : Bytes → Forwarder → Forwarder
enqueue frame f =
    let (left, queued) =
      drop_oldest f.maximum_queued_frames (length frame) f.frames f.queued_bytes in
    if is_empty frame || ltb maximum_queued_bytes (length frame)
    then f
    else record f { frames = left ++ frame ∷ []; queued_bytes = (queued + length frame) % 2 ^ 64 }

-- The thread's section in `forward`: the frame that it goes on to send.
unfoldable pub take_frame : Forwarder → Option Bytes × Forwarder
take_frame f = elim f.frames [
  | [] ↦ (none, f)
  | frame ∷ rest ↦
      (some frame, record f { frames = rest; queued_bytes = minus f.queued_bytes (length frame) })
]

-- What `send_frame` writes to the socket: the size in four bytes, and the frame.
unfoldable pub framed : Bytes → Bytes
framed frame =
    let size = length frame in
    size / 2 ^ 24 % 256 ∷ size / 2 ^ 16 % 256 ∷ size / 2 ^ 8 % 256 ∷ size % 256 ∷ frame

-- The start codes that `nalus` looks for.
abbrev pub is_three : Bytes → Bool
is_three (a ∷ b ∷ c ∷ rest) = a == 0 && b == 0 && c == 1
is_three _ = false

abbrev pub is_four : Bytes → Bool
is_four (a ∷ b ∷ c ∷ d ∷ rest) = a == 0 && b == 0 && c == 0 && d == 1
is_four _ = false

-- The inner loop of `nalus`: the unit up to the next start code, and what begins there.
unfoldable pub split_nalu : Bytes → Bytes × Bytes
split_nalu (a ∷ b ∷ c ∷ rest) =
    let (unit, after) = split_nalu (b ∷ c ∷ rest) in
    if is_four (a ∷ b ∷ c ∷ rest) || is_three (a ∷ b ∷ c ∷ rest)
    then ([], a ∷ b ∷ c ∷ rest)
    else (a ∷ unit, after)
split_nalu bytes = (bytes, [])

-- The loop of `nalus` on fuel, over the input behind `offset`; a round takes a byte at least.
unfoldable pub nalus_loop : ℕ → Bytes → List Bytes
nalus_loop zero input = []
nalus_loop (suc fuel) input =
    let (unit, after) = split_nalu (drop (if is_four input then 4 else 3) input) in
    let skipped = nalus_loop fuel (drop 1 input) in
    let later = nalus_loop fuel after in
    if ltb (length input) 3
    then []
    else if not (is_three input) && not (is_four input)
    then skipped
    else if is_empty unit
    then later
    else unit ∷ later

unfoldable pub nalus : Bytes → List Bytes
nalus input = nalus_loop (suc (length input)) input

-- VideoSocketForwarder. `dumping` says whether `dump_fd_` is open.
pub record VideoForwarder : Type 0 where
  pub base : Forwarder
  pub keyframe : Bytes
  pub sps : Bytes
  pub pps : Bytes
  pub received_video_count : ℕ
  pub dump_bytes : ℕ
  pub dumping : Bool

abbrev pub new_video : Bool → VideoForwarder
new_video dumping = record {
  base = record { maximum_queued_frames = 600; frames = []; queued_bytes = 0 };
  keyframe = [];
  sps = [];
  pps = [];
  received_video_count = 0;
  dump_bytes = 0;
  dumping = dumping;
}

abbrev pub nalu_type : Bytes → ℕ
nalu_type [] = 0
nalu_type (b ∷ unit) = b % 32

-- The loop over the units in `VideoSocketForwarder::push`: the parameter sets, and whether there is a
-- keyframe.
unfoldable pub scan_nalus : List Bytes → Bool → VideoForwarder → Bool × VideoForwarder
scan_nalus [] keyframe v = (keyframe, v)
scan_nalus (unit ∷ rest) keyframe v =
    if nalu_type unit == 7
    then scan_nalus rest keyframe (record v { sps = unit })
    else if nalu_type unit == 8
    then scan_nalus rest keyframe (record v { pps = unit })
    else if nalu_type unit == 5
    then scan_nalus rest true v
    else scan_nalus rest keyframe v

abbrev pub maximum_dump_bytes : ℕ
maximum_dump_bytes = 64 * 1024 * 1024

-- The capture to a file; `written` is the answer of `write_dump`, which closes the file if it is
-- false.
unfoldable pub dump_frame : (Bytes → Bool) → Bytes → VideoForwarder → VideoForwarder
dump_frame written frame v =
    let count = min (length frame) (maximum_dump_bytes - v.dump_bytes) in
    if not (v.dumping && ltb v.dump_bytes maximum_dump_bytes)
    then v
    else if written (take count frame)
    then record v { dump_bytes = v.dump_bytes + count }
    else record v { dumping = false }

-- A frame without a keyframe is queued if there is room, else it is lost.
unfoldable pub queue_dependent : Bytes → Forwarder → Forwarder
queue_dependent frame f =
    if ltb (length f.frames) f.maximum_queued_frames
      && leb ((f.queued_bytes + length frame) % 2 ^ 64) maximum_queued_bytes
    then record f {
      frames = f.frames ++ frame ∷ [];
      queued_bytes = (f.queued_bytes + length frame) % 2 ^ 64;
    }
    else f

abbrev pub only : Bytes → Forwarder → Forwarder
only frame f = record f { frames = frame ∷ []; queued_bytes = length frame }

unfoldable pub push : (Bytes → Bool) → Bytes → VideoForwarder → VideoForwarder
push written frame v =
    let (keyframe, scanned) = scan_nalus (nalus frame) false v in
    let counted = record scanned { received_video_count = scanned.received_video_count + 1 } in
    let dumped = dump_frame written frame counted in
    if is_empty frame || ltb maximum_queued_bytes (length frame)
    then v
    else if not keyframe
    then record dumped { base = queue_dependent frame dumped.base }
    else record dumped { keyframe = frame; base = only frame dumped.base }

-- The SPS and the PPS as `on_client_connected` sends them, each behind a start code.
unfoldable pub config : VideoForwarder → Bytes
config v =
    if is_empty v.sps || is_empty v.pps
    then []
    else (0 ∷ 0 ∷ 0 ∷ 1 ∷ v.sps) ++ (0 ∷ 0 ∷ 0 ∷ 1 ∷ v.pps)

-- The queue as `on_client_connected` leaves it.
unfoldable pub rewind : VideoForwarder → VideoForwarder
rewind v =
    if is_empty v.keyframe
    then record v { base = record (v.base) { frames = []; queued_bytes = 0 } }
    else elim v.base.frames [
      | [] ↦ record v { base = only v.keyframe v.base }
      | front ∷ rest ↦
          if eqb front v.keyframe then v else record v { base = only v.keyframe v.base }
    ]

-- `on_client_connected`: its answer, and the forwarder it leaves. `sent` is the answer of
-- `send_frame`.
unfoldable pub on_client_connected : (Bytes → Bool) → VideoForwarder → Bool × VideoForwarder
on_client_connected sent v = (is_empty (config v) || sent (framed (config v)), rewind v)

-- AudioSocketForwarder is a MediaSocketForwarder that keeps 100 frames and counts packets.
pub record AudioForwarder : Type 0 where
  pub base : Forwarder
  pub received_packets : ℕ

abbrev pub new_audio : AudioForwarder
new_audio = record {
  base = record { maximum_queued_frames = 100; frames = []; queued_bytes = 0 };
  received_packets = 0;
}

unfoldable pub push_audio : Bytes → AudioForwarder → AudioForwarder
push_audio pcm a =
    if is_empty pcm
    then a
    else record a { received_packets = a.received_packets + 1; base = enqueue pcm a.base }
