-- ===== src/Bridge/Ipc.antt =====
-- The frames between the daemon and its CarPlay worker (src/bridge/carplay_ipc.cpp): the loops over a
-- socket, the receiver of frames, and the writer's queue.
use aa2acp.Base.{
  ℕ, zero, suc, ◌+◌, ◌-◌, ◌*◌, ◌/◌, ◌%◌, ◌^◌, min, Bool, true, false, not, ◌&&◌, ◌||◌, List, [],
  ◌∷◌, ◌++◌, Option, none, some, ltb, leb, ◌==◌, if◌then◌else◌, length, take, drop, get_or,
  is_empty, Bytes,
}
use aa2acp.Bridge.Media.{minus}
pub mod Rounds
pub mod Frames
pub mod Transfer
pub mod Queue
mod Tests

abbrev pub maximum_frame_size : ℕ
maximum_frame_size = 4 * 1024 * 1024

abbrev pub maximum_queued_frames : ℕ
maximum_queued_frames = 256

abbrev pub maximum_ipc_bytes : ℕ
maximum_ipc_bytes = 16 * 1024 * 1024

-- What a round of `send_all` or `receive_all` comes to: a stop was requested, the deadline is over,
-- poll was interrupted, failed or saw nothing yet, the peer hung up, bytes were moved, the call is to
-- be repeated, or it failed.
pub data Round {ℓ} (A : Type ℓ) : Type ℓ where
  stopping expired interrupted poll_failed idle hung_up again refused : Round A
  moved : A → Round A

-- `send_all`, over the bytes that are left to send: its answer, the bytes that were sent, and the
-- rounds that were not needed. The outer option says that the rounds were not enough. A positive count
-- of `send` is at most what it was given.
unfoldable pub send_all : List (Round ℕ) → Bytes → Option (Bool × Bytes × List (Round ℕ))
send_all rounds [] = some (true, [], rounds)
send_all [] (b ∷ bytes) = none
send_all (stopping ∷ rounds) (b ∷ bytes) = some (false, [], rounds)
send_all (expired ∷ rounds) (b ∷ bytes) = some (false, [], rounds)
send_all (poll_failed ∷ rounds) (b ∷ bytes) = some (false, [], rounds)
send_all (hung_up ∷ rounds) (b ∷ bytes) = some (false, [], rounds)
send_all (refused ∷ rounds) (b ∷ bytes) = some (false, [], rounds)
send_all (interrupted ∷ rounds) (b ∷ bytes) = send_all rounds (b ∷ bytes)
send_all (idle ∷ rounds) (b ∷ bytes) = send_all rounds (b ∷ bytes)
send_all (again ∷ rounds) (b ∷ bytes) = send_all rounds (b ∷ bytes)
send_all (moved count ∷ rounds) (b ∷ bytes) = elim (send_all rounds (drop count (b ∷ bytes))) [
  | none ↦ none
  | some (ok, sent, left) ↦ some (ok, take count (b ∷ bytes) ++ sent, left)
]

-- `receive_all`, for a number of bytes that are still to come: its answer, and the bytes that came.
-- `recv` gives at most what it was asked for.
unfoldable pub receive_all : List (Round Bytes) → ℕ → Option (Bool × Bytes × List (Round Bytes))
receive_all rounds zero = some (true, [], rounds)
receive_all [] (suc size) = none
receive_all (stopping ∷ rounds) (suc size) = some (false, [], rounds)
receive_all (expired ∷ rounds) (suc size) = some (false, [], rounds)
receive_all (poll_failed ∷ rounds) (suc size) = some (false, [], rounds)
receive_all (hung_up ∷ rounds) (suc size) = some (false, [], rounds)
receive_all (refused ∷ rounds) (suc size) = some (false, [], rounds)
receive_all (interrupted ∷ rounds) (suc size) = receive_all rounds (suc size)
receive_all (idle ∷ rounds) (suc size) = receive_all rounds (suc size)
receive_all (again ∷ rounds) (suc size) = receive_all rounds (suc size)
receive_all (moved bytes ∷ rounds) (suc size) =
    let got = take (suc size) bytes in
    elim (receive_all rounds (suc size - length got)) [
      | none ↦ none
      | some (ok, received, left) ↦ some (ok, got ++ received, left)
    ]

-- The header of a frame in `FrameSocketWriter::write`.
unfoldable pub frame_header : Bytes → Bytes
frame_header frame =
    length frame / 2 ^ 24 % 256
    ∷ length frame / 2 ^ 16 % 256
    ∷ length frame / 2 ^ 8 % 256
    ∷ length frame % 256
    ∷ []

-- Both calls of `send_all` for a frame, and all bytes that they send.
unfoldable pub write_frame : List (Round ℕ) → Bytes → Option (Bool × Bytes × List (Round ℕ))
write_frame rounds frame = elim (send_all rounds (frame_header frame)) [
  | none ↦ none
  | some (false, sent, left) ↦ some (false, sent, left)
  | some (true, sent, left) ↦ elim (send_all left frame) [
    | none ↦ none
    | some (ok, behind, left') ↦ some (ok, sent ++ behind, left')
  ]
]

-- The size that a header says.
abbrev pub header_size : Bytes → ℕ
header_size header =
    get_or header 0 0 * 2 ^ 24
    + get_or header 1 0 * 2 ^ 16
    + get_or header 2 0 * 2 ^ 8
    + get_or header 3 0

-- The inner loop of `FrameSocketReceiver::receive` over the rounds of `receive_all`: the frames that the
-- callback gets until the loop ends. A stop that its own condition sees first ends it as a `stopping`
-- round does. Fuel; a pass takes a round at least.
unfoldable pub receive_frames : ℕ → List (Round Bytes) → Option (List Bytes)
receive_frames zero rounds = none
receive_frames (suc fuel) rounds =
    let later = receive_frames fuel in
    elim (receive_all rounds 4) [
      | none ↦ none
      | some (false, header, left) ↦ some []
      | some (true, header, left) ↦
          if header_size header == 0 || ltb maximum_frame_size (header_size header)
          then some []
          else elim (receive_all left (header_size header)) [
            | none ↦ none
            | some (false, frame, left') ↦ some []
            | some (true, frame, left') ↦ elim (later left') [
              | none ↦ none
              | some frames ↦ some (frame ∷ frames)
            ]
          ]
    ]

-- The queue of FrameSocketWriter.
pub record Writer : Type 0 where
  pub frames : List Bytes
  pub queued_bytes : ℕ

abbrev has_room : Bytes → Writer → Bool
has_room frame w =
    ltb (length w.frames) maximum_queued_frames
    && leb ((w.queued_bytes + length frame) % 2 ^ 64) maximum_ipc_bytes

unfoldable pub send : Bytes → Writer → Bool × Writer
send frame w =
    if is_empty frame
      || ltb maximum_frame_size (length frame)
      || ltb maximum_ipc_bytes (length frame)
    then (false, w)
    else if not (has_room frame w)
    then (false, w)
    else (
      true,
      record w {
        frames = w.frames ++ frame ∷ [];
        queued_bytes = (w.queued_bytes + length frame) % 2 ^ 64;
      },
    )

-- The frame that a round of `write` takes from the queue.
unfoldable pub take_front : Writer → Option Bytes × Writer
take_front w = elim w.frames [
  | [] ↦ (none, w)
  | frame ∷ rest ↦
      (some frame, record w { frames = rest; queued_bytes = minus w.queued_bytes (length frame) })
]

-- `requeue`, when no stop was requested.
unfoldable pub requeue : Bytes → Writer → Writer
requeue frame w =
    if has_room frame w
    then record w {
      frames = frame ∷ w.frames;
      queued_bytes = (w.queued_bytes + length frame) % 2 ^ 64;
    }
    else w
