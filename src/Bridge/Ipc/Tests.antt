-- ===== src/Bridge/Ipc/Tests.antt =====
-- Runs of the frame sockets, and their theorems at concrete inputs (tests/carplay_ipc_tests.cpp).
use aa2acp.Base.{suc, List, length, Bytes, ◌≡◌, refl, true, false, [], ◌∷◌, ◌++◌, some, arith}
use aa2acp.Bridge.Ipc.{
  interrupted, idle, hung_up, again, moved, send_all, receive_all, frame_header, write_frame,
  receive_frames, Round, Writer, send, take_front,
}
use aa2acp.Bridge.Ipc.Rounds.{done, waited, piece}
use aa2acp.Bridge.Ipc.Frames.{cut_header, carried, Carries, receive_frames-write_frame}

interrupted_send :
    send_all (moved 2 ∷ interrupted ∷ moved 1 ∷ hung_up ∷ []) (1 ∷ 2 ∷ 3 ∷ 4 ∷ [])
    ≡ some (false, 1 ∷ 2 ∷ 3 ∷ [], [])
unfolding send_all
interrupted_send = refl

received_in_parts :
    receive_all (idle ∷ moved (1 ∷ []) ∷ again ∷ moved (2 ∷ 3 ∷ 4 ∷ []) ∷ []) 3
    ≡ some (true, 1 ∷ 2 ∷ 3 ∷ [], [])
unfolding receive_all
received_in_parts = refl

empty_frame_ends :
    receive_frames 9 (moved (0 ∷ 0 ∷ 0 ∷ 1 ∷ []) ∷ moved (7 ∷ []) ∷ moved (0 ∷ 0 ∷ 0 ∷ 0 ∷ []) ∷ [])
    ≡ some ((7 ∷ []) ∷ [])
unfolding receive_frames receive_all
empty_frame_ends = refl

abbrev full_writer : Writer
full_writer = record { frames = (1 ∷ []) ∷ (2 ∷ 2 ∷ []) ∷ []; queued_bytes = 3 }

frame_queued :
    send (5 ∷ []) full_writer
    ≡ (true, record { frames = (1 ∷ []) ∷ (2 ∷ 2 ∷ []) ∷ (5 ∷ []) ∷ []; queued_bytes = 4 })
unfolding send
frame_queued = refl

front_taken :
    take_front full_writer
    ≡ (some (1 ∷ []), record { frames = (2 ∷ 2 ∷ []) ∷ []; queued_bytes = 2 })
unfolding take_front
front_taken = refl

frame_written :
    write_frame (moved 3 ∷ moved 1 ∷ moved 2 ∷ []) (8 ∷ 9 ∷ [])
    ≡ some (true, (0 ∷ 0 ∷ 0 ∷ 2 ∷ []) ++ (8 ∷ 9 ∷ []), [])
unfolding write_frame frame_header send_all
frame_written = refl

-- The frame in three pieces, with a wait, and then a cut in the next header.
abbrev sample_rounds : List (Round Bytes)
sample_rounds =
    moved (0 ∷ 0 ∷ 0 ∷ 2 ∷ [])
    ∷ moved (8 ∷ [])
    ∷ idle
    ∷ moved (9 ∷ [])
    ∷ moved (0 ∷ [])
    ∷ hung_up
    ∷ []

sample_carried : Carries sample_rounds ((8 ∷ 9 ∷ []) ∷ [])
sample_carried =
    carried (moved 3 ∷ moved 1 ∷ moved 2 ∷ []) [] (0 ∷ 0 ∷ 0 ∷ 2 ∷ []) (8 ∷ 9 ∷ [])
      (omega arith, omega arith) frame_written refl (piece 0 (0 ∷ 0 ∷ 2 ∷ []) done)
      (piece 8 [] (waited (piece 9 [] done))) (cut_header (piece 0 [] done) (omega arith) tt)

receive_frames-write_frame_example :
    receive_frames (suc (length sample_rounds)) sample_rounds ≡ some ((8 ∷ 9 ∷ []) ∷ [])
receive_frames-write_frame_example =
    receive_frames-write_frame sample_rounds ((8 ∷ 9 ∷ []) ∷ []) sample_carried
