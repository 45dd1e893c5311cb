-- ===== src/Bridge/Media/Tests.antt =====
-- Runs of the frame queues, and the theorems at concrete inputs (tests/media_forwarder_tests.cpp).
use aa2acp.Base.{◌≡◌, refl, true, false, List, [], ◌∷◌, ◌++◌, arith, Bytes}
use aa2acp.Bridge.Media.{
  Forwarder, drop_oldest, enqueue, split_nalu, nalus_loop, nalus, VideoForwarder, new_video,
  scan_nalus, dump_frame, push, config, framed, new_audio, push_audio,
}
use aa2acp.Bridge.Media.Queue.{IsBounded, Leaves, enqueue_lem}
use aa2acp.Bridge.Media.Nalus.{join, nalus-join}
use aa2acp.Bridge.Media.Video.{IsSound, fresh, pushed, Reach-IsSound, push-join}

abbrev small_queue : Forwarder
small_queue = record {
  maximum_queued_frames = 2;
  frames = (1 ∷ []) ∷ (2 ∷ 2 ∷ []) ∷ [];
  queued_bytes = 3;
}

small_queue-IsBounded : IsBounded small_queue
small_queue-IsBounded = record {
  counted = refl;
  bytes = omega arith;
  frames = omega arith;
  some_frame = omega arith;
}

oldest_dropped :
    enqueue (3 ∷ []) small_queue
    ≡ record small_queue { frames = (2 ∷ 2 ∷ []) ∷ (3 ∷ []) ∷ []; queued_bytes = 3 }
unfolding enqueue drop_oldest
oldest_dropped = refl

abbrev access_unit : Bytes
access_unit = 0 ∷ 0 ∷ 0 ∷ 1 ∷ 0x67 ∷ 9 ∷ 0 ∷ 0 ∷ 1 ∷ 0x68 ∷ 0 ∷ 0 ∷ 0 ∷ 1 ∷ 0x65 ∷ 7 ∷ []

mixed_codes : nalus access_unit ≡ (0x67 ∷ 9 ∷ []) ∷ (0x68 ∷ []) ∷ (0x65 ∷ 7 ∷ []) ∷ []
unfolding nalus nalus_loop split_nalu
mixed_codes = refl

abbrev with_keyframe : VideoForwarder
with_keyframe = record (new_video false) {
  base = record { maximum_queued_frames = 600; frames = access_unit ∷ []; queued_bytes = 16 };
  keyframe = access_unit;
  sps = 0x67 ∷ 9 ∷ [];
  pps = 0x68 ∷ [];
  received_video_count = 1;
}

keyframe_kept : push (λ bytes. true) access_unit (new_video false) ≡ with_keyframe
unfolding push nalus nalus_loop split_nalu scan_nalus dump_frame
keyframe_kept = refl

config_sent : config with_keyframe ≡ 0 ∷ 0 ∷ 0 ∷ 1 ∷ 0x67 ∷ 9 ∷ 0 ∷ 0 ∷ 0 ∷ 1 ∷ 0x68 ∷ []
unfolding config
config_sent = refl

framed_bytes : framed (5 ∷ 6 ∷ []) ≡ 0 ∷ 0 ∷ 0 ∷ 2 ∷ 5 ∷ 6 ∷ []
unfolding framed
framed_bytes = refl

audio_counted : (push_audio (1 ∷ []) new_audio).received_packets ≡ 1
unfolding push_audio enqueue drop_oldest
audio_counted = refl

abbrev units : List Bytes
units = (0x67 ∷ 9 ∷ []) ∷ (0x65 ∷ 7 ∷ []) ∷ []

enqueue_lem_example :
    (left : List Bytes) × Leaves 2 1 small_queue.frames left
    × ((enqueue (3 ∷ []) small_queue).frames ≡ left ++ (3 ∷ []) ∷ [])
    × IsBounded (enqueue (3 ∷ []) small_queue)
enqueue_lem_example =
    enqueue_lem (3 ∷ []) small_queue small_queue-IsBounded (omega arith) (omega arith)

nalus-join_example : nalus (0 ∷ 0 ∷ 0 ∷ 1 ∷ 0x67 ∷ 9 ∷ 0 ∷ 0 ∷ 0 ∷ 1 ∷ 0x65 ∷ 7 ∷ []) ≡ units
nalus-join_example =
    nalus-join units ((omega arith, (refl, (refl, tt))), ((omega arith, (refl, (refl, tt))), tt))

Reach-IsSound_example : IsSound (push (λ bytes. true) access_unit (new_video false))
Reach-IsSound_example = Reach-IsSound (pushed (λ bytes. true) access_unit (fresh false))

push-join_example :
    ((push (λ bytes. true) (join units) with_keyframe).base.frames ≡ join units ∷ [])
    × ((push (λ bytes. true) (join units) with_keyframe).keyframe ≡ join units)
    × ((push (λ bytes. true) (join units) with_keyframe).sps ≡ 0x67 ∷ 9 ∷ [])
    × ((push (λ bytes. true) (join units) with_keyframe).pps ≡ 0x68 ∷ [])
push-join_example =
    push-join (λ bytes. true) units with_keyframe
      ((omega arith, (refl, (refl, tt))), ((omega arith, (refl, (refl, tt))), tt)) refl
      (omega arith)
