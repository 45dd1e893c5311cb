-- ===== src/Bridge/Media/Video.antt =====
-- The video queue: keyframes, parameter sets, clients that join late
-- (VideoSocketForwarder in src/bridge/media_forwarders.cpp).
use aa2acp.Base.{
  eqb, eqb→≡, ◌+◌, ◌%◌, ◌^◌, ◌≤◌, ◌<◌, ◌≡◌, ◌⊎◌, inl, inr, refl, ap, ◌∙◌, Bool, true, false, ◌&&◌,
  List, [], ◌∷◌, ◌++◌, arith, ltb, leb, if◌then◌else◌, length, All, Bytes, Bool-cases,
}
use aa2acp.Bridge.Media.{
  maximum_queued_bytes, maximum_dump_bytes, Forwarder, take_frame, nalus, VideoForwarder, new_video,
  queue_dependent, only, push, rewind, on_client_connected,
}
use aa2acp.Bridge.Media.Queue.{
  total, IsBounded, take_frame-IsBounded, queue_dependent-IsBounded, only-IsBounded,
}
use aa2acp.Bridge.Media.Nalus.{IsUnit, join, nalus-join}
use aa2acp.Bridge.Media.Push.{last_of, has_type, push_lem, push_refused, size_cases}

-- The queue is bounded, the keyframe fits into it, and the capture keeps its limit.
pub record IsSound (v : VideoForwarder) : Type 0 where
  pub base : IsBounded v.base
  pub keyframe : length v.keyframe ≤ maximum_queued_bytes
  pub dump : v.dump_bytes ≤ maximum_dump_bytes

push-IsSound :
    (written : Bytes → Bool) (frame : Bytes) (v : VideoForwarder)
    → IsSound v
    → IsSound (push written frame v)
push-IsSound written frame v s = elim (size_cases (length frame)) [
  | inl bad ↦ rw (push_refused written frame v bad) s
  | inr (some_byte, fits) ↦
      let (bytes, dumping, run, kept) = push_lem written frame v some_byte fits in
      rw run (record {
        base = chosen (has_type 5 (nalus frame)) fits;
        keyframe = ground (arith, s.keyframe);
        dump = kept s.dump;
      })
]
  where
    chosen :
        (key : Bool)
        → length frame ≤ maximum_queued_bytes
        → IsBounded (if key then only frame v.base else queue_dependent frame v.base)
    chosen true fits = only-IsBounded frame v.base s.base fits
    chosen false fits = queue_dependent-IsBounded frame v.base s.base fits

-- How a client that connects finds the queue.
rewind_cases :
    (v : VideoForwarder)
    → ((v.keyframe ≡ [])
        × (rewind v ≡ record v { base = record (v.base) { frames = []; queued_bytes = 0 } }))
      ⊎ (rewind v ≡ record v { base = only v.keyframe v.base })
      ⊎ ((rest : List Bytes) × (v.base.frames ≡ v.keyframe ∷ rest) × (rewind v ≡ v))
unfolding rewind
rewind_cases v = found v.keyframe v.base.frames refl refl
  where
    found :
        (keyframe : Bytes) (frames : List Bytes)
        → v.keyframe ≡ keyframe
        → v.base.frames ≡ frames
        → ((v.keyframe ≡ [])
            × (rewind v ≡ record v { base = record (v.base) { frames = []; queued_bytes = 0 } }))
          ⊎ (rewind v ≡ record v { base = only v.keyframe v.base })
          ⊎ ((rest : List Bytes) × (v.base.frames ≡ v.keyframe ∷ rest) × (rewind v ≡ v))
    found [] frames e h = inl (e, rw (e, rewind) refl)
    found (k ∷ keyframe) [] e h = inr (inl (ground (arith, e, h)))
    found (k ∷ keyframe) (front ∷ rest) e h = elim (Bool-cases (eqb front v.keyframe)) [
      | inl same ↦ inr (
          inr (
            rest,
            h ∙ ap (λ x. x ∷ rest) (eqb→≡ front v.keyframe same),
            ground (arith, e, h, same),
          ))
      | inr other ↦ inr (inl (ground (arith, e, h, other)))
    ]

rewind-IsSound : (v : VideoForwarder) → IsSound v → IsSound (rewind v)
rewind-IsSound v s = elim (rewind_cases v) [
  | inl (none_yet, e) ↦ rw e (record {
    base = record {
      counted = refl;
      bytes = omega arith;
      frames = omega arith;
      some_frame = s.base.some_frame;
    };
    keyframe = s.keyframe;
    dump = s.dump;
  })
  | inr (inl e) ↦ rw e (record {
    base = only-IsBounded v.keyframe v.base s.base s.keyframe;
    keyframe = s.keyframe;
    dump = s.dump;
  })
  | inr (inr (rest, front, e)) ↦ rw e s
]

-- What the threads do to a forwarder, in any order.
pub data Reach : VideoForwarder → Type 0 where
  fresh : (dumping : Bool) → Reach (new_video dumping)
  pushed :
      {v : VideoForwarder} (written : Bytes → Bool) (frame : Bytes)
      → Reach v
      → Reach (push written frame v)
  taken : {v : VideoForwarder} → Reach v → Reach (record v { base = (take_frame v.base).1 })
  connected :
      {v : VideoForwarder} (sent : Bytes → Bool) → Reach v → Reach (on_client_connected sent v).1

new_video-IsSound : (dumping : Bool) → IsSound (new_video dumping)
new_video-IsSound dumping = record {
  base = record {
    counted = refl;
    bytes = omega arith;
    frames = omega arith;
    some_frame = omega arith;
  };
  keyframe = omega arith;
  dump = omega arith;
}

-- In any order of pushed access units, frames taken by the thread and clients that connect, the video
-- queue's byte count is the sum of its frames, it has at most 16 MiB and no more frames than its
-- maximum, and the capture at most 64 MiB.
pub Reach-IsSound : {v : VideoForwarder} → Reach v → IsSound v
unfolding on_client_connected
Reach-IsSound (fresh dumping) = new_video-IsSound dumping
Reach-IsSound (pushed {v = v} written frame r) = push-IsSound written frame v (Reach-IsSound r)
Reach-IsSound (taken {v = v} r) =
    let s = Reach-IsSound r in
    record { base = take_frame-IsBounded v.base s.base; keyframe = s.keyframe; dump = s.dump }
Reach-IsSound (connected {v = v} sent r) = rewind-IsSound v (Reach-IsSound r)

-- An access unit of one byte to 16 MiB that is made of well-formed units with a keyframe among them
-- becomes the whole queue and the kept keyframe, and its last SPS and PPS, if any, are kept.
pub push-join :
    (written : Bytes → Bool) (units : List Bytes) (v : VideoForwarder)
    → All IsUnit units
    → has_type 5 units ≡ true
    → length (join units) ≤ maximum_queued_bytes
    → ((push written (join units) v).base.frames ≡ join units ∷ [])
      × ((push written (join units) v).keyframe ≡ join units)
      × ((push written (join units) v).sps ≡ last_of 7 units v.sps)
      × ((push written (join units) v).pps ≡ last_of 8 units v.pps)
push-join written [] v valid key fits = absurd cc
push-join written (unit ∷ units) v valid key fits =
    let (bytes, dumping, run, kept) = push_lem written (join (unit ∷ units)) v (omega arith) fits in
    let split = nalus-join (unit ∷ units) valid in rw (run, split, key) (refl, refl, refl, refl)

queue_dependent_cases :
    (frame : Bytes) (f : Forwarder)
    → IsBounded f
    → length frame ≤ maximum_queued_bytes
    → (((length f.frames < f.maximum_queued_frames)
          × (total f.frames + length frame ≤ maximum_queued_bytes))
        × ((queue_dependent frame f).frames ≡ f.frames ++ frame ∷ []))
      ⊎ (((f.maximum_queued_frames ≤ length f.frames)
            ⊎ (maximum_queued_bytes < total f.frames + length frame))
          × (queue_dependent frame f ≡ f))
unfolding queue_dependent
queue_dependent_cases frame f b fits =
    elim (Bool-cases (
      ltb (length f.frames) f.maximum_queued_frames
      && leb ((f.queued_bytes + length frame) % 2 ^ 64) maximum_queued_bytes)) [
        | inl room ↦ inl (ground (arith, b.counted, b.bytes), ground (arith, room))
        | inr full ↦ inr (ground (arith, b.counted, b.bytes), ground (arith, full))
      ]

-- Without a keyframe, a frame of one byte to 16 MiB is queued behind the others exactly if the queue
-- then keeps both its limits; else the queue stays as it is.
pub push_dependent :
    (written : Bytes → Bool) (frame : Bytes) (v : VideoForwarder)
    → IsSound v
    → has_type 5 (nalus frame) ≡ false
    → 0 < length frame
    → length frame ≤ maximum_queued_bytes
    → (((length v.base.frames < v.base.maximum_queued_frames)
          × (total v.base.frames + length frame ≤ maximum_queued_bytes))
        × ((push written frame v).base.frames ≡ v.base.frames ++ frame ∷ []))
      ⊎ (((v.base.maximum_queued_frames ≤ length v.base.frames)
            ⊎ (maximum_queued_bytes < total v.base.frames + length frame))
          × ((push written frame v).base ≡ v.base))
push_dependent written frame v s key some_byte fits =
    let (bytes, dumping, run, kept) = push_lem written frame v some_byte fits in
    rw (run, key) (queue_dependent_cases frame v.base s.base fits)

-- A client that connects finds an empty queue if there was no keyframe yet, and else the queue as it
-- was, if it began with the keyframe, or the keyframe alone.
pub on_client_connected_lem :
    (sent : Bytes → Bool) (v : VideoForwarder)
    → ((v.keyframe ≡ []) × ((on_client_connected sent v).1.base.frames ≡ []))
      ⊎ ((rest : List Bytes) × ((on_client_connected sent v).1.base.frames ≡ v.keyframe ∷ rest)
          × ((rest ≡ []) ⊎ (v.base.frames ≡ v.keyframe ∷ rest)))
unfolding on_client_connected
on_client_connected_lem sent v = elim (rewind_cases v) [
  | inl (none_yet, e) ↦ inl (none_yet, rw e refl)
  | inr (inl e) ↦ inr ([], rw e refl, inl refl)
  | inr (inr (rest, front, e)) ↦ inr (rest, rw e front, inr front)
]
