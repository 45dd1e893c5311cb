-- ===== src/Bridge/Media/Push.antt =====
-- What `VideoSocketForwarder::push` does with an access unit (src/bridge/media_forwarders.cpp).
use aa2acp.Base.{
  ℕ, zero, suc, ◌+◌, ◌≤◌, ◌<◌, ◌≡◌, ◌⊎◌, inl, inr, refl, Bool, true, false, ◌||◌, List, [], ◌∷◌,
  arith, ltb, ◌==◌, if◌then◌else◌, length, Bytes, Bool-cases, le→ltb,
}
use aa2acp.Bridge.Media.{
  maximum_queued_bytes, maximum_dump_bytes, nalus, VideoForwarder, nalu_type, scan_nalus,
  dump_frame, queue_dependent, only, push,
}

-- The last unit of a type, if there is one.
abbrev pub last_of : ℕ → List Bytes → Bytes → Bytes
last_of type [] default = default
last_of type (unit ∷ units) default =
    last_of type units (if nalu_type unit == type then unit else default)

abbrev pub has_type : ℕ → List Bytes → Bool
has_type type [] = false
has_type type (unit ∷ units) = nalu_type unit == type || has_type type units

scan_nalus_lem :
    (units : List Bytes) (keyframe : Bool) (v : VideoForwarder)
    → scan_nalus units keyframe v ≡ (
      keyframe || has_type 5 units,
      record v { sps = last_of 7 units v.sps; pps = last_of 8 units v.pps },
    )
unfolding scan_nalus
scan_nalus_lem [] true v = refl
scan_nalus_lem [] false v = refl
scan_nalus_lem (unit ∷ units) keyframe v = ground (
  arith,
  scan_nalus_lem units keyframe (record v { sps = unit }),
  scan_nalus_lem units keyframe (record v { pps = unit }),
  scan_nalus_lem units true v,
  scan_nalus_lem units keyframe v,
)

dump_frame_lem :
    (written : Bytes → Bool) (frame : Bytes) (v : VideoForwarder)
    → (bytes : ℕ) × (dumping : Bool) × (dump_frame written frame v
        ≡ record v { dump_bytes = bytes; dumping = dumping })
      × (v.dump_bytes ≤ maximum_dump_bytes → bytes ≤ maximum_dump_bytes)
unfolding dump_frame
dump_frame_lem written frame v = (
  (dump_frame written frame v).dump_bytes,
  (dump_frame written frame v).dumping,
  ground arith,
  λ h. ground arith,
)

-- What `push` does with a frame that it does not refuse, but for the dump.
pub push_lem :
    (written : Bytes → Bool) (frame : Bytes) (v : VideoForwarder)
    → 0 < length frame
    → length frame ≤ maximum_queued_bytes
    → (bytes : ℕ) × (dumping : Bool) × (push written frame v ≡ record v {
      base = (if has_type 5 (nalus frame) then only frame v.base else queue_dependent frame v.base);
      keyframe = (if has_type 5 (nalus frame) then frame else v.keyframe);
      sps = last_of 7 (nalus frame) v.sps;
      pps = last_of 8 (nalus frame) v.pps;
      received_video_count = v.received_video_count + 1;
      dump_bytes = bytes;
      dumping = dumping;
    })
      × (v.dump_bytes ≤ maximum_dump_bytes → bytes ≤ maximum_dump_bytes)
unfolding push
push_lem written [] v some_byte fits = absurd (omega arith)
push_lem written (b ∷ frame) v some_byte fits =
    let units = nalus (b ∷ frame) in
    let counted = record v {
      sps = last_of 7 units v.sps;
      pps = last_of 8 units v.pps;
      received_video_count = v.received_video_count + 1;
    } in
    let (bytes, dumping, run, kept) = dump_frame_lem written (b ∷ frame) counted in
    (
      bytes,
      dumping,
      rw (scan_nalus_lem units false v, le→ltb maximum_queued_bytes (length (b ∷ frame)) fits, run)
          (ground arith),
      kept,
    )

pub push_refused :
    (written : Bytes → Bool) (frame : Bytes) (v : VideoForwarder)
    → (length frame ≡ 0) ⊎ (maximum_queued_bytes < length frame)
    → push written frame v ≡ v
unfolding push
push_refused written [] v h = refl
push_refused written (b ∷ frame) v h = ground arith

pub size_cases :
    (n : ℕ) → ((n ≡ 0) ⊎ (maximum_queued_bytes < n)) ⊎ ((0 < n) × (n ≤ maximum_queued_bytes))
size_cases zero = inl (inl refl)
size_cases (suc n) = elim (Bool-cases (ltb maximum_queued_bytes (suc n))) [
  | inl large ↦ inl (inr (ground arith))
  | inr fits ↦ inr (omega arith, ground arith)
]
