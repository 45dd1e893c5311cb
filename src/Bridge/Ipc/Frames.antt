-- ===== src/Bridge/Ipc/Frames.antt =====
-- The receiver reads back the frames that a writer sent (src/bridge/carplay_ipc.cpp).
use aa2acp.Base.{
  ℕ, zero, suc, ◌≤◌, ◌<◌, ◌≡◌, refl, sym, ap, ◌∙◌, Bool, true, false, List, [], ◌∷◌, ◌++◌,
  append-nil, Option, none, some, some-injective, arith, le→ltb, ◌==◌, length, take, drop,
  take-append_length, drop-append_length, Option-cases, inl, inr, Bytes,
}
use aa2acp.Bridge.Ipc.{
  maximum_frame_size, Round, send_all, receive_all, frame_header, write_frame, header_size,
  receive_frames,
}
use aa2acp.Bridge.Ipc.Transfer.{send_all_lem}
use aa2acp.Bridge.Ipc.Rounds.{
  Gives, Ends, receive_all_whole, receive_all_cut, length-Gives, length-Gives_le,
}

abbrev pub IsFrame : Bytes → Type 0
IsFrame frame = (1 ≤ length frame) × (length frame ≤ maximum_frame_size)

-- The rounds carry the frames: for each a writer sent some bytes, the receiver is given the first four
-- and then the others, as it asks for them. The connection ends between two frames, in a header or in a
-- frame.
pub data Carries : List (Round Bytes) → List Bytes → Type 0 where
  cut_header :
      {rounds left : List (Round Bytes)} {part : Bytes}
      → Gives rounds part left
      → length part < 4
      → Ends left
      → Carries rounds []
  cut_frame :
      {rounds mid left : List (Round Bytes)} {part : Bytes} (sends unused : List (Round ℕ))
      (frame head body : Bytes)
      → IsFrame frame
      → write_frame sends frame ≡ some (true, head ++ body, unused)
      → length head ≡ 4
      → Gives rounds head mid
      → Gives mid part left
      → length part < length body
      → Ends left
      → Carries rounds []
  carried :
      {rounds mid left : List (Round Bytes)} {frame : Bytes} {frames : List Bytes}
      (sends unused : List (Round ℕ)) (head body : Bytes)
      → IsFrame frame
      → write_frame sends frame ≡ some (true, head ++ body, unused)
      → length head ≡ 4
      → Gives rounds head mid
      → Gives mid body left
      → Carries left frames
      → Carries rounds (frame ∷ frames)

send_all_whole :
    (sends left : List (Round ℕ)) (bytes sent : Bytes)
    → send_all sends bytes ≡ some (true, sent, left)
    → sent ≡ bytes
send_all_whole sends left bytes sent e =
    let (unsent, split, all) = send_all_lem sends bytes true sent left e in
    sym (append-nil sent) ∙ ap (λ x. sent ++ x) (sym (all.0 refl)) ∙ sym split

Sent : Type 0
Sent = Option (Bool × Bytes × List (Round ℕ))

-- A frame that was sent whole was sent as its header and its bytes.
write_frame-bytes :
    (sends : List (Round ℕ)) (frame sent : Bytes) (unused : List (Round ℕ))
    → write_frame sends frame ≡ some (true, sent, unused)
    → sent ≡ frame_header frame ++ frame
unfolding write_frame Sent
write_frame-bytes sends frame sent unused e =
    elim (Option-cases (send_all sends (frame_header frame))) [
      | inl stuck ↦
          let no : Path Sent none (some (true, sent, unused)) = rw (stuck, write_frame) at e in
          absurd cc
      | inr ((false, head, left), run) ↦
          let no : Path Sent (some (false, head, left)) (some (true, sent, unused)) =
            rw (run, write_frame) at e in
          absurd cc
      | inr ((true, head, left), run) ↦ elim (Option-cases (send_all left frame)) [
        | inl stuck ↦
            let no : Path Sent none (some (true, sent, unused)) =
              rw (run, stuck, write_frame) at e in
            absurd cc
        | inr ((ok, body, left'), run') ↦
            let same : Path Sent (some (ok, head ++ body, left')) (some (true, sent, unused)) =
              rw (run, run', write_frame) at e in
            let parts = some-injective _ _ same in
            let answer = ap (λ (o : Bool × Bytes × List (Round ℕ)). o.0) parts in
            let all = ap (λ (o : Bool × Bytes × List (Round ℕ)). o.1) parts in
            let header = send_all_whole sends left (frame_header frame) head run in
            let behind_it =
              send_all_whole left left' frame body
                (run' ∙ ap (λ b. some (b, body, left')) answer) in
            sym all ∙ ap (λ x. x ++ body) header ∙ ap (λ x. frame_header frame ++ x) behind_it
      ]
    ]

-- The first four bytes that were sent are the header, the others the frame.
sent-split :
    (frame head body : Bytes)
    → length head ≡ 4
    → head ++ body ≡ frame_header frame ++ frame
    → (head ≡ frame_header frame) × (body ≡ frame)
unfolding frame_header
sent-split frame head body four e = (
  sym (take-append_length 4 head body four)
      ∙ ap (take 4) e
      ∙ take-append_length 4 (frame_header frame) frame refl,
  sym (drop-append_length 4 head body four)
      ∙ ap (drop 4) e
      ∙ drop-append_length 4 (frame_header frame) frame refl,
)

header_size-frame_header :
    (frame : Bytes) → IsFrame frame → header_size (frame_header frame) ≡ length frame
unfolding frame_header
header_size-frame_header frame (some_byte, fits) = omega arith

not_zero : (n : ℕ) → 1 ≤ n → (n == 0) ≡ false
not_zero n h = ground arith

receive_frames-head :
    (fuel : ℕ) (rounds mid : List (Round Bytes)) (frame : Bytes)
    → IsFrame frame
    → receive_all rounds 4 ≡ some (true, frame_header frame, mid)
    → receive_frames (suc fuel) rounds ≡ elim (receive_all mid (length frame)) [
      | none ↦ none
      | some (false, got, left) ↦ some []
      | some (true, got, left) ↦ elim (receive_frames fuel left) [
        | none ↦ none
        | some frames ↦ some (got ∷ frames)
      ]
    ]
unfolding receive_frames
receive_frames-head fuel rounds mid frame v run =
    let size = header_size-frame_header frame v in
    let low = not_zero (length frame) v.0 in
    let high = le→ltb maximum_frame_size (length frame) v.1 in
    rw (receive_frames, run, size, low, high) refl

receive_frames-Carries :
    {rounds : List (Round Bytes)} {frames : List Bytes} (fuel : ℕ)
    → Carries rounds frames
    → length frames < fuel
    → receive_frames fuel rounds ≡ some frames
unfolding receive_frames
receive_frames-Carries zero c enough = absurd (omega arith)
receive_frames-Carries {rounds} (suc fuel) (cut_header g short ends) enough =
    let (rest, failed) = receive_all_cut 4 g short ends in rw (receive_frames, failed) refl
receive_frames-Carries {rounds} (suc fuel)
      (cut_frame {mid = mid} sends unused frame head body v sent four g h short ends) enough =
    let (is_head, is_body) =
      sent-split frame head body four (write_frame-bytes sends frame (head ++ body) unused sent) in
    let first =
      ap (receive_all rounds) (sym four)
      ∙ receive_all_whole g
      ∙ ap (λ x. some (true, x, mid)) is_head in
    let (rest, failed) = receive_all_cut (length body) h short ends in
    receive_frames-head fuel rounds mid frame v first ∙ rw (sym is_body, failed) refl
receive_frames-Carries {rounds} (suc fuel)
      (carried {mid = mid} {left = left} {frame = frame} {frames = frames} sends unused head body v
        sent four g h later)
      enough =
    let (is_head, is_body) =
      sent-split frame head body four (write_frame-bytes sends frame (head ++ body) unused sent) in
    let first =
      ap (receive_all rounds) (sym four)
      ∙ receive_all_whole g
      ∙ ap (λ x. some (true, x, mid)) is_head in
    receive_frames-head fuel rounds mid frame v first
    ∙ rw (sym is_body, receive_all_whole h, receive_frames-Carries fuel later (omega arith)) refl

length-Carries :
    {rounds : List (Round Bytes)} {frames : List Bytes}
    → Carries rounds frames
    → length frames ≤ length rounds
length-Carries (cut_header g short ends) = omega arith
length-Carries (cut_frame sends unused frame head body v sent four g h short ends) = omega arith
length-Carries (carried sends unused head body v sent four g h later) =
    omega (arith, length-Gives g (omega arith), length-Gives_le h, length-Carries later)

-- The receiver hands to its callback exactly the frames that a writer sent whole, in order, for frames of
-- one byte to 4 MiB, whatever pieces they come in and whatever waits are between, until the connection
-- ends, by a stop, the deadline, a failure or the peer, between two frames or inside one. A pass for
-- each round is enough.
pub receive_frames-write_frame :
    (rounds : List (Round Bytes)) (frames : List Bytes)
    → Carries rounds frames
    → receive_frames (suc (length rounds)) rounds ≡ some frames
receive_frames-write_frame rounds frames c =
    receive_frames-Carries (suc (length rounds)) c (omega (arith, length-Carries c))
