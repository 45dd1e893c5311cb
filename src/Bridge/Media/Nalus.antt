-- ===== src/Bridge/Media/Nalus.antt =====
-- The splitter of H.264 access units, `VideoSocketForwarder::nalus`
-- (src/bridge/media_forwarders.cpp).
use aa2acp.Base.{
  ℕ, zero, suc, ◌≤◌, ◌<◌, ◌≡◌, inl, inr, refl, ap, ◌∙◌, false, List, [], ◌∷◌, ◌++◌, arith, ltb,
  if◌then◌else◌, length, length-append, length-drop, drop, All, Bytes, Bool-cases,
}
use aa2acp.Bridge.Media.{is_three, is_four, split_nalu, nalus_loop, nalus}

-- No start code of three bytes stands in it; so none of four does.
abbrev pub HasNoCode : Bytes → Type 0
HasNoCode [] = Unit {0}
HasNoCode (b ∷ bytes) = (is_three (b ∷ bytes) ≡ false) × HasNoCode bytes

abbrev pub IsUnit : Bytes → Type 0
IsUnit unit = (0 < length unit) × HasNoCode unit

-- The units, each behind a start code of four bytes.
abbrev pub join : List Bytes → Bytes
join [] = []
join (unit ∷ units) = 0 ∷ 0 ∷ 0 ∷ 1 ∷ (unit ++ join units)

split_nalu_at : (units : List Bytes) → split_nalu (join units) ≡ ([], join units)
unfolding split_nalu
split_nalu_at [] = refl
split_nalu_at (unit ∷ units) = refl

split_nalu_step :
    (a b c : ℕ) (rest : Bytes) (unit after : Bytes)
    → is_three (a ∷ b ∷ c ∷ rest) ≡ false
    → is_four (a ∷ b ∷ c ∷ rest) ≡ false
    → split_nalu (b ∷ c ∷ rest) ≡ (unit, after)
    → split_nalu (a ∷ b ∷ c ∷ rest) ≡ (a ∷ unit, after)
unfolding split_nalu
split_nalu_step a b c rest unit after three four later = ground (arith, later)

not_four :
    (a b c : ℕ) (unit : Bytes) (units : List Bytes)
    → HasNoCode (b ∷ c ∷ unit)
    → is_four (a ∷ b ∷ c ∷ (unit ++ join units)) ≡ false
not_four a b c (d ∷ unit) units v = ground (arith, v.0)
not_four a b c [] [] v = refl
not_four a b c [] (next ∷ units) v = ground arith

split_nalu-join :
    (unit : Bytes) (units : List Bytes)
    → HasNoCode unit
    → split_nalu (unit ++ join units) ≡ (unit, join units)
unfolding split_nalu
split_nalu-join [] units v = split_nalu_at units
split_nalu-join (a ∷ []) [] v = refl
split_nalu-join (a ∷ []) (next ∷ units) v =
    split_nalu_step a 0 0 (0 ∷ 1 ∷ (next ++ join units)) [] (join (next ∷ units)) (ground arith)
      (ground arith) refl
split_nalu-join (a ∷ b ∷ []) [] v = refl
split_nalu-join (a ∷ b ∷ []) (next ∷ units) v =
    split_nalu_step a b 0 (0 ∷ 0 ∷ 1 ∷ (next ++ join units)) (b ∷ []) (join (next ∷ units))
      (ground arith) (ground arith) (split_nalu-join (b ∷ []) (next ∷ units) v.1)
split_nalu-join (a ∷ b ∷ c ∷ unit) units v =
    split_nalu_step a b c (unit ++ join units) (b ∷ c ∷ unit) (join units) v.0
      (not_four a b c unit units v.1) (split_nalu-join (b ∷ c ∷ unit) units v.1)

nalus_loop-unit :
    (fuel : ℕ) (unit : Bytes) (units : List Bytes)
    → IsUnit unit
    → nalus_loop (suc fuel) (join (unit ∷ units)) ≡ unit ∷ nalus_loop fuel (join units)
unfolding nalus_loop
nalus_loop-unit fuel [] units v = absurd (omega (arith, v.0))
nalus_loop-unit fuel (b ∷ unit) units v =
    let large : 3 ≤ length (join ((b ∷ unit) ∷ units)) = omega arith in
    rw (split_nalu-join (b ∷ unit) units v.1) (ground (arith, large))

nalus_loop-join :
    (units : List Bytes) (fuel : ℕ)
    → All IsUnit units
    → length (join units) < fuel
    → nalus_loop fuel (join units) ≡ units
unfolding nalus_loop
nalus_loop-join units zero v h = absurd (omega arith)
nalus_loop-join [] (suc fuel) v h = refl
nalus_loop-join (unit ∷ units) (suc fuel) v h =
    nalus_loop-unit fuel unit units v.0
    ∙ ap (◌∷◌ unit)
        (nalus_loop-join units fuel v.1 (omega (arith, length-append unit (join units))))

-- An access unit that is made of nonempty units without a start code in them, each behind a start code
-- of four bytes, is split into exactly those units.
pub nalus-join : (units : List Bytes) → All IsUnit units → nalus (join units) ≡ units
unfolding nalus
nalus-join units v = nalus_loop-join units (suc (length (join units))) v (omega arith)

split_nalu-shorter : (input : Bytes) → length (split_nalu input).1 ≤ length input
unfolding split_nalu
split_nalu-shorter [] = omega arith
split_nalu-shorter (a ∷ []) = omega arith
split_nalu-shorter (a ∷ b ∷ []) = omega arith
split_nalu-shorter (a ∷ b ∷ c ∷ rest) = ground (arith, split_nalu-shorter (b ∷ c ∷ rest))

-- The fuel does not matter once it exceeds the length of the input: the loop never runs out of it.
pub nalus_loop_enough :
    (m n : ℕ) (input : Bytes)
    → length input < m
    → length input < n
    → nalus_loop m input ≡ nalus_loop n input
unfolding nalus_loop
nalus_loop_enough zero n input h k = absurd (omega arith)
nalus_loop_enough (suc m) zero input h k = absurd (omega arith)
nalus_loop_enough (suc m) (suc n) input h k = elim (Bool-cases (ltb (length input) 3)) [
  | inl short ↦ rw (short, nalus_loop) refl
  | inr long ↦
      let start = drop (if is_four input then 4 else 3) input in
      let three : 3 ≤ length input = ground arith in
      let shorter = split_nalu-shorter start in
      let start_shorter : length start < length input =
        ground (arith, length-drop 4 input, length-drop 3 input) in
      let skipped =
        nalus_loop_enough m n (drop 1 input) (omega (arith, length-drop 1 input))
          (omega (arith, length-drop 1 input)) in
      let later = nalus_loop_enough m n (split_nalu start).1 (omega arith) (omega arith) in
      rw (long, skipped, later, nalus_loop) refl
]
