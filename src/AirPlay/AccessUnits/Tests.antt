-- ===== src/AirPlay/AccessUnits/Tests.antt =====
-- Runs of h264_access_units, first_mb_in_slice and avcc_config (src/airplay/session.cpp).
use aa2acp.Base.{◌↔◌, ◌≤◌, arith, ◌≡◌, refl, List, [], ◌∷◌, none, some, All, Bytes}
use aa2acp.AirPlay.AccessUnits.{
  fill_rbsp, count_zeros, read_suffix, first_mb_in_slice, flush, before_header, before_slice,
  push_unit, group, h264_access_units, find_type, avcc_config,
}
use aa2acp.AirPlay.AccessUnits.Slices.{first_mb_in_slice-zero}
use aa2acp.AirPlay.AccessUnits.Order.{
  joined, non_empty, IsAccessUnit, AreCut, h264_access_units_lem,
}

-- Two pictures: a delimiter, parameter sets and two slices, then a slice with an empty unit behind it.
abbrev sample : List Bytes
sample =
    (9 ∷ 16 ∷ [])
    ∷ (103 ∷ 66 ∷ 0 ∷ 30 ∷ 9 ∷ [])
    ∷ (104 ∷ 206 ∷ [])
    ∷ (101 ∷ 136 ∷ [])
    ∷ (101 ∷ 64 ∷ [])
    ∷ (65 ∷ 154 ∷ [])
    ∷ []
    ∷ []

abbrev sample_units : List (List Bytes)
sample_units =
    ((9 ∷ 16 ∷ [])
      ∷ (103 ∷ 66 ∷ 0 ∷ 30 ∷ 9 ∷ [])
      ∷ (104 ∷ 206 ∷ [])
      ∷ (101 ∷ 136 ∷ [])
      ∷ (101 ∷ 64 ∷ [])
      ∷ [])
    ∷ ((65 ∷ 154 ∷ []) ∷ [])
    ∷ []

sample_cut : h264_access_units sample ≡ sample_units
unfolding h264_access_units flush before_header before_slice push_unit group fill_rbsp count_zeros
    read_suffix first_mb_in_slice
sample_cut = refl

-- 00110 is 5, and 32 zeros are no number.
first_five : first_mb_in_slice (65 ∷ 48 ∷ []) ≡ some 5
unfolding fill_rbsp count_zeros read_suffix first_mb_in_slice
first_five = refl

too_many_zeros : first_mb_in_slice (65 ∷ 0 ∷ 0 ∷ 0 ∷ 0 ∷ 1 ∷ []) ≡ none
unfolding fill_rbsp count_zeros read_suffix first_mb_in_slice
too_many_zeros = refl

-- The 3 of an escape is kept.
escape_kept : fill_rbsp (1 ∷ 0 ∷ 0 ∷ 3 ∷ 1 ∷ []) ≡ 1 ∷ 0 ∷ 0 ∷ 3 ∷ 1 ∷ []
unfolding fill_rbsp
escape_kept = refl

sample_config :
    avcc_config sample
    ≡ some
        (1 ∷ 66 ∷ 0 ∷ 30 ∷ 255 ∷ 225 ∷ 0 ∷ 5 ∷ 103 ∷ 66 ∷ 0 ∷ 30 ∷ 9 ∷ 1 ∷ 0 ∷ 2 ∷ 104 ∷ 206 ∷ [])
unfolding find_type avcc_config
sample_config = refl

h264_access_units_lem_example :
    (joined (h264_access_units sample) ≡ non_empty sample)
    × All IsAccessUnit (h264_access_units sample)
    × AreCut (h264_access_units sample)
h264_access_units_lem_example = h264_access_units_lem sample

first_mb_in_slice-zero_example : (first_mb_in_slice (65 ∷ 154 ∷ []) ≡ some 0) ↔ (128 ≤ 154)
first_mb_in_slice-zero_example = first_mb_in_slice-zero 65 154 [] (omega arith)
