-- ===== src/AirPlay/Plist/Tests.antt =====
-- Property lists written and read back.
use aa2acp.Base.{◌^◌, ◌<◌, ◌≤◌, ◌≡◌, refl, true, [], ◌∷◌, some, length, arith}
use aa2acp.AirPlay.Plist.{
  PlistValue, boolean, integer, real, blob, array, dictionary, nil, cons, empty, entry,
  count_marker, big_endian, bytes_for, encode_integer,
}
use aa2acp.AirPlay.Plist.Encoder.{
  encode_bplist, finish, write_nodes, append_all, add, encode, set_node,
}
use aa2acp.AirPlay.Plist.Decoder.{decode_bplist, leading_bit, widen, before}
use aa2acp.AirPlay.Plist.Layout.{node_count}
use aa2acp.AirPlay.Plist.Measures.{levels_of, copied_of, IsPlist}
use aa2acp.AirPlay.Plist.RoundTrip.{decode_bplist-encode_bplist}
use aa2acp.AirPlay.Plist.Limits.{IsBounded, decode_bplist-bounds}

-- 1.5 and the least positive float.
widen_normal : widen 1069547520 ≡ 4609434218613702656
unfolding widen
widen_normal = refl

widen_subnormal : widen 1 ≡ 3936146074321813504
unfolding widen leading_bit
widen_subnormal = refl

-- {"a": [300, true], "b": data, "c": a double}.
abbrev sample : PlistValue
sample = dictionary (
    entry (97 ∷ []) (array (cons (integer 300) (cons (boolean true) nil)))
      (entry (98 ∷ []) (blob (1 ∷ 2 ∷ [])) (entry (99 ∷ []) (real 5) empty)))

sample-IsPlist : IsPlist sample
unfolding IsPlist before
sample-IsPlist = (
  ((refl, (refl, tt)), ((refl, tt), (tt, tt))),
  ((omega arith, (tt, tt)), (tt, (omega arith, tt))),
)

sample-levels_of : levels_of sample ≤ 65
unfolding levels_of
sample-levels_of = omega arith

sample-node_count : node_count sample ≤ 65536
unfolding node_count
sample-node_count = omega arith

sample-copied_of : copied_of sample ≤ 8388608
unfolding copied_of
sample-copied_of = omega arith

sample_short : length (encode_bplist sample) < 2 ^ 64
unfolding encode_bplist finish write_nodes append_all add encode set_node count_marker big_endian
    bytes_for encode_integer
sample_short = omega arith

decode_bplist-encode_bplist_example : decode_bplist (encode_bplist sample) ≡ some sample
decode_bplist-encode_bplist_example =
    decode_bplist-encode_bplist sample sample-IsPlist sample-levels_of sample-node_count
      sample-copied_of sample_short

sample_back : decode_bplist (encode_bplist sample) ≡ some sample
sample_back =
    decode_bplist-encode_bplist sample sample-IsPlist sample-levels_of sample-node_count
      sample-copied_of sample_short

decode_bplist-bounds_example : IsBounded sample
decode_bplist-bounds_example = decode_bplist-bounds (encode_bplist sample) sample sample_back
