-- ===== src/AirPlay/Plist/Offsets.antt =====
-- Each node of a value starts before the offset table (src/airplay/bplist.cpp).
use aa2acp.Base.{
  ℕ, suc, ◌+◌, ◌≤◌, ◌<◌, ◌^◌, ◌≡◌, refl, ap, List, [], ◌∷◌, arith, length, length-append, All,
  All-append, Bytes,
}
use aa2acp.AirPlay.Plist.{
  PlistValue, boolean, integer, real, string, blob, array, dictionary, Values, nil, cons, Entries,
  empty, entry, bytes_for, count_marker, encode_integer,
}
use aa2acp.AirPlay.Plist.BigEndian.{Fits, Fits-le, Fits-bytes_for}
use aa2acp.AirPlay.Plist.Encoder.{Node, append_all}
use aa2acp.AirPlay.Plist.Layout.{
  node_count, key_layout, head_node, parts, item_layout, value_layout, entries_length,
}
use aa2acp.AirPlay.Plist.File.{render, render_all, starts}
use aa2acp.AirPlay.Plist.Leaves.{length-count_marker}

-- Every node has a byte at least, so each starts before the offset table.
abbrev pub HasBytes : Node → Type 0
HasBytes node = 1 ≤ length node.bytes

count_marker-positive : (type count : ℕ) → 1 ≤ length (count_marker type count)
count_marker-positive type count = ground (arith, length-count_marker type count)

pub HasBytes-head_node : (n : ℕ) (value : PlistValue) → HasBytes (head_node n value)
unfolding head_node encode_integer
HasBytes-head_node n (boolean value) = omega arith
HasBytes-head_node n (integer value) = omega arith
HasBytes-head_node n (real value) = omega arith
HasBytes-head_node n (string value) = omega (
  arith,
  length-append (count_marker 5 (length value)) value,
  count_marker-positive 5 (length value),
)
HasBytes-head_node n (blob value) = omega (
  arith,
  length-append (count_marker 4 (length value)) value,
  count_marker-positive 4 (length value),
)
HasBytes-head_node n (array items) = count_marker-positive 10 _
HasBytes-head_node n (dictionary entries) = count_marker-positive 13 _

HasBytes-key_node : (key : Bytes) → HasBytes (head_node 0 (string key))
HasBytes-key_node key = HasBytes-head_node 0 (string key)

HasBytes-key_layout : (entries : Entries) → All HasBytes (key_layout entries)
unfolding key_layout head_node
HasBytes-key_layout empty = tt
HasBytes-key_layout (entry key value entries) = (HasBytes-key_node key, HasBytes-key_layout entries)

mutual
  unfolding parts

  pub HasBytes-parts : (n : ℕ) (value : PlistValue) → All HasBytes (parts n value)
  HasBytes-parts n (boolean value) = tt
  HasBytes-parts n (integer value) = tt
  HasBytes-parts n (real value) = tt
  HasBytes-parts n (string value) = tt
  HasBytes-parts n (blob value) = tt
  HasBytes-parts n (array items) = HasBytes-item_layout (suc n) items
  HasBytes-parts n (dictionary entries) =
      All-append HasBytes (key_layout entries) _ (HasBytes-key_layout entries)
        (HasBytes-value_layout (suc n + entries_length entries) entries)

  HasBytes-item_layout : (n : ℕ) (items : Values) → All HasBytes (item_layout n items)
  HasBytes-item_layout n nil = tt
  HasBytes-item_layout n (cons item items) = (
    HasBytes-head_node n item,
    All-append HasBytes (parts n item) _ (HasBytes-parts n item)
        (HasBytes-item_layout (n + node_count item) items),
  )

  HasBytes-value_layout : (n : ℕ) (entries : Entries) → All HasBytes (value_layout n entries)
  HasBytes-value_layout n empty = tt
  HasBytes-value_layout n (entry key value entries) = (
    HasBytes-head_node n value,
    All-append HasBytes (parts n value) _ (HasBytes-parts n value)
        (HasBytes-value_layout (n + node_count value) entries),
  )

pub length-starts :
    (size : ℕ) (nodes : List Node) (offset : ℕ) → length (starts size offset nodes) ≡ length nodes
length-starts size [] offset = refl
length-starts size (node ∷ nodes) offset =
    ap suc (length-starts size nodes (offset + length (render size node)))

-- The offsets are before the table, and fit the size chosen for it.
pub starts_below :
    (size table offset : ℕ) (nodes : List Node)
    → All HasBytes nodes
    → offset + length (render_all size nodes) ≤ table
    → table < 2 ^ 64
    → All (λ o. (o < 2 ^ 64) × Fits o (bytes_for table) × (o < table)) (starts size offset nodes)
starts_below size table offset [] solid end small = tt
starts_below size table offset (node ∷ nodes) (solid, others) end small =
    let total = length-append (render size node) (render_all size nodes) in
    let own = length-append node.bytes (append_all size node.refs) in
    let before_table : offset < table = omega arith in
    (
      (
        omega arith,
        Fits-le (bytes_for table) offset table (omega arith) (Fits-bytes_for table small),
        before_table,
      ),
      starts_below size table (offset + length (render size node)) nodes others (omega arith) small,
    )
