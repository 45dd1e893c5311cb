-- ===== src/AirPlay/Plist/Reads.antt =====
-- A value whose nodes stand in the file is read back, within the decoder's limits
-- (src/airplay/bplist.cpp).
use aa2acp.Base.{
  ℕ, zero, suc, ◌+◌, ◌*◌, ◌/◌, ◌%◌, ◌≤◌, ◌<◌, ◌≡◌, inr, inl, refl, ap, ◌∙◌, [], ◌∷◌, ◌++◌, some,
  arith, length, length-append, get_or, All-append, Bytes,
}
use aa2acp.AirPlay.Plist.{
  PlistValue, boolean, integer, real, string, blob, array, dictionary, Values, nil, cons, Entries,
  empty, entry, count_marker, big_endian, encode_integer,
}
use aa2acp.AirPlay.Plist.Encoder.{boolean_byte}
use aa2acp.AirPlay.Plist.Decoder.{
  Decoder, Usage, max_nodes, max_bytes, read_items, as_string, read_entries, read_marked, object,
}
use aa2acp.AirPlay.Plist.Layout.{
  items_length, entries_length, node_count, item_nodes, value_nodes, item_refs, key_refs,
  value_refs, key_node, key_layout, head_node, parts, item_layout, value_layout, layout,
  length-parts, length-item_refs, length-key_refs, length-value_refs, length-key_layout,
}
use aa2acp.AirPlay.Plist.File.{IsStored, AreStored, AreStored-append}
use aa2acp.AirPlay.Plist.Leaves.{
  advance, object-marked, read_marked-chunk, read_marked-integer, read_marked-real,
  read_marked-boolean,
}
use aa2acp.AirPlay.Plist.Containers.{HasWidth, read_marked-array, read_marked-dictionary}
use aa2acp.AirPlay.Plist.Measures.{
  levels_of, item_levels, entry_levels, copied_of, item_copied, entry_copied, IsSorted, IsPlist,
  ArePlists, ArePlistEntries, levels_of-positive,
}
use aa2acp.AirPlay.Plist.Sorted.{
  append_entries, append_entries-empty, append_entries_assoc, emplace-append_entries,
}
use aa2acp.AirPlay.Plist.Parts.{
  Usage-ext, advance-advance, counted, advance-counted, advance_none, counted_same,
  node_count-positive, items_length-le, AreNodes-item_refs, AreNodes-key_refs, AreNodes-value_refs,
  leaf_found, text_found, container_found,
}

-- The counters leave room for that many nodes and bytes.
abbrev pub HasRoom : Usage → ℕ → ℕ → Type 0
HasRoom usage nodes copied = (usage.nodes + nodes ≤ max_nodes) × (usage.copied + copied ≤ max_bytes)

-- The decoder has the nodes of an index and of those behind it.
abbrev pub Reaches : Decoder → ℕ → ℕ → Type 0
Reaches d n nodes = n + nodes ≤ length d.offsets

module _ (d : Decoder) (wide : HasWidth d) where
  -- `object` behind its guards, at a node.
  abbrev Marked : ℕ → ℕ → PlistValue → Usage → Type 0
  Marked levels n value usage =
      let offset = get_or d.offsets n 0 in
      let marker = get_or d.bytes offset 0 in
      read_marked d (object d levels) (marker / 16) (marker % 16) offset (counted usage)
      ≡ some (value, advance usage (node_count value) (copied_of value))

  abbrev pub IsRead : ℕ → ℕ → PlistValue → Usage → Type 0
  IsRead levels n value usage =
      object d levels n usage ≡ some (value, advance usage (node_count value) (copied_of value))

  unmarked :
      (levels n : ℕ) (value : PlistValue) (usage : Usage)
      → n < length d.offsets
      → usage.nodes + 1 ≤ max_nodes
      → Marked levels n value usage
      → IsRead (suc levels) n value usage
  unmarked levels n value usage inside room marked =
      object-marked d levels n usage inside room ∙ marked

  Marked-string :
      (levels n : ℕ) (text : Bytes) (usage : Usage)
      → IsStored d n (key_node text)
      → HasRoom usage 1 (length text)
      → Marked levels n (string text) usage
  unfolding node_count copied_of
  Marked-string levels n text usage stored room =
      let (tail, found) = text_found d n (count_marker 5 (length text)) text stored in
      read_marked-chunk d (object d levels) text tail 5 (counted usage) (inr refl) room.1 _ found

  mutual
    unfolding node_count copied_of levels_of IsPlist head_node parts item_refs value_refs key_refs
        read_items read_entries key_layout as_string

    Marked-stored :
        (value : PlistValue) (levels n : ℕ) (usage : Usage)
        → levels_of value ≤ suc levels
        → AreStored d n (layout n value)
        → Reaches d n (node_count value)
        → IsPlist value
        → HasRoom usage (node_count value) (copied_of value)
        → Marked levels n value usage
    Marked-stored (boolean value) levels n usage deep stored reaches plist room =
        let (tail, found) = leaf_found d n (boolean_byte value ∷ []) stored.0 in
        read_marked-boolean d (object d levels) _ value tail (counted usage) found
        ∙ ap (λ u. some (boolean value, u)) (counted_same usage)
    Marked-stored (integer value) levels n usage deep stored reaches plist room =
        let (tail, found) = leaf_found d n (encode_integer value) stored.0 in
        read_marked-integer d (object d levels) _ value tail (counted usage) plist found
        ∙ ap (λ u. some (integer value, u)) (counted_same usage)
    Marked-stored (real value) levels n usage deep stored reaches plist room =
        let (tail, found) = leaf_found d n (35 ∷ big_endian value 8) stored.0 in
        read_marked-real d (object d levels) _ value tail (counted usage) plist found
        ∙ ap (λ u. some (real value, u)) (counted_same usage)
    Marked-stored (string value) levels n usage deep stored reaches plist room =
        Marked-string levels n value usage stored.0 room
    Marked-stored (blob value) levels n usage deep stored reaches plist room =
        let (tail, found) = text_found d n (count_marker 4 (length value)) value stored.0 in
        read_marked-chunk d (object d levels) value tail 4 (counted usage) (inl refl) room.1 _ found
    Marked-stored (array items) levels n usage deep stored reaches plist room =
        let refs = item_refs (suc n) items in
        let (tail, found) = container_found d n (head_node n (array items)) stored.0 in
        let count : length refs ≡ items_length items = length-item_refs (suc n) items in
        let found' = rw (← count) at found in
        let items_read =
          items_stored items levels (suc n) (counted usage) (omega arith) stored.1 (omega arith)
            plist (omega arith, room.1) in
        read_marked-array d wide (object d levels) tail (counted usage) _ _ refs items
          (AreNodes-item_refs d (suc n) items (omega arith)) found'
          (omega (arith, items_length-le items)) items_read
        ∙ ap (λ u. some (array items, u)) (advance-counted usage _ _)
    Marked-stored (dictionary entries) levels n usage deep stored reaches plist room =
        let k = entries_length entries in
        let keys = key_refs (suc n) entries in
        let values = value_refs (suc n + k) entries in
        let (tail, found) = container_found d n (head_node n (dictionary entries)) stored.0 in
        let (key_nodes, value_nodes_stored) =
          AreStored-append d (suc n) k (key_layout entries) _ (length-key_layout entries)
            stored.1 in
        let nodes =
          All-append _ keys values (AreNodes-key_refs d (suc n) entries (omega arith))
            (AreNodes-value_refs d (suc n + k) entries (omega arith)) in
        let pairs : length (keys ++ values) ≡ k * 2 = omega (
          arith,
          length-append keys values,
          length-key_refs (suc n) entries,
          length-value_refs (suc n + k) entries,
        ) in
        let entries_read =
          entries_stored entries levels (suc n) (suc n + k) empty (counted usage) (omega arith)
            key_nodes value_nodes_stored (omega arith) (omega arith) plist.1 plist.0
            (omega arith, room.1) in
        read_marked-dictionary d wide (object d levels) tail (counted usage) _ k keys values entries
          (length-key_refs (suc n) entries) nodes pairs entries_read _ found (omega arith)
        ∙ ap (λ u. some (dictionary entries, u)) (advance-counted usage _ _)

    items_stored :
        (items : Values) (levels n : ℕ) (usage : Usage)
        → item_levels items ≤ levels
        → AreStored d n (item_layout n items)
        → Reaches d n (item_nodes items)
        → ArePlists items
        → HasRoom usage (item_nodes items) (item_copied items)
        → read_items (object d levels) (item_refs n items) usage
          ≡ some (items, advance usage (item_nodes items) (item_copied items))
    items_stored nil levels n usage deep stored reaches plists room =
        ap (λ u. some (nil, u)) (advance_none usage)
    items_stored (cons item items) zero n usage deep stored reaches plists room =
        absurd (omega (arith, levels_of-positive item))
    items_stored (cons item items) (suc levels) n usage deep stored reaches plists room =
        let later = n + node_count item in
        let (front, back) =
          AreStored-append d n (node_count item) (layout n item) _ (length-parts n item) stored in
        let used = advance usage (node_count item) (copied_of item) in
        let first =
          unmarked levels n item usage front.0.0 (omega (arith, node_count-positive item)) (
            Marked-stored item levels n usage (omega arith) front (omega arith) plists.0
              (omega arith, omega arith)) in
        let others =
          items_stored items (suc levels) later used (omega arith) back (omega arith) plists.1
            (omega arith, omega arith) in
        rw
          (
            first,
            others,
            advance-advance usage (node_count item) (copied_of item) (item_nodes items)
                (item_copied items),
          )
          refl

    entries_stored :
        (entries : Entries) (levels n m : ℕ) (result : Entries) (usage : Usage)
        → entry_levels entries ≤ levels
        → AreStored d n (key_layout entries)
        → AreStored d m (value_layout m entries)
        → Reaches d n (entries_length entries)
        → Reaches d m (value_nodes entries)
        → ArePlistEntries entries
        → IsSorted (append_entries result entries)
        → HasRoom usage (entries_length entries + value_nodes entries) (entry_copied entries)
        → read_entries (object d levels) (key_refs n entries) (value_refs m entries) result usage
          ≡ some (
            append_entries result entries,
            advance usage (entries_length entries + value_nodes entries) (entry_copied entries),
          )
    entries_stored empty levels n m result usage deep keys values reaches far plists sorted room =
        rw (append_entries-empty result) (ap (λ u. some (result, u)) (advance_none usage))
    entries_stored (entry key value entries) zero n m result usage deep keys values reaches far
          plists sorted room =
        absurd (omega (arith, levels_of-positive value))
    entries_stored (entry key value entries) (suc levels) n m result usage deep keys values reaches
          far plists sorted room =
        let later = m + node_count value in
        let (front, back) =
          AreStored-append d m (node_count value) (layout m value) _ (length-parts m value)
            values in
        let half = advance usage 1 (length key) in
        let used = advance half (node_count value) (copied_of value) in
        let first =
          unmarked levels n (string key) usage keys.0.0 (omega arith)
            (Marked-string levels n key usage keys.0 (omega arith, omega arith)) in
        let second =
          unmarked levels m value half front.0.0 (omega (arith, node_count-positive value)) (
            Marked-stored value levels m half (omega arith) front (omega arith) plists.0
              (omega arith, omega arith)) in
        let placed = emplace-append_entries key value result entries sorted in
        let split = append_entries_assoc result (entry key value empty) entries in
        let others =
          entries_stored entries (suc levels) (suc n) later
            (append_entries result (entry key value empty)) used (omega arith) keys.1 back
            (omega arith) (omega arith) plists.1 (rw split sorted) (omega arith, omega arith) in
        rw (first, second, placed, others, split)
          (ap (λ u. some (append_entries result (entry key value entries), u))
            (Usage-ext (omega arith) (omega arith)))

  -- The statement at `object`, at every depth that is left.
  pub object-stored :
      (value : PlistValue) (levels n : ℕ) (usage : Usage)
      → levels_of value ≤ levels
      → AreStored d n (layout n value)
      → Reaches d n (node_count value)
      → IsPlist value
      → HasRoom usage (node_count value) (copied_of value)
      → IsRead levels n value usage
  object-stored value zero n usage deep stored reaches plist room =
      absurd (omega (arith, levels_of-positive value))
  object-stored value (suc levels) n usage deep stored reaches plist room =
      unmarked levels n value usage stored.0.0 (omega (arith, node_count-positive value))
        (Marked-stored value levels n usage deep stored reaches plist room)
