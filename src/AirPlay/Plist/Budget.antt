-- ===== src/AirPlay/Plist/Budget.antt =====
-- The decoder counts what it returns: containers, given that their parts are counted
-- (src/airplay/bplist.cpp).
use aa2acp.Base.{
  ℕ, zero, suc, ◌+◌, ◌*◌, ◌≤◌, ◌≡◌, inl, inr, subst, max, List, [], ◌∷◌, some, >>=-eq-some,
  if-cases, arith, ◌==◌, Bool-cases, length, length-append, take, drop, get_or, Bytes, eqb,
  some-injective,
}
use aa2acp.AirPlay.Plist.{
  PlistValue, boolean, integer, real, string, blob, array, dictionary, Values, Entries, empty,
  entry,
}
use aa2acp.AirPlay.Plist.Decoder.{
  Decoder, Usage, Read, max_nodes, max_bytes, utf8, utf16_text, before, emplace, read_refs,
  read_items, as_string, read_entries, read_container,
}
use aa2acp.AirPlay.Plist.Layout.{entries_length, node_count, item_nodes, value_nodes}
use aa2acp.AirPlay.Plist.Parts.{counted, node_count-positive}
use aa2acp.AirPlay.Plist.Measures.{
  levels_of, item_levels, entry_levels, copied_of, item_copied, entry_copied,
}

-- The counters are within their limits.
abbrev pub IsWithin : Usage → Type 0
IsWithin usage = (usage.nodes ≤ max_nodes) × (usage.copied ≤ max_bytes)

-- What has been counted between two states covers that many nodes and bytes.
abbrev pub Covers : Usage → Usage → ℕ → ℕ → Type 0
Covers usage used nodes copied =
    (usage.nodes + nodes ≤ used.nodes) × (usage.copied + copied ≤ used.copied)

abbrev pub Pays : ℕ → Usage → PlistValue → Usage → Type 0
Pays levels usage value used =
    (levels_of value ≤ levels)
    × Covers usage used (node_count value) (copied_of value)
    × IsWithin used

-- Every value that a decoder function returns is paid for.
abbrev pub IsPaid : ℕ → (ℕ → Usage → Read) → Type 0
IsPaid levels below =
    (n : ℕ) (usage : Usage) (value : PlistValue) (used : Usage)
    → IsWithin usage
    → below n usage ≡ some (value, used)
    → Pays levels usage value used

length-utf8 : (code : ℕ) → length (utf8 code) ≤ 3
unfolding utf8
length-utf8 code = ground arith

pub length-utf16_text : (items : ℕ) (bytes : Bytes) → length (utf16_text items bytes) ≤ items * 3
unfolding utf16_text
length-utf16_text zero bytes = omega arith
length-utf16_text (suc items) bytes =
    let unit = get_or bytes 0 0 * 256 + get_or bytes 1 0 in
    omega (
      arith,
      length-append (utf8 unit) (utf16_text items (drop 2 bytes)),
      length-utf8 unit,
      length-utf16_text items (drop 2 bytes),
    )

-- A key that is there already adds nothing.
entry_nodes : Entries → ℕ
entry_nodes entries = entries_length entries + value_nodes entries

emplace_lem :
    (key : Bytes) (value : PlistValue) (entries : Entries)
    → (entry_nodes (emplace key value entries) ≤ entry_nodes entries + 1 + node_count value)
      × (entry_copied (emplace key value entries)
          ≤ entry_copied entries + length key + copied_of value)
      × (entry_levels (emplace key value entries) ≤ max (levels_of value) (entry_levels entries))
unfolding emplace entry_nodes node_count copied_of levels_of
emplace_lem key value empty = (omega arith, omega arith, omega arith)
emplace_lem key value (entry k v entries) =
    let (nodes, copied, levels) = emplace_lem key value entries in
    elim (Bool-cases (eqb k key)) [
      | inl e ↦ rw e (omega arith, omega arith, omega arith)
      | inr e ↦ elim (Bool-cases (before key k)) [
        | inl b ↦ rw (e, b) (omega arith, omega arith, omega arith)
        | inr b ↦ rw (e, b) (omega arith, omega arith, omega arith)
      ]
    ]

module _ (levels : ℕ) where
  abbrev PaysItems : Usage → Values × Usage → Type 0
  PaysItems usage (items, used) =
      (item_levels items ≤ levels)
      × Covers usage used (item_nodes items) (item_copied items)
      × IsWithin used

  -- The entries that were there before are not paid again.
  abbrev PaysEntries : Entries → Usage → Entries × Usage → Type 0
  PaysEntries result usage (entries, used) =
      (entry_levels entries ≤ levels)
      × (usage.nodes + entry_nodes entries ≤ used.nodes + entry_nodes result)
      × (usage.copied + entry_copied entries ≤ used.copied + entry_copied result)
      × IsWithin used

  abbrev pub PaysValue : Usage → PlistValue × Usage → Type 0
  PaysValue usage (value, used) = Pays (suc levels) usage value used

  module _ (below : ℕ → Usage → Read) (paid : IsPaid levels below) where
    read_items-paid :
        (refs : List ℕ) (usage : Usage) (r : Values × Usage)
        → IsWithin usage
        → read_items below refs usage ≡ some r
        → PaysItems usage r
    unfolding read_items node_count copied_of levels_of
    read_items-paid [] usage r within h =
        subst (PaysItems usage) (some-injective _ _ h)
          (omega arith, (omega arith, omega arith), within)
    read_items-paid (ref ∷ refs) usage r within h =
        let ((value, half), first, rest) = >>=-eq-some (below ref usage) _ h in
        let ((values, final), others, last) = >>=-eq-some (read_items below refs half) _ rest in
        let (deep, cover, within') = paid ref usage value half within first in
        let (deeper, more, end) = read_items-paid refs half (values, final) within' others in
        subst (PaysItems usage) (some-injective _ _ last)
          (omega arith, (omega arith, omega arith), end)

    as_string_cases :
        (value : PlistValue) (name : Bytes)
        → as_string value ≡ some name
        → length name ≤ copied_of value
    unfolding as_string copied_of
    as_string_cases (string text) name h =
        subst (λ t. length t ≤ length text) (some-injective _ _ h) (omega arith)
    as_string_cases (boolean b) name h = absurd cc
    as_string_cases (integer n) name h = absurd cc
    as_string_cases (real n) name h = absurd cc
    as_string_cases (blob bytes) name h = absurd cc
    as_string_cases (array items) name h = absurd cc
    as_string_cases (dictionary entries) name h = absurd cc

    read_entries-paid :
        (keys values : List ℕ) (result : Entries) (usage : Usage) (r : Entries × Usage)
        → entry_levels result ≤ levels
        → IsWithin usage
        → read_entries below keys values result usage ≡ some r
        → PaysEntries result usage r
    unfolding read_entries
    read_entries-paid [] values result usage r deep within h =
        subst (PaysEntries result usage) (some-injective _ _ h)
          (deep, omega arith, omega arith, within)
    read_entries-paid (k ∷ keys) [] result usage r deep within h =
        subst (PaysEntries result usage) (some-injective _ _ h)
          (deep, omega arith, omega arith, within)
    read_entries-paid (k ∷ keys) (v ∷ values) result usage r deep within h =
        let ((key, half), first, rest) = >>=-eq-some (below k usage) _ h in
        let ((value, final), second, rest') = >>=-eq-some (below v half) _ rest in
        let (name, named, last) = >>=-eq-some (as_string key) _ rest' in
        let (deep_key, cover_key, within') = paid k usage key half within first in
        let (deep_value, cover_value, within'') = paid v half value final within' second in
        let (more_nodes, more_copied, more_levels) = emplace_lem name value result in
        let short = as_string_cases key name named in
        let (deeper, nodes, copied, end) =
          read_entries-paid keys values (emplace name value result) final r (omega arith) within''
            last in
        let one = node_count-positive key in (deeper, omega arith, omega arith, end)

    pub read_container-paid :
        (d : Decoder) (type items start : ℕ) (usage : Usage) (r : PlistValue × Usage)
        → usage.nodes + 1 ≤ max_nodes
        → usage.copied ≤ max_bytes
        → read_container d below type items start (counted usage) ≡ some r
        → PaysValue usage r
    unfolding read_container node_count copied_of levels_of entry_nodes
    read_container-paid d type items start usage r room within h =
        elim (if-cases (type == 13) _ _ h) [
          | inl (e, found) ↦
              (let (refs, some_refs, rest) = >>=-eq-some (read_refs d (items * 2) start) _ found in
                let ((entries, used), parts, last) =
                  >>=-eq-some
                    (read_entries below (take items refs) (drop items refs) empty (counted usage)) _
                    rest in
                let (deep, nodes, copied, end) =
                  read_entries-paid (take items refs) (drop items refs) empty (counted usage)
                    (entries, used) (omega arith) (room, within) parts in
                subst (PaysValue usage) (some-injective _ _ last)
                  (omega arith, (omega arith, omega arith), end))
          | inr (e, found) ↦
              (let (refs, some_refs, rest) = >>=-eq-some (read_refs d items start) _ found in
                let ((values, used), parts, last) =
                  >>=-eq-some (read_items below refs (counted usage)) _ rest in
                let (deep, cover, end) =
                  read_items-paid refs (counted usage) (values, used) (room, within) parts in
                subst (PaysValue usage) (some-injective _ _ last)
                  (omega arith, (omega arith, omega arith), end))
        ]
