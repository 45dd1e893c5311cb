-- ===== src/AirPlay/Plist/Parts.antt =====
-- The counters of a decode, the references of a container, and the bytes of a stored node
-- (src/airplay/bplist.cpp).
use aa2acp.Base.{
  ℕ, suc, ◌+◌, ◌≤◌, ◌≡◌, refl, ap, ◌∙◌, ◌++◌, append-nil, append_assoc, arith, length, get_or,
  Bytes,
}
use aa2acp.AirPlay.Plist.{PlistValue, Values, nil, cons, Entries, empty, entry}
use aa2acp.AirPlay.Plist.Placed.{StandsAt}
use aa2acp.AirPlay.Plist.Encoder.{Node, leaf, append_all}
use aa2acp.AirPlay.Plist.Decoder.{Decoder, Usage}
use aa2acp.AirPlay.Plist.Layout.{
  items_length, entries_length, node_count, item_nodes, value_nodes, item_refs, key_refs,
  value_refs, length-parts,
}
use aa2acp.AirPlay.Plist.File.{IsStored}
use aa2acp.AirPlay.Plist.Leaves.{advance}
use aa2acp.AirPlay.Plist.Containers.{AreNodes}

pub Usage-ext :
    {a b c e : ℕ}
    → a ≡ b
    → c ≡ e
    → ◌≡◌ {A = Usage} (record { nodes = a; copied = c }) (record { nodes = b; copied = e })
Usage-ext {a} {b} {c} {e} p q =
    ap (λ n. record { nodes = n; copied = c }) p ∙ ap (λ n. record { nodes = b; copied = n }) q

pub advance-advance :
    (usage : Usage) (a b c e : ℕ) → advance (advance usage a b) c e ≡ advance usage (a + c) (b + e)
advance-advance usage a b c e = Usage-ext (omega arith) (omega arith)

abbrev pub counted : Usage → Usage
counted usage = record usage { nodes = usage.nodes + 1 }

pub advance-counted :
    (usage : Usage) (a b : ℕ) → advance (counted usage) a b ≡ advance usage (suc a) b
advance-counted usage a b = Usage-ext (omega arith) refl

pub advance_none : (usage : Usage) → usage ≡ advance usage 0 0
advance_none usage = Usage-ext (omega arith) (omega arith)

pub counted_same : (usage : Usage) → counted usage ≡ advance usage 1 0
counted_same usage = Usage-ext refl (omega arith)

pub node_count-positive : (value : PlistValue) → 1 ≤ node_count value
node_count-positive value = omega (arith, length-parts 0 value)

pub items_length-le : (items : Values) → items_length items ≤ item_nodes items
unfolding node_count
items_length-le nil = omega arith
items_length-le (cons item items) = omega (arith, node_count-positive item, items_length-le items)

module _ (d : Decoder) where
  pub AreNodes-item_refs :
      (n : ℕ) (items : Values)
      → n + item_nodes items ≤ length d.offsets
      → AreNodes d (item_refs n items)
  unfolding item_refs node_count
  AreNodes-item_refs n nil h = tt
  AreNodes-item_refs n (cons item items) h = (
    omega (arith, node_count-positive item),
    AreNodes-item_refs (n + node_count item) items (omega arith),
  )

  pub AreNodes-key_refs :
      (n : ℕ) (entries : Entries)
      → n + entries_length entries ≤ length d.offsets
      → AreNodes d (key_refs n entries)
  unfolding key_refs
  AreNodes-key_refs n empty h = tt
  AreNodes-key_refs n (entry key value entries) h =
      (omega arith, AreNodes-key_refs (suc n) entries (omega arith))

  pub AreNodes-value_refs :
      (n : ℕ) (entries : Entries)
      → n + value_nodes entries ≤ length d.offsets
      → AreNodes d (value_refs n entries)
  unfolding value_refs node_count
  AreNodes-value_refs n empty h = tt
  AreNodes-value_refs n (entry key value entries) h = (
    omega (arith, node_count-positive value),
    AreNodes-value_refs (n + node_count value) entries (omega arith),
  )

  -- The bytes of a leaf, and of a container, at their place.
  pub leaf_found :
      (n : ℕ) (bytes : Bytes)
      → IsStored d n (leaf bytes)
      → (tail : Bytes) × StandsAt d.bytes (get_or d.offsets n 0) (bytes ++ tail)
  unfolding append_all
  leaf_found n bytes (inside, tail, found) = (tail, rw append-nil at found)

  pub text_found :
      (n : ℕ) (marker text : Bytes)
      → IsStored d n (leaf (marker ++ text))
      → (tail : Bytes) × StandsAt d.bytes (get_or d.offsets n 0) (marker ++ (text ++ tail))
  text_found n marker text stored =
      let (tail, found) = leaf_found n (marker ++ text) stored in
      (tail, rw (append_assoc marker text tail) at found)

  pub container_found :
      (n : ℕ) (node : Node)
      → IsStored d n node
      → (tail : Bytes) × StandsAt d.bytes
          (get_or d.offsets n 0)
          (node.bytes ++ (append_all d.ref_size node.refs ++ tail))
  container_found n node (inside, tail, found) =
      (tail, rw (append_assoc node.bytes (append_all d.ref_size node.refs) tail) at found)
