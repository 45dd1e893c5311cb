-- ===== src/AirPlay/Plist/Layout.antt =====
-- Where the encoder puts the nodes of a value: the node itself, then those of its parts
-- (src/airplay/bplist.cpp).
use aa2acp.Base.{
  ℕ, suc, ◌+◌, ◌≡◌, refl, ap, List, [], ◌∷◌, ◌++◌, append-nil, append_assoc, arith, length,
  length-append, Bytes,
}
use aa2acp.AirPlay.Plist.{
  PlistValue, boolean, integer, real, string, blob, array, dictionary, Values, nil, cons, Entries,
  empty, entry, big_endian, count_marker, encode_integer,
}
use aa2acp.AirPlay.Plist.Encoder.{
  Node, leaf, set_node, boolean_byte, encode, add_items, add_keys, add_values, add,
}

abbrev pub items_length : Values → ℕ
items_length nil = 0
items_length (cons item items) = suc (items_length items)

abbrev pub entries_length : Entries → ℕ
entries_length empty = 0
entries_length (entry key value entries) = suc (entries_length entries)

unfoldable mutual
  pub node_count : PlistValue → ℕ
  node_count (array items) = suc (item_nodes items)
  node_count (dictionary entries) = suc (entries_length entries + value_nodes entries)
  node_count _ = 1

  pub item_nodes : Values → ℕ
  item_nodes nil = 0
  item_nodes (cons item items) = node_count item + item_nodes items

  pub value_nodes : Entries → ℕ
  value_nodes empty = 0
  value_nodes (entry key value entries) = node_count value + value_nodes entries

-- The references to parts that stand behind one another from an index on.
unfoldable pub item_refs : ℕ → Values → List ℕ
item_refs n nil = []
item_refs n (cons item items) = n ∷ item_refs (n + node_count item) items

unfoldable pub key_refs : ℕ → Entries → List ℕ
key_refs n empty = []
key_refs n (entry key value entries) = n ∷ key_refs (suc n) entries

unfoldable pub value_refs : ℕ → Entries → List ℕ
value_refs n empty = []
value_refs n (entry key value entries) = n ∷ value_refs (n + node_count value) entries

abbrev pub key_node : Bytes → Node
key_node key = leaf (count_marker 5 (length key) ++ key)

unfoldable pub key_layout : Entries → List Node
key_layout empty = []
key_layout (entry key value entries) = key_node key ∷ key_layout entries

-- The node of a value that stands at an index.
unfoldable pub head_node : ℕ → PlistValue → Node
head_node n (boolean value) = leaf (boolean_byte value ∷ [])
head_node n (integer value) = leaf (encode_integer value)
head_node n (real value) = leaf (35 ∷ big_endian value 8)
head_node n (string value) = key_node value
head_node n (blob value) = leaf (count_marker 4 (length value) ++ value)
head_node n (array items) = record {
  bytes = count_marker 10 (items_length items);
  refs = item_refs (suc n) items;
}
head_node n (dictionary entries) = record {
  bytes = count_marker 13 (entries_length entries);
  refs = key_refs (suc n) entries ++ value_refs (suc n + entries_length entries) entries;
}

unfoldable mutual
  -- The nodes of the parts.
  pub parts : ℕ → PlistValue → List Node
  parts n (array items) = item_layout (suc n) items
  parts n (dictionary entries) =
      key_layout entries ++ value_layout (suc n + entries_length entries) entries
  parts n _ = []

  pub item_layout : ℕ → Values → List Node
  item_layout n nil = []
  item_layout n (cons item items) =
      head_node n item ∷ parts n item ++ item_layout (n + node_count item) items

  pub value_layout : ℕ → Entries → List Node
  value_layout n empty = []
  value_layout n (entry key value entries) =
      head_node n value ∷ parts n value ++ value_layout (n + node_count value) entries

abbrev pub layout : ℕ → PlistValue → List Node
layout n value = head_node n value ∷ parts n value

set_node-append :
    (nodes more : List Node) (old node : Node)
    → set_node (length nodes) node (nodes ++ (old ∷ more)) ≡ nodes ++ (node ∷ more)
unfolding set_node
set_node-append [] more old node = refl
set_node-append (x ∷ nodes) more old node = ap (◌∷◌ x) (set_node-append nodes more old node)

pub length-item_refs : (n : ℕ) (items : Values) → length (item_refs n items) ≡ items_length items
unfolding item_refs
length-item_refs n nil = refl
length-item_refs n (cons item items) = ap suc (length-item_refs (n + node_count item) items)

pub length-key_refs :
    (n : ℕ) (entries : Entries) → length (key_refs n entries) ≡ entries_length entries
unfolding key_refs
length-key_refs n empty = refl
length-key_refs n (entry key value entries) = ap suc (length-key_refs (suc n) entries)

pub length-value_refs :
    (n : ℕ) (entries : Entries) → length (value_refs n entries) ≡ entries_length entries
unfolding value_refs
length-value_refs n empty = refl
length-value_refs n (entry key value entries) =
    ap suc (length-value_refs (n + node_count value) entries)

pub length-key_layout : (entries : Entries) → length (key_layout entries) ≡ entries_length entries
unfolding key_layout
length-key_layout empty = refl
length-key_layout (entry key value entries) = ap suc (length-key_layout entries)

mutual
  unfolding node_count parts

  pub length-parts : (n : ℕ) (value : PlistValue) → suc (length (parts n value)) ≡ node_count value
  length-parts n (array items) = ap suc (length-item_layout (suc n) items)
  length-parts n (dictionary entries) = omega (
    arith,
    length-append (key_layout entries) (value_layout (suc n + entries_length entries) entries),
    length-key_layout entries,
    length-value_layout (suc n + entries_length entries) entries,
  )
  length-parts n (boolean value) = refl
  length-parts n (integer value) = refl
  length-parts n (real value) = refl
  length-parts n (string value) = refl
  length-parts n (blob value) = refl

  length-item_layout : (n : ℕ) (items : Values) → length (item_layout n items) ≡ item_nodes items
  length-item_layout n nil = refl
  length-item_layout n (cons item items) = omega (
    arith,
    length-append (parts n item) (item_layout (n + node_count item) items),
    length-parts n item,
    length-item_layout (n + node_count item) items,
  )

  length-value_layout :
      (n : ℕ) (entries : Entries) → length (value_layout n entries) ≡ value_nodes entries
  length-value_layout n empty = refl
  length-value_layout n (entry key value entries) = omega (
    arith,
    length-append (parts n value) (value_layout (n + node_count value) entries),
    length-parts n value,
    length-value_layout (n + node_count value) entries,
  )

length-snoc : (nodes : List Node) (node : Node) → length (nodes ++ (node ∷ [])) ≡ suc (length nodes)
length-snoc nodes node = omega (arith, length-append nodes (node ∷ []))

length-layout :
    (nodes : List Node) (value : PlistValue)
    → length (nodes ++ layout (length nodes) value) ≡ length nodes + node_count value
length-layout nodes value =
    omega
      (arith, length-append nodes (layout (length nodes) value), length-parts (length nodes) value)

add_keys-layout :
    (entries : Entries) (nodes : List Node)
    → add_keys entries nodes ≡ (key_refs (length nodes) entries, nodes ++ key_layout entries)
unfolding encode key_refs key_layout
add_keys-layout empty nodes = rw append-nil refl
add_keys-layout (entry key value entries) nodes =
    rw
      (
        set_node-append nodes [] (leaf []) (key_node key),
        add_keys-layout entries (nodes ++ (key_node key ∷ [])),
        length-snoc nodes (key_node key),
        append_assoc,
      )
      refl

mutual
  unfolding encode add_keys node_count head_node parts item_refs value_refs

  pub encode-layout :
      (value : PlistValue) (nodes : List Node)
      → encode (length nodes) value (nodes ++ (leaf [] ∷ [])) ≡ nodes ++ layout (length nodes) value
  encode-layout (boolean value) nodes = set_node-append nodes [] (leaf []) _
  encode-layout (integer value) nodes = set_node-append nodes [] (leaf []) _
  encode-layout (real value) nodes = set_node-append nodes [] (leaf []) _
  encode-layout (string value) nodes = set_node-append nodes [] (leaf []) _
  encode-layout (blob value) nodes = set_node-append nodes [] (leaf []) _
  encode-layout (array items) nodes =
      rw
        (
          add_items-layout items (nodes ++ (leaf [] ∷ [])),
          length-snoc nodes (leaf []),
          append_assoc,
          length-item_refs (suc (length nodes)) items,
        )
        (set_node-append nodes (item_layout (suc (length nodes)) items) (leaf []) _)
  encode-layout (dictionary entries) nodes =
      let opened = nodes ++ (leaf [] ∷ []) in
      let n = suc (length nodes) in
      let size : length (opened ++ key_layout entries) ≡ n + entries_length entries = omega (
        arith,
        length-append opened (key_layout entries),
        length-snoc nodes (leaf []),
        length-key_layout entries,
      ) in
      rw
        (
          add_keys-layout entries opened,
          add_values-layout entries (opened ++ key_layout entries),
          size,
          length-snoc nodes (leaf []),
          append_assoc,
          append_assoc,
          length-key_refs n entries,
        )
        (set_node-append nodes
          (key_layout entries ++ value_layout (n + entries_length entries) entries) (leaf []) _)

  add_items-layout :
      (items : Values) (nodes : List Node)
      → add_items items nodes
        ≡ (item_refs (length nodes) items, nodes ++ item_layout (length nodes) items)
  add_items-layout nil nodes = rw append-nil refl
  add_items-layout (cons item items) nodes =
      rw
        (
          encode-layout item nodes,
          add_items-layout items (nodes ++ layout (length nodes) item),
          length-layout nodes item,
          append_assoc,
        )
        refl

  add_values-layout :
      (entries : Entries) (nodes : List Node)
      → add_values entries nodes
        ≡ (value_refs (length nodes) entries, nodes ++ value_layout (length nodes) entries)
  add_values-layout empty nodes = rw append-nil refl
  add_values-layout (entry key value entries) nodes =
      rw
        (
          encode-layout value nodes,
          add_values-layout entries (nodes ++ layout (length nodes) value),
          length-layout nodes value,
          append_assoc,
        )
        refl

-- The nodes of a whole value, the first of them the root.
pub add-layout : (value : PlistValue) → add value [] ≡ (0, layout 0 value)
unfolding add
add-layout value = rw (encode-layout value []) refl
