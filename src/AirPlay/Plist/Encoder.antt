-- ===== src/AirPlay/Plist/Encoder.antt =====
-- The encoder of src/airplay/bplist.cpp: a list of nodes that grows, then the file.
use aa2acp.Base.{ℕ, zero, suc, ◌-◌, Bool, true, false, List, [], ◌∷◌, ◌++◌, length, Bytes}
use aa2acp.AirPlay.Plist.{
  PlistValue, boolean, integer, real, string, blob, array, dictionary, Values, nil, cons, Entries,
  empty, entry, magic, big_endian, bytes_for, count_marker, encode_integer,
}

pub record Node : Type 0 where
  pub bytes : Bytes
  pub refs : List ℕ

abbrev pub leaf : Bytes → Node
leaf bytes = record { bytes = bytes; refs = [] }

-- `nodes_[index] = node`; the index is one of a node already added.
unfoldable pub set_node : ℕ → Node → List Node → List Node
set_node index node [] = []
set_node zero node (n ∷ nodes) = node ∷ nodes
set_node (suc index) node (n ∷ nodes) = n ∷ set_node index node nodes

abbrev pub boolean_byte : Bool → ℕ
boolean_byte true = 9
boolean_byte false = 8

-- The overloads of `encode`. Each loop of `add` is inlined in it: a node is added empty, at the
-- index that `add` returns, and filled in.
unfoldable mutual
  pub encode : ℕ → PlistValue → List Node → List Node
  encode index (boolean value) nodes = set_node index (leaf (boolean_byte value ∷ [])) nodes
  encode index (integer value) nodes = set_node index (leaf (encode_integer value)) nodes
  encode index (real value) nodes = set_node index (leaf (35 ∷ big_endian value 8)) nodes
  encode index (string value) nodes =
      set_node index (leaf (count_marker 5 (length value) ++ value)) nodes
  encode index (blob value) nodes =
      set_node index (leaf (count_marker 4 (length value) ++ value)) nodes
  encode index (array items) nodes =
      let (refs, more) = add_items items nodes in
      set_node index (record { bytes = count_marker 10 (length refs); refs = refs }) more
  encode index (dictionary entries) nodes =
      let (keys, more) = add_keys entries nodes in
      let (values, most) = add_values entries more in
      set_node index (record { bytes = count_marker 13 (length keys); refs = keys ++ values }) most

  pub add_items : Values → List Node → List ℕ × List Node
  add_items nil nodes = ([], nodes)
  add_items (cons item items) nodes =
      let (refs, more) = add_items items (encode (length nodes) item (nodes ++ (leaf [] ∷ []))) in
      (length nodes ∷ refs, more)

  pub add_keys : Entries → List Node → List ℕ × List Node
  add_keys empty nodes = ([], nodes)
  add_keys (entry key value entries) nodes =
      let (refs, more) = add_keys entries (
        set_node (length nodes) (leaf (count_marker 5 (length key) ++ key))
          (nodes ++ (leaf [] ∷ []))) in
      (length nodes ∷ refs, more)

  pub add_values : Entries → List Node → List ℕ × List Node
  add_values empty nodes = ([], nodes)
  add_values (entry key value entries) nodes =
      let (refs, more) =
        add_values entries (encode (length nodes) value (nodes ++ (leaf [] ∷ []))) in
      (length nodes ∷ refs, more)

unfoldable pub add : PlistValue → List Node → ℕ × List Node
add value nodes = (length nodes, encode (length nodes) value (nodes ++ (leaf [] ∷ [])))

-- `append_be` of each number, at one size.
unfoldable pub append_all : ℕ → List ℕ → Bytes
append_all size [] = []
append_all size (n ∷ numbers) = big_endian n size ++ append_all size numbers

-- The loop of `finish` over the nodes: the offset of each, and the bytes so far.
unfoldable pub write_nodes : ℕ → List Node → Bytes → List ℕ × Bytes
write_nodes ref_size [] result = ([], result)
write_nodes ref_size (node ∷ nodes) result =
    let (offsets, final) =
      write_nodes ref_size nodes (result ++ (node.bytes ++ append_all ref_size node.refs)) in
    (length result ∷ offsets, final)

unfoldable pub finish : ℕ → List Node → Bytes
finish top nodes =
    let ref_size = bytes_for (length nodes - 1) in
    let (offsets, body) = write_nodes ref_size nodes magic in
    let offset_size = bytes_for (length body) in
    body
    ++ append_all offset_size offsets
    ++ (0 ∷ 0 ∷ 0 ∷ 0 ∷ 0 ∷ 0 ∷ offset_size ∷ ref_size ∷ [])
    ++ big_endian (length nodes) 8
    ++ big_endian top 8
    ++ big_endian (length body) 8

unfoldable pub encode_bplist : PlistValue → Bytes
encode_bplist root = let (top, nodes) = add root [] in finish top nodes
