-- ===== src/AirPlay/Plist/File.antt =====
-- The file that `finish` writes, as the decoder finds it: each node at its offset, the offset table,
-- the trailer (src/airplay/bplist.cpp).
use aa2acp.Base.{
  ℕ, suc, ◌+◌, ◌*◌, ◌≤◌, ◌<◌, ◌^◌, ◌≡◌, refl, sym, ap, subst, ◌∙◌, List, [], ◌∷◌, ◌++◌, append-nil,
  append_assoc, some, arith, lt→leb, length, length-append, get_or, get_or-append_head, All, Bytes,
}
use native.Mathlib.Nat.{suc-mul}
use aa2acp.AirPlay.Plist.{big_endian}
use aa2acp.AirPlay.Plist.BigEndian.{Fits, length-big_endian}
use aa2acp.AirPlay.Plist.Placed.{StandsAt, StandsAt-skip, StandsAt-read_be}
use aa2acp.AirPlay.Plist.Encoder.{Node, append_all, write_nodes}
use aa2acp.AirPlay.Plist.Decoder.{Decoder, read_refs, read_offsets}

abbrev pub render : ℕ → Node → Bytes
render size node = node.bytes ++ append_all size node.refs

abbrev pub render_all : ℕ → List Node → Bytes
render_all size [] = []
render_all size (node ∷ nodes) = render size node ++ render_all size nodes

-- Where each node starts.
abbrev pub starts : ℕ → ℕ → List Node → List ℕ
starts size offset [] = []
starts size offset (node ∷ nodes) = offset ∷ starts size (offset + length (render size node)) nodes

pub write_nodes-render_all :
    (size : ℕ) (nodes : List Node) (result : Bytes)
    → write_nodes size nodes result
      ≡ (starts size (length result) nodes, result ++ render_all size nodes)
unfolding write_nodes
write_nodes-render_all size [] result = rw append-nil refl
write_nodes-render_all size (node ∷ nodes) result =
    rw
      (
        write_nodes-render_all size nodes (result ++ render size node),
        length-append result (render size node),
        append_assoc result (render size node) (render_all size nodes),
      )
      refl

pub length-append_all :
    (size : ℕ) (numbers : List ℕ) → length (append_all size numbers) ≡ length numbers * size
unfolding append_all
length-append_all size [] = omega arith
length-append_all size (n ∷ numbers) =
    length-append (big_endian n size) (append_all size numbers)
    ∙ rw (length-big_endian n size, length-append_all size numbers)
        (omega (arith, suc-mul (length numbers) size))

-- Numbers written at one size are read back: the references of a node, each to a node.
pub read_refs-append_all :
    (d : Decoder) (start : ℕ) (refs : List ℕ) (tail : Bytes)
    → d.ref_size ≤ 8
    → All (λ ref. (ref < 2 ^ 64) × Fits ref d.ref_size × (ref < length d.offsets)) refs
    → StandsAt d.bytes start (append_all d.ref_size refs ++ tail)
    → read_refs d (length refs) start ≡ some refs
unfolding read_refs append_all
read_refs-append_all d start [] tail width fits found = refl
read_refs-append_all d start (ref ∷ refs) tail width ((small, fit, inside), fits) found =
    let found' =
      rw (append_assoc (big_endian ref d.ref_size) (append_all d.ref_size refs) tail) at found in
    let first = StandsAt-read_be start ref d.ref_size _ small fit width found' in
    let later = StandsAt-skip start d.ref_size _ _ (length-big_endian ref d.ref_size) found' in
    let others = read_refs-append_all d (start + d.ref_size) refs tail width fits later in
    rw (first, others, lt→leb (length d.offsets) ref inside) refl

pub read_offsets-append_all :
    (bytes : Bytes) (table size start : ℕ) (offsets : List ℕ) (tail : Bytes)
    → size ≤ 8
    → All (λ offset. (offset < 2 ^ 64) × Fits offset size × (offset < table)) offsets
    → StandsAt bytes start (append_all size offsets ++ tail)
    → read_offsets bytes table size (length offsets) start ≡ some offsets
unfolding read_offsets append_all
read_offsets-append_all bytes table size start [] tail width fits found = refl
read_offsets-append_all bytes table size start (n ∷ offsets) tail width ((small, fit, inside), fits)
      found =
    let found' = rw (append_assoc (big_endian n size) (append_all size offsets) tail) at found in
    let first = StandsAt-read_be start n size _ small fit width found' in
    let later = StandsAt-skip start size _ _ (length-big_endian n size) found' in
    let others =
      read_offsets-append_all bytes table size (start + size) offsets tail width fits later in
    rw (first, others, lt→leb table n inside) refl

-- A node stands at the offset that the table gives for it.
abbrev pub IsStored : Decoder → ℕ → Node → Type 0
IsStored d n node =
    (n < length d.offsets)
    × (tail : Bytes) × StandsAt d.bytes (get_or d.offsets n 0) (render d.ref_size node ++ tail)

abbrev pub AreStored : Decoder → ℕ → List Node → Type 0
AreStored d n [] = Unit {0}
AreStored d n (node ∷ nodes) = IsStored d n node × AreStored d (suc n) nodes

pub AreStored-append :
    (d : Decoder) (n m : ℕ) (nodes more : List Node)
    → length nodes ≡ m
    → AreStored d n (nodes ++ more)
    → AreStored d n nodes × AreStored d (n + m) more
AreStored-append d n m [] more e h = (tt, subst (λ k. AreStored d k more) (omega arith) h)
AreStored-append d n m (node ∷ nodes) more e (h, rest) =
    let (front, back) = AreStored-append d (suc n) (length nodes) nodes more refl rest in
    ((h, front), subst (λ k. AreStored d k more) (omega arith) back)

-- All nodes of a file are stored.
pub AreStored-render_all :
    (d : Decoder) (nodes : List Node) (result tail : Bytes) (done : List ℕ)
    → d.bytes ≡ result ++ (render_all d.ref_size nodes ++ tail)
    → d.offsets ≡ done ++ starts d.ref_size (length result) nodes
    → AreStored d (length done) nodes
AreStored-render_all d [] result tail done file table = tt
AreStored-render_all d (node ∷ nodes) result tail done file table =
    let chunk = render d.ref_size node in
    let place = length result in
    let others = starts d.ref_size (place + length chunk) nodes in
    let behind = render_all d.ref_size nodes ++ tail in
    let here : get_or d.offsets (length done) 0 ≡ place =
      rw table (get_or-append_head done others place 0) in
    let there : length done < length d.offsets =
      rw table (omega (arith, length-append done (place ∷ others))) in
    let spread : d.bytes ≡ result ++ (chunk ++ behind) =
      file
      ∙ ap (λ bytes. result ++ bytes) (append_assoc chunk (render_all d.ref_size nodes) tail) in
    let stored : IsStored d (length done) node = (there, behind, (result, spread, sym here)) in
    let file' : d.bytes ≡ (result ++ chunk) ++ (render_all d.ref_size nodes ++ tail) =
      spread ∙ sym (append_assoc result chunk behind) in
    let table' : d.offsets
        ≡ (done ++ (place ∷ [])) ++ starts d.ref_size (length (result ++ chunk)) nodes =
      table ∙ rw (append_assoc, length-append result chunk) refl in
    (
      stored,
      subst (λ k. AreStored d k nodes) (omega (arith, length-append done (place ∷ [])))
          (AreStored-render_all d nodes (result ++ chunk) tail (done ++ (place ∷ [])) file' table'),
    )
