-- ===== src/AirPlay/Tlv8/RoundTrip.antt =====
-- `decode_tlv8` reads back what `encode_tlv8` wrote (src/airplay/rtsp.cpp).
use aa2acp.Base.{
  ℕ, zero, suc, ◌+◌, ◌≤◌, ◌<◌, ◌≡◌, inl, inr, refl, sym, ap, ◌∙◌, min, List, [], ◌∷◌, ◌++◌,
  append-nil, append_assoc, Option, none, some, arith, ltb, ◌==◌, if◌then◌else◌, length,
  length-append, length-drop, length-take, take, drop, take-append_length, drop-append_length,
  take-append-drop, get_or, is_empty, Bytes, Bool-cases, ==_refl,
}
use aa2acp.AirPlay.Tlv8.{
  encode_value, encode_tlv8, Map, append_at, lookup, decode_loop, decode_tlv8,
}

append_at-append_at :
    (type : ℕ) (a b : Bytes) (m : Map)
    → append_at type b (append_at type a m) ≡ append_at type (a ++ b) m
unfolding append_at
append_at-append_at type a b [] = rw (==_refl type) refl
append_at-append_at type a b ((t, old) ∷ rest) =
    ground (arith, append_assoc old a b, append_at-append_at type a b rest)

-- The value of a type after an append.
abbrev appended : Option Bytes → Bytes → Bytes
appended none bytes = bytes
appended (some old) bytes = old ++ bytes

lookup-append_at :
    (type : ℕ) (bytes : Bytes) (m : Map) (wanted : ℕ)
    → lookup (append_at type bytes m) wanted
      ≡ (if type == wanted then some (appended (lookup m type) bytes) else lookup m wanted)
unfolding lookup append_at
lookup-append_at type bytes [] wanted = refl
lookup-append_at type bytes ((t, old) ∷ rest) wanted =
    ground (arith, lookup-append_at type bytes rest wanted)

-- The loop comes to a result, whatever the fuel beyond the number of bytes.
abbrev Decodes : Bytes → Map → Map → Type 0
Decodes bytes m result = (fuel : ℕ) → length bytes < fuel → decode_loop fuel bytes m ≡ some result

Decodes-nil : (m : Map) → Decodes [] m m
unfolding decode_loop
Decodes-nil m zero h = absurd (omega arith)
Decodes-nil m (suc fuel) h = refl

decode_loop-piece :
    (fuel type : ℕ) (piece rest : Bytes) (m : Map)
    → length piece ≤ 255
    → decode_loop (suc fuel) (type ∷ length piece ∷ piece ++ rest) m
      ≡ decode_loop fuel rest (append_at type piece m)
unfolding decode_loop
decode_loop-piece fuel type piece rest m short =
    let behind = drop-append_length (length piece) piece rest refl in
    let front = take-append_length (length piece) piece rest refl in
    let total = length-append piece rest in ground (arith, behind, front)

Decodes-piece :
    (type size : ℕ) (piece rest : Bytes) (m result : Map)
    → length piece ≡ size
    → size ≤ 255
    → Decodes rest (append_at type piece m) result
    → Decodes (type ∷ size ∷ piece ++ rest) m result
Decodes-piece type size piece rest m result e short later zero h = absurd (omega arith)
Decodes-piece type size piece rest m result e short later (suc fuel) h =
    rw (sym e) (decode_loop-piece fuel type piece rest m (omega arith))
    ∙ later fuel (omega (arith, length-append piece rest))

-- What the pieces of a value do to the map.
abbrev append_value : ℕ → Bytes → Map → Map
append_value type value m = if is_empty value then m else append_at type value m

append_value-append_at :
    (type : ℕ) (piece more : Bytes) (m : Map)
    → append_value type more (append_at type piece m) ≡ append_at type (piece ++ more) m
append_value-append_at type piece [] m = rw append-nil refl
append_value-append_at type piece (b ∷ more) m = append_at-append_at type piece (b ∷ more) m

Decodes-encode_value :
    (n type : ℕ) (value rest : Bytes) (m result : Map)
    → length value ≤ n
    → Decodes rest (append_value type value m) result
    → Decodes (encode_value n type value ++ rest) m result
unfolding encode_value
Decodes-encode_value zero type [] rest m result h later = later
Decodes-encode_value zero type (b ∷ value) rest m result h later = absurd (omega arith)
Decodes-encode_value (suc n) type [] rest m result h later = later
Decodes-encode_value (suc n) type (b ∷ value) rest m result h later =
    let whole = b ∷ value in
    let size = min 255 (length whole) in
    let piece = take size whole in
    let more = drop size whole in
    let parts : piece ++ more ≡ whole = take-append-drop size whole in
    let rec : Decodes (encode_value n type more ++ rest) (append_at type piece m) result =
      Decodes-encode_value n type more rest (append_at type piece m) result
        (omega (arith, length-drop size whole))
        (rw (append_value-append_at type piece more m, parts) later) in
    rw (append_assoc piece (encode_value n type more) rest) (
      Decodes-piece type size piece (encode_value n type more ++ rest) m result
        (omega (arith, length-take size whole)) (omega arith) rec)

abbrev merge : List (ℕ × Bytes) → Map → Map
merge [] m = m
merge ((type, value) ∷ fields) m = merge fields (append_value type value m)

Decodes-encode_tlv8 :
    (fields : List (ℕ × Bytes)) (m : Map) → Decodes (encode_tlv8 fields) m (merge fields m)
unfolding encode_tlv8
Decodes-encode_tlv8 [] m = Decodes-nil m
Decodes-encode_tlv8 ((type, value) ∷ fields) m =
    Decodes-encode_value (length value) type value (encode_tlv8 fields) m _ (omega arith)
      (Decodes-encode_tlv8 fields (append_value type value m))

-- The values of a type, one behind the other.
abbrev pub values_of : List (ℕ × Bytes) → ℕ → Bytes
values_of [] wanted = []
values_of ((type, value) ∷ fields) wanted =
    if type == wanted then value ++ values_of fields wanted else values_of fields wanted

abbrev joined : Option Bytes → Bytes → Option Bytes
joined old values = if is_empty values then old else some (appended old values)

joined-append : (old : Option Bytes) (a b : Bytes) → joined (joined old a) b ≡ joined old (a ++ b)
joined-append old [] b = refl
joined-append none (x ∷ a) [] = rw append-nil refl
joined-append (some old) (x ∷ a) [] = rw append-nil refl
joined-append none (x ∷ a) (y ∷ b) = refl
joined-append (some old) (x ∷ a) (y ∷ b) = ap some (append_assoc old (x ∷ a) (y ∷ b))

lookup-append_value :
    (type : ℕ) (value : Bytes) (m : Map) (wanted : ℕ)
    → lookup (append_value type value m) wanted
      ≡ (if type == wanted then joined (lookup m wanted) value else lookup m wanted)
lookup-append_value type [] m wanted = ground arith
lookup-append_value type (b ∷ value) m wanted =
    ground (arith, lookup-append_at type (b ∷ value) m wanted)

lookup-merge :
    (fields : List (ℕ × Bytes)) (m : Map) (wanted : ℕ)
    → lookup (merge fields m) wanted ≡ joined (lookup m wanted) (values_of fields wanted)
lookup-merge [] m wanted = refl
lookup-merge ((type, value) ∷ fields) m wanted =
    lookup-merge fields (append_value type value m) wanted
    ∙ rw (lookup-append_value type value m wanted)
        (ground (arith, joined-append (lookup m wanted) value (values_of fields wanted)))

-- The decoder reads encoded fields back: a type has its values joined in order, also those of more
-- than 255 bytes, and no entry if all of them are empty or there are none.
pub decode_tlv8-encode_tlv8 :
    (fields : List (ℕ × Bytes))
    → (m : Map) × (decode_tlv8 (encode_tlv8 fields) ≡ some m)
      × ((wanted : ℕ)
          → lookup m wanted
            ≡ (if is_empty (values_of fields wanted) then none else some (values_of fields wanted)))
unfolding decode_tlv8 lookup
decode_tlv8-encode_tlv8 fields = (
  merge fields [],
  Decodes-encode_tlv8 fields [] _ (omega arith),
  λ wanted. lookup-merge fields [] wanted,
)

decode_loop_total :
    (fuel : ℕ) (bytes : Bytes) (m : Map)
    → length bytes < fuel
    → (result : Map) × (decode_loop fuel bytes m ≡ some result)
unfolding decode_loop
decode_loop_total zero bytes m h = absurd (omega arith)
decode_loop_total (suc fuel) bytes m h =
    let size = get_or bytes 1 0 in
    let next = append_at (get_or bytes 0 0) (take size (drop 2 bytes)) m in
    elim (Bool-cases (ltb (length bytes) 2)) [
      | inl short ↦ (m, ground (arith, short))
      | inr long ↦ elim (Bool-cases (ltb (length bytes) (2 + size))) [
        | inl cut ↦ ([], ground (arith, long, cut))
        | inr whole ↦
            let two : 2 ≤ length bytes = ground arith in
            let (result, run) =
              decode_loop_total fuel (drop (2 + size) bytes) next
                (omega (arith, length-drop (2 + size) bytes)) in
            (result, ground (arith, long, whole, run))
      ]
    ]

-- `decode_tlv8` comes to a result on all bytes.
pub decode_tlv8_total : (bytes : Bytes) → (m : Map) × (decode_tlv8 bytes ≡ some m)
unfolding decode_tlv8
decode_tlv8_total bytes = decode_loop_total (suc (length bytes)) bytes [] (omega arith)
