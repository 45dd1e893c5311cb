-- ===== src/Iap2/Csm/Streams.antt =====
-- A stream of control-session messages, cut anywhere (csm::Decoder in src/iap2/csm.cpp, and the loops
-- of its owners).
use aa2acp.Base.{
  some-injective, Option-cases, ℕ, zero, suc, ◌+◌, ◌-◌, ◌≤◌, ◌<◌, ◌≡◌, refl, sym, ap, ◌∙◌, List, [],
  ◌∷◌, ◌++◌, Option, none, some, arith, tests, ltb, le→ltb, append_split, Bool-cases, inl, inr,
  length, length-append, All, Bytes, IsU16,
}
use aa2acp.Iap2.Csm.{Message, encode, push, next, drain_loop, drain, maximum_buffer_size}
use aa2acp.Iap2.Csm.Messages.{Answers, next_total, next-encode, next_prefix, next_short}

drain_loop-none :
    (fuel : ℕ) (buffer rest : Bytes)
    → next buffer ≡ some (none, rest)
    → drain_loop (suc fuel) buffer ≡ some ([], rest)
unfolding drain_loop
drain_loop-none fuel buffer rest run = rw (run, drain_loop)

drain_loop-some :
    (fuel : ℕ) (buffer rest : Bytes) (m : Message) (ms : List Message) (left : Bytes)
    → next buffer ≡ some (some m, rest)
    → drain_loop fuel rest ≡ some (ms, left)
    → drain_loop (suc fuel) buffer ≡ some (m ∷ ms, left)
unfolding drain_loop
drain_loop-some fuel buffer rest m ms left run later = rw (run, drain_loop, later)

-- The same two, from what the loop came to.
pub drain_loop_found_none :
    (fuel : ℕ) (buffer left : Bytes) (ms : List Message) (rest : Bytes)
    → next buffer ≡ some (none, left)
    → drain_loop (suc fuel) buffer ≡ some (ms, rest)
    → (ms ≡ []) × (rest ≡ left)
drain_loop_found_none fuel buffer left ms rest run e =
    let same = some-injective _ _ (sym (drain_loop-none fuel buffer left run) ∙ e) in
    (
      sym (ap (λ (o : List Message × Bytes). o.0) same),
      sym (ap (λ (o : List Message × Bytes). o.1) same),
    )

pub drain_loop_found_some :
    (fuel : ℕ) (buffer left : Bytes) (m : Message) (ms : List Message) (rest : Bytes)
    → next buffer ≡ some (some m, left)
    → drain_loop (suc fuel) buffer ≡ some (ms, rest)
    → (ns : List Message) × (ms ≡ m ∷ ns) × (drain_loop fuel left ≡ some (ns, rest))
unfolding drain_loop
drain_loop_found_some fuel buffer left m ms rest run e =
    elim (Option-cases (drain_loop fuel left)) [
      | inl stuck ↦
          let no : Path (Option (List Message × Bytes)) none (some (ms, rest)) =
            rw (run, stuck, drain_loop) at e in
          absurd cc
      | inr ((ns, end), later) ↦
          let same =
            some-injective _ _ (sym (drain_loop-some fuel buffer left m ns end run later) ∙ e) in
          (
            ns,
            sym (ap (λ (o : List Message × Bytes). o.0) same),
            later ∙ ap (λ x. some (ns, x)) (ap (λ (o : List Message × Bytes). o.1) same),
          )
    ]

abbrev Drains : ℕ → Bytes → Type 0
Drains fuel buffer =
    (ms : List Message) × (rest : Bytes) × (drain_loop fuel buffer ≡ some (ms, rest))
    × (length rest ≤ length buffer)

drain_loop_total : (fuel : ℕ) (buffer : Bytes) → length buffer < fuel → Drains fuel buffer
drain_loop_total zero buffer h = absurd (omega arith)
drain_loop_total (suc fuel) buffer h =
    let (m, rest, run, a) = next_total buffer in
    drain_step m rest run a (λ shorter. drain_loop_total fuel rest (omega arith))
  where
    drain_step :
        (m : Option Message) (rest : Bytes)
        → next buffer ≡ some (m, rest)
        → Answers (length buffer) m rest
        → (length rest < length buffer → Drains fuel rest)
        → Drains (suc fuel) buffer
    drain_step none rest run a later = ([], rest, drain_loop-none fuel buffer rest run, a)
    drain_step (some m) rest run a later =
        let (ms, left, rec, b) = later a in
        (m ∷ ms, left, drain_loop-some fuel buffer rest m ms left run rec, omega arith)

-- Draining a buffer always comes to an end, and the buffer never grows.
pub drain_total :
    (buffer : Bytes)
    → (ms : List Message) × (rest : Bytes) × (drain buffer ≡ some (ms, rest))
      × (length rest ≤ length buffer)
unfolding drain
drain_total buffer = drain_loop_total (suc (length buffer)) buffer (omega arith)

-- What `encode` can write.
pub record IsMessage (m : Message) : Type 0 where
  pub id : IsU16 m.id
  pub short : length m.payload ≤ 65529

abbrev pub encode_all : List Message → Bytes
encode_all [] = []
encode_all (m ∷ ms) = encode m.id m.payload ++ encode_all ms

length-encode : (m : Message) → IsMessage m → length (encode m.id m.payload) ≡ 6 + length m.payload
unfolding encode
length-encode m v = rw (le→ltb (65535 - 6) (length m.payload) v.short) (omega arith)

drain_loop-encode_all :
    (ms : List Message) (fuel : ℕ)
    → All IsMessage ms
    → length (encode_all ms) < fuel
    → drain_loop fuel (encode_all ms) ≡ some (ms, [])
drain_loop-encode_all ms zero v h = absurd (omega arith)
drain_loop-encode_all [] (suc fuel) v h = drain_loop-none fuel [] [] (next_short [] (omega arith))
drain_loop-encode_all (m ∷ ms) (suc fuel) v h =
    drain_loop-some fuel (encode_all (m ∷ ms)) (encode_all ms) m ms []
      (next-encode m.id m.payload v.0.id v.0.short [] (encode_all ms) tt)
      (drain_loop-encode_all ms fuel v.1
        (omega (arith, length-append (encode m.id m.payload) (encode_all ms), length-encode m v.0)))

drain-encode_all : (ms : List Message) → All IsMessage ms → drain (encode_all ms) ≡ some (ms, [])
unfolding drain
drain-encode_all ms v = drain_loop-encode_all ms _ v (omega arith)

-- The two halves of a cut stream: the messages of the first, the rest, and the messages of the second.
abbrev Halves : List Message → Bytes → Bytes → ℕ → Type 0
Halves all a b fuel =
    (ms ns : List Message) × (rest : Bytes) × (drain_loop fuel a ≡ some (ms, rest))
    × (drain (rest ++ b) ≡ some (ns, []))
    × (ms ++ ns ≡ all)
    × (length rest ≤ length a)

drain_loop_cut :
    (all : List Message) (a b : Bytes) (fuel : ℕ)
    → All IsMessage all
    → a ++ b ≡ encode_all all
    → length a < fuel
    → Halves all a b fuel
drain_loop_cut all a b zero v e h = absurd (omega arith)
drain_loop_cut [] [] b (suc fuel) v e h = (
  [],
  [],
  [],
  drain_loop-none fuel [] [] (next_short [] (omega arith)),
  drained,
  refl,
  omega arith,
)
  where
    drained : drain b ≡ some ([], [])
    drained = rw e (drain-encode_all [] tt)
drain_loop_cut [] (x ∷ a) b (suc fuel) v e h = absurd (cc)
drain_loop_cut (m ∷ all) a b (suc fuel) v e h =
    let first = encode m.id m.payload in
    elim (Bool-cases (ltb (length a) (length first))) [
      | inl inside ↦
          let (back, front, more) = append_split first (encode_all all) a b (sym e) (omega tests) in
          let part =
            next_prefix m.id m.payload v.0.id v.0.short a back front
              (omega (arith, tests, ap length front, length-append a back)) in
          (
            [],
            m ∷ all,
            a,
            drain_loop-none fuel a a part,
            rw e (drain-encode_all (m ∷ all) v),
            refl,
            omega arith,
          )
      | inr beyond ↦
          let (behind, split, rest) = append_split a b first (encode_all all) e (ground arith) in
          let lengths : length a ≡ 6 + length m.payload + length behind =
            omega (arith, ap length split, length-append first behind, length-encode m v.0) in
          let (ms, ns, left, run, later, whole, shorter) =
            drain_loop_cut all behind b fuel v.1 rest (omega arith) in
          let hit : next a ≡ some (some m, behind) =
            rw split (next-encode m.id m.payload v.0.id v.0.short [] behind tt) in
          (
            m ∷ ms,
            ns,
            left,
            drain_loop-some fuel a behind m ms left hit run,
            later,
            ap (◌∷◌ m) whole,
            omega arith,
          )
    ]

push_fits :
    (buffer bytes : Bytes)
    → length buffer + length bytes ≤ maximum_buffer_size
    → push buffer bytes ≡ buffer ++ bytes
unfolding push
push_fits buffer bytes h = ground arith

-- A stream of encoded messages, of at most 128 KiB and cut in two anywhere, also inside a message,
-- gives exactly its messages in order: some from the first chunk, the others from the second, with
-- nothing left.
pub drain_chunks :
    (all : List Message) (a b : Bytes)
    → All IsMessage all
    → a ++ b ≡ encode_all all
    → length (a ++ b) ≤ maximum_buffer_size
    → (ms ns : List Message) × (rest : Bytes) × (drain (push [] a) ≡ some (ms, rest))
      × (drain (push rest b) ≡ some (ns, []))
      × (ms ++ ns ≡ all)
unfolding drain
drain_chunks all a b v e h =
    let (ms, ns, rest, run, later, whole, shorter) =
      drain_loop_cut all a b (suc (length a)) v e (omega arith) in
    let total = length-append a b in
    (
      ms,
      ns,
      rest,
      rw (push_fits [] a (omega arith)) run,
      rw (push_fits rest b (omega arith)) later,
      whole,
    )
