-- ===== src/Iap2/Csm/Parameters.antt =====
-- The search for a parameter, and what the signature check accepts (src/iap2/csm.cpp).
use aa2acp.Base.{
  some-injective, ℕ, zero, suc, ◌+◌, ◌-◌, ◌≤◌, ◌<◌, ◌≡◌, ◌↔◌, ◌⊎◌, inl, inr, refl, sym, ap, ◌∙◌,
  true, ◌&&◌, List, [], ◌∷◌, ◌++◌, append-nil, Option, none, some, arith, ◌==◌, length,
  length-append, take, drop, take-append_length, drop-append_length, Bytes, IsU16, read_u16, le→ltb,
  ==_refl, Option-cases, if◌then◌else◌,
}
use aa2acp.Iap2.Csm.{
  OpenSsl, recover, bytes_parameter, encode, encode_bytes_parameter, first_bytes_parameter_loop,
  first_bytes_parameter, next, is_prefix, sha1_digest_info_prefix, recovered_matches,
  verify_mfi_v2_signature,
}
use aa2acp.Iap2.Csm.Messages.{next-encode}

-- A list of parameters as they stand in a payload, for identifiers and values of 16 bits.
abbrev pub parameters : List (ℕ × Bytes) → Bytes
parameters [] = []
parameters ((id, value) ∷ rest) = bytes_parameter id value ++ parameters rest

abbrev pub AreParameters : List (ℕ × Bytes) → Type 0
AreParameters [] = Unit {0}
AreParameters ((id, value) ∷ rest) = IsU16 id × (length value ≤ 65531) × AreParameters rest

-- The value of the first parameter of an identifier.
abbrev pub lookup_parameter : List (ℕ × Bytes) → ℕ → Option Bytes
lookup_parameter [] wanted = none
lookup_parameter ((id, value) ∷ rest) wanted =
    if id == wanted then some value else lookup_parameter rest wanted

first_bytes_parameter_loop_sized :
    (fuel : ℕ) (buffer : Bytes) (size wanted : ℕ)
    → read_u16 buffer 0 ≡ size
    → 4 ≤ size
    → size ≤ length buffer
    → first_bytes_parameter_loop (suc fuel) buffer wanted ≡ (
        if read_u16 buffer 2 == wanted
        then some (take (size - 4) (drop 4 buffer))
        else first_bytes_parameter_loop fuel (drop size buffer) wanted)
unfolding first_bytes_parameter_loop
first_bytes_parameter_loop_sized fuel buffer size wanted e large present = rw (
  e,
  le→ltb size 4 large,
  le→ltb (length buffer) size present,
  le→ltb (length buffer) 4 (omega arith),
)

first_bytes_parameter_loop-parameters :
    (ps : List (ℕ × Bytes)) (fuel wanted : ℕ)
    → AreParameters ps
    → length (parameters ps) < fuel
    → first_bytes_parameter_loop fuel (parameters ps) wanted ≡ lookup_parameter ps wanted
unfolding first_bytes_parameter_loop
first_bytes_parameter_loop-parameters ps zero wanted v h = absurd (omega arith)
first_bytes_parameter_loop-parameters [] (suc fuel) wanted v h = refl
first_bytes_parameter_loop-parameters ((id, value) ∷ rest) (suc fuel) wanted v h =
    let size = 4 + length value in
    let buffer = bytes_parameter id value ++ parameters rest in
    let size_read : read_u16 buffer 0 ≡ size = omega arith in
    let id_read : read_u16 buffer 2 ≡ id = omega arith in
    let total = length-append value (parameters rest) in
    let behind : drop size buffer ≡ parameters rest =
      drop-append_length size (bytes_parameter id value) (parameters rest) (omega arith) in
    let body : take (size - 4) (drop 4 buffer) ≡ value =
      take-append_length (size - 4) value (parameters rest) (omega arith) in
    first_bytes_parameter_loop_sized fuel buffer size wanted size_read (omega arith) (omega arith)
    ∙ rw (
      id_read,
      body,
      behind,
      first_bytes_parameter_loop-parameters rest fuel wanted v.2 (omega arith),
    )

-- On a payload of well-formed parameters the search gives the value of the first parameter of the
-- wanted identifier, and nothing if there is none.
pub first_bytes_parameter-parameters :
    (ps : List (ℕ × Bytes)) (wanted : ℕ)
    → AreParameters ps
    → first_bytes_parameter (parameters ps) wanted ≡ lookup_parameter ps wanted
unfolding first_bytes_parameter
first_bytes_parameter-parameters ps wanted v =
    first_bytes_parameter_loop-parameters ps _ wanted v (omega arith)

-- What `encode_bytes_parameter` wrote is read back: the decoder finds one message of the identifier
-- in it, and the search finds the value in its payload. The value has at most 65525 bytes.
pub encode_bytes_parameter_lem :
    (id parameter_id : ℕ) (value : Bytes)
    → IsU16 id
    → IsU16 parameter_id
    → length value ≤ 65525
    → (payload : Bytes) × (next (encode_bytes_parameter id parameter_id value)
        ≡ some (some (record { id = id; payload = payload }), []))
      × (first_bytes_parameter payload parameter_id ≡ some value)
unfolding encode_bytes_parameter
encode_bytes_parameter_lem id parameter_id value id_fits parameter_fits short =
    let payload : Bytes = bytes_parameter parameter_id value in
    let found : next (encode id payload ++ [])
        ≡ some (some (record { id = id; payload = payload }), []) =
      next-encode id payload id_fits (omega arith) [] [] tt in
    let searched =
      first_bytes_parameter-parameters ((parameter_id, value) ∷ []) parameter_id
        (parameter_fits, omega arith, tt) in
    (
      payload,
      rw (le→ltb (65535 - 10) (length value) short) (rw append-nil at found),
      rw (append-nil, ==_refl) at searched,
    )

is_prefix_iff : (ps bs : Bytes) → length ps ≡ length bs → (is_prefix ps bs ≡ true) ↔ (bs ≡ ps)
unfolding is_prefix
is_prefix_iff [] [] e = (λ _. refl, λ _. refl)
is_prefix_iff [] (b ∷ bs) e = absurd (omega arith)
is_prefix_iff (p ∷ ps) [] e = absurd (omega arith)
is_prefix_iff (p ∷ ps) (b ∷ bs) e =
    let (to, from) = is_prefix_iff ps bs (omega arith) in
    (λ h. ground (arith, to), λ h. ground (arith, from))

is_prefix-append :
    (ps qs bs : Bytes)
    → is_prefix (ps ++ qs) bs ≡ (is_prefix ps bs && is_prefix qs (drop (length ps) bs))
unfolding is_prefix
is_prefix-append [] qs bs = refl
is_prefix-append (p ∷ ps) [] [] = refl
is_prefix-append (p ∷ ps) (q ∷ qs) [] = refl
is_prefix-append (p ∷ ps) qs (b ∷ bs) = ground (arith, is_prefix-append ps qs bs)

-- The recovered bytes match exactly if they are the challenge, or the digest prefix and the challenge.
recovered_matches_iff :
    (challenge recovered : Bytes)
    → (recovered_matches challenge recovered ≡ true)
      ↔ ((recovered ≡ challenge) ⊎ (recovered ≡ sha1_digest_info_prefix ++ challenge))
unfolding recovered_matches
recovered_matches_iff challenge recovered =
    let signed : Bytes = sha1_digest_info_prefix ++ challenge in
    let parts = is_prefix-append sha1_digest_info_prefix challenge recovered in
    let raw : length challenge ≡ length recovered
        → is_prefix challenge recovered ≡ true
        → recovered ≡ challenge =
      λ e. (is_prefix_iff challenge recovered e).0 in
    let info : length signed ≡ length recovered
        → is_prefix signed recovered ≡ true
        → recovered ≡ signed =
      λ e. (is_prefix_iff signed recovered e).0 in
    (
      λ h. grind arith,
      elim [
        | inl e ↦
            let same = (is_prefix_iff challenge recovered (ap length (sym e))).1 e in
            ground (arith, ap length e)
        | inr e ↦
            let same = (is_prefix_iff signed recovered (ap length (sym e))).1 e in
            ground (arith, ap length e)
      ],
    )

-- A signature is accepted exactly if RSA recovers from it, with the key of the signer's certificate,
-- the challenge itself or the challenge behind the fixed digest prefix.
pub verify_mfi_v2_signature_iff :
    (ssl : OpenSsl) (challenge signature certificate : Bytes)
    → (verify_mfi_v2_signature ssl challenge signature certificate ≡ true) ↔ (
        (recover ssl signature certificate ≡ some challenge)
        ⊎ (recover ssl signature certificate ≡ some (sha1_digest_info_prefix ++ challenge)))
unfolding verify_mfi_v2_signature
verify_mfi_v2_signature_iff ssl challenge signature certificate =
    elim (Option-cases (recover ssl signature certificate)) [
      | inl e ↦ rw e ((λ h. cc), elim [ inl h ↦ cc | inr h ↦ cc ])
      | inr (recovered, e) ↦
          let (to, from) = recovered_matches_iff challenge recovered in
          let verified : verify_mfi_v2_signature ssl challenge signature certificate
              ≡ recovered_matches challenge recovered =
            rw (e, verify_mfi_v2_signature) in
          rw e (
            (λ h. elim (to (sym verified ∙ h)) [
              | inl q ↦ inl (ap some q)
              | inr q ↦ inr (ap some q)
            ]),
            elim [
              | inl q ↦ verified ∙ from (inl (some-injective _ _ q))
              | inr q ↦ verified ∙ from (inr (some-injective _ _ q))
            ],
          )
    ]
