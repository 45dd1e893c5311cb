-- ===== src/Iap2/Probe/Announcement.antt =====
-- What `begin` announces, as the accessory reads it (src/iap2/carplay_probe.cpp).
use aa2acp.Base.{
  ℕ, ◌+◌, ◌≤◌, ◌<◌, ◌≡◌, refl, sym, ap, ◌∙◌, true, false, [], ◌∷◌, ◌++◌, append-nil, append_assoc,
  some, arith, length, length-append, is_empty, if◌then◌else◌, Bytes,
}
use aa2acp.Iap2.Csm.{Message, encode, bytes_parameter, first_bytes_parameter, next}
use aa2acp.Iap2.Csm.Messages.{next-encode}
use aa2acp.Iap2.Csm.Parameters.{parameters, first_bytes_parameter-parameters}
use aa2acp.Iap2.Probe.{
  append_u16, append_parameter, attributes, without_zero, string_parameter, availability,
  carplay_availability, Probe, Environment, fail, begin,
}

append_parameter_lem :
    (output : Bytes) (id : ℕ) (value : Bytes)
    → append_parameter output id value ≡ output ++ bytes_parameter id value
unfolding append_parameter append_u16
append_parameter_lem output id value =
    let same : length value + 4 ≡ 4 + length value = omega arith in
    rw same (append_assoc (output ++ _) _ value ∙ append_assoc output _ _)

without_zero-append : (bytes : Bytes) → without_zero (bytes ++ 0 ∷ []) ≡ bytes
unfolding without_zero
without_zero-append [] = refl
without_zero-append (a ∷ []) = ap (◌∷◌ a) (without_zero-append [])
without_zero-append (a ∷ b ∷ rest) = ap (◌∷◌ a) (without_zero-append (b ∷ rest))

attributes_lem :
    (b : ℕ) (rest : Bytes)
    → attributes true (b ∷ rest) ≡ parameters ((0, 1 ∷ []) ∷ (1, (b ∷ rest) ++ 0 ∷ []) ∷ [])
unfolding attributes
attributes_lem b rest =
    append_parameter_lem (append_parameter [] 0 (1 ∷ [])) 1 ((b ∷ rest) ++ 0 ∷ [])
    ∙ rw (append_parameter_lem [] 0 (1 ∷ []), append-nil) refl

-- What an accessory finds in a payload of CarPlayAvailability.
abbrev pub Announces : Bytes → Bytes → Type 0
Announces identifier payload =
    (inner : Bytes) × (first_bytes_parameter payload 1 ≡ some inner)
    × (first_bytes_parameter inner 0 ≡ some (1 ∷ []))
    × (string_parameter (record { id = carplay_availability; payload = inner }) 1 ≡ identifier)

string_parameter-some :
    (m : Message) (id : ℕ) (value : Bytes)
    → first_bytes_parameter m.payload id ≡ some value
    → string_parameter m id ≡ without_zero value
unfolding string_parameter
string_parameter-some m id value e = rw (e, string_parameter) refl

string_parameter-attributes :
    (b : ℕ) (rest : Bytes)
    → length rest ≤ 65000
    → string_parameter
        (record { id = carplay_availability; payload = attributes true (b ∷ rest) })
        1
      ≡ b ∷ rest
string_parameter-attributes b rest short =
    let name = (b ∷ rest) ++ 0 ∷ [] in
    let sized = length-append (b ∷ rest) (0 ∷ []) in
    let read =
      first_bytes_parameter-parameters ((0, 1 ∷ []) ∷ (1, name) ∷ []) 1
        (omega arith, omega arith, (omega arith, omega arith, tt)) in
    string_parameter-some _ 1 name
      (ap (λ x. first_bytes_parameter x 1) (attributes_lem b rest) ∙ read)
    ∙ without_zero-append (b ∷ rest)

availability-Announces :
    (identifier : Bytes)
    → 0 < length identifier
    → length identifier ≤ 65000
    → (length (availability identifier) ≤ 65529) × Announces identifier (availability identifier)
unfolding availability
availability-Announces [] some_byte short = absurd (omega arith)
availability-Announces (b ∷ rest) some_byte short =
    let inner = attributes true (b ∷ rest) in
    let name = (b ∷ rest) ++ 0 ∷ [] in
    let sized = length-append (b ∷ rest) (0 ∷ []) in
    let whole : availability (b ∷ rest) ≡ parameters ((1, inner) ∷ []) =
      append_parameter_lem [] 1 inner ∙ sym (append-nil _) in
    let inner_size : length inner ≡ 9 + length name =
      ap length (attributes_lem b rest) ∙ omega (arith, length-append name []) in
    let outer =
      first_bytes_parameter-parameters ((1, inner) ∷ []) 1 (omega arith, omega arith, tt) in
    let first =
      first_bytes_parameter-parameters ((0, 1 ∷ []) ∷ (1, name) ∷ []) 0
        (omega arith, omega arith, (omega arith, omega arith, tt)) in
    (
      omega (arith, ap length whole, length-append (bytes_parameter 1 inner) []),
      (
        inner,
        ap (λ x. first_bytes_parameter x 1) whole ∙ outer,
        ap (λ x. first_bytes_parameter x 0) (attributes_lem b rest) ∙ first,
        string_parameter-attributes b rest (omega arith),
      ),
    )

-- An attached probe with a Bluetooth identifier of one to 65000 bytes, that need not ask for Wi-Fi
-- settings first, sends one CarPlayAvailability message in which the accessory finds that wireless
-- CarPlay is available and that identifier; it has started if the link takes the message, and has
-- failed if not.
pub begin-Announces :
    (env : Environment) (p : Probe) (link : env.Link)
    → p.attached ≡ true
    → p.request_wifi ≡ false
    → 0 < length p.bluetooth_identifier
    → length p.bluetooth_identifier ≤ 65000
    → (payload bytes : Bytes) × (next bytes
        ≡ some (some (record { id = carplay_availability; payload = payload }), []))
      × Announces p.bluetooth_identifier payload
      × (begin env p link ≡ (
        if (env.send_control bytes link).0 then record p { started = true } else fail p,
        (env.send_control bytes link).1,
      ))
unfolding begin
begin-Announces env p link joined direct some_byte short =
    let payload = availability p.bluetooth_identifier in
    let (fits, announces) = availability-Announces p.bluetooth_identifier some_byte short in
    let found = next-encode carplay_availability payload (omega arith) fits [] [] tt in
    (
      payload,
      encode carplay_availability payload,
      rw append-nil at found,
      announces,
      ground (arith, joined, direct, some_byte_first p.bluetooth_identifier some_byte),
    )
  where
    some_byte_first : (bs : Bytes) → 0 < length bs → is_empty bs ≡ false
    some_byte_first [] h = absurd (omega arith)
    some_byte_first (b ∷ bs) h = refl
