-- ===== src/Bridge/Config/RoundTrip.antt =====
-- What was saved is loaded again (src/bridge/config.cpp).
use aa2acp.Base.{
  ◌≡◌, ◌⊎◌, inl, inr, refl, sym, ap, ◌∙◌, Bool, true, false, not, ◌&&◌, List, [], ◌∷◌, ◌++◌,
  append_assoc, none, some, arith, ◌==◌, if◌then◌else◌, is_empty, Bytes, Bool-cases,
}
use aa2acp.Bridge.Config.{
  magic, head_unit_mac_key, wifi_interface_key, management_hotspot_ssid_key,
  management_hotspot_passphrase_key, airplay_pairing_store_key, Config, empty_config, valid_key,
  valid_serialized_value, validate_config, lines, split_line, set_field, load_lines, load_config,
  line_of, saved_content, fields_of, load_content,
}

abbrev no_newline : Bytes → Bool
no_newline [] = true
no_newline (c ∷ rest) = not (c == 10) && no_newline rest

no_newline-value : (value : Bytes) → valid_serialized_value value ≡ true → no_newline value ≡ true
unfolding valid_serialized_value
no_newline-value [] h = refl
no_newline-value (c ∷ value) h = ground (arith, no_newline-value value)

lines-append :
    (line rest : Bytes) → no_newline line ≡ true → lines (line ++ 10 ∷ rest) ≡ line ∷ lines rest
unfolding lines
lines-append [] rest h = refl
lines-append (c ∷ line) rest h =
    let other : (c == 10) ≡ false = ground arith in
    let later : no_newline line ≡ true = ground arith in
    rw (other, lines-append line rest later) refl

lines-line_of :
    (key value rest : Bytes)
    → no_newline (key ++ 61 ∷ value) ≡ true
    → lines (line_of key value rest) ≡ (key ++ 61 ∷ value) ∷ lines rest
lines-line_of key value rest h =
    ap lines (sym (append_assoc key (61 ∷ value) (10 ∷ rest)))
    ∙ lines-append (key ++ 61 ∷ value) rest h

abbrev no_equals : Bytes → Bool
no_equals [] = true
no_equals (c ∷ rest) = not (c == 61) && no_equals rest

split_line-append :
    (key value : Bytes) → no_equals key ≡ true → split_line (key ++ 61 ∷ value) ≡ some (key, value)
unfolding split_line
split_line-append [] value h = ground arith
split_line-append (c ∷ key) value h =
    let other : (c == 61) ≡ false = ground arith in
    let later : no_equals key ≡ true = ground arith in
    rw (split_line-append key value later, other) refl

load_lines-line :
    (key value : Bytes) (rest : List Bytes) (config : Config)
    → no_equals key ≡ true
    → valid_key key ≡ true
    → load_lines ((key ++ 61 ∷ value) ∷ rest) config ≡ load_lines rest (set_field key value config)
unfolding load_lines
load_lines-line key value rest config h k = rw (split_line-append key value h, k, load_lines) refl

-- A valid configuration has its required fields, and none of its values holds a line feed.
abbrev IsPlain : Config → Type 0
IsPlain c =
    (valid_serialized_value c.head_unit_mac ≡ true)
    × (valid_serialized_value c.wifi_interface ≡ true)
    × (valid_serialized_value c.management_hotspot_ssid ≡ true)
    × (valid_serialized_value c.management_hotspot_passphrase ≡ true)
    × (valid_serialized_value c.airplay_pairing_store ≡ true)

validate_config-IsPlain : (c : Config) → validate_config c false ≡ true → IsPlain c
unfolding validate_config
validate_config-IsPlain c h = ground (arith, h)

validate_config-legacy :
    (c : Config) → validate_config c false ≡ true → validate_config c true ≡ true
unfolding validate_config
validate_config-legacy c h = ground (arith, h)

load_line :
    (key value rest : Bytes) (config : Config)
    → no_newline (key ++ 61 ∷ value) ≡ true
    → no_equals key ≡ true
    → valid_key key ≡ true
    → load_lines (lines (line_of key value rest)) config
      ≡ load_lines (lines rest) (set_field key value config)
load_line key value rest config h k v =
    ap (λ x. load_lines x config) (lines-line_of key value rest h)
    ∙ load_lines-line key value (lines rest) config k v

-- The last line, which is missing for an empty store.
load_last :
    (value : Bytes) (config : Config)
    → valid_serialized_value value ≡ true
    → config.airplay_pairing_store ≡ []
    → load_lines
        (lines (if is_empty value then [] else line_of airplay_pairing_store_key value []))
        config
      ≡ some (record config { airplay_pairing_store = value })
unfolding load_lines lines set_field valid_key
load_last [] config v e = ap some (ap (λ x. record config { airplay_pairing_store = x }) e)
load_last (c ∷ value) config v e =
    load_line airplay_pairing_store_key (c ∷ value) [] config (no_newline-value (c ∷ value) v) refl
      refl

loaded : (c : Config) → IsPlain c → load_lines (lines (fields_of c)) empty_config ≡ some c
unfolding set_field valid_key
loaded c (mac, interface, ssid, passphrase, store) =
    load_line head_unit_mac_key c.head_unit_mac _ empty_config
      (no_newline-value c.head_unit_mac mac) refl refl
    ∙ load_line wifi_interface_key c.wifi_interface _ _
        (no_newline-value c.wifi_interface interface) refl refl
    ∙ load_line management_hotspot_ssid_key c.management_hotspot_ssid _ _
        (no_newline-value c.management_hotspot_ssid ssid) refl refl
    ∙ load_line management_hotspot_passphrase_key c.management_hotspot_passphrase _ _
        (no_newline-value c.management_hotspot_passphrase passphrase) refl refl
    ∙ load_last c.airplay_pairing_store _ store refl

load_config-written :
    (c : Config)
    → validate_config c false ≡ true
    → load_config (some (magic ++ (10 ∷ fields_of c))) ≡ some c
unfolding load_config load_content
load_config-written c valid =
    let first : lines (magic ++ (10 ∷ fields_of c)) ≡ magic ∷ lines (fields_of c) =
      lines-append magic (fields_of c) refl in
    ap load_content first
    ∙ rw (loaded c (validate_config-IsPlain c valid), validate_config-legacy c valid) refl

-- What `save_config` writes for a configuration that `validate_config` accepts, `load_config` reads back
-- as the same configuration; for any other nothing is written.
pub load_config-saved_content :
    (c : Config)
    → ((validate_config c false ≡ true)
        × ((content : Bytes) × (saved_content c ≡ some content)
            × (load_config (some content) ≡ some c)))
      ⊎ ((validate_config c false ≡ false) × (saved_content c ≡ none))
unfolding saved_content
load_config-saved_content c = elim (Bool-cases (validate_config c false)) [
  | inl valid ↦
      inl (valid, (magic ++ (10 ∷ fields_of c), rw valid refl, load_config-written c valid))
  | inr invalid ↦ inr (invalid, rw invalid refl)
]
