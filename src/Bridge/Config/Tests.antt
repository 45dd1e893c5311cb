-- ===== src/Bridge/Config/Tests.antt =====
-- Runs of the configuration file, and its theorem at a concrete configuration
-- (tests/bridge_config_tests.cpp).
use aa2acp.Base.{◌≡◌, ◌⊎◌, refl, true, false, [], ◌∷◌, ◌++◌, none, some, Bytes}
use aa2acp.Bridge.Config.{
  magic, head_unit_mac_key, wifi_interface_key, Config, empty_config, valid_key,
  valid_serialized_value, validate_config, lines, split_line, set_field, load_lines, load_content,
  load_config, line_of, saved_content,
}
use aa2acp.Bridge.Config.RoundTrip.{load_config-saved_content}

abbrev sample : Config
sample = record {
  head_unit_mac = 65 ∷ [];
  wifi_interface = 119 ∷ 48 ∷ [];
  management_hotspot_ssid = 97 ∷ [];
  management_hotspot_passphrase = 49 ∷ 50 ∷ 51 ∷ 52 ∷ 53 ∷ 54 ∷ 55 ∷ 56 ∷ [];
  airplay_pairing_store = [];
}

sample_accepted : validate_config sample false ≡ true
unfolding validate_config valid_serialized_value
sample_accepted = refl

short_passphrase_refused :
    validate_config (record sample { management_hotspot_passphrase = 49 ∷ [] }) true ≡ false
unfolding validate_config valid_serialized_value
short_passphrase_refused = refl

-- Without hotspot fields, and with the last line not ended.
legacy_loaded :
    load_config (
      some (
        magic
        ++ (10 ∷ line_of head_unit_mac_key (65 ∷ []) (wifi_interface_key ++ (61 ∷ 119 ∷ [])))))
    ≡ some (record empty_config { head_unit_mac = 65 ∷ []; wifi_interface = 119 ∷ [] })
unfolding load_config load_content load_lines lines split_line valid_key set_field validate_config
    valid_serialized_value
legacy_loaded = refl

load_config-saved_content_example :
    ((validate_config sample false ≡ true)
      × ((content : Bytes) × (saved_content sample ≡ some content)
          × (load_config (some content) ≡ some sample)))
    ⊎ ((validate_config sample false ≡ false) × (saved_content sample ≡ none))
load_config-saved_content_example = load_config-saved_content sample
