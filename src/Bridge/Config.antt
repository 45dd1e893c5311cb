-- ===== src/Bridge/Config.antt =====
-- The daemon's configuration file (src/bridge/config.cpp, include/aa2acp/bridge/config.hpp). Strings are
-- lists of character codes.
use aa2acp.Base.{
  ℕ, zero, suc, ◌+◌, ◌≤◌, Bool, true, false, not, ◌&&◌, ◌||◌, List, [], ◌∷◌, ◌++◌, Option, none,
  some, ◌>>=◌, ltb, leb, ◌==◌, if◌then◌else◌, length, is_empty, eqb, Bytes,
}
pub mod RoundTrip
mod Tests

-- "AA2ACP-1"
abbrev pub magic : Bytes
magic = 65 ∷ 65 ∷ 50 ∷ 65 ∷ 67 ∷ 80 ∷ 45 ∷ 49 ∷ []

abbrev pub head_unit_mac_key : Bytes
head_unit_mac_key = 104 ∷ 101 ∷ 97 ∷ 100 ∷ 95 ∷ 117 ∷ 110 ∷ 105 ∷ 116 ∷ 95 ∷ 109 ∷ 97 ∷ 99 ∷ []

abbrev pub wifi_interface_key : Bytes
wifi_interface_key =
    119 ∷ 105 ∷ 102 ∷ 105 ∷ 95 ∷ 105 ∷ 110 ∷ 116 ∷ 101 ∷ 114 ∷ 102 ∷ 97 ∷ 99 ∷ 101 ∷ []

abbrev pub management_hotspot_ssid_key : Bytes
management_hotspot_ssid_key =
    109 ∷ 97 ∷ 110 ∷ 97 ∷ 103 ∷ 101 ∷ 109 ∷ 101 ∷ 110 ∷ 116 ∷ 95 ∷ 104 ∷ 111 ∷ 116 ∷ 115 ∷ 112 ∷ 111
    ∷ 116 ∷ 95 ∷ 115 ∷ 115 ∷ 105 ∷ 100 ∷ []

abbrev pub management_hotspot_passphrase_key : Bytes
management_hotspot_passphrase_key =
    109 ∷ 97 ∷ 110 ∷ 97 ∷ 103 ∷ 101 ∷ 109 ∷ 101 ∷ 110 ∷ 116 ∷ 95 ∷ 104 ∷ 111 ∷ 116 ∷ 115 ∷ 112 ∷ 111
    ∷ 116 ∷ 95 ∷ 112 ∷ 97 ∷ 115 ∷ 115 ∷ 112 ∷ 104 ∷ 114 ∷ 97 ∷ 115 ∷ 101 ∷ []

abbrev pub airplay_pairing_store_key : Bytes
airplay_pairing_store_key =
    97 ∷ 105 ∷ 114 ∷ 112 ∷ 108 ∷ 97 ∷ 121 ∷ 95 ∷ 112 ∷ 97 ∷ 105 ∷ 114 ∷ 105 ∷ 110 ∷ 103 ∷ 95 ∷ 115
    ∷ 116 ∷ 111 ∷ 114 ∷ 101 ∷ []

pub record Config : Type 0 where
  pub head_unit_mac : Bytes
  pub wifi_interface : Bytes
  pub management_hotspot_ssid : Bytes
  pub management_hotspot_passphrase : Bytes
  pub airplay_pairing_store : Bytes

abbrev pub empty_config : Config
empty_config = record {
  head_unit_mac = [];
  wifi_interface = [];
  management_hotspot_ssid = [];
  management_hotspot_passphrase = [];
  airplay_pairing_store = [];
}

unfoldable pub valid_key : Bytes → Bool
valid_key key =
    eqb key head_unit_mac_key
    || eqb key wifi_interface_key
    || eqb key management_hotspot_ssid_key
    || eqb key management_hotspot_passphrase_key
    || eqb key airplay_pairing_store_key

-- No carriage return, line feed, equals sign or zero.
unfoldable pub valid_serialized_value : Bytes → Bool
valid_serialized_value [] = true
valid_serialized_value (c ∷ value) =
    not (c == 13) && not (c == 10) && not (c == 61) && not (c == 0) && valid_serialized_value value

unfoldable pub validate_config : Config → Bool → Bool
validate_config config allow_legacy_hotspot =
    let legacy_hotspot =
      is_empty config.management_hotspot_ssid && is_empty config.management_hotspot_passphrase in
    if is_empty config.wifi_interface
      || not (valid_serialized_value config.head_unit_mac)
      || not (valid_serialized_value config.wifi_interface)
      || not (valid_serialized_value config.management_hotspot_ssid)
      || not (valid_serialized_value config.management_hotspot_passphrase)
      || not (valid_serialized_value config.airplay_pairing_store)
    then false
    else if legacy_hotspot && allow_legacy_hotspot
    then true
    else not (is_empty config.management_hotspot_ssid)
      && leb 8 (length config.management_hotspot_passphrase)

abbrev pub prepend : ℕ → List Bytes → List Bytes
prepend c [] = (c ∷ []) ∷ []
prepend c (line ∷ rest) = (c ∷ line) ∷ rest

-- The lines that `std::getline` gives one after the other.
unfoldable pub lines : Bytes → List Bytes
lines [] = []
lines (c ∷ rest) = if c == 10 then [] ∷ lines rest else prepend c (lines rest)

-- The key and the value of a line, at its first equals sign.
unfoldable pub split_line : Bytes → Option (Bytes × Bytes)
split_line [] = none
split_line (c ∷ rest) = elim (split_line rest) [
  | none ↦ if c == 61 then some ([], rest) else none
  | some (key, value) ↦ if c == 61 then some ([], rest) else some (c ∷ key, value)
]

-- `line.starts_with("head_unit_mac=")` and so on: these keys hold no equals sign.
unfoldable pub set_field : Bytes → Bytes → Config → Config
set_field key value config =
    if eqb key head_unit_mac_key
    then record config { head_unit_mac = value }
    else if eqb key wifi_interface_key
    then record config { wifi_interface = value }
    else if eqb key management_hotspot_ssid_key
    then record config { management_hotspot_ssid = value }
    else if eqb key management_hotspot_passphrase_key
    then record config { management_hotspot_passphrase = value }
    else record config { airplay_pairing_store = value }

unfoldable pub load_lines : List Bytes → Config → Option Config
load_lines [] config = some config
load_lines (line ∷ rest) config = elim (split_line line) [
  | none ↦ none
  | some (key, value) ↦ if valid_key key then load_lines rest (set_field key value config) else none
]

-- `load_config` behind the opening of the file.
unfoldable pub load_content : List Bytes → Option Config
load_content [] = none
load_content (first ∷ rest) =
    if eqb first magic
    then (do
      config ← load_lines rest empty_config
      if validate_config config true then some config else none)
    else none

-- The file's content, if it could be read.
unfoldable pub load_config : Option Bytes → Option Config
load_config file = elim file [ none ↦ none | some content ↦ load_content (lines content) ]

abbrev pub line_of : Bytes → Bytes → Bytes → Bytes
line_of key value rest = key ++ (61 ∷ (value ++ (10 ∷ rest)))

-- The fields behind the first line.
abbrev pub fields_of : Config → Bytes
fields_of config = line_of head_unit_mac_key config.head_unit_mac (
    line_of wifi_interface_key config.wifi_interface (
      line_of management_hotspot_ssid_key config.management_hotspot_ssid (
        line_of management_hotspot_passphrase_key config.management_hotspot_passphrase (
          if is_empty config.airplay_pairing_store
          then []
          else line_of airplay_pairing_store_key config.airplay_pairing_store []))))

-- What `save_config` writes, if the configuration is valid.
unfoldable pub saved_content : Config → Option Bytes
saved_content config =
    if validate_config config false then some (magic ++ (10 ∷ fields_of config)) else none
