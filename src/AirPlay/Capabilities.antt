-- ===== src/AirPlay/Capabilities.antt =====
-- What a head unit can do, from its description (src/airplay/head_unit_capabilities.cpp).
use aa2acp.Base.{
  ℕ, zero, suc, ◌-◌, ◌^◌, bit_and, Bool, true, false, not, ◌&&◌, ◌||◌, List, [], ◌∷◌, Option, none,
  some, ◌>>=◌, ltb, leb, ◌==◌, if◌then◌else◌, is_empty, eqb, Bytes,
}
use aa2acp.AirPlay.Plist.{
  PlistValue, integer, string, array, dictionary, Values, nil, cons, Entries, empty, entry,
}
pub mod Described
pub mod Displays
pub mod Checked
mod Tests

-- "type"
abbrev pub type_key : Bytes
type_key = 116 ∷ 121 ∷ 112 ∷ 101 ∷ []

-- "audioFormats"
abbrev pub formats_key : Bytes
formats_key = 97 ∷ 117 ∷ 100 ∷ 105 ∷ 111 ∷ 70 ∷ 111 ∷ 114 ∷ 109 ∷ 97 ∷ 116 ∷ 115 ∷ []

-- "audioType"
abbrev pub audio_type_key : Bytes
audio_type_key = 97 ∷ 117 ∷ 100 ∷ 105 ∷ 111 ∷ 84 ∷ 121 ∷ 112 ∷ 101 ∷ []

-- "audioOutputFormats"
abbrev pub output_key : Bytes
output_key =
    97 ∷ 117 ∷ 100 ∷ 105 ∷ 111 ∷ 79 ∷ 117 ∷ 116 ∷ 112 ∷ 117 ∷ 116 ∷ 70 ∷ 111 ∷ 114 ∷ 109 ∷ 97 ∷ 116
    ∷ 115 ∷ []

-- "displays"
abbrev pub displays_key : Bytes
displays_key = 100 ∷ 105 ∷ 115 ∷ 112 ∷ 108 ∷ 97 ∷ 121 ∷ 115 ∷ []

-- "widthPixels"
abbrev pub width_key : Bytes
width_key = 119 ∷ 105 ∷ 100 ∷ 116 ∷ 104 ∷ 80 ∷ 105 ∷ 120 ∷ 101 ∷ 108 ∷ 115 ∷ []

-- "heightPixels"
abbrev pub height_key : Bytes
height_key = 104 ∷ 101 ∷ 105 ∷ 103 ∷ 104 ∷ 116 ∷ 80 ∷ 105 ∷ 120 ∷ 101 ∷ 108 ∷ 115 ∷ []

-- "maxFPS"
abbrev pub fps_key : Bytes
fps_key = 109 ∷ 97 ∷ 120 ∷ 70 ∷ 80 ∷ 83 ∷ []

-- "media"
abbrev pub media_type : Bytes
media_type = 109 ∷ 101 ∷ 100 ∷ 105 ∷ 97 ∷ []

-- "default"
abbrev pub default_type : Bytes
default_type = 100 ∷ 101 ∷ 102 ∷ 97 ∷ 117 ∷ 108 ∷ 116 ∷ []

-- "alert"
abbrev pub alert_type : Bytes
alert_type = 97 ∷ 108 ∷ 101 ∷ 114 ∷ 116 ∷ []

pub record HeadUnitCapabilities : Type 0 where
  pub head_unit_mac : Bytes
  pub width_pixels : ℕ
  pub height_pixels : ℕ
  pub max_fps : ℕ
  pub media_pcm_48k_stereo : Bool
  pub guidance_pcm_16k_mono : Bool
  pub system_pcm_16k_mono : Bool

-- `dictionary.find`.
unfoldable pub find_entry : Entries → Bytes → Option PlistValue
find_entry empty key = none
find_entry (entry k value entries) key =
    let later = find_entry entries key in if eqb k key then some value else later

unfoldable pub as_integer : PlistValue → Option ℕ
as_integer (integer value) = some value
as_integer _ = none

unfoldable pub as_array : PlistValue → Option Values
as_array (array items) = some items
as_array _ = none

unfoldable pub as_dictionary : PlistValue → Option Entries
as_dictionary (dictionary entries) = some entries
as_dictionary _ = none

unfoldable pub is_text : Bytes → PlistValue → Bool
is_text wanted (string text) = eqb text wanted
is_text wanted _ = false

unfoldable pub integer_at : Entries → Bytes → Option ℕ
integer_at entries key = find_entry entries key >>= as_integer

abbrev pub is_some_number : Option ℕ → ℕ → Bool
is_some_number none wanted = false
is_some_number (some n) wanted = n == wanted

-- No line ends and no equals sign.
unfoldable pub plain_mac : Bytes → Bool
plain_mac [] = true
plain_mac (c ∷ mac) = not (c == 13) && not (c == 10) && not (c == 61) && plain_mac mac

unfoldable pub valid : HeadUnitCapabilities → Bool
valid profile =
    let has_display =
      ltb 0 profile.width_pixels && ltb 0 profile.height_pixels && ltb 0 profile.max_fps in
    let has_audio =
      profile.media_pcm_48k_stereo || profile.guidance_pcm_16k_mono
      || profile.system_pcm_16k_mono in
    not (is_empty profile.head_unit_mac)
    && (has_display || has_audio)
    && plain_mac profile.head_unit_mac

-- The answer of `supports_pcm` at one entry; `none` goes on.
unfoldable pub pcm_at : Entries → Bytes → ℕ → Option Bool
pcm_at entries audio_type format =
    if not (is_some_number (integer_at entries type_key) 100) then none else do
      kind ← find_entry entries audio_type_key
      output ← integer_at entries output_key
      if is_text audio_type kind then some (bit_and output format == format) else none

abbrev pub or_later : Option Bool → Bool → Bool
or_later none later = later
or_later (some answer) later = answer

unfoldable pub search_formats : Values → Bytes → ℕ → Bool
search_formats nil audio_type format = false
search_formats (cons item items) audio_type format =
    or_later (as_dictionary item >>= λ entries. pcm_at entries audio_type format)
      (search_formats items audio_type format)

abbrev pub formats_in : Option Values → Bytes → ℕ → Bool
formats_in none audio_type format = false
formats_in (some items) audio_type format = search_formats items audio_type format

unfoldable pub supports_pcm : Entries → Bytes → ℕ → Bool
supports_pcm info audio_type format =
    formats_in (find_entry info formats_key >>= as_array) audio_type format

-- The sizes of the first display of type 110; `none` if one is missing or over 32 bits.
unfoldable pub display_sizes : Entries → HeadUnitCapabilities → Option HeadUnitCapabilities
display_sizes entries profile = do
  width ← integer_at entries width_key
  height ← integer_at entries height_key
  fps ← integer_at entries fps_key
  if ltb (2 ^ 32 - 1) width || ltb (2 ^ 32 - 1) height || ltb (2 ^ 32 - 1) fps
      then none
      else some (record profile { width_pixels = width; height_pixels = height; max_fps = fps })

abbrev pub is_display : Option Entries → Bool
is_display none = false
is_display (some entries) = is_some_number (integer_at entries type_key) 110

abbrev pub sizes_of : Option Entries → HeadUnitCapabilities → Option HeadUnitCapabilities
sizes_of none profile = some profile
sizes_of (some entries) profile = display_sizes entries profile

unfoldable pub search_displays : Values → HeadUnitCapabilities → Option HeadUnitCapabilities
search_displays nil profile = some profile
search_displays (cons display displays) profile =
    let later = search_displays displays profile in
    if is_display (as_dictionary display) then sizes_of (as_dictionary display) profile else later

abbrev pub displays_in : Option Values → HeadUnitCapabilities → Option HeadUnitCapabilities
displays_in none profile = some profile
displays_in (some displays) profile = search_displays displays profile

-- The profile before the displays are looked at.
unfoldable pub audio_profile : Entries → Bytes → HeadUnitCapabilities
audio_profile info head_unit_mac = record {
  head_unit_mac = head_unit_mac;
  width_pixels = 0;
  height_pixels = 0;
  max_fps = 0;
  media_pcm_48k_stereo = supports_pcm info media_type 32768;
  guidance_pcm_16k_mono = supports_pcm info default_type 16;
  system_pcm_16k_mono = supports_pcm info alert_type 16;
}

unfoldable pub head_unit_capabilities : Entries → Bytes → Option HeadUnitCapabilities
head_unit_capabilities info head_unit_mac = do
  profile ←
      displays_in (find_entry info displays_key >>= as_array) (audio_profile info head_unit_mac)
  if not (valid profile) then none else some profile
