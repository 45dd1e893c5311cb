-- ===== src/AirPlay/Capabilities/Tests.antt =====
-- A description with one display and no audio (src/airplay/head_unit_capabilities.cpp).
use aa2acp.Base.{◌↔◌, ◌≡◌, refl, false, [], ◌∷◌, some}
use aa2acp.AirPlay.Plist.{integer, array, dictionary, nil, cons, Entries, empty, entry}
use aa2acp.AirPlay.Capabilities.{
  type_key, displays_key, width_key, height_key, fps_key, HeadUnitCapabilities, find_entry,
  as_integer, as_array, as_dictionary, integer_at, plain_mac, valid, search_formats, supports_pcm,
  display_sizes, search_displays, audio_profile, head_unit_capabilities,
}
use aa2acp.AirPlay.Capabilities.Checked.{IsProfile, head_unit_capabilities_iff}

abbrev sample : Entries
sample =
    entry displays_key
      (array (
        cons
          (dictionary (
            entry height_key (integer 720) (
              entry fps_key (integer 30)
                (entry type_key (integer 110) (entry width_key (integer 1280) empty)))))
          nil))
      empty

abbrev sample_profile : HeadUnitCapabilities
sample_profile = record {
  head_unit_mac = 65 ∷ [];
  width_pixels = 1280;
  height_pixels = 720;
  max_fps = 30;
  media_pcm_48k_stereo = false;
  guidance_pcm_16k_mono = false;
  system_pcm_16k_mono = false;
}

sample_read : head_unit_capabilities sample (65 ∷ []) ≡ some sample_profile
unfolding head_unit_capabilities audio_profile supports_pcm search_formats find_entry as_array
    search_displays as_dictionary integer_at as_integer display_sizes valid plain_mac
sample_read = refl

head_unit_capabilities_iff_example :
    (head_unit_capabilities sample (65 ∷ []) ≡ some sample_profile)
    ↔ IsProfile sample (65 ∷ []) sample_profile
head_unit_capabilities_iff_example = head_unit_capabilities_iff sample (65 ∷ []) sample_profile
