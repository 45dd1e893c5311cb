-- ===== src/AirPlay/Capabilities/Checked.antt =====
-- Which descriptions are accepted, and what is read from them
-- (src/airplay/head_unit_capabilities.cpp).
use aa2acp.Base.{
  ℕ, ◌≤◌, ◌<◌, ◌≡◌, ◌↔◌, ◌⊎◌, refl, sym, ap, subst, ◌∙◌, Bool, true, false, not, [], ◌∷◌, Option,
  none, some, some-injective, ◌>>=◌, >>=-eq-some, if-eq-some, arith, length, is_empty, Bytes,
}
use aa2acp.Base.Texts.{Lacks}
use aa2acp.AirPlay.Plist.{
  PlistValue, boolean, integer, real, string, blob, array, dictionary, Values, nil, Entries,
}
use aa2acp.AirPlay.Capabilities.{
  formats_key, displays_key, media_type, default_type, alert_type, HeadUnitCapabilities, find_entry,
  as_array, plain_mac, valid, search_formats, formats_in, supports_pcm, search_displays,
  displays_in, audio_profile, head_unit_capabilities,
}
use aa2acp.AirPlay.Capabilities.Described.{
  Supports, search_formats-Supports, Supports-search_formats,
}
use aa2acp.AirPlay.Capabilities.Displays.{
  AreSizes, with_sizes, search_displays-AreSizes, AreSizes-search_displays,
}

-- The items of the array under a key; none if there is no such array.
abbrev pub items_in : Option PlistValue → Values
items_in none = nil
items_in (some (array items)) = items
items_in (some value) = nil

-- An address that can be stored: not empty, with no line end and no equals sign.
abbrev pub IsAddress : Bytes → Type 0
IsAddress mac = (1 ≤ length mac) × Lacks 13 mac × Lacks 10 mac × Lacks 61 mac

-- There is a display with sizes that are not 0, or a kind of audio.
abbrev pub IsUsable : HeadUnitCapabilities → Type 0
IsUsable profile =
    ((0 < profile.width_pixels) × (0 < profile.height_pixels) × (0 < profile.max_fps))
    ⊎ (profile.media_pcm_48k_stereo ≡ true)
    ⊎ (profile.guidance_pcm_16k_mono ≡ true)
    ⊎ (profile.system_pcm_16k_mono ≡ true)

-- The profile of a description: bit 15 says stereo at 48 kHz, bit 4 mono at 16 kHz.
pub record IsProfile (info : Entries) (mac : Bytes) (profile : HeadUnitCapabilities) : Type 0 where
  pub address : profile.head_unit_mac ≡ mac
  pub media :
      (profile.media_pcm_48k_stereo ≡ true)
      ↔ Supports media_type 32768 (items_in (find_entry info formats_key))
  pub guidance :
      (profile.guidance_pcm_16k_mono ≡ true)
      ↔ Supports default_type 16 (items_in (find_entry info formats_key))
  pub system :
      (profile.system_pcm_16k_mono ≡ true)
      ↔ Supports alert_type 16 (items_in (find_entry info formats_key))
  pub sizes :
      AreSizes
        (items_in (find_entry info displays_key))
        profile.width_pixels
        profile.height_pixels
        profile.max_fps
  pub storable : IsAddress mac
  pub usable : IsUsable profile

formats_in-items_in :
    (o : Option PlistValue) (audio_type : Bytes) (format : ℕ)
    → formats_in (o >>= as_array) audio_type format ≡ search_formats (items_in o) audio_type format
unfolding as_array search_formats
formats_in-items_in none audio_type format = refl
formats_in-items_in (some (boolean b)) audio_type format = refl
formats_in-items_in (some (integer n)) audio_type format = refl
formats_in-items_in (some (real r)) audio_type format = refl
formats_in-items_in (some (string s)) audio_type format = refl
formats_in-items_in (some (blob b)) audio_type format = refl
formats_in-items_in (some (array a)) audio_type format = refl
formats_in-items_in (some (dictionary d)) audio_type format = refl

displays_in-items_in :
    (o : Option PlistValue) (profile : HeadUnitCapabilities)
    → displays_in (o >>= as_array) profile ≡ search_displays (items_in o) profile
unfolding as_array search_displays
displays_in-items_in none profile = refl
displays_in-items_in (some (boolean b)) profile = refl
displays_in-items_in (some (integer n)) profile = refl
displays_in-items_in (some (real r)) profile = refl
displays_in-items_in (some (string s)) profile = refl
displays_in-items_in (some (blob b)) profile = refl
displays_in-items_in (some (array a)) profile = refl
displays_in-items_in (some (dictionary d)) profile = refl

supports_pcm-Supports :
    (info : Entries) (audio_type : Bytes) (format : ℕ)
    → (supports_pcm info audio_type format ≡ true)
      ↔ Supports audio_type format (items_in (find_entry info formats_key))
unfolding supports_pcm
supports_pcm-Supports info audio_type format =
    let items = items_in (find_entry info formats_key) in
    rw (formats_in-items_in (find_entry info formats_key) audio_type format) (
      search_formats-Supports audio_type format items,
      Supports-search_formats audio_type format items,
    )

plain_mac-Lacks : (mac : Bytes) → plain_mac mac ≡ true → Lacks 13 mac × Lacks 10 mac × Lacks 61 mac
unfolding plain_mac
plain_mac-Lacks [] h = (tt, tt, tt)
plain_mac-Lacks (c ∷ mac) h =
    let rest : plain_mac mac ≡ true = ground arith in
    let (a, b, d) = plain_mac-Lacks mac rest in
    ((ground arith, a), (ground arith, b), (ground arith, d))

Lacks-plain_mac : (mac : Bytes) → Lacks 13 mac → Lacks 10 mac → Lacks 61 mac → plain_mac mac ≡ true
unfolding plain_mac
Lacks-plain_mac [] a b d = refl
Lacks-plain_mac (c ∷ mac) a b d =
    let rest = Lacks-plain_mac mac a.1 b.1 d.1 in ground (arith, a.0, b.0, d.0)

valid-IsUsable :
    (profile : HeadUnitCapabilities)
    → valid profile ≡ true
    → IsAddress profile.head_unit_mac × IsUsable profile
unfolding valid
valid-IsUsable profile h =
    let plain : plain_mac profile.head_unit_mac ≡ true = ground arith in
    let filled : is_empty profile.head_unit_mac ≡ false = ground arith in
    let (a, b, d) = plain_mac-Lacks profile.head_unit_mac plain in
    ((long profile.head_unit_mac filled, a, b, d), ground arith)
  where
    long : (mac : Bytes) → is_empty mac ≡ false → 1 ≤ length mac
    long [] e = absurd cc
    long (c ∷ mac) e = omega arith

IsUsable-valid :
    (profile : HeadUnitCapabilities)
    → IsAddress profile.head_unit_mac
    → IsUsable profile
    → valid profile ≡ true
unfolding valid
IsUsable-valid profile (some_byte, a, b, d) usable =
    let plain = Lacks-plain_mac profile.head_unit_mac a b d in
    let filled = long profile.head_unit_mac some_byte in ground arith
  where
    long : (mac : Bytes) → 1 ≤ length mac → is_empty mac ≡ false
    long [] e = absurd (omega arith)
    long (c ∷ mac) e = refl

same_bit : {X : Type 0} (a b : Bool) → (a ≡ true) ↔ X → (b ≡ true) ↔ X → a ≡ b
same_bit true b p q = sym (q.1 (p.0 refl))
same_bit false true p q = p.1 (q.0 refl)
same_bit false false p q = refl

-- A description is accepted with a profile exactly if the profile is what it says: the address it was
-- asked for, which can be stored, each kind of audio exactly if the first entry that decides has the
-- format, and the sizes of the first display, of 32 bits (zeros without one), with a display of sizes
-- that are not 0, or a kind of audio.
pub head_unit_capabilities_iff :
    (info : Entries) (mac : Bytes) (profile : HeadUnitCapabilities)
    → (head_unit_capabilities info mac ≡ some profile) ↔ IsProfile info mac profile
unfolding head_unit_capabilities audio_profile
head_unit_capabilities_iff info mac profile = (accepted, described)
  where
    m : Bool
    m = supports_pcm info media_type 32768

    g : Bool
    g = supports_pcm info default_type 16

    s : Bool
    s = supports_pcm info alert_type 16

    shown : Values
    shown = items_in (find_entry info displays_key)

    built : ℕ → ℕ → ℕ → HeadUnitCapabilities
    built = with_sizes mac m g s

    built-IsProfile :
        (width height fps : ℕ)
        → AreSizes shown width height fps
        → valid (built width height fps) ≡ true
        → IsProfile info mac (built width height fps)
    built-IsProfile width height fps sizes is_valid =
        let (storable, usable) = valid-IsUsable (built width height fps) is_valid in
        record {
          address = refl;
          media = supports_pcm-Supports info media_type 32768;
          guidance = supports_pcm-Supports info default_type 16;
          system = supports_pcm-Supports info alert_type 16;
          sizes = sizes;
          storable = storable;
          usable = usable;
        }

    accepted : head_unit_capabilities info mac ≡ some profile → IsProfile info mac profile
    accepted h =
        let (found, displays, rest) =
          >>=-eq-some
            (displays_in (find_entry info displays_key >>= as_array) (audio_profile info mac)) _
            h in
        let (kept, last) = if-eq-some (not (valid found)) _ rest in
        let is_valid : valid found ≡ true = ground arith in
        let searched =
          sym (displays_in-items_in (find_entry info displays_key) (audio_profile info mac))
          ∙ displays in
        let (width, height, fps, sizes, same) =
          search_displays-AreSizes mac m g s shown found searched in
        subst (IsProfile info mac) (sym same ∙ some-injective _ _ last)
          (built-IsProfile width height fps sizes (subst (λ p. valid p ≡ true) same is_valid))

    described : IsProfile info mac profile → head_unit_capabilities info mac ≡ some profile
    described p =
        let width = profile.width_pixels in
        let height = profile.height_pixels in
        let fps = profile.max_fps in
        let same : profile ≡ built width height fps =
          rw
            (
              sym p.address,
              same_bit _ _ p.media (supports_pcm-Supports info media_type 32768),
              same_bit _ _ p.guidance (supports_pcm-Supports info default_type 16),
              same_bit _ _ p.system (supports_pcm-Supports info alert_type 16),
            )
            refl in
        let found =
          displays_in-items_in (find_entry info displays_key) (audio_profile info mac)
          ∙ AreSizes-search_displays mac m g s shown width height fps p.sizes in
        let is_valid =
          subst (λ q. valid q ≡ true) same
            (IsUsable-valid profile (subst IsAddress (sym p.address) p.storable) p.usable) in
        rw (found, is_valid) (ap some (sym same))
