-- ===== src/AirPlay/Capabilities/Displays.antt =====
-- The sizes of the first display of a description (src/airplay/head_unit_capabilities.cpp).
use aa2acp.Base.{
  ℕ, ◌-◌, ◌^◌, ◌<◌, ◌≡◌, refl, sym, subst, Bool, true, false, ◌||◌, inl, inr, some, some-injective,
  >>=-eq-some, if-eq-some, arith, ltb, le→ltb, Bool-cases, Option-cases, Bytes,
}
use aa2acp.AirPlay.Plist.{PlistValue, integer, dictionary, Values, nil, cons, Entries}
use aa2acp.AirPlay.Capabilities.{
  type_key, width_key, height_key, fps_key, HeadUnitCapabilities, find_entry, as_dictionary,
  integer_at, is_some_number, display_sizes, is_display, search_displays,
}
use aa2acp.AirPlay.Capabilities.Described.{
  as_dictionary-dictionary, integer_at-find_entry, find_entry-integer_at, number-is_some_number,
  is_some_number-number,
}

abbrev pub IsDisplay : Entries → Type 0
IsDisplay entries = find_entry entries type_key ≡ some (integer 110)

-- The sizes that an entry has, each of 32 bits.
pub record HasSizes (entries : Entries) (width height fps : ℕ) : Type 0 where
  pub width_entry : find_entry entries width_key ≡ some (integer width)
  pub height_entry : find_entry entries height_key ≡ some (integer height)
  pub fps_entry : find_entry entries fps_key ≡ some (integer fps)
  pub width_32 : width < 2 ^ 32
  pub height_32 : height < 2 ^ 32
  pub fps_32 : fps < 2 ^ 32

-- The sizes of the first display among the items, zeros if there is none.
pub data AreSizes : Values → ℕ → ℕ → ℕ → Type 0 where
  no_display : AreSizes nil 0 0 0
  here :
      {entries : Entries} {items : Values} {width height fps : ℕ}
      → IsDisplay entries
      → HasSizes entries width height fps
      → AreSizes (cons (dictionary entries) items) width height fps
  later :
      {item : PlistValue} {items : Values} {width height fps : ℕ}
      → ((entries : Entries) → item ≡ dictionary entries → IsDisplay entries → ⊥)
      → AreSizes items width height fps
      → AreSizes (cons item items) width height fps

module _ (mac : Bytes) (media guidance system : Bool) where
  -- A profile with these sizes.
  abbrev pub with_sizes : ℕ → ℕ → ℕ → HeadUnitCapabilities
  with_sizes width height fps = record {
    head_unit_mac = mac;
    width_pixels = width;
    height_pixels = height;
    max_fps = fps;
    media_pcm_48k_stereo = media;
    guidance_pcm_16k_mono = guidance;
    system_pcm_16k_mono = system;
  }

  display_sizes-HasSizes :
      (entries : Entries) (profile : HeadUnitCapabilities)
      → display_sizes entries (with_sizes 0 0 0) ≡ some profile
      → (width : ℕ) × (height : ℕ) × (fps : ℕ) × HasSizes entries width height fps
        × (profile ≡ with_sizes width height fps)
  unfolding display_sizes
  display_sizes-HasSizes entries profile h =
      let (width, w, rest) = >>=-eq-some (integer_at entries width_key) _ h in
      let (height, t, rest') = >>=-eq-some (integer_at entries height_key) _ rest in
      let (fps, f, rest'') = >>=-eq-some (integer_at entries fps_key) _ rest' in
      let (small, last) =
        if-eq-some (ltb (2 ^ 32 - 1) width || ltb (2 ^ 32 - 1) height || ltb (2 ^ 32 - 1) fps) _
          rest'' in
      (
        width,
        height,
        fps,
        record {
          width_entry = integer_at-find_entry entries width_key width w;
          height_entry = integer_at-find_entry entries height_key height t;
          fps_entry = integer_at-find_entry entries fps_key fps f;
          width_32 = ground arith;
          height_32 = ground arith;
          fps_32 = ground arith;
        },
        sym (some-injective _ _ last),
      )

  HasSizes-display_sizes :
      (entries : Entries) (width height fps : ℕ)
      → HasSizes entries width height fps
      → display_sizes entries (with_sizes 0 0 0) ≡ some (with_sizes width height fps)
  unfolding display_sizes
  HasSizes-display_sizes entries width height fps s =
      let w : ltb (2 ^ 32 - 1) width ≡ false = le→ltb _ _ (omega (arith, s.width_32)) in
      let t : ltb (2 ^ 32 - 1) height ≡ false = le→ltb _ _ (omega (arith, s.height_32)) in
      let f : ltb (2 ^ 32 - 1) fps ≡ false = le→ltb _ _ (omega (arith, s.fps_32)) in
      rw
        (
          find_entry-integer_at entries width_key width s.width_entry,
          find_entry-integer_at entries height_key height s.height_entry,
          find_entry-integer_at entries fps_key fps s.fps_entry,
          w,
          t,
          f,
        )
        refl

  no_display_here :
      (item : PlistValue)
      → is_display (as_dictionary item) ≡ false
      → (entries : Entries) → item ≡ dictionary entries
      → IsDisplay entries
      → ⊥
  unfolding as_dictionary
  no_display_here item e entries same d =
      let asked : is_some_number (integer_at entries type_key) 110 ≡ false =
        subst (λ i. is_display (as_dictionary i) ≡ false) same e in
      let number =
        is_some_number-number (integer_at entries type_key) 110
          (find_entry-integer_at entries type_key 110 d) in
      absurd cc

  is_display-IsDisplay :
      (item : PlistValue)
      → is_display (as_dictionary item) ≡ true
      → (entries : Entries) × (as_dictionary item ≡ some entries)
        × (item ≡ dictionary entries)
        × IsDisplay entries
  is_display-IsDisplay item e = elim (Option-cases (as_dictionary item)) [
    | inl none_there ↦ let no : false ≡ true = rw none_there at e in absurd cc
    | inr (entries, there) ↦
        let number : is_some_number (integer_at entries type_key) 110 ≡ true = rw there at e in
        (
          entries,
          there,
          as_dictionary-dictionary item entries there,
          integer_at-find_entry entries type_key 110
              (number-is_some_number (integer_at entries type_key) 110 number),
        )
  ]

  pub search_displays-AreSizes :
      (items : Values) (profile : HeadUnitCapabilities)
      → search_displays items (with_sizes 0 0 0) ≡ some profile
      → (width : ℕ) × (height : ℕ) × (fps : ℕ) × AreSizes items width height fps
        × (profile ≡ with_sizes width height fps)
  unfolding search_displays
  search_displays-AreSizes nil profile h = (0, 0, 0, no_display, sym (some-injective _ _ h))
  search_displays-AreSizes (cons item items) profile h =
      elim (Bool-cases (is_display (as_dictionary item))) [
        | inl e ↦
            let (entries, there, same, display) = is_display-IsDisplay item e in
            let found : display_sizes entries (with_sizes 0 0 0) ≡ some profile =
              rw (e, there) at h in
            let (width, height, fps, sizes, built) = display_sizes-HasSizes entries profile found in
            (
              width,
              height,
              fps,
              subst (λ i. AreSizes (cons i items) width height fps) (sym same) (here display sizes),
              built,
            )
        | inr e ↦
            let rest : search_displays items (with_sizes 0 0 0) ≡ some profile = rw e at h in
            let (width, height, fps, sizes, built) = search_displays-AreSizes items profile rest in
            (width, height, fps, later (no_display_here item e) sizes, built)
      ]

  pub AreSizes-search_displays :
      (items : Values) (width height fps : ℕ)
      → AreSizes items width height fps
      → search_displays items (with_sizes 0 0 0) ≡ some (with_sizes width height fps)
  unfolding search_displays as_dictionary
  AreSizes-search_displays nil width height fps no_display = refl
  AreSizes-search_displays (cons item items) width height fps (here {entries} display sizes) =
      let number =
        is_some_number-number (integer_at entries type_key) 110
          (find_entry-integer_at entries type_key 110 display) in
      rw number (HasSizes-display_sizes entries width height fps sizes)
  AreSizes-search_displays (cons item items) width height fps (later other sizes) =
      elim (Bool-cases (is_display (as_dictionary item))) [
        | inl e ↦
            let (entries, there, same, display) = is_display-IsDisplay item e in
            absurd (other entries same display)
        | inr e ↦ rw e (AreSizes-search_displays items width height fps sizes)
      ]
