-- ===== src/AirPlay/Capabilities/Described.antt =====
-- What a description says of audio and displays (src/airplay/head_unit_capabilities.cpp).
use aa2acp.Base.{
  ℕ, bit_and, ◌≡◌, refl, sym, ap, subst, ◌∙◌, Bool, true, not, inl, inr, Option, none, some,
  some-injective, none-ne-some, ◌>>=◌, >>=-eq-some, if-eq-some, arith, ◌==◌, ==_iff, Bool-cases,
  Option-cases, eqb→≡, eqb_refl, Bytes,
}
use aa2acp.AirPlay.Plist.{
  PlistValue, boolean, integer, real, string, blob, array, dictionary, Values, nil, cons, Entries,
}
use aa2acp.AirPlay.Capabilities.{
  type_key, audio_type_key, output_key, find_entry, as_integer, as_dictionary, is_text, integer_at,
  is_some_number, pcm_at, search_formats,
}

-- An entry says which formats the head unit takes for this kind of audio.
pub record Decides (audio_type : Bytes) (entries : Entries) (formats : ℕ) : Type 0 where
  pub kind : find_entry entries type_key ≡ some (integer 100)
  pub audio : find_entry entries audio_type_key ≡ some (string audio_type)
  pub output : find_entry entries output_key ≡ some (integer formats)

-- The first entry that decides has all bits of the format.
pub data Supports (audio_type : Bytes) (format : ℕ) : Values → Type 0 where
  here :
      {entries : Entries} {items : Values} {formats : ℕ}
      → Decides audio_type entries formats
      → bit_and formats format ≡ format
      → Supports audio_type format (cons (dictionary entries) items)
  later :
      {item : PlistValue} {items : Values}
      → ((entries : Entries) (formats : ℕ)
          → item ≡ dictionary entries
          → Decides audio_type entries formats
          → ⊥)
      → Supports audio_type format items
      → Supports audio_type format (cons item items)

as_integer-integer : (value : PlistValue) (n : ℕ) → as_integer value ≡ some n → value ≡ integer n
unfolding as_integer
as_integer-integer (boolean b) n h = absurd cc
as_integer-integer (integer m) n h = ap integer (some-injective _ _ h)
as_integer-integer (real r) n h = absurd cc
as_integer-integer (string s) n h = absurd cc
as_integer-integer (blob b) n h = absurd cc
as_integer-integer (array a) n h = absurd cc
as_integer-integer (dictionary d) n h = absurd cc

pub as_dictionary-dictionary :
    (value : PlistValue) (entries : Entries)
    → as_dictionary value ≡ some entries
    → value ≡ dictionary entries
unfolding as_dictionary
as_dictionary-dictionary (boolean b) n h = absurd cc
as_dictionary-dictionary (integer m) n h = absurd cc
as_dictionary-dictionary (real r) n h = absurd cc
as_dictionary-dictionary (string s) n h = absurd cc
as_dictionary-dictionary (blob b) n h = absurd cc
as_dictionary-dictionary (array a) n h = absurd cc
as_dictionary-dictionary (dictionary d) n h = ap dictionary (some-injective _ _ h)

is_text-string :
    (wanted : Bytes) (value : PlistValue) → is_text wanted value ≡ true → value ≡ string wanted
unfolding is_text
is_text-string wanted (boolean b) h = absurd cc
is_text-string wanted (integer m) h = absurd cc
is_text-string wanted (real r) h = absurd cc
is_text-string wanted (string s) h = ap string (eqb→≡ s wanted h)
is_text-string wanted (blob b) h = absurd cc
is_text-string wanted (array a) h = absurd cc
is_text-string wanted (dictionary d) h = absurd cc

is_text_refl : (wanted : Bytes) → is_text wanted (string wanted) ≡ true
unfolding is_text
is_text_refl wanted = eqb_refl wanted

pub integer_at-find_entry :
    (entries : Entries) (key : Bytes) (n : ℕ)
    → integer_at entries key ≡ some n
    → find_entry entries key ≡ some (integer n)
unfolding integer_at
integer_at-find_entry entries key n e =
    let (value, found, read) = >>=-eq-some (find_entry entries key) as_integer e in
    found ∙ ap some (as_integer-integer value n read)

pub find_entry-integer_at :
    (entries : Entries) (key : Bytes) (n : ℕ)
    → find_entry entries key ≡ some (integer n)
    → integer_at entries key ≡ some n
unfolding integer_at as_integer
find_entry-integer_at entries key n e = rw e refl

pub number-is_some_number : (o : Option ℕ) (n : ℕ) → is_some_number o n ≡ true → o ≡ some n
number-is_some_number none n h = absurd cc
number-is_some_number (some m) n h = ap some ((==_iff m n).0 h)

pub is_some_number-number : (o : Option ℕ) (n : ℕ) → o ≡ some n → is_some_number o n ≡ true
is_some_number-number o n h = rw h ((==_iff n n).1 refl)

pcm_at-Decides :
    (entries : Entries) (audio_type : Bytes) (format : ℕ) (b : Bool)
    → pcm_at entries audio_type format ≡ some b
    → (n : ℕ) × Decides audio_type entries n × ((bit_and n format == format) ≡ b)
unfolding pcm_at
pcm_at-Decides entries audio_type format b h =
    let (typed, rest) = if-eq-some (not (is_some_number (integer_at entries type_key) 100)) _ h in
    let (value, found, rest') = >>=-eq-some (find_entry entries audio_type_key) _ rest in
    let (n, output, rest'') = >>=-eq-some (integer_at entries output_key) _ rest' in
    let number : is_some_number (integer_at entries type_key) 100 ≡ true = ground arith in
    elim (Bool-cases (is_text audio_type value)) [
      | inl same ↦
          let last : some (bit_and n format == format) ≡ some b = rw same at rest'' in
          (
            n,
            record {
              kind =
                  integer_at-find_entry entries type_key 100
                    (number-is_some_number (integer_at entries type_key) 100 number);
              audio = found ∙ ap some (is_text-string audio_type value same);
              output = integer_at-find_entry entries output_key n output;
            },
            some-injective _ _ last,
          )
      | inr other ↦ let no : Path (Option Bool) none (some b) = rw other at rest'' in absurd cc
    ]

Decides-pcm_at :
    (entries : Entries) (audio_type : Bytes) (format n : ℕ)
    → Decides audio_type entries n
    → pcm_at entries audio_type format ≡ some (bit_and n format == format)
unfolding pcm_at
Decides-pcm_at entries audio_type format n d =
    rw
      (
        find_entry-integer_at entries type_key 100 d.kind,
        d.audio,
        is_text_refl audio_type,
        find_entry-integer_at entries output_key n d.output,
      )
      refl

module _ (audio_type : Bytes) (format : ℕ) where
  -- What the loop takes from an item.
  abbrev answer_of : PlistValue → Option Bool
  answer_of item = as_dictionary item >>= λ entries. pcm_at entries audio_type format

  answer_of-none :
      (item : PlistValue)
      → answer_of item ≡ none
      → (entries : Entries) (n : ℕ) → item ≡ dictionary entries
      → Decides audio_type entries n
      → ⊥
  unfolding as_dictionary
  answer_of-none item e entries n same d =
      let asked : answer_of (dictionary entries) ≡ none = subst (λ i. answer_of i ≡ none) same e in
      let known = Decides-pcm_at entries audio_type format n d in
      none-ne-some (bit_and n format == format) (sym asked ∙ known)

  pub search_formats-Supports :
      (items : Values)
      → search_formats items audio_type format ≡ true
      → Supports audio_type format items
  unfolding search_formats
  search_formats-Supports nil h = absurd cc
  search_formats-Supports (cons item items) h = elim (Option-cases (answer_of item)) [
    | inl e ↦
        let rest : search_formats items audio_type format ≡ true = rw e at h in
        later (answer_of-none item e) (search_formats-Supports items rest)
    | inr (b, e) ↦
        let said : b ≡ true = rw e at h in
        let (entries, is_entries, decided) = >>=-eq-some (as_dictionary item) _ e in
        let (n, d, bits) = pcm_at-Decides entries audio_type format b decided in
        subst (λ i. Supports audio_type format (cons i items))
          (sym (as_dictionary-dictionary item entries is_entries))
          (here d ((==_iff (bit_and n format) format).0 (bits ∙ said)))
  ]

  pub Supports-search_formats :
      (items : Values)
      → Supports audio_type format items
      → search_formats items audio_type format ≡ true
  unfolding search_formats as_dictionary
  Supports-search_formats nil h = elim h [ ]
  Supports-search_formats (cons item items) (here {entries = entries} {formats = n} d bits) =
      rw (Decides-pcm_at entries audio_type format n d) ((==_iff (bit_and n format) format).1 bits)
  Supports-search_formats (cons item items) (later undecided s) =
      elim (Option-cases (answer_of item)) [
        | inl e ↦ rw e (Supports-search_formats items s)
        | inr (b, e) ↦
            let (entries, is_entries, decided) = >>=-eq-some (as_dictionary item) _ e in
            let (n, d, bits) = pcm_at-Decides entries audio_type format b decided in
            absurd (undecided entries n (as_dictionary-dictionary item entries is_entries) d)
      ]
