-- ===== src/Bridge/Management/Escaping.antt =====
-- Escaped texts in a page (src/bridge/management_ui.cpp).
use aa2acp.Base.{
  ℕ, zero, suc, ◌≡◌, refl, sym, ap, ◌∙◌, true, inl, inr, [], ◌∷◌, ◌++◌, Option, none, some, arith,
  ◌==◌, if◌then◌else◌, Bool-cases, All-append, ==_iff, take, eqb, Bytes,
}
use aa2acp.Base.Texts.{Lacks}
use aa2acp.Bridge.Management.{escape_character, html_escape}

-- The characters that could end a text or an attribute: '<', '>' and the quotes.
abbrev pub IsInert : Bytes → Type 0
IsInert text = Lacks 60 text × Lacks 62 text × Lacks 34 text × Lacks 39 text

escape_character-IsInert : (c : ℕ) → IsInert (escape_character c)
unfolding escape_character
escape_character-IsInert c = ground arith

IsInert-append : (a b : Bytes) → IsInert a → IsInert b → IsInert (a ++ b)
IsInert-append a b (p, q, r, s) (p', q', r', s') =
    (All-append _ a b p p', All-append _ a b q q', All-append _ a b r r', All-append _ a b s s')

-- How a browser reads the five entities back, each with its semicolon: what the one at the front
-- stands for, and its length behind the ampersand.
abbrev entity : Bytes → Option (ℕ × ℕ)
entity text =
    if eqb (take 4 text) (97 ∷ 109 ∷ 112 ∷ 59 ∷ [])
    then some (38, 4)
    else if eqb (take 3 text) (108 ∷ 116 ∷ 59 ∷ [])
    then some (60, 3)
    else if eqb (take 3 text) (103 ∷ 116 ∷ 59 ∷ [])
    then some (62, 3)
    else if eqb (take 5 text) (113 ∷ 117 ∷ 111 ∷ 116 ∷ 59 ∷ [])
    then some (34, 5)
    else if eqb (take 4 text) (35 ∷ 51 ∷ 57 ∷ 59 ∷ [])
    then some (39, 4)
    else none

unescape_from : ℕ → Bytes → Bytes
unescape_from skip [] = []
unescape_from (suc skip) (c ∷ text) = unescape_from skip text
unescape_from zero (c ∷ text) =
    let kept = c ∷ unescape_from 0 text in
    let later : ℕ → Bytes = λ n. unescape_from n text in
    if c == 38 then elim (entity text) [ none ↦ kept | some (sign, n) ↦ sign ∷ later n ] else kept

pub html_unescape : Bytes → Bytes
html_unescape text = unescape_from 0 text

unescape_from-character :
    (c : ℕ) (text : Bytes) → unescape_from 0 (escape_character c ++ text) ≡ c ∷ unescape_from 0 text
unfolding unescape_from escape_character
unescape_from-character c text =
    let front : (k : ℕ) → (c == k) ≡ true → k ∷ unescape_from 0 text ≡ c ∷ unescape_from 0 text =
      λ k e. ap (λ n. n ∷ unescape_from 0 text) (sym ((==_iff c k).0 e)) in
    elim (Bool-cases (c == 38)) [
      | inl e ↦ rw e (front 38 e)
      | inr e ↦ elim (Bool-cases (c == 60)) [
        | inl f ↦ rw (e, f) (front 60 f)
        | inr f ↦ elim (Bool-cases (c == 62)) [
          | inl g ↦ rw (e, f, g) (front 62 g)
          | inr g ↦ elim (Bool-cases (c == 34)) [
            | inl h ↦ rw (e, f, g, h) (front 34 h)
            | inr h ↦ elim (Bool-cases (c == 39)) [
              | inl i ↦ rw (e, f, g, h, i) (front 39 i)
              | inr i ↦ rw (e, f, g, h, i) (rw e refl)
            ]
          ]
        ]
      ]
    ]

-- An escaped text holds no angle bracket and no quote, and a reader of entities gets back the text.
pub html_escape_lem :
    (value : Bytes) → IsInert (html_escape value) × (html_unescape (html_escape value) ≡ value)
unfolding html_escape html_unescape unescape_from
html_escape_lem [] = ((tt, tt, tt, tt), refl)
html_escape_lem (c ∷ value) =
    let (inert, back) = html_escape_lem value in
    (
      IsInert-append (escape_character c) (html_escape value) (escape_character-IsInert c) inert,
      unescape_from-character c (html_escape value) ∙ ap (◌∷◌ c) back,
    )
