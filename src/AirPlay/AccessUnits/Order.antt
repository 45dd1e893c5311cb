-- ===== src/AirPlay/AccessUnits/Order.antt =====
-- How h264_access_units cuts a stream (src/airplay/session.cpp).
use aa2acp.Base.{
  subst, ◌≡◌, refl, sym, ap, ◌∙◌, Bool, true, false, not, ◌&&◌, ◌||◌, List, [], ◌∷◌, ◌++◌,
  append_assoc, append-nil, ◌==◌, if◌then◌else◌, is_empty, All, All-append, ◌⊎◌, inl, inr, Bytes,
  arith,
}
use aa2acp.AirPlay.AccessUnits.{
  type_of, is_slice, starts_picture, first_mb_in_slice, Grouping, flush, before_header,
  before_slice, push_unit, group, h264_access_units,
}

abbrev pub joined : List (List Bytes) → List Bytes
joined [] = []
joined (unit ∷ units) = unit ++ joined units

abbrev pub non_empty : List Bytes → List Bytes
non_empty [] = []
non_empty ([] ∷ nalus) = non_empty nalus
non_empty ((b ∷ nalu) ∷ nalus) = (b ∷ nalu) ∷ non_empty nalus

-- A NAL unit that begins an access unit when a slice stands in front of it.
abbrev pub opens : Bytes → Bool
opens nalu =
    type_of nalu == 9
    || (type_of nalu == 7 || type_of nalu == 8)
    || is_slice nalu && starts_picture (first_mb_in_slice nalu)

-- A rest of an access unit, behind NAL units or none, with a slice among them or none.
abbrev pub IsRest : Bool → Bool → List Bytes → Type 0
IsRest begun seen [] = Unit
IsRest begun seen (nalu ∷ nalus) =
    (begun ≡ true → (type_of nalu == 9) ≡ false)
    × (seen ≡ true → opens nalu ≡ false)
    × IsRest true (seen || is_slice nalu) nalus

abbrev pub IsAccessUnit : List Bytes → Type 0
IsAccessUnit unit = (is_empty unit ≡ false) × IsRest false false unit

abbrev pub has_slice : Bool → List Bytes → Bool
has_slice seen [] = seen
has_slice seen (nalu ∷ nalus) = has_slice (seen || is_slice nalu) nalus

-- Why a new access unit begins behind another: with a delimiter, or with a unit that opens one and a
-- slice in front of it.
abbrev pub Follows : List Bytes → List Bytes → Type 0
Follows before [] = ⊥
Follows before (nalu ∷ nalus) =
    ((type_of nalu == 9) ≡ true) ⊎ ((has_slice false before ≡ true) × (opens nalu ≡ true))

-- Each but the first follows the one before it.
abbrev pub AreCut : List (List Bytes) → Type 0
AreCut [] = Unit
AreCut (unit ∷ []) = Unit
AreCut (unit ∷ next ∷ units) = Follows unit next × AreCut (next ∷ units)

-- The access units so far, the one in hand among them.
abbrev units : List (List Bytes) → List Bytes → List (List Bytes)
units result current = if is_empty current then result else result ++ current ∷ []

joined-append : (us vs : List (List Bytes)) → joined (us ++ vs) ≡ joined us ++ joined vs
joined-append [] vs = refl
joined-append (u ∷ us) vs =
    ap (◌++◌ u) (joined-append us vs) ∙ sym (append_assoc u (joined us) (joined vs))

IsRest-append :
    (begun seen : Bool) (unit : List Bytes) (nalu : Bytes)
    → IsRest begun seen unit
    → (begun || not (is_empty unit) ≡ true → (type_of nalu == 9) ≡ false)
    → (has_slice seen unit ≡ true → opens nalu ≡ false)
    → IsRest begun seen (unit ++ nalu ∷ [])
IsRest-append true seen [] nalu rest first slice = (first, slice, tt)
IsRest-append false seen [] nalu rest first slice = (first, slice, tt)
IsRest-append true seen (u ∷ unit) nalu rest first slice =
    (rest.0, rest.1, IsRest-append true (seen || is_slice u) unit nalu rest.2 first slice)
IsRest-append false seen (u ∷ unit) nalu rest first slice =
    (rest.0, rest.1, IsRest-append true (seen || is_slice u) unit nalu rest.2 first slice)

has_slice-append :
    (seen : Bool) (unit : List Bytes) (nalu : Bytes)
    → has_slice seen (unit ++ nalu ∷ []) ≡ (has_slice seen unit || is_slice nalu)
has_slice-append seen [] nalu = refl
has_slice-append seen (u ∷ unit) nalu = has_slice-append (seen || is_slice u) unit nalu

-- What a round does with a NAL unit: it begins an access unit, or it stands behind the one in hand.
round : Bytes → Grouping → Grouping
round nalu g = push_unit nalu (before_slice nalu (before_header nalu g))

round-cases :
    (nalu : Bytes) (g : Grouping)
    → ((((type_of nalu == 9) ≡ true) ⊎ ((g.has_vcl ≡ true) × (opens nalu ≡ true)))
        × (round nalu g ≡ record {
          result = units g.result g.current;
          current = nalu ∷ [];
          has_vcl = is_slice nalu;
        }))
      ⊎ (((type_of nalu == 9) ≡ false)
          × (g.has_vcl ≡ true → opens nalu ≡ false)
          × (round nalu g ≡ record g {
            current = g.current ++ nalu ∷ [];
            has_vcl = g.has_vcl || is_slice nalu;
          }))
unfolding round push_unit before_slice before_header flush
round-cases nalu g = ground arith

-- The access units that are cut, and that the one in hand follows the last.
AreCutBefore : List (List Bytes) → List Bytes → Type 0
AreCutBefore [] current = Unit
AreCutBefore (unit ∷ []) current = Follows unit current
AreCutBefore (unit ∷ next ∷ units) current = Follows unit next × AreCutBefore (next ∷ units) current

-- The invariant of the loop: what is cut is cut right, and `has_vcl` says what it means.
IsGrouped : List (List Bytes) → List Bytes → Bool → Type 0
IsGrouped result current has_vcl =
    All IsAccessUnit result
    × IsRest false false current
    × (has_slice false current ≡ has_vcl)
    × AreCutBefore result current

Follows-append :
    (before unit : List Bytes) (nalu : Bytes)
    → Follows before unit
    → Follows before (unit ++ nalu ∷ [])
Follows-append before [] nalu h = absurd h
Follows-append before (u ∷ unit) nalu h = h

AreCutBefore-append :
    (result : List (List Bytes)) (current : List Bytes) (nalu : Bytes)
    → AreCutBefore result current
    → AreCutBefore result (current ++ nalu ∷ [])
unfolding AreCutBefore
AreCutBefore-append [] current nalu h = tt
AreCutBefore-append (r ∷ []) current nalu h = Follows-append r current nalu h
AreCutBefore-append (r ∷ next ∷ result) current nalu h =
    (h.0, AreCutBefore-append (next ∷ result) current nalu h.1)

-- With nothing in hand, nothing was cut.
AreCutBefore-empty : (result : List (List Bytes)) → AreCutBefore result [] → result ≡ []
unfolding AreCutBefore
AreCutBefore-empty [] h = refl
AreCutBefore-empty (r ∷ []) h = absurd h
AreCutBefore-empty (r ∷ next ∷ result) h =
    absurd (cons-absurd next result (AreCutBefore-empty (next ∷ result) h.1))
  where
    cons-absurd :
        (x : List Bytes) (xs : List (List Bytes)) → Path (List (List Bytes)) (x ∷ xs) [] → ⊥
    cons-absurd x xs e = cc

AreCutBefore-cut :
    (result : List (List Bytes)) (current next : List Bytes)
    → AreCutBefore result current
    → Follows current next
    → AreCutBefore (result ++ current ∷ []) next
unfolding AreCutBefore
AreCutBefore-cut [] current next h f = f
AreCutBefore-cut (r ∷ []) current next h f = (h, f)
AreCutBefore-cut (r ∷ s ∷ result) current next h f =
    (h.0, AreCutBefore-cut (s ∷ result) current next h.1 f)

AreCutBefore-units :
    (result : List (List Bytes)) (current next : List Bytes)
    → AreCutBefore result current
    → Follows current next
    → AreCutBefore (units result current) next
unfolding AreCutBefore
AreCutBefore-units result [] next h f =
    subst (λ r. AreCutBefore r next) (sym (AreCutBefore-empty result h)) tt
AreCutBefore-units result (u ∷ current) next h f = AreCutBefore-cut result (u ∷ current) next h f

AreCut-last :
    (result : List (List Bytes)) (current : List Bytes)
    → AreCutBefore result current
    → AreCut (result ++ current ∷ [])
unfolding AreCutBefore
AreCut-last [] current h = tt
AreCut-last (r ∷ []) current h = (h, tt)
AreCut-last (r ∷ next ∷ result) current h = (h.0, AreCut-last (next ∷ result) current h.1)

units-AreCut :
    (result : List (List Bytes)) (current : List Bytes) (has_vcl : Bool)
    → IsGrouped result current has_vcl
    → AreCut (units result current)
unfolding IsGrouped
units-AreCut result [] has_vcl h = subst AreCut (sym (AreCutBefore-empty result h.3)) tt
units-AreCut result (u ∷ current) has_vcl h = AreCut-last result (u ∷ current) h.3

units-IsAccessUnit :
    (result : List (List Bytes)) (current : List Bytes) (has_vcl : Bool)
    → IsGrouped result current has_vcl
    → All IsAccessUnit (units result current)
unfolding IsGrouped
units-IsAccessUnit result [] has_vcl h = h.0
units-IsAccessUnit result (u ∷ current) has_vcl h =
    All-append IsAccessUnit result ((u ∷ current) ∷ []) h.0 ((refl, h.1), tt)

joined-units :
    (result : List (List Bytes)) (current : List Bytes)
    → joined (units result current) ≡ joined result ++ current
joined-units result [] = sym (append-nil (joined result))
joined-units result (u ∷ current) =
    joined-append result ((u ∷ current) ∷ [])
    ∙ ap (λ end. joined result ++ end) (append-nil (u ∷ current))

first-IsRest : (nalu : Bytes) → IsRest false false (nalu ∷ [])
first-IsRest nalu = ((λ h. absurd cc), (λ h. absurd cc), tt)

-- A round keeps the invariant, and it adds the NAL unit at the end.
round-IsGrouped :
    (nalu : Bytes) (g : Grouping)
    → IsGrouped g.result g.current g.has_vcl
    → IsGrouped (round nalu g).result (round nalu g).current (round nalu g).has_vcl
unfolding IsGrouped
round-IsGrouped nalu g h = elim (round-cases nalu g) [
  | inl (opening, e) ↦ rw e (
    units-IsAccessUnit g.result g.current g.has_vcl h,
    first-IsRest nalu,
    refl,
    AreCutBefore-units g.result g.current (nalu ∷ []) h.3 (follows opening h.2),
  )
  | inr (first, slice, e) ↦ rw e (
    h.0,
    IsRest-append false false g.current nalu h.1 (λ filled. first) (λ seen. slice (sym h.2 ∙ seen)),
    (has_slice-append false g.current nalu ∙ ap (λ seen. seen || is_slice nalu) h.2),
    AreCutBefore-append g.result g.current nalu h.3,
  )
]
  where
    follows :
        ((type_of nalu == 9) ≡ true) ⊎ ((g.has_vcl ≡ true) × (opens nalu ≡ true))
        → has_slice false g.current ≡ g.has_vcl
        → Follows g.current (nalu ∷ [])
    follows (inl delimiter) seen = inl delimiter
    follows (inr (vcl, opening)) seen = inr ((seen ∙ vcl), opening)

round-joined :
    (nalu : Bytes) (g : Grouping)
    → joined (round nalu g).result ++ (round nalu g).current
      ≡ (joined g.result ++ g.current) ++ nalu ∷ []
round-joined nalu g = elim (round-cases nalu g) [
  | inl (opening, e) ↦ rw e (ap (λ start. start ++ nalu ∷ []) (joined-units g.result g.current))
  | inr (first, slice, e) ↦ rw e (sym (append_assoc (joined g.result) g.current (nalu ∷ [])))
]

group-IsGrouped :
    (nalus : List Bytes) (g : Grouping)
    → IsGrouped g.result g.current g.has_vcl
    → IsGrouped (group nalus g).result (group nalus g).current (group nalus g).has_vcl
unfolding group round
group-IsGrouped [] g h = h
group-IsGrouped ([] ∷ nalus) g h = group-IsGrouped nalus g h
group-IsGrouped ((b ∷ nalu) ∷ nalus) g h =
    group-IsGrouped nalus (round (b ∷ nalu) g) (round-IsGrouped (b ∷ nalu) g h)

group-joined :
    (nalus : List Bytes) (g : Grouping)
    → joined (group nalus g).result ++ (group nalus g).current
      ≡ (joined g.result ++ g.current) ++ non_empty nalus
unfolding group round
group-joined [] g = sym (append-nil (joined g.result ++ g.current))
group-joined ([] ∷ nalus) g = group-joined nalus g
group-joined ((b ∷ nalu) ∷ nalus) g =
    group-joined nalus (round (b ∷ nalu) g)
    ∙ ap (λ start. start ++ non_empty nalus) (round-joined (b ∷ nalu) g)
    ∙ append_assoc (joined g.result ++ g.current) ((b ∷ nalu) ∷ []) (non_empty nalus)

abbrev start : Grouping
start = record { result = []; current = []; has_vcl = false }

-- The access units hold the NAL units that are not empty, in their order. Each has one at least, a
-- delimiter only at its front, and behind a slice none that opens an access unit. Each but the first
-- begins with a delimiter, or with a unit that opens an access unit while the one before it has a slice.
pub h264_access_units_lem :
    (nalus : List Bytes)
    → (joined (h264_access_units nalus) ≡ non_empty nalus)
      × All IsAccessUnit (h264_access_units nalus)
      × AreCut (h264_access_units nalus)
unfolding h264_access_units flush IsGrouped AreCutBefore
h264_access_units_lem nalus =
    let end = group nalus start in
    let grouped = group-IsGrouped nalus start (tt, tt, refl, tt) in
    (
      joined-units end.result end.current ∙ group-joined nalus start,
      units-IsAccessUnit end.result end.current end.has_vcl grouped,
      units-AreCut end.result end.current end.has_vcl grouped,
    )
