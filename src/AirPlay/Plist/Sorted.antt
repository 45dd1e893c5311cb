-- ===== src/AirPlay/Plist/Sorted.antt =====
-- Entries put into a map in the order of their keys (src/airplay/bplist.cpp).
use aa2acp.Base.{◌≡◌, refl, ap, true, false, [], ◌∷◌, arith, Bytes, eqb}
use aa2acp.AirPlay.Plist.{PlistValue, Entries, empty, entry}
use aa2acp.AirPlay.Plist.Decoder.{before, emplace}
use aa2acp.AirPlay.Plist.Measures.{AllAfter, IsSorted}

abbrev pub append_entries : Entries → Entries → Entries
append_entries empty more = more
append_entries (entry key value entries) more = entry key value (append_entries entries more)

pub append_entries-empty : (entries : Entries) → append_entries entries empty ≡ entries
append_entries-empty empty = refl
append_entries-empty (entry key value entries) = ap (entry key value) (append_entries-empty entries)

pub append_entries_assoc :
    (a b c : Entries)
    → append_entries (append_entries a b) c ≡ append_entries a (append_entries b c)
append_entries_assoc empty b c = refl
append_entries_assoc (entry key value a) b c = ap (entry key value) (append_entries_assoc a b c)

-- Of two keys in order, neither is the other and the second is not before the first.
before_asym : (a b : Bytes) → before a b ≡ true → (eqb a b ≡ false) × (before b a ≡ false)
unfolding before
before_asym a [] h = absurd cc
before_asym [] (y ∷ b) h = (refl, refl)
before_asym (x ∷ a) (y ∷ b) h = ground (arith, before_asym a b)

before-AllAfter :
    (k key : Bytes) (value : PlistValue) (entries more : Entries)
    → AllAfter k (append_entries entries (entry key value more))
    → before k key ≡ true
before-AllAfter k key value empty more h = h.0
before-AllAfter k key value (entry k' v entries) more h =
    before-AllAfter k key value entries more h.1

-- A key behind all others gets the last place.
pub emplace-append_entries :
    (key : Bytes) (value : PlistValue) (entries more : Entries)
    → IsSorted (append_entries entries (entry key value more))
    → emplace key value entries ≡ append_entries entries (entry key value empty)
unfolding emplace
emplace-append_entries key value empty more h = refl
emplace-append_entries key value (entry k v entries) more h =
    let (other, above) = before_asym k key (before-AllAfter k key value entries more h.0) in
    rw (other, above) (ap (entry k v) (emplace-append_entries key value entries more h.1))
