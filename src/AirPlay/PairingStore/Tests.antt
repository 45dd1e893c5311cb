-- ===== src/AirPlay/PairingStore/Tests.antt =====
-- A pairing with keys of zeros (src/airplay/pairing_store.cpp).
use aa2acp.Base.{arith, ◌↔◌, ℕ, zero, suc, ◌≡◌, refl, [], ◌∷◌, none, some, Bytes}
use aa2acp.AirPlay.PairingStore.{PairingRecord, saved_record, load_pairing_record}
use aa2acp.AirPlay.PairingStore.RoundTrip.{IsStorable, load_pairing_record-saved_record}

abbrev zeros : ℕ → Bytes
zeros zero = []
zeros (suc n) = 0 ∷ zeros n

abbrev sample : PairingRecord
sample = record {
  controller_id = 65 ∷ [];
  private_key = zeros 32;
  public_key = zeros 32;
  accessory_public_key = zeros 32;
}

load_pairing_record-saved_record_example :
    (((content : Bytes) × (saved_record sample ≡ some content)) ↔ IsStorable sample)
    × ((content : Bytes)
        → saved_record sample ≡ some content
        → load_pairing_record content ≡ some sample)
load_pairing_record-saved_record_example = load_pairing_record-saved_record sample

-- It is one of those that are saved, and one with a key too short is not.
sample-IsStorable : IsStorable sample
sample-IsStorable = record {
  named = omega arith;
  short = omega arith;
  private_size = refl;
  public_size = refl;
  accessory_size = refl;
}

short_key_refused : saved_record (record sample { private_key = zeros 31 }) ≡ none
unfolding saved_record
short_key_refused = refl
