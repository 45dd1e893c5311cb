-- ===== src/Bridge/Management/Hotspot.antt =====
-- The names of the hotspot, one after the other (src/bridge_daemon_main.cpp).
use aa2acp.Base.{
  ℕ, zero, suc, ◌+◌, ◌-◌, ◌*◌, ◌/◌, ◌%◌, ◌^◌, ◌<◌, ◌≡◌, refl, ap, ◌∙◌, true, inl, inr, [], ◌∷◌,
  ◌++◌, none, some, arith, ltb, Bool-cases, Bytes,
}
use aa2acp.Base.Texts.{is_digit, digits, decimal, Lacks, Lacks-decimal, is_empty-decimal}
use aa2acp.Bridge.Management.{last_dash, read_counter_from, next_management_hotspot_ssid}

last_dash-Lacks : (text : Bytes) → Lacks 45 text → last_dash text ≡ none
unfolding last_dash
last_dash-Lacks [] lacks = refl
last_dash-Lacks (c ∷ text) (other, lacks) = rw (last_dash-Lacks text lacks, other) refl

last_dash-append :
    (front back : Bytes) → Lacks 45 back → last_dash (front ++ (45 ∷ back)) ≡ some (front, back)
unfolding last_dash
last_dash-append [] back lacks = rw (last_dash-Lacks back lacks) refl
last_dash-append (c ∷ front) back lacks = rw (last_dash-append front back lacks) refl

read_counter_from-append :
    (text : Bytes) (c n start : ℕ)
    → is_digit c ≡ true
    → n < 100000000
    → read_counter_from start text ≡ some n
    → read_counter_from start (text ++ (c ∷ [])) ≡ some (n * 10 + (c - 48))
unfolding read_counter_from
read_counter_from-append [] c n start digit small h = ground arith
read_counter_from-append (x ∷ text) c n start digit small h =
    ground (arith, read_counter_from-append text c n ((start * 10 + (x - 48)) % 2 ^ 32) digit small)

read_counter_from-digits :
    (fuel n : ℕ) → n < fuel → n < 1000000000 → read_counter_from 0 (digits fuel n) ≡ some n
unfolding digits read_counter_from
read_counter_from-digits zero n h small = absurd (omega arith)
read_counter_from-digits (suc fuel) n h small = elim (Bool-cases (ltb n 10)) [
  | inl e ↦ rw e (ground arith)
  | inr e ↦ rw e (
      read_counter_from-append (digits fuel (n / 10)) (48 + n % 10) (n / 10) 0 (ground arith)
        (omega arith) (read_counter_from-digits fuel (n / 10) (ground arith) (omega arith))
      ∙ ap some (omega arith))
]

read_counter_from-decimal : (n : ℕ) → n < 1000000000 → read_counter_from 0 (decimal n) ≡ some n
unfolding decimal
read_counter_from-decimal n small = read_counter_from-digits (suc n) n (omega arith) small

-- A name with a counter below 1,000,000,000 is followed by the name with the next one.
pub next_management_hotspot_ssid-decimal :
    (front : Bytes) (n : ℕ)
    → n < 1000000000
    → next_management_hotspot_ssid (front ++ (45 ∷ decimal n)) ≡ front ++ (45 ∷ decimal (n + 1))
unfolding next_management_hotspot_ssid
next_management_hotspot_ssid-decimal front n small =
    let next : (n + 1) % 2 ^ 32 ≡ n + 1 = omega arith in
    rw
      (
        last_dash-append front (decimal n) (Lacks-decimal 45 n (omega arith)),
        is_empty-decimal n,
        read_counter_from-decimal n small,
        next,
      )
      refl
