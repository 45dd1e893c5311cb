-- ===== src/Bridge/Ipc/Transfer.antt =====
-- What the loops over a socket move, in any sequence of rounds (src/bridge/carplay_ipc.cpp).
use aa2acp.Base.{
  ℕ, ◌≡◌, ◌↔◌, inl, inr, refl, sym, ap, ◌∙◌, Bool, true, false, List, [], ◌∷◌, ◌++◌, append_assoc,
  Option, none, some, some-injective, take, drop, take-append-drop, Bytes, Option-cases,
}
use aa2acp.Bridge.Ipc.{
  Round, stopping, expired, interrupted, poll_failed, idle, hung_up, again, refused, moved,
  send_all,
}

-- The answer says whether all was sent.
abbrev pub Sends : Bytes → Bool → Bytes → Type 0
Sends bytes ok sent = (unsent : Bytes) × (bytes ≡ sent ++ unsent) × ((ok ≡ true) ↔ (unsent ≡ []))

fails :
    {b : ℕ} {bytes : Bytes} {rounds left : List (Round ℕ)} {ok : Bool} {sent : Bytes}
    → Path
        (Option (Bool × Bytes × List (Round ℕ)))
        (some (false, [], rounds))
        (some (ok, sent, left))
    → Sends (b ∷ bytes) ok sent
fails {b} {bytes} e =
    let same = some-injective _ _ e in
    let answer = ap (λ (o : Bool × Bytes × List (Round ℕ)). o.0) same in
    let nothing = ap (λ (o : Bool × Bytes × List (Round ℕ)). o.1) same in
    (b ∷ bytes, ap (λ x. x ++ (b ∷ bytes)) nothing, (λ h. cc, λ h. absurd cc))

succeeds :
    {rounds left : List (Round ℕ)} {ok : Bool} {sent : Bytes}
    → Path
        (Option (Bool × Bytes × List (Round ℕ)))
        (some (true, [], rounds))
        (some (ok, sent, left))
    → Sends [] ok sent
succeeds e =
    let same = some-injective _ _ e in
    let answer = ap (λ (o : Bool × Bytes × List (Round ℕ)). o.0) same in
    let nothing = ap (λ (o : Bool × Bytes × List (Round ℕ)). o.1) same in
    ([], ap (λ x. x ++ []) nothing, (λ h. refl, λ h. sym answer))

Sends-append :
    (n : ℕ) (bytes : Bytes) (ok : Bool) (later : Bytes)
    → Sends (drop n bytes) ok later
    → Sends bytes ok (take n bytes ++ later)
Sends-append n bytes ok later (unsent, split, answer) = (
  unsent,
  sym (take-append-drop n bytes)
      ∙ ap (λ x. take n bytes ++ x) split
      ∙ sym (append_assoc (take n bytes) later unsent),
  answer,
)

-- In any sequence of rounds, `send_all` sends the bytes from the first on, in order and without a gap,
-- and answers true exactly if it sent all of them.
pub send_all_lem :
    (rounds : List (Round ℕ)) (bytes : Bytes) (ok : Bool) (sent : Bytes) (left : List (Round ℕ))
    → send_all rounds bytes ≡ some (ok, sent, left)
    → Sends bytes ok sent
unfolding send_all
send_all_lem rounds [] ok sent left e = succeeds e
send_all_lem [] (b ∷ bytes) ok sent left e = absurd cc
send_all_lem (stopping ∷ rounds) (b ∷ bytes) ok sent left e = fails e
send_all_lem (expired ∷ rounds) (b ∷ bytes) ok sent left e = fails e
send_all_lem (poll_failed ∷ rounds) (b ∷ bytes) ok sent left e = fails e
send_all_lem (hung_up ∷ rounds) (b ∷ bytes) ok sent left e = fails e
send_all_lem (refused ∷ rounds) (b ∷ bytes) ok sent left e = fails e
send_all_lem (interrupted ∷ rounds) (b ∷ bytes) ok sent left e =
    send_all_lem rounds (b ∷ bytes) ok sent left e
send_all_lem (idle ∷ rounds) (b ∷ bytes) ok sent left e =
    send_all_lem rounds (b ∷ bytes) ok sent left e
send_all_lem (again ∷ rounds) (b ∷ bytes) ok sent left e =
    send_all_lem rounds (b ∷ bytes) ok sent left e
send_all_lem (moved count ∷ rounds) (b ∷ bytes) ok sent left e =
    elim (Option-cases (send_all rounds (drop count (b ∷ bytes)))) [
      | inl stuck ↦
          (let no : Path (Option (Bool × Bytes × List (Round ℕ))) none (some (ok, sent, left)) =
              rw (stuck, send_all) at e in
            absurd cc)
      | inr ((ok', sent', left'), run) ↦
          let same : Path (Option (Bool × Bytes × List (Round ℕ)))
              (some (ok', take count (b ∷ bytes) ++ sent', left')) (some (ok, sent, left)) =
            rw (run, send_all) at e in
          let parts = some-injective _ _ same in
          let more =
            Sends-append count (b ∷ bytes) ok' sent'
              (send_all_lem rounds (drop count (b ∷ bytes)) ok' sent' left' run) in
          rw
            (
              ap (λ (o : Bool × Bytes × List (Round ℕ)). o.0) parts,
              ap (λ (o : Bool × Bytes × List (Round ℕ)). o.1) parts,
            )
            at more
    ]
