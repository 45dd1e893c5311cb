-- ===== src/Bridge/Ipc/Rounds.antt =====
-- What receive_all receives in the rounds of a connection (src/bridge/carplay_ipc.cpp).
use aa2acp.Base.{
  ℕ, zero, suc, ◌+◌, ◌-◌, ◌≤◌, ◌<◌, ◌≡◌, refl, sym, ap, ◌∙◌, Bool, true, false, List, [], ◌∷◌, ◌++◌,
  append-nil, append_assoc, Option, none, some, arith, length, length-append, take, Bytes,
}
use aa2acp.Bridge.Ipc.{
  Round, stopping, expired, interrupted, poll_failed, idle, hung_up, again, refused, moved,
  receive_all,
}

-- The rounds give these bytes, in any pieces, with any waits before a piece, and leave other rounds.
pub data Gives : List (Round Bytes) → Bytes → List (Round Bytes) → Type 0 where
  done : {left : List (Round Bytes)} → Gives left [] left
  waited :
      {rounds left : List (Round Bytes)} {b : ℕ} {bytes : Bytes}
      → Gives rounds (b ∷ bytes) left
      → Gives (idle ∷ rounds) (b ∷ bytes) left
  was_interrupted :
      {rounds left : List (Round Bytes)} {b : ℕ} {bytes : Bytes}
      → Gives rounds (b ∷ bytes) left
      → Gives (interrupted ∷ rounds) (b ∷ bytes) left
  repeated :
      {rounds left : List (Round Bytes)} {b : ℕ} {bytes : Bytes}
      → Gives rounds (b ∷ bytes) left
      → Gives (again ∷ rounds) (b ∷ bytes) left
  piece :
      {rounds left : List (Round Bytes)} {bytes : Bytes} (b : ℕ) (chunk : Bytes)
      → Gives rounds bytes left
      → Gives (moved (b ∷ chunk) ∷ rounds) ((b ∷ chunk) ++ bytes) left

-- The next rounds end the connection, after any waits.
abbrev pub Ends : List (Round Bytes) → Type 0
Ends [] = ⊥
Ends (stopping ∷ rounds) = Unit
Ends (expired ∷ rounds) = Unit
Ends (poll_failed ∷ rounds) = Unit
Ends (hung_up ∷ rounds) = Unit
Ends (refused ∷ rounds) = Unit
Ends (interrupted ∷ rounds) = Ends rounds
Ends (idle ∷ rounds) = Ends rounds
Ends (again ∷ rounds) = Ends rounds
Ends (moved bytes ∷ rounds) = ⊥

-- What was received before the rest.
abbrev behind :
    Bytes → Option (Bool × Bytes × List (Round Bytes)) → Option (Bool × Bytes × List (Round Bytes))
behind bytes none = none
behind bytes (some (ok, received, left)) = some (ok, bytes ++ received, left)

take_piece : (chunk : Bytes) (n : ℕ) → length chunk ≤ n → take n chunk ≡ chunk
take_piece [] zero h = refl
take_piece [] (suc n) h = refl
take_piece (c ∷ chunk) zero h = absurd (omega arith)
take_piece (c ∷ chunk) (suc n) h = ap (◌∷◌ c) (take_piece chunk n (omega arith))

behind-append :
    (a b : Bytes) (o : Option (Bool × Bytes × List (Round Bytes)))
    → behind a (behind b o) ≡ behind (a ++ b) o
behind-append a b none = refl
behind-append a b (some (ok, received, left)) =
    ap (λ x. some (ok, x, left)) (sym (append_assoc a b received))

behind-nil : (o : Option (Bool × Bytes × List (Round Bytes))) → behind [] o ≡ o
behind-nil none = refl
behind-nil (some (ok, received, left)) = refl

receive_all-moved :
    (rounds : List (Round Bytes)) (b : ℕ) (chunk : Bytes) (m n : ℕ)
    → m ≡ length chunk + n
    → receive_all (moved (b ∷ chunk) ∷ rounds) (suc m) ≡ behind (b ∷ chunk) (receive_all rounds n)
unfolding receive_all
receive_all-moved rounds b chunk m n e =
    let cut : take (suc m) (b ∷ chunk) ≡ b ∷ chunk =
      ap (◌∷◌ b) (take_piece chunk m (omega arith)) in
    let less : suc m - length (b ∷ chunk) ≡ n = omega arith in
    let got = take (suc m) (b ∷ chunk) in
    same got (receive_all rounds (suc m - length got))
    ∙ ap (λ x. behind x (receive_all rounds (suc m - length x))) cut
    ∙ ap (λ k. behind (b ∷ chunk) (receive_all rounds k)) less
  where
    same :
        (got : Bytes) (o : Option (Bool × Bytes × List (Round Bytes)))
        → elim o [ none ↦ none | some (ok, received, left) ↦ some (ok, got ++ received, left) ]
          ≡ behind got o
    same got none = refl
    same got (some (ok, received, left)) = refl

receive_all_waits :
    (rounds : List (Round Bytes)) (n : ℕ)
    → 1 ≤ n
    → (receive_all (idle ∷ rounds) n ≡ receive_all rounds n)
      × (receive_all (interrupted ∷ rounds) n ≡ receive_all rounds n)
      × (receive_all (again ∷ rounds) n ≡ receive_all rounds n)
unfolding receive_all
receive_all_waits rounds zero h = absurd (omega arith)
receive_all_waits rounds (suc n) h = (refl, refl, refl)

-- `receive_all` takes what the rounds give, and goes on for what is missing.
receive_all-Gives :
    {rounds left : List (Round Bytes)} {bytes : Bytes} (n : ℕ)
    → Gives rounds bytes left
    → receive_all rounds (length bytes + n) ≡ behind bytes (receive_all left n)
receive_all-Gives n (done {left}) =
    let none_more : 0 + n ≡ n = omega arith in
    ap (receive_all left) none_more ∙ sym (behind-nil (receive_all left n))
receive_all-Gives n (waited {rounds = rest} {b = b} {bytes = bytes} g) =
    (receive_all_waits rest (length (b ∷ bytes) + n) (omega arith)).0 ∙ receive_all-Gives n g
receive_all-Gives n (was_interrupted {rounds = rest} {b = b} {bytes = bytes} g) =
    (receive_all_waits rest (length (b ∷ bytes) + n) (omega arith)).1 ∙ receive_all-Gives n g
receive_all-Gives n (repeated {rounds = rest} {b = b} {bytes = bytes} g) =
    (receive_all_waits rest (length (b ∷ bytes) + n) (omega arith)).2 ∙ receive_all-Gives n g
receive_all-Gives {left = left} n (piece {rounds = rest} {bytes = bytes} b chunk g) =
    let m = length (chunk ++ bytes) + n in
    let size : suc (length (chunk ++ bytes)) + n ≡ suc m = omega arith in
    ap (receive_all (moved (b ∷ chunk) ∷ rest)) size
    ∙ receive_all-moved rest b chunk m (length bytes + n) (omega (arith, length-append chunk bytes))
    ∙ ap (behind (b ∷ chunk)) (receive_all-Gives n g)
    ∙ behind-append (b ∷ chunk) bytes (receive_all left n)

pub receive_all_whole :
    {rounds left : List (Round Bytes)} {bytes : Bytes}
    → Gives rounds bytes left
    → receive_all rounds (length bytes) ≡ some (true, bytes, left)
unfolding receive_all
receive_all_whole {rounds} {left} {bytes} g =
    let size : length bytes ≡ length bytes + 0 = omega arith in
    ap (receive_all rounds) size
    ∙ receive_all-Gives 0 g
    ∙ ap (λ x. some (true, x, left)) (append-nil bytes)

receive_all-Ends :
    (rounds : List (Round Bytes)) (n : ℕ)
    → Ends rounds
    → (left : List (Round Bytes)) × (receive_all rounds (suc n) ≡ some (false, [], left))
unfolding receive_all
receive_all-Ends [] n h = absurd h
receive_all-Ends (stopping ∷ rounds) n h = (rounds, refl)
receive_all-Ends (expired ∷ rounds) n h = (rounds, refl)
receive_all-Ends (poll_failed ∷ rounds) n h = (rounds, refl)
receive_all-Ends (hung_up ∷ rounds) n h = (rounds, refl)
receive_all-Ends (refused ∷ rounds) n h = (rounds, refl)
receive_all-Ends (interrupted ∷ rounds) n h = receive_all-Ends rounds n h
receive_all-Ends (idle ∷ rounds) n h = receive_all-Ends rounds n h
receive_all-Ends (again ∷ rounds) n h = receive_all-Ends rounds n h
receive_all-Ends (moved bytes ∷ rounds) n h = absurd h

-- The connection ends before all that was asked for is there.
pub receive_all_cut :
    {rounds left : List (Round Bytes)} {part : Bytes} (size : ℕ)
    → Gives rounds part left
    → length part < size
    → Ends left
    → (rest : List (Round Bytes)) × (receive_all rounds size ≡ some (false, part ++ [], rest))
receive_all_cut {rounds} {left} {part} size g short ends =
    let (rest, failed) = receive_all-Ends left (size - length part - 1) ends in
    let sum : size ≡ length part + suc (size - length part - 1) = omega arith in
    (
      rest,
      ap (receive_all rounds) sum
          ∙ receive_all-Gives (suc (size - length part - 1)) g
          ∙ ap (behind part) failed,
    )

pub length-Gives_le :
    {rounds left : List (Round Bytes)} {bytes : Bytes}
    → Gives rounds bytes left
    → length left ≤ length rounds
length-Gives_le done = omega arith
length-Gives_le (waited g) = omega (arith, length-Gives_le g)
length-Gives_le (was_interrupted g) = omega (arith, length-Gives_le g)
length-Gives_le (repeated g) = omega (arith, length-Gives_le g)
length-Gives_le (piece b chunk g) = omega (arith, length-Gives_le g)

pub length-Gives :
    {rounds left : List (Round Bytes)} {bytes : Bytes}
    → Gives rounds bytes left
    → 1 ≤ length bytes
    → length left < length rounds
length-Gives done h = absurd (omega arith)
length-Gives (waited g) h = omega (arith, length-Gives g (omega arith))
length-Gives (was_interrupted g) h = omega (arith, length-Gives g (omega arith))
length-Gives (repeated g) h = omega (arith, length-Gives g (omega arith))
length-Gives (piece b chunk g) h = omega (arith, length-Gives_le g)
