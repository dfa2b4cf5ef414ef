-- ===== src/Protocol/Decimal.antt =====
-- src/protocol/codec.c: decimal numbers, written and parsed.
use native.Mathlib.Nat.{pow-suc}
use kvstore.Common.{
  ℕ, zero, suc, ◌+◌, ◌-◌, ◌*◌, ◌/◌, ◌%◌, ◌^◌, ◌≤◌, ◌<◌, ◌≡◌, refl, arith, Bytes, [], ◌∷◌, ◌++◌,
  length, Bool, true, false, ◌∙◌, Bool-cases, inl, inr, leb,
}
use kvstore.Protocol.{
  complete, is_digit, number_end, number_loop, parse_number, size_max, digits_loop, decimal_digits,
  write_loop, write_decimal, crlf,
}

-- The loop counts the rounds that it takes to get below ten, if the fuel lasts that long.
digits_loop_lem :
    (fuel value d : ℕ)
    → value < 10 ^ suc fuel
    → (k : ℕ) × (digits_loop fuel value d ≡ k + d) × (value < 10 ^ suc k) × (k ≤ fuel)
unfolding digits_loop
digits_loop_lem zero value d h = (0, omega arith, h, omega arith)
digits_loop_lem (suc fuel) value d h = elim (Bool-cases (leb 10 value)) [
  | inl e ↦
      let (k, eq, lt, le) =
        digits_loop_lem fuel (value / 10) (d + 1) (omega (arith, pow-suc 10 (suc fuel))) in
      (suc k, rw e (omega arith), omega (arith, pow-suc 10 (suc k)), omega arith)
  | inr e ↦ (0, rw e (omega arith), ground arith, omega arith)
]

-- `decimal_digits` counts enough digits for every `size_t`, at least one and at most 20.
pub decimal_digits_bounds :
    (value : ℕ)
    → value ≤ size_max
    → (value < 10 ^ decimal_digits value) × (1 ≤ decimal_digits value) × (decimal_digits value ≤ 20)
unfolding decimal_digits
decimal_digits_bounds value h =
    let (k, eq, lt, le) = digits_loop_lem 19 value 1 (omega arith) in
    let n : digits_loop 19 value 1 ≡ suc k = omega arith in rw n (lt, omega arith, omega arith)

-- One digit is read into the value.
number_loop_digit :
    (a d pos : ℕ) (out : Bytes)
    → d < 10
    → a * 10 + d ≤ size_max
    → number_loop a pos ((b'0' + d) ∷ out) ≡ number_loop (a * 10 + d) (pos + 1) out
unfolding number_loop
number_loop_digit a d pos out h fits =
    let back : (b'0' + d) - b'0' ≡ d = omega arith in
    let wrap : (a * 10 + d) % 2 ^ 64 ≡ a * 10 + d = omega arith in rw (back, wrap) (ground arith)

-- Reading the digits that the writer has put in front of `out` goes on at `out`.
number_loop-write_loop :
    (n v a pos : ℕ) (out : Bytes)
    → v < 10 ^ n
    → a * 10 ^ n + v ≤ size_max
    → number_loop a pos (write_loop n v out) ≡ number_loop (a * 10 ^ n + v) (pos + n) out
unfolding write_loop
number_loop-write_loop zero v a pos out h fits =
    let e : a * 1 + v ≡ a = omega arith in let e' : pos + 0 ≡ pos = omega arith in rw (e, e')
number_loop-write_loop (suc n) v a pos out h fits =
    let w : a * 10 ^ suc n ≡ (a * 10 ^ n) * 10 = rw (pow-suc 10 n) (omega arith) in
    let b : a * 10 ^ n + v / 10 ≤ size_max = omega arith in
    let t : (a * 10 ^ n + v / 10) * 10 + v % 10 ≡ a * 10 ^ suc n + v = omega arith in
    let p : pos + n + 1 ≡ pos + suc n = omega arith in
    number_loop-write_loop n (v / 10) a pos ((b'0' + v % 10) ∷ out) (omega (arith, pow-suc 10 n)) b
    ∙ number_loop_digit (a * 10 ^ n + v / 10) (v % 10) (pos + n) out (omega arith) (omega arith)
    ∙ rw (t, p)

-- Whether the first byte is a digit.
abbrev pub starts_digit : Bytes → Bool
starts_digit [] = false
starts_digit (c ∷ rest) = is_digit c

write_loop_starts :
    (n v : ℕ) (out : Bytes) → starts_digit out ≡ true → starts_digit (write_loop n v out) ≡ true
unfolding write_loop
write_loop_starts zero v out h = h
write_loop_starts (suc n) v out h = write_loop_starts n (v / 10) _ (ground arith)

write_loop_suc_starts : (n v : ℕ) (out : Bytes) → 1 ≤ n → starts_digit (write_loop n v out) ≡ true
unfolding write_loop
write_loop_suc_starts zero v out h = absurd (omega arith)
write_loop_suc_starts (suc n) v out h = write_loop_starts n (v / 10) _ (ground arith)

-- The writer only adds in front.
write_loop-append :
    (n v : ℕ) (out more : Bytes) → write_loop n v out ++ more ≡ write_loop n v (out ++ more)
unfolding write_loop
write_loop-append zero v out more = refl
write_loop-append (suc n) v out more = write_loop-append n (v / 10) ((b'0' + v % 10) ∷ out) more

length-write_loop : (n v : ℕ) (out : Bytes) → length (write_loop n v out) ≡ n + length out
unfolding write_loop
length-write_loop zero v out = omega arith
length-write_loop (suc n) v out =
    omega (arith, length-write_loop n (v / 10) ((b'0' + v % 10) ∷ out))

pub length-write_decimal : (v : ℕ) → length (write_decimal v) ≡ decimal_digits v
unfolding write_decimal
length-write_decimal v = omega (arith, length-write_loop (decimal_digits v) v [])

parse_number_digit :
    (pos : ℕ) (input : Bytes)
    → starts_digit input ≡ true
    → parse_number pos input ≡ number_loop 0 pos input
unfolding parse_number
parse_number_digit pos [] h = cc
parse_number_digit pos (c ∷ rest) h = rw h

number_loop-crlf :
    (v pos : ℕ) (rest : Bytes) → number_loop v pos (crlf ++ rest) ≡ complete v (pos + 2) rest
unfolding number_loop number_end
number_loop-crlf v pos rest = refl

-- `parse_number` reads back what `write_decimal` wrote for a `size_t` in front of CR LF, and stops
-- behind them.
pub parse_number-write_decimal :
    (v pos : ℕ) (rest : Bytes)
    → v ≤ size_max
    → parse_number pos (write_decimal v ++ (crlf ++ rest))
      ≡ complete v (pos + decimal_digits v + 2) rest
unfolding write_decimal
parse_number-write_decimal v pos rest h =
    let (lt, pos_digits, le) = decimal_digits_bounds v h in
    let n = decimal_digits v in
    let z : 0 * 10 ^ decimal_digits v + v ≡ v = omega arith in
    rw (write_loop-append n v [] (crlf ++ rest)) (
      parse_number_digit pos (write_loop n v (crlf ++ rest))
        (write_loop_suc_starts n v (crlf ++ rest) pos_digits)
      ∙ number_loop-write_loop n v 0 pos (crlf ++ rest) lt (omega arith)
      ∙ number_loop-crlf (0 * 10 ^ n + v) (pos + n) rest
      ∙ rw z)
