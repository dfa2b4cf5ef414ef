-- ===== src/Aof/Reading.antt =====
-- src/persistence/aof.c: what the reader delivers of the file.
use kvstore.Common.{
  ℕ, zero, suc, ◌+◌, ◌-◌, ◌≤◌, ◌≡◌, refl, ap, arith, Bytes, true, false, not, ◌||◌, some, ltb, ◌==◌,
  if◌then◌else◌, length, take, drop, length-take, length-drop, min, [], ◌∷◌,
}
use kvstore.Aof.{Reader, reader_read}

take-take_self : (n m : ℕ) (xs : Bytes) → take (length (take n (take m xs))) xs ≡ take n (take m xs)
take-take_self zero m xs = refl
take-take_self (suc n) zero xs = refl
take-take_self (suc n) (suc m) [] = refl
take-take_self (suc n) (suc m) (x ∷ xs) = ap (λ t. x ∷ t) (take-take_self n m xs)

-- What one read delivers: the next bytes of the file, at least one and at most the room for them; the
-- reader stands behind them, and its end has not moved.
pub record Delivers (file : Bytes) (r : Reader) (capacity : ℕ) (r' : Reader) (got : Bytes)
    : Type 0 where
  pub bytes : take (length got) (drop r.offset file) ≡ got
  pub progress : 1 ≤ length got
  pub room : length got ≤ capacity
  pub offset : r'.offset ≡ r.offset + length got
  pub end : r'.offset + r'.remaining ≡ r.offset + r.remaining
  pub opened : r'.opened ≡ true

-- An open reader with bytes left that the file still has, and room for a byte at least, delivers some
-- of them, whatever positive number of bytes the kernel gives: the next ones of the file, not more
-- than there is room for, with the reader behind them and its end where it was.
pub reader_read_lem :
    (file : Bytes) (given : ℕ) (r : Reader) (capacity : ℕ)
    → r.opened ≡ true
    → 1 ≤ capacity
    → 1 ≤ r.remaining
    → r.offset + r.remaining ≤ length file
    → 1 ≤ given
    → (r' : Reader) × (got : Bytes) × (reader_read file given r capacity ≡ some (r', got))
      × Delivers file r capacity r' got
unfolding reader_read
reader_read_lem file given r capacity open_now room left within some_byte =
    let want = if ltb r.remaining capacity then r.remaining else capacity in
    let got = take given (take want (drop r.offset file)) in
    let want_one : (1 ≤ want) × (want ≤ capacity) × (want ≤ r.remaining) = ground arith in
    let size : length got ≡ min given (min want (length file - r.offset)) = omega (
      arith,
      length-take given (take want (drop r.offset file)),
      length-take want (drop r.offset file),
      length-drop r.offset file,
    ) in
    let on : (not r.opened || capacity == 0) ≡ false = ground (arith, open_now) in
    let more : (r.remaining == 0) ≡ false = ground arith in
    let one : 1 ≤ length got = omega (arith, size, want_one.0) in
    let any : (length got == 0) ≡ false = ground (arith, one) in
    (
      record r { offset = r.offset + length got; remaining = r.remaining - length got },
      got,
      rw (on, reader_read, more, any),
      record {
        bytes = take-take_self given want (drop r.offset file);
        progress = one;
        room = omega (arith, size, want_one.1);
        offset = refl;
        end = omega (arith, size, want_one.1);
        opened = open_now;
      },
    )
