-- ===== src/Snapshot/Checksum.antt =====
-- src/persistence/snapshot_store.c: the checksum is a 32-bit number.
use Prim.Native.Nat.{bit_xor, digits, differ, bit_xor-bitwise}
use native.Mathlib.Nat.{pow-suc}
use kvstore.Common.{
  ℕ, zero, suc, ◌/◌, ◌%◌, ◌^◌, ◌≤◌, ◌<◌, sym, subst, arith, ◌==◌, Bytes, [], ◌∷◌, Bool-cases, inl,
  inr,
}
use kvstore.Snapshot.{crc_bit, crc_bits, crc_update, crc_end}

differ-le : (x y : ℕ) → x ≤ 1 → y ≤ 1 → differ x y ≤ 1
differ-le zero y hx hy = hy
differ-le (suc zero) zero hx hy = omega arith
differ-le (suc zero) (suc zero) hx hy = omega arith
differ-le (suc zero) (suc (suc y)) hx hy = absurd (omega (arith, hy))
differ-le (suc (suc x)) y hx hy = absurd (omega (arith, hx))

digits-lt : (w n a b : ℕ) → a < 2 ^ w → b < 2 ^ w → digits (λ b. b) differ n a b < 2 ^ w
digits-lt w zero a b ha hb = hb
digits-lt w (suc n) zero b ha hb = hb
digits-lt zero (suc n) (suc a) b ha hb = absurd (omega (arith, ha))
digits-lt (suc w) (suc n) (suc a) b ha hb =
    let twice = pow-suc 2 w in
    omega (
      arith,
      twice,
      digits-lt w n (suc a / 2) (b / 2) (omega (arith, ha, twice)) (omega (arith, hb, twice)),
      differ-le (suc a % 2) (b % 2) (omega arith) (omega arith),
    )

bit_xor-lt : (w a b : ℕ) → a < 2 ^ w → b < 2 ^ w → bit_xor a b < 2 ^ w
bit_xor-lt w a b ha hb =
    subst (λ x. x < 2 ^ w) (sym (bit_xor-bitwise a b)) (digits-lt w a a b ha hb)

crc_bit-lt : (crc : ℕ) → crc < 2 ^ 32 → crc_bit crc < 2 ^ 32
unfolding crc_bit
crc_bit-lt crc h = elim (Bool-cases (crc % 2 == 1)) [
  | inl e ↦ rw (e, crc_bit) (bit_xor-lt 32 (crc / 2) 0xedb88320 (omega (arith, h)) (omega arith))
  | inr e ↦ rw (e, crc_bit) (omega (arith, h))
]

crc_bits-lt : (n crc : ℕ) → crc < 2 ^ 32 → crc_bits n crc < 2 ^ 32
unfolding crc_bits
crc_bits-lt zero crc h = h
crc_bits-lt (suc n) crc h = crc_bits-lt n (crc_bit crc) (crc_bit-lt crc h)

-- The bytes of a string or file are below 256.
unfoldable pub IsBytes : Bytes → Type 0
IsBytes [] = Unit
IsBytes (b ∷ bytes) = (b < 256) × IsBytes bytes

pub crc_update-lt :
    (crc : ℕ) (bytes : Bytes) → IsBytes bytes → crc < 2 ^ 32 → crc_update crc bytes < 2 ^ 32
unfolding crc_update IsBytes
crc_update-lt crc [] v h = h
crc_update-lt crc (b ∷ bytes) v h =
    crc_update-lt (crc_bits 8 (bit_xor crc b)) bytes v.1
      (crc_bits-lt 8 (bit_xor crc b) (bit_xor-lt 32 crc b h (omega (arith, v.0))))

pub crc_end-lt : (crc : ℕ) → crc < 2 ^ 32 → crc_end crc < 2 ^ 32
unfolding crc_end
crc_end-lt crc h = bit_xor-lt 32 crc 0xffffffff h (omega arith)
