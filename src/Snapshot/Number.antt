-- ===== src/Snapshot/Number.antt =====
-- src/persistence/snapshot_store.c: the numbers of a snapshot read back.
use kvstore.Common.{ℕ, ◌^◌, ◌<◌, ◌≡◌, refl, arith, Bytes, [], ◌∷◌, ◌++◌, length}
use kvstore.Snapshot.{
  encode_u32_be, decode_u32_be, encode_u64_be, decode_loop, decode_u64_be, crc_update, crc_bits,
}

pub decode_u32_be-encode_u32_be : (n : ℕ) → n < 2 ^ 32 → decode_u32_be (encode_u32_be n) ≡ n
unfolding decode_u32_be encode_u32_be
decode_u32_be-encode_u32_be n h = omega arith

pub length-encode_u32_be : (n : ℕ) → length (encode_u32_be n) ≡ 4
unfolding encode_u32_be
length-encode_u32_be n = refl

pub length-encode_u64_be : (n : ℕ) → length (encode_u64_be n) ≡ 8
unfolding encode_u64_be
length-encode_u64_be n = refl

pub decode_u64_be-encode_u64_be : (n : ℕ) → n < 2 ^ 64 → decode_u64_be (encode_u64_be n) ≡ n
unfolding decode_u64_be decode_loop encode_u64_be
decode_u64_be-encode_u64_be n h = omega arith

pub crc_update-append :
    (crc : ℕ) (a b : Bytes) → crc_update crc (a ++ b) ≡ crc_update (crc_update crc a) b
unfolding crc_update
crc_update-append crc [] b = refl
crc_update-append crc (x ∷ a) b = crc_update-append (crc_bits 8 _) a b
