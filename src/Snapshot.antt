-- ===== src/Snapshot.antt =====
-- src/persistence/snapshot_store.c: the numbers, the checksum and the parts of a snapshot file.
pub mod Number
pub mod Checksum
pub mod Writer
pub mod Save
pub mod Files
pub mod Read
pub mod Load
pub mod SaveLoad
pub mod Samples
mod Examples
use Prim.Native.Nat.{bit_xor}
use kvstore.Common.{
  ℕ, zero, suc, ◌+◌, ◌-◌, ◌*◌, ◌/◌, ◌%◌, ◌^◌, ◌==◌, Bool, true, false, if◌then◌else◌, List, [], ◌∷◌,
  ◌++◌, Bytes, codes, length,
}

abbrev pub uint32_max : ℕ
uint32_max = 2 ^ 32 - 1

abbrev pub int64_max : ℕ
int64_max = 2 ^ 63 - 1

-- SNAPSHOT_MAGIC
abbrev pub magic : Bytes
magic = codes "91KVSNAP"

unfoldable pub encode_u32_be : ℕ → Bytes
encode_u32_be value =
    value / 2 ^ 24 % 256 ∷ value / 2 ^ 16 % 256 ∷ value / 2 ^ 8 % 256 ∷ value % 256 ∷ []

-- The bytes do not overlap, so the sum is the `|` of the source.
unfoldable pub decode_u32_be : Bytes → ℕ
decode_u32_be (a ∷ b ∷ c ∷ d ∷ rest) = a * 2 ^ 24 + b * 2 ^ 16 + c * 2 ^ 8 + d
decode_u32_be _ = 0

unfoldable pub encode_u64_be : ℕ → Bytes
encode_u64_be value =
    value / 2 ^ 56 % 256
    ∷ value / 2 ^ 48 % 256
    ∷ value / 2 ^ 40 % 256
    ∷ value / 2 ^ 32 % 256
    ∷ value / 2 ^ 24 % 256
    ∷ value / 2 ^ 16 % 256
    ∷ value / 2 ^ 8 % 256
    ∷ value % 256
    ∷ []

-- The loop of decode_u64_be over the bytes that are left of eight.
unfoldable pub decode_loop : ℕ → ℕ → Bytes → ℕ
decode_loop zero value input = value
decode_loop (suc n) value [] = value
decode_loop (suc n) value (b ∷ input) = decode_loop n (value * 256 % 2 ^ 64 + b) input

unfoldable pub decode_u64_be : Bytes → ℕ
decode_u64_be input = decode_loop 8 0 input

-- One bit of the checksum, and the eight of a byte.
unfoldable pub crc_bit : ℕ → ℕ
crc_bit crc = if crc % 2 == 1 then bit_xor (crc / 2) 0xedb88320 else crc / 2

unfoldable pub crc_bits : ℕ → ℕ → ℕ
crc_bits zero crc = crc
crc_bits (suc n) crc = crc_bits n (crc_bit crc)

-- snapshot_crc32_update
unfoldable pub crc_update : ℕ → Bytes → ℕ
crc_update crc [] = crc
crc_update crc (b ∷ input) = crc_update (crc_bits 8 (bit_xor crc b)) input

abbrev pub crc_start : ℕ
crc_start = 0xffffffff

unfoldable pub crc_end : ℕ → ℕ
crc_end crc = bit_xor crc 0xffffffff

-- kvs_snapshot_checkpoint_t; a negative offset is one above `int64_max`.
pub record Checkpoint : Type 0 where
  pub has_offset : ℕ
  pub offset : ℕ

-- kvs_snapshot_engine_t
pub data SnapshotEngine : Type 0 where
  in_array in_rbtree in_hash in_skiplist : SnapshotEngine

unfoldable pub engine_number : SnapshotEngine → ℕ
engine_number in_array = 1
engine_number in_rbtree = 2
engine_number in_hash = 3
engine_number in_skiplist = 4
