-- ===== src/Snapshot/Read/Headers.antt =====
-- src/persistence/snapshot_store.c: the header of a snapshot read back.
use kvstore.Common.{
  ℕ, zero, suc, ◌≤◌, ◌≡◌, refl, sym, ap, ◌∙◌, arith, ◌==◌, ◌&&◌, ◌||◌, not, ltb, true, false, [],
  ◌∷◌, ◌++◌, Bytes, some, length, length-append, take, drop, append_assoc, if◌then◌else◌, str_eq,
  inl, inr,
}
use kvstore.Snapshot.{
  Checkpoint, magic, encode_u32_be, decode_u32_be, encode_u64_be, decode_u64_be, decode_loop,
  crc_update, uint32_max, int64_max,
}
use kvstore.Snapshot.Number.{
  decode_u32_be-encode_u32_be, decode_u64_be-encode_u64_be, crc_update-append,
}
use kvstore.Snapshot.Save.{uint64_max}
use kvstore.Snapshot.Save.Format.{header_bytes}
use kvstore.Snapshot.Save.Taken.{IsCheckpoint}
use kvstore.Snapshot.Read.{cursor_take, Header, read_v2, read_header}

-- Taking the front of two parts, and what the cursor is left with.
pub taken : (n : ℕ) (a b : Bytes) → length a ≡ n → cursor_take n (a ++ b) ≡ some (a, b)
unfolding cursor_take
taken n a b e =
    let enough : ltb (length (a ++ b)) n ≡ false = ground (arith, length-append a b, e) in
    rw (enough, cursor_take) (rw (front n a e, back n a e) refl)
  where
    front : (n : ℕ) (a : Bytes) → length a ≡ n → take n (a ++ b) ≡ a
    front zero [] e = refl
    front zero (x ∷ a) e = absurd (omega (arith, e))
    front (suc n) [] e = absurd (omega (arith, e))
    front (suc n) (x ∷ a) e = ap (λ y. x ∷ y) (front n a (omega (arith, e)))

    back : (n : ℕ) (a : Bytes) → length a ≡ n → drop n (a ++ b) ≡ b
    back zero [] e = refl
    back zero (x ∷ a) e = absurd (omega (arith, e))
    back (suc n) [] e = absurd (omega (arith, e))
    back (suc n) (x ∷ a) e = back n a (omega (arith, e))

pub decoded_u32 :
    (n : ℕ) (rest : Bytes) → n ≤ uint32_max → decode_u32_be (encode_u32_be n ++ rest) ≡ n
unfolding decode_u32_be encode_u32_be
decoded_u32 n rest h = decode_u32_be-encode_u32_be n (omega (arith, h))

pub decoded_u64 :
    (n : ℕ) (rest : Bytes) → n ≤ uint64_max → decode_u64_be (encode_u64_be n ++ rest) ≡ n
unfolding decode_u64_be decode_loop encode_u64_be
decoded_u64 n rest h = decode_u64_be-encode_u64_be n (omega (arith, h))

-- The checkpoint that a file gives back: the offset is 0 where none is stored.
abbrev pub stored : Checkpoint → Checkpoint
stored cp = record {
  has_offset = if cp.has_offset == 0 then 0 else 1;
  offset = if cp.has_offset == 0 then 0 else cp.offset;
}

-- The header of version 2 behind the magic and the version.
header_body : Checkpoint → ℕ → Bytes
header_body cp count =
    encode_u32_be (stored cp).has_offset
    ++ (encode_u64_be count ++ encode_u64_be (stored cp).offset)

header_prefix : Bytes
header_prefix = magic ++ encode_u32_be 2

-- What the parts of the header say.
module _ (cp : Checkpoint) (count : ℕ) where
  body_size : length (header_body cp count) ≡ 20
  unfolding header_body encode_u32_be encode_u64_be
  body_size = refl

  body_flags : decode_u32_be (header_body cp count) ≡ (stored cp).has_offset
  unfolding header_body
  body_flags = decoded_u32 (stored cp).has_offset _ (ground arith)

  body_count : count ≤ uint64_max → decode_u64_be (drop 4 (header_body cp count)) ≡ count
  unfolding header_body encode_u32_be
  body_count h = decoded_u64 count (encode_u64_be (stored cp).offset) h

  body_offset :
      IsCheckpoint cp → decode_u64_be (drop 12 (header_body cp count)) ≡ (stored cp).offset
  unfolding header_body encode_u32_be encode_u64_be decode_u64_be decode_loop
  body_offset (inl e) = decode_u64_be-encode_u64_be (stored cp).offset (ground (arith, e))
  body_offset (inr (e, h)) = decode_u64_be-encode_u64_be (stored cp).offset (ground (arith, e, h))

  whole_header : header_bytes cp count ≡ header_prefix ++ header_body cp count
  unfolding header_bytes header_prefix header_body
  whole_header = sym (append_assoc magic (encode_u32_be 2) _)

-- What a valid header passes.
header_fits :
    (cp : Checkpoint)
    → IsCheckpoint cp
    → ((ltb 1 (stored cp).has_offset || ltb int64_max (stored cp).offset) ≡ false)
      × (((stored cp).has_offset == 0 && not ((stored cp).offset == 0)) ≡ false)
header_fits cp (inl e) = (ground (arith, e), ground (arith, e))
header_fits cp (inr (e, h)) = (ground (arith, e, h), ground (arith, e))

-- The header of version 2, read to its end.
abbrev pub header_read : Checkpoint → ℕ → ℕ → Bytes → Header
header_read cp count crc rest = record {
  record_count = count;
  checkpoint = stored cp;
  crc = crc_update crc (header_bytes cp count);
  cursor = rest;
}

read_v2_lem :
    (cp : Checkpoint) (count crc : ℕ) (rest : Bytes)
    → IsCheckpoint cp
    → count ≤ uint64_max
    → read_v2 header_prefix crc (header_body cp count ++ rest)
      ≡ some (header_read cp count crc rest)
unfolding read_v2
read_v2_lem cp count crc rest icp h =
    let fine = header_fits cp icp in
    let sum : crc_update (crc_update crc header_prefix) (header_body cp count)
        ≡ crc_update crc (header_bytes cp count) =
      sym (crc_update-append crc header_prefix (header_body cp count))
      ∙ ap (λ x. crc_update crc x) (sym (whole_header cp count)) in
    rw
      (
        taken 20 (header_body cp count) rest (body_size cp count),
        read_v2,
        body_flags cp count,
        body_offset cp count icp,
        fine.0,
        fine.1,
        body_count cp count h,
        sum,
      )
      refl

prefix_size : length header_prefix ≡ 12
unfolding header_prefix encode_u32_be
prefix_size = refl

prefix_magic : str_eq (take 8 header_prefix) magic ≡ true
unfolding header_prefix str_eq
prefix_magic = refl

prefix_version : decode_u32_be (drop 8 header_prefix) ≡ 2
unfolding header_prefix encode_u32_be decode_u32_be
prefix_version = refl

pub read_header_lem :
    (cp : Checkpoint) (count crc : ℕ) (rest : Bytes)
    → IsCheckpoint cp
    → count ≤ uint64_max
    → read_header (header_bytes cp count ++ rest) crc ≡ some (header_read cp count crc rest)
unfolding read_header
read_header_lem cp count crc rest icp h =
    let split : header_bytes cp count ++ rest ≡ header_prefix ++ (header_body cp count ++ rest) =
      ap (λ x. x ++ rest) (whole_header cp count)
      ∙ append_assoc header_prefix (header_body cp count) rest in
    ap (λ x. read_header x crc) split
    ∙ rw
        (
          taken 12 header_prefix (header_body cp count ++ rest) prefix_size,
          read_header,
          prefix_magic,
          prefix_version,
        )
        (read_v2_lem cp count crc rest icp h)
