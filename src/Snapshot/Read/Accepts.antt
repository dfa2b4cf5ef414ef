-- ===== src/Snapshot/Read/Accepts.antt =====
-- src/persistence/snapshot_store.c: the validation of what a save has written.
use kvstore.Common.{
  ℕ, ◌-◌, ◌*◌, ◌/◌, ◌^◌, ◌≤◌, ◌<◌, ◌≡◌, refl, sym, ap, ◌∙◌, arith, ◌==◌, ltb, true, false, List, [],
  ◌∷◌, ◌++◌, Bytes, some, length, length-append, append-nil, append_assoc,
}
use kvstore.Snapshot.{
  Checkpoint, SnapshotEngine, in_array, in_rbtree, in_hash, in_skiplist, engine_number, magic,
  encode_u32_be, decode_u32_be, encode_u64_be, crc_update, crc_start, crc_end,
}
use kvstore.Snapshot.Number.{decode_u32_be-encode_u32_be, crc_update-append}
use kvstore.Snapshot.Checksum.{IsBytes, crc_update-lt, crc_end-lt}
use kvstore.Snapshot.Save.{uint64_max}
use kvstore.Snapshot.Save.Format.{
  Record, header_bytes, record_bytes, records_bytes, covered, snapshot_bytes,
}
use kvstore.Snapshot.Save.Taken.{IsCheckpoint}
use kvstore.Snapshot.Read.{cursor_take, check_end, validate}
use kvstore.Snapshot.Read.Headers.{taken, stored, read_header_lem}
use kvstore.Snapshot.Read.Records.{AllRecords, check_records_lem}

IsBytes-append : (a b : Bytes) → IsBytes a → IsBytes b → IsBytes (a ++ b)
unfolding IsBytes
IsBytes-append [] b ha hb = hb
IsBytes-append (x ∷ a) b ha hb = (ha.0, IsBytes-append a b ha.1 hb)

encoded_u32 : (n : ℕ) → IsBytes (encode_u32_be n)
unfolding IsBytes encode_u32_be
encoded_u32 n = (omega arith, (omega arith, (omega arith, (omega arith, tt))))

encoded_u64 : (n : ℕ) → IsBytes (encode_u64_be n)
unfolding IsBytes encode_u64_be
encoded_u64 n = (
  omega arith,
  (
    omega arith,
    (omega arith, (omega arith, (omega arith, (omega arith, (omega arith, (omega arith, tt)))))),
  ),
)

magic-IsBytes : IsBytes magic
unfolding IsBytes
magic-IsBytes = (
  omega arith,
  (
    omega arith,
    (omega arith, (omega arith, (omega arith, (omega arith, (omega arith, (omega arith, tt)))))),
  ),
)

engine-IsBytes : (engine : SnapshotEngine) → engine_number engine < 256
unfolding engine_number
engine-IsBytes in_array = omega arith
engine-IsBytes in_rbtree = omega arith
engine-IsBytes in_hash = omega arith
engine-IsBytes in_skiplist = omega arith

header-IsBytes : (cp : Checkpoint) (count : ℕ) → IsBytes (header_bytes cp count)
unfolding header_bytes
header-IsBytes cp count = IsBytes-append magic _ magic-IsBytes (
    IsBytes-append (encode_u32_be 2) _ (encoded_u32 2) (
      IsBytes-append (encode_u32_be (stored cp).has_offset) _ (encoded_u32 (stored cp).has_offset) (
        IsBytes-append (encode_u64_be count) _ (encoded_u64 count)
          (encoded_u64 (stored cp).offset))))

records-IsBytes : (rs : List Record) → AllRecords rs → IsBytes (records_bytes rs)
unfolding records_bytes record_bytes AllRecords IsBytes
records-IsBytes [] h = tt
records-IsBytes ((engine, (key, value)) ∷ rs) h =
    IsBytes-append (record_bytes (engine, (key, value))) (records_bytes rs)
      (
        engine-IsBytes engine,
        IsBytes-append (encode_u32_be (length key) ++ encode_u32_be (length value)) (key ++ value)
            (IsBytes-append (encode_u32_be (length key)) _ (encoded_u32 (length key))
              (encoded_u32 (length value)))
            (IsBytes-append key value h.0.0.are_bytes h.0.1.are_bytes),
      )
      (records-IsBytes rs h.1)

-- Each record has its header at least.
records-le : (rs : List Record) → 9 * length rs ≤ length (records_bytes rs)
unfolding records_bytes record_bytes encode_u32_be
records-le [] = omega arith
records-le ((engine, (key, value)) ∷ rs) = omega (
  arith,
  records-le rs,
  length-append (key ++ value) (records_bytes rs),
  length-append (record_bytes (engine, (key, value))) (records_bytes rs),
)

header-size : (cp : Checkpoint) (count : ℕ) → length (header_bytes cp count) ≡ 32
unfolding header_bytes encode_u32_be encode_u64_be
header-size cp count = refl

check_end_lem : (crc : ℕ) → crc < 2 ^ 32 → check_end (encode_u32_be (crc_end crc), crc) ≡ true
unfolding check_end
check_end_lem crc h =
    let all : cursor_take 4 (encode_u32_be (crc_end crc)) ≡ some (encode_u32_be (crc_end crc), []) =
      ap (λ x. cursor_take 4 x) (sym (append-nil (encode_u32_be (crc_end crc))))
      ∙ taken 4 (encode_u32_be (crc_end crc)) [] (unfold encode_u32_be in refl) in
    let same : decode_u32_be (encode_u32_be (crc_end crc)) ≡ crc_end crc =
      decode_u32_be-encode_u32_be (crc_end crc) (crc_end-lt crc h) in
    let equal : (crc_end crc == crc_end crc) ≡ true = ground arith in
    rw (all, check_end, same, equal) refl

-- The three parts of a file, and the tests on their lengths.
valid_parts :
    (h b t : Bytes) (n : ℕ)
    → length h ≡ 32
    → 9 * n ≤ length b
    → length t ≡ 4
    → (ltb (length (h ++ (b ++ t))) 24 ≡ false)
      × (ltb (length (b ++ t)) 4 ≡ false)
      × (ltb ((length (b ++ t) - 4) / 9) n ≡ false)
valid_parts h b t n eh eb et =
    let sum = length-append b t in
    let all = length-append h (b ++ t) in
    let room : n ≤ (length (b ++ t) - 4) / 9 = omega (arith, sum, et, eb) in
    (ground (arith, all, eh), ground (arith, sum, et), ground (arith, room))

pub whole_file :
    (cp : Checkpoint) (rs : List Record)
    → snapshot_bytes cp rs
      ≡ header_bytes cp (length rs)
        ++ (records_bytes rs ++ encode_u32_be (crc_end (crc_update crc_start (covered cp rs))))
unfolding snapshot_bytes covered
whole_file cp rs = append_assoc (header_bytes cp (length rs)) (records_bytes rs) _

-- snapshot_validate takes every file that a save writes: with a checkpoint whose offset, where it is
-- stored, is not negative, fewer than 2^64 records, and fields below 2^32 bytes without a NUL.
pub validate-snapshot_bytes :
    (cp : Checkpoint) (rs : List Record)
    → IsCheckpoint cp
    → AllRecords rs
    → length rs ≤ uint64_max
    → validate (snapshot_bytes cp rs) ≡ true
unfolding validate
validate-snapshot_bytes cp rs icp all few =
    let h = header_bytes cp (length rs) in
    let b = records_bytes rs in
    let c = crc_update crc_start (covered cp rs) in
    let t = encode_u32_be (crc_end c) in
    let sizes =
      valid_parts h b t (length rs) (header-size cp (length rs)) (records-le rs)
        (unfold encode_u32_be in refl) in
    let sum : crc_update (crc_update crc_start h) b ≡ c =
      sym (crc_update-append crc_start h b) ∙ unfold covered in refl in
    let small : c < 2 ^ 32 =
      crc_update-lt crc_start (covered cp rs)
        (unfold covered in
          IsBytes-append h b (header-IsBytes cp (length rs)) (records-IsBytes rs all))
        (omega arith) in
    ap validate (whole_file cp rs)
    ∙ rw
        (
          sizes.0,
          validate,
          read_header_lem cp (length rs) crc_start (b ++ t) icp few,
          sizes.1,
          sizes.2,
          check_records_lem rs t (crc_update crc_start h) all,
          sum,
        )
        (check_end_lem c small)
