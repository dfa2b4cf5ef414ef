-- ===== src/Snapshot/Read/Records.antt =====
-- src/persistence/snapshot_store.c: the records of a snapshot checked where they were written.
use kvstore.Common.{
  ℕ, ◌≤◌, ◌≡◌, refl, sym, ap, ◌∙◌, arith, ◌==◌, ◌||◌, ltb, false, List, [], ◌∷◌, ◌++◌, Bytes, some,
  length, drop, get_or, append_assoc,
}
use kvstore.Kvs.Fields.{has_nul}
use kvstore.Snapshot.{
  SnapshotEngine, in_array, in_rbtree, in_hash, in_skiplist, engine_number, encode_u32_be,
  decode_u32_be, crc_update, uint32_max,
}
use kvstore.Snapshot.Number.{decode_u32_be-encode_u32_be, crc_update-append}
use kvstore.Snapshot.Checksum.{IsBytes}
use kvstore.Snapshot.Save.Format.{Record, record_bytes, records_bytes}
use kvstore.Snapshot.Read.{check_field, check_record, check_records}
use kvstore.Snapshot.Read.Headers.{taken, decoded_u32}

-- A key or value that the format can hold, as a C string.
pub record IsField (bytes : Bytes) : Type 0 where
  pub short : length bytes ≤ uint32_max
  pub no_nul : has_nul bytes ≡ false
  pub are_bytes : IsBytes bytes

pub check_field_lem :
    (field rest : Bytes) (crc : ℕ)
    → has_nul field ≡ false
    → check_field (length field) (field ++ rest, crc) ≡ some (rest, crc_update crc field)
unfolding check_field crc_update
check_field_lem [] rest crc h = rw (taken 0 [] rest refl, check_field) refl
check_field_lem (x ∷ field) rest crc h =
    let some_byte : (length (x ∷ field) == 0) ≡ false = ground arith in
    rw (taken (length (x ∷ field)) (x ∷ field) rest refl, check_field, some_byte, h) refl

abbrev pub IsRecord : Record → Type 0
IsRecord (engine, (key, value)) = IsField key × IsField value

engine_in_range :
    (engine : SnapshotEngine)
    → (ltb (engine_number engine) 1 || ltb 4 (engine_number engine)) ≡ false
unfolding engine_number
engine_in_range in_array = refl
engine_in_range in_rbtree = refl
engine_in_range in_hash = refl
engine_in_range in_skiplist = refl

pub record_header : Record → Bytes
record_header (engine, (key, value)) =
    engine_number engine ∷ encode_u32_be (length key) ++ encode_u32_be (length value)

-- What the parts of a record's header say.
module _ (engine : SnapshotEngine) (key value : Bytes) where
  pub record_size : length (record_header (engine, (key, value))) ≡ 9
  unfolding record_header encode_u32_be
  record_size = refl

  pub record_engine : get_or (record_header (engine, (key, value))) 0 0 ≡ engine_number engine
  unfolding record_header
  record_engine = refl

  pub record_key_length :
      length key ≤ uint32_max
      → decode_u32_be (drop 1 (record_header (engine, (key, value)))) ≡ length key
  unfolding record_header
  record_key_length h = decoded_u32 (length key) (encode_u32_be (length value)) h

  pub record_value_length :
      length value ≤ uint32_max
      → decode_u32_be (drop 5 (record_header (engine, (key, value)))) ≡ length value
  unfolding record_header encode_u32_be decode_u32_be
  record_value_length h = decode_u32_be-encode_u32_be (length value) (omega (arith, h))

  pub record_parts :
      record_bytes (engine, (key, value)) ≡ record_header (engine, (key, value)) ++ (key ++ value)
  unfolding record_header record_bytes
  record_parts = refl

  pub record_split :
      (rest : Bytes)
      → record_bytes (engine, (key, value)) ++ rest
        ≡ record_header (engine, (key, value)) ++ (key ++ (value ++ rest))
  record_split rest =
      let h = record_header (engine, (key, value)) in
      ap (λ x. x ++ rest) record_parts
      ∙ append_assoc h (key ++ value) rest
      ∙ ap (λ x. h ++ x) (append_assoc key value rest)

pub check_record_lem :
    (r : Record) (rest : Bytes) (crc : ℕ)
    → IsRecord r
    → check_record (record_bytes r ++ rest, crc) ≡ some (rest, crc_update crc (record_bytes r))
unfolding check_record
check_record_lem (engine, (key, value)) rest crc (hk, hv) =
    let r : Record = (engine, (key, value)) in
    let h = record_header r in
    let sum : crc_update (crc_update (crc_update crc h) key) value
        ≡ crc_update crc (record_bytes r) =
      sym (crc_update-append (crc_update crc h) key value)
      ∙ sym (crc_update-append crc h (key ++ value))
      ∙ ap (λ x. crc_update crc x) (sym (record_parts engine key value)) in
    ap (λ x. check_record (x, crc)) (record_split engine key value rest)
    ∙ rw
        (
          taken 9 h (key ++ (value ++ rest)) (record_size engine key value),
          check_record,
          record_engine engine key value,
          engine_in_range engine,
          record_key_length engine key value hk.short,
          check_field_lem key (value ++ rest) (crc_update crc h) hk.no_nul,
          record_value_length engine key value hv.short,
          check_field_lem value rest (crc_update (crc_update crc h) key) hv.no_nul,
          sum,
        )
        refl

unfoldable pub AllRecords : List Record → Type 0
AllRecords [] = Unit
AllRecords (r ∷ rs) = IsRecord r × AllRecords rs

pub check_records_lem :
    (rs : List Record) (rest : Bytes) (crc : ℕ)
    → AllRecords rs
    → check_records (length rs) (records_bytes rs ++ rest, crc)
      ≡ some (rest, crc_update crc (records_bytes rs))
unfolding check_records records_bytes AllRecords
check_records_lem [] rest crc h = unfold crc_update in refl
check_records_lem (r ∷ rs) rest crc h =
    rw
      (
        append_assoc (record_bytes r) (records_bytes rs) rest,
        check_records,
        check_record_lem r (records_bytes rs ++ rest) crc h.0,
      )
      (check_records_lem rs rest (crc_update crc (record_bytes r)) h.1
        ∙ ap (λ c. some (rest, c))
            (sym (crc_update-append crc (record_bytes r) (records_bytes rs))))
