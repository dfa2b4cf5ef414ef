-- ===== src/Snapshot/Read.antt =====
-- src/persistence/snapshot_store.c: the first pass over a snapshot, which changes no engine.
-- A cursor is the bytes from its offset on, and `none` the return code -1.
pub mod Headers
pub mod Records
pub mod Accepts
use kvstore.Common.{
  ℕ, zero, suc, ◌+◌, ◌-◌, ◌/◌, ◌==◌, ◌&&◌, ◌||◌, not, ltb, Bool, true, false, if◌then◌else◌, List,
  [], ◌∷◌, ◌++◌, Bytes, Option, none, some, length, take, drop, get_or, str_eq,
}
use kvstore.Kvs.Fields.{has_nul}
use kvstore.Snapshot.{
  Checkpoint, magic, decode_u32_be, decode_u64_be, crc_update, crc_start, crc_end, int64_max,
}

-- The view of the next bytes, and the cursor behind it.
unfoldable pub cursor_take : ℕ → Bytes → Option (Bytes × Bytes)
cursor_take n cursor = if ltb (length cursor) n then none else some (take n cursor, drop n cursor)

-- What the header says, the checksum behind it, and the cursor there.
pub record Header : Type 0 where
  pub record_count : ℕ
  pub checkpoint : Checkpoint
  pub crc : ℕ
  pub cursor : Bytes

-- The rest of the header in the first version of the format: the number of records.
unfoldable pub read_v1 : Bytes → ℕ → Bytes → Option Header
read_v1 prefix crc cursor = elim (cursor_take 8 cursor) [
  | none ↦ none
  | some (body, cursor) ↦ some (record {
    record_count = decode_u64_be body;
    checkpoint = record { has_offset = 0; offset = 0 };
    crc = crc_update (crc_update crc prefix) body;
    cursor = cursor;
  })
]

-- In the second version: the flags, of which only the lowest may be set, the number, and the offset.
unfoldable pub read_v2 : Bytes → ℕ → Bytes → Option Header
read_v2 prefix crc cursor = elim (cursor_take 20 cursor) [
  | none ↦ none
  | some (body, cursor) ↦
      let flags = decode_u32_be body in
      let offset = decode_u64_be (drop 12 body) in
      if ltb 1 flags || ltb int64_max offset
      then none
      else if flags == 0 && not (offset == 0)
      then none
      else some (record {
        record_count = decode_u64_be (drop 4 body);
        checkpoint = record { has_offset = flags; offset = offset };
        crc = crc_update (crc_update crc prefix) body;
        cursor = cursor;
      })
]

unfoldable pub read_header : Bytes → ℕ → Option Header
read_header cursor crc = elim (cursor_take 12 cursor) [
  | none ↦ none
  | some (prefix, cursor) ↦
      if not (str_eq (take 8 prefix) magic)
      then none
      else if decode_u32_be (drop 8 prefix) == 1
      then read_v1 prefix crc cursor
      else if decode_u32_be (drop 8 prefix) == 2
      then read_v2 prefix crc cursor
      else none
]

-- The cursor behind the field and the checksum with it. A NUL in the field (memchr) is refused.
unfoldable pub check_field : ℕ → Bytes × ℕ → Option (Bytes × ℕ)
check_field n (cursor, crc) = elim (cursor_take n cursor) [
  | none ↦ none
  | some (field, cursor) ↦
      if n == 0
      then some (cursor, crc)
      else if has_nul field
      then none
      else some (cursor, crc_update crc field)
]

unfoldable pub check_record : Bytes × ℕ → Option (Bytes × ℕ)
check_record (cursor, crc) = elim (cursor_take 9 cursor) [
  | none ↦ none
  | some (header, cursor) ↦
      if ltb (get_or header 0 0) 1 || ltb 4 (get_or header 0 0)
      then none
      else elim (check_field (decode_u32_be (drop 1 header)) (cursor, crc_update crc header)) [
        | none ↦ none
        | some p ↦ check_field (decode_u32_be (drop 5 header)) p
      ]
]

-- The loop over the records.
unfoldable pub check_records : ℕ → Bytes × ℕ → Option (Bytes × ℕ)
check_records zero p = some p
check_records (suc n) p = elim (check_record p) [ none ↦ none | some q ↦ check_records n q ]

-- The checksum behind the records, and nothing behind it.
unfoldable pub check_end : Bytes × ℕ → Bool
check_end (cursor, crc) = elim (cursor_take 4 cursor) [
  | none ↦ false
  | some (checksum, cursor) ↦
      if not (crc_end crc == decode_u32_be checksum) then false else length cursor == 0
]

unfoldable pub validate : Bytes → Bool
validate bytes = if ltb (length bytes) 24 then false else elim (read_header bytes crc_start) [
  | none ↦ false
  | some h ↦
      if ltb (length h.cursor) 4
      then false
      else if ltb ((length h.cursor - 4) / 9) h.record_count
      then false
      else elim (check_records h.record_count (h.cursor, h.crc)) [
        | none ↦ false
        | some p ↦ check_end p
      ]
]
