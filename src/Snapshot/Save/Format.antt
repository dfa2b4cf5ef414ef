-- ===== src/Snapshot/Save/Format.antt =====
-- src/persistence/snapshot_store.c: the bytes that a snapshot of given records consists of.
use kvstore.Common.{ℕ, ◌==◌, if◌then◌else◌, List, [], ◌∷◌, ◌++◌, Bytes, length}
use kvstore.Engines.Assoc.{Entry}
use kvstore.Snapshot.{
  Checkpoint, SnapshotEngine, engine_number, magic, encode_u32_be, encode_u64_be, crc_update,
  crc_start, crc_end,
}

abbrev pub Record : Type 0
Record = SnapshotEngine × Entry

unfoldable pub header_bytes : Checkpoint → ℕ → Bytes
header_bytes cp count =
    magic
    ++ (encode_u32_be 2
        ++ (encode_u32_be (if cp.has_offset == 0 then 0 else 1)
            ++ (encode_u64_be count
                ++ encode_u64_be (if cp.has_offset == 0 then 0 else cp.offset))))

unfoldable pub record_bytes : Record → Bytes
record_bytes (engine, (key, value)) =
    (engine_number engine ∷ encode_u32_be (length key) ++ encode_u32_be (length value))
    ++ (key ++ value)

unfoldable pub records_bytes : List Record → Bytes
records_bytes [] = []
records_bytes (r ∷ rs) = record_bytes r ++ records_bytes rs

-- The part that the checksum covers.
unfoldable pub covered : Checkpoint → List Record → Bytes
covered cp rs = header_bytes cp (length rs) ++ records_bytes rs

unfoldable pub snapshot_bytes : Checkpoint → List Record → Bytes
snapshot_bytes cp rs =
    covered cp rs ++ encode_u32_be (crc_end (crc_update crc_start (covered cp rs)))

-- The entries of an engine as records.
unfoldable pub tagged : SnapshotEngine → List Entry → List Record
tagged engine [] = []
tagged engine (e ∷ es) = (engine, e) ∷ tagged engine es
