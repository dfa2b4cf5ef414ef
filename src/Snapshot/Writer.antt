-- ===== src/Snapshot/Writer.antt =====
-- src/persistence/snapshot_store.c: the buffer of a save, and the batches that it is written in.
-- `writes` tells of the batch at an offset of the temporary file whether it is written; a batch that is
-- not ends the save, which then removes the file.
pub mod Batch
pub mod Appended
use kvstore.Common.{
  ℕ, zero, suc, ◌+◌, ◌-◌, ◌*◌, ◌^◌, ◌==◌, ltb, Bool, true, false, if◌then◌else◌, List, [], ◌∷◌,
  ◌++◌, Bytes, Option, none, some, length, take, drop, min,
}
use kvstore.Aof.{write_at}
use kvstore.Snapshot.{Checkpoint, int64_max}

-- SNAPSHOT_WRITE_BLOCK_SIZE, SNAPSHOT_WRITE_BLOCK_COUNT and SNAPSHOT_WRITE_BUFFER_SIZE
abbrev pub write_block_size : ℕ
write_block_size = 64 * 1024

abbrev pub write_block_count : ℕ
write_block_count = 4

abbrev pub write_buffer_size : ℕ
write_buffer_size = write_block_size * write_block_count

-- `buffered` is the part of the buffer in use, and `file` what the temporary file has.
pub record SnapshotWriter : Type 0 where
  pub file : Bytes
  pub buffered : Bytes
  pub next_file_offset : ℕ
  pub checkpoint : Checkpoint

-- The writer of a new temporary file.
abbrev pub fresh : Checkpoint → SnapshotWriter
fresh cp = record { file = []; buffered = []; next_file_offset = 0; checkpoint = cp }

-- kvs_uring_write_t
pub record Request : Type 0 where
  pub bytes : Bytes
  pub offset : ℕ

-- The loop that cuts bytes into requests of at most `size` bytes, with fuel.
unfoldable pub request_loop : ℕ → ℕ → Bytes → ℕ → List Request
request_loop size zero bytes offset = []
request_loop size (suc fuel) bytes offset =
    let rest = request_loop size fuel (drop size bytes) (offset + size) in
    if length bytes == 0 then [] else record { bytes = take size bytes; offset = offset } ∷ rest

-- kvs_uring_io_write_batch where every request is written.
unfoldable pub write_batch : List Request → Bytes → Bytes
write_batch [] file = file
write_batch (r ∷ requests) file = write_batch requests (write_at file r.offset r.bytes)

unfoldable pub requests_of : SnapshotWriter → List Request
requests_of w = request_loop write_block_size (length w.buffered) w.buffered w.next_file_offset

unfoldable pub writer_flush : (ℕ → Bool) → SnapshotWriter → Option SnapshotWriter
writer_flush writes w =
    if ltb write_buffer_size (length w.buffered)
    then none
    else if length w.buffered == 0
    then some w
    else if ltb int64_max (w.next_file_offset + length w.buffered)
    then none
    else if writes w.next_file_offset
    then some (record w {
      file = write_batch (requests_of w) w.file;
      buffered = [];
      next_file_offset = w.next_file_offset + length w.buffered;
    })
    else none

-- One copy into the space that the buffer has.
unfoldable pub copy_in : SnapshotWriter → Bytes → SnapshotWriter
copy_in w bytes = record w {
  buffered = w.buffered ++ take (write_buffer_size - length w.buffered) bytes;
}

-- The loop of snapshot_writer_append, with fuel: a full buffer is written, and what fits is copied.
unfoldable pub append_loop : (ℕ → Bool) → ℕ → SnapshotWriter → Bytes → Option SnapshotWriter
append_loop writes zero w bytes = some w
append_loop writes (suc fuel) w bytes =
    if length bytes == 0
    then some w
    else if length w.buffered == write_buffer_size
    then elim (writer_flush writes w) [
      | none ↦ none
      | some v ↦
          append_loop writes fuel (copy_in v bytes)
            (drop (write_buffer_size - length v.buffered) bytes)
    ]
    else append_loop writes fuel (copy_in w bytes)
        (drop (write_buffer_size - length w.buffered) bytes)

unfoldable pub writer_append : (ℕ → Bool) → SnapshotWriter → Bytes → Option SnapshotWriter
writer_append writes w bytes =
    if ltb write_buffer_size (length w.buffered)
    then none
    else append_loop writes (length bytes) w bytes
