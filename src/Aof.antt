-- ===== src/Aof.antt =====
-- src/persistence/aof.c: the append-only file of commands.
-- The file is its bytes. What the kernel answers (io_uring, open, mmap) is an argument.
pub mod Append
pub mod Replay
pub mod Reading
mod Examples
use kvstore.Common.{
  ℕ, zero, suc, ◌+◌, ◌-◌, ◌^◌, Bool, true, false, not, List, [], ◌∷◌, ◌++◌, Bytes, Option, none,
  some, ltb, leb, ◌==◌, ◌&&◌, ◌||◌, if◌then◌else◌, length, take, drop, replicate,
}
use kvstore.Protocol.{
  Parsed, complete, incomplete, malformed, parse_command, encoded_command_size, encode_command,
}

-- aof_writer_t. The descriptor and the io_uring queue are opened and closed together.
pub record Writer : Type 0 where
  pub opened : Bool
  pub offset : ℕ
  pub file : Bytes

-- How the write and the sync of one append end: both done, the write failed after some bytes of it
-- had reached the file, or the sync failed.
pub data Io : Type 0 where
  synced : Io
  torn : ℕ → Io
  unsynced : Io

-- The largest off_t.
abbrev pub offset_max : ℕ
offset_max = 2 ^ 63 - 1

-- A file cut or filled up with zeros to a length, as ftruncate does and a write behind the end.
unfoldable pub resize : ℕ → Bytes → Bytes
resize n file = take n file ++ replicate (n - length file) 0

-- A write at an offset.
unfoldable pub write_at : Bytes → ℕ → Bytes → Bytes
write_at file offset bytes = resize offset file ++ (bytes ++ drop (offset + length bytes) file)

-- `file` is what is on the disk. `none` is the return code -1, which also an open writer gives.
unfoldable pub open_writer : Bool → Writer → Bytes → Option Writer
open_writer granted w file =
    if w.opened || not granted
    then none
    else some (record { opened = true; offset = length file; file = file })

-- `closed` is the outcome of close, after which the file counts as closed in any case.
pub close_writer : Bool → Writer → Writer × Bool
close_writer closed w =
    if w.opened then (record w { opened = false; offset = 0 }, closed) else (w, false)

pub get_offset : Writer → Option ℕ
get_offset w = if w.opened then some w.offset else none

-- `truncated` and `flushed` are the outcomes of ftruncate and of the sync; the `Bool` tells whether
-- the return code is 0.
unfoldable pub reset_to_offset : Bool → Bool → Writer → ℕ → Writer × Bool
reset_to_offset truncated flushed w offset =
    if not w.opened || ltb offset_max offset
    then (w, false)
    else if truncated
    then (record w { offset = offset; file = resize offset w.file }, flushed)
    else (w, false)

-- The write of the encoded bytes and what follows it.
unfoldable pub write_encoded : Io → Writer → Bytes → Writer × Bool
write_encoded synced w bytes =
    (record w { offset = w.offset + length bytes; file = write_at w.file w.offset bytes }, true)
write_encoded (torn n) w bytes =
    (record w { file = write_at w.file w.offset (take n bytes) }, false)
write_encoded unsynced w bytes = (record w { file = write_at w.file w.offset bytes }, false)

-- `fits` is the outcome of kvs_malloc.
unfoldable pub append : Bool → Io → Writer → List Bytes → Writer × Bool
append fits io w tokens =
    if not w.opened || not (length tokens == 2 || length tokens == 3)
    then (w, false)
    else elim (encoded_command_size tokens) [
      | none ↦ (w, false)
      | some required ↦ if not fits then (w, false) else elim (encode_command tokens required) [
        | none ↦ (w, false)
        | some bytes ↦
            if ltb offset_max (w.offset + length bytes)
            then (w, false)
            else write_encoded io w bytes
      ]
    ]

-- aof_replay_handler: the response length, `none` for a negative one.
abbrev pub ReplayHandler : Type 0 → Type 0
ReplayHandler S = S → List Bytes → S × Option ℕ

-- Whether the handler's answer lets the replay go on.
unfoldable pub accepted : Option ℕ → Bool
accepted none = false
accepted (some n) = ltb 0 n && leb n 1024

-- The loop over the commands, with fuel, at the bytes from `position` on.
unfoldable pub replay_loop : {S : Type 0} → ℕ → ReplayHandler S → S → Bytes → S × Bool
replay_loop zero handler s rest = (s, length rest == 0)
replay_loop (suc fuel) handler s [] = (s, true)
replay_loop (suc fuel) handler s (b ∷ bs) = elim (parse_command 3 (b ∷ bs)) [
  | incomplete ↦ (s, false)
  | malformed ↦ (s, false)
  | complete fields n unread ↦
      let (s', reply) = handler s fields in
      let next = replay_loop fuel handler s' (drop n (b ∷ bs)) in
      if n == 0 || ltb (length (b ∷ bs)) n
      then (s, false)
      else if accepted reply
      then next
      else (s', false)
]

-- What kvs_mapped_file_open finds.
pub data Mapping : Type 0 where
  absent unreadable : Mapping
  mapped : Bytes → Mapping

-- A command takes a byte at least. `unmapped` is the outcome of unmapping the file.
unfoldable pub replay : {S : Type 0} → Bool → ReplayHandler S → S → Mapping → ℕ → S × Bool
replay unmapped handler s absent offset = (s, true)
replay unmapped handler s unreadable offset = (s, false)
replay unmapped handler s (mapped file) offset =
    let position = if ltb offset (length file) then offset else length file in
    let (s', done) = replay_loop (length file) handler s (drop position file) in
    (s', done && unmapped)

-- kvs_aof_reader_t, over an open descriptor.
pub record Reader : Type 0 where
  pub opened : Bool
  pub offset : ℕ
  pub remaining : ℕ

-- `file` is `none` if the path cannot be opened or is no regular file.
pub reader_open : Option Bytes → ℕ → ℕ → Option Reader
reader_open file start end = elim file [
  | none ↦ none
  | some bytes ↦
      if ltb end start || (ltb (length bytes) start || ltb (length bytes) end)
      then none
      else some (record { opened = true; offset = start; remaining = end - start })
]

-- One pread of at most `capacity` bytes, of which the kernel delivers `given`.
pub reader_read : Bytes → ℕ → Reader → ℕ → Option (Reader × Bytes)
reader_read file given r capacity =
    let want = if ltb r.remaining capacity then r.remaining else capacity in
    let got = take given (take want (drop r.offset file)) in
    if not r.opened || capacity == 0
    then none
    else if r.remaining == 0
    then some (r, [])
    else if length got == 0
    then none
    else some
        (record r { offset = r.offset + length got; remaining = r.remaining - length got }, got)

pub reader_close : Reader → Reader
reader_close r = record { opened = false; offset = 0; remaining = 0 }
