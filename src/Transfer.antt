-- ===== src/Transfer.antt =====
-- src/persistence/snapshot_io.c: a snapshot read in chunks by a primary, and received by a replica in a
-- temporary file that replaces the old one when it is complete.
-- What the kernel answers is an argument: the answers to the calls of one loop are a list, and `none` as a
-- whole result means that the last call of the list has not come back. No other process changes the files, and
-- different paths are different files. Sizes that the code refuses for being below 0 are 0 here.
pub mod Chunks
pub mod Complete
pub mod Committed
mod Examples
use kvstore.Common.{
  ℕ, zero, suc, ◌+◌, ◌-◌, ◌==◌, ◌&&◌, ◌||◌, not, ltb, Bool, true, false, if◌then◌else◌, List, [],
  ◌∷◌, ◌++◌, Bytes, str_eq, Option, none, some, length, take, drop, min,
}

-- kvs_snapshot_reader_t: what of the open file is behind its position (`none`: no file is open), and how
-- many bytes are still to be read.
pub record Reader : Type 0 where
  pub source : Option Bytes
  pub remaining : ℕ

-- The answer to a read or write: a signal, an error or end of file, or so many bytes.
pub data Answer : Type 0 where
  interrupted broken : Answer
  moved : ℕ → Answer

-- What open and fstat find at a path.
pub data Found : Type 0 where
  absent unstated irregular : Found
  regular : Bytes → Found

unfoldable pub reader_open : Found → Bytes → ℕ → Reader → Reader × Bool
reader_open found path expected_size r =
    if length path == 0 || expected_size == 0 then (r, false) else elim found [
      | absent ↦ (record { source = none; remaining = 0 }, false)
      | unstated ↦ (record { source = none; remaining = 0 }, false)
      | irregular ↦ (record { source = none; remaining = 0 }, false)
      | regular file ↦
          if length file == expected_size
          then (record { source = some file; remaining = expected_size }, true)
          else (record { source = none; remaining = 0 }, false)
    ]

-- The loop around the read of at most `size` bytes; a read of no bytes is the end of the file. The result is
-- the reader and the bytes, or `none` for -1.
unfoldable pub read_loop : ℕ → Bytes → List Answer → Reader → Option (Reader × Option Bytes)
read_loop size file [] r = none
read_loop size file (interrupted ∷ answers) r = read_loop size file answers r
read_loop size file (broken ∷ answers) r = some (r, none)
read_loop size file (moved n ∷ answers) r =
    let chunk = take (min n size) file in
    if length chunk == 0
    then some (r, none)
    else some (
      record { source = some (drop (min n size) file); remaining = r.remaining - length chunk },
      some chunk,
    )

-- With all bytes read the result is no bytes.
unfoldable pub reader_read : ℕ → List Answer → Reader → Option (Reader × Option Bytes)
reader_read capacity answers r = elim r.source [
  | none ↦ some (r, none)
  | some file ↦
      if capacity == 0
      then some (r, none)
      else if r.remaining == 0
      then some (r, some [])
      else read_loop (min capacity r.remaining) file answers r
]

unfoldable pub reader_close : Reader → Reader
reader_close r = record { source = none; remaining = 0 }

-- The files by their paths.
abbrev pub Files : Type 0
Files = Bytes → Option Bytes

unfoldable pub put : Bytes → Option Bytes → Files → Files
put path file files other = if str_eq other path then file else files other

-- kvs_snapshot_writer_t and the files: the path of the file that is open (`none`: no file is open), how many
-- bytes are to come, and the files.
pub record Receiver : Type 0 where
  pub opened : Option Bytes
  pub remaining : ℕ
  pub files : Files

unfoldable pub is_open : Receiver → Bool
is_open w = elim w.opened [ none ↦ false | some path ↦ true ]

-- A file that is there is emptied, one that is not is made.
unfoldable pub writer_open : Bool → Bytes → ℕ → Receiver → Receiver × Bool
writer_open granted temp_path expected_size w =
    if length temp_path == 0 || expected_size == 0
    then (w, false)
    else if granted
    then (
      record {
        opened = some temp_path;
        remaining = expected_size;
        files = put temp_path (some []) w.files;
      },
      true,
    )
    else (record w { opened = none; remaining = 0 }, false)

-- The bytes behind those of a file.
abbrev pub extended : Option Bytes → Bytes → Option Bytes
extended none bytes = none
extended (some file) bytes = some (file ++ bytes)

-- A write to the open file, at its end.
unfoldable pub written : Option Bytes → Bytes → Files → Files
written none bytes files = files
written (some path) bytes files = put path (extended (files path) bytes) files

-- The loop that writes all of `bytes`; the `Bool` tells whether it has.
unfoldable pub write_loop : List Answer → Bytes → Receiver → Option (Receiver × Bool)
write_loop answers [] w = some (w, true)
write_loop [] (b ∷ bytes) w = none
write_loop (interrupted ∷ answers) (b ∷ bytes) w = write_loop answers (b ∷ bytes) w
write_loop (broken ∷ answers) (b ∷ bytes) w = some (w, false)
write_loop (moved n ∷ answers) (b ∷ bytes) w =
    let rest =
      write_loop answers (drop n (b ∷ bytes))
        (record w { files = written w.opened (take n (b ∷ bytes)) w.files }) in
    if n == 0 then some (w, false) else rest

-- How many bytes are taken, or `none` for -1.
unfoldable pub writer_write : List Answer → Bytes → Receiver → Option (Receiver × Option ℕ)
writer_write answers bytes w =
    if not (is_open w) || length bytes == 0
    then some (w, none)
    else if w.remaining == 0
    then some (w, some 0)
    else elim (write_loop answers (take (min (length bytes) w.remaining) bytes) w) [
      | none ↦ none
      | some (v, false) ↦ some (v, none)
      | some (v, true) ↦
          let size = min (length bytes) w.remaining in
          some (record v { remaining = w.remaining - size }, some size)
    ]

-- The answers to fsync, close and rename.
pub record CommitEnv : Type 0 where
  pub synced : Bool
  pub closed : Bool
  pub renamed : Bool

-- rename gives the file at one path the other one, in place of the file there; it fails where there is none.
unfoldable pub rename : Bool → Bytes → Bytes → Files → Option Files
rename renamed old_path new_path files = elim (files old_path) [
  | none ↦ none
  | some file ↦ if renamed then some (put new_path (some file) (put old_path none files)) else none
]

unfoldable pub writer_commit : CommitEnv → Bytes → Bytes → Receiver → Receiver × Bool
writer_commit env temp_path final_path w =
    if not (is_open w)
      || (not (w.remaining == 0) || (length temp_path == 0 || length final_path == 0))
    then (w, false)
    else if not env.synced
    then (record w { opened = none }, false)
    else if not env.closed
    then (record w { opened = none }, false)
    else elim (rename env.renamed temp_path final_path w.files) [
      | none ↦ (record w { opened = none }, false)
      | some files ↦ (record w { opened = none; files = files }, true)
    ]

-- `removed` is the outcome of unlink.
unfoldable pub writer_abort : Bool → Bytes → Receiver → Receiver
writer_abort removed temp_path w =
    if length temp_path == 0 || not removed
    then record w { opened = none; remaining = 0 }
    else record { opened = none; remaining = 0; files = put temp_path none w.files }
