-- ===== src/Transfer/Examples.antt =====
-- src/persistence/snapshot_io.c: a file of five bytes in two chunks.
use kvstore.Common.{refl, true, [], ◌∷◌, Bytes, codes, str_eq, none, some}
use kvstore.Transfer.{
  Reader, interrupted, moved, reader_open, reader_read, read_loop, Receiver, Files, put, is_open,
  written, writer_open, writer_write, write_loop, CommitEnv, writer_commit,
}
use kvstore.Transfer.Complete.{Transfer, starts, chunk}
use kvstore.Transfer.Committed.{Commits, hindered, Transfer-commit}

abbrev a_file : Bytes
a_file = codes "abcde"

-- An old file at the final path, and a temporary one that was left.
abbrev old_files : Files
old_files =
    put (codes "f") (some (codes "old")) (put (codes "t") (some (codes "torn")) (λ path. none))

abbrev closed_reader : Reader
closed_reader = record { source = none; remaining = 0 }

abbrev open_reader : Reader
open_reader = record { source = some a_file; remaining = 5 }

abbrev idle : Receiver
idle = record { opened = none; remaining = 0; files = old_files }

abbrev ready : Receiver
ready = record {
  opened = some (codes "t");
  remaining = 5;
  files = put (codes "t") (some []) old_files;
}

begun : Transfer a_file old_files (codes "t") open_reader ready
unfolding reader_open writer_open
begun = starts (codes "s") 5 closed_reader open_reader idle ready refl refl refl

-- Three bytes are read and written, each call interrupted once, and then the rest.
abbrev reader_at_3 : Reader
reader_at_3 = record { source = some (codes "de"); remaining = 2 }

abbrev receiver_at_3 : Receiver
receiver_at_3 = record ready {
  remaining = 2;
  files =
      put (codes "t") (some (codes "abc"))
        (put (codes "t") (some (codes "a")) (put (codes "t") (some []) old_files));
}

three_moved : Transfer a_file old_files (codes "t") reader_at_3 receiver_at_3
unfolding reader_read read_loop writer_write write_loop is_open written put str_eq
three_moved =
    chunk open_reader reader_at_3 ready receiver_at_3 3 (codes "abc") (interrupted ∷ moved 3 ∷ [])
      (moved 1 ∷ interrupted ∷ moved 2 ∷ []) begun refl refl refl refl

abbrev reader_at_5 : Reader
reader_at_5 = record { source = some []; remaining = 0 }

abbrev receiver_at_5 : Receiver
receiver_at_5 = record receiver_at_3 {
  remaining = 0;
  files = put (codes "t") (some a_file) receiver_at_3.files;
}

five_moved : Transfer a_file old_files (codes "t") reader_at_5 receiver_at_5
unfolding reader_read read_loop writer_write write_loop is_open written put str_eq
five_moved =
    chunk reader_at_3 reader_at_5 receiver_at_3 receiver_at_5 3 (codes "de") (moved 2 ∷ [])
      (moved 2 ∷ []) three_moved refl refl refl refl

abbrev all_well : CommitEnv
all_well = record { synced = true; closed = true; renamed = true }

Transfer-commit_example :
    Commits a_file old_files
      (codes "t")
      (codes "f")
      (hindered all_well (codes "t") (codes "f") reader_at_5)
      (writer_commit all_well (codes "t") (codes "f") receiver_at_5)
Transfer-commit_example = Transfer-commit all_well (codes "f") five_moved
