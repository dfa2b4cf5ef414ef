-- ===== src/Aof/Examples.antt =====
-- src/persistence/aof.c: the append-only file at concrete inputs.
use kvstore.Common.{
  ℕ, ◌+◌, ◌≡◌, refl, ap, arith, Bytes, codes, List, [], ◌∷◌, ◌++◌, length, true, some, ◌==◌,
}
use kvstore.Protocol.{
  write_decimal, write_loop, write_fields, write_field, decimal_digits, digits_loop,
}
use kvstore.Protocol.Encoded.{command_bytes}
use kvstore.Aof.Reading.{Delivers, reader_read_lem}
use kvstore.Aof.{Reader, reader_read, Writer, synced, torn, append, ReplayHandler, mapped, replay}
use kvstore.Aof.Append.{IsReady, Appended, append_lem, append-accepts}
use kvstore.Aof.Replay.{IsLoggable, log, run_all, replay-log}

abbrev del_k_text : Bytes
del_k_text = codes "*2\r\n$3\r\nDEL\r\n$1\r\nk\r\n"

abbrev del_k : List Bytes
del_k = codes "DEL" ∷ codes "k" ∷ []

del_k-bytes : command_bytes del_k ≡ del_k_text
unfolding write_decimal write_loop write_fields write_field decimal_digits digits_loop
del_k-bytes = refl

del_k-size : length (command_bytes del_k) ≡ 20
del_k-size = ap length del_k-bytes

abbrev empty_file : Writer
empty_file = record { opened = true; offset = 0; file = [] }

empty_file-IsReady : IsReady empty_file
empty_file-IsReady = record { opened = refl; end = refl }

append_example : Appended empty_file (command_bytes del_k) (append true (torn 4) empty_file del_k)
append_example = append_lem true (torn 4) empty_file del_k empty_file-IsReady

append-accepts_example : append true synced empty_file del_k ≡ (
  record {
    opened = true;
    offset = 0 + length (command_bytes del_k);
    file = [] ++ command_bytes del_k;
  },
  true,
)
append-accepts_example =
    append-accepts empty_file del_k empty_file-IsReady (omega arith) (omega arith)
      (omega (arith, del_k-size)) (omega (arith, del_k-size))

del_k-IsLoggable : IsLoggable del_k
del_k-IsLoggable = record {
  some_field = omega arith;
  few = omega arith;
  small = omega (arith, del_k-size);
}

-- A handler that counts the commands and answers OK.
abbrev count : ReplayHandler ℕ
count n fields = (n + 1, some 4)

replay-log_example :
    replay true count 0
      (mapped (codes "old" ++ (log (del_k ∷ del_k ∷ []) ++ codes "*")))
      (length (codes "old"))
    ≡ run_all count 0 (del_k ∷ del_k ∷ []) (length (codes "*") == 0)
replay-log_example =
    replay-log count 0 (codes "old") (del_k ∷ del_k ∷ []) del_k (codes "*")
      (codes "\r\n$3\r\nDEL\r\n$1\r\nk\r\n") b'2' (del_k-IsLoggable, (del_k-IsLoggable, tt))
      del_k-IsLoggable del_k-bytes

abbrev a_reader : Reader
a_reader = record { opened = true; offset = 1; remaining = 4 }

reader_read_example :
    (r' : Reader) × (got : Bytes) × (reader_read (codes "abcdef") 2 a_reader 3 ≡ some (r', got))
    × Delivers (codes "abcdef") a_reader 3 r' got
reader_read_example =
    reader_read_lem (codes "abcdef") 2 a_reader 3 refl (omega arith) (omega arith) (omega arith)
      (omega arith)

-- The kernel gives two of the three bytes that are asked for.
reader_read_two :
    reader_read (codes "abcdef") 2 a_reader 3
    ≡ some (record { opened = true; offset = 3; remaining = 2 }, codes "bc")
unfolding reader_read
reader_read_two = refl
