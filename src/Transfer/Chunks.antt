-- ===== src/Transfer/Chunks.antt =====
-- src/persistence/snapshot_io.c: one chunk, read and written.
use kvstore.Common.{
  ℕ, ◌-◌, ◌≤◌, ◌≡◌, refl, sym, ap, subst, ◌∙◌, arith, ◌==◌, Bool, true, false, List, [], ◌∷◌, ◌++◌,
  Bytes, Option, none, some, length, take, drop, min, length-take, take-append-drop, append_assoc,
  append-nil, Bool-cases, inl, inr, fun_ext, str_eq, str_eq_refl,
}
use kvstore.Transfer.{
  Reader, Answer, interrupted, broken, moved, read_loop, reader_read, Receiver, extended, Files,
  put, written, is_open, write_loop, writer_write,
}

-- What a read has done: nothing yet, failed with the reader as it was, or moved a chunk.
pub data Reads (r : Reader) (file : Bytes) (run : Option (Reader × Option Bytes)) : Type 0 where
  waits : run ≡ none → Reads r file run
  fails : run ≡ some (r, none) → Reads r file run
  reads :
      (chunk rest : Bytes)
      → run
        ≡ some (record { source = some rest; remaining = r.remaining - length chunk }, some chunk)
      → file ≡ chunk ++ rest
      → length chunk ≤ r.remaining
      → (length chunk == 0) ≡ false
      → Reads r file run

read_loop_lem :
    (size : ℕ) (file : Bytes) (answers : List Answer) (r : Reader)
    → size ≤ r.remaining
    → Reads r file (read_loop size file answers r)
unfolding read_loop
read_loop_lem size file [] r h = waits refl
read_loop_lem size file (interrupted ∷ answers) r h = read_loop_lem size file answers r h
read_loop_lem size file (broken ∷ answers) r h = fails refl
read_loop_lem size file (moved n ∷ answers) r h =
    elim (Bool-cases (length (take (min n size) file) == 0)) [
      | inl e ↦ fails (rw (e, read_loop) refl)
      | inr e ↦
          reads (take (min n size) file) (drop (min n size) file) (rw (e, read_loop) refl)
            (sym (take-append-drop (min n size) file))
            (omega (arith, length-take (min n size) file, h)) e
    ]

-- kvs_snapshot_reader_read on an open file, with room for some bytes and some left: -1 leaves the reader as it
-- was, and otherwise it has the next bytes of the file, which it counts down.
pub reader_read_lem :
    (capacity : ℕ) (answers : List Answer) (r : Reader) (file : Bytes)
    → r.source ≡ some file
    → (capacity == 0) ≡ false
    → (r.remaining == 0) ≡ false
    → Reads r file (reader_read capacity answers r)
unfolding reader_read
reader_read_lem capacity answers r file e c m =
    subst (Reads r file) (sym (open_read capacity answers r file e c m))
      (read_loop_lem (min capacity r.remaining) file answers r (omega arith))
  where
    open_read :
        (capacity : ℕ) (answers : List Answer) (r : Reader) (file : Bytes)
        → r.source ≡ some file
        → (capacity == 0) ≡ false
        → (r.remaining == 0) ≡ false
        → reader_read capacity answers r ≡ read_loop (min capacity r.remaining) file answers r
    open_read capacity answers r file e c m = ground (arith, e, c, m)

-- A path that is put twice.
pub put-put :
    (path : Bytes) (old new : Option Bytes) (before : Files)
    → put path new (put path old before) ≡ put path new before
unfolding put
put-put path old new before = fun_ext (λ other. pointwise other)
  where
    pointwise :
        (other : Bytes) → put path new (put path old before) other ≡ put path new before other
    pointwise other = elim (Bool-cases (str_eq other path)) [
      | inl e ↦ rw (e, put) refl
      | inr e ↦ rw (e, put) refl
    ]

pub put_here :
    (path : Bytes) (file : Option Bytes) (before : Files) → put path file before path ≡ file
unfolding put
put_here path file before = rw (str_eq_refl path, put) refl

-- A write at the end of the open file.
written-put :
    (path temp bytes : Bytes) (before : Files)
    → written (some path) bytes (put path (some temp) before)
      ≡ put path (some (temp ++ bytes)) before
unfolding written
written-put path temp bytes before =
    ap (λ x. put path (extended x bytes) (put path (some temp) before))
      (put_here path (some temp) before)
    ∙ put-put path (some temp) (some (temp ++ bytes)) before

-- What a write has done: nothing yet, failed with a part of the bytes in the temporary file, or written
-- as many as are still expected.
pub data Writes (w : Receiver) (path temp : Bytes) (before : Files) (bytes : Bytes)
    (run : Option (Receiver × Option ℕ)) : Type 0 where
  blocks : run ≡ none → Writes w path temp before bytes run
  stuck :
      (part : Bytes)
      → run ≡ some (record w { files = put path (some (temp ++ part)) before }, none)
      → Writes w path temp before bytes run
  writes :
      run
        ≡ some (
          record w {
            remaining = w.remaining - min (length bytes) w.remaining;
            files = put path (some (temp ++ take (min (length bytes) w.remaining) bytes)) before;
          },
          some (min (length bytes) w.remaining),
        )
      → Writes w path temp before bytes run

data Loops (w : Receiver) (path temp : Bytes) (before : Files) (bytes : Bytes)
    (run : Option (Receiver × Bool)) : Type 0 where
  blocked : run ≡ none → Loops w path temp before bytes run
  broke :
      (part : Bytes)
      → run ≡ some (record w { files = put path (some (temp ++ part)) before }, false)
      → Loops w path temp before bytes run
  wrote :
      run ≡ some (record w { files = put path (some (temp ++ bytes)) before }, true)
      → Loops w path temp before bytes run

-- The temporary file of a receiver.
abbrev with_file : Receiver → Bytes → Bytes → Files → Receiver
with_file w path file before = record w { files = put path (some file) before }

more_written :
    (w : Receiver) (path temp a b : Bytes) (before : Files) (run : Option (Receiver × Bool))
    → Loops (with_file w path (temp ++ a) before) path (temp ++ a) before b run
    → Loops w path temp before (a ++ b) run
more_written w path temp a b before run (blocked f) = blocked f
more_written w path temp a b before run (broke part f) =
    broke (a ++ part)
      (f ∙ ap (λ x. some (with_file w path x before, false)) (append_assoc temp a part))
more_written w path temp a b before run (wrote f) =
    wrote (f ∙ ap (λ x. some (with_file w path x before, true)) (append_assoc temp a b))

same_file :
    (w : Receiver) (path temp : Bytes) (before : Files)
    → w.files ≡ put path (some temp) before
    → w ≡ with_file w path (temp ++ []) before
same_file w path temp before e =
    ap (λ x. record w { files = x })
      (e ∙ ap (λ x. put path (some x) before) (sym (append-nil temp)))

write_loop_lem :
    (answers : List Answer) (bytes : Bytes) (w : Receiver) (path temp : Bytes) (before : Files)
    → w.opened ≡ some path
    → w.files ≡ put path (some temp) before
    → Loops w path temp before bytes (write_loop answers bytes w)
unfolding write_loop
write_loop_lem answers [] w path temp before o e =
    wrote (ap (λ x. some (x, true)) (same_file w path temp before e))
write_loop_lem [] (b ∷ bytes) w path temp before o e = blocked refl
write_loop_lem (interrupted ∷ answers) (b ∷ bytes) w path temp before o e =
    write_loop_lem answers (b ∷ bytes) w path temp before o e
write_loop_lem (broken ∷ answers) (b ∷ bytes) w path temp before o e =
    broke [] (ap (λ x. some (x, false)) (same_file w path temp before e))
write_loop_lem (moved n ∷ answers) (b ∷ bytes) w path temp before o e = elim (Bool-cases (n == 0)) [
  | inl z ↦
      broke [] (rw (z, write_loop) (ap (λ x. some (x, false)) (same_file w path temp before e)))
  | inr z ↦
      let front = take n (b ∷ bytes) in
      let back = drop n (b ∷ bytes) in
      let next = with_file w path (temp ++ front) before in
      let grown : written w.opened front w.files ≡ put path (some (temp ++ front)) before =
        ap (λ x. written x front w.files) o
        ∙ ap (λ x. written (some path) front x) e
        ∙ written-put path temp front before in
      let step : write_loop (moved n ∷ answers) (b ∷ bytes) w ≡ write_loop answers back next =
        rw (z, write_loop) (ap (λ x. write_loop answers back (record w { files = x })) grown) in
      subst (λ x. Loops w path temp before x (write_loop (moved n ∷ answers) (b ∷ bytes) w))
        (take-append-drop n (b ∷ bytes))
        (subst (Loops w path temp before (front ++ back)) (sym step) (
          more_written w path temp front back before (write_loop answers back next)
            (write_loop_lem answers back next path (temp ++ front) before o refl)))
]

-- kvs_snapshot_writer_write on an open temporary file, with bytes to write and some expected: -1 leaves the
-- count as it was, and otherwise the bytes, as many as are expected, are behind those in the file and
-- counted down; no other file changes.
pub writer_write_lem :
    (answers : List Answer) (bytes : Bytes) (w : Receiver) (path temp : Bytes) (before : Files)
    → w.opened ≡ some path
    → w.files ≡ put path (some temp) before
    → (length bytes == 0) ≡ false
    → (w.remaining == 0) ≡ false
    → Writes w path temp before bytes (writer_write answers bytes w)
unfolding writer_write is_open
writer_write_lem answers bytes w path temp before o e b m =
    let part = take (min (length bytes) w.remaining) bytes in
    elim (write_loop_lem answers part w path temp before o e) [
      | blocked f ↦ blocks (ground (arith, o, b, m, f))
      | broke part f ↦ stuck part (ground (arith, o, b, m, f))
      | wrote f ↦ writes (ground (arith, o, b, m, f))
    ]
