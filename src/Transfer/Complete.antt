-- ===== src/Transfer/Complete.antt =====
-- src/persistence/snapshot_io.c: the chunks that a reader gives, written in order.
use kvstore.Common.{
  ℕ, ◌+◌, ◌-◌, ◌≤◌, ◌≡◌, refl, sym, ap, ◌∙◌, arith, ◌==◌, ◌||◌, Bool, true, false, List, [], ◌++◌,
  Bytes, some, some_same, none-some, length, take, min, take_all, length-append, append_assoc,
  Bool-cases, inl, inr,
}
use kvstore.Transfer.{
  Reader, Answer, reader_open, reader_read, regular, Receiver, Files, put, writer_open,
  writer_write,
}
use kvstore.Transfer.Chunks.{
  waits, fails, reads, reader_read_lem, blocks, stuck, writes, writer_write_lem,
}

-- A transfer of a file to a temporary path, from these files on: both ends are open, and every chunk that is
-- read is then written whole.
pub data Transfer (file : Bytes) (before : Files) (temp_path : Bytes)
    : Reader → Receiver → Type 0 where
  starts :
      (path : Bytes) (size : ℕ) (r0 r : Reader) (w0 w : Receiver)
      → reader_open (regular file) path size r0 ≡ (r, true)
      → writer_open true temp_path size w0 ≡ (w, true)
      → w0.files ≡ before
      → Transfer file before temp_path r w
  chunk :
      (r r' : Reader) (w w' : Receiver) (capacity : ℕ) (bytes : Bytes)
      (read_answers write_answers : List Answer)
      → Transfer file before temp_path r w
      → (capacity == 0) ≡ false
      → (r.remaining == 0) ≡ false
      → reader_read capacity read_answers r ≡ some (r', some bytes)
      → writer_write write_answers bytes w ≡ some (w', some (length bytes))
      → Transfer file before temp_path r' w'

-- The two ends agree: what has been written and what is still to be read make up the file, and the files are
-- those before but for the one at the temporary path.
pub record Agree (file : Bytes) (before : Files) (temp_path : Bytes) (r : Reader) (w : Receiver)
    : Type 0 where
  pub sent : Bytes
  pub left : Bytes
  pub whole : file ≡ sent ++ left
  pub source : r.source ≡ some left
  pub counted : r.remaining ≡ length left
  pub opened : w.opened ≡ some temp_path
  pub expected : w.remaining ≡ length left
  pub files : w.files ≡ put temp_path (some sent) before

clash : {b : Bool} → b ≡ false → b ≡ true → ⊥
clash e f = cc

reader_opened :
    (file path : Bytes) (size : ℕ) (r0 r : Reader)
    → reader_open (regular file) path size r0 ≡ (r, true)
    → (length file ≡ size) × (record { source = some file; remaining = size } ≡ r)
unfolding reader_open
reader_opened file path size r0 r e = elim (Bool-cases (length path == 0 || size == 0)) [
  | inl bad ↦ absurd (clash (ground (arith, bad)) (ap (λ p. p.1) e))
  | inr good ↦ elim (Bool-cases (length file == size)) [
    | inl same ↦
        let run : reader_open (regular file) path size r0
            ≡ (record { source = some file; remaining = size }, true) =
          ground (arith, good, same) in
        (ground (arith, same), ap (λ p. p.0) (sym run ∙ e))
    | inr other ↦ absurd (clash (ground (arith, good, other)) (ap (λ p. p.1) e))
  ]
]

writer_opened :
    (temp_path : Bytes) (size : ℕ) (w0 w : Receiver)
    → writer_open true temp_path size w0 ≡ (w, true)
    → record { opened = some temp_path; remaining = size; files = put temp_path (some []) w0.files }
      ≡ w
unfolding writer_open
writer_opened temp_path size w0 w e = elim (Bool-cases (length temp_path == 0 || size == 0)) [
  | inl bad ↦ absurd (clash (ground (arith, bad)) (ap (λ p. p.1) e))
  | inr good ↦
      let run : writer_open true temp_path size w0 ≡ (
        record {
          opened = some temp_path;
          remaining = size;
          files = put temp_path (some []) w0.files;
        },
        true,
      ) =
        ground (arith, good) in
      ap (λ p. p.0) (sym run ∙ e)
]

-- A chunk that both ends have moved.
moved-Agree :
    {file : Bytes} {before : Files} {temp_path : Bytes} {r r' : Reader} {w w' : Receiver}
    (bytes rest : Bytes)
    → (a : Agree file before temp_path r w)
    → record { source = some rest; remaining = r.remaining - length bytes } ≡ r'
    → a.left ≡ bytes ++ rest
    → length bytes ≤ r.remaining
    → record w {
      remaining = w.remaining - min (length bytes) w.remaining;
      files = put temp_path (some (a.sent ++ take (min (length bytes) w.remaining) bytes)) before;
    }
      ≡ w'
    → Agree file before temp_path r' w'
moved-Agree {file} {before} {temp_path} {r} {r'} {w} {w'} bytes rest a er parts less ew =
    let all : min (length bytes) w.remaining ≡ length bytes =
      omega (arith, less, a.counted, a.expected) in
    let sum : length a.left ≡ length bytes + length rest =
      ap length parts ∙ length-append bytes rest in
    record {
      sent = a.sent ++ bytes;
      left = rest;
      whole = a.whole ∙ ap (λ x. a.sent ++ x) parts ∙ sym (append_assoc a.sent bytes rest);
      source = sym (ap (λ x. x.source) er);
      counted = omega (arith, ap (λ x. x.remaining) er, a.counted, sum);
      opened = sym (ap (λ x. x.opened) ew) ∙ a.opened;
      expected = omega (arith, ap (λ x. x.remaining) ew, all, a.expected, sum);
      files =
          sym (ap (λ x. x.files) ew)
          ∙ ap (λ n. put temp_path (some (a.sent ++ take n bytes)) before) all
          ∙ ap (λ x. put temp_path (some (a.sent ++ x)) before)
              (take_all (length bytes) bytes (omega arith));
    }

step-Agree :
    {file : Bytes} {before : Files} {temp_path : Bytes} {r r' : Reader} {w w' : Receiver}
    (capacity : ℕ) (bytes : Bytes) (ra wa : List Answer)
    → Agree file before temp_path r w
    → (capacity == 0) ≡ false
    → (r.remaining == 0) ≡ false
    → reader_read capacity ra r ≡ some (r', some bytes)
    → writer_write wa bytes w ≡ some (w', some (length bytes))
    → Agree file before temp_path r' w'
step-Agree {file} {before} {temp_path} {r} {r'} {w} {w'} capacity bytes ra wa a c m read write =
    elim (reader_read_lem capacity ra r a.left a.source c m) [
      | waits f ↦ absurd (none-some (sym f ∙ read))
      | fails f ↦ absurd (none-some (ap (λ p. p.1) (some_same (sym f ∙ read))))
      | reads got rest f parts less some_bytes ↦
          let p = some_same (sym f ∙ read) in
          let same : got ≡ bytes = some_same (ap (λ p. p.1) p) in
          let still : (w.remaining == 0) ≡ false = ground (arith, m, a.counted, a.expected) in
          elim (writer_write_lem wa bytes w temp_path a.sent before a.opened a.files
            (ap (λ x. length x == 0) (sym same) ∙ some_bytes) still) [
              | blocks g ↦ absurd (none-some (sym g ∙ write))
              | stuck part g ↦ absurd (none-some (ap (λ p. p.1) (some_same (sym g ∙ write))))
              | writes g ↦
                  moved-Agree bytes rest a
                    (ap (λ x. record { source = some rest; remaining = r.remaining - length x })
                        (sym same)
                      ∙ ap (λ p. p.0) p)
                    (parts ∙ ap (λ x. x ++ rest) same) (omega (arith, less, ap length same))
                    (ap (λ p. p.0) (some_same (sym g ∙ write)))
            ]
    ]

-- At every point of a transfer, what has been written and what is still to be read make up the file, both
-- ends expect as many bytes as are left, and all files but the temporary one are as they were.
pub Transfer-Agree :
    {file : Bytes} {before : Files} {temp_path : Bytes} {r : Reader} {w : Receiver}
    → Transfer file before temp_path r w
    → Agree file before temp_path r w
Transfer-Agree {file} {before} {temp_path} (starts path size r0 r w0 w er ew kept) =
    let (fits, is_r) = reader_opened file path size r0 r er in
    let is_w = writer_opened temp_path size w0 w ew in
    record {
      sent = [];
      left = file;
      whole = refl;
      source = sym (ap (λ x. x.source) is_r);
      counted = omega (arith, ap (λ x. x.remaining) is_r, fits);
      opened = sym (ap (λ x. x.opened) is_w);
      expected = omega (arith, ap (λ x. x.remaining) is_w, fits);
      files = sym (ap (λ x. x.files) is_w) ∙ ap (put temp_path (some [])) kept;
    }
Transfer-Agree (chunk r r' w w' capacity bytes ra wa before c m read write) =
    step-Agree capacity bytes ra wa (Transfer-Agree before) c m read write
