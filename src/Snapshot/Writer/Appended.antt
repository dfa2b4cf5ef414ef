-- ===== src/Snapshot/Writer/Appended.antt =====
-- src/persistence/snapshot_store.c: what the writer has taken, in the file and in the buffer.
use kvstore.Common.{
  ℕ, zero, suc, ◌+◌, ◌-◌, ◌≤◌, ◌<◌, ◌≡◌, ◌⊎◌, refl, sym, ap, subst, ◌∙◌, arith, ◌==◌, ltb, Bool,
  true, false, [], ◌∷◌, ◌++◌, Bytes, Option, none, some, length, take, drop, length-append,
  length-take, length-drop, take-append-drop, append-nil, append_assoc, Bool-cases, List-cases, inl,
  inr,
}
use kvstore.Snapshot.{int64_max}
use kvstore.Snapshot.Writer.{
  write_block_size, write_buffer_size, SnapshotWriter, write_batch, requests_of, writer_flush,
  copy_in, append_loop, writer_append,
}
use kvstore.Snapshot.Writer.Batch.{write_batch-requests}

-- All bytes taken so far.
abbrev pub contents : SnapshotWriter → Bytes
contents w = w.file ++ w.buffered

-- The file ends where the next batch goes, and the buffer is not overfull.
pub record IsWriter (w : SnapshotWriter) : Type 0 where
  pub ends : length w.file ≡ w.next_file_offset
  pub fits : length w.buffered ≤ write_buffer_size

-- Why a save can fail to take bytes: a batch is not written, or the file would be too long.
abbrev pub Unwritten : (ℕ → Bool) → Bytes → Type 0
Unwritten writes bytes = ((o : ℕ) × (writes o ≡ false)) ⊎ (int64_max < length bytes)

pub data Flushed (writes : ℕ → Bool) (w : SnapshotWriter) : Type 0 where
  unwritten : writer_flush writes w ≡ none → Unwritten writes (contents w) → Flushed writes w
  flushed :
      (v : SnapshotWriter)
      → writer_flush writes w ≡ some v
      → IsWriter v
      → v.file ≡ contents w
      → v.buffered ≡ []
      → v.checkpoint ≡ w.checkpoint
      → Flushed writes w

-- The writer after a batch.
abbrev written : SnapshotWriter → SnapshotWriter
written w = record w {
  file = write_batch (requests_of w) w.file;
  buffered = [];
  next_file_offset = w.next_file_offset + length w.buffered;
}

-- A flush that returns 0 has the whole buffer in the file.
pub writer_flush_lem : (writes : ℕ → Bool) (w : SnapshotWriter) → IsWriter w → Flushed writes w
unfolding writer_flush requests_of
writer_flush_lem writes w v = elim (List-cases w.buffered) [
  | inl e ↦
      let none_left : (length w.buffered == 0) ≡ true = ap (λ x. length x == 0) e in
      flushed w (ground (arith, v.fits, none_left)) v
        (sym (append-nil w.file) ∙ ap (λ x. w.file ++ x) (sym e)) e refl
  | inr (b, bs, e) ↦
      let some_byte : (length w.buffered == 0) ≡ false = ground (arith, ap length e) in
      elim (Bool-cases (ltb int64_max (w.next_file_offset + length w.buffered))) [
        | inl long ↦
            unwritten (ground (arith, v.fits, some_byte, long))
              (inr (ground (arith, long, length-append w.file w.buffered, v.ends)))
        | inr short ↦ elim (Bool-cases (writes w.next_file_offset)) [
          | inr bad ↦
              unwritten (ground (arith, v.fits, some_byte, short, bad))
                (inl (w.next_file_offset, bad))
          | inl good ↦
              let all =
                write_batch-requests write_block_size (length w.buffered) w.buffered w.file
                  w.next_file_offset (omega arith) (omega arith) v.ends in
              flushed (written w) (ground (arith, v.fits, some_byte, short, good))
                (record {
                  ends = omega (arith, ap length all, length-append w.file w.buffered, v.ends);
                  fits = omega arith;
                })
                all refl refl
        ]
      ]
]

copied :
    (w : SnapshotWriter) (bytes : Bytes)
    → contents (copy_in w bytes) ++ drop (write_buffer_size - length w.buffered) bytes
      ≡ contents w ++ bytes
unfolding copy_in
copied w bytes =
    let n = write_buffer_size - length w.buffered in
    ap (λ x. x ++ drop n bytes) (sym (append_assoc w.file w.buffered (take n bytes)))
    ∙ append_assoc (contents w) (take n bytes) (drop n bytes)
    ∙ ap (λ x. contents w ++ x) (take-append-drop n bytes)

copy_in-IsWriter : (w : SnapshotWriter) (bytes : Bytes) → IsWriter w → IsWriter (copy_in w bytes)
unfolding copy_in
copy_in-IsWriter w bytes v = record {
  ends = v.ends;
  fits = omega (
    arith,
    v.fits,
    length-append w.buffered (take (write_buffer_size - length w.buffered) bytes),
    length-take (write_buffer_size - length w.buffered) bytes,
  );
}

pub data Appends (writes : ℕ → Bool) (w : SnapshotWriter) (bytes : Bytes)
    (run : Option SnapshotWriter) : Type 0 where
  refuses : run ≡ none → Unwritten writes (contents w ++ bytes) → Appends writes w bytes run
  appends :
      (v : SnapshotWriter)
      → run ≡ some v
      → IsWriter v
      → contents v ≡ contents w ++ bytes
      → v.checkpoint ≡ w.checkpoint
      → Appends writes w bytes run

copy_fuel :
    (fuel : ℕ) (w : SnapshotWriter) (bytes : Bytes)
    → length bytes ≤ suc fuel
    → (length bytes == 0) ≡ false
    → length w.buffered < write_buffer_size
    → length (drop (write_buffer_size - length w.buffered) bytes) ≤ fuel
copy_fuel fuel w bytes h some_byte less =
    ground (arith, length-drop (write_buffer_size - length w.buffered) bytes, h, some_byte, less)

-- The round that copies into a buffer with space.
copy_round :
    (writes : ℕ → Bool) (fuel : ℕ) (w v : SnapshotWriter) (bytes : Bytes)
    → IsWriter v
    → contents v ≡ contents w
    → v.checkpoint ≡ w.checkpoint
    → Appends writes (copy_in v bytes) (drop (write_buffer_size - length v.buffered) bytes) (
        append_loop writes fuel
          (copy_in v bytes)
          (drop (write_buffer_size - length v.buffered) bytes))
    → Appends writes w bytes (
        append_loop writes fuel
          (copy_in v bytes)
          (drop (write_buffer_size - length v.buffered) bytes))
unfolding copy_in
copy_round writes fuel w v bytes iv same cp (refuses f why) =
    refuses f (subst (Unwritten writes) (copied v bytes ∙ ap (λ x. x ++ bytes) same) why)
copy_round writes fuel w v bytes iv same cp (appends u f iu all cu) =
    appends u f iu (all ∙ copied v bytes ∙ ap (λ x. x ++ bytes) same) (cu ∙ cp)

no_bytes : (bytes : Bytes) → (length bytes == 0) ≡ true → bytes ≡ []
no_bytes [] e = refl
no_bytes (x ∷ xs) e = absurd (ground (arith, e))

pub append-Unwritten :
    (writes : ℕ → Bool) (front bytes : Bytes)
    → Unwritten writes front
    → Unwritten writes (front ++ bytes)
append-Unwritten writes front bytes (inl bad) = inl bad
append-Unwritten writes front bytes (inr long) =
    inr (omega (arith, long, length-append front bytes))

append_loop_lem :
    (writes : ℕ → Bool) (fuel : ℕ) (w : SnapshotWriter) (bytes : Bytes)
    → IsWriter w
    → length bytes ≤ fuel
    → Appends writes w bytes (append_loop writes fuel w bytes)
unfolding append_loop
append_loop_lem writes zero w [] v h = appends w refl v (sym (append-nil (contents w))) refl
append_loop_lem writes zero w (x ∷ xs) v h = absurd (omega arith)
append_loop_lem writes (suc fuel) w bytes v h = elim (Bool-cases (length bytes == 0)) [
  | inl e ↦
      appends w (ground (arith, e)) v
        (sym (append-nil (contents w)) ∙ ap (λ x. contents w ++ x) (sym (no_bytes bytes e))) refl
  | inr e ↦ elim (Bool-cases (length w.buffered == write_buffer_size)) [
    | inr space ↦
        let less : length w.buffered < write_buffer_size = ground (arith, v.fits, space) in
        rw (e, append_loop, space)
          (copy_round writes fuel w w bytes v refl refl (
            append_loop_lem writes fuel (copy_in w bytes)
              (drop (write_buffer_size - length w.buffered) bytes) (copy_in-IsWriter w bytes v)
              (copy_fuel fuel w bytes h e less)))
    | inl full ↦ elim (writer_flush_lem writes w v) [
      | unwritten f why ↦
          refuses (ground (arith, e, full, f)) (append-Unwritten writes (contents w) bytes why)
      | flushed u f iu file empty cp ↦
          let less : length u.buffered < write_buffer_size = omega (arith, ap length empty) in
          let same : contents u ≡ contents w =
            ap (λ x. u.file ++ x) empty ∙ append-nil u.file ∙ file in
          rw (e, append_loop, full, f)
            (copy_round writes fuel w u bytes iu same cp (
              append_loop_lem writes fuel (copy_in u bytes)
                (drop (write_buffer_size - length u.buffered) bytes) (copy_in-IsWriter u bytes iu)
                (copy_fuel fuel u bytes h e less)))
    ]
  ]
]

-- snapshot_writer_append on a writer at the end of its file: with 0 it has taken exactly the bytes behind
-- those before, and it returns -1 only if a batch is not written or the file would pass the largest offset.
pub writer_append_lem :
    (writes : ℕ → Bool) (w : SnapshotWriter) (bytes : Bytes)
    → IsWriter w
    → Appends writes w bytes (writer_append writes w bytes)
unfolding writer_append
writer_append_lem writes w bytes v =
    let fits : ltb write_buffer_size (length w.buffered) ≡ false = ground (arith, v.fits) in
    rw (fits, writer_append) (append_loop_lem writes (length bytes) w bytes v (omega arith))
