-- ===== src/Aof/Append.antt =====
-- src/persistence/aof.c: what an append leaves in the file.
use kvstore.Common.{
  Option-cases, ℕ, zero, suc, ◌+◌, ◌-◌, ◌≤◌, ◌≡◌, refl, sym, ap, ◌∙◌, arith, Bytes, Bool, true,
  false, not, ◌||◌, ltb, ◌==◌, length, take, drop, length-append, min, append-nil, Bool-cases, inl,
  inr, List, [], ◌∷◌, ◌++◌,
}
use kvstore.Protocol.{encoded_command_size, size_max}
use kvstore.Protocol.Encoded.{command_bytes, encoded_command_size_lem, encode_command_lem}
use kvstore.Aof.{
  Writer, Io, synced, torn, unsynced, offset_max, resize, write_at, write_encoded, append,
}

-- The writer is open, and stands at the end of the file.
pub record IsReady (w : Writer) : Type 0 where
  pub opened : w.opened ≡ true
  pub end : w.offset ≡ length w.file

take_all : (file : Bytes) → take (length file) file ≡ file
take_all [] = refl
take_all (b ∷ file) = ap (λ t. b ∷ t) (take_all file)

drop_all : (n : ℕ) (file : Bytes) → length file ≤ n → drop n file ≡ []
drop_all zero [] h = refl
drop_all (suc n) [] h = refl
drop_all zero (b ∷ file) h = absurd (omega arith)
drop_all (suc n) (b ∷ file) h = drop_all n file (omega arith)

resize_self : (file : Bytes) → resize (length file) file ≡ file
unfolding resize
resize_self file =
    let e : length file - length file ≡ 0 = omega arith in rw (take_all file, e) (append-nil file)

-- A write at the end extends the file.
write_at_end : (file bytes : Bytes) → write_at file (length file) bytes ≡ file ++ bytes
unfolding write_at
write_at_end file bytes =
    rw (resize_self file, drop_all (length file + length bytes) file (omega arith), append-nil)

-- What an append of a command says: with 0 the file has the whole command behind what it had and
-- the writer stands at its end, and with -1 it has a first part of the command, maybe nothing, and
-- the offset is as it was.
abbrev pub Appended : Writer → Bytes → Writer × Bool → Type 0
Appended w bytes (w', true) = (w'.file ≡ w.file ++ bytes) × IsReady w'
Appended w bytes (w', false) =
    (n : ℕ) × (w'.file ≡ w.file ++ take n bytes) × (w'.offset ≡ w.offset) × (w'.opened ≡ w.opened)

unchanged : (w : Writer) (bytes : Bytes) → Appended w bytes (w, false)
unchanged w bytes = (0, sym (append-nil w.file), refl, refl)

write_at-offset : (w : Writer) (x : Bytes) → IsReady w → write_at w.file w.offset x ≡ w.file ++ x
write_at-offset w x r = ap (λ o. write_at w.file o x) r.end ∙ write_at_end w.file x

write_encoded_lem :
    (io : Io) (w : Writer) (bytes : Bytes) → IsReady w → Appended w bytes (write_encoded io w bytes)
unfolding write_encoded
write_encoded_lem synced w bytes r =
    let e = write_at-offset w bytes r in
    let n = r.end in
    (
      e,
      record {
        opened = r.opened;
        end = ap (λ o. o + length bytes) n ∙ (sym (length-append w.file bytes) ∙ ap length (sym e));
      },
    )
write_encoded_lem (torn n) w bytes r = (n, write_at-offset w (take n bytes) r, refl, refl)
write_encoded_lem unsynced w bytes r =
    let whole = ap (λ t. w.file ++ t) (sym (take_all bytes)) in
    (length bytes, write_at-offset w bytes r ∙ whole, refl, refl)

-- Whatever the kernel answers to the write and the sync, and whether or not the buffer could be had:
-- at the end of an open file, an append that returns 0 has put the whole encoding of the command
-- behind what the file had and leaves the writer at the new end; one that returns -1 has put a first
-- part of it there, maybe nothing, and leaves the offset where it was.
pub append_lem :
    (fits : Bool) (io : Io) (w : Writer) (tokens : List Bytes)
    → IsReady w
    → Appended w (command_bytes tokens) (append fits io w tokens)
unfolding append
append_lem fits io w tokens r =
    let bytes = command_bytes tokens in
    let no = unchanged w bytes in
    elim (Bool-cases (not w.opened || not (length tokens == 2 || length tokens == 3))) [
      | inl out ↦ rw out no
      | inr off ↦
          rw (off, encoded_command_size_lem tokens)
            (elim (Bool-cases (length tokens == 0 || ltb size_max (length bytes))) [
              | inl big ↦ rw big no
              | inr small ↦ rw small (elim (Bool-cases fits) [
                | inr short ↦ rw short no
                | inl room ↦
                    let none-over : (length tokens == 0
                          || ltb (min (length bytes) size_max) (length bytes))
                        ≡ false =
                      ground arith in
                    rw (room, encode_command_lem tokens (length bytes), none-over)
                      (elim (Bool-cases (ltb offset_max (w.offset + length bytes))) [
                        | inl far ↦ rw far no
                        | inr near ↦ rw near (write_encoded_lem io w bytes r)
                      ])
              ])
            ])
    ]

-- When the buffer can be had and the write and the sync succeed, an open writer at the end of its
-- file appends every command of two or three fields whose encoding fits a `size_t` and keeps the
-- file within the largest offset: the return code is 0, and the file and the offset grow by exactly
-- the encoding.
pub append-accepts :
    (w : Writer) (tokens : List Bytes)
    → IsReady w
    → 2 ≤ length tokens
    → length tokens ≤ 3
    → length (command_bytes tokens) ≤ size_max
    → w.offset + length (command_bytes tokens) ≤ offset_max
    → append true synced w tokens ≡ (
      record w {
        offset = w.offset + length (command_bytes tokens);
        file = w.file ++ command_bytes tokens;
      },
      true,
    )
unfolding append write_encoded
append-accepts w tokens r two three small near =
    let bytes = command_bytes tokens in
    let on : (not w.opened || not (length tokens == 2 || length tokens == 3)) ≡ false =
      ground (arith, r.opened) in
    let size : (length tokens == 0 || ltb size_max (length bytes)) ≡ false = ground arith in
    let whole : (length tokens == 0 || ltb (min (length bytes) size_max) (length bytes)) ≡ false =
      ground arith in
    let fit : ltb offset_max (w.offset + length bytes) ≡ false = ground arith in
    rw (on, encoded_command_size_lem tokens)
      (rw (size, encode_command_lem tokens (length bytes))
        (rw (whole) (rw fit (rw (write_at-offset w bytes r)))))

-- What has been appended has a length that a `size_t` holds.
pub append-small :
    (fits : Bool) (io : Io) (w : Writer) (tokens : List Bytes) (w' : Writer)
    → append fits io w tokens ≡ (w', true)
    → length (command_bytes tokens) ≤ size_max
unfolding append
append-small fits io w tokens w' h = elim (Option-cases (encoded_command_size tokens)) [
  | inl e ↦ absurd (ground (arith, e, h))
  | inr (n, e) ↦ ground (arith, e, encoded_command_size_lem tokens)
]
