-- ===== src/Snapshot/Writer/Batch.antt =====
-- src/persistence/snapshot_store.c: the requests of one batch.
use kvstore.Common.{
  ℕ, zero, suc, ◌+◌, ◌-◌, ◌*◌, ◌≤◌, ◌<◌, ◌≡◌, refl, sym, ap, ◌∙◌, arith, ◌==◌, false, [], ◌∷◌, ◌++◌,
  Bytes, length, take, drop, length-append, length-take, length-drop, take_all, drop_all,
  take-append-drop, append-nil, append_assoc, List-cases, inl, inr,
}
use native.Mathlib.Nat.{mul-zero, mul-suc}
use kvstore.Aof.{write_at, resize}
use kvstore.Snapshot.Writer.{request_loop, write_batch}

-- A write at the end of a file.
write_at_end :
    (file bytes : Bytes) (offset : ℕ)
    → length file ≡ offset
    → write_at file offset bytes ≡ file ++ bytes
unfolding write_at resize
write_at_end file bytes offset e =
    let none_more : offset - length file ≡ 0 = omega (arith, e) in
    rw
      (
        none_more,
        take_all offset file (omega (arith, e)),
        drop_all (offset + length bytes) file (omega (arith, e)),
      )
      (ap (λ x. x ++ (bytes ++ [])) (append-nil file) ∙ ap (λ x. file ++ x) (append-nil bytes))

-- The requests of a batch at the end of the file write its bytes there.
no_requests :
    (size fuel offset : ℕ) (file : Bytes)
    → write_batch (request_loop size fuel [] offset) file ≡ file
unfolding request_loop write_batch
no_requests size zero offset file = refl
no_requests size (suc fuel) offset file = refl

pub write_batch-requests :
    (size fuel : ℕ) (bytes file : Bytes) (offset : ℕ)
    → 0 < size
    → length bytes ≤ fuel
    → length file ≡ offset
    → write_batch (request_loop size fuel bytes offset) file ≡ file ++ bytes
unfolding request_loop write_batch
write_batch-requests size zero [] file offset p h e = sym (append-nil file)
write_batch-requests size zero (x ∷ xs) file offset p h e = absurd (omega arith)
write_batch-requests size (suc fuel) [] file offset p h e = sym (append-nil file)
write_batch-requests size (suc fuel) (x ∷ xs) file offset p h e =
    let front = take size (x ∷ xs) in
    let back = drop size (x ∷ xs) in
    let some_byte : (length (x ∷ xs) == 0) ≡ false = ground arith in
    let parts : (file ++ front) ++ back ≡ file ++ (x ∷ xs) =
      append_assoc file front back ∙ ap (λ y. file ++ y) (take-append-drop size (x ∷ xs)) in
    let front_size = length-take size (x ∷ xs) in
    let back_size = length-drop size (x ∷ xs) in
    rw (some_byte, write_batch, write_at_end file front offset e)
      (elim (List-cases back) [
        | inl none_left ↦
            rw none_left (no_requests size fuel (offset + size) (file ++ front))
            ∙ sym (append-nil (file ++ front))
            ∙ ap (λ y. (file ++ front) ++ y) (sym none_left)
            ∙ parts
        | inr (b, bs, more) ↦
            write_batch-requests size fuel back (file ++ front) (offset + size) p
              (omega (arith, back_size, h, p))
              (omega (arith, length-append file front, e, front_size, back_size, ap length more))
            ∙ parts
      ])

-- A batch has at most as many requests as the array for them has room for.
pub requests-le :
    (size fuel count : ℕ) (bytes : Bytes) (offset : ℕ)
    → length bytes ≤ size * count
    → length (request_loop size fuel bytes offset) ≤ count
unfolding request_loop
requests-le size zero count bytes offset h = omega arith
requests-le size (suc fuel) zero bytes offset h = ground (arith, mul-zero size)
requests-le size (suc fuel) (suc count) bytes offset h = ground (
  arith,
  requests-le size fuel count (drop size bytes) (offset + size)
      (omega (arith, length-drop size bytes, h, mul-suc size count)),
)
