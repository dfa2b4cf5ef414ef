-- ===== src/Protocol/Encoded.antt =====
-- src/protocol/codec.c: the encoder's size computation against what it writes.
use kvstore.Common.{
  ℕ, zero, suc, ◌+◌, ◌-◌, ◌/◌, ◌%◌, ◌^◌, ◌≤◌, ◌≡◌, arith, Bytes, List, [], ◌∷◌, ◌++◌, length,
  length-append, ◌∙◌, Bool-cases, inl, inr, ltb, ◌==◌, ◌||◌, if◌then◌else◌, none, some, min,
}
use kvstore.Protocol.{
  size_max, digits_loop, decimal_digits, write_decimal, crlf, write_field, write_fields,
  encoded_field_size, size_loop, encoded_command_size, encode_command, encode_value_response,
}
use kvstore.Protocol.Decimal.{length-write_decimal}

-- The bytes of a command, with no regard to sizes.
abbrev pub command_bytes : List Bytes → Bytes
command_bytes fields = b'*' ∷ write_decimal (length fields) ++ (crlf ++ write_fields fields)

digits_loop-le : (fuel value d : ℕ) → digits_loop fuel value d ≤ d + fuel
unfolding digits_loop
digits_loop-le zero value d = omega arith
digits_loop-le (suc fuel) value d = ground (arith, digits_loop-le fuel (value / 10) (d + 1))

pub decimal_digits-le : (value : ℕ) → decimal_digits value ≤ 20
unfolding decimal_digits
decimal_digits-le value = digits_loop-le 19 value 1

pub length-write_field :
    (f : Bytes) → length (write_field f) ≡ 1 + decimal_digits (length f) + 4 + length f
unfolding write_field
length-write_field f = omega (
  arith,
  length-append (write_decimal (length f)) (crlf ++ (f ++ crlf)),
  length-append f crlf,
  length-write_decimal (length f),
)

encoded_field_size_lem :
    (f : Bytes)
    → encoded_field_size (length f)
      ≡ (if ltb size_max (length (write_field f)) then none else some (length (write_field f)))
unfolding encoded_field_size
encoded_field_size_lem f =
    let e = length-write_field f in rw e (ground (arith, decimal_digits-le (length f)))

size_loop_lem :
    (total : ℕ) (fs : List Bytes)
    → total ≤ size_max
    → size_loop total fs ≡ (
        if ltb size_max (total + length (write_fields fs))
        then none
        else some (total + length (write_fields fs)))
unfolding size_loop write_fields
size_loop_lem total [] h = let e : total + 0 ≡ total = omega arith in rw e (ground arith)
size_loop_lem total (f ∷ fs) h =
    let s = length (write_field f) in
    let w = length (write_fields fs) in
    rw (length-append (write_field f) (write_fields fs), encoded_field_size_lem f, size_loop)
      (elim (Bool-cases (ltb size_max s)) [
        | inl big ↦ rw big (ground arith)
        | inr fits ↦ rw fits (elim (Bool-cases (ltb (size_max - s) total)) [
          | inl big ↦ rw big (ground arith)
          | inr room ↦
              let wrap : (total + s) % 2 ^ 64 ≡ total + s = ground arith in
              let sum : total + s + w ≡ total + (s + w) = omega arith in
              rw (room, wrap) (size_loop_lem (total + s) fs (ground arith) ∙ rw sum)
        ])
      ])

pub length-command_bytes :
    (fields : List Bytes)
    → length (command_bytes fields)
      ≡ 1 + decimal_digits (length fields) + 2 + length (write_fields fields)
length-command_bytes fields = omega (
  arith,
  length-append (write_decimal (length fields)) (crlf ++ write_fields fields),
  length-write_decimal (length fields),
)

pub encoded_command_size_lem :
    (fields : List Bytes)
    → encoded_command_size fields ≡ (
        if length fields == 0 || ltb size_max (length (command_bytes fields))
        then none
        else some (length (command_bytes fields)))
unfolding encoded_command_size
encoded_command_size_lem fields = rw (length-command_bytes fields) (
    ground (
      arith,
      size_loop_lem (1 + decimal_digits (length fields) + 2) fields,
      decimal_digits-le (length fields),
    ))

-- The encoder answers exactly for the commands with at least one field whose encoding fits both the
-- caller's buffer and a `size_t`: it writes the whole encoding, and refuses all others.
pub encode_command_lem :
    (fields : List Bytes) (capacity : ℕ)
    → encode_command fields capacity ≡ (
        if length fields == 0 || ltb (min capacity size_max) (length (command_bytes fields))
        then none
        else some (command_bytes fields))
unfolding encode_command
encode_command_lem fields capacity =
    let n = length (command_bytes fields) in
    rw (encoded_command_size_lem fields, encode_command) (ground arith)

-- The response of one value is written whole exactly if it fits both the caller's buffer and a
-- `size_t`, and refused otherwise.
pub encode_value_response_lem :
    (value : Bytes) (capacity : ℕ)
    → encode_value_response value capacity ≡ (
        if ltb (min capacity size_max) (length (write_field value))
        then none
        else some (write_field value))
unfolding encode_value_response
encode_value_response_lem value capacity =
    rw (encoded_field_size_lem value, encode_value_response) (ground arith)
