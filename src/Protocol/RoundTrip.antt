-- ===== src/Protocol/RoundTrip.antt =====
-- src/protocol/codec.c: the parser on what the encoder writes.
use kvstore.Common.{
  ℕ, ◌+◌, ◌≤◌, ◌≡◌, refl, arith, Bytes, List, [], ◌∷◌, ◌++◌, length, length-append,
  take-append_self, drop-append_self, get_or-append_self, append_assoc, append-nil, get_or, false,
  ◌∙◌, ◌==◌, ◌||◌, some,
}
use kvstore.Protocol.{
  Parsed, complete, incomplete, malformed, and_then, size_max, field_body, parse_field,
  parse_fields, command_body, parse_command_limited, decimal_digits, write_decimal, crlf,
  write_field, write_fields, encode_command,
}
use kvstore.Protocol.Decimal.{parse_number-write_decimal}
use kvstore.Protocol.Encoded.{
  command_bytes, length-write_field, length-command_bytes, encode_command_lem,
}
use kvstore.Protocol.Stable.{parse_command_limited-append}

-- The content of a field that fits the limit and ends in CR LF.
field_body-content :
    (max_bytes pos : ℕ) (f rest : Bytes)
    → pos + length f + 2 ≤ max_bytes
    → field_body max_bytes (length f) pos (f ++ (crlf ++ rest))
      ≡ complete f (pos + length f + 2) rest
unfolding field_body
field_body-content max_bytes pos f rest h =
    let e : length f ≡ length f + 0 = omega arith in
    let r : get_or (f ++ (crlf ++ rest)) (length f) 0 ≡ b'\r' =
      rw e (get_or-append_self f (crlf ++ rest) 0 0) in
    ground (
      arith,
      length-append f (crlf ++ rest),
      take-append_self f (crlf ++ rest),
      drop-append_self f (crlf ++ rest) 2,
      get_or-append_self f (crlf ++ rest) 0 0,
      get_or-append_self f (crlf ++ rest) 1 0,
    )

write_field-append :
    (f rest : Bytes)
    → write_field f ++ rest ≡ b'$' ∷ write_decimal (length f) ++ (crlf ++ (f ++ (crlf ++ rest)))
unfolding write_field
write_field-append f rest = simp append_assoc

-- `parse_field` reads back a field that fits the limit, and stops right behind it.
pub parse_field-write_field :
    (max_bytes pos : ℕ) (f rest : Bytes)
    → pos + length (write_field f) ≤ max_bytes
    → length f ≤ size_max
    → parse_field max_bytes pos (write_field f ++ rest)
      ≡ complete f (pos + length (write_field f)) rest
unfolding parse_field
parse_field-write_field max_bytes pos f rest h small =
    let d = decimal_digits (length f) in
    let e : pos + 1 + d + 2 + length f + 2 ≡ pos + length (write_field f) =
      omega (arith, length-write_field f) in
    rw
      (
        write_field-append f rest,
        parse_number-write_decimal (length f) (pos + 1) (f ++ (crlf ++ rest)) small,
      )
      (field_body-content max_bytes (pos + 1 + d + 2) f rest (omega arith) ∙ rw e)

parse_fields-write_fields :
    (fs : List Bytes) (max_bytes pos : ℕ) (rest : Bytes)
    → pos + length (write_fields fs) ≤ max_bytes
    → length (write_fields fs) ≤ size_max
    → parse_fields (length fs) max_bytes pos (write_fields fs ++ rest)
      ≡ complete fs (pos + length (write_fields fs)) rest
unfolding parse_fields write_fields
parse_fields-write_fields [] max_bytes pos rest h small =
    let e : pos + 0 ≡ pos = omega arith in rw e
parse_fields-write_fields (f ∷ fs) max_bytes pos rest h small =
    let n = length-append (write_field f) (write_fields fs) in
    let e : pos + length (write_field f) + length (write_fields fs)
        ≡ pos + length (write_field f ++ write_fields fs) =
      omega (arith, n) in
    rw (append_assoc (write_field f) (write_fields fs) rest) (
      rw
        (
          parse_field-write_field max_bytes pos f (write_fields fs ++ rest) (omega (arith, n))
              (omega (arith, n, length-write_field f)),
          and_then,
        )
        (rw
          (
            parse_fields-write_fields fs max_bytes (pos + length (write_field f)) rest
                (omega (arith, n)) (omega (arith, n)),
            and_then,
          )
          (rw e)))

length-le-write_fields : (fs : List Bytes) → length fs ≤ length (write_fields fs)
unfolding write_fields
length-le-write_fields [] = omega arith
length-le-write_fields (f ∷ fs) = omega (
  arith,
  length-append (write_field f) (write_fields fs),
  length-write_field f,
  length-le-write_fields fs,
)

pub parse_command-command_bytes :
    (capacity max_bytes : ℕ) (fields : List Bytes) (rest : Bytes)
    → 1 ≤ length fields
    → length fields ≤ capacity
    → length (command_bytes fields) ≤ max_bytes
    → length (command_bytes fields) ≤ size_max
    → parse_command_limited capacity max_bytes (command_bytes fields ++ rest)
      ≡ complete fields (length (command_bytes fields)) rest
unfolding parse_command_limited command_body
parse_command-command_bytes capacity max_bytes fields rest some_field few fits small =
    let n = length-command_bytes fields in
    let d = decimal_digits (length fields) in
    let off : (capacity == 0 || max_bytes == 0) ≡ false = ground arith in
    rw (off, append_assoc (write_decimal (length fields)) (crlf ++ write_fields fields) rest)
      (rw
        (
          parse_number-write_decimal (length fields) 1 (write_fields fields ++ rest)
              (omega (arith, length-le-write_fields fields)),
          and_then,
        )
        (rw n (
          ground (
            arith,
            parse_fields-write_fields fields max_bytes (1 + d + 2) rest (omega arith) (omega arith),
          ))))

-- How `encode_command` answers, read backwards.
encode_command_inverse :
    (fields : List Bytes) (capacity : ℕ) {out : Bytes}
    → encode_command fields capacity ≡ some out
    → (out ≡ command_bytes fields) × (1 ≤ length fields) × (length out ≤ size_max)
encode_command_inverse fields capacity {out} h = ground (arith, encode_command_lem fields capacity)

-- Parsing what the encoder wrote, with any bytes behind it, gives back the fields, the encoding's
-- length and those bytes, if the count of fields and the length are within the parser's limits.
pub parse_command-encode_command :
    (capacity max_bytes room : ℕ) (fields : List Bytes) (out rest : Bytes)
    → encode_command fields room ≡ some out
    → length fields ≤ capacity
    → length out ≤ max_bytes
    → parse_command_limited capacity max_bytes (out ++ rest) ≡ complete fields (length out) rest
parse_command-encode_command capacity max_bytes room fields out rest h few fits =
    let (e, one, small) = encode_command_inverse fields room h in
    rw e (
      parse_command-command_bytes capacity max_bytes fields rest one few (rw e at fits)
        (rw e at small))

-- On every proper prefix of what the encoder wrote the parser waits for more, if the count of fields
-- and the length are within the parser's limits.
pub parse_command_limited_prefix :
    (capacity max_bytes room : ℕ) (fields : List Bytes) (front back : Bytes) (x : ℕ)
    → encode_command fields room ≡ some (front ++ (x ∷ back))
    → length fields ≤ capacity
    → length (front ++ (x ∷ back)) ≤ max_bytes
    → parse_command_limited capacity max_bytes front ≡ incomplete
parse_command_limited_prefix capacity max_bytes room fields front back x h few fits =
    decide (parse_command_limited capacity max_bytes front) refl
  where
    whole :
        parse_command_limited capacity max_bytes (front ++ (x ∷ back))
        ≡ complete fields (length (front ++ (x ∷ back))) []
    whole = rw append-nil at (
        parse_command-encode_command capacity max_bytes room fields (front ++ (x ∷ back)) [] h few
          fits)

    decide :
        (p : Parsed (List Bytes))
        → parse_command_limited capacity max_bytes front ≡ p
        → parse_command_limited capacity max_bytes front ≡ incomplete
    decide (complete fs n r) e = ground (
      arith,
      whole,
      parse_command_limited-append capacity max_bytes front (x ∷ back),
      length-append r (x ∷ back),
    )
    decide incomplete e = e
    decide malformed e =
        ground (arith, whole, parse_command_limited-append capacity max_bytes front (x ∷ back))
