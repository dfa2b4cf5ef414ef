-- ===== src/Protocol.antt =====
-- src/protocol/codec.c and include/protocol.h: length-prefixed commands and value responses.
-- A position in the input is the count of bytes before it together with the bytes that are left;
-- a field is the bytes that its slice points to. `size_t` has 64 bits.
pub mod Stable
pub mod Decimal
pub mod Encoded
pub mod RoundTrip
pub mod Consumed
pub mod Connection
mod Examples
use kvstore.Common.{
  ℕ, zero, suc, ◌+◌, ◌-◌, ◌*◌, ◌/◌, ◌%◌, ◌^◌, Bool, true, false, ◌&&◌, ◌||◌, not, List, [], ◌∷◌,
  ◌++◌, Option, none, some, ltb, leb, ◌==◌, if◌then◌else◌, length, take, drop, get_or, Bytes, codes,
  str_eq, min,
}

-- SIZE_MAX
abbrev pub size_max : ℕ
size_max = 2 ^ 64 - 1

-- The return codes 1, 0 and -1; 1 comes with the value, the new offset and the unread bytes.
pub data Parsed {ℓ} (A : Type ℓ) : Type ℓ where
  complete : A → ℕ → Bytes → Parsed A
  incomplete : Parsed A
  malformed : Parsed A

-- `if (result <= 0) return result;`
abbrev pub and_then {ℓ κ} :
    {A : Type ℓ} {B : Type κ} → Parsed A → (A → ℕ → Bytes → Parsed B) → Parsed B
and_then (complete a pos rest) f = f a pos rest
and_then incomplete f = incomplete
and_then malformed f = malformed

abbrev pub is_digit : ℕ → Bool
is_digit c = leb b'0' c && leb c b'9'

-- The tests behind the loop of `parse_number`, at the byte that ended it.
number_end : ℕ → ℕ → ℕ → Bytes → Parsed ℕ
number_end value pos c [] = if c == b'\r' then incomplete else malformed
number_end value pos c (d ∷ rest) =
    if c == b'\r'
    then (if d == b'\n' then complete value (pos + 2) rest else malformed)
    else malformed

-- The loop of `parse_number`.
number_loop : ℕ → ℕ → Bytes → Parsed ℕ
number_loop value pos [] = incomplete
number_loop value pos (c ∷ rest) =
    let digit = c - b'0' in
    let next = number_loop ((value * 10 + digit) % 2 ^ 64) (pos + 1) rest in
    if is_digit c
    then (if ltb ((size_max - digit) / 10) value then malformed else next)
    else number_end value pos c rest

pub parse_number : ℕ → Bytes → Parsed ℕ
parse_number pos [] = incomplete
parse_number pos (c ∷ rest) = if is_digit c then number_loop 0 pos (c ∷ rest) else malformed

-- What `parse_field` does once the length is read.
field_body : ℕ → ℕ → ℕ → Bytes → Parsed Bytes
field_body max_bytes len pos rest =
    if ltb max_bytes pos || ltb (max_bytes - pos) 2 || ltb (max_bytes - pos - 2) len
    then malformed
    else if ltb (length rest) len || ltb (length rest - len) 2
    then incomplete
    else if not (get_or rest len 0 == b'\r') || not (get_or rest (len + 1) 0 == b'\n')
    then malformed
    else complete (take len rest) (pos + len + 2) (drop (len + 2) rest)

pub parse_field : ℕ → ℕ → Bytes → Parsed Bytes
parse_field max_bytes pos [] = incomplete
parse_field max_bytes pos (c ∷ rest) =
    if c == b'$' then and_then (parse_number (pos + 1) rest) (field_body max_bytes) else malformed

-- The loop over `fields[0..count)`.
parse_fields : ℕ → ℕ → ℕ → Bytes → Parsed (List Bytes)
parse_fields zero max_bytes pos rest = complete [] pos rest
parse_fields (suc n) max_bytes pos rest =
    and_then (parse_field max_bytes pos rest)
      λ f p r. and_then (parse_fields n max_bytes p r) λ fs q s. complete (f ∷ fs) q s

command_body : ℕ → ℕ → ℕ → ℕ → Bytes → Parsed (List Bytes)
command_body capacity max_bytes count offset rest =
    if ltb max_bytes offset
    then malformed
    else if count == 0 || ltb capacity count
    then malformed
    else parse_fields count max_bytes offset rest

-- `complete` carries `fields`, `*parsed_bytes` and what follows the command.
pub parse_command_limited : ℕ → ℕ → Bytes → Parsed (List Bytes)
parse_command_limited capacity max_bytes [] =
    if capacity == 0 || max_bytes == 0 then malformed else incomplete
parse_command_limited capacity max_bytes (c ∷ rest) =
    if capacity == 0 || max_bytes == 0
    then malformed
    else if c == b'*'
    then and_then (parse_number 1 rest) (command_body capacity max_bytes)
    else malformed

unfoldable pub parse_command : ℕ → Bytes → Parsed (List Bytes)
parse_command capacity input = parse_command_limited capacity size_max input

-- `while (value >= 10)`, with fuel.
unfoldable pub digits_loop : ℕ → ℕ → ℕ → ℕ
digits_loop zero value digits = digits
digits_loop (suc fuel) value digits =
    let rest = digits_loop fuel (value / 10) (digits + 1) in if leb 10 value then rest else digits

-- A `size_t` has at most 20 digits, so the loop makes at most 19 rounds.
unfoldable pub decimal_digits : ℕ → ℕ
decimal_digits value = digits_loop 19 value 1

-- The loop of `write_decimal` fills its digits from the last to the first.
unfoldable pub write_loop : ℕ → ℕ → Bytes → Bytes
write_loop zero value out = out
write_loop (suc i) value out = write_loop i (value / 10) ((b'0' + value % 10) ∷ out)

unfoldable pub write_decimal : ℕ → Bytes
write_decimal value = write_loop (decimal_digits value) value []

-- `none` is the return code -1.
unfoldable pub encoded_field_size : ℕ → Option ℕ
encoded_field_size len =
    let overhead = 1 + decimal_digits len + 4 in
    if ltb (size_max - overhead) len then none else some (overhead + len)

-- The loop of `kvs_encoded_command_size`.
unfoldable pub size_loop : ℕ → List Bytes → Option ℕ
size_loop total [] = some total
size_loop total (f ∷ fs) = elim (encoded_field_size (length f)) [
  | none ↦ none
  | some field_size ↦
      let rest = size_loop ((total + field_size) % 2 ^ 64) fs in
      if ltb (size_max - field_size) total then none else rest
]

unfoldable pub encoded_command_size : List Bytes → Option ℕ
encoded_command_size fields =
    if length fields == 0 then none else size_loop (1 + decimal_digits (length fields) + 2) fields

abbrev pub crlf : Bytes
crlf = b'\r' ∷ b'\n' ∷ []

-- `$length\r\ncontent\r\n`, written the same way by both encoders.
unfoldable pub write_field : Bytes → Bytes
write_field f = b'$' ∷ write_decimal (length f) ++ (crlf ++ (f ++ crlf))

-- The second loop of `kvs_encode_command`: what it writes, in order.
unfoldable pub write_fields : List Bytes → Bytes
write_fields [] = []
write_fields (f ∷ fs) = write_field f ++ write_fields fs

-- The bytes that `kvs_encode_command` puts into `output`, or the return code -1.
unfoldable pub encode_command : List Bytes → ℕ → Option Bytes
encode_command fields capacity = elim (encoded_command_size fields) [
  | none ↦ none
  | some required ↦
      if ltb capacity required
      then none
      else some (b'*' ∷ write_decimal (length fields) ++ (crlf ++ write_fields fields))
]

pub encode_value_response : Bytes → ℕ → Option Bytes
encode_value_response value capacity = elim (encoded_field_size (length value)) [
  | none ↦ none
  | some required ↦ if ltb capacity required then none else some (write_field value)
]

pub data ConnectionKind : Type 0 where
  need_more client replica invalid : ConnectionKind

abbrev pub handshake : Bytes
handshake = codes "PING\r\n"

pub identify_connection : Bytes → ConnectionKind
identify_connection [] = need_more
identify_connection (c ∷ rest) =
    let n = min (length (c ∷ rest)) (length handshake) in
    if c == b'*'
    then client
    else if not (str_eq (take n (c ∷ rest)) (take n handshake))
    then invalid
    else if ltb (length (c ∷ rest)) (length handshake)
    then need_more
    else replica
