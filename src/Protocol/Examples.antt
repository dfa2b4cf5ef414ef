-- ===== src/Protocol/Examples.antt =====
-- src/protocol/codec.c: the codec at concrete inputs.
use kvstore.Common.{
  ℕ, ◌≤◌, ◌≡◌, ◌≢◌, refl, arith, Bytes, codes, List, [], ◌∷◌, ◌++◌, length, none, some, ltb, ◌==◌,
  ◌||◌, if◌then◌else◌, min,
}
use kvstore.Protocol.{
  Parsed, complete, incomplete, malformed, size_max, number_end, number_loop, parse_number,
  field_body, parse_field, parse_fields, command_body, parse_command_limited, digits_loop,
  decimal_digits, write_loop, write_decimal, write_field, write_fields, encoded_field_size,
  size_loop, encoded_command_size, encode_command, encode_value_response, need_more,
  identify_connection,
}
use kvstore.Protocol.Stable.{extend, parse_command_limited-append}
use kvstore.Protocol.Encoded.{command_bytes, encode_command_lem, encode_value_response_lem}
use kvstore.Protocol.RoundTrip.{parse_command-encode_command, parse_command_limited_prefix}
use kvstore.Protocol.Consumed.{parse_command_limited_consumed}

abbrev get_k : List Bytes
get_k = codes "GET" ∷ codes "k" ∷ []

abbrev get_k_text : Bytes
get_k_text = codes "*2\r\n$3\r\nGET\r\n$1\r\nk\r\n"

encode_get_k : encode_command get_k 64 ≡ some get_k_text
unfolding encode_command encoded_command_size size_loop encoded_field_size decimal_digits
    digits_loop write_decimal write_loop write_fields write_field
encode_get_k = refl

parse_get_k : parse_command_limited 3 64 get_k_text ≡ complete get_k 20 []
unfolding parse_command_limited command_body parse_fields parse_field field_body parse_number
    number_loop number_end
parse_get_k = refl

-- A field count above the capacity is refused.
parse_too_many : parse_command_limited 1 64 get_k_text ≡ malformed
unfolding parse_command_limited command_body parse_number number_loop number_end
parse_too_many = refl

parse_command-encode_command_example :
    parse_command_limited 3 64 (get_k_text ++ codes "*1") ≡ complete get_k 20 (codes "*1")
parse_command-encode_command_example =
    parse_command-encode_command 3 64 64 get_k get_k_text (codes "*1") encode_get_k (omega arith)
      (omega arith)

parse_command_limited_prefix_example :
    parse_command_limited 3 64 (codes "*2\r\n$3\r\nGET\r\n$1\r\nk\r") ≡ incomplete
parse_command_limited_prefix_example =
    parse_command_limited_prefix 3 64 64 get_k (codes "*2\r\n$3\r\nGET\r\n$1\r\nk\r") [] b'\n'
      encode_get_k (omega arith) (omega arith)

not_incomplete :
    {fs : List Bytes} {n : ℕ} {rest : Bytes} {p : Parsed (List Bytes)}
    → p ≡ complete fs n rest
    → p ≢ incomplete
not_incomplete h e = cc

parse_command_limited-append_example :
    parse_command_limited 3 64 (get_k_text ++ codes "*1")
    ≡ extend (codes "*1") (parse_command_limited 3 64 get_k_text)
parse_command_limited-append_example =
    parse_command_limited-append 3 64 get_k_text (codes "*1") (not_incomplete parse_get_k)

parse_command_limited_consumed_example :
    (front : Bytes) × (get_k_text ≡ front ++ [])
    × (20 ≡ length front)
    × (1 ≤ 20)
    × (20 ≤ 64)
    × (1 ≤ length get_k)
    × (length get_k ≤ 3)
parse_command_limited_consumed_example =
    parse_command_limited_consumed 3 64 get_k_text get_k 20 [] parse_get_k

encode_command_example : encode_command get_k 19 ≡ (
    if length get_k == 0 || ltb (min 19 size_max) (length (command_bytes get_k))
    then none
    else some (command_bytes get_k))
encode_command_example = encode_command_lem get_k 19

encode_value_response_example : encode_value_response (codes "v") 7 ≡ (
    if ltb (min 7 size_max) (length (write_field (codes "v")))
    then none
    else some (write_field (codes "v")))
encode_value_response_example = encode_value_response_lem (codes "v") 7

star_known : identify_connection (codes "*") ≢ need_more
unfolding identify_connection
star_known e = cc
