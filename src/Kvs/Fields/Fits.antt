-- ===== src/Kvs/Fields/Fits.antt =====
-- src/kvstore.c: one reply of kvs_execute_fields against the room in the buffer.
use kvstore.Common.{
  ℕ, ◌-◌, ◌≤◌, ◌≡◌, refl, arith, Bool, Bytes, Option, none, some, ltb, leb, if◌then◌else◌, length,
  min, Option-cases, Bool-cases, inl, inr,
}
use kvstore.Protocol.{size_max, encoded_field_size, encode_value_response, write_field}
use kvstore.Protocol.Encoded.{encode_value_response_lem}
use kvstore.Engines.Base.{Run}
use kvstore.Buffer.{int_max, OutputBuffer, output_ensure_space}
use kvstore.Buffer.Growth.{output_ensure_space_lem}
use kvstore.Kvs.{CommandSource, ExecStatus}
use kvstore.Kvs.Commands.{Op, set_op, get_op, del_op, mod_op, exist_op, Which}
use kvstore.Kvs.Replies.{
  is_client, put_reply, print_reply, client_reply, rewrite_reply, encode_value_to_output,
}
use kvstore.Kvs.Fields.{Execution, ended, gone}

-- A reply of at most `n` bytes.
abbrev pub AtMost : ℕ → Option Bytes → Type 0
AtMost n none = Unit
AtMost n (some reply) = length reply ≤ n

-- The buffer `b'` has the bytes of `b`, no less space, and room for the reply behind its bytes.
pub record HasRoom (b b' : OutputBuffer) (reply : Option Bytes) : Type 0 where
  pub bytes : b'.bytes ≡ b.bytes
  pub capacity : b.capacity ≤ b'.capacity
  pub room : AtMost (b'.capacity - length b'.bytes) reply

abbrev pub RepliesFit : {R K : Type 0} → OutputBuffer → Run (Execution R K) → Type 0
RepliesFit b none = Unit
RepliesFit b (some (gone sv)) = Unit
RepliesFit b (some (ended sv b' reply status)) = HasRoom b b' reply

pub put_reply-AtMost : (room : ℕ) (text : Bytes) → AtMost room (put_reply room text)
unfolding put_reply
put_reply-AtMost room text = elim (Bool-cases (leb (length text) room)) [
  | inl e ↦ rw e (ground arith)
  | inr e ↦ rw e tt
]

pub print_reply-AtMost : (room : ℕ) (text : Bytes) → AtMost room (print_reply room text)
unfolding print_reply
print_reply-AtMost room text = elim (Bool-cases (ltb (length text) room)) [
  | inl e ↦ rw e (ground arith)
  | inr e ↦ rw e tt
]

pub stays :
    (b : OutputBuffer) (reply : Option Bytes)
    → AtMost (b.capacity - length b.bytes) reply
    → HasRoom b b reply
stays b reply h = record { bytes = refl; capacity = omega arith; room = h }

response-AtMost :
    (value : Bytes) (capacity : ℕ) → AtMost capacity (encode_value_response value capacity)
response-AtMost value capacity =
    rw (encode_value_response_lem value capacity)
      (elim (Bool-cases (ltb (min capacity size_max) (length (write_field value)))) [
        | inl e ↦ rw e tt
        | inr e ↦ rw e (ground arith)
      ])

pub encode_value_to_output-HasRoom :
    (grows : Bool) (b : OutputBuffer) (value : Bytes)
    → b.capacity ≤ int_max
    → HasRoom b (encode_value_to_output grows b value).0 (encode_value_to_output grows b value).1
unfolding encode_value_to_output
encode_value_to_output-HasRoom grows b value h =
    elim (Bool-cases (ltb b.capacity (length b.bytes))) [
      | inl e ↦ rw (e, encode_value_to_output) (stays b none tt)
      | inr e ↦ elim (Option-cases (encoded_field_size (length value))) [
        | inl f ↦ rw (e, encode_value_to_output, f) (stays b none tt)
        | inr (required, f) ↦ elim (Bool-cases (ltb (int_max - length b.bytes) required)) [
          | inl g ↦ rw (e, encode_value_to_output, f, g) (stays b none tt)
          | inr g ↦ elim (Option-cases (output_ensure_space grows b required)) [
            | inl o ↦ rw (e, encode_value_to_output, f, g, o) (stays b none tt)
            | inr (b', o) ↦
                let (bytes, grown, top) =
                  output_ensure_space_lem grows b b' required h (ground arith) o in
                rw (e, encode_value_to_output, f, g, o)
                  (record {
                    bytes = bytes;
                    capacity = grown;
                    room = response-AtMost value (b'.capacity - length b'.bytes);
                  })
          ]
        ]
      ]
    ]

client_or :
    (source : CommandSource) (room : ℕ) (reply text : Bytes)
    → length reply ≤ room
    → AtMost room (if is_client source then put_reply room text else some reply)
client_or source room reply text h = elim (Bool-cases (is_client source)) [
  | inl e ↦ rw e (put_reply-AtMost room text)
  | inr e ↦ rw e h
]

pub rewrite_reply-AtMost :
    (source : CommandSource) (cmd : Option (Which × Op)) (room : ℕ) (reply : Bytes)
    (status : ExecStatus)
    → length reply ≤ room
    → AtMost room (rewrite_reply source cmd room reply status)
unfolding rewrite_reply
rewrite_reply-AtMost source none room reply status h = h
rewrite_reply-AtMost source (some (which, get_op)) room reply status h = h
rewrite_reply-AtMost source (some (which, set_op)) room reply status h =
    client_or source room reply (client_reply set_op status) h
rewrite_reply-AtMost source (some (which, del_op)) room reply status h =
    client_or source room reply (client_reply del_op status) h
rewrite_reply-AtMost source (some (which, mod_op)) room reply status h =
    client_or source room reply (client_reply mod_op status) h
rewrite_reply-AtMost source (some (which, exist_op)) room reply status h =
    client_or source room reply (client_reply exist_op status) h
