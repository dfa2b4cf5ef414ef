-- ===== src/Kvs/Replies.antt =====
-- src/kvstore.c: the replies of kvs_execute_fields.
use kvstore.Common.{
  ℕ, ◌-◌, Bool, true, false, [], ◌++◌, Bytes, codes, Option, none, some, ltb, leb, if◌then◌else◌,
  length,
}
use kvstore.Protocol.{crlf, encoded_field_size, encode_value_response}
use kvstore.Buffer.{int_max, OutputBuffer, output_ensure_space}
use kvstore.Kvs.{
  Role, standalone, primary, replica, CommandSource, client, recovery, replication, ExecStatus,
  exec_ok, exec_already_exists, exec_not_found, exec_found,
}
use kvstore.Kvs.Commands.{Op, set_op, get_op, del_op, mod_op, exist_op, Which}

unfoldable pub is_client : CommandSource → Bool
is_client client = true
is_client recovery = false
is_client replication = false

unfoldable pub is_replica : Role → Bool
is_replica replica = true
is_replica standalone = false
is_replica primary = false

-- A reply of a fixed text, if there is room.
unfoldable pub put_reply : ℕ → Bytes → Option Bytes
put_reply room text = if leb (length text) room then some text else none

-- A reply by snprintf, which also needs room for a NUL.
unfoldable pub print_reply : ℕ → Bytes → Option Bytes
print_reply room text = if ltb (length text) room then some text else none

unfoldable pub encode_value_to_output : Bool → OutputBuffer → Bytes → OutputBuffer × Option Bytes
encode_value_to_output grows b value =
    if ltb b.capacity (length b.bytes)
    then (b, none)
    else elim (encoded_field_size (length value)) [
      | none ↦ (b, none)
      | some required ↦
          if ltb (int_max - length b.bytes) required
          then (b, none)
          else elim (output_ensure_space grows b required) [
            | none ↦ (b, none)
            | some b' ↦ (b', encode_value_response value (b'.capacity - length b'.bytes))
          ]
    ]

-- The number of fields that a command has.
unfoldable pub arity : Op → ℕ
arity set_op = 3
arity get_op = 2
arity del_op = 2
arity mod_op = 3
arity exist_op = 2

-- What a client is answered, from the status; GET has its reply already.
unfoldable pub client_reply : Op → ExecStatus → Bytes
client_reply get_op status = []
client_reply set_op exec_ok = codes "+OK" ++ crlf
client_reply set_op exec_already_exists = codes "-ERR key already exists" ++ crlf
client_reply set_op status = codes "-ERR SET failed" ++ crlf
client_reply del_op exec_ok = codes ":1" ++ crlf
client_reply del_op exec_not_found = codes ":0" ++ crlf
client_reply del_op status = codes "-ERR DEL failed" ++ crlf
client_reply mod_op exec_ok = codes "+OK" ++ crlf
client_reply mod_op exec_not_found = codes "-ERR key not found" ++ crlf
client_reply mod_op status = codes "-ERR MOD failed" ++ crlf
client_reply exist_op exec_found = codes ":1" ++ crlf
client_reply exist_op exec_not_found = codes ":0" ++ crlf
client_reply exist_op status = codes "-ERR EXIST failed" ++ crlf

-- The part behind kvs_execute_tokens, which has returned the length of `reply`.
unfoldable pub rewrite_reply :
    CommandSource → Option (Which × Op) → ℕ → Bytes → ExecStatus → Option Bytes
rewrite_reply source none room reply status = some reply
rewrite_reply source (some (which, get_op)) room reply status = some reply
rewrite_reply source (some (which, op)) room reply status =
    if is_client source then put_reply room (client_reply op status) else some reply
