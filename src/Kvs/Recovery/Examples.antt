-- ===== src/Kvs/Recovery/Examples.antt =====
-- src/kvstore.c and src/persistence/aof.c: messages of clients, served and replayed.
use kvstore.Common.{
  ◌≡◌, refl, arith, str_eq, true, false, Bytes, codes, List, [], ◌∷◌, ◌++◌, length, Option, none,
  some, inl, ap,
}
use kvstore.Protocol.{
  crlf, write_decimal, write_loop, write_fields, write_field, decimal_digits, digits_loop,
  encoded_command_size, encode_command, encoded_field_size, size_loop,
}
use kvstore.Protocol.Encoded.{command_bytes}
use kvstore.Engines.Base.{success, plenty}
use kvstore.Buffer.{OutputBuffer}
use kvstore.Aof.{synced, mapped, append, write_encoded, write_at, resize, replay}
use kvstore.Aof.Append.{IsReady}
use kvstore.Aof.Replay.{IsLoggable}
use kvstore.Kvs.{
  standalone, aof_only, client, exec_ok, Engine, Server, is_logged, refuses, filter_protocol,
  execute_tokens, execute_known, first_of, dispatch, run_op, finish, is_success, status_of,
  answered, write_reply, log_command,
}
use kvstore.Kvs.Commands.{find_command, find_loop, is_write_command}
use kvstore.Kvs.Replies.{is_client, is_replica, put_reply, arity, client_reply, rewrite_reply}
use kvstore.Kvs.Fields.{
  Call, ended, has_nul, token_loop, fields_to_tokens, scan_fields, set_status, conclude, run_tokens,
  run_known, execute_command, execute_checked, execute_fields,
}
use kvstore.Kvs.Fields.Handlers.{consumed, network_protocol}
use kvstore.Kvs.Fields.Framing.{IsClientCommand, take_command, network_protocol-frames}
use kvstore.Kvs.Fields.Fits.{RepliesFit}
use kvstore.Kvs.Fields.Room.{execute_fields-RepliesFit}
use kvstore.Kvs.Recovery.Keeps.{Keeps}
use kvstore.Kvs.Recovery.Dispatch.{with_engines}
use kvstore.Kvs.Recovery.Again.{recovery_call}
use kvstore.Kvs.Recovery.Rebuild.{message, Served, here, next, recover, replay-rebuilds}

-- An engine for one value, whatever the key.
abbrev one_value : Engine (Option Bytes)
one_value = record {
  set_value = λ mem s key value. some (some value, success);
  get = λ s key. some s;
  del = λ s key. some (none, success);
  mod_value = λ mem s key value. some (some value, success);
  exist = λ s key. some success;
}

one_value-Keeps : Keeps one_value
one_value-Keeps = record {
  set_keeps = λ mem s t k v ret h. inl (ground (arith, h));
  mod_keeps = λ mem s t k v ret h. inl (ground (arith, h));
  del_keeps = λ s t k ret h. inl (ground (arith, h));
}

abbrev a_server : Server (Option Bytes) (Option Bytes)
a_server = record {
  array_store = record { table = none; idx = 0; total = 0 };
  rbtree_store = none;
  hash_store = record { nodes = none; max_slots = 0; count = 0 };
  skiplist_store = none;
  role = standalone;
  mode = aof_only;
  writer = record { opened = true; offset = 0; file = [] };
}

abbrev a_call : Call
a_call = record {
  env = record { mem = plenty; fits = true; io = synced };
  token_mem = plenty;
  grows = true;
  stored = true;
  online = true;
}

abbrev rset_a : List Bytes
rset_a = codes "RSET" ∷ codes "a" ∷ codes "x" ∷ []

abbrev rset_bytes : Bytes
rset_bytes = codes "*3\r\n$4\r\nRSET\r\n$1\r\na\r\n$1\r\nx\r\n"

-- The server after the command.
abbrev later : Server (Option Bytes) (Option Bytes)
later = record a_server {
  rbtree_store = some (codes "x");
  writer = record { opened = true; offset = 28; file = rset_bytes };
}

abbrev buffer : OutputBuffer
buffer = record { bytes = []; offset = 0; capacity = 64 }

served_once :
    execute_fields one_value one_value a_call client rset_a buffer a_server
    ≡ some (ended later buffer (some (codes "+OK" ++ crlf)) exec_ok)
unfolding execute_fields execute_checked execute_command run_known run_tokens execute_tokens
    filter_protocol refuses execute_known first_of dispatch run_op finish is_success status_of
    answered write_reply log_command is_logged append write_encoded write_at resize find_command
    find_loop is_write_command str_eq scan_fields has_nul fields_to_tokens token_loop is_client
    is_replica arity rewrite_reply set_status conclude put_reply client_reply encoded_command_size
    encode_command encoded_field_size size_loop write_decimal write_loop write_fields write_field
    decimal_digits digits_loop
served_once = refl

run_once : Served one_value one_value plenty a_server later
run_once =
    next
      (message true synced plenty true true true rset_a buffer buffer (some (codes "+OK" ++ crlf))
        exec_ok served_once)
      here

rset_bytes-command : command_bytes rset_a ≡ rset_bytes
unfolding write_decimal write_loop write_fields write_field decimal_digits digits_loop
rset_bytes-command = refl

uses_aof : is_logged client aof_only ≡ true
unfolding is_logged
uses_aof = refl

a_writer-IsReady : IsReady a_server.writer
a_writer-IsReady = record { opened = refl; end = refl }

rset_a-IsLoggable : IsLoggable rset_a
rset_a-IsLoggable = record {
  some_field = omega arith;
  few = omega arith;
  small = omega (arith, ap length rset_bytes-command);
}

-- The file ends with the first byte of one more command.
replay-rebuilds_example :
    replay true
      (recover one_value one_value plenty
        (recovery_call (record { mem = plenty; fits = true; io = synced }) true true true))
      (some (with_engines a_server a_server))
      (mapped (rset_bytes ++ (b'*' ∷ [])))
      0
    ≡ (some (with_engines later a_server), false)
replay-rebuilds_example =
    replay-rebuilds one_value one_value plenty true synced true true true a_server later a_server
      rset_a (b'*' ∷ []) (codes "\r\n$4\r\nRSET\r\n$1\r\na\r\n$1\r\nx\r\n") b'3' one_value-Keeps
      one_value-Keeps a_writer-IsReady uses_aof run_once rset_a-IsLoggable rset_bytes-command

execute_fields-RepliesFit_example :
    RepliesFit buffer (execute_fields one_value one_value a_call client rset_a buffer a_server)
execute_fields-RepliesFit_example =
    execute_fields-RepliesFit one_value one_value a_call client rset_a buffer a_server (omega arith)

rset_a-IsClientCommand : IsClientCommand rset_a
rset_a-IsClientCommand = record {
  some_field = omega arith;
  few = omega arith;
  small = omega (arith, ap length rset_bytes-command);
}

-- The command comes whole with one byte of the next, or without what follows its first byte.
network_protocol-frames_example :
    (network_protocol one_value one_value a_call
        (command_bytes rset_a ++ (b'*' ∷ []))
        buffer
        a_server
      ≡ take_command
          (length (command_bytes rset_a))
          (execute_fields one_value one_value a_call client rset_a buffer a_server))
    × (network_protocol one_value one_value a_call (b'*' ∷ []) buffer a_server
        ≡ some (consumed a_server buffer (some []) 0))
network_protocol-frames_example =
    network_protocol-frames one_value one_value a_call buffer a_server rset_a (b'*' ∷ [])
      (b'*' ∷ []) (codes "\r\n$4\r\nRSET\r\n$1\r\na\r\n$1\r\nx\r\n") b'3' rset_a-IsClientCommand
      (omega arith) (omega arith) rset_bytes-command
