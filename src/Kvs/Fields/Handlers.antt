-- ===== src/Kvs/Fields/Handlers.antt =====
-- src/kvstore.c: the callbacks of the recovery, of the replication and of the network.
use kvstore.Common.{
  ℕ, ◌-◌, ◌*◌, List, [], ◌++◌, Bytes, codes, Option, none, some, ltb, leb, ◌==◌, ◌||◌,
  if◌then◌else◌, length,
}
use kvstore.Protocol.{complete, incomplete, malformed, crlf, parse_command_limited}
use kvstore.Engines.Base.{Run}
use kvstore.Buffer.{OutputBuffer}
use kvstore.Kvs.{
  CommandSource, client, recovery, replication, ExecStatus, exec_failed, exec_ok,
  exec_already_exists, exec_not_found, exec_found, Engine, Server,
}
use kvstore.Kvs.Replies.{put_reply}
use kvstore.Kvs.Fields.{max_tokens, Call, Execution, ended, gone, execute_fields}

-- KVS_MAX_CLIENT_COMMAND_BYTES
abbrev pub max_client_command_bytes : ℕ
max_client_command_bytes = 1024 * 1024

-- The length of a reply counts for a command that has done what it says.
unfoldable pub reply_length : Option Bytes → ExecStatus → Option ℕ
reply_length none status = none
reply_length (some reply) exec_ok = some (length reply)
reply_length (some reply) exec_failed = none
reply_length (some reply) exec_already_exists = none
reply_length (some reply) exec_not_found = none
reply_length (some reply) exec_found = none

-- What a callback leaves: the server and the reply's length, or the server of an ended process.
pub data Answered (R K : Type 0) : Type 0 where
  answers : Server R K → Option ℕ → Answered R K
  stops : Server R K → Answered R K

unfoldable pub answer_of : {R K : Type 0} → Execution R K → Answered R K
answer_of (ended sv b reply status) = answers sv (reply_length reply status)
answer_of (gone sv) = stops sv

-- The network callback's result: the execution, and how many bytes it has consumed.
pub data Consumed (R K : Type 0) : Type 0 where
  consumed : Server R K → OutputBuffer → Option Bytes → ℕ → Consumed R K
  lost : Server R K → Consumed R K

-- The check behind kvs_execute_fields.
unfoldable pub consume : {R K : Type 0} → ℕ → Execution R K → Consumed R K
consume n (ended sv b none status) = consumed sv b none 0
consume n (ended sv b (some reply) status) =
    if ltb (b.capacity - length b.bytes) (length reply)
    then consumed sv b none 0
    else consumed sv b (some reply) n
consume n (gone sv) = lost sv

module _ {R K : Type 0} (rbtree_engine : Engine R) (skiplist_engine : Engine K) where
  -- A callback with a buffer of `capacity` bytes of its own.
  unfoldable pub own_buffer :
      Call → CommandSource → List Bytes → ℕ → Server R K → Run (Answered R K)
  own_buffer call source fields capacity sv =
      if capacity == 0
      then some (answers sv none)
      else elim (execute_fields rbtree_engine skiplist_engine call source fields
          (record { bytes = []; offset = 0; capacity = capacity }) sv) [
            | none ↦ none
            | some e ↦ some (answer_of e)
          ]

  unfoldable pub recovery_fields_protocol : Call → List Bytes → ℕ → Server R K → Run (Answered R K)
  recovery_fields_protocol call fields capacity sv = own_buffer call recovery fields capacity sv

  pub replication_command_protocol : Call → List Bytes → ℕ → Server R K → Run (Answered R K)
  replication_command_protocol call fields capacity sv =
      own_buffer call replication fields capacity sv

  -- An answer to bytes that can never become a command; it consumes all of them.
  unfoldable pub invalid_request : Bytes → OutputBuffer → Server R K → Consumed R K
  invalid_request msg b sv =
      elim (put_reply (b.capacity - length b.bytes)
        (codes "-ERR invalid or oversized request" ++ crlf)) [
          | none ↦ consumed sv b none 0
          | some reply ↦ consumed sv b (some reply) (length msg)
        ]

  unfoldable pub network_protocol : Call → Bytes → OutputBuffer → Server R K → Run (Consumed R K)
  network_protocol call msg b sv =
      if b.capacity == 0 || ltb b.capacity (length b.bytes)
      then some (consumed sv b none 0)
      else if length msg == 0
      then some (consumed sv b (some []) 0)
      else elim (parse_command_limited max_tokens max_client_command_bytes msg) [
        | malformed ↦ some (invalid_request msg b sv)
        | incomplete ↦ some (
            if leb max_client_command_bytes (length msg)
            then invalid_request msg b sv
            else consumed sv b (some []) 0)
        | complete fields n rest ↦
            elim (execute_fields rbtree_engine skiplist_engine call client fields b sv) [
              | none ↦ none
              | some e ↦ some (consume n e)
            ]
      ]
