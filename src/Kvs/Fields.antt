-- ===== src/Kvs/Fields.antt =====
-- src/kvstore.c: kvs_execute_fields, from the fields of a message to the reply.
-- A reply is written behind the bytes that the buffer has; the caller adds it to them.
pub mod Handlers
pub mod Framing
pub mod Fits
pub mod Room
use kvstore.Common.{
  ◌≡◌, refl, ◌⊎◌, inl, inr, ℕ, zero, suc, ◌+◌, ◌-◌, Bool, true, false, not, List, [], ◌∷◌, ◌++◌,
  Bytes, codes, Option, none, some, ltb, leb, ◌==◌, ◌&&◌, ◌||◌, if◌then◌else◌, length, str_eq,
}
use kvstore.Protocol.{size_max, crlf, encoded_field_size, encode_value_response}
use kvstore.Engines.Base.{Mem, Run}
use kvstore.Engines.Array
use kvstore.Engines.Hash
use kvstore.Buffer.{int_max, OutputBuffer, output_ensure_space}
use kvstore.Aof.{get_offset}
use kvstore.Kvs.{
  Role, standalone, primary, replica, PersistenceMode, legacy_hybrid, snapshot_only, aof_only,
  CommandSource, client, recovery, replication, ExecStatus, exec_failed, exec_ok,
  exec_already_exists, exec_not_found, exec_found, Engine, Env, Server, Outcome, replied, refused,
  exited, execute_tokens,
}
use kvstore.Kvs.Commands.{
  Op, set_op, get_op, del_op, mod_op, exist_op, Which, array, rbtree, hash, skiplist, find_command,
}
use kvstore.Kvs.Replies.{
  is_client, is_replica, put_reply, print_reply, encode_value_to_output, arity, client_reply,
  rewrite_reply,
}

abbrev pub max_tokens : ℕ
max_tokens = 128

-- What the surroundings answer during one call: beside those of `Env`, the allocations of the tokens
-- and of a larger reply buffer, whether the snapshot could be stored, whether the replica is online.
pub record Call : Type 0 where
  pub env : Env
  pub token_mem : Mem
  pub grows : Bool
  pub stored : Bool
  pub online : Bool

-- kvs_save_current_snapshot: in the mode for the AOF alone there is none, and the hybrid one needs
-- the offset of an open AOF.
pub save_current_snapshot : {R K : Type 0} → Bool → Server R K → Bool
save_current_snapshot stored sv = elim sv.mode [
  | snapshot_only ↦ stored
  | legacy_hybrid ↦ elim (get_offset sv.writer) [ none ↦ false | some offset ↦ stored ]
  | aof_only ↦ false
]

unfoldable pub has_nul : Bytes → Bool
has_nul [] = false
has_nul (b ∷ bs) = b == 0 || has_nul bs

-- The loop of kvs_fields_to_tokens, from field number `i` on.
unfoldable pub token_loop : Mem → ℕ → List Bytes → Option (List Bytes)
token_loop mem i [] = some []
token_loop mem i (f ∷ fs) =
    let rest = token_loop mem (i + 1) fs in
    if length f == size_max || (has_nul f || not (mem i))
    then none
    else elim rest [ none ↦ none | some tokens ↦ some (f ∷ tokens) ]

unfoldable pub fields_to_tokens : Mem → List Bytes → Option (List Bytes)
fields_to_tokens mem fields =
    if length fields == 0 || ltb max_tokens (length fields) then none else token_loop mem 0 fields

-- What the loop over the fields finds first.
pub data Scanned : Type 0 where
  clean with_nul too_long : Scanned

pub Scanned-cases : (s : Scanned) → (s ≡ clean) ⊎ ((s ≡ with_nul) ⊎ (s ≡ too_long))
Scanned-cases clean = inl refl
Scanned-cases with_nul = inr (inl refl)
Scanned-cases too_long = inr (inr refl)

unfoldable pub scan_fields : List Bytes → Scanned
scan_fields [] = clean
scan_fields (f ∷ fs) =
    let rest = scan_fields fs in
    if length f == size_max then too_long else if has_nul f then with_nul else rest

-- `none` for the reply is the return code -1; `gone` is the end of the process.
pub data Execution (R K : Type 0) : Type 0 where
  ended : Server R K → OutputBuffer → Option Bytes → ExecStatus → Execution R K
  gone : Server R K → Execution R K

unfoldable pub set_status : Option ExecStatus → ExecStatus
set_status none = exec_failed
set_status (some status) = status

-- What kvs_execute_tokens leaves becomes the answer.
unfoldable pub conclude :
    {R K : Type 0}
    → CommandSource
    → Option (Which × Op)
    → OutputBuffer
    → ℕ
    → Outcome R K
    → Execution R K
conclude source cmd b room (exited sv) = gone sv
conclude source cmd b room (refused sv) = ended sv b none exec_failed
conclude source cmd b room (replied sv reply status) =
    ended sv b (rewrite_reply source cmd room reply (set_status status)) (set_status status)

module _ {R K : Type 0} (rbtree_engine : Engine R) (skiplist_engine : Engine K) where
  pub get_value : Which → Bytes → Server R K → Run (Option Bytes)
  get_value array key sv = Array.get sv.array_store key
  get_value rbtree key sv = rbtree_engine.get sv.rbtree_store key
  get_value hash key sv = Hash.get sv.hash_store key
  get_value skiplist key sv = skiplist_engine.get sv.skiplist_store key

  unfoldable pub run_tokens :
      Call
      → CommandSource
      → List Bytes
      → Option (Which × Op)
      → OutputBuffer
      → ℕ
      → Server R K
      → Run (Execution R K)
  run_tokens call source tokens cmd b room sv =
      elim (execute_tokens rbtree_engine skiplist_engine call.env source tokens room sv) [
        | none ↦ none
        | some o ↦ some (conclude source cmd b room o)
      ]

  -- GET, of which `key` is the second token.
  unfoldable pub run_get :
      Call → Which → Bytes → OutputBuffer → ℕ → Server R K → Run (Execution R K)
  run_get call which key b room sv = elim (get_value which key sv) [
    | none ↦ none
    | some none ↦ some (ended sv b (put_reply room (codes "$-1" ++ crlf)) exec_failed)
    | some (some value) ↦
        let (b', reply) = encode_value_to_output call.grows b value in
        some (ended sv b' reply exec_failed)
  ]

  -- kvs_is_get_command decides between the two ways of a known command.
  unfoldable pub run_known :
      Call
      → CommandSource
      → Bytes
      → Which
      → Op
      → List Bytes
      → OutputBuffer
      → ℕ
      → Server R K
      → Run (Execution R K)
  run_known call source name which get_op (key ∷ rest) b room sv = run_get call which key b room sv
  run_known call source name which op args b room sv =
      run_tokens call source (name ∷ args) (some (which, op)) b room sv

  -- The check of the number of fields, and the ways behind it.
  unfoldable pub execute_command :
      Call
      → CommandSource
      → Bytes
      → List Bytes
      → Option (Which × Op)
      → OutputBuffer
      → ℕ
      → Server R K
      → Run (Execution R K)
  execute_command call source name args none b room sv =
      if is_client source
      then some (ended sv b (put_reply room (codes "-ERR unknown command" ++ crlf)) exec_failed)
      else run_tokens call source (name ∷ args) none b room sv
  execute_command call source name args (some (which, op)) b room sv =
      let wrong = codes "-ERR wrong number of arguments for " ++ (name ++ crlf) in
      if not (1 + length args == arity op)
      then some (ended sv b (if is_client source then print_reply room wrong else none) exec_failed)
      else run_known call source name which op args b room sv

  -- PING, the replica that is not online, SAVE, and then the commands.
  unfoldable pub execute_checked :
      Call → CommandSource → List Bytes → OutputBuffer → ℕ → Server R K → Run (Execution R K)
  execute_checked call source [] b room sv = some (ended sv b none exec_failed)
  execute_checked call source (name ∷ args) b room sv =
      if is_client source && str_eq name (codes "PING")
      then some (
          ended sv b
            (put_reply room (
              if length args == 0
              then codes "+PONG" ++ crlf
              else codes "-ERR wrong number of arguments for PING" ++ crlf))
            exec_failed)
      else if is_client source && (is_replica sv.role && not call.online)
      then some (
          ended sv b (put_reply room (codes "-LOADING replica synchronization in progress" ++ crlf))
            exec_failed)
      else if is_client source && str_eq name (codes "SAVE")
      then some (
          ended sv b
            (put_reply room (
              if not (length args == 0)
              then codes "-ERR wrong number of arguments for SAVE" ++ crlf
              else if save_current_snapshot call.stored sv
              then codes "+OK" ++ crlf
              else codes "-ERR SAVE failed" ++ crlf))
            exec_failed)
      else execute_command call source name args (find_command name) b room sv

  unfoldable pub execute_fields :
      Call → CommandSource → List Bytes → OutputBuffer → Server R K → Run (Execution R K)
  execute_fields call source fields b sv =
      let room = b.capacity - length b.bytes in
      if (b.capacity == 0 || ltb b.capacity (length b.bytes))
        || (length fields == 0 || ltb max_tokens (length fields))
      then some (ended sv b none exec_failed)
      else elim (scan_fields fields) [
        | too_long ↦ some (ended sv b none exec_failed)
        | with_nul ↦ some (
            ended sv b
              (if is_client source
                then put_reply room (codes "-ERR NUL bytes are not supported" ++ crlf)
                else none)
              exec_failed)
        | clean ↦ elim (fields_to_tokens call.token_mem fields) [
          | none ↦ some (ended sv b none exec_failed)
          | some tokens ↦ execute_checked call source tokens b room sv
        ]
      ]
