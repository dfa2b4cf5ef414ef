-- ===== src/Kvs.antt =====
-- src/kvstore.c: the execution of one command that has been split into tokens.
pub mod Commands
pub mod Refusal
pub mod Logged
pub mod Store
pub mod Promise
pub mod Total
pub mod Replies
pub mod Fields
pub mod Recovery
mod Examples
use kvstore.Common.{
  ℕ, zero, suc, ◌+◌, ◌-◌, Bool, true, false, not, List, [], ◌∷◌, ◌++◌, Bytes, codes, Option, none,
  some, ltb, leb, ◌==◌, ◌&&◌, ◌||◌, if◌then◌else◌, length, str_eq,
}
use kvstore.Protocol.{crlf}
use kvstore.Engines.Base.{Ret, success, not_found, failure, no_memory, Mem, Run}
use kvstore.Engines.Array
use kvstore.Engines.Array.{KvArray}
use kvstore.Engines.Hash
use kvstore.Engines.Hash.{KvHash}
use kvstore.Aof.{Writer, Io, append}
use Commands.{
  Op, set_op, get_op, del_op, mod_op, exist_op, Which, array, rbtree, hash, skiplist, find_command,
  is_write_command,
}

pub data Role : Type 0 where
  standalone primary replica : Role

pub data PersistenceMode : Type 0 where
  legacy_hybrid snapshot_only aof_only : PersistenceMode

pub data CommandSource : Type 0 where
  client recovery replication : CommandSource

-- kvs_exec_status_t
pub data ExecStatus : Type 0 where
  exec_failed exec_ok exec_already_exists exec_not_found exec_found : ExecStatus

-- The functions that the executor calls on one engine. `Ret` stands for the sign of the code, which
-- is all that the executor looks at; -2 is `no_memory`.
pub record Engine (S : Type 0) : Type 0 where
  pub set_value : Mem → S → Bytes → Bytes → Run (S × Ret)
  pub get : S → Bytes → Run (Option Bytes)
  pub del : S → Bytes → Run (S × Ret)
  pub mod_value : Mem → S → Bytes → Bytes → Run (S × Ret)
  pub exist : S → Bytes → Run Ret

unfoldable pub array_engine : Engine KvArray
array_engine = record {
  set_value = Array.set_value;
  get = Array.get;
  del = Array.del;
  mod_value = Array.mod_value;
  exist = Array.exist;
}

unfoldable pub hash_engine : Engine KvHash
hash_engine = record {
  set_value = Hash.set_value;
  get = Hash.get;
  del = Hash.del;
  mod_value = Hash.mod_value;
  exist = Hash.exist;
}

-- What the surroundings answer during one command: to the engine's allocations, to the allocation
-- of the AOF record, to its write and sync.
pub record Env : Type 0 where
  pub mem : Mem
  pub fits : Bool
  pub io : Io

-- The reply to a write, with what a code above 0 means.
write_reply : Bytes → Ret → Bytes
write_reply other success = codes "OK" ++ crlf
write_reply other not_found = other ++ crlf
write_reply other failure = codes "ERROR" ++ crlf
write_reply other no_memory = codes "ERROR" ++ crlf

exist_reply : Ret → Bytes
exist_reply success = codes "EXIST" ++ crlf
exist_reply not_found = codes "NO EXIST" ++ crlf
exist_reply failure = codes "NO EXIST" ++ crlf
exist_reply no_memory = codes "NO EXIST" ++ crlf

get_reply : Option Bytes → Bytes
get_reply none = codes "NO EXIST" ++ crlf
get_reply (some value) = value ++ crlf

-- The store, the code and the reply of a write.
answered : {S : Type 0} → Bytes → Run (S × Ret) → Run (S × (Ret × Bytes))
answered other none = none
answered other (some (s, ret)) = some (s, (ret, write_reply other ret))

-- One case of the switch. GET leaves `ret` at 0. A value that is not there is NULL: every set returns -1 for
-- it. A mod may read through it, as kvs_hash_mod does with a key that it finds, and is `none`; the callers'
-- check of the number of fields rules this out.
pub run_op : {S : Type 0} → Engine S → Mem → Op → S → Bytes → Option Bytes → Run (S × (Ret × Bytes))
run_op e mem set_op s key none = answered (codes "EXIST") (some (s, failure))
run_op e mem set_op s key (some value) = answered (codes "EXIST") (e.set_value mem s key value)
run_op e mem get_op s key value = elim (e.get s key) [
  | none ↦ none
  | some result ↦ some (s, (success, get_reply result))
]
run_op e mem del_op s key value = answered (codes "NO EXIST") (e.del s key)
run_op e mem mod_op s key none = none
run_op e mem mod_op s key (some value) = answered (codes "NO EXIST") (e.mod_value mem s key value)
run_op e mem exist_op s key value = elim (e.exist s key) [
  | none ↦ none
  | some ret ↦ some (s, (ret, exist_reply ret))
]

-- `*status`; `none` leaves it as it was.
pub status_of : Op → Ret → Option ExecStatus
status_of op failure = some exec_failed
status_of op no_memory = some exec_failed
status_of set_op success = some exec_ok
status_of set_op not_found = some exec_already_exists
status_of get_op success = none
status_of get_op not_found = none
status_of del_op success = some exec_ok
status_of del_op not_found = some exec_not_found
status_of mod_op success = some exec_ok
status_of mod_op not_found = some exec_not_found
status_of exist_op success = some exec_found
status_of exist_op not_found = some exec_not_found

unfoldable pub is_success : Ret → Bool
is_success success = true
is_success not_found = false
is_success failure = false
is_success no_memory = false

-- Whether a command that has succeeded goes to the AOF.
pub is_logged : CommandSource → PersistenceMode → Bool
is_logged recovery mode = false
is_logged client snapshot_only = false
is_logged client legacy_hybrid = true
is_logged client aof_only = true
is_logged replication snapshot_only = false
is_logged replication legacy_hybrid = true
is_logged replication aof_only = true

pub refuses : Role → CommandSource → Op → Bool
refuses replica client op = is_write_command op
refuses replica recovery op = false
refuses replica replication op = false
refuses standalone source op = false
refuses primary source op = false

abbrev pub readonly_reply : Bytes
readonly_reply = codes "READONLY replica does not accept client writes" ++ crlf

-- The engines and the settings that the executor reads.
pub record Server (R K : Type 0) : Type 0 where
  pub array_store : KvArray
  pub rbtree_store : R
  pub hash_store : KvHash
  pub skiplist_store : K
  pub role : Role
  pub mode : PersistenceMode
  pub writer : Writer

-- How kvs_filter_protocol ends: with the whole reply, which snprintf cuts to the buffer and whose
-- length it returns, and the status; with -1; or with the process gone.
pub data Outcome (R K : Type 0) : Type 0 where
  replied : Server R K → Bytes → Option ExecStatus → Outcome R K
  refused : Server R K → Outcome R K
  exited : Server R K → Outcome R K

abbrev pub outcome_server : {R K : Type 0} → Outcome R K → Server R K
outcome_server (replied sv reply status) = sv
outcome_server (refused sv) = sv
outcome_server (exited sv) = sv

-- kvs_aof_append and the exit if it fails.
pub log_command :
    {R K : Type 0} → Env → Server R K → List Bytes → Bytes → Option ExecStatus → Outcome R K
log_command env sv tokens reply status =
    let (w, done) = append env.fits env.io sv.writer tokens in
    if done
    then replied (record sv { writer = w }) reply status
    else exited (record sv { writer = w })

pub first_of : List Bytes → Option Bytes
first_of [] = none
first_of (v ∷ rest) = some v

module _ {R K : Type 0} (rbtree_engine : Engine R) (skiplist_engine : Engine K) where
  -- The switch over the commands.
  pub dispatch :
      Env → Which → Op → Server R K → Bytes → Option Bytes → Run (Server R K × (Ret × Bytes))
  dispatch env array op sv key value =
      elim (run_op array_engine env.mem op sv.array_store key value) [
        | none ↦ none
        | some (s, r) ↦ some (record sv { array_store = s }, r)
      ]
  dispatch env rbtree op sv key value =
      elim (run_op rbtree_engine env.mem op sv.rbtree_store key value) [
        | none ↦ none
        | some (s, r) ↦ some (record sv { rbtree_store = s }, r)
      ]
  dispatch env hash op sv key value = elim (run_op hash_engine env.mem op sv.hash_store key value) [
    | none ↦ none
    | some (s, r) ↦ some (record sv { hash_store = s }, r)
  ]
  dispatch env skiplist op sv key value =
      elim (run_op skiplist_engine env.mem op sv.skiplist_store key value) [
        | none ↦ none
        | some (s, r) ↦ some (record sv { skiplist_store = s }, r)
      ]

  -- The status, and the AOF if the command is a write that has succeeded.
  pub finish : Env → CommandSource → List Bytes → Op → Server R K → Ret → Bytes → Outcome R K
  finish env source tokens op sv ret reply =
      if is_success ret && (is_write_command op && is_logged source sv.mode)
      then log_command env sv tokens reply (status_of op ret)
      else replied sv reply (status_of op ret)

  -- The command with a known name. A key that is not there is NULL, as a value in `run_op`.
  pub execute_known :
      Env → CommandSource → List Bytes → Which × Op → List Bytes → Server R K → Run (Outcome R K)
  execute_known env source tokens (which, op) [] sv = none
  execute_known env source tokens (which, op) (key ∷ rest) sv =
      elim (dispatch env which op sv key (first_of rest)) [
        | none ↦ none
        | some (sv', (ret, reply)) ↦ some (finish env source tokens op sv' ret reply)
      ]

  pub filter_protocol : Env → CommandSource → List Bytes → Server R K → Run (Outcome R K)
  filter_protocol env source [] sv = some (refused sv)
  filter_protocol env source (name ∷ args) sv = elim (find_command name) [
    | none ↦ some (replied sv (codes "ERROR unknown command" ++ crlf) none)
    | some cmd ↦
        if refuses sv.role source cmd.1
        then some (replied sv readonly_reply none)
        else execute_known env source (name ∷ args) cmd args sv
  ]

  -- The reply has to leave room for a NUL in the buffer of `capacity` bytes.
  pub execute_tokens : Env → CommandSource → List Bytes → ℕ → Server R K → Run (Outcome R K)
  execute_tokens env source tokens capacity sv =
      if length tokens == 0 || capacity == 0
      then some (refused sv)
      else elim (filter_protocol env source tokens sv) [
        | none ↦ none
        | some (replied sv' reply status) ↦
            some (if leb capacity (length reply) then refused sv' else replied sv' reply status)
        | some (refused sv') ↦ some (refused sv')
        | some (exited sv') ↦ some (exited sv')
      ]
