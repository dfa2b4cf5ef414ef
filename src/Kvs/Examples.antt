-- ===== src/Kvs/Examples.antt =====
-- src/kvstore.c: the executor at concrete inputs.
use kvstore.Common.{
  ◌≡◌, refl, arith, str_eq, Bytes, codes, List, [], ◌∷◌, ◌++◌, length, length-replicate, replicate,
  true, false, none, some,
}
use kvstore.Protocol.{
  crlf, write_decimal, write_loop, write_fields, write_field, decimal_digits, digits_loop,
}
use kvstore.Protocol.Encoded.{command_bytes}
use kvstore.Engines.Base.{success, not_found, plenty}
use kvstore.Engines.Assoc.{lookup, occurs}
use kvstore.Engines.Contract.{Wrote}
use kvstore.Engines.Array.{KvArray, Slot}
use kvstore.Engines.Array.Shape.{Holds, IsValid, view, view_lem}
use kvstore.Engines.Array.Laws.{set_code}
use kvstore.Aof.{synced}
use kvstore.Aof.Append.{IsReady}
use kvstore.Kvs.{
  Role, standalone, replica, aof_only, client, exec_ok, Engine, Env, Server, Outcome, replied,
  refuses, is_logged, filter_protocol, execute_tokens, readonly_reply, outcome_server,
  execute_known, first_of, dispatch, run_op, finish, is_success, status_of, get_reply,
}
use kvstore.Kvs.Commands.{set_op, find_command, find_command-set, find_loop, is_write_command}
use kvstore.Kvs.Refusal.{may_write, execute_tokens-unchanged, replica-unchanged}
use kvstore.Kvs.Logged.{AofAfter, filter_protocol-logged}
use kvstore.Engines.Hash.Created.{empty_table, empty_table-Holds}
use kvstore.Engines.Hash.Index.{ascii-IsKey}
use kvstore.Kvs.Promise.{AnyKey, IsTotal}
use kvstore.Kvs.Total.{AreValid, Suits, filter_protocol-ends}
use kvstore.Kvs.Store.{set_tokens, after_set, filter_protocol-set}

-- An engine that stores nothing, for the two that the commands below do not use.
abbrev no_engine : Engine Unit
no_engine = record {
  set_value = λ mem s key value. some (s, not_found);
  get = λ s key. some none;
  del = λ s key. some (s, not_found);
  mod_value = λ mem s key value. some (s, not_found);
  exist = λ s key. some not_found;
}

abbrev a_server : Role → Server Unit Unit
a_server role = record {
  array_store = record { table = some (replicate 1024 none); idx = 0; total = 0 };
  rbtree_store = tt;
  hash_store = record { nodes = none; max_slots = 0; count = 0 };
  skiplist_store = tt;
  role = role;
  mode = aof_only;
  writer = record { opened = true; offset = 0; file = [] };
}

abbrev all_well : Env
all_well = record { mem = plenty; fits = true; io = synced }

abbrev set_a : List Bytes
set_a = set_tokens (codes "a") (codes "x")

set_a-size : length (command_bytes set_a) ≡ 27
unfolding write_decimal write_loop write_fields write_field decimal_digits digits_loop
set_a-size = refl

a_writer-IsReady : IsReady (a_server standalone).writer
a_writer-IsReady = record { opened = refl; end = refl }

abbrev an_array : KvArray
an_array = (a_server standalone).array_store

an_array-Holds : Holds an_array []
an_array-Holds = record {
  spare = replicate 1024 none;
  table = refl;
  total = refl;
  size = omega (arith, length-replicate {A = Slot} 1024 none);
  unique = λ q. unfold occurs in omega arith;
}

an_array-room : set_code plenty (view an_array (codes "a")) 0 ≡ success
an_array-room = rw (view_lem (codes "a") an_array-Holds) (unfold lookup in refl)

taken : refuses standalone client set_op ≡ false
unfolding refuses
taken = refl

uses_aof : is_logged client aof_only ≡ true
unfolding is_logged
uses_aof = refl

set_run :
    (s : KvArray) × (filter_protocol no_engine no_engine all_well client set_a (a_server standalone)
      ≡ some
          (replied (after_set (a_server standalone) set_a s) (codes "OK" ++ crlf) (some exec_ok)))
    × Wrote IsValid view an_array (codes "a") (some (codes "x")) s
set_run =
    filter_protocol-set no_engine no_engine plenty client (codes "a") (codes "x")
      (a_server standalone) taken uses_aof a_writer-IsReady ([], an_array-Holds) an_array-room
      (omega (arith, set_a-size)) (omega (arith, set_a-size))

filter_protocol-set_example :
    (s : KvArray) × (filter_protocol no_engine no_engine all_well client set_a (a_server standalone)
      ≡ some
          (replied (after_set (a_server standalone) set_a s) (codes "OK" ++ crlf) (some exec_ok)))
    × Wrote IsValid view an_array (codes "a") (some (codes "x")) s
filter_protocol-set_example =
    filter_protocol-set no_engine no_engine plenty client (codes "a") (codes "x")
      (a_server standalone) taken uses_aof a_writer-IsReady ([], an_array-Holds) an_array-room
      (omega (arith, set_a-size)) (omega (arith, set_a-size))

-- SET is logged.
filter_protocol-logged_example :
    AofAfter (is_logged client aof_only) (a_server standalone).writer (command_bytes set_a) (
      replied (after_set (a_server standalone) set_a set_run.0) (codes "OK" ++ crlf) (some exec_ok))
filter_protocol-logged_example =
    filter_protocol-logged no_engine no_engine all_well client set_a (a_server standalone)
      (replied (after_set (a_server standalone) set_a set_run.0) (codes "OK" ++ crlf)
        (some exec_ok))
      a_writer-IsReady set_run.1

replica_refuses :
    execute_tokens no_engine no_engine all_well client set_a 64 (a_server replica)
    ≡ some (replied (a_server replica) readonly_reply none)
unfolding execute_tokens filter_protocol refuses is_write_command
replica_refuses = rw (find_command-set, filter_protocol)

replica-unchanged_example :
    outcome_server (replied (a_server replica) readonly_reply none) ≡ a_server replica
replica-unchanged_example =
    replica-unchanged no_engine no_engine all_well set_a 64 (a_server replica)
      (replied (a_server replica) readonly_reply none) refl replica_refuses

abbrev rget_a : List Bytes
rget_a = codes "RGET" ∷ codes "a" ∷ []

rget_may_not_write : may_write standalone client rget_a ≡ false
unfolding find_command find_loop is_write_command str_eq
rget_may_not_write = refl

rget_run :
    execute_tokens no_engine no_engine all_well client rget_a 64 (a_server standalone)
    ≡ some (replied (a_server standalone) (codes "NO EXIST" ++ crlf) none)
unfolding find_command find_loop str_eq execute_tokens filter_protocol refuses execute_known
    first_of dispatch run_op finish is_success is_write_command status_of get_reply
rget_run = refl

execute_tokens-unchanged_example :
    outcome_server (replied (a_server standalone) (codes "NO EXIST" ++ crlf) none)
    ≡ a_server standalone
execute_tokens-unchanged_example =
    execute_tokens-unchanged no_engine no_engine all_well client rget_a 64 (a_server standalone)
      (replied (a_server standalone) (codes "NO EXIST" ++ crlf) none) rget_may_not_write rget_run

no_engine-IsTotal : IsTotal no_engine (λ s. Unit) AnyKey
no_engine-IsTotal = record {
  set_ends = λ mem s k v ok key. ((s, not_found), refl, tt);
  mod_ends = λ mem s k v ok key. ((s, not_found), refl, tt);
  del_ends = λ s k ok key. ((s, not_found), refl, tt);
  get_ends = λ s k ok key. (none, refl);
  exist_ends = λ s k ok key. (not_found, refl);
}

abbrev hash_server : Server Unit Unit
hash_server = record (a_server standalone) { hash_store = empty_table }

hash_server-AreValid : AreValid (λ s. Unit) (λ s. Unit) hash_server
hash_server-AreValid = record {
  array_store = ([], an_array-Holds);
  rbtree_store = tt;
  hash_store = (_, empty_table-Holds);
  skiplist_store = tt;
}

hset-Suits : Suits (find_command (codes "HSET")) (codes "a" ∷ codes "x" ∷ [])
unfolding find_command find_loop str_eq
hset-Suits = (tt, ascii-IsKey (codes "a") (omega arith, tt))

filter_protocol-ends_example :
    (o : Outcome Unit Unit) × (filter_protocol no_engine no_engine all_well client
        (codes "HSET" ∷ codes "a" ∷ codes "x" ∷ [])
        hash_server
      ≡ some o)
    × AreValid (λ s. Unit) (λ s. Unit) (outcome_server o)
filter_protocol-ends_example =
    filter_protocol-ends no_engine no_engine (λ s. Unit) (λ s. Unit) no_engine-IsTotal
      no_engine-IsTotal all_well client (codes "HSET") (codes "a" ∷ codes "x" ∷ []) hash_server
      hash_server-AreValid hset-Suits
