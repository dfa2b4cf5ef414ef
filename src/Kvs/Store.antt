-- ===== src/Kvs/Store.antt =====
-- src/kvstore.c: SET on the array engine, from the tokens to the AOF.
use kvstore.Common.{
  ◌+◌, ◌≤◌, ◌≡◌, ap, ◌∙◌, arith, true, false, List, [], ◌∷◌, ◌++◌, Bytes, codes, some, length,
}
use kvstore.Protocol.{crlf, size_max}
use kvstore.Protocol.Encoded.{command_bytes}
use kvstore.Engines.Base.{Ret, success, not_found, failure, no_memory, Mem}
use kvstore.Engines.Contract.{Wrote, After}
use kvstore.Engines.Array.{KvArray, set_value}
use kvstore.Engines.Array.Shape.{IsValid, view}
use kvstore.Engines.Array.Laws.{set_code, array_set_value_lem}
use kvstore.Aof.{synced, offset_max}
use kvstore.Aof.Append.{IsReady, append-accepts}
use kvstore.Kvs.{
  CommandSource, exec_ok, Engine, Env, Server, replied, run_op, array_engine, is_success, is_logged,
  log_command, dispatch, finish, execute_known, filter_protocol, refuses, status_of, answered,
  write_reply, first_of,
}
use kvstore.Kvs.Commands.{find_command-set, set_op, array, is_write_command}

abbrev pub set_tokens : Bytes → Bytes → List Bytes
set_tokens k v = codes "SET" ∷ k ∷ v ∷ []

-- The server after the command, with `s` for the array.
abbrev pub after_set : {R K : Type 0} → Server R K → List Bytes → KvArray → Server R K
after_set sv tokens s = record sv {
  array_store = s;
  writer = record sv.writer {
    offset = sv.writer.offset + length (command_bytes tokens);
    file = sv.writer.file ++ command_bytes tokens;
  };
}

module _ {R K : Type 0} (rb : Engine R) (sk : Engine K) (mem : Mem) where
  set_dispatched :
      (k v : Bytes) (sv : Server R K) (s : KvArray)
      → set_value mem sv.array_store k v ≡ some (s, success)
      → dispatch rb sk (record { mem = mem; fits = true; io = synced }) array set_op sv k (some v)
        ≡ some (record sv { array_store = s }, (success, codes "OK" ++ crlf))
  unfolding dispatch run_op array_engine answered write_reply
  set_dispatched k v sv s run = rw (run, dispatch, run_op, answered)

  set_finished :
      (source : CommandSource) (tokens : List Bytes) (sv : Server R K) (reply : Bytes)
      → is_logged source sv.mode ≡ true
      → IsReady sv.writer
      → 2 ≤ length tokens
      → length tokens ≤ 3
      → length (command_bytes tokens) ≤ size_max
      → sv.writer.offset + length (command_bytes tokens) ≤ offset_max
      → finish rb sk
          (record { mem = mem; fits = true; io = synced })
          source
          tokens
          set_op
          sv
          success
          reply
        ≡ replied (after_set sv tokens sv.array_store) reply (some exec_ok)
  unfolding finish is_success is_write_command status_of log_command
  set_finished source tokens sv reply logged ready two three small near =
      rw (logged, finish, log_command, append-accepts sv.writer tokens ready two three small near)

  -- When the role takes the command from its source, the source and the mode use the AOF, whose writer
  -- is open and at the end, the allocations succeed, the array has the key or a free slot, and the
  -- encoding fits: SET of a key and a value replies OK with the status OK, the array's map has changed
  -- at the key alone, the AOF has the whole command behind what it had, and all else is as it was.
  pub filter_protocol-set :
      (source : CommandSource) (k v : Bytes) (sv : Server R K)
      → refuses sv.role source set_op ≡ false
      → is_logged source sv.mode ≡ true
      → IsReady sv.writer
      → IsValid sv.array_store
      → set_code mem (view sv.array_store k) sv.array_store.total ≡ success
      → length (command_bytes (set_tokens k v)) ≤ size_max
      → sv.writer.offset + length (command_bytes (set_tokens k v)) ≤ offset_max
      → (s : KvArray) × (filter_protocol rb sk
            (record { mem = mem; fits = true; io = synced })
            source
            (set_tokens k v)
            sv
          ≡ some (replied (after_set sv (set_tokens k v) s) (codes "OK" ++ crlf) (some exec_ok)))
        × Wrote IsValid view sv.array_store k (some v) s
  unfolding filter_protocol execute_known first_of
  filter_protocol-set source k v sv role logged ready valid code small near =
      let (r, run, ret, after) = array_set_value_lem mem k v valid in
      decide r run (ret ∙ code) after
    where
      env : Env
      env = record { mem = mem; fits = true; io = synced }

      decide :
          (r : KvArray × Ret)
          → set_value mem sv.array_store k v ≡ some r
          → r.1 ≡ success
          → After IsValid view sv.array_store k (some v) r
          → (s : KvArray) × (filter_protocol rb sk env source (set_tokens k v) sv
              ≡ some
                  (replied (after_set sv (set_tokens k v) s) (codes "OK" ++ crlf) (some exec_ok)))
            × Wrote IsValid view sv.array_store k (some v) s
      decide (s, not_found) run e w = absurd (cc)
      decide (s, failure) run e w = absurd (cc)
      decide (s, no_memory) run e w = absurd (cc)
      decide (s, success) run e w = (
        s,
        rw (find_command-set, filter_protocol, role, execute_known, set_dispatched k v sv s run)
            (ap some (
              set_finished source (set_tokens k v) (record sv { array_store = s })
                (codes "OK" ++ crlf) logged ready (omega arith) (omega arith) small near)),
        w,
      )
