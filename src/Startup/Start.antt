-- ===== src/Startup/Start.antt =====
-- src/kvstore.c: the part of kvs_server_run that creates the engines and recovers their data, up to the
-- start of the replication and of the network.
pub mod Restart
use kvstore.Common.{
  ℕ, ◌==◌, Bool, true, false, not, if◌then◌else◌, Bytes, codes, Option, none, some,
}
use kvstore.Engines.Base.{Run}
use kvstore.Aof.{Writer, Mapping, open_writer, replay}
use kvstore.Kvs.{
  Role, standalone, primary, replica, PersistenceMode, legacy_hybrid, snapshot_only, aof_only,
  Engine, Server,
}
use kvstore.Kvs.Fields.{Call}
use kvstore.Kvs.Recovery.Rebuild.{recover}
use kvstore.Snapshot.{Checkpoint}
use kvstore.Snapshot.Load.{
  RecordEnv, Opened, LoadResult, loaded, no_file, load_failed, load_with_checkpoint,
}
use kvstore.Startup.{Lifecycle, CreateEnv, init_kvengine, dest_kvengine}

-- What a start finds and is answered: the snapshot file of the mode, the AOF as it is mapped and as it is
-- opened for writing, and the outcomes of the calls.
pub record StartEnv : Type 0 where
  pub create : CreateEnv
  pub snapshot : Opened
  pub unmapped : Bool
  pub load_env : ℕ → RecordEnv
  pub aof : Mapping
  pub aof_unmapped : Bool
  pub call : Call
  pub granted : Bool
  pub aof_bytes : Bytes

-- The server goes on, or the process ends with a failure.
pub data Start (R K : Type 0) : Type 0 where
  started not_started : Server R K → Start R K

module _ {R K : Type 0} (rb_life : Lifecycle R) (sk_life : Lifecycle K) (rb : Engine R)
    (sk : Engine K) where
  unfoldable pub fail_start : Server R K → Start R K
  fail_start sv = not_started (dest_kvengine rb_life sk_life sv)

  -- kvs_aof_open
  unfoldable pub start_aof : StartEnv → Server R K → Start R K
  start_aof env sv = elim (open_writer env.granted sv.writer env.aof_bytes) [
    | none ↦ fail_start sv
    | some w ↦ started (record sv { writer = w })
  ]

  -- The replay from an offset, and the opening of the AOF behind it. A replay in which the process has ended
  -- or has met undefined behaviour has no result.
  unfoldable pub after_replay : StartEnv → Option (Server R K) × Bool → Run (Start R K)
  after_replay env (none, ok) = none
  after_replay env (some sv, ok) = if ok then some (start_aof env sv) else some (fail_start sv)

  unfoldable pub start_replay : StartEnv → ℕ → Server R K → Run (Start R K)
  start_replay env offset sv =
      after_replay env
        (replay env.aof_unmapped (recover rb sk env.call.env.mem env.call) (some sv) env.aof offset)

  unfoldable pub start_snapshot : Run (Server R K × LoadResult) → Run (Start R K)
  start_snapshot none = none
  start_snapshot (some (sv, load_failed)) = some (fail_start sv)
  start_snapshot (some (sv, no_file)) = some (started sv)
  start_snapshot (some (sv, loaded cp)) = some (started sv)

  -- A snapshot in this mode must tell the offset from which the AOF goes on.
  unfoldable pub start_hybrid : StartEnv → Run (Server R K × LoadResult) → Run (Start R K)
  start_hybrid env none = none
  start_hybrid env (some (sv, load_failed)) = some (fail_start sv)
  start_hybrid env (some (sv, no_file)) = start_replay env 0 sv
  start_hybrid env (some (sv, loaded cp)) =
      let rest = start_replay env cp.offset sv in
      if cp.has_offset == 0 then some (fail_start sv) else rest

  unfoldable pub start_mode : StartEnv → PersistenceMode → Server R K → Run (Start R K)
  start_mode env snapshot_only sv =
      start_snapshot (
        load_with_checkpoint rb sk env.load_env env.snapshot env.unmapped (codes "snapshot.bin") sv)
  start_mode env aof_only sv = start_replay env 0 sv
  start_mode env legacy_hybrid sv =
      start_hybrid env
        (load_with_checkpoint rb sk env.load_env env.snapshot env.unmapped (codes "snapshot.db") sv)

  unfoldable pub start_role : StartEnv → Role → PersistenceMode → Server R K → Run (Start R K)
  start_role env replica mode sv = some (start_aof env sv)
  start_role env primary mode sv = start_mode env mode sv
  start_role env standalone mode sv = start_mode env mode sv

  unfoldable pub start_up : StartEnv → Role → PersistenceMode → Server R K → Run (Start R K)
  start_up env role mode sv =
      let p = init_kvengine rb_life sk_life env.create (record sv { role = role; mode = mode }) in
      if p.1 then start_role env role mode p.0 else some (not_started p.0)
