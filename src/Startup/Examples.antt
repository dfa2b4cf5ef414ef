-- ===== src/Startup/Examples.antt =====
-- src/kvstore.c: a replica with one key that installs a snapshot with another.
use kvstore.Common.{
  ℕ, ◌≡◌, refl, arith, true, false, [], Bytes, codes, none, some, length, replicate,
  length-replicate, inr,
}
use kvstore.Engines.Base.{success, plenty}
use kvstore.Engines.Assoc.{occurs}
use kvstore.Engines.Array
use kvstore.Engines.Array.{Slot}
use kvstore.Engines.Hash
use kvstore.Aof.{reset_to_offset, mapped, synced}
use kvstore.Kvs.{primary, legacy_hybrid, Server, is_success}
use kvstore.Snapshot.{Checkpoint}
use kvstore.Snapshot.Save.Format.{snapshot_bytes, tagged}
use kvstore.Snapshot.Save.Taken.{IsCheckpoint}
use kvstore.Snapshot.Save.Complete.{all_records}
use kvstore.Snapshot.Load.{RecordEnv, opened, load_with_checkpoint}
use kvstore.Snapshot.Load.Restored.{IsGenerous, AllFit}
use kvstore.Snapshot.Samples.{
  no_engine, NoKey, AnyRoom, no_view, no_engine-Restores, one_entry, a_server, an_array-Holds,
  a-IsField, xy-IsField,
}
use kvstore.Startup.{
  Lifecycle, CreateEnv, installed, init_kvengine, dest_kvengine, install_replication_snapshot,
}
use kvstore.Startup.Start.{StartEnv, started, start_up}
use kvstore.Startup.Start.Restart.{IsAfterSave, writer_at_end, start_up-ReadsSaved}
use kvstore.Startup.Fresh.{Begins}
use kvstore.Startup.Install.{
  ReadsSaved, Saved, Ends, install_replication_snapshot-ReadsSaved,
  install_replication_snapshot-Ends,
}

abbrev a_life : Lifecycle (Unit {0})
a_life = record { zeroed = tt; create = λ mem s. (s, success); destroy = λ s. s }

a_life-Begins : Begins a_life AnyRoom no_view
a_life-Begins = record { created = λ mem es ok. (tt, λ q. refl) }

abbrev some_memory : CreateEnv
some_memory = record {
  array_mem = plenty;
  junk = replicate 1024 none;
  rbtree_mem = plenty;
  hash_mem = plenty;
  skiplist_mem = plenty;
}

some_memory-size : length some_memory.junk ≡ 1024
some_memory-size = length-replicate {A = Slot} 1024 none

engines_created :
    (init_kvengine a_life a_life some_memory (dest_kvengine a_life a_life a_server)).1 ≡ true
unfolding init_kvengine Array.create Hash.create is_success
engines_created = refl

abbrev at_27 : Checkpoint
at_27 = record { has_offset = 1; offset = 27 }

at_27-IsCheckpoint : IsCheckpoint at_27
at_27-IsCheckpoint = inr (refl, omega arith)

abbrev generous : RecordEnv
generous = record { key_mem = true; value_mem = true; mem = plenty }

generous-IsGenerous : (i : ℕ) → IsGenerous generous
generous-IsGenerous i = record { key_mem = refl; value_mem = refl; mem = λ i. refl }

one_entry-Saved :
    Saved no_engine no_engine AnyRoom NoKey no_view no_engine-Restores AnyRoom NoKey no_view
      no_engine-Restores one_entry [] [] [] a_life a_life a_life-Begins a_life-Begins
unfolding AllFit occurs tagged
one_entry-Saved = record {
  in_the_array = record { unique = an_array-Holds.unique; fit = (a-IsField, xy-IsField, tt, tt) };
  in_the_tree = record { unique = λ q. omega arith; fit = tt };
  in_the_hash = record { unique = λ q. omega arith; fit = tt };
  in_the_skiplist = record { unique = λ q. omega arith; fit = tt };
  few = omega arith;
}

aof_reset : (reset_to_offset true true a_server.writer 27).1 ≡ true
unfolding reset_to_offset
aof_reset = refl

install_replication_snapshot-ReadsSaved_example :
    (sv' : Server (Unit {0}) (Unit {0})) × (install_replication_snapshot a_life a_life no_engine
        no_engine some_memory some_memory
        (λ i. generous)
        (opened (snapshot_bytes at_27 (all_records one_entry [] [] [])))
        true
        true
        true
        (codes "s")
        27
        a_server
      ≡ some (installed sv'))
    × ReadsSaved no_engine no_engine AnyRoom NoKey no_view no_engine-Restores AnyRoom NoKey no_view
        no_engine-Restores one_entry [] [] [] a_life a_life a_life-Begins a_life-Begins sv'
    × (sv'.writer ≡ (reset_to_offset true true a_server.writer 27).0)
install_replication_snapshot-ReadsSaved_example =
    install_replication_snapshot-ReadsSaved no_engine no_engine AnyRoom NoKey no_view
      no_engine-Restores AnyRoom NoKey no_view no_engine-Restores one_entry [] [] [] a_life a_life
      a_life-Begins a_life-Begins some_memory some_memory (λ i. generous) true true (codes "s")
      at_27 a_server some_memory-size (omega arith) engines_created generous-IsGenerous
      at_27-IsCheckpoint refl refl one_entry-Saved aof_reset

-- The same with a file that is no snapshot.
install_replication_snapshot-Ends_example :
    Ends no_engine no_engine AnyRoom NoKey no_view no_engine-Restores AnyRoom NoKey no_view
      no_engine-Restores one_entry [] [] [] a_life a_life a_life-Begins a_life-Begins
      (load_with_checkpoint no_engine no_engine
        (λ i. generous)
        (opened (codes "91KVSNOT"))
        true
        (codes "s")
        (init_kvengine a_life a_life some_memory (dest_kvengine a_life a_life a_server)).0)
      27
      (install_replication_snapshot a_life a_life no_engine no_engine some_memory some_memory
        (λ i. generous)
        (opened (codes "91KVSNOT"))
        true
        true
        true
        (codes "s")
        27
        a_server)
install_replication_snapshot-Ends_example =
    install_replication_snapshot-Ends no_engine no_engine AnyRoom NoKey no_view no_engine-Restores
      AnyRoom NoKey no_view no_engine-Restores one_entry [] [] [] a_life a_life a_life-Begins
      a_life-Begins some_memory some_memory (λ i. generous) (opened (codes "91KVSNOT")) true true
      true (codes "s") 27 a_server some_memory-size (omega arith) refl

-- A primary that starts again after a SAVE at offset 27.
abbrev an_aof : Bytes
an_aof = replicate 27 42

abbrev a_start : StartEnv
a_start = record {
  create = some_memory;
  snapshot = opened (snapshot_bytes at_27 (all_records one_entry [] [] []));
  unmapped = true;
  load_env = λ i. generous;
  aof = mapped an_aof;
  aof_unmapped = true;
  call = record {
    env = record { mem = plenty; fits = true; io = synced };
    token_mem = plenty;
    grows = true;
    stored = true;
    online = true;
  };
  granted = true;
  aof_bytes = an_aof;
}

abbrev stopped : Server (Unit {0}) (Unit {0})
stopped = record a_server { writer = record { opened = false; offset = 0; file = [] } }

a_start-IsAfterSave : IsAfterSave a_start at_27
a_start-IsAfterSave = record {
  has_offset = refl;
  ends = refl;
  aof = refl;
  aof_unmapped = refl;
  unmapped = refl;
  granted = refl;
  generous = generous-IsGenerous;
  junk = some_memory-size;
}

engines_started :
    (init_kvengine a_life a_life some_memory
      (record stopped { role = primary; mode = legacy_hybrid })).1
    ≡ true
unfolding init_kvengine Array.create Hash.create is_success
engines_started = refl

start_up-ReadsSaved_example :
    (sv' : Server (Unit {0}) (Unit {0})) × (start_up a_life a_life no_engine no_engine a_start
        primary legacy_hybrid stopped
      ≡ some (started sv'))
    × ReadsSaved no_engine no_engine AnyRoom NoKey no_view no_engine-Restores AnyRoom NoKey no_view
        no_engine-Restores one_entry [] [] [] a_life a_life a_life-Begins a_life-Begins sv'
    × (sv'.writer ≡ writer_at_end an_aof)
start_up-ReadsSaved_example =
    start_up-ReadsSaved no_engine no_engine AnyRoom NoKey no_view no_engine-Restores AnyRoom NoKey
      no_view no_engine-Restores one_entry [] [] [] a_life a_life a_life-Begins a_life-Begins
      a_start primary at_27 stopped (λ e. cc) refl refl at_27-IsCheckpoint a_start-IsAfterSave
      (omega arith) one_entry-Saved engines_started
