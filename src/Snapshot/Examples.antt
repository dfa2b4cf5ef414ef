-- ===== src/Snapshot/Examples.antt =====
-- src/persistence/snapshot_store.c: a server with one key, saved and loaded.
use kvstore.Common.{
  ℕ, ◌≡◌, refl, sym, ap, subst, arith, Bool, true, false, List, [], ◌∷◌, Bytes, codes, none, some,
  length, replicate, length-replicate, inr, ◌∙◌,
}
use kvstore.Engines.Base.{plenty}
use kvstore.Engines.Assoc.{lookup, occurs}
use kvstore.Engines.Array.{Slot}
use kvstore.Engines.Array.Shape
use kvstore.Engines.Hash.Table
use kvstore.Engines.Hash.Table.{IsKey}
use kvstore.Engines.Hash.Created.{empty_table, empty_table-Holds, empty_table-view}
use kvstore.Engines.Hash.Visit.{table_entries}
use kvstore.Kvs.{Server}
use kvstore.Snapshot.{Checkpoint, in_array, encode_u32_be, encode_u64_be}
use kvstore.Snapshot.Save.Format.{
  Record, snapshot_bytes, covered, header_bytes, records_bytes, record_bytes, tagged,
}
use kvstore.Snapshot.Save.Taken.{IsCheckpoint}
use kvstore.Snapshot.Save.Complete.{HasEntries, all_records}
use kvstore.Snapshot.Files.{SaveEnv, Disk, save_with_checkpoint, open_parent_directory}
use kvstore.Snapshot.Files.Atomic.{
  Replaced, IsWell, save_with_checkpoint-Replaced, save_with_checkpoint-done,
}
use kvstore.Snapshot.Read.{validate}
use kvstore.Snapshot.Read.Headers.{stored}
use kvstore.Snapshot.Read.Records.{AllRecords}
use kvstore.Snapshot.Read.Accepts.{validate-snapshot_bytes}
use kvstore.Snapshot.Load.{RecordEnv, opened, loaded, load_with_checkpoint}
use kvstore.Snapshot.Load.Restored.{IsGenerous, AllFit}
use kvstore.Snapshot.Load.RoundTrip.{IsFresh}
use kvstore.Snapshot.SaveLoad.{Stores, stored-HasEntries, load-save}
use kvstore.Snapshot.Samples.{
  no_engine, no_iteration, NoKey, AnyRoom, no_view, no_engine-Restores, no_iteration-Visits,
  one_entry, an_array, an_array-Holds, a_server, no_chains, no_entries, a-IsField, xy-IsField,
}

a_server-Stores :
    Stores no_iteration no_iteration no_engine no_engine AnyRoom NoKey no_view no_engine-Restores
      AnyRoom NoKey no_view no_engine-Restores a_server one_entry [] no_chains []
unfolding AllFit lookup occurs tagged
a_server-Stores = record {
  in_the_array = an_array-Holds;
  in_the_hash = empty_table-Holds;
  in_the_tree = no_iteration-Visits;
  in_the_skiplist = no_iteration-Visits;
  tree_reads = λ q. refl;
  skiplist_reads = λ q. refl;
  unique = (λ q. omega arith, λ q. omega arith);
  fit = (
    (a-IsField, xy-IsField, tt, tt),
    tt,
    subst (λ x. AllFit IsKey x) (sym (no_entries 1024)) tt,
    tt,
  );
  few = omega (arith, ap (λ x. length (all_records one_entry [] x [])) (no_entries 1024));
}

abbrev at_27 : Checkpoint
at_27 = record { has_offset = 1; offset = 27 }

at_27-IsCheckpoint : IsCheckpoint at_27
at_27-IsCheckpoint = inr (refl, omega arith)

a_server-HasEntries :
    HasEntries no_iteration no_iteration a_server one_entry [] (table_entries no_chains) []
a_server-HasEntries =
    stored-HasEntries no_iteration no_iteration no_engine no_engine AnyRoom NoKey no_view
      no_engine-Restores AnyRoom NoKey no_view no_engine-Restores a_server one_entry [] no_chains []
      a_server-Stores

abbrev a_file : Bytes
a_file = snapshot_bytes at_27 (all_records one_entry [] (table_entries no_chains) [])

-- A save where all goes well, and one whose rename fails.
abbrev all_well : SaveEnv
all_well = record {
  path_mem = true;
  directory_mem = true;
  opens = λ d. true;
  made = true;
  buffer_mem = true;
  queue = true;
  writes = λ o. true;
  synced = true;
  closed = true;
  renamed = true;
  directory_synced = true;
  directory_closed = true;
  removed = true;
}

abbrev not_renamed : SaveEnv
not_renamed = record all_well { renamed = false }

save_with_checkpoint-Replaced_example :
    (r : Disk × Bool) × (save_with_checkpoint no_iteration no_iteration not_renamed a_server
        (codes "s")
        (some at_27)
        none
      ≡ some r)
    × Replaced true none a_file r
save_with_checkpoint-Replaced_example =
    save_with_checkpoint-Replaced no_iteration no_iteration not_renamed a_server one_entry []
      (table_entries no_chains) [] a_server-HasEntries (codes "s") (some at_27) none
      at_27-IsCheckpoint

all_well-IsWell : IsWell all_well (codes "s")
all_well-IsWell = record {
  path_mem = refl;
  opened = unfold open_parent_directory in refl;
  made = refl;
  buffer_mem = refl;
  queue = refl;
  writes = λ o. refl;
  synced = refl;
  closed = refl;
  renamed = refl;
  directory_synced = refl;
  directory_closed = refl;
  removed = refl;
}

a_file-size :
    (n : ℕ)
    → length (snapshot_bytes at_27 (all_records one_entry [] (table_entries (replicate n [])) []))
      ≡ 48
unfolding snapshot_bytes covered header_bytes records_bytes record_bytes tagged encode_u32_be
    encode_u64_be
a_file-size n = rw (no_entries n) refl

save_with_checkpoint-done_example :
    save_with_checkpoint no_iteration no_iteration all_well a_server (codes "s") (some at_27) none
    ≡ some (record { target = some a_file; temporary = false }, true)
save_with_checkpoint-done_example =
    save_with_checkpoint-done no_iteration no_iteration all_well a_server one_entry []
      (table_entries no_chains) [] a_server-HasEntries (codes "s") (some at_27) none
      at_27-IsCheckpoint all_well-IsWell refl refl (omega (arith, a_file-size 1024))

saved :
    save_with_checkpoint no_iteration no_iteration all_well a_server (codes "s") (some at_27) none
    ≡ some (record { target = some a_file; temporary = false }, true)
saved =
    save_with_checkpoint-done no_iteration no_iteration all_well a_server one_entry []
      (table_entries no_chains) [] a_server-HasEntries (codes "s") (some at_27) none
      at_27-IsCheckpoint all_well-IsWell refl refl (omega (arith, a_file-size 1024))

abbrev one_record : List Record
one_record = (in_array, (codes "a", codes "xy")) ∷ []

validate-snapshot_bytes_example : validate (snapshot_bytes at_27 one_record) ≡ true
validate-snapshot_bytes_example =
    validate-snapshot_bytes at_27 one_record at_27-IsCheckpoint
      (unfold AllRecords in ((a-IsField, xy-IsField), tt)) (omega arith)

abbrev an_empty_server : Server (Unit {0}) (Unit {0})
an_empty_server = record a_server {
  array_store = record { table = some (replicate 1024 none); idx = 0; total = 0 };
}

no_keys-Holds : Shape.Holds an_empty_server.array_store []
no_keys-Holds = record {
  spare = replicate 1024 none;
  table = refl;
  total = refl;
  size = omega (arith, length-replicate {A = Slot} 1024 none);
  unique = λ q. unfold occurs in omega arith;
}

an_empty_server-IsFresh :
    IsFresh no_engine no_engine AnyRoom NoKey no_view no_engine-Restores AnyRoom NoKey no_view
      no_engine-Restores one_entry []
      (table_entries no_chains)
      []
      an_empty_server
an_empty_server-IsFresh = record {
  array_empty = (
    (([], no_keys-Holds), omega arith),
    λ q. Shape.view_lem q no_keys-Holds ∙ unfold lookup in refl,
  );
  tree_empty = (tt, λ q. refl);
  hash_empty = ((no_chains, empty_table-Holds), empty_table-view);
  skiplist_empty = (tt, λ q. refl);
}

abbrev generous : RecordEnv
generous = record { key_mem = true; value_mem = true; mem = plenty }

generous-IsGenerous : (i : ℕ) → IsGenerous generous
generous-IsGenerous i = record { key_mem = refl; value_mem = refl; mem = λ i. refl }

load-save_example :
    (file : Bytes) × (some a_file ≡ some file)
    × ((sv' : Server (Unit {0}) (Unit {0})) × (load_with_checkpoint no_engine no_engine
            (λ i. generous)
            (opened file)
            true
            (codes "s")
            an_empty_server
          ≡ some (sv', loaded (stored at_27)))
        × ((q : Bytes) → Shape.view sv'.array_store q ≡ Shape.view an_array q)
        × ((q : Bytes) → no_view sv'.rbtree_store q ≡ none)
        × ((q : Bytes) → Table.view sv'.hash_store q ≡ Table.view empty_table q)
        × ((q : Bytes) → no_view sv'.skiplist_store q ≡ none))
load-save_example =
    load-save no_iteration no_iteration no_engine no_engine AnyRoom NoKey no_view no_engine-Restores
      AnyRoom NoKey no_view no_engine-Restores all_well a_server one_entry [] no_chains []
      (codes "s") (some at_27) none (record { target = some a_file; temporary = false })
      a_server-Stores at_27-IsCheckpoint saved (λ i. generous) an_empty_server generous-IsGenerous
      refl an_empty_server-IsFresh
