-- ===== src/Snapshot/Load.antt =====
-- src/persistence/snapshot_store.c: the second pass, which restores the records, and a load from a path.
-- What the system answers is an argument.
pub mod Interface
pub mod Restored
pub mod RoundTrip
use kvstore.Common.{
  ℕ, zero, suc, ◌==◌, Bool, true, false, not, if◌then◌else◌, List, [], ◌∷◌, Bytes, Option, none,
  some, length, take, drop, get_or,
}
use kvstore.Engines.Base.{Ret, success, not_found, failure, no_memory, Mem, Run}
use kvstore.Kvs.{Engine, Server, array_engine, hash_engine, is_success}
use kvstore.Snapshot.{
  Checkpoint, SnapshotEngine, in_array, in_rbtree, in_hash, in_skiplist, decode_u32_be, crc_start,
}
use kvstore.Snapshot.Read.{cursor_take, read_header, validate}

-- The answers to the allocations for one record: for the two strings, and the engine's.
pub record RecordEnv : Type 0 where
  pub key_mem : Bool
  pub value_mem : Bool
  pub mem : Mem

-- A field as a string, and the cursor behind it. The first pass has made sure that it has no NUL, and a
-- length of 32 bits leaves room for one.
unfoldable pub read_field : Bool → ℕ → Bytes → Option (Bytes × Bytes)
read_field fits n cursor = elim (cursor_take n cursor) [
  | none ↦ none
  | some p ↦ if fits then some p else none
]

-- The check of a record's engine, and the engine that it names.
unfoldable pub engine_of : ℕ → Option SnapshotEngine
engine_of n =
    if n == 1
    then some in_array
    else if n == 2
    then some in_rbtree
    else if n == 3
    then some in_hash
    else if n == 4
    then some in_skiplist
    else none

-- One case of the insertion: a key that is there is reported by 1, which is `not_found`.
unfoldable pub insert_into : {S : Type 0} → Engine S → Mem → S → Bytes → Bytes → Run (S × Ret)
insert_into e mem s key value = elim (e.get s key) [
  | none ↦ none
  | some (some old) ↦ some (s, not_found)
  | some none ↦ e.set_value mem s key value
]

-- The server with the engine's new state.
unfoldable pub put_back : {S T : Type 0} → (S → T) → Run (S × Ret) → Run (T × Ret)
put_back put none = none
put_back put (some (s, ret)) = some (put s, ret)

-- How opening and mapping the file ends.
pub data Opened : Type 0 where
  missing refused : Opened
  opened : Bytes → Opened

-- The codes of a load: 0, 1 and -1. With 0 it hands the checkpoint out.
pub data LoadResult : Type 0 where
  loaded : Checkpoint → LoadResult
  no_file load_failed : LoadResult

-- The end of a load, `unmapped` being the outcome of closing the mapping.
unfoldable pub load_result : Bool → Checkpoint → Bool → LoadResult
load_result unmapped checkpoint ok =
    if ok then if unmapped then loaded checkpoint else load_failed else load_failed

module _ {R K : Type 0} (rb : Engine R) (sk : Engine K) where
  unfoldable pub insert_record :
      Mem → SnapshotEngine → Server R K → Bytes → Bytes → Run (Server R K × Ret)
  insert_record mem in_array sv key value =
      put_back (λ s. record sv { array_store = s })
        (insert_into array_engine mem sv.array_store key value)
  insert_record mem in_rbtree sv key value =
      put_back (λ s. record sv { rbtree_store = s }) (insert_into rb mem sv.rbtree_store key value)
  insert_record mem in_hash sv key value =
      put_back (λ s. record sv { hash_store = s })
        (insert_into hash_engine mem sv.hash_store key value)
  insert_record mem in_skiplist sv key value =
      put_back (λ s. record sv { skiplist_store = s })
        (insert_into sk mem sv.skiplist_store key value)

  -- The insertion of a record that has been read; `none` for the cursor is the return code -1.
  unfoldable pub insert_read :
      Mem → SnapshotEngine → Server R K → Bytes → Bytes → Bytes → Run (Server R K × Option Bytes)
  insert_read mem engine sv key value cursor = elim (insert_record mem engine sv key value) [
    | none ↦ none
    | some (sv', ret) ↦ some (sv', if is_success ret then some cursor else none)
  ]

  unfoldable pub load_record : RecordEnv → Bytes → Server R K → Run (Server R K × Option Bytes)
  load_record env cursor sv = elim (cursor_take 9 cursor) [
    | none ↦ some (sv, none)
    | some (header, cursor) ↦ elim (engine_of (get_or header 0 0)) [
      | none ↦ some (sv, none)
      | some engine ↦ elim (read_field env.key_mem (decode_u32_be (drop 1 header)) cursor) [
        | none ↦ some (sv, none)
        | some (key, cursor) ↦
            elim (read_field env.value_mem (decode_u32_be (drop 5 header)) cursor) [
              | none ↦ some (sv, none)
              | some (value, cursor) ↦ insert_read env.mem engine sv key value cursor
            ]
      ]
    ]
  ]

  -- The loop; `env` answers by the number of records to go. The `Bool` tells whether all are in.
  unfoldable pub load_records : (ℕ → RecordEnv) → ℕ → Bytes → Server R K → Run (Server R K × Bool)
  load_records env zero cursor sv = some (sv, true)
  load_records env (suc n) cursor sv = elim (load_record (env n) cursor sv) [
    | none ↦ none
    | some (sv', none) ↦ some (sv', false)
    | some (sv', some cursor) ↦ load_records env n cursor sv'
  ]

  -- The two passes over a mapped file.
  unfoldable pub load_mapped :
      (ℕ → RecordEnv) → Bool → Bytes → Server R K → Run (Server R K × LoadResult)
  load_mapped env unmapped bytes sv =
      if not (validate bytes) then some (sv, load_failed) else elim (read_header bytes crc_start) [
        | none ↦ some (sv, load_failed)
        | some h ↦ elim (load_records env h.record_count h.cursor sv) [
          | none ↦ none
          | some (sv', ok) ↦ some (sv', load_result unmapped h.checkpoint ok)
        ]
      ]

  -- kvs_snapshot_store_load_with_checkpoint; a path of NULL is the empty one here.
  unfoldable pub load_with_checkpoint :
      (ℕ → RecordEnv) → Opened → Bool → Bytes → Server R K → Run (Server R K × LoadResult)
  load_with_checkpoint env file unmapped path sv =
      if length path == 0 then some (sv, load_failed) else elim file [
        | missing ↦ some (sv, no_file)
        | refused ↦ some (sv, load_failed)
        | opened bytes ↦ load_mapped env unmapped bytes sv
      ]
