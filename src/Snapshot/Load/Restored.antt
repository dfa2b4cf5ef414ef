-- ===== src/Snapshot/Load/Restored.antt =====
-- src/persistence/snapshot_store.c: the records of one engine put back, and the rest of the file left.
use kvstore.Common.{
  ℕ, suc, ◌+◌, ◌≤◌, ◌≡◌, ◌∙◌, refl, ap, arith, Bool, true, List, [], ◌∷◌, ◌++◌, Bytes, Option, none,
  some, length, append_assoc, str_eq_iff, str_eq_refl,
}
use kvstore.Engines.Base.{Mem}
use kvstore.Engines.Assoc.{Entry, lookup, occurs, update, first_of_two, IsUnique, lookup_absent}
use kvstore.Kvs.{Engine, Server, is_success}
use kvstore.Snapshot.{SnapshotEngine, in_array, in_rbtree, in_hash, in_skiplist, engine_number}
use kvstore.Snapshot.Save.Format.{record_bytes, records_bytes, tagged}
use kvstore.Snapshot.Read.Headers.{taken}
use kvstore.Snapshot.Read.Records.{
  IsField, record_header, record_size, record_engine, record_key_length, record_value_length,
  record_split,
}
use kvstore.Snapshot.Load.{
  RecordEnv, read_field, engine_of, insert_into, put_back, insert_record, insert_read, load_record,
  load_records,
}
use kvstore.Snapshot.Load.Interface.{IsGranting, Restores, insert_into_lem}

-- Every allocation for the record is granted.
pub record IsGenerous (env : RecordEnv) : Type 0 where
  pub key_mem : env.key_mem ≡ true
  pub value_mem : env.value_mem ≡ true
  pub mem : IsGranting env.mem

-- The entries fit the format, and their keys the engine.
unfoldable pub AllFit : (Bytes → Type 0) → List Entry → Type 0
AllFit IsKey [] = Unit
AllFit IsKey ((k, v) ∷ es) = IsField k × IsField v × IsKey k × AllFit IsKey es

engine_of_lem : (engine : SnapshotEngine) → engine_of (engine_number engine) ≡ some engine
unfolding engine_of engine_number
engine_of_lem in_array = refl
engine_of_lem in_rbtree = refl
engine_of_lem in_hash = refl
engine_of_lem in_skiplist = refl

read_field_lem :
    (field rest : Bytes) (fits : Bool)
    → fits ≡ true
    → read_field fits (length field) (field ++ rest) ≡ some (field, rest)
unfolding read_field
read_field_lem field rest fits e = rw (taken (length field) field rest refl, read_field, e) refl

module _ {R K : Type 0} (rb : Engine R) (sk : Engine K) where
  load_record_lem :
      (env : RecordEnv) (engine : SnapshotEngine) (key value rest : Bytes) (sv : Server R K)
      → IsGenerous env
      → IsField key
      → IsField value
      → load_record rb sk env (record_bytes (engine, (key, value)) ++ rest) sv
        ≡ insert_read rb sk env.mem engine sv key value rest
  unfolding load_record
  load_record_lem env engine key value rest sv g hk hv =
      let h = record_header (engine, (key, value)) in
      ap (λ x. load_record rb sk env x sv) (record_split engine key value rest)
      ∙ rw
          (
            taken 9 h (key ++ (value ++ rest)) (record_size engine key value),
            load_record,
            record_engine engine key value,
            engine_of_lem engine,
            record_key_length engine key value hk.short,
            read_field_lem key (value ++ rest) env.key_mem g.key_mem,
            record_value_length engine key value hv.short,
            read_field_lem value rest env.value_mem g.value_mem,
          )
          refl

  -- The records of one engine whose state is `s`, `put` giving the server with a state of it.
  module _ {S : Type 0} (e : Engine S) (IsReady : ℕ → S → Type 0) (IsKey : Bytes → Type 0)
      (view : S → Bytes → Option Bytes) (restores : Restores e IsReady IsKey view)
      (engine : SnapshotEngine) (put : S → Server R K)
      (law : (mem : Mem) (s : S) (k v : Bytes)
        → insert_record rb sk mem engine (put s) k v ≡ put_back put (insert_into e mem s k v)) where
    inserted :
        (n : ℕ) (mem : Mem) (s : S) (k v rest : Bytes)
        → IsGranting mem
        → IsReady (suc n) s
        → IsKey k
        → view s k ≡ none
        → (t : S) × (insert_read rb sk mem engine (put s) k v rest ≡ some (put t, some rest))
          × IsReady n t
          × ((q : Bytes) → view t q ≡ update (view s) k (some v) q)
    unfolding insert_read put_back is_success
    inserted n mem s k v rest g ready key new =
        let (t, run, more, reads) =
          insert_into_lem e IsReady IsKey view restores n s k v mem g ready key new in
        (t, rw (law mem s k v, insert_read, run) refl, more, reads)

    -- The engine takes all the entries, which are not in it yet.
    pub part_restored :
        (env : ℕ → RecordEnv) (es : List Entry) (m : ℕ) (s : S) (rest : Bytes)
        → ((i : ℕ) → IsGenerous (env i))
        → AllFit IsKey es
        → IsUnique es
        → ((q : Bytes) → 1 ≤ occurs q es → view s q ≡ none)
        → IsReady (length es) s
        → (t : S) × (load_records rb sk env
              (length es + m)
              (records_bytes (tagged engine es) ++ rest)
              (put s)
            ≡ load_records rb sk env m rest (put t))
          × ((q : Bytes) → view t q ≡ first_of_two (lookup q es) (view s q))
    unfolding load_records records_bytes tagged AllFit lookup occurs
    part_restored env [] m s rest g fit one new ready =
        let none_more : 0 + m ≡ m = omega arith in
        (s, ap (λ n. load_records rb sk env n rest (put s)) none_more, λ q. refl)
    part_restored env ((k, v) ∷ es) m s rest g fit one new ready =
        let (s', run, more, reads) =
          inserted (length es) (env (length es + m)).mem s k v
            (records_bytes (tagged engine es) ++ rest) (g (length es + m)).mem ready fit.2
            (new k (ground (arith, str_eq_refl k))) in
        let (t, all, views) =
          part_restored env es m s' rest g fit.3 (λ q. ground (arith, one q))
            (λ q h. reads q ∙ ground (arith, h, one q, new q, str_eq_iff k q)) more in
        let next : suc (length es) + m ≡ suc (length es + m) = omega arith in
        (
          t,
          rw
              (
                next,
                append_assoc (record_bytes (engine, (k, v))) (records_bytes (tagged engine es))
                    rest,
                load_records,
                load_record_lem (env (length es + m)) engine k v
                    (records_bytes (tagged engine es) ++ rest) (put s) (g (length es + m)) fit.0
                    fit.1,
                run,
              )
              all,
          λ q. views q ∙ ground (arith, reads q, one q, lookup_absent q es),
        )
