-- ===== src/Snapshot/Load/RoundTrip.antt =====
-- src/persistence/snapshot_store.c: a load of what a save has written.
use kvstore.Common.{
  ℕ, ◌+◌, ◌≤◌, ◌≡◌, ◌∙◌, refl, ap, subst, arith, true, false, List, [], ◌∷◌, ◌++◌, Bytes, Option,
  none, some, length, append-nil, append_assoc, ◌==◌,
}
use kvstore.Engines.Assoc.{Entry, lookup, IsUnique, first_of_two}
use kvstore.Engines.Array.Shape
use kvstore.Engines.Hash.Table
use kvstore.Engines.Hash.Table.{IsKey}
use kvstore.Kvs.{Engine, Server, array_engine, hash_engine}
use kvstore.Kvs.Promise.{AnyKey}
use kvstore.Snapshot.{
  Checkpoint, SnapshotEngine, in_array, in_rbtree, in_hash, in_skiplist, crc_update, crc_start,
  crc_end, encode_u32_be,
}
use kvstore.Snapshot.Save.{uint64_max}
use kvstore.Snapshot.Save.Format.{Record, records_bytes, covered, snapshot_bytes, tagged}
use kvstore.Snapshot.Save.Taken.{IsCheckpoint}
use kvstore.Snapshot.Save.Complete.{all_records, records_bytes-append, length-all_records}
use kvstore.Snapshot.Read.{read_header}
use kvstore.Snapshot.Read.Headers.{stored, header_read, read_header_lem}
use kvstore.Snapshot.Read.Records.{AllRecords}
use kvstore.Snapshot.Read.Accepts.{validate-snapshot_bytes, whole_file}
use kvstore.Snapshot.Load.{
  RecordEnv, opened, loaded, load_result, insert_record, load_records, load_mapped,
  load_with_checkpoint,
}
use kvstore.Snapshot.Load.Interface.{Restores, ArrayReady, HashReady, array-Restores, hash-Restores}
use kvstore.Snapshot.Load.Restored.{IsGenerous, AllFit, part_restored}

-- The entries of one engine: each key once, all within the format, the keys such as the engine takes.
pub record IsContent (Key : Bytes → Type 0) (es : List Entry) : Type 0 where
  pub unique : IsUnique es
  pub fit : AllFit Key es

tagged-AllRecords :
    (Key : Bytes → Type 0) (engine : SnapshotEngine) (es : List Entry) (rs : List Record)
    → AllFit Key es
    → AllRecords rs
    → AllRecords (tagged engine es ++ rs)
unfolding AllFit AllRecords tagged
tagged-AllRecords Key engine [] rs h k = k
tagged-AllRecords Key engine ((key, value) ∷ es) rs h k =
    ((h.0, h.1), tagged-AllRecords Key engine es rs h.3 k)

-- The engine has room for these entries and nothing in it.
abbrev pub IsEmpty :
    {S : Type 0} → (ℕ → S → Type 0) → (S → Bytes → Option Bytes) → S → List Entry → Type 0
IsEmpty ready view s es = ready (length es) s × ((q : Bytes) → view s q ≡ none)

only : (a : Option Bytes) {b : Option Bytes} → b ≡ none → first_of_two a b ≡ a
only none e = e
only (some v) e = refl

module _ {R K : Type 0} (rb : Engine R) (sk : Engine K) (ready_rb : ℕ → R → Type 0)
    (key_rb : Bytes → Type 0) (view_rb : R → Bytes → Option Bytes)
    (rb-Restores : Restores rb ready_rb key_rb view_rb) (ready_sk : ℕ → K → Type 0)
    (key_sk : Bytes → Type 0) (view_sk : K → Bytes → Option Bytes)
    (sk-Restores : Restores sk ready_sk key_sk view_sk) (ea er eh ek : List Entry) where
  -- What a server reads after the load.
  pub record HasLoaded (sv : Server R K) : Type 0 where
    pub array_reads : (q : Bytes) → Shape.view sv.array_store q ≡ lookup q ea
    pub tree_reads : (q : Bytes) → view_rb sv.rbtree_store q ≡ lookup q er
    pub hash_reads : (q : Bytes) → Table.view sv.hash_store q ≡ lookup q eh
    pub skiplist_reads : (q : Bytes) → view_sk sv.skiplist_store q ≡ lookup q ek

  -- The contents of a file that a server can have saved.
  pub record IsSaved : Type 0 where
    pub in_the_array : IsContent AnyKey ea
    pub in_the_tree : IsContent key_rb er
    pub in_the_hash : IsContent IsKey eh
    pub in_the_skiplist : IsContent key_sk ek
    pub few : length (all_records ea er eh ek) ≤ uint64_max

  -- A server whose four engines are empty and have room for the entries.
  pub record IsFresh (sv : Server R K) : Type 0 where
    pub array_empty : IsEmpty ArrayReady Shape.view sv.array_store ea
    pub tree_empty : IsEmpty ready_rb view_rb sv.rbtree_store er
    pub hash_empty : IsEmpty HashReady Table.view sv.hash_store eh
    pub skiplist_empty : IsEmpty ready_sk view_sk sv.skiplist_store ek

  all_count :
      length (all_records ea er eh ek) ≡ length ea + (length er + (length eh + (length ek + 0)))
  all_count = omega (arith, length-all_records ea er eh ek)

  all_bytes :
      (rest : Bytes)
      → records_bytes (all_records ea er eh ek) ++ rest
        ≡ records_bytes (tagged in_array ea)
          ++ (records_bytes (tagged in_rbtree er)
              ++ (records_bytes (tagged in_hash eh)
                  ++ (records_bytes (tagged in_skiplist ek) ++ rest)))
  all_bytes rest =
      let a = records_bytes (tagged in_array ea) in
      let r = records_bytes (tagged in_rbtree er) in
      let h = records_bytes (tagged in_hash eh) in
      let k = records_bytes (tagged in_skiplist ek) in
      rw
        (
          records_bytes-append (tagged in_array ea)
              (tagged in_rbtree er ++ (tagged in_hash eh ++ tagged in_skiplist ek)),
          records_bytes-append (tagged in_rbtree er) (tagged in_hash eh ++ tagged in_skiplist ek),
          records_bytes-append (tagged in_hash eh) (tagged in_skiplist ek),
          append_assoc a (r ++ (h ++ k)) rest,
          append_assoc r (h ++ k) rest,
          append_assoc h k rest,
        )
        refl

  saved-AllRecords : IsSaved → AllRecords (all_records ea er eh ek)
  unfolding AllRecords
  saved-AllRecords h = tagged-AllRecords AnyKey in_array ea _ h.in_the_array.fit (
      tagged-AllRecords key_rb in_rbtree er _ h.in_the_tree.fit (
        tagged-AllRecords IsKey in_hash eh _ h.in_the_hash.fit (
          subst AllRecords (append-nil (tagged in_skiplist ek))
            (tagged-AllRecords key_sk in_skiplist ek [] h.in_the_skiplist.fit tt))))

  records_loaded :
      (env : ℕ → RecordEnv) (rest : Bytes) (sv : Server R K)
      → ((i : ℕ) → IsGenerous (env i))
      → IsSaved
      → IsFresh sv
      → (sv' : Server R K) × (load_records rb sk env
            (length (all_records ea er eh ek))
            (records_bytes (all_records ea er eh ek) ++ rest)
            sv
          ≡ some (sv', true))
        × HasLoaded sv'
        × (sv'.writer ≡ sv.writer)
  unfolding insert_record load_records
  records_loaded env rest sv g h fresh =
      let nr = length er + (length eh + (length ek + 0)) in
      let (ta, run_a, va) =
        part_restored rb sk array_engine ArrayReady AnyKey Shape.view array-Restores in_array
          (λ s. record sv { array_store = s }) (λ mem s k v. refl) env ea nr sv.array_store _ g
          h.in_the_array.fit h.in_the_array.unique (λ q o. fresh.array_empty.1 q)
          fresh.array_empty.0 in
      let sv1 : Server R K = record sv { array_store = ta } in
      let (tr, run_r, vr) =
        part_restored rb sk rb ready_rb key_rb view_rb rb-Restores in_rbtree
          (λ s. record sv1 { rbtree_store = s }) (λ mem s k v. refl) env er
          (length eh + (length ek + 0)) sv.rbtree_store _ g h.in_the_tree.fit h.in_the_tree.unique
          (λ q o. fresh.tree_empty.1 q) fresh.tree_empty.0 in
      let sv2 : Server R K = record sv1 { rbtree_store = tr } in
      let (th, run_h, vh) =
        part_restored rb sk hash_engine HashReady IsKey Table.view hash-Restores in_hash
          (λ s. record sv2 { hash_store = s }) (λ mem s k v. refl) env eh (length ek + 0)
          sv.hash_store _ g h.in_the_hash.fit h.in_the_hash.unique (λ q o. fresh.hash_empty.1 q)
          fresh.hash_empty.0 in
      let sv3 : Server R K = record sv2 { hash_store = th } in
      let (tk, run_k, vk) =
        part_restored rb sk sk ready_sk key_sk view_sk sk-Restores in_skiplist
          (λ s. record sv3 { skiplist_store = s }) (λ mem s k v. refl) env ek 0 sv.skiplist_store
          rest g h.in_the_skiplist.fit h.in_the_skiplist.unique (λ q o. fresh.skiplist_empty.1 q)
          fresh.skiplist_empty.0 in
      (
        record sv3 { skiplist_store = tk },
        ap (λ n. load_records rb sk env n (records_bytes (all_records ea er eh ek) ++ rest) sv)
              all_count
            ∙ ap (λ x. load_records rb sk env (length ea + nr) x sv) (all_bytes rest)
            ∙ run_a
            ∙ run_r
            ∙ run_h
            ∙ run_k,
        record {
          array_reads = λ q. va q ∙ only (lookup q ea) (fresh.array_empty.1 q);
          tree_reads = λ q. vr q ∙ only (lookup q er) (fresh.tree_empty.1 q);
          hash_reads = λ q. vh q ∙ only (lookup q eh) (fresh.hash_empty.1 q);
          skiplist_reads = λ q. vk q ∙ only (lookup q ek) (fresh.skiplist_empty.1 q);
        },
        refl,
      )

  -- A load with every allocation granted, from a file that a save of these entries has written, into a
  -- server whose engines are empty and have room: it returns 0 with the saved checkpoint, every engine
  -- reads as its entries did, and the AOF is as it was. The tree and the skiplist are any engines that read as maps.
  pub load-snapshot_bytes :
      (env : ℕ → RecordEnv) (path : Bytes) (cp : Checkpoint) (sv : Server R K)
      → ((i : ℕ) → IsGenerous (env i))
      → IsCheckpoint cp
      → (length path == 0) ≡ false
      → IsSaved
      → IsFresh sv
      → (sv' : Server R K) × (load_with_checkpoint rb sk env
            (opened (snapshot_bytes cp (all_records ea er eh ek)))
            true
            path
            sv
          ≡ some (sv', loaded (stored cp)))
        × HasLoaded sv'
        × (sv'.writer ≡ sv.writer)
  unfolding load_with_checkpoint load_mapped load_result
  load-snapshot_bytes env path cp sv g icp e h fresh =
      let rs = all_records ea er eh ek in
      let t = encode_u32_be (crc_end (crc_update crc_start (covered cp rs))) in
      let (sv', run, reads, same) = records_loaded env t sv g h fresh in
      let valid = validate-snapshot_bytes cp rs icp (saved-AllRecords h) h.few in
      let header : read_header (snapshot_bytes cp rs) crc_start
          ≡ some (header_read cp (length rs) crc_start (records_bytes rs ++ t)) =
        ap (λ x. read_header x crc_start) (whole_file cp rs)
        ∙ read_header_lem cp (length rs) crc_start (records_bytes rs ++ t) icp h.few in
      (sv', rw (e, load_with_checkpoint, load_mapped, valid, header, run) refl, reads, same)
