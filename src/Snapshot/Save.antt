-- ===== src/Snapshot/Save.antt =====
-- src/persistence/snapshot_store.c: the contents of a snapshot, written record by record.
-- The red-black tree and the skiplist are visited through an interface. `none` of `Option` stands for -1,
-- and `none` of `Run` for a fault of an engine; the errno is left out.
pub mod Format
pub mod Taken
pub mod Contents
pub mod Complete
use kvstore.Common.{
  ℕ, ◌+◌, ◌-◌, ◌^◌, ◌==◌, ◌&&◌, ◌||◌, not, ltb, Bool, true, false, if◌then◌else◌, List, [], ◌∷◌,
  ◌++◌, Bytes, Option, none, some, length,
}
use kvstore.Engines.Base.{Ret, success, not_found, failure, no_memory, Run}
use kvstore.Engines.Array
use kvstore.Engines.Array.{KvArray}
use kvstore.Engines.Hash
use kvstore.Engines.Hash.{KvHash}
use kvstore.Kvs.{Server}
use kvstore.Snapshot.{
  Checkpoint, SnapshotEngine, in_array, in_rbtree, in_hash, in_skiplist, engine_number, magic,
  encode_u32_be, encode_u64_be, crc_update, crc_start, crc_end, uint32_max, int64_max,
}
use kvstore.Snapshot.Writer.{SnapshotWriter, writer_append, writer_flush}

-- What an engine offers to a save: the visit of all its records.
pub record Iteration (S : Type 0) : Type 1 where
  pub foreach : {C : Type 0} → (Bytes → Bytes → C → C × Bool) → S → C → Run (C × Ret)

abbrev pub array_iteration : Iteration KvArray
array_iteration = record { foreach = λ visit s c. Array.foreach visit s c }

abbrev pub hash_iteration : Iteration KvHash
hash_iteration = record { foreach = λ visit s c. Hash.foreach visit s c }

-- UINT64_MAX
abbrev pub uint64_max : ℕ
uint64_max = 2 ^ 64 - 1

unfoldable pub is_negative : Ret → Bool
is_negative success = false
is_negative not_found = false
is_negative failure = true
is_negative no_memory = true

-- One of the visits of a sequence, which a negative code ends.
unfoldable pub visit_then : {C : Type 0} → Run (C × Ret) → (C → Run (Option C)) → Run (Option C)
visit_then none rest = none
visit_then (some (c, r)) rest = if is_negative r then some none else rest c

unfoldable pub count_item : Bytes → Bytes → ℕ → ℕ × Bool
count_item key value count = if count == uint64_max then (count, false) else (count + 1, true)

unfoldable pub write_header : (ℕ → Bool) → SnapshotWriter → ℕ → ℕ → Option (SnapshotWriter × ℕ)
write_header writes w record_count crc =
    let has = w.checkpoint.has_offset in
    if not (has == 0) && not (has == 1) || not (has == 0) && ltb int64_max w.checkpoint.offset
    then none
    else (let flags = if has == 0 then 0 else 1 in
        let offset = if has == 0 then 0 else w.checkpoint.offset in
        let header =
          magic
          ++ (encode_u32_be 2
              ++ (encode_u32_be flags ++ (encode_u64_be record_count ++ encode_u64_be offset))) in
        elim (writer_append writes w header) [
          | none ↦ none
          | some v ↦ some (v, crc_update crc header)
        ])

unfoldable pub write_record :
    (ℕ → Bool) → SnapshotEngine → Bytes → Bytes → SnapshotWriter × ℕ → Option (SnapshotWriter × ℕ)
write_record writes engine key value (w, crc) =
    if ltb uint32_max (length key) || ltb uint32_max (length value)
    then none
    else (let header =
          engine_number engine ∷ encode_u32_be (length key) ++ encode_u32_be (length value) in
        elim (writer_append writes w header) [
          | none ↦ none
          | some w1 ↦ elim (writer_append writes w1 key) [
            | none ↦ none
            | some w2 ↦ elim (writer_append writes w2 value) [
              | none ↦ none
              | some w3 ↦ some (w3, crc_update (crc_update (crc_update crc header) key) value)
            ]
          ]
        ])

-- A record that is not written ends the visit, and with it the save.
unfoldable pub write_item :
    (ℕ → Bool) → SnapshotEngine → Bytes → Bytes → SnapshotWriter × ℕ → (SnapshotWriter × ℕ) × Bool
write_item writes engine key value p = elim (write_record writes engine key value p) [
  | none ↦ (p, false)
  | some q ↦ (q, true)
]

-- The checksum behind the records, and the last batch.
unfoldable pub write_end : (ℕ → Bool) → SnapshotWriter × ℕ → Option SnapshotWriter
write_end writes (w, crc) = elim (writer_append writes w (encode_u32_be (crc_end crc))) [
  | none ↦ none
  | some v ↦ writer_flush writes v
]

module _ {R K : Type 0} (rb : Iteration R) (sk : Iteration K) where
  unfoldable pub count_records : Server R K → Run (Option ℕ)
  count_records sv = visit_then (array_iteration.foreach count_item sv.array_store 0) (λ c.
      visit_then (rb.foreach count_item sv.rbtree_store c) (λ c.
        visit_then (hash_iteration.foreach count_item sv.hash_store c)
          (λ c. visit_then (sk.foreach count_item sv.skiplist_store c) (λ c. some (some c)))))

  unfoldable pub write_records :
      (ℕ → Bool) → Server R K → SnapshotWriter × ℕ → Run (Option (SnapshotWriter × ℕ))
  write_records writes sv p =
      visit_then (array_iteration.foreach (write_item writes in_array) sv.array_store p) (λ p.
        visit_then (rb.foreach (write_item writes in_rbtree) sv.rbtree_store p) (λ p.
          visit_then (hash_iteration.foreach (write_item writes in_hash) sv.hash_store p) (λ p.
            visit_then (sk.foreach (write_item writes in_skiplist) sv.skiplist_store p)
              (λ p. some (some p)))))

  unfoldable pub write_contents :
      (ℕ → Bool) → Server R K → SnapshotWriter → Run (Option SnapshotWriter)
  write_contents writes sv w = elim (count_records sv) [
    | none ↦ none
    | some none ↦ some none
    | some (some count) ↦ elim (write_header writes w count crc_start) [
      | none ↦ some none
      | some p ↦ elim (write_records writes sv p) [
        | none ↦ none
        | some none ↦ some none
        | some (some q) ↦ some (write_end writes q)
      ]
    ]
  ]
