-- ===== src/Startup/Install.antt =====
-- src/kvstore.c: the installation of a snapshot on a replica.
use kvstore.Common.{
  ℕ, ◌≤◌, ◌≡◌, ◌∙◌, refl, sym, ap, subst, arith, ◌==◌, Bool, true, false, List, Bytes, Option, none,
  some, length, Option-cases, Bool-cases, inl, inr,
}
use kvstore.Engines.Base.{Run}
use kvstore.Engines.Assoc.{Entry}
use kvstore.Engines.Array
use kvstore.Engines.Array.{Slot, array_size}
use kvstore.Engines.Array.Visit.{array_create_lem}
use kvstore.Engines.Hash
use kvstore.Engines.Hash.Created.{hash_create_lem}
use kvstore.Aof.{Writer, reset_to_offset}
use kvstore.Kvs.{Engine, Server}
use kvstore.Snapshot.{Checkpoint}
use kvstore.Snapshot.Save.Format.{snapshot_bytes}
use kvstore.Snapshot.Save.Taken.{IsCheckpoint}
use kvstore.Snapshot.Save.Complete.{all_records}
use kvstore.Snapshot.Read.Headers.{stored}
use kvstore.Snapshot.Load.{
  RecordEnv, Opened, opened, LoadResult, loaded, no_file, load_failed, load_with_checkpoint,
}
use kvstore.Snapshot.Load.Interface.{Restores}
use kvstore.Snapshot.Load.Restored.{IsGenerous}
use kvstore.Snapshot.Load.RoundTrip.{HasLoaded, IsSaved, IsFresh, load-snapshot_bytes}
use kvstore.Startup.{
  Lifecycle, CreateEnv, zeroed_array, zeroed_hash, init_kvengine, dest_kvengine, Installed,
  installed, not_installed, exited, is_at, install_loaded, install_replication_snapshot, start_over,
}
use kvstore.Startup.Fresh.{Begins, array_begun, hash_begun, init_kvengine-AllCreated}

stored-is_at : (cp : Checkpoint) → cp.has_offset ≡ 1 → is_at (loaded (stored cp)) cp.offset ≡ true
unfolding is_at
stored-is_at cp has = ground (arith, has)

-- The end of an installation whose checkpoint is at the offset.
aligned :
    {R K : Type 0} (rb_life : Lifecycle R) (sk_life : Lifecycle K) (again : CreateEnv)
    (truncated flushed : Bool) (aof_offset : ℕ) (sv : Server R K) (result : LoadResult) (w : Writer)
    → is_at result aof_offset ≡ true
    → sv.writer ≡ w
    → (reset_to_offset truncated flushed w aof_offset).1 ≡ true
    → install_loaded rb_life sk_life again truncated flushed aof_offset (sv, result)
      ≡ installed (record sv { writer = (reset_to_offset truncated flushed w aof_offset).0 })
unfolding install_loaded
aligned rb_life sk_life again truncated flushed aof_offset sv result w at same ok =
    let done : (reset_to_offset truncated flushed sv.writer aof_offset).1 ≡ true =
      ap (λ x. (reset_to_offset truncated flushed x aof_offset).1) same ∙ ok in
    rw (at, install_loaded, done)
      (ap
        (λ x. installed (record sv { writer = (reset_to_offset truncated flushed x aof_offset).0 }))
        same)

module _ {R K : Type 0} (rb : Engine R) (sk : Engine K) (ready_rb : ℕ → R → Type 0)
    (key_rb : Bytes → Type 0) (view_rb : R → Bytes → Option Bytes)
    (rb-Restores : Restores rb ready_rb key_rb view_rb) (ready_sk : ℕ → K → Type 0)
    (key_sk : Bytes → Type 0) (view_sk : K → Bytes → Option Bytes)
    (sk-Restores : Restores sk ready_sk key_sk view_sk) (ea er eh ek : List Entry)
    (rb_life : Lifecycle R) (sk_life : Lifecycle K) (rb-Begins : Begins rb_life ready_rb view_rb)
    (sk-Begins : Begins sk_life ready_sk view_sk) where
  abbrev pub Fresh : Server R K → Type 0
  Fresh sv =
      IsFresh rb sk ready_rb key_rb view_rb rb-Restores ready_sk key_sk view_sk sk-Restores ea er eh
        ek sv

  abbrev pub ReadsSaved : Server R K → Type 0
  ReadsSaved sv =
      HasLoaded rb sk ready_rb key_rb view_rb rb-Restores ready_sk key_sk view_sk sk-Restores ea er
        eh ek sv

  abbrev pub Saved : Type 0
  Saved =
      IsSaved rb sk ready_rb key_rb view_rb rb-Restores ready_sk key_sk view_sk sk-Restores ea er eh
        ek

  -- Where init_kvengine returns 0 the engines are empty and have room, and the AOF is as it was.
  pub init_kvengine-Fresh :
      (env : CreateEnv) (sv : Server R K)
      → length env.junk ≡ array_size
      → length ea ≤ array_size
      → (init_kvengine rb_life sk_life env sv).1 ≡ true
      → Fresh (init_kvengine rb_life sk_life env sv).0
        × ((init_kvengine rb_life sk_life env sv).0.writer ≡ sv.writer)
  init_kvengine-Fresh env sv size room ok =
      let all = init_kvengine-AllCreated rb_life sk_life env sv ok in
      let result = ap (λ p. p.0) all.result in
      (
        subst Fresh (sym result) (record {
          array_empty =
              array_begun (Array.create env.array_mem env.junk zeroed_array) ea
                (array_create_lem env.array_mem env.junk zeroed_array size) all.array_ok room;
          tree_empty = rb-Begins.created env.rbtree_mem er all.tree_ok;
          hash_empty =
              hash_begun (Hash.create env.hash_mem zeroed_hash) eh
                (hash_create_lem env.hash_mem zeroed_hash).0 all.hash_ok;
          skiplist_empty = sk-Begins.created env.skiplist_mem ek all.skiplist_ok;
        }),
        ap (λ x. x.writer) result,
      )

  -- A replica, whatever its engines had, that installs a snapshot of these entries whose checkpoint is the
  -- offset it has been told, where the creations, the allocations of the load and the reset of the AOF
  -- succeed: it ends with 0, its engines read exactly as the entries do, and the AOF is reset to the offset.
  pub install_replication_snapshot-ReadsSaved :
      (first again : CreateEnv) (env : ℕ → RecordEnv) (truncated flushed : Bool) (path : Bytes)
      (cp : Checkpoint) (sv : Server R K)
      → length first.junk ≡ array_size
      → length ea ≤ array_size
      → (init_kvengine rb_life sk_life first (dest_kvengine rb_life sk_life sv)).1 ≡ true
      → ((i : ℕ) → IsGenerous (env i))
      → IsCheckpoint cp
      → cp.has_offset ≡ 1
      → (length path == 0) ≡ false
      → Saved
      → (reset_to_offset truncated flushed sv.writer cp.offset).1 ≡ true
      → (sv' : Server R K) × (install_replication_snapshot rb_life sk_life rb sk first again env
            (opened (snapshot_bytes cp (all_records ea er eh ek)))
            true
            truncated
            flushed
            path
            cp.offset
            sv
          ≡ some (installed sv'))
        × ReadsSaved sv'
        × (sv'.writer ≡ (reset_to_offset truncated flushed sv.writer cp.offset).0)
  unfolding install_replication_snapshot dest_kvengine
  install_replication_snapshot-ReadsSaved first again env truncated flushed path cp sv size room ok
        g icp has e saved reset =
      let (fresh, kept) =
        init_kvengine-Fresh first (dest_kvengine rb_life sk_life sv) size room ok in
      let begun = (init_kvengine rb_life sk_life first (dest_kvengine rb_life sk_life sv)).0 in
      let (sv', run, reads, same) =
        load-snapshot_bytes rb sk ready_rb key_rb view_rb rb-Restores ready_sk key_sk view_sk
          sk-Restores ea er eh ek env path cp begun g icp e saved fresh in
      let writer : sv'.writer ≡ sv.writer = same ∙ kept in
      (
        record sv' { writer = (reset_to_offset truncated flushed sv.writer cp.offset).0 },
        rw (e, install_replication_snapshot, ok, run)
            (ap some (
              aligned rb_life sk_life again truncated flushed cp.offset sv' (loaded (stored cp))
                sv.writer (stored-is_at cp has) writer reset)),
        record {
          array_reads = reads.array_reads;
          tree_reads = reads.tree_reads;
          hash_reads = reads.hash_reads;
          skiplist_reads = reads.skiplist_reads;
        },
        refl,
      )

  -- What an installation from a path can end with, after this load.
  pub data Ends (load : Run (Server R K × LoadResult)) (aof_offset : ℕ)
      : Run (Installed R K) → Type 0 where
    faults : load ≡ none → Ends load aof_offset none
    exits : Ends load aof_offset (some exited)
    emptied : (sv' : Server R K) → Fresh sv' → Ends load aof_offset (some (not_installed sv'))
    replaced :
        (sv' loaded_server : Server R K) (cp : Checkpoint) (w : Writer)
        → load ≡ some (loaded_server, loaded cp)
        → (cp.has_offset == 0) ≡ false
        → cp.offset ≡ aof_offset
        → sv' ≡ record loaded_server { writer = w }
        → Ends load aof_offset (some (installed sv'))

  started_over :
      (again : CreateEnv) (sv : Server R K) (load : Run (Server R K × LoadResult)) (aof_offset : ℕ)
      → length again.junk ≡ array_size
      → length ea ≤ array_size
      → Ends load aof_offset (some (start_over rb_life sk_life again sv))
  unfolding start_over
  started_over again sv load aof_offset size room =
      elim (Bool-cases (init_kvengine rb_life sk_life again (dest_kvengine rb_life sk_life sv)).1) [
        | inl ok ↦
            rw (ok, start_over)
              (emptied _
                (init_kvengine-Fresh again (dest_kvengine rb_life sk_life sv) size room ok).0)
        | inr bad ↦ rw (bad, start_over) exits
      ]

  load_ended :
      (again : CreateEnv) (truncated flushed : Bool) (aof_offset : ℕ) (sv : Server R K)
      (result : LoadResult)
      → length again.junk ≡ array_size
      → length ea ≤ array_size
      → Ends
          (some (sv, result))
          aof_offset
          (some (install_loaded rb_life sk_life again truncated flushed aof_offset (sv, result)))
  unfolding install_loaded is_at
  load_ended again truncated flushed aof_offset sv no_file size room =
      started_over again sv _ aof_offset size room
  load_ended again truncated flushed aof_offset sv load_failed size room =
      started_over again sv _ aof_offset size room
  load_ended again truncated flushed aof_offset sv (loaded cp) size room =
      let w = reset_to_offset truncated flushed sv.writer aof_offset in
      elim (Bool-cases (is_at (loaded cp) aof_offset)) [
        | inr other ↦ rw (other, install_loaded) (started_over again sv _ aof_offset size room)
        | inl at ↦ elim (Bool-cases w.1) [
          | inl done ↦
              rw (at, install_loaded, done)
                (replaced (record sv { writer = w.0 }) sv cp w.0 refl (ground (arith, at))
                  (ground (arith, at)) refl)
          | inr bad ↦
              rw (at, install_loaded, bad)
                (started_over again (record sv { writer = w.0 }) _ aof_offset size room)
        ]
      ]

  -- An installation from a path that is not empty, whatever the file has and whatever fails, where the array
  -- has room for the array entries and its new table is as long as the array is: it faults where an engine
  -- faults in the load, and otherwise the process ends, or it returns -1 and the engines are empty, so that
  -- nothing of a broken or foreign snapshot is left, or it returns 0 and the server is, but for the writer of
  -- the AOF, the one of a load that has returned 0 with a checkpoint that has an offset, the given one.
  pub install_replication_snapshot-Ends :
      (first again : CreateEnv) (env : ℕ → RecordEnv) (file : Opened)
      (unmapped truncated flushed : Bool) (path : Bytes) (aof_offset : ℕ) (sv : Server R K)
      → length again.junk ≡ array_size
      → length ea ≤ array_size
      → (length path == 0) ≡ false
      → Ends
          (load_with_checkpoint rb sk env file unmapped path
            (init_kvengine rb_life sk_life first (dest_kvengine rb_life sk_life sv)).0)
          aof_offset
          (install_replication_snapshot rb_life sk_life rb sk first again env file unmapped
            truncated flushed path aof_offset sv)
  unfolding install_replication_snapshot
  install_replication_snapshot-Ends first again env file unmapped truncated flushed path aof_offset
        sv size room e =
      let p = init_kvengine rb_life sk_life first (dest_kvengine rb_life sk_life sv) in
      elim (Bool-cases p.1) [
        | inr bad ↦ rw (e, install_replication_snapshot, bad) exits
        | inl ok ↦ elim (Option-cases (load_with_checkpoint rb sk env file unmapped path p.0)) [
          | inl f ↦ rw (e, install_replication_snapshot, ok, f) (faults refl)
          | inr ((sv', result), f) ↦
              rw (e, install_replication_snapshot, ok, f)
                (load_ended again truncated flushed aof_offset sv' result size room)
        ]
      ]
