-- ===== src/Snapshot/Files/Atomic.antt =====
-- src/persistence/snapshot_store.c: what a save leaves at its path.
use kvstore.Common.{
  ◌&&◌, ℕ, ◌-◌, ◌≤◌, ◌≡◌, refl, ap, arith, ◌==◌, ltb, Bool, true, false, List, Bytes, Option, some,
  length, Bool-cases, inl, inr,
}
use kvstore.Engines.Assoc.{Entry}
use kvstore.Protocol.{size_max}
use kvstore.Kvs.{Server}
use kvstore.Snapshot.{Checkpoint, int64_max}
use kvstore.Snapshot.Writer.Appended.{Unwritten}
use kvstore.Snapshot.Writer.{SnapshotWriter}
use kvstore.Snapshot.Save.{Iteration}
use kvstore.Snapshot.Save.Format.{snapshot_bytes}
use kvstore.Snapshot.Save.Taken.{IsCheckpoint}
use kvstore.Snapshot.Save.Complete.{HasEntries, all_records, unsaved, saved, write_contents-Saves}
use kvstore.Snapshot.Files.{
  SaveEnv, Disk, open_parent_directory, writer_init, publish, clean_up, suffix_size, checkpoint_of,
  save_file, save_with_checkpoint,
}

-- After a save the path has the new content, whatever the return code, or with -1 what was there; the
-- temporary file is left only if it cannot be removed.
pub data Replaced (removed : Bool) (old : Option Bytes) (new : Bytes) (r : Disk × Bool)
    : Type 0 where
  replaced : r.0.target ≡ some new → (r.0.temporary && removed) ≡ false → Replaced removed old new r
  unreplaced :
      r.1 ≡ false
      → r.0.target ≡ old
      → (r.0.temporary && removed) ≡ false
      → Replaced removed old new r

-- With the code 0 it is the new one.
pub target_of_done :
    {removed : Bool} {old : Option Bytes} {new : Bytes} (r : Disk × Bool)
    → Replaced removed old new r
    → r.1 ≡ true
    → r.0.target ≡ some new
target_of_done r (replaced e t) ok = e
target_of_done r (unreplaced bad e t) ok = absurd (cc)

unchanged :
    (env : SaveEnv) (old : Option Bytes) (new : Bytes) (disk : Disk)
    → disk.target ≡ old
    → Replaced env.removed old new (clean_up env (disk, false))
unfolding clean_up
unchanged env old new disk e = unreplaced refl e (ground arith)

published :
    (env : SaveEnv) (old : Option Bytes) (new : Bytes) (disk : Disk) (w : SnapshotWriter)
    → disk.target ≡ old
    → w.file ≡ new
    → Replaced env.removed old new (clean_up env (publish env disk w))
unfolding publish clean_up
published env old new disk w e file = elim (Bool-cases env.synced) [
  | inr bad ↦ rw (bad, publish) (unchanged env old new disk e)
  | inl ok ↦ elim (Bool-cases env.closed) [
    | inr bad ↦ rw (ok, publish, bad) (unchanged env old new disk e)
    | inl ok2 ↦ elim (Bool-cases env.renamed) [
      | inr bad ↦ rw (ok, publish, ok2, bad) (unchanged env old new disk e)
      | inl ok3 ↦ rw (ok, publish, ok2, ok3) (replaced (ap some file) refl)
    ]
  ]
]

-- The answers under which nothing fails.
pub record IsWell (env : SaveEnv) (path : Bytes) : Type 0 where
  pub path_mem : env.path_mem ≡ true
  pub opened : open_parent_directory env path ≡ true
  pub made : env.made ≡ true
  pub buffer_mem : env.buffer_mem ≡ true
  pub queue : env.queue ≡ true
  pub writes : (o : ℕ) → env.writes o ≡ true
  pub synced : env.synced ≡ true
  pub closed : env.closed ≡ true
  pub renamed : env.renamed ≡ true
  pub directory_synced : env.directory_synced ≡ true
  pub directory_closed : env.directory_closed ≡ true
  pub removed : env.removed ≡ true

all_written :
    (env : SaveEnv) (path new : Bytes)
    → IsWell env path
    → length new ≤ int64_max
    → Unwritten env.writes new
    → ⊥
all_written env path new g h (inl (o, bad)) = absurd (ground (arith, bad, g.writes o))
all_written env path new g h (inr long) = absurd (omega (arith, h, long))

module _ {R K : Type 0} (rb : Iteration R) (sk : Iteration K) (env : SaveEnv) (sv : Server R K)
    (ea er eh ek : List Entry) (h : HasEntries rb sk sv ea er eh ek) where
  save_file-Replaced :
      (cp : Checkpoint) (disk : Disk)
      → IsCheckpoint cp
      → (r : Disk × Bool) × (save_file rb sk env sv cp disk ≡ some r)
        × Replaced env.removed disk.target (snapshot_bytes cp (all_records ea er eh ek)) r
  unfolding save_file writer_init clean_up publish
  save_file-Replaced cp disk icp =
      let new = snapshot_bytes cp (all_records ea er eh ek) in
      let created : Disk = record disk { temporary = true } in
      let failed = unchanged env disk.target new created refl in
      elim (Bool-cases env.made) [
        | inr bad ↦ (_, rw (bad, save_file) refl, unchanged env disk.target new disk refl)
        | inl ok ↦ elim (Bool-cases env.buffer_mem) [
          | inr bad ↦ (_, rw (ok, save_file, writer_init, bad) refl, failed)
          | inl ok2 ↦ elim (Bool-cases env.queue) [
            | inr bad ↦ (_, rw (ok, save_file, writer_init, ok2, bad) refl, failed)
            | inl ok3 ↦ elim (write_contents-Saves rb sk sv ea er eh ek h env.writes cp icp) [
              | unsaved f why ↦ (_, rw (ok, save_file, writer_init, ok2, ok3, f) refl, failed)
              | saved w f file ↦ (
                _,
                rw (ok, save_file, writer_init, ok2, ok3, f) refl,
                published env disk.target new created w refl file,
              )
            ]
          ]
        ]
      ]

  -- kvs_snapshot_store_save_with_checkpoint, where the engines visit these entries, which fit the format, and
  -- a stored offset is not negative: it does not fault. With 0 the path has the complete snapshot of all
  -- records; with -1 it has that or exactly what it had; no temporary file is left if it can be removed.
  pub save_with_checkpoint-Replaced :
      (path : Bytes) (cp : Option Checkpoint) (old : Option Bytes)
      → IsCheckpoint (checkpoint_of cp)
      → (r : Disk × Bool) × (save_with_checkpoint rb sk env sv path cp old ≡ some r)
        × Replaced env.removed old (snapshot_bytes (checkpoint_of cp) (all_records ea er eh ek)) r
  unfolding save_with_checkpoint
  save_with_checkpoint-Replaced path cp old icp =
      let new = snapshot_bytes (checkpoint_of cp) (all_records ea er eh ek) in
      let kept : Replaced env.removed old new (record { target = old; temporary = false }, false) =
        unreplaced refl refl refl in
      elim (Bool-cases (length path == 0)) [
        | inl e ↦ (_, rw (e, save_with_checkpoint) refl, kept)
        | inr e ↦ elim (Bool-cases (ltb (size_max - suffix_size) (length path))) [
          | inl l ↦ (_, rw (e, save_with_checkpoint, l) refl, kept)
          | inr l ↦ elim (Bool-cases env.path_mem) [
            | inr bad ↦ (_, rw (e, save_with_checkpoint, l, bad) refl, kept)
            | inl ok ↦ elim (Bool-cases (open_parent_directory env path)) [
              | inr bad ↦ (
                (record { target = old; temporary = false }, false),
                ground (arith, e, l, ok, bad),
                kept,
              )
              | inl ok2 ↦
                  let (r, run, how) =
                    save_file-Replaced (checkpoint_of cp)
                      (record { target = old; temporary = false }) icp in
                  (r, ground (arith, e, l, ok, ok2, run), how)
            ]
          ]
        ]
      ]

  -- Where nothing that it calls fails, the engines visit these entries, whose fields fit 32 bits and whose
  -- number fits 64, the checkpoint has no offset or has one that is not negative, marked with 1, the path is
  -- neither empty nor too long for a suffix, and a file can be as long as the snapshot: a save returns 0 and
  -- the path has the snapshot.
  pub save_with_checkpoint-done :
      (path : Bytes) (cp : Option Checkpoint) (old : Option Bytes)
      → IsCheckpoint (checkpoint_of cp)
      → IsWell env path
      → (length path == 0) ≡ false
      → ltb (size_max - suffix_size) (length path) ≡ false
      → length (snapshot_bytes (checkpoint_of cp) (all_records ea er eh ek)) ≤ int64_max
      → save_with_checkpoint rb sk env sv path cp old
        ≡ some (
          record {
            target = some (snapshot_bytes (checkpoint_of cp) (all_records ea er eh ek));
            temporary = false;
          },
          true,
        )
  unfolding save_with_checkpoint save_file writer_init publish clean_up
  save_with_checkpoint-done path cp old icp g e l small =
      elim (write_contents-Saves rb sk sv ea er eh ek h env.writes (checkpoint_of cp) icp) [
        | unsaved f why ↦ absurd (all_written env path _ g small why)
        | saved w f file ↦ ground (
          arith, e, l, g.path_mem, g.opened, g.made, g.buffer_mem, g.queue, f, g.synced, g.closed,
          g.renamed, g.directory_synced, g.directory_closed, file,
        )
      ]
