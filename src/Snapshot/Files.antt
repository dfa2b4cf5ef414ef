-- ===== src/Snapshot/Files.antt =====
-- src/persistence/snapshot_store.c: a save to a path, by a temporary file beside it that is renamed.
-- What the system answers is an argument.
pub mod Atomic
use kvstore.Common.{
  ℕ, ◌+◌, ◌-◌, ◌==◌, ◌&&◌, ◌||◌, not, ltb, Bool, true, false, if◌then◌else◌, List, [], ◌∷◌, ◌++◌,
  Bytes, codes, Option, none, some, length,
}
use kvstore.Engines.Base.{Run}
use kvstore.Protocol.{size_max}
use kvstore.Kvs.{Server}
use kvstore.Snapshot.{Checkpoint}
use kvstore.Snapshot.Writer.{SnapshotWriter, fresh}
use kvstore.Snapshot.Save.{Iteration, write_contents}

-- The answers to one save: to its allocations, its queue, its writes (by their offset in the temporary
-- file) and its calls on files. `opens` tells which directories can be opened.
pub record SaveEnv : Type 0 where
  pub path_mem : Bool
  pub directory_mem : Bool
  pub opens : Bytes → Bool
  pub made : Bool
  pub buffer_mem : Bool
  pub queue : Bool
  pub writes : ℕ → Bool
  pub synced : Bool
  pub closed : Bool
  pub renamed : Bool
  pub directory_synced : Bool
  pub directory_closed : Bool
  pub removed : Bool

-- What is at the path, and whether the temporary file of this save is there.
pub record Disk : Type 0 where
  pub target : Option Bytes
  pub temporary : Bool

-- What stands before the last slash of a path.
unfoldable pub before_slash : Bytes → Option Bytes
before_slash [] = none
before_slash (c ∷ path) = elim (before_slash path) [
  | some front ↦ some (c ∷ front)
  | none ↦ if c == 47 then some [] else none
]

unfoldable pub parent_directory : Bytes → Bytes
parent_directory path = elim (before_slash path) [
  | none ↦ codes "."
  | some [] ↦ codes "/"
  | some (c ∷ front) ↦ c ∷ front
]

-- Whether the parent directory is open.
unfoldable pub open_parent_directory : SaveEnv → Bytes → Bool
open_parent_directory env path =
    if length path == 0 then false else env.directory_mem && env.opens (parent_directory path)

unfoldable pub writer_init : SaveEnv → Checkpoint → Option SnapshotWriter
writer_init env checkpoint =
    if not env.buffer_mem then none else if not env.queue then none else some (fresh checkpoint)

-- From the sync of the temporary file to that of the directory; the `Bool` is the return code 0.
unfoldable pub publish : SaveEnv → Disk → SnapshotWriter → Disk × Bool
publish env disk w =
    if not env.synced
    then (disk, false)
    else if not env.closed
    then (disk, false)
    else if not env.renamed
    then (disk, false)
    else (record { target = some w.file; temporary = false }, env.directory_synced)

-- The part behind `done`.
unfoldable pub clean_up : SaveEnv → Disk × Bool → Disk × Bool
clean_up env (disk, ok) =
    (record disk { temporary = disk.temporary && not env.removed }, ok && env.directory_closed)

-- sizeof(suffix)
abbrev pub suffix_size : ℕ
suffix_size = 12

-- A checkpoint of NULL is `none`.
abbrev pub checkpoint_of : Option Checkpoint → Checkpoint
checkpoint_of none = record { has_offset = 0; offset = 0 }
checkpoint_of (some cp) = cp

module _ {R K : Type 0} (rb : Iteration R) (sk : Iteration K) where
  -- From mkstemp to the cleaning up.
  unfoldable pub save_file : SaveEnv → Server R K → Checkpoint → Disk → Run (Disk × Bool)
  save_file env sv cp disk =
      let created : Disk = record disk { temporary = true } in
      if not env.made then some (clean_up env (disk, false)) else elim (writer_init env cp) [
        | none ↦ some (clean_up env (created, false))
        | some w ↦ elim (write_contents rb sk env.writes sv w) [
          | none ↦ none
          | some none ↦ some (clean_up env (created, false))
          | some (some v) ↦ some (clean_up env (publish env created v))
        ]
      ]

  -- kvs_snapshot_store_save_with_checkpoint; a path of NULL is the empty one here.
  unfoldable pub save_with_checkpoint :
      SaveEnv → Server R K → Bytes → Option Checkpoint → Option Bytes → Run (Disk × Bool)
  save_with_checkpoint env sv path checkpoint target =
      let disk : Disk = record { target = target; temporary = false } in
      if length path == 0
      then some (disk, false)
      else if ltb (size_max - suffix_size) (length path)
      then some (disk, false)
      else if not env.path_mem
      then some (disk, false)
      else if not (open_parent_directory env path)
      then some (disk, false)
      else save_file env sv (checkpoint_of checkpoint) disk

  unfoldable pub save : SaveEnv → Server R K → Bytes → Option Bytes → Run (Disk × Bool)
  save env sv path target = save_with_checkpoint env sv path none target
