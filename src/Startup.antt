-- ===== src/Startup.antt =====
-- src/kvstore.c: the engines created and destroyed together, and a replica's data replaced by a snapshot.
-- The red-black tree and the skiplist are created and destroyed through an interface. The messages on
-- standard error are left out.
pub mod Fresh
pub mod Install
pub mod Start
mod Examples
use kvstore.Common.{
  ℕ, ◌==◌, ◌&&◌, ◌||◌, not, Bool, true, false, if◌then◌else◌, List, [], ◌∷◌, Bytes, Option, none,
  some, length,
}
use kvstore.Engines.Base.{Ret, success, not_found, failure, no_memory, Mem, Run}
use kvstore.Engines.Array
use kvstore.Engines.Array.{KvArray, Slot}
use kvstore.Engines.Hash
use kvstore.Engines.Hash.{KvHash}
use kvstore.Aof.{reset_to_offset}
use kvstore.Kvs.{Engine, Server, is_success}
use kvstore.Snapshot.{Checkpoint}
use kvstore.Snapshot.Load.{
  RecordEnv, Opened, LoadResult, loaded, no_file, load_failed, load_with_checkpoint,
}

-- How an engine begins and ends; `zeroed` is the state that memset leaves.
pub record Lifecycle (S : Type 0) : Type 0 where
  pub zeroed : S
  pub create : Mem → S → S × Ret
  pub destroy : S → S

abbrev pub zeroed_array : KvArray
zeroed_array = record { table = none; idx = 0; total = 0 }

abbrev pub zeroed_hash : KvHash
zeroed_hash = record { nodes = none; max_slots = 0; count = 0 }

-- The answers to the allocations of the four creations, and what the new array's slots have.
pub record CreateEnv : Type 0 where
  pub array_mem : Mem
  pub junk : List Slot
  pub rbtree_mem : Mem
  pub hash_mem : Mem
  pub skiplist_mem : Mem

-- A server with these engines.
abbrev pub with_engines : {R K : Type 0} → Server R K → KvArray → R → KvHash → K → Server R K
with_engines sv a r h k = record sv {
  array_store = a;
  rbtree_store = r;
  hash_store = h;
  skiplist_store = k;
}

-- How the installation of a snapshot ends: with 0, with -1, or with the end of the process.
pub data Installed (R K : Type 0) : Type 0 where
  installed not_installed : Server R K → Installed R K
  exited : Installed R K

-- Whether the load has returned 0 with a checkpoint at this offset.
unfoldable pub is_at : LoadResult → ℕ → Bool
is_at (loaded cp) aof_offset = not (cp.has_offset == 0) && (cp.offset == aof_offset)
is_at no_file aof_offset = false
is_at load_failed aof_offset = false

module _ {R K : Type 0} (rb : Lifecycle R) (sk : Lifecycle K) where
  unfoldable pub init_kvengine : CreateEnv → Server R K → Server R K × Bool
  init_kvengine env sv =
      let a = Array.create env.array_mem env.junk zeroed_array in
      let r = rb.create env.rbtree_mem rb.zeroed in
      let h = Hash.create env.hash_mem zeroed_hash in
      let k = sk.create env.skiplist_mem sk.zeroed in
      if not (is_success a.1)
      then (with_engines sv a.0 rb.zeroed zeroed_hash sk.zeroed, false)
      else if not (is_success r.1)
      then (with_engines sv (Array.destroy a.0) r.0 zeroed_hash sk.zeroed, false)
      else if not (is_success h.1)
      then (with_engines sv (Array.destroy a.0) (rb.destroy r.0) h.0 sk.zeroed, false)
      else if not (is_success k.1)
      then (with_engines sv (Array.destroy a.0) (rb.destroy r.0) (Hash.destroy h.0) k.0, false)
      else (with_engines sv a.0 r.0 h.0 k.0, true)

  unfoldable pub dest_kvengine : Server R K → Server R K
  dest_kvengine sv =
      with_engines sv (Array.destroy sv.array_store) (rb.destroy sv.rbtree_store)
        (Hash.destroy sv.hash_store) (sk.destroy sv.skiplist_store)

  -- The three failures behind the first creation: the engines are emptied.
  unfoldable pub start_over : CreateEnv → Server R K → Installed R K
  start_over env sv =
      let p = init_kvengine env (dest_kvengine sv) in if p.1 then not_installed p.0 else exited

  -- From the load to the end; `truncated` and `flushed` are the answers when the AOF is reset.
  unfoldable pub install_loaded :
      CreateEnv → Bool → Bool → ℕ → Server R K × LoadResult → Installed R K
  install_loaded again truncated flushed aof_offset (sv, result) =
      if not (is_at result aof_offset)
      then start_over again sv
      else (let w = reset_to_offset truncated flushed sv.writer aof_offset in
          if w.1
          then installed (record sv { writer = w.0 })
          else start_over again (record sv { writer = w.0 }))

  -- kvs_install_replication_snapshot; a path of NULL is the empty one here.
  unfoldable pub install_replication_snapshot :
      Engine R
      → Engine K
      → CreateEnv
      → CreateEnv
      → (ℕ → RecordEnv)
      → Opened
      → Bool
      → Bool
      → Bool
      → Bytes
      → ℕ
      → Server R K
      → Run (Installed R K)
  install_replication_snapshot rb_engine sk_engine first again env file unmapped truncated flushed
        path aof_offset sv =
      let p = init_kvengine first (dest_kvengine sv) in
      if length path == 0
      then some (not_installed sv)
      else if not p.1
      then some exited
      else elim (load_with_checkpoint rb_engine sk_engine env file unmapped path p.0) [
        | none ↦ none
        | some q ↦ some (install_loaded again truncated flushed aof_offset q)
      ]
