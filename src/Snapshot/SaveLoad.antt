-- ===== src/Snapshot/SaveLoad.antt =====
-- src/persistence/snapshot_store.c: a save, and a load of what it has left at its path.
use kvstore.Common.{
  ℕ, ◌≤◌, ◌≡◌, ◌∙◌, sym, ap, arith, true, false, List, [], ◌∷◌, Bytes, Option, some, some_same,
  length, ◌==◌,
}
use kvstore.Engines.Assoc.{Entry, lookup, IsUnique}
use kvstore.Engines.Array.Shape
use kvstore.Engines.Array.Shape.{entries}
use kvstore.Engines.Hash.{Chain}
use kvstore.Engines.Hash.Table
use kvstore.Engines.Hash.Table.{IsKey}
use kvstore.Engines.Hash.Visit.{table_entries}
use kvstore.Engines.Hash.Entries.{lookup-table_entries, table_entries-IsUnique}
use kvstore.Kvs.{Engine, Server}
use kvstore.Kvs.Promise.{AnyKey}
use kvstore.Snapshot.{Checkpoint}
use kvstore.Snapshot.Save.{Iteration, uint64_max}
use kvstore.Snapshot.Save.Format.{snapshot_bytes}
use kvstore.Snapshot.Save.Taken.{IsCheckpoint}
use kvstore.Snapshot.Save.Contents.{Visits, AllShort, array-Visits, hash-Visits}
use kvstore.Snapshot.Save.Complete.{HasEntries, all_records, length-all_records}
use kvstore.Snapshot.Files.{SaveEnv, Disk, checkpoint_of, save_with_checkpoint}
use kvstore.Snapshot.Files.Atomic.{target_of_done, save_with_checkpoint-Replaced}
use kvstore.Snapshot.Read.Headers.{stored}
use kvstore.Snapshot.Load.{RecordEnv, opened, loaded, load_with_checkpoint}
use kvstore.Snapshot.Load.Interface.{Restores}
use kvstore.Snapshot.Load.Restored.{IsGenerous, AllFit}
use kvstore.Snapshot.Load.RoundTrip.{IsFresh, load-snapshot_bytes}

AllFit-AllShort : (Key : Bytes → Type 0) (es : List Entry) → AllFit Key es → AllShort es
unfolding AllFit AllShort
AllFit-AllShort Key [] h = tt
AllFit-AllShort Key ((k, v) ∷ es) h = ((h.0.short, h.1.short), AllFit-AllShort Key es h.3)

module _ {R K : Type 0} (rb_visit : Iteration R) (sk_visit : Iteration K) (rb : Engine R)
    (sk : Engine K) (ready_rb : ℕ → R → Type 0) (key_rb : Bytes → Type 0)
    (view_rb : R → Bytes → Option Bytes) (rb-Restores : Restores rb ready_rb key_rb view_rb)
    (ready_sk : ℕ → K → Type 0) (key_sk : Bytes → Type 0) (view_sk : K → Bytes → Option Bytes)
    (sk-Restores : Restores sk ready_sk key_sk view_sk) where
  -- A server whose engines have these entries: the array and the hash table are valid, the tree and the
  -- skiplist visit their entries and read as them, and all fit the format.
  pub record Stores (sv : Server R K) (ea er : List Entry) (t : List Chain) (ek : List Entry)
      : Type 1 where
    pub in_the_array : Shape.Holds sv.array_store ea
    pub in_the_hash : Table.Holds sv.hash_store t
    pub in_the_tree : Visits rb_visit sv.rbtree_store er
    pub in_the_skiplist : Visits sk_visit sv.skiplist_store ek
    pub tree_reads : (q : Bytes) → view_rb sv.rbtree_store q ≡ lookup q er
    pub skiplist_reads : (q : Bytes) → view_sk sv.skiplist_store q ≡ lookup q ek
    pub unique : IsUnique er × IsUnique ek
    pub fit :
        AllFit AnyKey ea × AllFit key_rb er × AllFit IsKey (table_entries t) × AllFit key_sk ek
    pub few : length (all_records ea er (table_entries t) ek) ≤ uint64_max

  pub stored-HasEntries :
      (sv : Server R K) (ea er : List Entry) (t : List Chain) (ek : List Entry)
      → Stores sv ea er t ek
      → HasEntries rb_visit sk_visit sv ea er (table_entries t) ek
  stored-HasEntries sv ea er t ek h = record {
    in_the_array = array-Visits h.in_the_array;
    in_the_tree = h.in_the_tree;
    in_the_hash = hash-Visits h.in_the_hash;
    in_the_skiplist = h.in_the_skiplist;
    short = (
      AllFit-AllShort AnyKey ea h.fit.0,
      AllFit-AllShort key_rb er h.fit.1,
      AllFit-AllShort IsKey (table_entries t) h.fit.2,
      AllFit-AllShort key_sk ek h.fit.3,
    );
    few = omega (arith, length-all_records ea er (table_entries t) ek, h.few);
  }

  -- A save that returns 0, whatever it has been answered, and a load of the file at its path into a server
  -- whose engines are empty and have room, with every allocation granted: the load returns 0 with the
  -- saved checkpoint, and the array, the tree, the hash table and the skiplist read as they did, key by key.
  pub load-save :
      (save_env : SaveEnv) (sv : Server R K) (ea er : List Entry) (t : List Chain) (ek : List Entry)
      (path : Bytes) (cp : Option Checkpoint) (old : Option Bytes) (disk : Disk)
      → Stores sv ea er t ek
      → IsCheckpoint (checkpoint_of cp)
      → save_with_checkpoint rb_visit sk_visit save_env sv path cp old ≡ some (disk, true)
      → (env : ℕ → RecordEnv) (empty : Server R K) → ((i : ℕ) → IsGenerous (env i))
      → (length path == 0) ≡ false
      → IsFresh rb sk ready_rb key_rb view_rb rb-Restores ready_sk key_sk view_sk sk-Restores ea er
          (table_entries t)
          ek
          empty
      → (file : Bytes) × (disk.target ≡ some file)
        × ((sv' : Server R K) × (load_with_checkpoint rb sk env (opened file) true path empty
              ≡ some (sv', loaded (stored (checkpoint_of cp))))
            × ((q : Bytes) → Shape.view sv'.array_store q ≡ Shape.view sv.array_store q)
            × ((q : Bytes) → view_rb sv'.rbtree_store q ≡ view_rb sv.rbtree_store q)
            × ((q : Bytes) → Table.view sv'.hash_store q ≡ Table.view sv.hash_store q)
            × ((q : Bytes) → view_sk sv'.skiplist_store q ≡ view_sk sv.skiplist_store q))
  load-save save_env sv ea er t ek path cp old disk h icp ok env empty g e fresh =
      let file = snapshot_bytes (checkpoint_of cp) (all_records ea er (table_entries t) ek) in
      let (r, run, how) =
        save_with_checkpoint-Replaced rb_visit sk_visit save_env sv ea er (table_entries t) ek
          (stored-HasEntries sv ea er t ek h) path cp old icp in
      let same : r ≡ (disk, true) = some_same (sym run ∙ ok) in
      let (sv', load, reads, kept) =
        load-snapshot_bytes rb sk ready_rb key_rb view_rb rb-Restores ready_sk key_sk view_sk
          sk-Restores ea er (table_entries t) ek env path (checkpoint_of cp) empty g icp e
          (record {
            in_the_array = record { unique = h.in_the_array.unique; fit = h.fit.0 };
            in_the_tree = record { unique = h.unique.0; fit = h.fit.1 };
            in_the_hash = record { unique = table_entries-IsUnique h.in_the_hash; fit = h.fit.2 };
            in_the_skiplist = record { unique = h.unique.1; fit = h.fit.3 };
            few = h.few;
          })
          fresh in
      (
        file,
        sym (ap (λ x. x.0.target) same) ∙ target_of_done r how (ap (λ x. x.1) same),
        (
          sv',
          load,
          λ q. reads.array_reads q ∙ sym (Shape.view_lem q h.in_the_array),
          λ q. reads.tree_reads q ∙ sym (h.tree_reads q),
          λ q. reads.hash_reads q ∙ lookup-table_entries h.in_the_hash q,
          λ q. reads.skiplist_reads q ∙ sym (h.skiplist_reads q),
        ),
      )
