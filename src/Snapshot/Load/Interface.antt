-- ===== src/Snapshot/Load/Interface.antt =====
-- src/persistence/snapshot_store.c: what a load needs of an engine, and what the array and the hash table
-- offer.
use kvstore.Common.{ℕ, suc, ◌+◌, ◌≤◌, ◌≡◌, ◌∙◌, ap, arith, true, Bytes, Option, none, some}
use kvstore.Engines.Base.{Ret, success, not_found, failure, no_memory, Mem, Run}
use kvstore.Engines.Assoc.{update}
use kvstore.Engines.Contract.{Wrote, Results}
use kvstore.Engines.Array.{KvArray, array_size}
use kvstore.Engines.Array.Shape
use kvstore.Engines.Array.Laws
use kvstore.Engines.Array.Laws.{array_get_lem, array_set_value_lem}
use kvstore.Engines.Array.Room.{set_value-total}
use kvstore.Engines.Hash.{KvHash}
use kvstore.Engines.Hash.Table
use kvstore.Engines.Hash.Table.{IsKey}
use kvstore.Engines.Hash.Laws.{hash_get_lem, hash_set_value_lem}
use kvstore.Kvs.{Engine, array_engine, hash_engine}
use kvstore.Kvs.Promise.{AnyKey}
use kvstore.Snapshot.Load.{insert_into}

-- Every allocation is granted.
abbrev pub IsGranting : Mem → Type 0
IsGranting mem = (i : ℕ) → mem i ≡ true

module _ {S : Type 0} (e : Engine S) (IsReady : ℕ → S → Type 0) (IsKey : Bytes → Type 0)
    (view : S → Bytes → Option Bytes) where
  -- The engine reads as a map that takes new keys, `IsReady n` meaning that it has room for `n` of them.
  pub record Restores : Type 0 where
    pub reads_absent :
        (n : ℕ) (s : S) (k : Bytes)
        → IsReady n s
        → IsKey k
        → view s k ≡ none
        → e.get s k ≡ some none
    pub takes_new :
        (n : ℕ) (s : S) (k v : Bytes) (mem : Mem)
        → IsGranting mem
        → IsReady (suc n) s
        → IsKey k
        → view s k ≡ none
        → (t : S) × (e.set_value mem s k v ≡ some (t, success))
          × IsReady n t
          × ((q : Bytes) → view t q ≡ update (view s) k (some v) q)

  pub insert_into_lem :
      Restores
      → (n : ℕ) (s : S) (k v : Bytes) (mem : Mem) → IsGranting mem
      → IsReady (suc n) s
      → IsKey k
      → view s k ≡ none
      → (t : S) × (insert_into e mem s k v ≡ some (t, success))
        × IsReady n t
        × ((q : Bytes) → view t q ≡ update (view s) k (some v) q)
  unfolding insert_into
  insert_into_lem r n s k v mem g ready key new =
      let (t, run, more, reads) = r.takes_new n s k v mem g ready key new in
      (t, rw (r.reads_absent (suc n) s k ready key new, insert_into) run, more, reads)

-- The store after a write that has returned 0.
written :
    {S : Type 0} {V : S → Type 0} {view : S → Bytes → Option Bytes} {s : S} {k : Bytes}
    {o : Option Bytes} {code : Ret} {run : Run (S × Ret)}
    → code ≡ success
    → Results V view s k o code run
    → (t : S) × (run ≡ some (t, success)) × Wrote V view s k o t
written e ((t, success), f, c, w) = (t, f, w)
written e ((t, not_found), f, c, w) = absurd (cc)
written e ((t, failure), f, c, w) = absurd (cc)
written e ((t, no_memory), f, c, w) = absurd (cc)

-- A valid array with this many unused slots.
abbrev pub ArrayReady : ℕ → KvArray → Type 0
ArrayReady n a = Shape.IsValid a × (a.total + n ≤ array_size)

pub array-Restores : Restores array_engine ArrayReady AnyKey Shape.view
unfolding array_engine
array-Restores = record {
  reads_absent = λ n s k ready key new. array_get_lem k ready.0 ∙ ap some new;
  takes_new = λ n s k v mem g ready key new.
      let code = set_granted mem s k n g new ready.1 in
      let (t, run, w) = written code (array_set_value_lem mem k v ready.0) in
      (t, run, (w.valid, omega (arith, set_value-total mem s k v t success run, ready.1)), w.reads);
}
  where
    set_granted :
        (mem : Mem) (s : KvArray) (k : Bytes) (n : ℕ)
        → IsGranting mem
        → Shape.view s k ≡ none
        → s.total + suc n ≤ array_size
        → Laws.set_code mem (Shape.view s k) s.total ≡ success
    set_granted mem s k n g new room = ground (arith, g 0, g 1, new, room)

abbrev pub HashReady : ℕ → KvHash → Type 0
HashReady n h = Table.IsValid h

pub hash-Restores : Restores hash_engine HashReady IsKey Table.view
unfolding hash_engine
hash-Restores = record {
  reads_absent = λ n s k ready key new. hash_get_lem k ready key ∙ ap some new;
  takes_new = λ n s k v mem g ready key new.
      let (t, run, w) =
        written (ground (arith, g 0, g 1, g 2, new)) (hash_set_value_lem mem k v ready key) in
      (t, run, w.valid, w.reads);
}
