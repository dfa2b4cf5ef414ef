-- ===== src/Snapshot/Save/Contents.antt =====
-- src/persistence/snapshot_store.c: snapshot_write_contents on engines that visit given entries.
use kvstore.Common.{
  ℕ, suc, ◌+◌, ◌≤◌, ◌≡◌, refl, sym, ap, subst, ◌∙◌, arith, ◌==◌, Bool, true, false, List, [], ◌∷◌,
  ◌++◌, Bytes, Option, some, some_same, length, append_assoc,
}
use kvstore.Engines.Base.{Run, success}
use kvstore.Engines.Assoc.{Entry}
use kvstore.Engines.Array.Visit.{visit_all, visit_more, visit_stop, array_foreach_lem}
use kvstore.Engines.Array.Shape
use kvstore.Engines.Array.Shape.{entries-full}
use kvstore.Engines.Array.{KvArray}
use kvstore.Engines.Hash.{KvHash, Chain}
use kvstore.Engines.Hash.Table.{Holds}
use kvstore.Engines.Hash.Visit.{table_entries, hash_foreach_lem}
use kvstore.Snapshot.{SnapshotEngine}
use kvstore.Snapshot.Writer.{SnapshotWriter}
use kvstore.Snapshot.Writer.Appended.{IsWriter}
use kvstore.Snapshot.Save.{
  Iteration, array_iteration, hash_iteration, uint64_max, visit_then, is_negative, count_item,
  write_item,
}
use kvstore.Snapshot.Save.Format.{record_bytes, records_bytes, tagged}
use kvstore.Snapshot.Save.Taken.{Takes, after_step, IsShort, write_record_lem}

-- The engine visits these entries, in this order, up to the first that the visitor refuses.
pub record Visits {S : Type 0} (it : Iteration S) (s : S) (es : List Entry) : Type 1 where
  pub visits :
      {C : Type 0} (visit : Bytes → Bytes → C → C × Bool) (c : C)
      → it.foreach visit s c ≡ some (visit_all visit es c)

pub array-Visits : {a : KvArray} {es : List Entry} → Shape.Holds a es → Visits array_iteration a es
array-Visits {a} {es} h = record {
  visits = λ visit c.
      array_foreach_lem visit a c (es, h)
      ∙ ap (λ x. some (visit_all visit x c)) (rw (h.table, h.total) (entries-full es h.spare));
}

pub hash-Visits :
    {h : KvHash} {t : List Chain} → Holds h t → Visits hash_iteration h (table_entries t)
hash-Visits v = record { visits = λ visit c. hash_foreach_lem visit c v }

-- Keys and values whose lengths fit the format.
unfoldable pub AllShort : List Entry → Type 0
AllShort [] = Unit
AllShort (e ∷ es) = IsShort e × AllShort es

counted : (k v : Bytes) (n : ℕ) → suc n ≤ uint64_max → count_item k v n ≡ (n + 1, true)
unfolding count_item
counted k v n h =
    let more : (n == uint64_max) ≡ false = ground (arith, h) in rw (more, count_item) refl

count_all :
    (es : List Entry) (n : ℕ)
    → n + length es ≤ uint64_max
    → visit_all count_item es n ≡ (n + length es, success)
unfolding visit_all
count_all [] n h = ap (λ m. (m, success)) (omega arith)
count_all ((k, v) ∷ es) n h =
    let sum : n + 1 + length es ≡ n + suc (length es) = omega arith in
    visit_more count_item k v es n (n + 1) (counted k v n (omega (arith, h)))
    ∙ (count_all es (n + 1) (omega (arith, h)) ∙ ap (λ m. (m, success)) sum)

count_then :
    (es : List Entry) (n : ℕ) (rest : ℕ → Run (Option ℕ))
    → n + length es ≤ uint64_max
    → visit_then (some (visit_all count_item es n)) rest ≡ rest (n + length es)
unfolding visit_then is_negative
count_then es n rest h = rw (count_all es n h) refl

-- The records of one engine, and then the rest.
records_then :
    (writes : ℕ → Bool) (engine : SnapshotEngine) (es : List Entry) (w : SnapshotWriter) (crc : ℕ)
    (b : Bytes) (rest : SnapshotWriter × ℕ → Run (Option (SnapshotWriter × ℕ)))
    → AllShort es
    → IsWriter w
    → ((v : SnapshotWriter) (c : ℕ) → IsWriter v → Takes writes v c b (rest (v, c)))
    → Takes writes w crc
        (records_bytes (tagged engine es) ++ b)
        (visit_then (some (visit_all (write_item writes engine) es (w, crc))) rest)
unfolding visit_then is_negative records_bytes tagged write_item AllShort visit_all
records_then writes engine [] w crc b rest s iw more = more w crc iw
records_then writes engine ((k, v) ∷ es) w crc b rest s iw more =
    subst
      (λ x.
        Takes writes w crc x
          (visit_then (some (visit_all (write_item writes engine) ((k, v) ∷ es) (w, crc))) rest))
      (sym (append_assoc (record_bytes (engine, (k, v))) (records_bytes (tagged engine es)) b))
      (after_step (write_record_lem writes engine k v w crc iw s.0)
        (λ f.
          rw
            (visit_stop (write_item writes engine) k v es (w, crc) (w, crc)
              (rw (some_same f, write_item) refl))
            refl)
        (λ u c f iu cu.
          rw
            (visit_more (write_item writes engine) k v es (w, crc) (u, c)
              (rw (some_same f, write_item) refl))
            (records_then writes engine es u c b rest s.1 iu more)))

-- One call of a foreach in the sequence.
pub count_engine :
    {S : Type 0} (it : Iteration S) (s : S) (es : List Entry) (n : ℕ) (rest : ℕ → Run (Option ℕ))
    → Visits it s es
    → n + length es ≤ uint64_max
    → visit_then (it.foreach count_item s n) rest ≡ rest (n + length es)
count_engine it s es n rest v h = rw (v.visits count_item n) (count_then es n rest h)

pub write_engine :
    {S : Type 0} (it : Iteration S) (s : S) (writes : ℕ → Bool) (engine : SnapshotEngine)
    (es : List Entry) (w : SnapshotWriter) (crc : ℕ) (b : Bytes)
    (rest : SnapshotWriter × ℕ → Run (Option (SnapshotWriter × ℕ)))
    → Visits it s es
    → AllShort es
    → IsWriter w
    → ((v : SnapshotWriter) (c : ℕ) → IsWriter v → Takes writes v c b (rest (v, c)))
    → Takes writes w crc
        (records_bytes (tagged engine es) ++ b)
        (visit_then (it.foreach (write_item writes engine) s (w, crc)) rest)
write_engine it s writes engine es w crc b rest v short iw more =
    rw (v.visits (write_item writes engine) (w, crc))
      (records_then writes engine es w crc b rest short iw more)
