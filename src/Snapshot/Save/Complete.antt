-- ===== src/Snapshot/Save/Complete.antt =====
-- src/persistence/snapshot_store.c: the file that snapshot_write_contents leaves.
use kvstore.Common.{
  ℕ, ◌+◌, ◌≤◌, ◌≡◌, refl, sym, ap, subst, ◌∙◌, arith, Bool, List, [], ◌∷◌, ◌++◌, Bytes, Option,
  none, some, some_same, Option-cases, inl, inr, length, length-append, append-nil, append_assoc,
}
use kvstore.Engines.Base.{Run}
use kvstore.Engines.Assoc.{Entry}
use kvstore.Kvs.{Server}
use kvstore.Snapshot.{
  Checkpoint, SnapshotEngine, in_array, in_rbtree, in_hash, in_skiplist, crc_update, crc_start,
  crc_end, encode_u32_be,
}
use kvstore.Snapshot.Writer.{SnapshotWriter, fresh}
use kvstore.Snapshot.Writer.Appended.{
  contents, IsWriter, Unwritten, append-Unwritten, refuses, appends, writer_append_lem, unwritten,
  flushed, writer_flush_lem,
}
use kvstore.Snapshot.Save.{
  Iteration, array_iteration, hash_iteration, uint64_max, write_header, count_records,
  write_records, write_end, write_contents,
}
use kvstore.Snapshot.Save.Format.{
  Record, record_bytes, records_bytes, covered, snapshot_bytes, tagged,
}
use kvstore.Snapshot.Save.Taken.{
  Takes, stops, takes, after_step, nothing_taken, IsCheckpoint, write_header_lem,
}
use kvstore.Snapshot.Save.Contents.{Visits, AllShort, count_engine, write_engine}

-- The records of the four engines in the order of the file.
abbrev pub all_records : List Entry → List Entry → List Entry → List Entry → List Record
all_records ea er eh ek =
    tagged in_array ea ++ (tagged in_rbtree er ++ (tagged in_hash eh ++ tagged in_skiplist ek))

pub records_bytes-append :
    (a b : List Record) → records_bytes (a ++ b) ≡ records_bytes a ++ records_bytes b
unfolding records_bytes
records_bytes-append [] b = refl
records_bytes-append (r ∷ a) b =
    ap (λ x. record_bytes r ++ x) (records_bytes-append a b)
    ∙ sym (append_assoc (record_bytes r) (records_bytes a) (records_bytes b))

length-tagged : (engine : SnapshotEngine) (es : List Entry) → length (tagged engine es) ≡ length es
unfolding tagged
length-tagged engine [] = refl
length-tagged engine (e ∷ es) = omega (arith, length-tagged engine es)

pub length-all_records :
    (ea er eh ek : List Entry)
    → length (all_records ea er eh ek) ≡ 0 + length ea + length er + length eh + length ek
length-all_records ea er eh ek = omega (
  arith,
  length-append (tagged in_array ea)
      (tagged in_rbtree er ++ (tagged in_hash eh ++ tagged in_skiplist ek)),
  length-append (tagged in_rbtree er) (tagged in_hash eh ++ tagged in_skiplist ek),
  length-append (tagged in_hash eh) (tagged in_skiplist ek),
  length-tagged in_array ea,
  length-tagged in_rbtree er,
  length-tagged in_hash eh,
  length-tagged in_skiplist ek,
)

-- What a save of a fresh writer comes to: all bytes in the file, or a failure that a batch which is
-- not written explains, or a file that would be too long.
pub data Saves (writes : ℕ → Bool) (bytes : Bytes) (run : Run (Option SnapshotWriter))
    : Type 0 where
  unsaved : run ≡ some none → Unwritten writes bytes → Saves writes bytes run
  saved : (w : SnapshotWriter) → run ≡ some (some w) → w.file ≡ bytes → Saves writes bytes run

pub fresh-IsWriter : (cp : Checkpoint) → IsWriter (fresh cp)
fresh-IsWriter cp = record { ends = refl; fits = omega arith }

-- The checksum and the last batch, behind what the checksum covers.
ended :
    {writes : ℕ → Bool} {cp : Checkpoint} {body : Bytes} {run : Run (Option SnapshotWriter)}
    {r : Run (Option (SnapshotWriter × ℕ))}
    → Takes writes (fresh cp) crc_start body r
    → (r ≡ some none → run ≡ some none)
    → ((p : SnapshotWriter × ℕ) → r ≡ some (some p) → run ≡ some (write_end writes p))
    → Saves writes (body ++ encode_u32_be (crc_end (crc_update crc_start body))) run
unfolding write_end
ended {writes} {cp} {body} (stops f why) fails ends =
    unsaved (fails f)
      (append-Unwritten writes body (encode_u32_be (crc_end (crc_update crc_start body))) why)
ended {writes} {cp} {body} {run} (takes v c f sum iv all same) fails ends =
    let tail = encode_u32_be (crc_end (crc_update crc_start body)) in
    let whole : contents v ++ encode_u32_be (crc_end c) ≡ body ++ tail =
      ap (λ x. x ++ encode_u32_be (crc_end c)) all
      ∙ ap (λ x. body ++ encode_u32_be (crc_end x)) sum in
    elim (writer_append_lem writes v (encode_u32_be (crc_end c)) iv) [
      | refuses g why ↦
          unsaved (ends (v, c) f ∙ rw (write_end, g) refl) (subst (Unwritten writes) whole why)
      | appends u g iu more cu ↦ elim (writer_flush_lem writes u iu) [
        | unwritten k why ↦
            unsaved (ends (v, c) f ∙ rw (write_end, g, k) refl)
              (subst (Unwritten writes) (more ∙ whole) why)
        | flushed x k ix file empty cx ↦
            saved x (ends (v, c) f ∙ rw (write_end, g, k) refl) (file ∙ more ∙ whole)
      ]
    ]

module _ {R K : Type 0} (rb : Iteration R) (sk : Iteration K) where
  -- The engines of a server visit these entries, which fit the format.
  pub record HasEntries (sv : Server R K) (ea er eh ek : List Entry) : Type 1 where
    pub in_the_array : Visits array_iteration sv.array_store ea
    pub in_the_tree : Visits rb sv.rbtree_store er
    pub in_the_hash : Visits hash_iteration sv.hash_store eh
    pub in_the_skiplist : Visits sk sv.skiplist_store ek
    pub short : AllShort ea × AllShort er × AllShort eh × AllShort ek
    pub few : length ea + length er + length eh + length ek ≤ uint64_max

  module _ (sv : Server R K) (ea er eh ek : List Entry) (h : HasEntries sv ea er eh ek) where
    counted : count_records rb sk sv ≡ some (some (length (all_records ea er eh ek)))
    unfolding count_records
    counted =
        count_engine array_iteration sv.array_store ea 0 _ h.in_the_array (omega (arith, h.few))
        ∙ count_engine rb sv.rbtree_store er (0 + length ea) _ h.in_the_tree (omega (arith, h.few))
        ∙ count_engine hash_iteration sv.hash_store eh (0 + length ea + length er) _ h.in_the_hash
            (omega (arith, h.few))
        ∙ count_engine sk sv.skiplist_store ek (0 + length ea + length er + length eh) _
            h.in_the_skiplist (omega (arith, h.few))
        ∙ ap (λ n. some (some n)) (sym (length-all_records ea er eh ek))

    parts :
        records_bytes (tagged in_array ea)
          ++ (records_bytes (tagged in_rbtree er)
              ++ (records_bytes (tagged in_hash eh)
                  ++ (records_bytes (tagged in_skiplist ek) ++ [])))
        ≡ records_bytes (all_records ea er eh ek)
    parts = rw (records_bytes-append, records_bytes-append, records_bytes-append, append-nil) refl

    records_written :
        (writes : ℕ → Bool) (w : SnapshotWriter) (crc : ℕ)
        → IsWriter w
        → Takes writes w crc
            (records_bytes (all_records ea er eh ek))
            (write_records rb sk writes sv (w, crc))
    unfolding write_records
    records_written writes w crc iw =
        subst (λ x. Takes writes w crc x (write_records rb sk writes sv (w, crc))) parts
          (write_engine array_iteration sv.array_store writes in_array ea w crc _ _ h.in_the_array
            (h.short.0) iw
            (λ w1 c1 i1.
              write_engine rb sv.rbtree_store writes in_rbtree er w1 c1 _ _ h.in_the_tree
                (h.short.1) i1
                (λ w2 c2 i2.
                  write_engine hash_iteration sv.hash_store writes in_hash eh w2 c2 _ _
                    h.in_the_hash (h.short.2) i2
                    (λ w3 c3 i3.
                      write_engine sk sv.skiplist_store writes in_skiplist ek w3 c3 [] _
                        h.in_the_skiplist (h.short.3) i3 (λ w4 c4 i4. nothing_taken i4)))))

    -- The header and the records.
    body_run : (ℕ → Bool) → Checkpoint → Run (Option (SnapshotWriter × ℕ))
    body_run writes cp =
        elim (write_header writes (fresh cp) (length (all_records ea er eh ek)) crc_start) [
          | none ↦ some none
          | some p ↦ write_records rb sk writes sv p
        ]

    body_taken :
        (writes : ℕ → Bool) (cp : Checkpoint)
        → IsCheckpoint cp
        → Takes writes
            (fresh cp)
            crc_start
            (covered cp (all_records ea er eh ek))
            (body_run writes cp)
    unfolding body_run covered
    body_taken writes cp icp =
        after_step (write_header_lem writes (fresh cp) _ crc_start (fresh-IsWriter cp) icp)
          (λ f. rw (body_run, some_same f) refl)
          (λ v c f iv cv. rw (body_run, some_same f) (records_written writes v c iv))

    as_body :
        (writes : ℕ → Bool) (cp : Checkpoint)
        → write_contents rb sk writes sv (fresh cp) ≡ elim (body_run writes cp) [
          | none ↦ none
          | some none ↦ some none
          | some (some q) ↦ some (write_end writes q)
        ]
    unfolding write_contents body_run
    as_body writes cp =
        rw (write_contents, counted, body_run)
          (elim (Option-cases
            (write_header writes (fresh cp) (length (all_records ea er eh ek)) crc_start)) [
              | inl e ↦ rw (e) refl
              | inr (p, e) ↦ rw (e) refl
            ])

    -- snapshot_write_contents on a new file, where the engines visit these entries, which fit the format, and
    -- a stored offset is not negative: it does not fault; with 0 the file is exactly the snapshot of the
    -- records of array, tree, hash table and skiplist, and it returns -1 only if a batch is not written
    -- or the snapshot is longer than a file can be.
    pub write_contents-Saves :
        (writes : ℕ → Bool) (cp : Checkpoint)
        → IsCheckpoint cp
        → Saves writes
            (snapshot_bytes cp (all_records ea er eh ek))
            (write_contents rb sk writes sv (fresh cp))
    unfolding write_contents snapshot_bytes covered
    write_contents-Saves writes cp icp =
        ended (body_taken writes cp icp) (λ f. as_body writes cp ∙ rw f refl)
          (λ p f. as_body writes cp ∙ rw f refl)
