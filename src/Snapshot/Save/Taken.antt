-- ===== src/Snapshot/Save/Taken.antt =====
-- src/persistence/snapshot_store.c: the header and the records as the writer takes them.
use kvstore.Common.{
  ℕ, Bool, ◌≤◌, ◌≡◌, ◌⊎◌, refl, sym, ap, subst, ◌∙◌, arith, ltb, false, not, ◌&&◌, ◌||◌, ◌==◌, [],
  ◌∷◌, ◌++◌, Bytes, Option, none, some, length, append-nil, append_assoc, inl, inr,
}
use kvstore.Engines.Base.{Run}
use kvstore.Engines.Assoc.{Entry}
use kvstore.Snapshot.{
  Checkpoint, SnapshotEngine, engine_number, encode_u32_be, crc_update, uint32_max, int64_max,
}
use kvstore.Snapshot.Number.{crc_update-append}
use kvstore.Snapshot.Writer.{SnapshotWriter, writer_append}
use kvstore.Snapshot.Writer.Appended.{
  contents, IsWriter, Unwritten, append-Unwritten, Appends, refuses, appends, writer_append_lem,
}
use kvstore.Snapshot.Save.{write_header, write_record}
use kvstore.Snapshot.Save.Format.{header_bytes, record_bytes}

-- A step of a save writes these bytes behind those before and adds them to the checksum, or it fails
-- because a batch is not written or the file would be too long.
pub data Takes (writes : ℕ → Bool) (w : SnapshotWriter) (crc : ℕ) (bytes : Bytes)
    (run : Run (Option (SnapshotWriter × ℕ))) : Type 0 where
  stops : run ≡ some none → Unwritten writes (contents w ++ bytes) → Takes writes w crc bytes run
  takes :
      (v : SnapshotWriter) (c : ℕ)
      → run ≡ some (some (v, c))
      → c ≡ crc_update crc bytes
      → IsWriter v
      → contents v ≡ contents w ++ bytes
      → v.checkpoint ≡ w.checkpoint
      → Takes writes w crc bytes run

longer :
    (writes : ℕ → Bool) (w : SnapshotWriter) (a b : Bytes)
    → Unwritten writes (contents w ++ a)
    → Unwritten writes (contents w ++ (a ++ b))
longer writes w a b why =
    subst (Unwritten writes) (append_assoc (contents w) a b)
      (append-Unwritten writes (contents w ++ a) b why)

-- A step behind a writer that has taken the first bytes.
continued :
    {writes : ℕ → Bool} {w : SnapshotWriter} {crc : ℕ} (a b : Bytes)
    {run : Run (Option (SnapshotWriter × ℕ))} (v : SnapshotWriter) (c : ℕ)
    → c ≡ crc_update crc a
    → contents v ≡ contents w ++ a
    → v.checkpoint ≡ w.checkpoint
    → Takes writes v c b run
    → Takes writes w crc (a ++ b) run
continued {writes} {w} {crc} a b v c e all cp (stops f why) =
    stops f (subst (Unwritten writes) (ap (λ x. x ++ b) all ∙ append_assoc (contents w) a b) why)
continued {writes} {w} {crc} a b v c e all cp (takes u d f sum iu more cu) =
    takes u d f (sum ∙ ap (λ x. crc_update x b) e ∙ sym (crc_update-append crc a b)) iu
      (more ∙ ap (λ x. x ++ b) all ∙ append_assoc (contents w) a b) (cu ∙ cp)

-- A step after an append, and one after another step.
pub after_append :
    {writes : ℕ → Bool} {w : SnapshotWriter} {crc : ℕ} {a b : Bytes}
    {run : Run (Option (SnapshotWriter × ℕ))} {r : Option SnapshotWriter}
    → Appends writes w a r
    → (r ≡ none → run ≡ some none)
    → ((v : SnapshotWriter)
        → r ≡ some v
        → IsWriter v
        → v.checkpoint ≡ w.checkpoint
        → Takes writes v (crc_update crc a) b run)
    → Takes writes w crc (a ++ b) run
after_append {writes} {w} {crc} {a} {b} (refuses f why) fails rest =
    stops (fails f) (longer writes w a b why)
after_append {writes} {w} {crc} {a} {b} (appends v f iv all cp) fails rest =
    continued a b v (crc_update crc a) refl all cp (rest v f iv cp)

pub after_step :
    {writes : ℕ → Bool} {w : SnapshotWriter} {crc : ℕ} {a b : Bytes}
    {run : Run (Option (SnapshotWriter × ℕ))} {r : Run (Option (SnapshotWriter × ℕ))}
    → Takes writes w crc a r
    → (r ≡ some none → run ≡ some none)
    → ((v : SnapshotWriter) (c : ℕ)
        → r ≡ some (some (v, c))
        → IsWriter v
        → v.checkpoint ≡ w.checkpoint
        → Takes writes v c b run)
    → Takes writes w crc (a ++ b) run
after_step {writes} {w} {crc} {a} {b} (stops f why) fails rest =
    stops (fails f) (longer writes w a b why)
after_step {writes} {w} {crc} {a} {b} (takes v c f sum iv all cp) fails rest =
    continued a b v c sum all cp (rest v c f iv cp)

pub last_append :
    {writes : ℕ → Bool} {w : SnapshotWriter} {crc : ℕ} {a : Bytes} {r : Option SnapshotWriter}
    {run : Run (Option (SnapshotWriter × ℕ))}
    → Appends writes w a r
    → (r ≡ none → run ≡ some none)
    → ((v : SnapshotWriter) → r ≡ some v → run ≡ some (some (v, crc_update crc a)))
    → Takes writes w crc a run
last_append (refuses f why) fails ends = stops (fails f) why
last_append (appends v f iv all cp) fails ends = takes v _ (ends v f) refl iv all cp

pub nothing_taken :
    {writes : ℕ → Bool} {w : SnapshotWriter} {crc : ℕ}
    → IsWriter w
    → Takes writes w crc [] (some (some (w, crc)))
unfolding crc_update
nothing_taken {writes} {w} {crc} iw = takes w crc refl refl iw (sym (append-nil (contents w))) refl

-- An offset that is stored is not negative.
abbrev pub IsCheckpoint : Checkpoint → Type 0
IsCheckpoint cp = (cp.has_offset ≡ 0) ⊎ ((cp.has_offset ≡ 1) × (cp.offset ≤ int64_max))

checked :
    (cp : Checkpoint)
    → IsCheckpoint cp
    → (not (cp.has_offset == 0) && not (cp.has_offset == 1)
        || not (cp.has_offset == 0) && ltb int64_max cp.offset)
      ≡ false
checked cp (inl e) = ground (arith, e)
checked cp (inr (e, h)) = ground (arith, e, h)

header_step :
    (writes : ℕ → Bool) (w : SnapshotWriter) (count crc : ℕ)
    → IsCheckpoint w.checkpoint
    → write_header writes w count crc
      ≡ elim (writer_append writes w (header_bytes w.checkpoint count)) [
        | none ↦ none
        | some v ↦ some (v, crc_update crc (header_bytes w.checkpoint count))
      ]
unfolding write_header header_bytes
header_step writes w count crc icp = rw (checked w.checkpoint icp, write_header) refl

pub write_header_lem :
    (writes : ℕ → Bool) (w : SnapshotWriter) (count crc : ℕ)
    → IsWriter w
    → IsCheckpoint w.checkpoint
    → Takes writes w crc (header_bytes w.checkpoint count) (some (write_header writes w count crc))
write_header_lem writes w count crc iw icp =
    last_append (writer_append_lem writes w (header_bytes w.checkpoint count) iw)
      (λ f. rw (header_step writes w count crc icp, f) refl)
      (λ v f. rw (header_step writes w count crc icp, f) refl)

abbrev pub IsShort : Entry → Type 0
IsShort (key, value) = (length key ≤ uint32_max) × (length value ≤ uint32_max)

pub write_record_lem :
    (writes : ℕ → Bool) (engine : SnapshotEngine) (key value : Bytes) (w : SnapshotWriter) (crc : ℕ)
    → IsWriter w
    → IsShort (key, value)
    → Takes writes w crc
        (record_bytes (engine, (key, value)))
        (some (write_record writes engine key value (w, crc)))
unfolding write_record record_bytes
write_record_lem writes engine key value w crc iw (hk, hv) =
    let short_key : ltb uint32_max (length key) ≡ false = ground (arith, hk) in
    let short_value : ltb uint32_max (length value) ≡ false = ground (arith, hv) in
    let header : Bytes =
      engine_number engine ∷ encode_u32_be (length key) ++ encode_u32_be (length value) in
    after_append (writer_append_lem writes w header iw)
      (λ f. rw (short_key, short_value, write_record, f) refl)
      (λ w1 f1 i1 c1.
        after_append (writer_append_lem writes w1 key i1)
          (λ f. rw (short_key, short_value, write_record, f1, f) refl)
          (λ w2 f2 i2 c2.
            last_append (writer_append_lem writes w2 value i2)
              (λ f. rw (short_key, short_value, write_record, f1, f2, f) refl)
              (λ w3 f3. rw (short_key, short_value, write_record, f1, f2, f3) refl)))
