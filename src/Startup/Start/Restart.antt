-- ===== src/Startup/Start/Restart.antt =====
-- src/kvstore.c: a start of the hybrid mode from the snapshot that a SAVE has left.
use kvstore.Common.{
  ℕ, zero, suc, ◌≤◌, ◌≡◌, ◌≢◌, ◌∙◌, refl, ap, arith, ◌==◌, ltb, true, false, List, [], Bytes, codes,
  Option, some, length, drop_all,
}
use kvstore.Engines.Assoc.{Entry}
use kvstore.Engines.Array.{array_size}
use kvstore.Aof.{Writer, mapped, open_writer, replay, replay_loop, ReplayHandler}
use kvstore.Kvs.{Role, standalone, primary, replica, legacy_hybrid, Engine, Server}
use kvstore.Kvs.Recovery.Rebuild.{recover}
use kvstore.Snapshot.{Checkpoint}
use kvstore.Snapshot.Save.Format.{snapshot_bytes}
use kvstore.Snapshot.Save.Taken.{IsCheckpoint}
use kvstore.Snapshot.Save.Complete.{all_records}
use kvstore.Snapshot.Read.Headers.{stored}
use kvstore.Snapshot.Load.{opened, loaded, load_with_checkpoint}
use kvstore.Snapshot.Load.Interface.{Restores}
use kvstore.Snapshot.Load.Restored.{IsGenerous}
use kvstore.Snapshot.Load.RoundTrip.{load-snapshot_bytes}
use kvstore.Startup.{Lifecycle, init_kvengine}
use kvstore.Startup.Fresh.{Begins}
use kvstore.Startup.Install.{ReadsSaved, Saved, init_kvengine-Fresh}
use kvstore.Startup.Start.{
  StartEnv, started, start_aof, start_replay, after_replay, start_hybrid, start_mode, start_role,
  start_up,
}

nothing_left :
    {S : Type 0} (handler : ReplayHandler S) (s : S) (fuel : ℕ)
    → replay_loop fuel handler s [] ≡ (s, true)
unfolding replay_loop
nothing_left handler s zero = refl
nothing_left handler s (suc fuel) = refl

-- A replay from the end of the file.
replay-end :
    {S : Type 0} (handler : ReplayHandler S) (s : S) (file : Bytes) (offset : ℕ)
    → length file ≡ offset
    → replay true handler s (mapped file) offset ≡ (s, true)
unfolding replay
replay-end handler s file offset e =
    let at : ltb offset (length file) ≡ false = ground (arith, e) in
    rw (at, replay, drop_all (length file) file (omega arith), nothing_left handler s (length file))
      refl

-- The files and answers of a start after a SAVE at the end of the AOF.
pub record IsAfterSave (env : StartEnv) (cp : Checkpoint) : Type 0 where
  pub has_offset : cp.has_offset ≡ 1
  pub ends : length env.aof_bytes ≡ cp.offset
  pub aof : env.aof ≡ mapped env.aof_bytes
  pub aof_unmapped : env.aof_unmapped ≡ true
  pub unmapped : env.unmapped ≡ true
  pub granted : env.granted ≡ true
  pub generous : (i : ℕ) → IsGenerous (env.load_env i)
  pub junk : length env.create.junk ≡ array_size

-- The writer that the start leaves.
abbrev pub writer_at_end : Bytes → Writer
writer_at_end file = record { opened = true; offset = length file; file = file }

module _ {R K : Type 0} (rb : Engine R) (sk : Engine K) (ready_rb : ℕ → R → Type 0)
    (key_rb : Bytes → Type 0) (view_rb : R → Bytes → Option Bytes)
    (rb-Restores : Restores rb ready_rb key_rb view_rb) (ready_sk : ℕ → K → Type 0)
    (key_sk : Bytes → Type 0) (view_sk : K → Bytes → Option Bytes)
    (sk-Restores : Restores sk ready_sk key_sk view_sk) (ea er eh ek : List Entry)
    (rb_life : Lifecycle R) (sk_life : Lifecycle K) (rb-Begins : Begins rb_life ready_rb view_rb)
    (sk-Begins : Begins sk_life ready_sk view_sk) where
  aof_started :
      (env : StartEnv) (sv : Server R K)
      → sv.writer.opened ≡ false
      → env.granted ≡ true
      → start_aof rb_life sk_life rb sk env sv
        ≡ started (record sv { writer = writer_at_end env.aof_bytes })
  unfolding start_aof open_writer
  aof_started env sv closed granted = ground (arith, closed, granted)

  replay_started :
      (env : StartEnv) (sv : Server R K) (cp : Checkpoint)
      → IsAfterSave env cp
      → sv.writer.opened ≡ false
      → start_replay rb_life sk_life rb sk env (stored cp).offset sv
        ≡ some (started (record sv { writer = writer_at_end env.aof_bytes }))
  unfolding start_replay after_replay
  replay_started env sv cp h closed =
      let offset : length env.aof_bytes ≡ (stored cp).offset =
        h.ends ∙ ground (arith, h.has_offset) in
      let handler = recover rb sk env.call.env.mem env.call in
      let run : replay env.aof_unmapped handler (some sv) env.aof (stored cp).offset
          ≡ (some sv, true) =
        ap (λ u. replay u handler (some sv) env.aof (stored cp).offset) h.aof_unmapped
        ∙ ap (λ m. replay true handler (some sv) m (stored cp).offset) h.aof
        ∙ replay-end handler (some sv) env.aof_bytes (stored cp).offset offset in
      ap (after_replay rb_life sk_life rb sk env) run
      ∙ ap some (aof_started env sv closed h.granted)

  hybrid_started :
      (env : StartEnv) (sv : Server R K) (cp : Checkpoint)
      → IsAfterSave env cp
      → sv.writer.opened ≡ false
      → start_hybrid rb_life sk_life rb sk env (some (sv, loaded (stored cp)))
        ≡ some (started (record sv { writer = writer_at_end env.aof_bytes }))
  unfolding start_hybrid
  hybrid_started env sv cp h closed =
      let has : ((stored cp).has_offset == 0) ≡ false = ground (arith, h.has_offset) in
      rw (has, start_hybrid) (replay_started env sv cp h closed)

  by_mode :
      (env : StartEnv) (role : Role) (sv : Server R K)
      → role ≢ replica
      → start_role rb_life sk_life rb sk env role legacy_hybrid sv
        ≡ start_mode rb_life sk_life rb sk env legacy_hybrid sv
  unfolding start_role
  by_mode env standalone sv h = refl
  by_mode env primary sv h = refl
  by_mode env replica sv h = absurd (h refl)

  -- A start of a standalone server or a primary in the hybrid mode, where the AOF is not open yet, the engines
  -- are created, the files can be opened, mapped and unmapped, every allocation of the load is granted, and
  -- nothing has been appended to the AOF since the SAVE whose file it finds: it goes on, its engines read exactly as the saved entries do, and the AOF is open at its end.
  pub start_up-ReadsSaved :
      (env : StartEnv) (role : Role) (cp : Checkpoint) (sv : Server R K)
      → role ≢ replica
      → sv.writer.opened ≡ false
      → env.snapshot ≡ opened (snapshot_bytes cp (all_records ea er eh ek))
      → IsCheckpoint cp
      → IsAfterSave env cp
      → length ea ≤ array_size
      → Saved rb sk ready_rb key_rb view_rb rb-Restores ready_sk key_sk view_sk sk-Restores ea er eh
          ek rb_life sk_life rb-Begins sk-Begins
      → (init_kvengine rb_life sk_life env.create
          (record sv { role = role; mode = legacy_hybrid })).1
        ≡ true
      → (sv' : Server R K) × (start_up rb_life sk_life rb sk env role legacy_hybrid sv
          ≡ some (started sv'))
        × ReadsSaved rb sk ready_rb key_rb view_rb rb-Restores ready_sk key_sk view_sk sk-Restores
            ea er eh ek rb_life sk_life rb-Begins sk-Begins sv'
        × (sv'.writer ≡ writer_at_end env.aof_bytes)
  unfolding start_up start_mode
  start_up-ReadsSaved env role cp sv role_fits closed file icp h room saved ok =
      let sv0 : Server R K = record sv { role = role; mode = legacy_hybrid } in
      let (fresh, kept) =
        init_kvengine-Fresh rb sk ready_rb key_rb view_rb rb-Restores ready_sk key_sk view_sk
          sk-Restores ea er eh ek rb_life sk_life rb-Begins sk-Begins env.create sv0 h.junk room
          ok in
      let begun = (init_kvengine rb_life sk_life env.create sv0).0 in
      let (sv', run, reads, writer) =
        load-snapshot_bytes rb sk ready_rb key_rb view_rb rb-Restores ready_sk key_sk view_sk
          sk-Restores ea er eh ek env.load_env (codes "snapshot.db") cp begun h.generous icp refl
          saved fresh in
      let load : load_with_checkpoint rb sk env.load_env env.snapshot env.unmapped
            (codes "snapshot.db") begun
          ≡ some (sv', loaded (stored cp)) =
        ap (λ x. load_with_checkpoint rb sk env.load_env x env.unmapped (codes "snapshot.db") begun)
          file
        ∙ ap
            (λ x.
              load_with_checkpoint rb sk env.load_env
                (opened (snapshot_bytes cp (all_records ea er eh ek))) x (codes "snapshot.db")
                begun)
            h.unmapped
        ∙ run in
      let still_closed : sv'.writer.opened ≡ false = ap (λ w. w.opened) (writer ∙ kept) ∙ closed in
      (
        record sv' { writer = writer_at_end env.aof_bytes },
        rw (ok, start_up)
            (by_mode env role begun role_fits
              ∙ ap (start_hybrid rb_life sk_life rb sk env) load
              ∙ hybrid_started env sv' cp h still_closed),
        record {
          array_reads = reads.array_reads;
          tree_reads = reads.tree_reads;
          hash_reads = reads.hash_reads;
          skiplist_reads = reads.skiplist_reads;
        },
        refl,
      )
