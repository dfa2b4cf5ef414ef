-- ===== src/Kvs/Recovery/Rebuild.antt =====
-- src/kvstore.c and src/persistence/aof.c: a run of client messages and the replay of its AOF.
use kvstore.Common.{
  ℕ, ◌+◌, ◌≡◌, ◌⊎◌, refl, sym, ap, subst, ◌∙◌, arith, Bool, true, List, [], ◌∷◌, ◌++◌, Bytes,
  Option, none, some, inl, inr, length, ◌==◌, All, append-nil, append_assoc,
}
use kvstore.Protocol.Encoded.{command_bytes}
use kvstore.Engines.Base.{Mem}
use kvstore.Buffer.{OutputBuffer}
use kvstore.Aof.{Io, ReplayHandler, accepted, mapped, replay}
use kvstore.Aof.Append.{IsReady}
use kvstore.Aof.Replay.{IsLoggable, log, run_all, replay-log}
use kvstore.Kvs.{client, ExecStatus, Engine, Server, is_logged}
use kvstore.Kvs.Replies.{arity}
use kvstore.Kvs.Fields.{Call, ended, scan_fields, clean, execute_fields}
use kvstore.Kvs.Fields.Handlers.{answers, stops, recovery_fields_protocol}
use kvstore.Kvs.Recovery.Keeps.{Keeps}
use kvstore.Kvs.Recovery.Dispatch.{with_engines}
use kvstore.Kvs.Recovery.Client.{filter_protocol-change}
use kvstore.Kvs.Recovery.Served.{execute_fields-cases}
use kvstore.Kvs.Recovery.Again.{arity-le, recovery_call, recovery-again}

module _ {R K : Type 0} (rb : Engine R) (sk : Engine K) (mem : Mem) where
  -- One message of a client that ends with a reply or with -1, whatever else the surroundings answer.
  pub data Serves (sv sv' : Server R K) : Type 0 where
    message :
        (fits : Bool) (io : Io) (token_mem : Mem) (grows stored online : Bool) (fields : List Bytes)
        (b b' : OutputBuffer) (reply : Option Bytes) (status : ExecStatus)
        → execute_fields rb sk
            (record {
              env = record { mem = mem; fits = fits; io = io };
              token_mem = token_mem;
              grows = grows;
              stored = stored;
              online = online;
            })
            client
            fields
            b
            sv
          ≡ some (ended sv' b' reply status)
        → Serves sv sv'

  -- Messages one after the other.
  pub data Served : Server R K → Server R K → Type 0 where
    here : {sv : Server R K} → Served sv sv
    next : {sv t u : Server R K} → Serves sv t → Served t u → Served sv u

  -- kvs_recovery_fields_protocol as the callback of the replay; `none` is a process that has ended or
  -- met undefined behaviour.
  pub recover : Call → ReplayHandler (Option (Server R K))
  recover call none fields = (none, none)
  recover call (some sv) fields = elim (recovery_fields_protocol rb sk call fields 1024 sv) [
    | none ↦ (none, none)
    | some (answers sv' n) ↦ (some sv', n)
    | some (stops sv') ↦ (none, none)
  ]

  module _ (fits : Bool) (io : Io) (grows stored online : Bool) where
    abbrev call : Call
    call = recovery_call (record { mem = mem; fits = fits; io = io }) grows stored online

    -- A message whose command the AOF has got, and that the recovery does again.
    record Kept (fields : List Bytes) (sv sv' : Server R K) : Type 0 where
      pub loggable : IsLoggable fields
      pub file : sv'.writer.file ≡ sv.writer.file ++ command_bytes fields
      pub ready : IsReady sv'.writer
      pub mode : sv'.mode ≡ sv.mode
      pub again :
          (other : Server R K)
          → recover call (some (with_engines sv other)) fields
            ≡ (some (with_engines sv' other), some 4)

    Serves-Kept :
        (sv sv' : Server R K)
        → Keeps rb
        → Keeps sk
        → IsReady sv.writer
        → is_logged client sv.mode ≡ true
        → Serves sv sv'
        → (sv' ≡ sv) ⊎ ((fields : List Bytes) × Kept fields sv sv')
    unfolding recover
    Serves-Kept sv sv' kr ks ready uses (message f i tm g s o fields b b' reply status h) =
        elim (execute_fields-cases rb sk _ fields b sv sv' b' reply status h) [
          | inl same ↦ inl same
          | inr (c, r) ↦
              elim (filter_protocol-change rb sk mem f i r.which r.op r.name r.key r.rest sv sv'
                r.text r.status kr ks r.found ready uses r.ran) [
                  | inl same ↦ inl same
                  | inr (w, l) ↦
                      let n : 2 + length r.rest ≡ arity r.op =
                        omega (arith, r.count, ap length r.parts) in
                      let clear = subst (λ x. scan_fields x ≡ clean) r.parts c in
                      inr (
                        r.name ∷ r.key ∷ r.rest,
                        record {
                          loggable = record {
                            some_field = omega arith;
                            few = omega (arith, n, arity-le r.op);
                            small = l.small;
                          };
                          file = l.file;
                          ready = l.ready;
                          mode = l.mode;
                          again = λ other. rw (
                            recover,
                            recovery-again rb sk (record { mem = mem; fits = fits; io = io }) grows
                                stored online r.which r.op r.name r.key r.rest
                                (with_engines sv other) (with_engines sv' other) r.found
                                (l.again other fits io) w n clear,
                          );
                        },
                      )
                ]
        ]

  -- What a replay from the old end of the file does.
  record Rebuilt (call : Call) (sv sv' : Server R K) : Type 0 where
    pub commands : List (List Bytes)
    pub loggable : All IsLoggable commands
    pub file : sv'.writer.file ≡ sv.writer.file ++ log commands
    pub rebuilt :
        (other : Server R K) (end : Bool)
        → run_all (recover call) (some (with_engines sv other)) commands end
          ≡ (some (with_engines sv' other), end)

  module _ (fits : Bool) (io : Io) (grows stored online : Bool) where
    Served-Rebuilt :
        {sv sv' : Server R K}
        → Keeps rb
        → Keeps sk
        → IsReady sv.writer
        → is_logged client sv.mode ≡ true
        → Served sv sv'
        → Rebuilt (call fits io grows stored online) sv sv'
    unfolding accepted
    Served-Rebuilt kr ks ready uses here = record {
      commands = [];
      loggable = tt;
      file = sym (append-nil _);
      rebuilt = λ other end. refl;
    }
    Served-Rebuilt {sv} kr ks ready uses (next {t = t} {u = u} m ms) =
        elim (Serves-Kept fits io grows stored online sv t kr ks ready uses m) [
          | inl same ↦
              let r =
                Served-Rebuilt kr ks (subst (λ x. IsReady x.writer) (sym same) ready)
                  (subst (λ x. is_logged client x.mode ≡ true) (sym same) uses) ms in
              subst (λ x. Rebuilt (call fits io grows stored online) x u) same r
          | inr (fields, k) ↦
              let r =
                Served-Rebuilt kr ks k.ready
                  (subst (λ x. is_logged client x ≡ true) (sym k.mode) uses) ms in
              record {
                commands = fields ∷ r.commands;
                loggable = (k.loggable, r.loggable);
                file =
                    r.file
                    ∙ ap (λ x. x ++ log r.commands) k.file
                    ∙ append_assoc sv.writer.file (command_bytes fields) (log r.commands);
                rebuilt = λ other end. rw (k.again other) (r.rebuilt other end);
              }
        ]

    -- Client messages are served one after the other, each to an end, with the AOF in use and its writer
    -- at the end of the file, on engines whose failed writes change nothing. Then a replay of the file
    -- from its old end on, into the engines as they were, with any settings, the same outcomes of the
    -- engines' allocations and enough memory for the tokens, leaves exactly the engines as they are
    -- now. It does so too if a part of one more command, but not all of it, stands behind, and then
    -- returns -1.
    pub replay-rebuilds :
        (sv sv' other : Server R K) (c : List Bytes) (tail back : Bytes) (x : ℕ)
        → Keeps rb
        → Keeps sk
        → IsReady sv.writer
        → is_logged client sv.mode ≡ true
        → Served sv sv'
        → IsLoggable c
        → command_bytes c ≡ tail ++ (x ∷ back)
        → replay true
            (recover (call fits io grows stored online))
            (some (with_engines sv other))
            (mapped (sv'.writer.file ++ tail))
            (length sv.writer.file)
          ≡ (some (with_engines sv' other), length tail == 0)
    replay-rebuilds sv sv' other c tail back x kr ks ready uses run l cut =
        let r = Served-Rebuilt kr ks ready uses run in
        let handler = recover (call fits io grows stored online) in
        let file : sv'.writer.file ++ tail ≡ sv.writer.file ++ (log r.commands ++ tail) =
          ap (λ f. f ++ tail) r.file ∙ append_assoc sv.writer.file (log r.commands) tail in
        rw file (
          replay-log handler (some (with_engines sv other)) sv.writer.file r.commands c tail back x
            r.loggable l cut
          ∙ r.rebuilt other (length tail == 0))
