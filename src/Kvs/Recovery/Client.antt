-- ===== src/Kvs/Recovery/Client.antt =====
-- src/kvstore.c: what a client's command leaves, and that the same tokens do it again.
use kvstore.Common.{
  none-some, some_same, ◌≡◌, ◌⊎◌, refl, sym, ap, subst, ◌∙◌, ◌≤◌, Bool, true, false, ◌&&◌, List,
  ◌∷◌, ◌++◌, Bytes, codes, Option, some, Option-cases, Bool-cases, inl, inr, length,
}
use kvstore.Protocol.{crlf, size_max}
use kvstore.Protocol.Encoded.{command_bytes}
use kvstore.Engines.Base.{Ret, success, not_found, failure, no_memory, Mem}
use kvstore.Aof.{Writer, Io, append}
use kvstore.Aof.Append.{IsReady, Appended, append_lem, append-small}
use kvstore.Kvs.{
  Role, standalone, primary, replica, client, recovery, ExecStatus, exec_ok, Engine, Env, Server,
  replied, exited, is_success, is_logged, refuses, status_of, dispatch, finish, log_command,
  execute_known, filter_protocol, first_of,
}
use kvstore.Kvs.Refusal.{dispatch-read}
use kvstore.Kvs.Recovery.Keeps.{Keeps}
use kvstore.Kvs.Recovery.Dispatch.{with_engines, Dispatched, dispatch-Dispatched}
use kvstore.Kvs.Commands.{
  Op, set_op, get_op, del_op, mod_op, exist_op, Which, find_command, is_write_command,
}

refuses-recovery : (role : Role) (op : Op) → refuses role recovery op ≡ false
unfolding refuses
refuses-recovery standalone op = refl
refuses-recovery primary op = refl
refuses-recovery replica op = refl

status_of-success :
    (op : Op) (ret : Ret)
    → is_write_command op ≡ true
    → is_success ret ≡ true
    → status_of op ret ≡ some exec_ok
unfolding status_of is_success is_write_command
status_of-success set_op success w h = refl
status_of-success del_op success w h = refl
status_of-success mod_op success w h = refl
status_of-success get_op success w h = absurd (cc)
status_of-success exist_op success w h = absurd (cc)
status_of-success op not_found w h = absurd (cc)
status_of-success op failure w h = absurd (cc)
status_of-success op no_memory w h = absurd (cc)

replied_same :
    {R K : Type 0} {a b : Server R K} {x y : Bytes} {s t : Option ExecStatus}
    → replied a x s ≡ replied b y t
    → a ≡ b
replied_same h = cc

exited_not :
    {R K : Type 0} {a b : Server R K} {y : Bytes} {t : Option ExecStatus}
    → exited a ≡ replied b y t
    → ⊥
exited_not h = cc

and_parts : (a b : Bool) → (a && b) ≡ true → (a ≡ true) × (b ≡ true)
and_parts true b h = (refl, h)
and_parts false b h = absurd (cc)

module _ {R K : Type 0} (rb : Engine R) (sk : Engine K) (mem : Mem) where
  -- A command that is logged: the AOF has it behind what it had, and a recovery with the same engines
  -- does the same to them and answers OK.
  pub record Logs (tokens : List Bytes) (sv sv' : Server R K) : Type 0 where
    pub small : length (command_bytes tokens) ≤ size_max
    pub file : sv'.writer.file ≡ sv.writer.file ++ command_bytes tokens
    pub ready : IsReady sv'.writer
    pub mode : sv'.mode ≡ sv.mode
    pub again :
        (other : Server R K) (fits : Bool) (io : Io)
        → filter_protocol rb sk
            (record { mem = mem; fits = fits; io = io })
            recovery
            tokens
            (with_engines sv other)
          ≡ some (replied (with_engines sv' other) (codes "OK" ++ crlf) (some exec_ok))

  finish-recovery :
      (fits : Bool) (io : Io) (tokens : List Bytes) (op : Op) (sv : Server R K) (ret : Ret)
      (reply : Bytes)
      → is_success ret ≡ true
      → is_write_command op ≡ true
      → finish rb sk (record { mem = mem; fits = fits; io = io }) recovery tokens op sv ret reply
        ≡ replied sv reply (some exec_ok)
  unfolding finish is_logged
  finish-recovery fits io tokens op sv ret reply ok write =
      rw (ok, finish, write, status_of-success op ret write ok)

  logged-change :
      (fits : Bool) (io : Io) (which : Which) (op : Op) (name key : Bytes) (rest : List Bytes)
      (sv mid sv' : Server R K) (ret : Ret) (reply text : Bytes) (st : Option ExecStatus)
      → find_command name ≡ some (which, op)
      → Dispatched rb sk mem which op sv key (first_of rest) mid ret reply
      → IsReady sv.writer
      → is_success ret ≡ true
      → is_write_command op ≡ true
      → log_command
          (record { mem = mem; fits = fits; io = io })
          mid
          (name ∷ key ∷ rest)
          reply
          (status_of op ret)
        ≡ replied sv' text st
      → Logs (name ∷ key ∷ rest) sv sv'
  unfolding log_command filter_protocol execute_known
  logged-change fits io which op name key rest sv mid sv' ret reply text st found d ready ok write
        h =
      decide (append fits io mid.writer tokens) refl
        (append_lem fits io mid.writer tokens ready_mid)
    where
      tokens : List Bytes
      tokens = name ∷ key ∷ rest

      ready_mid : IsReady mid.writer
      ready_mid = subst IsReady (sym d.writer) ready

      redo :
          (w : Writer) (other : Server R K) (f : Bool) (i : Io)
          → filter_protocol rb sk
              (record { mem = mem; fits = f; io = i })
              recovery
              tokens
              (with_engines sv other)
            ≡ some (
                replied
                  (with_engines (record mid { writer = w }) other)
                  (codes "OK" ++ crlf)
                  (some exec_ok))
      redo w other f i =
          rw
            (
              found,
              filter_protocol,
              refuses-recovery other.role op,
              execute_known,
              d.moved other f i,
            )
            (ap some (
              finish-recovery f i tokens op (with_engines mid other) ret reply ok write
              ∙ ap (λ t. replied (with_engines mid other) t (some exec_ok)) (d.ok write ok)))

      decide :
          (r : Writer × Bool)
          → append fits io mid.writer tokens ≡ r
          → Appended mid.writer (command_bytes tokens) r
          → Logs tokens sv sv'
      decide (w, true) e a =
          let same : record mid { writer = w } ≡ sv' = replied_same (rw (e, log_command) at h) in
          subst (Logs tokens sv) same (record {
            small = append-small fits io mid.writer tokens w e;
            file = a.0 ∙ ap (λ x. x.file ++ command_bytes tokens) d.writer;
            ready = a.1;
            mode = d.mode;
            again = redo w;
          })
      decide (w, false) e a = absurd (exited_not (rw (e, log_command) at h))

  -- What a client's command with a reply leaves, where the mode uses the AOF: all as it was, or the
  -- command logged.
  pub filter_protocol-change :
      (fits : Bool) (io : Io) (which : Which) (op : Op) (name key : Bytes) (rest : List Bytes)
      (sv sv' : Server R K) (text : Bytes) (st : Option ExecStatus)
      → Keeps rb
      → Keeps sk
      → find_command name ≡ some (which, op)
      → IsReady sv.writer
      → is_logged client sv.mode ≡ true
      → filter_protocol rb sk
          (record { mem = mem; fits = fits; io = io })
          client
          (name ∷ key ∷ rest)
          sv
        ≡ some (replied sv' text st)
      → (sv' ≡ sv) ⊎ ((is_write_command op ≡ true) × Logs (name ∷ key ∷ rest) sv sv')
  unfolding filter_protocol execute_known finish
  filter_protocol-change fits io which op name key rest sv sv' text st kr ks found ready logs h =
      elim (Bool-cases (refuses sv.role client op)) [
        | inl r ↦ inl (sym (replied_same (some_same (rw (found, filter_protocol, r) at h))))
        | inr r ↦ elim (Option-cases (dispatch rb sk env which op sv key (first_of rest))) [
          | inl e ↦ absurd (none-some (rw (found, filter_protocol, r, execute_known, e) at h))
          | inr ((mid, (ret, reply)), e) ↦
              let d =
                dispatch-Dispatched rb sk mem fits io which op sv key (first_of rest) mid ret reply
                  kr ks e in
              let left = some_same (rw (found, filter_protocol, r, execute_known, e) at h) in
              let uses = subst (λ m. is_logged client m ≡ true) (sym d.mode) logs in
              elim (Bool-cases (is_success ret)) [
                | inr bad ↦ inl (sym (replied_same (rw (bad, finish) at left)) ∙ d.unchanged bad)
                | inl ok ↦ elim (Bool-cases (is_write_command op)) [
                  | inr reads ↦ inl (
                      sym (replied_same (rw (ok, finish, reads) at left))
                      ∙ dispatch-read rb sk env which op sv key (first_of rest) (mid, (ret, reply))
                          reads e)
                  | inl write ↦ inr (
                    write,
                    logged-change fits io which op name key rest sv mid sv' ret reply text st found
                        d ready ok write (rw (ok, finish, write, uses) at left),
                  )
                ]
              ]
        ]
      ]
    where
      env : Env
      env = record { mem = mem; fits = fits; io = io }
