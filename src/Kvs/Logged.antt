-- ===== src/Kvs/Logged.antt =====
-- src/kvstore.c: which commands reach the append-only file.
use kvstore.Common.{
  none-some, some_same, ◌≡◌, refl, sym, subst, ◌∙◌, arith, Bool, true, false, List, [], ◌∷◌, Bytes,
  Option, none, some, Bool-cases, Option-cases, inl, inr, ◌&&◌, if◌then◌else◌,
}
use kvstore.Protocol.Encoded.{command_bytes}
use kvstore.Engines.Base.{Ret, success, not_found, failure, no_memory, Run}
use kvstore.Aof.{Writer, append}
use kvstore.Aof.Append.{IsReady, Appended, append_lem}
use kvstore.Kvs.{
  CommandSource, ExecStatus, exec_ok, exec_failed, exec_already_exists, exec_not_found, exec_found,
  Engine, Env, Server, Outcome, replied, refused, exited, run_op, is_success, is_logged,
  log_command, first_of, dispatch, finish, execute_known, filter_protocol, refuses, status_of,
  array_engine, hash_engine,
}
use kvstore.Kvs.Commands.{
  Op, set_op, get_op, del_op, mod_op, exist_op, Which, array, rbtree, hash, skiplist, find_command,
  is_write_command,
}

abbrev pub is_ok : Option ExecStatus → Bool
is_ok (some exec_ok) = true
is_ok (some exec_failed) = false
is_ok (some exec_already_exists) = false
is_ok (some exec_not_found) = false
is_ok (some exec_found) = false
is_ok none = false

-- What the end of a command says of the AOF, when `logs` tells whether the source and the mode use
-- it.
abbrev pub AofAfter : {R K : Type 0} → Bool → Writer → Bytes → Outcome R K → Type 0
AofAfter logs w bytes (replied sv reply status) =
    if is_ok status && logs then Appended w bytes (sv.writer, true) else sv.writer ≡ w
AofAfter logs w bytes (refused sv) = sv.writer ≡ w
AofAfter logs w bytes (exited sv) = Appended w bytes (sv.writer, false)

status_ok :
    (op : Op) (ret : Ret) → (is_success ret && is_write_command op) ≡ is_ok (status_of op ret)
unfolding is_success is_write_command status_of
status_ok set_op success = refl
status_ok set_op not_found = refl
status_ok set_op failure = refl
status_ok set_op no_memory = refl
status_ok get_op success = refl
status_ok get_op not_found = refl
status_ok get_op failure = refl
status_ok get_op no_memory = refl
status_ok del_op success = refl
status_ok del_op not_found = refl
status_ok del_op failure = refl
status_ok del_op no_memory = refl
status_ok mod_op success = refl
status_ok mod_op not_found = refl
status_ok mod_op failure = refl
status_ok mod_op no_memory = refl
status_ok exist_op success = refl
status_ok exist_op not_found = refl
status_ok exist_op failure = refl
status_ok exist_op no_memory = refl

log_command_lem :
    {R K : Type 0} (env : Env) (sv : Server R K) (tokens : List Bytes) (reply : Bytes)
    (status : Option ExecStatus)
    → is_ok status ≡ true
    → IsReady sv.writer
    → AofAfter true sv.writer (command_bytes tokens) (log_command env sv tokens reply status)
unfolding log_command
log_command_lem env sv tokens reply status ok r =
    decide (append env.fits env.io sv.writer tokens) (append_lem env.fits env.io sv.writer tokens r)
  where
    decide :
        (res : Writer × Bool)
        → Appended sv.writer (command_bytes tokens) res
        → AofAfter true sv.writer (command_bytes tokens) (
            if res.1
            then replied (record sv { writer = res.0 }) reply status
            else exited (record sv { writer = res.0 }))
    decide (w', true) h = rw ok h
    decide (w', false) h = h

every :
    {S T X : Type 0} (put : S → T) (run : Run (S × X)) (r : T × X) (P : T → Type 0)
    → ((s : S) → P (put s))
    → elim run [ none ↦ none | some (s', x) ↦ some (put s', x) ] ≡ some r
    → P r.0
every put none r P all h = absurd (none-some h)
every put (some (s', x)) r P all h = subst (λ p. P p.0) (some_same h) (all s')

module _ {R K : Type 0} (rb : Engine R) (sk : Engine K) (env : Env) where
  finish-logged :
      (source : CommandSource) (tokens : List Bytes) (op : Op) (sv : Server R K) (ret : Ret)
      (reply : Bytes)
      → IsReady sv.writer
      → AofAfter
          (is_logged source sv.mode)
          sv.writer
          (command_bytes tokens)
          (finish rb sk env source tokens op sv ret reply)
  unfolding finish
  finish-logged source tokens op sv ret reply r =
      let cond = is_success ret && (is_write_command op && is_logged source sv.mode) in
      elim (Bool-cases (is_success ret && is_write_command op)) [
        | inl e ↦
            let ok : is_ok (status_of op ret) ≡ true = sym (status_ok op ret) ∙ e in
            elim (Bool-cases (is_logged source sv.mode)) [
              | inl l ↦
                  let on : cond ≡ true = ground (arith, e, l) in
                  rw (on, finish, l) (log_command_lem env sv tokens reply (status_of op ret) ok r)
              | inr l ↦ let off : cond ≡ false = ground (arith, l) in rw (off, finish, l, ok) refl
            ]
        | inr e ↦
            let failed : is_ok (status_of op ret) ≡ false = sym (status_ok op ret) ∙ e in
            let off : cond ≡ false = ground (arith, e) in rw (off, finish, failed) refl
      ]

  dispatch-settings :
      (which : Which) (op : Op) (sv : Server R K) (key : Bytes) (value : Option Bytes)
      (r : Server R K × (Ret × Bytes))
      → dispatch rb sk env which op sv key value ≡ some r
      → (r.0.writer ≡ sv.writer) × (r.0.mode ≡ sv.mode)
  unfolding dispatch
  dispatch-settings array op sv key value r h =
      every (λ s. record sv { array_store = s })
        (run_op array_engine env.mem op sv.array_store key value) r
        (λ t. (t.writer ≡ sv.writer) × (t.mode ≡ sv.mode)) (λ s. (refl, refl)) h
  dispatch-settings rbtree op sv key value r h =
      every (λ s. record sv { rbtree_store = s }) (run_op rb env.mem op sv.rbtree_store key value) r
        (λ t. (t.writer ≡ sv.writer) × (t.mode ≡ sv.mode)) (λ s. (refl, refl)) h
  dispatch-settings hash op sv key value r h =
      every (λ s. record sv { hash_store = s })
        (run_op hash_engine env.mem op sv.hash_store key value) r
        (λ t. (t.writer ≡ sv.writer) × (t.mode ≡ sv.mode)) (λ s. (refl, refl)) h
  dispatch-settings skiplist op sv key value r h =
      every (λ s. record sv { skiplist_store = s })
        (run_op sk env.mem op sv.skiplist_store key value) r
        (λ t. (t.writer ≡ sv.writer) × (t.mode ≡ sv.mode)) (λ s. (refl, refl)) h

  known-logged :
      (source : CommandSource) (tokens : List Bytes) (cmd : Which × Op) (args : List Bytes)
      (sv : Server R K) (o : Outcome R K)
      → IsReady sv.writer
      → execute_known rb sk env source tokens cmd args sv ≡ some o
      → AofAfter (is_logged source sv.mode) sv.writer (command_bytes tokens) o
  unfolding execute_known
  known-logged source tokens (which, op) [] sv o ready h = absurd (none-some h)
  known-logged source tokens (which, op) (key ∷ rest) sv o ready h =
      elim (Option-cases (dispatch rb sk env which op sv key (first_of rest))) [
        | inl e ↦ absurd (none-some (rw (e, execute_known) at h))
        | inr ((sv', (ret, reply)), e) ↦
            let (w, m) = dispatch-settings which op sv key (first_of rest) (sv', (ret, reply)) e in
            let same = some_same (rw (e, execute_known) at h) in
            let after =
              finish-logged source tokens op sv' ret reply (subst IsReady (sym w) ready) in
            subst (AofAfter (is_logged source sv.mode) sv.writer (command_bytes tokens)) same (
              subst
                (λ x.
                  AofAfter (is_logged source x) sv.writer (command_bytes tokens)
                    (finish rb sk env source tokens op sv' ret reply))
                m
                (subst
                  (λ x.
                    AofAfter (is_logged source sv'.mode) x (command_bytes tokens)
                      (finish rb sk env source tokens op sv' ret reply))
                  w after))
      ]

  -- With the AOF open and the writer at its end, where the execution of a command does not fault:
  -- the AOF has the whole command behind what it had if the status is OK and the source and the mode
  -- use the AOF, and is as it was for every other reply; if the process exits, the AOF has a first
  -- part of the command behind what it had.
  pub filter_protocol-logged :
      (source : CommandSource) (tokens : List Bytes) (sv : Server R K) (o : Outcome R K)
      → IsReady sv.writer
      → filter_protocol rb sk env source tokens sv ≡ some o
      → AofAfter (is_logged source sv.mode) sv.writer (command_bytes tokens) o
  unfolding filter_protocol
  filter_protocol-logged source [] sv o ready h =
      subst (AofAfter (is_logged source sv.mode) sv.writer (command_bytes [])) (some_same h) refl
  filter_protocol-logged source (name ∷ args) sv o ready h =
      let Q = AofAfter (is_logged source sv.mode) sv.writer (command_bytes (name ∷ args)) in
      elim (Option-cases (find_command name)) [
        | inl e ↦ subst Q (some_same (rw (e, filter_protocol) at h)) refl
        | inr (cmd, e) ↦ elim (Bool-cases (refuses sv.role source cmd.1)) [
          | inl r ↦ subst Q (some_same (rw (e, filter_protocol, r) at h)) refl
          | inr r ↦
              known-logged source (name ∷ args) cmd args sv o ready
                (rw (e, filter_protocol, r) at h)
        ]
      ]
