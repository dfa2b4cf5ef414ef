-- ===== src/Kvs/Refusal.antt =====
-- src/kvstore.c: which commands leave the server as it was.
use kvstore.Common.{
  none-some, ℕ, ◌≡◌, refl, sym, ap, ◌∙◌, arith, Bool, true, false, not, List, [], ◌∷◌, Bytes, codes,
  ◌++◌, Option, none, some, Bool-cases, Option-cases, inl, inr, leb, ◌==◌, ◌||◌, ◌&&◌,
  if◌then◌else◌, length,
}
use kvstore.Protocol.{crlf}
use kvstore.Engines.Base.{Ret, Run}
use kvstore.Kvs.{
  Role, replica, ExecStatus, CommandSource, client, Engine, Env, Server, Outcome, replied, refused,
  exited, run_op, outcome_server, readonly_reply, dispatch, first_of, is_success, is_logged,
  array_engine, hash_engine, finish, execute_known, filter_protocol, execute_tokens, refuses,
}
use kvstore.Kvs.Commands.{
  Op, set_op, get_op, del_op, mod_op, exist_op, Which, array, rbtree, hash, skiplist, find_command,
  is_write_command,
}

pub run_op-read :
    {S : Type 0} (e : Engine S) (mem : ℕ → Bool) (op : Op) (s : S) (key : Bytes)
    (value : Option Bytes) (r : S × (Ret × Bytes))
    → is_write_command op ≡ false
    → run_op e mem op s key value ≡ some r
    → r.0 ≡ s
unfolding is_write_command run_op
run_op-read e mem set_op s key value r w h = absurd (cc)
run_op-read e mem del_op s key value r w h = absurd (cc)
run_op-read e mem mod_op s key value r w h = absurd (cc)
run_op-read e mem get_op s key value r w h = ground arith
run_op-read e mem exist_op s key value r w h = ground arith

pub kept :
    {S T X : Type 0} (put : S → T) (s : S) (run : Run (S × X)) (r : T × X)
    → ((q : S × X) → run ≡ some q → q.0 ≡ s)
    → elim run [ none ↦ none | some (s', x) ↦ some (put s', x) ] ≡ some r
    → r.0 ≡ put s
kept put s none r same h = absurd (cc)
kept put s (some (s', x)) r same h =
    let e : (put s', x) ≡ r = cc in sym (ap (λ p. p.0) e) ∙ ap put (same (s', x) refl)

some_outcome :
    {R K : Type 0} (o o' : Outcome R K) (sv : Server R K)
    → some o ≡ some o'
    → outcome_server o ≡ sv
    → outcome_server o' ≡ sv
some_outcome o o' sv h e = let same : o ≡ o' = cc in sym (ap outcome_server same) ∙ e

-- Whether the role and the source let the command write.
abbrev pub may_write : Role → CommandSource → List Bytes → Bool
may_write role source [] = false
may_write role source (name ∷ args) = elim (find_command name) [
  | none ↦ false
  | some cmd ↦ is_write_command cmd.1 && not (refuses role source cmd.1)
]

client_writes : (tokens : List Bytes) → may_write replica client tokens ≡ false
unfolding refuses
client_writes [] = refl
client_writes (name ∷ args) = elim (Option-cases (find_command name)) [
  | inl e ↦ rw (e, may_write)
  | inr (cmd, e) ↦ rw (e, may_write) (ground arith)
]

module _ {R K : Type 0} (rb : Engine R) (sk : Engine K) (env : Env) where
  pub dispatch-read :
      (which : Which) (op : Op) (sv : Server R K) (key : Bytes) (value : Option Bytes)
      (r : Server R K × (Ret × Bytes))
      → is_write_command op ≡ false
      → dispatch rb sk env which op sv key value ≡ some r
      → r.0 ≡ sv
  unfolding dispatch
  dispatch-read array op sv key value r w h =
      kept (λ s. record sv { array_store = s }) sv.array_store
        (run_op array_engine env.mem op sv.array_store key value) r
        (λ q e. run_op-read array_engine env.mem op sv.array_store key value q w e) h
  dispatch-read rbtree op sv key value r w h =
      kept (λ s. record sv { rbtree_store = s }) sv.rbtree_store
        (run_op rb env.mem op sv.rbtree_store key value) r
        (λ q e. run_op-read rb env.mem op sv.rbtree_store key value q w e) h
  dispatch-read hash op sv key value r w h =
      kept (λ s. record sv { hash_store = s }) sv.hash_store
        (run_op hash_engine env.mem op sv.hash_store key value) r
        (λ q e. run_op-read hash_engine env.mem op sv.hash_store key value q w e) h
  dispatch-read skiplist op sv key value r w h =
      kept (λ s. record sv { skiplist_store = s }) sv.skiplist_store
        (run_op sk env.mem op sv.skiplist_store key value) r
        (λ q e. run_op-read sk env.mem op sv.skiplist_store key value q w e) h

  finish-read :
      (source : CommandSource) (tokens : List Bytes) (op : Op) (sv : Server R K) (ret : Ret)
      (reply : Bytes)
      → is_write_command op ≡ false
      → outcome_server (finish rb sk env source tokens op sv ret reply) ≡ sv
  unfolding finish
  finish-read source tokens op sv ret reply w =
      let off : (is_success ret && (is_write_command op && is_logged source sv.mode)) ≡ false =
        ground (arith, w) in
      rw (off, finish)

  known-read :
      (source : CommandSource) (tokens : List Bytes) (cmd : Which × Op) (args : List Bytes)
      (sv : Server R K) (o : Outcome R K)
      → is_write_command cmd.1 ≡ false
      → execute_known rb sk env source tokens cmd args sv ≡ some o
      → outcome_server o ≡ sv
  unfolding execute_known
  known-read source tokens (which, op) [] sv o w h = absurd (cc)
  known-read source tokens (which, op) (key ∷ rest) sv o w h =
      elim (Option-cases (dispatch rb sk env which op sv key (first_of rest))) [
        | inl e ↦ absurd (none-some (rw (e, execute_known) at h))
        | inr ((sv', (ret, reply)), e) ↦
            some_outcome (finish rb sk env source tokens op sv' ret reply) o sv
              (rw (e, execute_known) at h)
              (finish-read source tokens op sv' ret reply w
                ∙ dispatch-read which op sv key (first_of rest) (sv', (ret, reply)) w e)
      ]

  pub filter-read :
      (source : CommandSource) (tokens : List Bytes) (sv : Server R K) (o : Outcome R K)
      → may_write sv.role source tokens ≡ false
      → filter_protocol rb sk env source tokens sv ≡ some o
      → outcome_server o ≡ sv
  unfolding filter_protocol
  filter-read source [] sv o m h = some_outcome (refused sv) o sv h refl
  filter-read source (name ∷ args) sv o m h = elim (Option-cases (find_command name)) [
    | inl e ↦
        some_outcome (replied sv (codes "ERROR unknown command" ++ crlf) none) o sv
          (rw (e, filter_protocol) at h) refl
    | inr (cmd, e) ↦ elim (Bool-cases (refuses sv.role source cmd.1)) [
      | inl r ↦
          some_outcome (replied sv readonly_reply none) o sv (rw (e, filter_protocol, r) at h) refl
      | inr r ↦
          let reads : is_write_command cmd.1 ≡ false = ground (arith, rw (e, may_write, r) at m) in
          known-read source (name ∷ args) cmd args sv o reads (rw (e, filter_protocol, r) at h)
    ]
  ]

cut-server :
    {R K : Type 0} (b : Bool) (sv : Server R K) (reply : Bytes) (status : Option ExecStatus)
    → outcome_server (if b then refused sv else replied sv reply status) ≡ sv
cut-server true sv reply status = refl
cut-server false sv reply status = refl

module _ {R K : Type 0} (rb : Engine R) (sk : Engine K) (env : Env) where
  -- On a command that reads, that is not known, or that the role refuses from its source the executor,
  -- where it does not fault, ends with the engines, the settings and the AOF as they were.
  pub execute_tokens-unchanged :
      (source : CommandSource) (tokens : List Bytes) (capacity : ℕ) (sv : Server R K)
      (o : Outcome R K)
      → may_write sv.role source tokens ≡ false
      → execute_tokens rb sk env source tokens capacity sv ≡ some o
      → outcome_server o ≡ sv
  unfolding execute_tokens
  execute_tokens-unchanged source tokens capacity sv o m h =
      elim (Bool-cases (length tokens == 0 || capacity == 0)) [
        | inl e ↦ some_outcome (refused sv) o sv (rw (e, execute_tokens) at h) refl
        | inr e ↦ elim (Option-cases (filter_protocol rb sk env source tokens sv)) [
          | inl f ↦ absurd (none-some (rw (e, execute_tokens, f) at h))
          | inr (replied sv' reply status, f) ↦
              let same = filter-read rb sk env source tokens sv (replied sv' reply status) m f in
              some_outcome
                (if leb capacity (length reply) then refused sv' else replied sv' reply status) o sv
                (rw (e, execute_tokens, f) at h)
                (cut-server (leb capacity (length reply)) sv' reply status ∙ same)
          | inr (refused sv', f) ↦
              some_outcome (refused sv') o sv (rw (e, execute_tokens, f) at h)
                (filter-read rb sk env source tokens sv (refused sv') m f)
          | inr (exited sv', f) ↦
              some_outcome (exited sv') o sv (rw (e, execute_tokens, f) at h)
                (filter-read rb sk env source tokens sv (exited sv') m f)
        ]
      ]

  -- Whatever tokens a client's command has, the executor on a replica, where it does not fault, ends
  -- with the engines, the settings and the AOF as they were.
  pub replica-unchanged :
      (tokens : List Bytes) (capacity : ℕ) (sv : Server R K) (o : Outcome R K)
      → sv.role ≡ replica
      → execute_tokens rb sk env client tokens capacity sv ≡ some o
      → outcome_server o ≡ sv
  replica-unchanged tokens capacity sv o r h =
      execute_tokens-unchanged client tokens capacity sv o (rw r (client_writes tokens)) h
