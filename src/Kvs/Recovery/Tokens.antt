-- ===== src/Kvs/Recovery/Tokens.antt =====
-- src/kvstore.c: kvs_execute_fields around the commands, for a client and for the recovery.
use kvstore.Common.{
  none-some, some_same, ℕ, ◌+◌, ◌≤◌, ◌≡◌, ◌⊎◌, refl, sym, ap, ◌∙◌, arith, ◌&&◌, ◌||◌, List, [], ◌∷◌,
  Bytes, Option, some, Option-cases, Bool-cases, inl, inr, length, ◌==◌, leb,
}
use kvstore.Engines.Base.{Ret, Mem, plenty}
use kvstore.Buffer.{OutputBuffer}
use kvstore.Kvs.{
  CommandSource, ExecStatus, Engine, Env, Server, replied, refused, exited, finish, log_command,
  execute_known, filter_protocol, execute_tokens, refuses, dispatch, first_of, is_success,
  is_logged, status_of,
}
use kvstore.Kvs.Commands.{Op, Which, find_command, is_write_command}
use kvstore.Kvs.Fields.{
  token_loop, fields_to_tokens, clean, scan_fields, Call, ended, gone, conclude, run_tokens,
  max_tokens,
}

token_loop-same : (mem : Mem) (i : ℕ) (fs ts : List Bytes) → token_loop mem i fs ≡ some ts → ts ≡ fs
unfolding token_loop
token_loop-same mem i [] ts h = sym (some_same h)
token_loop-same mem i (f ∷ fs) ts h = elim (Option-cases (token_loop mem (i + 1) fs)) [
  | inl e ↦ ground (arith, e)
  | inr (us, e) ↦ ground (arith, e, token_loop-same mem (i + 1) fs us e)
]

-- The tokens have the bytes of the fields.
pub fields_to_tokens-same :
    (mem : Mem) (fs ts : List Bytes) → fields_to_tokens mem fs ≡ some ts → ts ≡ fs
unfolding fields_to_tokens
fields_to_tokens-same mem fs ts h = ground (arith, token_loop-same mem 0 fs ts)

token_loop-clean :
    (i : ℕ) (fs : List Bytes) → scan_fields fs ≡ clean → token_loop plenty i fs ≡ some fs
unfolding token_loop scan_fields
token_loop-clean i [] h = refl
token_loop-clean i (f ∷ fs) h = ground (arith, token_loop-clean (i + 1) fs)

-- With enough memory fields that the check has passed become tokens.
pub fields_to_tokens-clean :
    (fs : List Bytes)
    → scan_fields fs ≡ clean
    → 1 ≤ length fs
    → length fs ≤ max_tokens
    → fields_to_tokens plenty fs ≡ some fs
unfolding fields_to_tokens
fields_to_tokens-clean fs h one few = ground (arith, token_loop-clean 0 fs h)

pub ended_same :
    {R K : Type 0} {a a' : Server R K} {b b' : OutputBuffer} {x x' : Option Bytes}
    {s s' : ExecStatus}
    → some (ended a b x s) ≡ some (ended a' b' x' s')
    → a ≡ a'
ended_same h = cc

gone_not :
    {R K : Type 0} {a a' : Server R K} {b' : OutputBuffer} {x' : Option Bytes} {s' : ExecStatus}
    → gone a ≡ ended a' b' x' s'
    → ⊥
gone_not h = cc

refused_same : {R K : Type 0} {a b : Server R K} → refused a ≡ refused b → a ≡ b
refused_same h = cc

replied_not :
    {R K : Type 0} {a b : Server R K} {x : Bytes} {s : Option ExecStatus}
    → replied a x s ≡ refused b
    → ⊥
replied_not h = cc

log_command-not_refused :
    {R K : Type 0} (env : Env) (sv sv' : Server R K) (tokens : List Bytes) (reply : Bytes)
    (status : Option ExecStatus)
    → log_command env sv tokens reply status ≡ refused sv'
    → ⊥
unfolding log_command
log_command-not_refused env sv sv' tokens reply status h = ground arith

module _ {R K : Type 0} (rb : Engine R) (sk : Engine K) (env : Env) (source : CommandSource) where
  finish-not_refused :
      (tokens : List Bytes) (op : Op) (sv sv' : Server R K) (ret : Ret) (reply : Bytes)
      → finish rb sk env source tokens op sv ret reply ≡ refused sv'
      → ⊥
  unfolding finish
  finish-not_refused tokens op sv sv' ret reply h =
      elim (Bool-cases (is_success ret && (is_write_command op && is_logged source sv.mode))) [
        | inl e ↦
            log_command-not_refused env sv sv' tokens reply (status_of op ret) (rw (e, finish) at h)
        | inr e ↦ replied_not (rw (e, finish) at h)
      ]

  known-not_refused :
      (tokens args : List Bytes) (cmd : Which × Op) (sv sv' : Server R K)
      → execute_known rb sk env source tokens cmd args sv ≡ some (refused sv')
      → ⊥
  unfolding execute_known
  known-not_refused tokens [] (which, op) sv sv' h = none-some h
  known-not_refused tokens (key ∷ rest) (which, op) sv sv' h =
      elim (Option-cases (dispatch rb sk env which op sv key (first_of rest))) [
        | inl e ↦ none-some (rw (e, execute_known) at h)
        | inr ((mid, (ret, reply)), e) ↦
            finish-not_refused tokens op mid sv' ret reply (some_same (rw (e, execute_known) at h))
      ]

  filter_protocol-not_refused :
      (name : Bytes) (args : List Bytes) (sv sv' : Server R K)
      → filter_protocol rb sk env source (name ∷ args) sv ≡ some (refused sv')
      → ⊥
  unfolding filter_protocol
  filter_protocol-not_refused name args sv sv' h = elim (Option-cases (find_command name)) [
    | inl e ↦ replied_not (some_same (rw (e, filter_protocol) at h))
    | inr (cmd, e) ↦ elim (Bool-cases (refuses sv.role source cmd.1)) [
      | inl r ↦ replied_not (some_same (rw (e, filter_protocol, r) at h))
      | inr r ↦ known-not_refused (name ∷ args) args cmd sv sv' (rw (e, filter_protocol, r) at h)
    ]
  ]

  -- An end that is not the process's comes from a command that left the server as it was, or from one
  -- with a reply.
  pub run_tokens-cases :
      (call : Call) (name : Bytes) (args : List Bytes) (cmd : Option (Which × Op))
      (b : OutputBuffer) (room : ℕ) (sv sv' : Server R K) (b' : OutputBuffer) (reply : Option Bytes)
      (status : ExecStatus)
      → call.env ≡ env
      → run_tokens rb sk call source (name ∷ args) cmd b room sv ≡ some (ended sv' b' reply status)
      → (sv' ≡ sv)
        ⊎ ((text : Bytes) × (st : Option ExecStatus) × (filter_protocol rb sk env source
                (name ∷ args)
                sv
              ≡ some (replied sv' text st)))
  unfolding run_tokens execute_tokens conclude
  run_tokens-cases call name args cmd b room sv sv' b' reply status ce h =
      elim (Bool-cases (length (name ∷ args) == 0 || room == 0)) [
        | inl e ↦ inl (sym (ended_same (rw (ce, run_tokens, execute_tokens, e, conclude) at h)))
        | inr e ↦ elim (Option-cases (filter_protocol rb sk env source (name ∷ args) sv)) [
          | inl f ↦ absurd (none-some (rw (ce, run_tokens, execute_tokens, e, f) at h))
          | inr (refused s, f) ↦ absurd (filter_protocol-not_refused name args sv s f)
          | inr (exited s, f) ↦
              absurd
                (gone_not (some_same (rw (ce, run_tokens, execute_tokens, e, f, conclude) at h)))
          | inr (replied s text st, f) ↦
              let same : s ≡ sv' = elim (Bool-cases (leb room (length text))) [
                | inl l ↦ ended_same (rw (ce, run_tokens, execute_tokens, e, f, l, conclude) at h)
                | inr l ↦ ended_same (rw (ce, run_tokens, execute_tokens, e, f, l, conclude) at h)
              ] in
              inr (text, st, f ∙ ap (λ x. some (replied x text st)) same)
        ]
      ]
