-- ===== src/Kvs/Recovery/Served.antt =====
-- src/kvstore.c: the ways of a client's message through kvs_execute_fields.
use kvstore.Common.{
  none-some, ℕ, ◌+◌, ◌-◌, ◌≤◌, ◌≡◌, ◌⊎◌, refl, sym, subst, arith, not, ◌&&◌, ◌||◌, List, [], ◌∷◌,
  Bytes, codes, Option, none, some, Option-cases, Bool-cases, inl, inr, length, ◌==◌, ltb, str_eq,
}
use kvstore.Buffer.{OutputBuffer}
use kvstore.Kvs.{client, ExecStatus, Engine, Server, replied, filter_protocol}
use kvstore.Kvs.Commands.{Op, set_op, get_op, del_op, mod_op, exist_op, Which, find_command}
use kvstore.Kvs.Replies.{arity, is_client, is_replica}
use kvstore.Kvs.Fields.{
  Scanned-cases, clean, scan_fields, fields_to_tokens, Call, ended, max_tokens, get_value, run_get,
  run_known, execute_command, execute_checked, execute_fields,
}
use kvstore.Kvs.Recovery.Tokens.{fields_to_tokens-same, ended_same, run_tokens-cases}

module _ {R K : Type 0} (rb : Engine R) (sk : Engine K) (call : Call) where
  -- A message that was handed to the commands: its parts, and how they ended.
  pub record Ran (fields : List Bytes) (sv sv' : Server R K) : Type 0 where
    pub which : Which
    pub op : Op
    pub name : Bytes
    pub key : Bytes
    pub rest : List Bytes
    pub text : Bytes
    pub status : Option ExecStatus
    pub parts : fields ≡ name ∷ key ∷ rest
    pub found : find_command name ≡ some (which, op)
    pub count : length fields ≡ arity op
    pub ran :
        filter_protocol rb sk call.env client (name ∷ key ∷ rest) sv
        ≡ some (replied sv' text status)

  get-cases :
      (which : Which) (key : Bytes) (b : OutputBuffer) (room : ℕ) (sv sv' : Server R K)
      (b' : OutputBuffer) (reply : Option Bytes) (status : ExecStatus)
      → run_get rb sk call which key b room sv ≡ some (ended sv' b' reply status)
      → sv' ≡ sv
  unfolding run_get
  get-cases which key b room sv sv' b' reply status h =
      elim (Option-cases (get_value rb sk which key sv)) [
        | inl e ↦ absurd (none-some (rw (e, run_get) at h))
        | inr (none, e) ↦ sym (ended_same (rw (e, run_get) at h))
        | inr (some v, e) ↦ sym (ended_same (rw (e, run_get) at h))
      ]

  known-cases :
      (name key : Bytes) (rest : List Bytes) (which : Which) (op : Op) (b : OutputBuffer) (room : ℕ)
      (sv sv' : Server R K) (b' : OutputBuffer) (reply : Option Bytes) (status : ExecStatus)
      → run_known rb sk call client name which op (key ∷ rest) b room sv
        ≡ some (ended sv' b' reply status)
      → (sv' ≡ sv)
        ⊎ ((text : Bytes) × (st : Option ExecStatus) × (filter_protocol rb sk call.env client
                (name ∷ key ∷ rest)
                sv
              ≡ some (replied sv' text st)))
  unfolding run_known
  known-cases name key rest which get_op b room sv sv' b' reply status h =
      inl (get-cases which key b room sv sv' b' reply status h)
  known-cases name key rest which set_op b room sv sv' b' reply status h =
      run_tokens-cases rb sk call.env client call name (key ∷ rest) _ b room sv sv' b' reply status
        refl h
  known-cases name key rest which del_op b room sv sv' b' reply status h =
      run_tokens-cases rb sk call.env client call name (key ∷ rest) _ b room sv sv' b' reply status
        refl h
  known-cases name key rest which mod_op b room sv sv' b' reply status h =
      run_tokens-cases rb sk call.env client call name (key ∷ rest) _ b room sv sv' b' reply status
        refl h
  known-cases name key rest which exist_op b room sv sv' b' reply status h =
      run_tokens-cases rb sk call.env client call name (key ∷ rest) _ b room sv sv' b' reply status
        refl h

  arity_two : (op : Op) → 2 ≤ arity op
  unfolding arity
  arity_two op = ground arith

  command-cases :
      (name : Bytes) (args : List Bytes) (b : OutputBuffer) (room : ℕ) (sv sv' : Server R K)
      (b' : OutputBuffer) (reply : Option Bytes) (status : ExecStatus)
      → execute_command rb sk call client name args (find_command name) b room sv
        ≡ some (ended sv' b' reply status)
      → (sv' ≡ sv) ⊎ Ran (name ∷ args) sv sv'
  unfolding execute_command is_client
  command-cases name args b room sv sv' b' reply status h =
      elim (Option-cases (find_command name)) [
        | inl e ↦ inl (sym (ended_same (rw (e, execute_command) at h)))
        | inr ((which, op), e) ↦ elim (Bool-cases (not (1 + length args == arity op))) [
          | inl w ↦ inl (sym (ended_same (rw (e, execute_command, w) at h)))
          | inr w ↦ decide which op args e (ground (arith, w)) (rw (e, execute_command, w) at h)
        ]
      ]
    where
      decide :
          (which : Which) (op : Op) (args : List Bytes)
          → find_command name ≡ some (which, op)
          → 1 + length args ≡ arity op
          → run_known rb sk call client name which op args b room sv
            ≡ some (ended sv' b' reply status)
          → (sv' ≡ sv) ⊎ Ran (name ∷ args) sv sv'
      decide which op [] e n h = absurd (omega (arith, arity_two op))
      decide which op (key ∷ rest) e n h =
          elim (known-cases name key rest which op b room sv sv' b' reply status h) [
            | inl same ↦ inl same
            | inr (text, st, ran) ↦ inr (record {
              which = which;
              op = op;
              name = name;
              key = key;
              rest = rest;
              text = text;
              status = st;
              parts = refl;
              found = e;
              count = omega (arith, n);
              ran = ran;
            })
          ]

  checked-cases :
      (fields : List Bytes) (b : OutputBuffer) (room : ℕ) (sv sv' : Server R K) (b' : OutputBuffer)
      (reply : Option Bytes) (status : ExecStatus)
      → execute_checked rb sk call client fields b room sv ≡ some (ended sv' b' reply status)
      → (sv' ≡ sv) ⊎ Ran fields sv sv'
  unfolding execute_checked is_client
  checked-cases [] b room sv sv' b' reply status h = inl (sym (ended_same h))
  checked-cases (name ∷ args) b room sv sv' b' reply status h =
      elim (Bool-cases (str_eq name (codes "PING"))) [
        | inl e ↦ inl (sym (ended_same (rw (e, execute_checked) at h)))
        | inr e ↦ elim (Bool-cases (is_replica sv.role && not call.online)) [
          | inl f ↦ inl (sym (ended_same (rw (e, execute_checked, f) at h)))
          | inr f ↦ elim (Bool-cases (str_eq name (codes "SAVE"))) [
            | inl g ↦ inl (sym (ended_same (rw (e, execute_checked, f, g) at h)))
            | inr g ↦
                command-cases name args b room sv sv' b' reply status
                  (rw (e, execute_checked, f, g) at h)
          ]
        ]
      ]

  -- A client's message leaves the server as it was, or was clean and handed to the commands.
  pub execute_fields-cases :
      (fields : List Bytes) (b : OutputBuffer) (sv sv' : Server R K) (b' : OutputBuffer)
      (reply : Option Bytes) (status : ExecStatus)
      → execute_fields rb sk call client fields b sv ≡ some (ended sv' b' reply status)
      → (sv' ≡ sv) ⊎ ((scan_fields fields ≡ clean) × Ran fields sv sv')
  unfolding execute_fields
  execute_fields-cases fields b sv sv' b' reply status h =
      elim (Bool-cases (
        (b.capacity == 0 || ltb b.capacity (length b.bytes))
        || (length fields == 0 || ltb max_tokens (length fields)))) [
          | inl e ↦ inl (sym (ended_same (rw (e, execute_fields) at h)))
          | inr e ↦ elim (Scanned-cases (scan_fields fields)) [
            | inr (inl f) ↦ inl (sym (ended_same (rw (e, execute_fields, f) at h)))
            | inr (inr f) ↦ inl (sym (ended_same (rw (e, execute_fields, f) at h)))
            | inl f ↦ elim (Option-cases (fields_to_tokens call.token_mem fields)) [
              | inl t ↦ inl (sym (ended_same (rw (e, execute_fields, f, t) at h)))
              | inr (tokens, t) ↦
                  let same = fields_to_tokens-same call.token_mem fields tokens t in
                  elim (checked-cases tokens b (b.capacity - length b.bytes) sv sv' b' reply status
                    (rw (e, execute_fields, f, t) at h)) [
                      | inl u ↦ inl u
                      | inr r ↦ inr (f, subst (λ x. Ran x sv sv') same r)
                    ]
            ]
          ]
        ]
