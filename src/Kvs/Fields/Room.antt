-- ===== src/Kvs/Fields/Room.antt =====
-- src/kvstore.c: the replies of kvs_execute_fields against the room in the buffer.
use kvstore.Common.{
  ◌+◌, ◌-◌, ◌≤◌, arith, not, ◌||◌, ◌&&◌, List, [], ◌∷◌, Bytes, codes, Option, none, some, ltb, leb,
  ◌==◌, length, Option-cases, Bool-cases, inl, inr, str_eq,
}
use kvstore.Buffer.{int_max, OutputBuffer}
use kvstore.Kvs.{
  CommandSource, Engine, Server, replied, refused, exited, execute_tokens, filter_protocol,
}
use kvstore.Kvs.Commands.{Op, set_op, get_op, del_op, mod_op, exist_op, Which, find_command}
use kvstore.Kvs.Replies.{arity, is_client, is_replica}
use kvstore.Kvs.Fields.{
  Scanned-cases, scan_fields, fields_to_tokens, Call, max_tokens, conclude, set_status, get_value,
  run_get, run_tokens, run_known, execute_command, execute_checked, execute_fields,
}
use kvstore.Kvs.Fields.Fits.{
  RepliesFit, put_reply-AtMost, print_reply-AtMost, stays, encode_value_to_output-HasRoom,
  rewrite_reply-AtMost,
}

module _ {R K : Type 0} (rb : Engine R) (sk : Engine K) (call : Call) (source : CommandSource) where
  run_tokens-RepliesFit :
      (tokens : List Bytes) (cmd : Option (Which × Op)) (b : OutputBuffer) (sv : Server R K)
      → RepliesFit b (run_tokens rb sk call source tokens cmd b (b.capacity - length b.bytes) sv)
  unfolding run_tokens execute_tokens conclude
  run_tokens-RepliesFit tokens cmd b sv =
      elim (Bool-cases (length tokens == 0 || b.capacity - length b.bytes == 0)) [
        | inl e ↦ rw (run_tokens, execute_tokens, e, conclude) (stays b none tt)
        | inr e ↦ elim (Option-cases (filter_protocol rb sk call.env source tokens sv)) [
          | inl f ↦ rw (run_tokens, execute_tokens, e, f) tt
          | inr (refused s, f) ↦ rw (run_tokens, execute_tokens, e, f, conclude) (stays b none tt)
          | inr (exited s, f) ↦ rw (run_tokens, execute_tokens, e, f, conclude) tt
          | inr (replied s text st, f) ↦
              elim (Bool-cases (leb (b.capacity - length b.bytes) (length text))) [
                | inl l ↦ rw (run_tokens, execute_tokens, e, f, l, conclude) (stays b none tt)
                | inr l ↦
                    rw (run_tokens, execute_tokens, e, f, l, conclude)
                      (stays b _ (
                        rewrite_reply-AtMost source cmd (b.capacity - length b.bytes) text
                          (set_status st) (ground arith)))
              ]
        ]
      ]

  run_get-RepliesFit :
      (which : Which) (key : Bytes) (b : OutputBuffer) (sv : Server R K)
      → b.capacity ≤ int_max
      → RepliesFit b (run_get rb sk call which key b (b.capacity - length b.bytes) sv)
  unfolding run_get
  run_get-RepliesFit which key b sv h = elim (Option-cases (get_value rb sk which key sv)) [
    | inl e ↦ rw (e, run_get) tt
    | inr (none, e) ↦ rw (e, run_get) (stays b _ (put_reply-AtMost (b.capacity - length b.bytes) _))
    | inr (some v, e) ↦ rw (e, run_get) (encode_value_to_output-HasRoom call.grows b v h)
  ]

  run_known-RepliesFit :
      (name : Bytes) (args : List Bytes) (which : Which) (op : Op) (b : OutputBuffer)
      (sv : Server R K)
      → b.capacity ≤ int_max
      → RepliesFit b
          (run_known rb sk call source name which op args b (b.capacity - length b.bytes) sv)
  unfolding run_known
  run_known-RepliesFit name [] which get_op b sv h = run_tokens-RepliesFit (name ∷ []) _ b sv
  run_known-RepliesFit name (key ∷ rest) which get_op b sv h = run_get-RepliesFit which key b sv h
  run_known-RepliesFit name args which set_op b sv h = run_tokens-RepliesFit (name ∷ args) _ b sv
  run_known-RepliesFit name args which del_op b sv h = run_tokens-RepliesFit (name ∷ args) _ b sv
  run_known-RepliesFit name args which mod_op b sv h = run_tokens-RepliesFit (name ∷ args) _ b sv
  run_known-RepliesFit name args which exist_op b sv h = run_tokens-RepliesFit (name ∷ args) _ b sv

  command-RepliesFit :
      (name : Bytes) (args : List Bytes) (cmd : Option (Which × Op)) (b : OutputBuffer)
      (sv : Server R K)
      → b.capacity ≤ int_max
      → RepliesFit b
          (execute_command rb sk call source name args cmd b (b.capacity - length b.bytes) sv)
  unfolding execute_command
  command-RepliesFit name args none b sv h = elim (Bool-cases (is_client source)) [
    | inl e ↦ rw (execute_command, e) (stays b _ (put_reply-AtMost (b.capacity - length b.bytes) _))
    | inr e ↦ rw (execute_command, e) (run_tokens-RepliesFit (name ∷ args) none b sv)
  ]
  command-RepliesFit name args (some (which, op)) b sv h =
      elim (Bool-cases (not (1 + length args == arity op))) [
        | inr e ↦ rw (execute_command, e) (run_known-RepliesFit name args which op b sv h)
        | inl e ↦
            rw (execute_command, e)
              (elim (Bool-cases (is_client source)) [
                | inl f ↦ rw f (stays b _ (print_reply-AtMost (b.capacity - length b.bytes) _))
                | inr f ↦ rw f (stays b none tt)
              ])
      ]

  checked-RepliesFit :
      (fields : List Bytes) (b : OutputBuffer) (sv : Server R K)
      → b.capacity ≤ int_max
      → RepliesFit b (execute_checked rb sk call source fields b (b.capacity - length b.bytes) sv)
  unfolding execute_checked
  checked-RepliesFit [] b sv h = stays b none tt
  checked-RepliesFit (name ∷ args) b sv h =
      elim (Bool-cases (is_client source && str_eq name (codes "PING"))) [
        | inl e ↦
            rw (execute_checked, e) (stays b _ (put_reply-AtMost (b.capacity - length b.bytes) _))
        | inr e ↦ elim (Bool-cases (is_client source && (is_replica sv.role && not call.online))) [
          | inl f ↦
              rw (execute_checked, e, f)
                (stays b _ (put_reply-AtMost (b.capacity - length b.bytes) _))
          | inr f ↦ elim (Bool-cases (is_client source && str_eq name (codes "SAVE"))) [
            | inl g ↦
                rw (execute_checked, e, f, g)
                  (stays b _ (put_reply-AtMost (b.capacity - length b.bytes) _))
            | inr g ↦
                rw (execute_checked, e, f, g)
                  (command-RepliesFit name args (find_command name) b sv h)
          ]
        ]
      ]

  -- Whatever the source and the fields are, kvs_execute_fields leaves the bytes that the reply buffer has
  -- and no less space, and a reply fits behind those bytes, if the capacity is an `int`.
  pub execute_fields-RepliesFit :
      (fields : List Bytes) (b : OutputBuffer) (sv : Server R K)
      → b.capacity ≤ int_max
      → RepliesFit b (execute_fields rb sk call source fields b sv)
  unfolding execute_fields
  execute_fields-RepliesFit fields b sv h =
      elim (Bool-cases (
        (b.capacity == 0 || ltb b.capacity (length b.bytes))
        || (length fields == 0 || ltb max_tokens (length fields)))) [
          | inl e ↦ rw (execute_fields, e) (stays b none tt)
          | inr e ↦ elim (Scanned-cases (scan_fields fields)) [
            | inr (inr f) ↦ rw (execute_fields, e, f) (stays b none tt)
            | inr (inl f) ↦
                rw (execute_fields, e, f)
                  (elim (Bool-cases (is_client source)) [
                    | inl g ↦ rw g (stays b _ (put_reply-AtMost (b.capacity - length b.bytes) _))
                    | inr g ↦ rw g (stays b none tt)
                  ])
            | inl f ↦ elim (Option-cases (fields_to_tokens call.token_mem fields)) [
              | inl t ↦ rw (execute_fields, e, f, t) (stays b none tt)
              | inr (tokens, t) ↦ rw (execute_fields, e, f, t) (checked-RepliesFit tokens b sv h)
            ]
          ]
        ]
