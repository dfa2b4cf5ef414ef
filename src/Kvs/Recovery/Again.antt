-- ===== src/Kvs/Recovery/Again.antt =====
-- src/kvstore.c: the recovery callback on a command that has been logged.
use kvstore.Common.{
  ℕ, ◌+◌, ◌≤◌, ◌≡◌, refl, ◌∙◌, arith, Bool, true, false, not, ◌||◌, List, [], ◌∷◌, ◌++◌, Bytes,
  codes, some, length, ◌==◌, ltb,
}
use kvstore.Protocol.{crlf}
use kvstore.Engines.Base.{plenty}
use kvstore.Buffer.{OutputBuffer}
use kvstore.Kvs.{
  CommandSource, recovery, ExecStatus, exec_ok, Engine, Env, Server, replied, execute_tokens,
  filter_protocol,
}
use kvstore.Kvs.Commands.{
  Op, set_op, get_op, del_op, mod_op, exist_op, Which, find_command, is_write_command,
}
use kvstore.Kvs.Replies.{arity, is_client, rewrite_reply}
use kvstore.Kvs.Fields.{
  clean, scan_fields, Call, ended, max_tokens, set_status, conclude, run_tokens, run_known,
  execute_command, execute_checked, execute_fields,
}
use kvstore.Kvs.Fields.Handlers.{
  answers, answer_of, reply_length, own_buffer, recovery_fields_protocol,
}
use kvstore.Kvs.Recovery.Tokens.{fields_to_tokens-clean}

-- The text of a write that has succeeded.
abbrev pub ok_text : Bytes
ok_text = codes "OK" ++ crlf

rewrite_reply-recovery :
    (which : Which) (op : Op) (room : ℕ) (reply : Bytes) (status : ExecStatus)
    → rewrite_reply recovery (some (which, op)) room reply status ≡ some reply
unfolding rewrite_reply is_client
rewrite_reply-recovery which set_op room reply status = refl
rewrite_reply-recovery which get_op room reply status = refl
rewrite_reply-recovery which del_op room reply status = refl
rewrite_reply-recovery which mod_op room reply status = refl
rewrite_reply-recovery which exist_op room reply status = refl

pub arity-le : (op : Op) → arity op ≤ 3
unfolding arity
arity-le op = ground arith

abbrev own : OutputBuffer
own = record { bytes = []; offset = 0; capacity = 1024 }

run_known-write :
    {R K : Type 0} (rb : Engine R) (sk : Engine K) (call : Call) (source : CommandSource)
    (name key : Bytes) (rest : List Bytes) (which : Which) (op : Op) (b : OutputBuffer) (room : ℕ)
    (sv : Server R K)
    → is_write_command op ≡ true
    → run_known rb sk call source name which op (key ∷ rest) b room sv
      ≡ run_tokens rb sk call source (name ∷ key ∷ rest) (some (which, op)) b room sv
unfolding run_known is_write_command
run_known-write rb sk call source name key rest which set_op b room sv w = refl
run_known-write rb sk call source name key rest which del_op b room sv w = refl
run_known-write rb sk call source name key rest which mod_op b room sv w = refl
run_known-write rb sk call source name key rest which get_op b room sv w = absurd (cc)
run_known-write rb sk call source name key rest which exist_op b room sv w = absurd (cc)

-- A call with enough memory for the tokens.
abbrev pub recovery_call : Env → Bool → Bool → Bool → Call
recovery_call env grows stored online = record {
  env = env;
  token_mem = plenty;
  grows = grows;
  stored = stored;
  online = online;
}

module _ {R K : Type 0} (rb : Engine R) (sk : Engine K) (env : Env) (grows stored online : Bool)
    (which : Which) (op : Op) (name key : Bytes) (rest : List Bytes) (s s' : Server R K)
    (found : find_command name ≡ some (which, op))
    (ran : filter_protocol rb sk env recovery (name ∷ key ∷ rest) s
      ≡ some (replied s' ok_text (some exec_ok))) where
  abbrev call : Call
  call = recovery_call env grows stored online

  tokens-again :
      run_tokens rb sk call recovery (name ∷ key ∷ rest) (some (which, op)) own 1024 s
      ≡ some (ended s' own (some ok_text) exec_ok)
  unfolding run_tokens execute_tokens conclude set_status
  tokens-again =
      let some_token : (length (name ∷ key ∷ rest) == 0 || 1024 == 0) ≡ false = ground arith in
      rw (
        run_tokens,
        execute_tokens,
        some_token,
        ran,
        conclude,
        rewrite_reply-recovery which op 1024 ok_text exec_ok,
      )

  known-again :
      is_write_command op ≡ true
      → run_known rb sk call recovery name which op (key ∷ rest) own 1024 s
        ≡ some (ended s' own (some ok_text) exec_ok)
  known-again w =
      run_known-write rb sk call recovery name key rest which op own 1024 s w ∙ tokens-again

  command-again :
      is_write_command op ≡ true
      → 2 + length rest ≡ arity op
      → execute_command rb sk call recovery name (key ∷ rest) (find_command name) own 1024 s
        ≡ some (ended s' own (some ok_text) exec_ok)
  unfolding execute_command
  command-again w n =
      let right : not (1 + length (key ∷ rest) == arity op) ≡ false = ground (arith, n) in
      rw (found, execute_command, right) (known-again w)

  fields-again :
      is_write_command op ≡ true
      → 2 + length rest ≡ arity op
      → scan_fields (name ∷ key ∷ rest) ≡ clean
      → execute_fields rb sk call recovery (name ∷ key ∷ rest) own s
        ≡ some (ended s' own (some ok_text) exec_ok)
  unfolding execute_fields execute_checked is_client
  fields-again w n c =
      let few : (length (name ∷ key ∷ rest) == 0 || ltb max_tokens (length (name ∷ key ∷ rest)))
          ≡ false =
        ground (arith, n, arity-le op) in
      let tokens =
        fields_to_tokens-clean (name ∷ key ∷ rest) c (omega arith)
          (omega (arith, n, arity-le op)) in
      rw (few, execute_fields, c, tokens, execute_checked) (command-again w n)

  -- The recovery callback does a command that has been logged, and answers with the length of OK.
  pub recovery-again :
      is_write_command op ≡ true
      → 2 + length rest ≡ arity op
      → scan_fields (name ∷ key ∷ rest) ≡ clean
      → recovery_fields_protocol rb sk call (name ∷ key ∷ rest) 1024 s ≡ some (answers s' (some 4))
  unfolding recovery_fields_protocol own_buffer answer_of reply_length
  recovery-again w n c =
      rw (recovery_fields_protocol, own_buffer, fields-again w n c, answer_of, reply_length)
