-- ===== src/Kvs/Fields/Framing.antt =====
-- src/kvstore.c: the network callback on the encoding of a command.
use kvstore.Common.{
  ◌-◌, if◌then◌else◌, ℕ, ◌≤◌, ◌≡◌, refl, ap, subst, arith, false, ◌||◌, List, [], ◌∷◌, ◌++◌, Bytes,
  none, some, ltb, leb, ◌==◌, length, length-append,
}
use kvstore.Protocol.{size_max, encode_command}
use kvstore.Protocol.Encoded.{command_bytes, encode_command_lem}
use kvstore.Protocol.RoundTrip.{parse_command-command_bytes, parse_command_limited_prefix}
use kvstore.Engines.Base.{Run}
use kvstore.Buffer.{OutputBuffer}
use kvstore.Kvs.{client, Engine, Server}
use kvstore.Kvs.Fields.{ended, gone, max_tokens, Call, Execution, execute_fields}
use kvstore.Kvs.Fields.Handlers.{
  max_client_command_bytes, Consumed, consumed, lost, consume, network_protocol,
}

-- A command that the network callback takes.
pub record IsClientCommand (fields : List Bytes) : Type 0 where
  pub some_field : 1 ≤ length fields
  pub few : length fields ≤ max_tokens
  pub small : length (command_bytes fields) ≤ max_client_command_bytes

-- What the end of kvs_execute_fields is to come to: a reply that fits behind the bytes of the buffer is
-- passed on with the bytes of the command consumed, and otherwise -1 with none.
pub take_command : {R K : Type 0} → ℕ → Run (Execution R K) → Run (Consumed R K)
take_command n none = none
take_command n (some (gone sv)) = some (lost sv)
take_command n (some (ended sv b none status)) = some (consumed sv b none 0)
take_command n (some (ended sv b (some reply) status)) = some (
    if leb (length reply) (b.capacity - length b.bytes)
    then consumed sv b (some reply) n
    else consumed sv b none 0)

module _ {R K : Type 0} (rb : Engine R) (sk : Engine K) (call : Call) (b : OutputBuffer)
    (sv : Server R K) where
  -- On the encoding, of at most 1 MiB, of a command of one to 128 fields with any bytes behind it, and a valid
  -- reply buffer, the network callback executes exactly the fields of the command and, if the reply fits, consumes exactly its
  -- bytes; on a first part of the encoding, but not all of it, it changes nothing, consumes nothing and waits.
  pub network_protocol-frames :
      (fields : List Bytes) (rest front back : Bytes) (x : ℕ)
      → IsClientCommand fields
      → 1 ≤ b.capacity
      → length b.bytes ≤ b.capacity
      → command_bytes fields ≡ front ++ (x ∷ back)
      → (network_protocol rb sk call (command_bytes fields ++ rest) b sv
          ≡ take_command
              (length (command_bytes fields))
              (execute_fields rb sk call client fields b sv))
        × (network_protocol rb sk call front b sv ≡ some (consumed sv b (some []) 0))
  unfolding network_protocol take_command consume
  network_protocol-frames fields rest front back x c space used cut =
      (whole rest, part front back x cut)
    where
      valid : (b.capacity == 0 || ltb b.capacity (length b.bytes)) ≡ false
      valid = ground arith

      decide :
          (run : Run (Execution R K))
          → ◌≡◌ {A = Run (Consumed R K)}
              (elim run [ none ↦ none | some e ↦ some (consume (length (command_bytes fields)) e) ])
              (take_command (length (command_bytes fields)) run)
      decide none = refl
      decide (some (gone sv)) = refl
      decide (some (ended sv b none status)) = refl
      decide (some (ended sv b (some reply) status)) = ground arith

      whole :
          (rest : Bytes)
          → network_protocol rb sk call (command_bytes fields ++ rest) b sv
            ≡ take_command
                (length (command_bytes fields))
                (execute_fields rb sk call client fields b sv)
      whole rest =
          let parsed =
            parse_command-command_bytes max_tokens max_client_command_bytes fields rest c.some_field
              c.few c.small (omega (arith, c.small)) in
          let some_byte : (length (command_bytes fields ++ rest) == 0) ≡ false = ground arith in
          rw (valid, network_protocol, some_byte, parsed)
            (decide (execute_fields rb sk call client fields b sv))

      part :
          (front back : Bytes) (x : ℕ)
          → command_bytes fields ≡ front ++ (x ∷ back)
          → network_protocol rb sk call front b sv ≡ some (consumed sv b (some []) 0)
      part [] back x e = rw (valid, network_protocol)
      part (f ∷ front) back x e =
          let n = length-append (f ∷ front) (x ∷ back) in
          let size = ap length e in
          let fits = c.small in
          let one = c.some_field in
          let out : encode_command fields size_max ≡ some (command_bytes fields) =
            ground (arith, encode_command_lem fields size_max) in
          let waits =
            parse_command_limited_prefix max_tokens max_client_command_bytes size_max fields
              (f ∷ front) back x (subst (λ t. encode_command fields size_max ≡ some t) e out) c.few
              (omega (arith, size)) in
          let some_byte : (length (f ∷ front) == 0) ≡ false = ground arith in
          let short : leb max_client_command_bytes (length (f ∷ front)) ≡ false =
            ground (arith, n, size) in
          rw (valid, network_protocol, some_byte, waits, short)
