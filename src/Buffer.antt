-- ===== src/Buffer.antt =====
-- src/network/buffer.c and include/server.h: connection buffers and the splitting of lines.
-- A buffer's valid bytes are a list, so its `length` field is the list's length; its pointer is NULL
-- exactly while `capacity` is 0. An `int` has 32 bits, and a negative argument is refused like 0.
pub mod Growth
pub mod Lines
mod Examples
use kvstore.Common.{
  ℕ, zero, suc, ◌+◌, ◌-◌, ◌*◌, ◌/◌, ◌^◌, Bool, true, false, List, [], ◌∷◌, ◌++◌, Bytes, Option,
  none, some, ltb, leb, ◌==◌, ◌&&◌, ◌||◌, if◌then◌else◌, length, take, drop,
}

-- INT_MAX
abbrev pub int_max : ℕ
int_max = 2 ^ 31 - 1

-- BUFFER_LENGTH
abbrev pub buffer_length : ℕ
buffer_length = 1024

-- kvs_input_buffer_t
pub record InputBuffer : Type 0 where
  pub bytes : Bytes
  pub capacity : ℕ

-- kvs_output_buffer_t: `offset` bytes have been sent.
pub record OutputBuffer : Type 0 where
  pub bytes : Bytes
  pub offset : ℕ
  pub capacity : ℕ

-- The loop that doubles the capacity, with fuel.
growth_loop : ℕ → ℕ → ℕ → ℕ
growth_loop zero required n = n
growth_loop (suc fuel) required n =
    let rest = growth_loop fuel required (if ltb (int_max / 2) n then required else n * 2) in
    if ltb n required then rest else n

-- The capacity after `ensure_buffer_space`, or the return code -1. `fits` is the outcome of
-- kvs_malloc. Doubling a positive `int` 32 times passes every `int`.
pub ensure_space : Bool → ℕ → ℕ → ℕ → Option ℕ
ensure_space fits len capacity minimum_free =
    if minimum_free == 0 || ltb capacity len
    then none
    else if leb minimum_free (capacity - len)
    then some capacity
    else if ltb (int_max - minimum_free) len
    then none
    else if fits
    then some
        (growth_loop 32 (len + minimum_free) (if ltb 0 capacity then capacity else buffer_length))
    else none

-- The valid bytes are copied to the new space.
pub input_ensure_space : Bool → InputBuffer → ℕ → Option InputBuffer
input_ensure_space fits b minimum_free =
    elim (ensure_space fits (length b.bytes) b.capacity minimum_free) [
      | none ↦ none
      | some n ↦ some (record b { capacity = n })
    ]

pub output_ensure_space : Bool → OutputBuffer → ℕ → Option OutputBuffer
output_ensure_space fits b minimum_free =
    if ltb (length b.bytes) b.offset
    then none
    else elim (ensure_space fits (length b.bytes) b.capacity minimum_free) [
      | none ↦ none
      | some n ↦ some (record b { capacity = n })
    ]

pub input_free : InputBuffer → InputBuffer
input_free b = record { bytes = []; capacity = 0 }

pub output_free : OutputBuffer → OutputBuffer
output_free b = record { bytes = []; offset = 0; capacity = 0 }

-- `none` is the return code -1, with the buffer as it was.
pub input_consume : InputBuffer → ℕ → Option InputBuffer
input_consume b n =
    if ltb (length b.bytes) n then none else some (record b { bytes = drop n b.bytes })

-- The end of the first line: the bytes before its delimiter and the delimiter's length. `i` counts
-- the bytes that were passed, and `cr` tells whether the last of them is a carriage return.
line_end_loop : ℕ → Bool → Bytes → Option (ℕ × ℕ)
line_end_loop i cr [] = none
line_end_loop i cr (c ∷ rest) =
    let next = line_end_loop (i + 1) (c == b'\r') rest in
    if c == b'\n' then (if cr then some (i - 1, 2) else some (i, 1)) else next

pub find_line_end : Bytes → Option (ℕ × ℕ)
find_line_end msg = line_end_loop 0 false msg

-- A frame handler takes the connection's state, a line and the room for the reply; `none` is a
-- negative return code.
abbrev pub FrameHandler : Type 0 → Type 0
FrameHandler S = S → Bytes → ℕ → S × Option Bytes

-- What a batch returns: the state, the bytes consumed and the replies, or the return code -1.
pub data Batch (S : Type 0) : Type 0 where
  answered : S → ℕ → Bytes → Batch S
  rejected : S → Batch S

-- One line goes to the handler; `next` goes on with the state and the reply, if that fits.
answer : {S : Type 0} → FrameHandler S → S → Bytes → ℕ → (S → Bytes → Batch S) → Batch S
answer handler s line room next =
    let (s', reply) = handler s line room in
    elim reply [
      | none ↦ rejected s'
      | some r ↦ if ltb room (length r) then rejected s' else next s' r
    ]

-- The loop over the lines, with fuel; `room` is what is left of the response buffer.
batch_loop : {S : Type 0} → ℕ → FrameHandler S → S → Bytes → ℕ → Bytes → ℕ → Batch S
batch_loop zero handler s input offset out room = answered s offset out
batch_loop (suc fuel) handler s input offset out room = elim (find_line_end input) [
  | none ↦ answered s offset out
  | some (n, delimiter) ↦
      if n == 0 || room == 0
      then rejected s
      else answer handler s (take n input) room λ s' r.
        batch_loop fuel handler s' (drop (n + delimiter) input) (offset + (n + delimiter))
          (out ++ r) (room - length r)
]

-- Each line takes a byte at least, so as many rounds as there are bytes are enough.
pub line_batch : {S : Type 0} → FrameHandler S → S → Bytes → ℕ → Batch S
line_batch handler s msg capacity =
    if length msg == 0 || capacity == 0
    then rejected s
    else batch_loop (length msg) handler s msg 0 [] capacity
