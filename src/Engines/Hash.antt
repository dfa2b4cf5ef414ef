-- ===== src/Engines/Hash.antt =====
-- src/engines/kvs_hash.c: 1024 chains of nodes, indexed by the sum of a key's bytes.
-- A chain is the list of its nodes' keys and values. `char` is signed, as on x86-64, and the `int`
-- sum does not overflow for keys below 16 MiB; a client's command has at most 1 MiB.
pub mod Table
pub mod Laws
pub mod Index
pub mod Created
pub mod Frame
pub mod Visit
pub mod Entries
mod Examples
use kvstore.Common.{
  ℕ, zero, suc, ◌+◌, ◌-◌, ◌%◌, Bool, true, false, List, [], ◌∷◌, Bytes, Option, none, some, ltb,
  ◌==◌, ◌&&◌, if◌then◌else◌, length, set, replicate, str_eq,
}
use kvstore.Common.Int.{ℤ, pos, negsuc, ◌+ℤ◌, sub_ℕ}
use kvstore.Engines.Base.{Ret, success, not_found, failure, no_memory, Mem, Run}
use kvstore.Engines.Assoc.{Entry, lookup}

-- MAX_TABLE_SIZE
abbrev pub max_table_size : ℕ
max_table_size = 1024

abbrev pub Chain : Type 0
Chain = List Entry

-- `nodes` is `none` while the table is not allocated.
pub record KvHash : Type 0 where
  pub nodes : Option (List Chain)
  pub max_slots : ℕ
  pub count : ℕ

-- The value of a byte as a `char`.
signed_char : ℕ → ℤ
signed_char c = if ltb c 128 then pos c else sub_ℕ c 256

-- The loop of `_hash`.
sum_loop : ℤ → Bytes → ℤ
sum_loop sum [] = sum
sum_loop sum (c ∷ key) = sum_loop (sum +ℤ signed_char c) key

-- `sum % size` has the sign of `sum`; `none` is a negative index.
index_of_sum : ℤ → Option ℕ
index_of_sum (pos n) = some (n % max_table_size)
index_of_sum (negsuc n) = if suc n % max_table_size == 0 then some 0 else none

pub hash_index : Bytes → Option ℕ
hash_index key = index_of_sum (sum_loop (pos 0) key)

at : List Chain → ℕ → Option Chain
at [] i = none
at (c ∷ t) zero = some c
at (c ∷ t) (suc i) = at t i

-- The index of a key and the chain there. A NULL table and an index outside it are faults.
pub locate : KvHash → Bytes → Run (ℕ × Chain)
locate h key = elim (hash_index key) [
  | none ↦ none
  | some i ↦ elim h.nodes [
    | none ↦ none
    | some t ↦ elim (at t i) [ none ↦ none | some c ↦ some (i, c) ]
  ]
]

-- A chain with the value of the first node under `key` replaced.
assign : Bytes → Bytes → Chain → Chain
assign key value [] = []
assign key value ((k, v) ∷ c) = if str_eq k key then (k, value) ∷ c else (k, v) ∷ assign key value c

-- A chain without its first node under `key`, if there is one.
unlink : Bytes → Chain → Option Chain
unlink key [] = none
unlink key ((k, v) ∷ c) = if str_eq k key then some c else keep (unlink key c)
  where
    keep : Option Chain → Option Chain
    keep none = none
    keep (some d) = some ((k, v) ∷ d)

abbrev pub store : KvHash → ℕ → Chain → Option (List Chain)
store h i c = elim h.nodes [ none ↦ none | some t ↦ some (set t i c) ]

unfoldable pub create : Mem → KvHash → KvHash × Ret
create mem h =
    if mem 0
    then (
      record { nodes = some (replicate max_table_size []); max_slots = max_table_size; count = 0 },
      success,
    )
    else (record h { nodes = none }, failure)

-- The walk over the slots has no nodes array to read only where there are no slots: a create that fails
-- leaves `max_slots` as it was, which is 0 in a zeroed or destroyed table.
unfoldable pub destroy : KvHash → KvHash
destroy h = record { nodes = none; max_slots = 0; count = 0 }

-- A new node takes three allocations, and goes to the front of its chain.
set_in : Mem → KvHash → Bytes → Bytes → ℕ × Chain → KvHash × Ret
set_in mem h key value (i, c) = elim (lookup key c) [
  | some old ↦
      if mem 0
      then (record h { nodes = store h i (assign key value c) }, success)
      else (h, no_memory)
  | none ↦
      if mem 0 && (mem 1 && mem 2)
      then (record h { nodes = store h i ((key, value) ∷ c); count = h.count + 1 }, success)
      else (h, failure)
]

pub set_value : Mem → KvHash → Bytes → Bytes → Run (KvHash × Ret)
set_value mem h key value = elim (locate h key) [
  | none ↦ none
  | some p ↦ some (set_in mem h key value p)
]

pub get : KvHash → Bytes → Run (Option Bytes)
get h key = elim (locate h key) [ none ↦ none | some p ↦ some (lookup key p.1) ]

mod_in : Mem → KvHash → Bytes → Bytes → ℕ × Chain → KvHash × Ret
mod_in mem h key value (i, c) = elim (lookup key c) [
  | none ↦ (h, not_found)
  | some old ↦
      if mem 0
      then (record h { nodes = store h i (assign key value c) }, success)
      else (h, no_memory)
]

pub mod_value : Mem → KvHash → Bytes → Bytes → Run (KvHash × Ret)
mod_value mem h key value = elim (locate h key) [
  | none ↦ none
  | some p ↦ some (mod_in mem h key value p)
]

-- A missing key is reported by -1.
del_in : KvHash → Bytes → ℕ × Chain → KvHash × Ret
del_in h key (i, c) = elim (unlink key c) [
  | none ↦ (h, failure)
  | some d ↦ (record h { nodes = store h i d; count = h.count - 1 }, success)
]

pub del : KvHash → Bytes → Run (KvHash × Ret)
del h key = elim (locate h key) [ none ↦ none | some p ↦ some (del_in h key p) ]

pub exist : KvHash → Bytes → Run Ret
exist h key = elim (get h key) [
  | none ↦ none
  | some none ↦ some not_found
  | some (some v) ↦ some success
]

visit_chain {ℓ} : {C : Type ℓ} → (Bytes → Bytes → C → C × Bool) → Chain → C → C × Ret
visit_chain visit [] c = (c, success)
visit_chain visit ((k, v) ∷ es) c =
    let (c', more) = visit k v c in
    elim more [ true ↦ visit_chain visit es c' | false ↦ (c', failure) ]

-- The loop over the chains, with `n` rounds to go.
visit_table {ℓ} : {C : Type ℓ} → (Bytes → Bytes → C → C × Bool) → ℕ → List Chain → C → Run (C × Ret)
visit_table visit zero t c = some (c, success)
visit_table visit (suc n) [] c = none
visit_table visit (suc n) (es ∷ t) c =
    let (c', r) = visit_chain visit es c in
    elim r [ success ↦ visit_table visit n t c' | _ ↦ some (c', failure) ]

pub foreach {ℓ} : {C : Type ℓ} → (Bytes → Bytes → C → C × Bool) → KvHash → C → Run (C × Ret)
foreach visit h c = elim h.nodes [
  | none ↦ some (c, failure)
  | some t ↦ visit_table visit h.max_slots t c
]
