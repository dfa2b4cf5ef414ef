-- ===== src/Engines/Array.antt =====
-- src/engines/kvs_array.c: a table of 1024 slots, of which the first `total` are in use.
-- A slot's key and value are NULL together, since every write sets both: `none` is such a slot.
pub mod Shape
pub mod Laws
pub mod Removal
pub mod Visit
pub mod Room
pub mod Frame
mod Examples
use kvstore.Common.{
  ℕ, zero, suc, ◌+◌, ◌-◌, Bool, true, false, List, [], ◌∷◌, Bytes, Option, none, some, ltb, leb,
  ◌==◌, ◌&&◌, if◌then◌else◌, get_or, set, str_eq,
}
use kvstore.Engines.Base.{Ret, success, not_found, failure, no_memory, Mem, Run}

abbrev pub Slot : Type 0
Slot = Option (Bytes × Bytes)

-- KVS_ARRAY_SIZE
abbrev pub array_size : ℕ
array_size = 1024

-- `table` is `none` before `create` and after `destroy`.
pub record KvArray : Type 0 where
  pub table : Option (List Slot)
  pub idx : ℕ
  pub total : ℕ

-- The memory that kvs_malloc returns is not cleared: `junk` is what it holds.
unfoldable pub create : Mem → List Slot → KvArray → KvArray × Ret
create mem junk a = elim a.table [
  | some t ↦ (a, failure)
  | none ↦ if mem 0 then (record a { table = some junk; total = 0 }, success) else (a, failure)
]

unfoldable pub destroy : KvArray → KvArray
destroy a = elim a.table [ none ↦ a | some t ↦ record { table = none; idx = 0; total = 0 } ]

pub data Scan : Type 0 where
  found : ℕ → Scan
  missing fault : Scan

-- The loop over the slots from number `i` on, with `n` rounds to go, up to the one whose key is
-- `key`; it skips a NULL key, as `get` and `mod` do.
pub scan : Bytes → ℕ → ℕ → List Slot → Scan
scan key i zero slots = missing
scan key i (suc n) [] = fault
scan key i (suc n) (none ∷ slots) = scan key (i + 1) n slots
scan key i (suc n) (some (k, v) ∷ slots) =
    let rest = scan key (i + 1) n slots in if str_eq k key then found i else rest

-- The loop of `del`, which hands a NULL key to strcmp.
pub scan_strict : Bytes → ℕ → ℕ → List Slot → Scan
scan_strict key i zero slots = missing
scan_strict key i (suc n) [] = fault
scan_strict key i (suc n) (none ∷ slots) = fault
scan_strict key i (suc n) (some (k, v) ∷ slots) =
    let rest = scan_strict key (i + 1) n slots in if str_eq k key then found i else rest

abbrev pub slots_of : KvArray → List Slot
slots_of a = elim a.table [ none ↦ [] | some t ↦ t ]

abbrev value_of : Slot → Option Bytes
value_of none = none
value_of (some (k, v)) = some v

abbrev with_value : Bytes → Slot → Slot
with_value v none = none
with_value v (some (k, w)) = some (k, v)

-- A store into a table that is there.
abbrev store : Option (List Slot) → ℕ → Slot → Option (List Slot)
store table i s = elim table [ none ↦ none | some t ↦ some (set t i s) ]

pub get : KvArray → Bytes → Run (Option Bytes)
get a key = elim (scan key 0 a.total (slots_of a)) [
  | found i ↦ some (value_of (get_or (slots_of a) i none))
  | missing ↦ some none
  | fault ↦ none
]

pub mod_value : Mem → KvArray → Bytes → Bytes → Run (KvArray × Ret)
mod_value mem a key value = elim (scan key 0 a.total (slots_of a)) [
  | found i ↦
      if mem 0
      then some (
        record a { table = store a.table i (with_value value (get_or (slots_of a) i none)) },
        success,
      )
      else some (a, no_memory)
  | missing ↦ some (a, not_found)
  | fault ↦ none
]

-- The index of the first NULL key among the next `n` slots, or the index behind them.
pub free_slot : ℕ → ℕ → List Slot → ℕ
free_slot i zero slots = i
free_slot i (suc n) [] = i + suc n
free_slot i (suc n) (none ∷ slots) = i
free_slot i (suc n) (some e ∷ slots) = free_slot (i + 1) n slots

-- What `set` does with a key that is not there.
insert : Mem → KvArray → Bytes → Bytes → KvArray × Ret
insert mem a key value =
    let i = free_slot 0 a.total (slots_of a) in
    let a' = record a { table = store a.table i (some (key, value)); total = a.total + 1 } in
    if leb array_size a.total
    then (a, failure)
    else if mem 0
    then (if mem 1
        then (if ltb i a.total
            then (a', success)
            else if i == a.total && ltb i array_size
            then (a', success)
            else (a, success))
        else (a, no_memory))
    else (a, no_memory)

after_update : Mem → Bytes → Bytes → KvArray × Ret → KvArray × Ret
after_update mem key value (a, not_found) = insert mem a key value
after_update mem key value (a, r) = (a, r)

-- The allocations of `mod_value` and of `insert` exclude one another.
pub set_value : Mem → KvArray → Bytes → Bytes → Run (KvArray × Ret)
set_value mem a key value = elim a.table [
  | none ↦ some (a, failure)
  | some t ↦ elim (mod_value mem a key value) [
    | none ↦ none
    | some r ↦ some (after_update mem key value r)
  ]
]

-- The last slot in use takes the place of the one that is cleared.
del_at : KvArray → ℕ → KvArray
del_at a i =
    let last = a.total - 1 in
    let cleared = store a.table i none in
    let moved = if i == last then cleared else store cleared i (get_or (slots_of a) last none) in
    record { table = store moved last none; idx = i; total = last }

pub del : KvArray → Bytes → Run (KvArray × Ret)
del a key = elim (scan_strict key 0 a.total (slots_of a)) [
  | found i ↦ some (del_at a i, success)
  | missing ↦ some (a, not_found)
  | fault ↦ none
]

pub exist : KvArray → Bytes → Run Ret
exist a key = elim (get a key) [
  | none ↦ none
  | some none ↦ some not_found
  | some (some v) ↦ some success
]

-- The visitor takes the context along, and `false` is a negative return code.
pub visit_slots {ℓ} :
    {C : Type ℓ} → (Bytes → Bytes → C → C × Bool) → ℕ → List Slot → C → Run (C × Ret)
visit_slots visit zero slots c = some (c, success)
visit_slots visit (suc n) [] c = none
visit_slots visit (suc n) (none ∷ slots) c = visit_slots visit n slots c
visit_slots visit (suc n) (some (k, v) ∷ slots) c =
    let (c', more) = visit k v c in
    elim more [ true ↦ visit_slots visit n slots c' | false ↦ some (c', failure) ]

pub foreach {ℓ} : {C : Type ℓ} → (Bytes → Bytes → C → C × Bool) → KvArray → C → Run (C × Ret)
foreach visit a c = elim a.table [
  | none ↦ some (c, failure)
  | some t ↦ visit_slots visit a.total t c
]
