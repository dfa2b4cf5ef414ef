-- ===== src/Engines/Hash/Created.antt =====
-- src/engines/kvs_hash.c: a new table.
use kvstore.Common.{
  ℕ, zero, suc, ◌≡◌, refl, arith, Bytes, [], length-replicate, get_or-replicate, replicate, none,
  some, Option-cases, Bool-cases, inl, inr, if◌then◌else◌,
}
use kvstore.Engines.Base.{Ret, success, not_found, failure, no_memory, Mem}
use kvstore.Engines.Assoc.{IsUnique, occurs, lookup}
use kvstore.Engines.Hash.{KvHash, Chain, max_table_size, hash_index, create}
use kvstore.Engines.Hash.Table.{Holds, IsValid, total_length, view, view_lem, view-none}

total_length-empty : (n : ℕ) → total_length (replicate n []) ≡ 0
unfolding total_length
total_length-empty zero = refl
total_length-empty (suc n) = omega (arith, total_length-empty n)

absent : (q : Bytes) → occurs q [] ≡ 0
unfolding occurs
absent q = refl

none_occurs : IsUnique []
none_occurs q = rw (absent q) (omega arith)

-- A table of 1024 empty chains.
abbrev pub empty_table : KvHash
empty_table = record {
  nodes = some (replicate max_table_size []);
  max_slots = max_table_size;
  count = 0;
}

pub empty_table-Holds : Holds empty_table (replicate max_table_size [])
empty_table-Holds = record {
  nodes = refl;
  width = length-replicate {A = Chain} max_table_size [];
  slots = refl;
  unique = λ i. rw (get_or-replicate {A = Chain} max_table_size i []) none_occurs;
  placed = λ q i _. rw (get_or-replicate {A = Chain} max_table_size i []) (absent q);
  counted = rw (total_length-empty max_table_size);
}

pub empty_table-view : (q : Bytes) → view empty_table q ≡ none
empty_table-view q = elim (Option-cases (hash_index q)) [
  | inl e ↦ view-none empty_table q e
  | inr (i, e) ↦
      rw (view_lem q empty_table-Holds e, get_or-replicate {A = Chain} max_table_size i [])
        (unfold lookup in refl)
]

-- What `create` leaves and returns: a valid and empty table with 0, or no table with -1.
abbrev pub Created : KvHash → KvHash × Ret → Type 0
Created h (h', success) = IsValid h' × ((q : Bytes) → view h' q ≡ none)
Created h (h', not_found) = ⊥
Created h (h', failure) = h' ≡ record h { nodes = none }
Created h (h', no_memory) = ⊥

-- `create` returns 0 with a valid table in which no key has a value, or -1 with no table, as
-- its allocation succeeds or fails.
pub hash_create_lem :
    (mem : Mem) (h : KvHash)
    → Created h (create mem h) × ((create mem h).1 ≡ (if mem 0 then success else failure))
unfolding create
hash_create_lem mem h = elim (Bool-cases (mem 0)) [
  | inl e ↦ rw (e, create) (((_, empty_table-Holds), empty_table-view), refl)
  | inr e ↦ rw (e, create) (refl, refl)
]
