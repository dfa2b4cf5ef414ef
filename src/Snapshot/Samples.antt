-- ===== src/Snapshot/Samples.antt =====
-- src/persistence/snapshot_store.c: a server with one key, and engines without any.
use kvstore.Common.{
  ℕ, zero, suc, ◌≡◌, refl, arith, true, List, [], ◌∷◌, Bytes, codes, Option, none, some, replicate,
  length-replicate,
}
use kvstore.Engines.Base.{success, not_found}
use kvstore.Engines.Assoc.{Entry, occurs}
use kvstore.Engines.Array.{KvArray, Slot}
use kvstore.Engines.Array.Visit.{visit_all}
use kvstore.Engines.Array.Shape
use kvstore.Engines.Hash.{Chain}
use kvstore.Engines.Hash.Created.{empty_table}
use kvstore.Engines.Hash.Visit.{table_entries}
use kvstore.Kvs.{standalone, aof_only, Engine, Server}
use kvstore.Kvs.Fields.{has_nul}
use kvstore.Snapshot.Checksum.{IsBytes}
use kvstore.Snapshot.Save.{Iteration}
use kvstore.Snapshot.Save.Contents.{Visits}
use kvstore.Snapshot.Read.Records.{IsField}
use kvstore.Snapshot.Load.Interface.{Restores}

-- An engine that has no keys, for the two that are not modelled.
abbrev pub no_engine : Engine (Unit {0})
no_engine = record {
  set_value = λ mem s key value. some (s, not_found);
  get = λ s key. some none;
  del = λ s key. some (s, not_found);
  mod_value = λ mem s key value. some (s, not_found);
  exist = λ s key. some not_found;
}

abbrev pub no_iteration : Iteration (Unit {0})
no_iteration = record { foreach = λ visit s c. some (c, success) }

abbrev pub NoKey : Bytes → Type 0
NoKey k = ⊥

abbrev pub AnyRoom : ℕ → Unit {0} → Type 0
AnyRoom n s = Unit {0}

abbrev pub no_view : Unit {0} → Bytes → Option Bytes
no_view s q = none

pub no_engine-Restores : Restores no_engine AnyRoom NoKey no_view
no_engine-Restores = record {
  reads_absent = λ n s k ready key new. absurd key;
  takes_new = λ n s k v mem g ready key new. absurd key;
}

pub no_iteration-Visits : Visits no_iteration tt []
no_iteration-Visits = record { visits = λ visit c. unfold visit_all in refl }

abbrev pub one_entry : List Entry
one_entry = (codes "a", codes "xy") ∷ []

abbrev pub an_array : KvArray
an_array = record {
  table = some (some (codes "a", codes "xy") ∷ replicate 1023 none);
  idx = 0;
  total = 1;
}

pub an_array-Holds : Shape.Holds an_array one_entry
an_array-Holds = record {
  spare = replicate 1023 none;
  table = refl;
  total = refl;
  size = omega (arith, length-replicate {A = Slot} 1023 none);
  unique = λ q. unfold occurs in ground arith;
}

abbrev pub a_server : Server (Unit {0}) (Unit {0})
a_server = record {
  array_store = an_array;
  rbtree_store = tt;
  hash_store = empty_table;
  skiplist_store = tt;
  role = standalone;
  mode = aof_only;
  writer = record { opened = true; offset = 0; file = [] };
}

abbrev pub no_chains : List Chain
no_chains = replicate 1024 []

pub no_entries : (n : ℕ) → table_entries (replicate n []) ≡ []
unfolding table_entries
no_entries zero = refl
no_entries (suc n) = no_entries n

pub a-IsField : IsField (codes "a")
a-IsField = record {
  short = omega arith;
  no_nul = unfold has_nul in refl;
  are_bytes = unfold IsBytes in (omega arith, tt);
}

pub xy-IsField : IsField (codes "xy")
xy-IsField = record {
  short = omega arith;
  no_nul = unfold has_nul in refl;
  are_bytes = unfold IsBytes in (omega arith, (omega arith, tt));
}
