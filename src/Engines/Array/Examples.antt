-- ===== src/Engines/Array/Examples.antt =====
-- src/engines/kvs_array.c: the array at concrete inputs.
use kvstore.Common.{
  ℕ, zero, suc, refl, arith, Bytes, codes, [], ◌∷◌, length-replicate, replicate, Bool, true, false,
  none, some,
}
use kvstore.Engines.Base.{plenty}
use kvstore.Engines.Assoc.{occurs}
use kvstore.Engines.Contract.{Results}
use kvstore.Engines.Array.{KvArray, Slot, set_value, del}
use kvstore.Engines.Array.Shape.{IsValid, view}
use kvstore.Engines.Array.Laws.{set_code, array_set_value_lem}
use kvstore.Engines.Array.Removal.{del_code, array_del_lem}

-- An array with one key.
abbrev one_key : KvArray
one_key = record {
  table = some (some (codes "a", codes "x") ∷ replicate 1023 none);
  idx = 0;
  total = 1;
}

one_key-IsValid : IsValid one_key
one_key-IsValid = (
  (codes "a", codes "x") ∷ [],
  record {
    spare = replicate 1023 none;
    table = refl;
    total = refl;
    size = omega (arith, length-replicate {A = Slot} 1023 none);
    unique = λ q. unfold occurs in ground arith;
  },
)

abbrev unused : KvArray
unused = record { table = none; idx = 0; total = 0 }

array_set_value_example :
    Results IsValid view one_key
      (codes "b")
      (some (codes "y"))
      (set_code plenty (view one_key (codes "b")) 1)
      (set_value plenty one_key (codes "b") (codes "y"))
array_set_value_example =
    array_set_value_lem plenty {a = one_key} (codes "b") (codes "y") one_key-IsValid

array_del_example :
    Results IsValid view one_key
      (codes "a")
      none
      (del_code (view one_key (codes "a")))
      (del one_key (codes "a"))
array_del_example = array_del_lem {a = one_key} (codes "a") one_key-IsValid

-- A visitor that counts, and stops behind the second entry.
abbrev count_two : Bytes → Bytes → ℕ → ℕ × Bool
count_two k v zero = (1, true)
count_two k v (suc n) = (suc (suc n), false)
