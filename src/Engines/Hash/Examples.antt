-- ===== src/Engines/Hash/Examples.antt =====
-- src/engines/kvs_hash.c: the table at concrete inputs.
use kvstore.Common.{◌<◌, ◌≡◌, arith, Bytes, codes, [], ◌∷◌, none, some, All, replicate}
use kvstore.Engines.Base.{plenty}
use kvstore.Engines.Contract.{Results}
use kvstore.Engines.Hash.{max_table_size, get, exist, mod_value, set_value, del}
use kvstore.Engines.Hash.Table.{IsValid, IsKey, view}
use kvstore.Engines.Hash.Laws.{set_code, del_code, hash_set_value_lem, hash_del_lem}
use kvstore.Engines.Hash.Index.{ascii-IsKey, high_key_faults}
use kvstore.Engines.Hash.Created.{empty_table, empty_table-Holds}

empty_table-IsValid : IsValid empty_table
empty_table-IsValid = (replicate max_table_size [], empty_table-Holds)

a_ascii : All (λ c. c < 128) (codes "a")
a_ascii = (omega arith, tt)

a-IsKey : IsKey (codes "a")
a-IsKey = ascii-IsKey (codes "a") a_ascii

hash_set_value_example :
    Results IsValid view empty_table
      (codes "a")
      (some (codes "x"))
      (set_code plenty (view empty_table (codes "a")))
      (set_value plenty empty_table (codes "a") (codes "x"))
hash_set_value_example =
    hash_set_value_lem plenty {h = empty_table} (codes "a") (codes "x") empty_table-IsValid a-IsKey

hash_del_example :
    Results IsValid view empty_table
      (codes "a")
      none
      (del_code (view empty_table (codes "a")))
      (del empty_table (codes "a"))
hash_del_example = hash_del_lem {h = empty_table} (codes "a") empty_table-IsValid a-IsKey

-- The UTF-8 bytes of a Chinese character.
abbrev high_key : Bytes
high_key = 0xE4 ∷ 0xB8 ∷ 0xAD ∷ []

high_key_faults_example :
    (set_value plenty empty_table high_key (codes "x") ≡ none)
    × (get empty_table high_key ≡ none)
    × (mod_value plenty empty_table high_key (codes "x") ≡ none)
    × (del empty_table high_key ≡ none)
    × (exist empty_table high_key ≡ none)
high_key_faults_example =
    high_key_faults plenty empty_table high_key (codes "x")
      ((omega arith, omega arith), ((omega arith, omega arith), ((omega arith, omega arith), tt)))
      (omega arith) (omega arith)
