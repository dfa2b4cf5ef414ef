-- ===== src/Engines/Hash/Frame.antt =====
-- src/engines/kvs_hash.c: a call that does not return 0 leaves the table as it was.
use kvstore.Common.{◌≡◌, ◌⊎◌, arith, Bytes, some}
use kvstore.Engines.Base.{Ret, success, Mem}
use kvstore.Engines.Hash.{KvHash, mod_value, mod_in, set_value, set_in, del, del_in}

pub hash_mod-kept :
    (mem : Mem) (a t : KvHash) (k v : Bytes) (ret : Ret)
    → mod_value mem a k v ≡ some (t, ret)
    → (ret ≡ success) ⊎ (t ≡ a)
unfolding mod_value mod_in
hash_mod-kept mem a t k v ret h = ground arith

pub hash_set-kept :
    (mem : Mem) (a t : KvHash) (k v : Bytes) (ret : Ret)
    → set_value mem a k v ≡ some (t, ret)
    → (ret ≡ success) ⊎ (t ≡ a)
unfolding set_value set_in
hash_set-kept mem a t k v ret h = ground arith

pub hash_del-kept :
    (a t : KvHash) (k : Bytes) (ret : Ret) → del a k ≡ some (t, ret) → (ret ≡ success) ⊎ (t ≡ a)
unfolding del del_in
hash_del-kept a t k ret h = ground arith
