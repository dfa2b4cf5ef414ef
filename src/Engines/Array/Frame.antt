-- ===== src/Engines/Array/Frame.antt =====
-- src/engines/kvs_array.c: a call that does not return 0 leaves the array as it was.
use kvstore.Common.{
  none-some, some_same, Option-cases, inl, inr, ◌≡◌, ◌⊎◌, inl, inr, arith, Bytes, some,
}
use kvstore.Engines.Base.{Ret, success, not_found, failure, no_memory, Mem}
use kvstore.Engines.Array.{KvArray, mod_value, insert, after_update, set_value, del}

pub array_mod-kept :
    (mem : Mem) (a t : KvArray) (k v : Bytes) (ret : Ret)
    → mod_value mem a k v ≡ some (t, ret)
    → (ret ≡ success) ⊎ (t ≡ a)
unfolding mod_value
array_mod-kept mem a t k v ret h = ground arith

pub array_del-kept :
    (a t : KvArray) (k : Bytes) (ret : Ret) → del a k ≡ some (t, ret) → (ret ≡ success) ⊎ (t ≡ a)
unfolding del
array_del-kept a t k ret h = ground arith

insert-kept :
    (mem : Mem) (a t : KvArray) (k v : Bytes) (ret : Ret)
    → insert mem a k v ≡ (t, ret)
    → (ret ≡ success) ⊎ (t ≡ a)
unfolding insert
insert-kept mem a t k v ret h = ground arith

after_update-kept :
    (mem : Mem) (a b t : KvArray) (k v : Bytes) (r ret : Ret)
    → (r ≡ success) ⊎ (b ≡ a)
    → after_update mem k v (b, r) ≡ (t, ret)
    → (ret ≡ success) ⊎ (t ≡ a)
unfolding after_update
after_update-kept mem a b t k v not_found ret (inl e) h = absurd (cc)
after_update-kept mem a b t k v not_found ret (inr e) h =
    ground (arith, insert-kept mem b t k v ret h)
after_update-kept mem a b t k v success ret e h = ground arith
after_update-kept mem a b t k v failure ret e h = ground arith
after_update-kept mem a b t k v no_memory ret e h = ground arith

pub array_set-kept :
    (mem : Mem) (a t : KvArray) (k v : Bytes) (ret : Ret)
    → set_value mem a k v ≡ some (t, ret)
    → (ret ≡ success) ⊎ (t ≡ a)
unfolding set_value
array_set-kept mem a t k v ret h = elim (Option-cases a.table) [
  | inl e ↦ ground (arith, e)
  | inr (x, e) ↦ elim (Option-cases (mod_value mem a k v)) [
    | inl f ↦ absurd (none-some (rw (e, set_value, f) at h))
    | inr ((b, r), f) ↦
        after_update-kept mem a b t k v r ret (array_mod-kept mem a b k v r f)
          (some_same (rw (e, set_value, f) at h))
  ]
]
