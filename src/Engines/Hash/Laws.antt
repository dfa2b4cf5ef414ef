-- ===== src/Engines/Hash/Laws.antt =====
-- src/engines/kvs_hash.c: the operations against the map that the table stands for, for the keys that
-- have an index.
use kvstore.Common.{
  ℕ, ◌+◌, ◌-◌, ◌≤◌, ◌≡◌, refl, sym, ap, subst, arith, Bytes, List, [], ◌∷◌, ◌++◌, length,
  length-append, get_or, ◌&&◌, Option, none, some, Bool-cases, Option-cases, inl, inr, str_eq_iff,
  str_eq_refl, if◌then◌else◌,
}
use kvstore.Engines.Base.{Ret, success, not_found, failure, no_memory, Mem}
use kvstore.Engines.Assoc.{
  Entry, lookup, occurs, IsUnique, Found, lookup_cases, occurs_absent, lookup_replaced,
  occurs_replaced, lookup_removed, occurs_removed,
}
use kvstore.Engines.Contract.{Wrote, Results}
use kvstore.Engines.Hash.{
  exist, KvHash, Chain, hash_index, assign, unlink, store, set_in, set_value, get, mod_in,
  mod_value, del_in, del,
}
use kvstore.Engines.Hash.Table.{
  Holds, IsValid, IsKey, locate_lem, length-get_or-le, view, view_lem, Replaces, stored,
}

module _ (k : Bytes) (old : Bytes) (back : List Entry) where
  assign_found :
      (v : Bytes) (front : List Entry)
      → lookup k front ≡ none
      → assign k v (front ++ (k, old) ∷ back) ≡ front ++ (k, v) ∷ back
  unfolding assign lookup
  assign_found v [] h = rw (str_eq_refl k)
  assign_found v ((j, w) ∷ front) h = ground (arith, assign_found v front)

  unlink_found :
      (front : List Entry)
      → lookup k front ≡ none
      → unlink k (front ++ (k, old) ∷ back) ≡ some (front ++ back)
  unfolding unlink lookup
  unlink_found [] h = rw (str_eq_refl k)
  unlink_found ((j, w) ∷ front) h = ground (arith, unlink_found front)

unlink_missing : (k : Bytes) (c : Chain) → lookup k c ≡ none → unlink k c ≡ none
unfolding unlink lookup
unlink_missing k [] h = refl
unlink_missing k ((j, w) ∷ c) h = ground (arith, unlink_missing k c)

module _ (k : Bytes) (c : Chain) (u : IsUnique c) where
  assign-Replaces : (v : Bytes) (f : Found k c) → Replaces k (some v) c (assign k v c)
  assign-Replaces v f =
      subst (λ d. Replaces k (some v) d (assign k v d)) (sym f.parts)
        (rw (assign_found k f.old f.back v f.front f.before) (record {
          reads = λ q. lookup_replaced q k v f.front f.old f.back f.before;
          unique = λ q.
              rw (occurs_replaced q k v f.front f.old f.back)
                (subst (λ d. occurs q d ≤ 1) f.parts (u q));
          no_more = λ q _. omega (arith, occurs_replaced q k v f.front f.old f.back);
        }))

  cons-Replaces : (v : Bytes) → lookup k c ≡ none → Replaces k (some v) c ((k, v) ∷ c)
  unfolding lookup occurs
  cons-Replaces v gone = record {
    reads = λ q. refl;
    unique = λ q. ground (arith, u q, str_eq_iff k q, occurs_absent k c);
    no_more = λ q other. ground arith;
  }

  unlink-Replaces : (f : Found k c) → Replaces k none c (f.front ++ f.back)
  unlink-Replaces f =
      subst (λ d. Replaces k none d (f.front ++ f.back)) (sym f.parts)
        (record {
          reads = λ q. lookup_removed q k f.front f.old f.back (subst IsUnique f.parts u);
          unique = λ q. omega (
            arith,
            occurs_removed q k f.front f.old f.back,
            subst (λ d. occurs q d ≤ 1) f.parts (u q),
          );
          no_more = λ q _. occurs_removed q k f.front f.old f.back;
        })

length-assign : (k v : Bytes) (c : Chain) → length (assign k v c) ≡ length c
unfolding assign
length-assign k v [] = refl
length-assign k v ((j, w) ∷ c) = ground (arith, length-assign k v c)

-- The return codes of `set`, `mod` and `del`, from what the map has under the key.
abbrev pub set_code : Mem → Option Bytes → Ret
set_code mem none = if mem 0 && (mem 1 && mem 2) then success else failure
set_code mem (some old) = if mem 0 then success else no_memory

abbrev pub mod_code : Mem → Option Bytes → Ret
mod_code mem none = not_found
mod_code mem (some old) = if mem 0 then success else no_memory

abbrev pub del_code : Option Bytes → Ret
del_code none = failure
del_code (some old) = success

module _ {h : KvHash} {t : List Chain} (v : Holds h t) (k : Bytes) {i : ℕ}
    (e : hash_index k ≡ some i) where
  assigned :
      (value : Bytes) (f : Found k (get_or t i []))
      → Wrote IsValid view h k
          (some value)
          (record h { nodes = store h i (assign k value (get_or t i [])) })
  assigned value f =
      stored v k e (some value) (assign k value (get_or t i [])) h.count
        (assign-Replaces k (get_or t i []) (v.unique i) value f)
        (omega (arith, v.counted, length-assign k value (get_or t i [])))

  mod_value_holds :
      (mem : Mem) (value : Bytes)
      → Results IsValid view h k (some value) (mod_code mem (view h k)) (mod_value mem h k value)
  unfolding mod_value mod_in
  mod_value_holds mem value =
      rw (view_lem k v e, locate_lem k v e, mod_value)
        (elim (lookup_cases k (get_or t i [])) [
          | inl gone ↦ rw (gone, mod_in) ((h, not_found), refl, refl, refl)
          | inr f ↦
              rw (f.reads, mod_in)
                (elim (Bool-cases (mem 0)) [
                  | inl m ↦ rw m ((_, success), refl, refl, assigned value f)
                  | inr m ↦ rw m ((h, no_memory), refl, refl, refl)
                ])
        ])

  set_value_holds :
      (mem : Mem) (value : Bytes)
      → Results IsValid view h k (some value) (set_code mem (view h k)) (set_value mem h k value)
  unfolding set_value set_in
  set_value_holds mem value =
      rw (view_lem k v e, locate_lem k v e, set_value)
        (elim (lookup_cases k (get_or t i [])) [
          | inl gone ↦
              rw (gone, set_in)
                (elim (Bool-cases (mem 0 && (mem 1 && mem 2))) [
                  | inl m ↦ rw m (
                    (_, success),
                    refl,
                    refl,
                    stored v k e (some value) ((k, value) ∷ get_or t i []) (h.count + 1)
                        (cons-Replaces k (get_or t i []) (v.unique i) value gone)
                        (omega (arith, v.counted)),
                  )
                  | inr m ↦ rw m ((h, failure), refl, refl, refl)
                ])
          | inr f ↦
              rw (f.reads, set_in)
                (elim (Bool-cases (mem 0)) [
                  | inl m ↦ rw m ((_, success), refl, refl, assigned value f)
                  | inr m ↦ rw m ((h, no_memory), refl, refl, refl)
                ])
        ])

  del_holds : Results IsValid view h k none (del_code (view h k)) (del h k)
  unfolding del del_in
  del_holds =
      rw (view_lem k v e, locate_lem k v e, del)
        (elim (lookup_cases k (get_or t i [])) [
          | inl gone ↦
              rw (gone, unlink_missing k (get_or t i []) gone, del_in)
                ((h, failure), refl, refl, refl)
          | inr f ↦
              let gone : unlink k (get_or t i []) ≡ some (f.front ++ f.back) =
                subst (λ d. unlink k d ≡ some (f.front ++ f.back)) (sym f.parts)
                  (unlink_found k f.old f.back f.front f.before) in
              rw (f.reads, gone, del_in)
                (
                  (_, success),
                  refl,
                  refl,
                  stored v k e none (f.front ++ f.back) (h.count - 1)
                      (unlink-Replaces k (get_or t i []) (v.unique i) f)
                      (omega (
                        arith,
                        v.counted,
                        length-get_or-le t i,
                        ap length f.parts,
                        length-append f.front ((k, f.old) ∷ f.back),
                        length-append f.front f.back,
                      )),
                )
        ])

-- `set` on a valid table and a key with an index does not fault. For a key that is there it returns
-- 0, or -2 if the copy of the value cannot be allocated; for a new one 0, or -1 if one of its three
-- allocations fails. With 0 the map has changed at the key alone and the table is valid, otherwise
-- nothing has changed.
pub hash_set_value_lem :
    (mem : Mem) {h : KvHash} (k value : Bytes)
    → IsValid h
    → IsKey k
    → Results IsValid view h k (some value) (set_code mem (view h k)) (set_value mem h k value)
hash_set_value_lem mem k value (t, v) (i, e) = set_value_holds v k e mem value

-- `mod` on a valid table and a key with an index does not fault: it returns 1 if the key is not
-- there, -2 if the copy of the value cannot be allocated, both with nothing changed, and otherwise
-- 0 with the map changed at the key alone and the table valid.
pub hash_mod_value_lem :
    (mem : Mem) {h : KvHash} (k value : Bytes)
    → IsValid h
    → IsKey k
    → Results IsValid view h k (some value) (mod_code mem (view h k)) (mod_value mem h k value)
hash_mod_value_lem mem k value (t, v) (i, e) = mod_value_holds v k e mem value

-- `del` on a valid table and a key with an index does not fault: it returns -1 and changes nothing
-- if the key is not there, and otherwise 0 with the key gone, all other keys as they were
-- and the table valid, its counter the number of its nodes included.
pub hash_del_lem :
    {h : KvHash} (k : Bytes)
    → IsValid h
    → IsKey k
    → Results IsValid view h k none (del_code (view h k)) (del h k)
hash_del_lem k (t, v) (i, e) = del_holds v k e

-- `get` on a valid table and a key with an index does not fault, and reads the map.
pub hash_get_lem : {h : KvHash} (k : Bytes) → IsValid h → IsKey k → get h k ≡ some (view h k)
unfolding get
hash_get_lem k (t, v) (i, e) = rw (view_lem k v e, locate_lem k v e, get)

-- The return code of `exist`.
abbrev pub exist_code : Option Bytes → Ret
exist_code none = not_found
exist_code (some v) = success

-- `exist` on a valid table and a key with an index does not fault, and tells whether the map has the
-- key.
pub hash_exist_lem :
    {h : KvHash} (k : Bytes) → IsValid h → IsKey k → exist h k ≡ some (exist_code (view h k))
unfolding exist
hash_exist_lem {h} k v key =
    rw (hash_get_lem k v key, exist)
      (elim (Option-cases (view h k)) [ inl e ↦ rw e | inr (w, e) ↦ rw e ])
