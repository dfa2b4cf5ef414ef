-- ===== src/Engines/Array/Laws.antt =====
-- src/engines/kvs_array.c: the operations against the map that the array stands for.
use kvstore.Common.{
  ℕ, ◌+◌, ◌≤◌, ◌≡◌, refl, sym, ap, subst, ◌∙◌, arith, Bytes, List, [], ◌∷◌, ◌++◌, length,
  length-append, append_assoc, ◌&&◌, Option, none, some, leb, if◌then◌else◌, Bool-cases,
  Option-cases, inl, inr, str_eq_iff, ◌<◌,
}
use kvstore.Engines.Base.{Ret, success, not_found, failure, no_memory, Mem}
use kvstore.Engines.Assoc.{
  Entry, lookup, Found, lookup_cases, lookup_replaced, occurs_replaced, occurs, occurs-append,
  occurs_absent, lookup-append,
}
use kvstore.Engines.Contract.{Wrote, After, Results}
use kvstore.Engines.Array.{
  KvArray, Slot, array_size, store, get, mod_value, insert, after_update, set_value, exist,
}
use kvstore.Engines.Array.Shape.{
  full, full-append, Holds, IsValid, scan-none, scan_some, free_none, slot_some, store-some,
  full_parts, set_behind, view, view_lem,
}

-- `get` on a valid array does not fault, and reads the map.
pub array_get_lem : {a : KvArray} (k : Bytes) → IsValid a → get a k ≡ some (view a k)
unfolding get
array_get_lem {a} k (es, h) = rw (view_lem k h) (elim (lookup_cases k es) [
  | inl gone ↦ rw (scan-none h k gone, get, gone)
  | inr f ↦ rw (scan_some h k f, get, f.reads, slot_some h k f)
])

-- The return code of `exist`.
abbrev pub exist_code : Option Bytes → Ret
exist_code none = not_found
exist_code (some v) = success

-- `exist` on a valid array does not fault, and tells whether the map has the key.
pub array_exist_lem :
    {a : KvArray} (k : Bytes) → IsValid a → exist a k ≡ some (exist_code (view a k))
unfolding exist
array_exist_lem {a} k v =
    rw (array_get_lem k v, exist)
      (elim (Option-cases (view a k)) [ inl e ↦ rw e | inr (w, e) ↦ rw e ])

-- The return code of `mod`.
abbrev pub mod_code : Mem → Option Bytes → Ret
mod_code mem none = not_found
mod_code mem (some old) = if mem 0 then success else no_memory

-- The return code of `set`, for an array with `n` keys.
abbrev pub set_code : Mem → Option Bytes → ℕ → Ret
set_code mem (some old) n = if mem 0 then success else no_memory
set_code mem none n =
    if leb array_size n then failure else if mem 0 && mem 1 then success else no_memory

module _ {a : KvArray} {es : List Entry} (h : Holds a es) (k v : Bytes) where
  replaced :
      (f : Found k es)
      → Wrote IsValid view a k
          (some v)
          (record a { table = store a.table (length f.front) (some (k, v)) })
  replaced f =
      let es' = f.front ++ (k, v) ∷ f.back in
      let n : length es' ≡ length es = rw f.parts (
        omega (
          arith,
          length-append f.front ((k, v) ∷ f.back),
          length-append f.front ((k, f.old) ∷ f.back),
        )) in
      let holds : Holds (record a { table = store a.table (length f.front) (some (k, v)) }) es' =
        record {
          spare = h.spare;
          table =
              store-some h k f (some (k, v))
              ∙ ap some (sym (full_parts (k, v) f.front f.back h.spare));
          total = h.total ∙ sym n;
          size = omega (arith, h.size);
          unique = λ q.
              rw (occurs_replaced q k v f.front f.old f.back)
                (subst (λ l. occurs q l ≤ 1) f.parts (h.unique q));
        } in
      record {
        valid = (es', holds);
        reads = λ q.
            view_lem q holds
            ∙ lookup_replaced q k v f.front f.old f.back f.before
            ∙ rw (view_lem q h, f.parts);
      }

  mod_value_holds :
      (mem : Mem)
      → Results IsValid view a k (some v) (mod_code mem (view a k)) (mod_value mem a k v)
  unfolding mod_value
  mod_value_holds mem = rw (view_lem k h) (elim (lookup_cases k es) [
    | inl gone ↦ rw (gone, scan-none h k gone, mod_value) ((a, not_found), refl, refl, refl)
    | inr f ↦
        rw (f.reads, scan_some h k f, mod_value, slot_some h k f)
          (elim (Bool-cases (mem 0)) [
            | inl e ↦ rw e ((_, success), refl, refl, replaced f)
            | inr e ↦ rw e ((a, no_memory), refl, refl, refl)
          ])
  ])

  inserted-Holds :
      (spare : List Slot)
      → h.spare ≡ spare
      → lookup k es ≡ none
      → length es < array_size
      → Holds
          (record a { table = store a.table (length es) (some (k, v)); total = a.total + 1 })
          (es ++ (k, v) ∷ [])
  inserted-Holds [] e gone less = absurd (omega (arith, h.size, ap length e))
  inserted-Holds (s ∷ spare) e gone less = record {
    spare = spare;
    table =
        rw (h.table, e)
          (ap some (
            set_behind es s (some (k, v)) spare
            ∙ sym (
                rw (
                  full-append es ((k, v) ∷ []),
                  append_assoc (full es) (some (k, v) ∷ []) spare,
                ))));
    total = omega (arith, h.total, length-append es ((k, v) ∷ []));
    size = omega (arith, h.size, ap length e, length-append es ((k, v) ∷ []));
    unique = λ q.
        unfold occurs in
        ground (
          arith,
          occurs-append q es ((k, v) ∷ []),
          h.unique q,
          occurs_absent q es,
          str_eq_iff k q,
          gone,
        );
  }

  inserted :
      lookup k es ≡ none
      → length es < array_size
      → Wrote IsValid view a k
          (some v)
          (record a { table = store a.table (length es) (some (k, v)); total = a.total + 1 })
  inserted gone less =
      let holds = inserted-Holds h.spare refl gone less in
      record {
        valid = (_, holds);
        reads = λ q.
            unfold lookup in
            view_lem q holds
            ∙ ground (arith, view_lem q h, lookup-append q es ((k, v) ∷ []), str_eq_iff k q, gone);
      }

  insert_lem :
      (mem : Mem)
      → insert mem a k v ≡ (
          if leb array_size (length es)
          then (a, failure)
          else if mem 0 && mem 1
          then (
            record a { table = store a.table (length es) (some (k, v)); total = a.total + 1 },
            success,
          )
          else (a, no_memory))
  unfolding insert
  insert_lem mem = rw (free_none h k, insert) (ground (arith, h.total))

  insert_holds :
      (mem : Mem)
      → lookup k es ≡ none
      → ((insert mem a k v).1 ≡ set_code mem none (length es))
        × After IsValid view a k (some v) (insert mem a k v)
  insert_holds mem gone = rw (insert_lem mem) (elim (Bool-cases (leb array_size (length es))) [
    | inl e ↦ rw e (refl, refl)
    | inr e ↦ rw e (elim (Bool-cases (mem 0 && mem 1)) [
      | inl e' ↦ rw e' (refl, inserted gone (ground arith))
      | inr e' ↦ rw e' (refl, refl)
    ])
  ])

  set_value_run :
      (mem : Mem) (r : KvArray × Ret)
      → mod_value mem a k v ≡ some r
      → set_value mem a k v ≡ some (after_update mem k v r)
  unfolding set_value
  set_value_run mem r e = ground (arith, h.table)

  set_value_holds :
      (mem : Mem)
      → Results IsValid view a k
          (some v)
          (set_code mem (view a k) (length es))
          (set_value mem a k v)
  unfolding mod_value after_update
  set_value_holds mem = rw (view_lem k h) (elim (lookup_cases k es) [
    | inl gone ↦ rw gone (
      insert mem a k v,
      set_value_run mem (a, not_found) (rw (scan-none h k gone, mod_value)),
      (insert_holds mem gone).0,
      (insert_holds mem gone).1,
    )
    | inr f ↦ rw f.reads (elim (Bool-cases (mem 0)) [
      | inl e ↦ rw e (
        (_, success),
        set_value_run mem (_, success) (rw (scan_some h k f, mod_value, slot_some h k f, e)),
        refl,
        replaced f,
      )
      | inr e ↦ rw e (
        (a, no_memory),
        set_value_run mem (a, no_memory) (rw (scan_some h k f, mod_value, e)),
        refl,
        refl,
      )
    ])
  ])

-- `mod` does not fault on a valid array. It returns 1 and changes nothing if the key is not there,
-- -2 and changes nothing if the copy of the value cannot be allocated, and otherwise 0 with the map
-- changed at the key alone and the array valid.
pub array_mod_value_lem :
    (mem : Mem) {a : KvArray} (k v : Bytes)
    → IsValid a
    → Results IsValid view a k (some v) (mod_code mem (view a k)) (mod_value mem a k v)
array_mod_value_lem mem k v (es, h) = mod_value_holds h k v mem

-- `set` does not fault on a valid array. For a key that is there it does what `mod` does; for a new
-- one it returns -1 if all 1024 slots are in use and -2 if one of its two allocations fails, both
-- with nothing changed, and otherwise 0 with the map changed at the key alone and the array valid.
pub array_set_value_lem :
    (mem : Mem) {a : KvArray} (k v : Bytes)
    → IsValid a
    → Results IsValid view a k (some v) (set_code mem (view a k) a.total) (set_value mem a k v)
array_set_value_lem mem {a} k v (es, h) =
    subst (λ n. Results IsValid view a k (some v) (set_code mem (view a k) n) (set_value mem a k v))
      (sym h.total) (set_value_holds h k v mem)
