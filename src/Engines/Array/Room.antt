-- ===== src/Engines/Array/Room.antt =====
-- src/engines/kvs_array.c: how many more slots one `set` uses.
use kvstore.Common.{
  ◌+◌, ◌≤◌, ◌≡◌, refl, sym, ap, ◌∙◌, arith, Bool-cases, Option-cases, inl, inr, Bytes, get_or, none,
  some, some_same, none-some,
}
use kvstore.Engines.Base.{Ret, success, not_found, failure, no_memory, Mem}
use kvstore.Engines.Array.{
  KvArray, found, missing, fault, Scan, scan, slots_of, store, with_value, mod_value, insert,
  after_update, set_value,
}

insert-total : (mem : Mem) (a : KvArray) (k v : Bytes) → (insert mem a k v).0.total ≤ a.total + 1
unfolding insert
insert-total mem a k v = ground arith

mod_value-total :
    (mem : Mem) (a : KvArray) (k v : Bytes) (t : KvArray) (r : Ret)
    → mod_value mem a k v ≡ some (t, r)
    → t.total ≡ a.total
unfolding mod_value
mod_value-total mem a k v t r e = go (scan k 0 a.total (slots_of a)) refl
  where
    go : (s : Scan) → scan k 0 a.total (slots_of a) ≡ s → t.total ≡ a.total
    go (found i) f = elim (Bool-cases (mem 0)) [
      | inl m ↦
          let run : mod_value mem a k v
              ≡ some (
                record a { table = store a.table i (with_value v (get_or (slots_of a) i none)) },
                success,
              ) =
            rw (f, mod_value, m) refl in
          ap (λ p. p.0.total) (some_same (sym e ∙ run))
      | inr m ↦
          let run : mod_value mem a k v ≡ some (a, no_memory) = rw (f, mod_value, m) refl in
          ap (λ p. p.0.total) (some_same (sym e ∙ run))
    ]
    go missing f =
        let run : mod_value mem a k v ≡ some (a, not_found) = rw (f, mod_value) refl in
        ap (λ p. p.0.total) (some_same (sym e ∙ run))
    go fault f =
        let run : mod_value mem a k v ≡ none = rw (f, mod_value) refl in
        absurd (none-some (sym run ∙ e))

after-total :
    (mem : Mem) (a : KvArray) (k v : Bytes) (r : KvArray × Ret)
    → r.0.total ≡ a.total
    → (after_update mem k v r).0.total ≤ a.total + 1
unfolding after_update
after-total mem a k v (b, not_found) e = omega (arith, insert-total mem b k v, e)
after-total mem a k v (b, success) e = omega (arith, e)
after-total mem a k v (b, failure) e = omega (arith, e)
after-total mem a k v (b, no_memory) e = omega (arith, e)

pub set_value-total :
    (mem : Mem) (a : KvArray) (k v : Bytes) (t : KvArray) (r : Ret)
    → set_value mem a k v ≡ some (t, r)
    → t.total ≤ a.total + 1
unfolding set_value
set_value-total mem a k v t r e = elim (Option-cases a.table) [
  | inl none_there ↦
      let run : set_value mem a k v ≡ some (a, failure) = ground (arith, none_there) in
      omega (arith, ap (λ p. p.0.total) (some_same (sym e ∙ run)))
  | inr (table, there) ↦ elim (Option-cases (mod_value mem a k v)) [
    | inl f ↦
        let run : set_value mem a k v ≡ none = ground (arith, there, f) in
        absurd (none-some (sym run ∙ e))
    | inr ((b, ret), f) ↦
        let run : set_value mem a k v ≡ some (after_update mem k v (b, ret)) =
          ground (arith, there, f) in
        omega (
          arith,
          ap (λ p. p.0.total) (some_same (sym e ∙ run)),
          after-total mem a k v (b, ret) (mod_value-total mem a k v b ret f),
        )
  ]
]
