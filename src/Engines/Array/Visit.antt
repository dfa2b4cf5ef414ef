-- ===== src/Engines/Array/Visit.antt =====
-- src/engines/kvs_array.c: creation, destruction and iteration.
use kvstore.Common.{
  ◌≡◌, refl, arith, Bytes, List, [], ◌∷◌, ◌++◌, length, ap, Option-cases, none, some, Bool, true,
  false, Bool-cases, inl, inr,
}
use kvstore.Engines.Base.{Ret, success, failure, Mem}
use kvstore.Engines.Assoc.{Entry, lookup, occurs}
use kvstore.Engines.Array.{KvArray, Slot, array_size, slots_of, create, visit_slots, foreach}
use kvstore.Engines.Array.Shape.{Holds, IsValid, entries, entries-full, view, view_lem, full}

-- Visiting a list of entries in order, up to the first refusal.
unfoldable pub visit_all {ℓ} :
    {C : Type ℓ} → (Bytes → Bytes → C → C × Bool) → List Entry → C → C × Ret
visit_all visit [] c = (c, success)
visit_all visit ((k, v) ∷ es) c =
    let (c', more) = visit k v c in
    elim more [ true ↦ visit_all visit es c' | false ↦ (c', failure) ]

-- One step of it.
pub visit_more {ℓ} :
    {C : Type ℓ} (visit : Bytes → Bytes → C → C × Bool) (k v : Bytes) (es : List Entry) (c d : C)
    → visit k v c ≡ (d, true)
    → visit_all visit ((k, v) ∷ es) c ≡ visit_all visit es d
unfolding visit_all
visit_more visit k v es c d e = rw (ap (λ p. p.1) e, visit_all) (ap (λ p. visit_all visit es p.0) e)

pub visit_stop {ℓ} :
    {C : Type ℓ} (visit : Bytes → Bytes → C → C × Bool) (k v : Bytes) (es : List Entry) (c d : C)
    → visit k v c ≡ (d, false)
    → visit_all visit ((k, v) ∷ es) c ≡ (d, failure)
unfolding visit_all
visit_stop visit k v es c d e = rw (ap (λ p. p.1) e, visit_all) (ap (λ p. (p.0, failure)) e)

visit_slots-full {ℓ} :
    {C : Type ℓ} (visit : Bytes → Bytes → C → C × Bool) (es : List Entry) (spare : List Slot)
    (c : C)
    → visit_slots visit (length es) (full es ++ spare) c ≡ some (visit_all visit es c)
unfolding visit_slots visit_all
visit_slots-full visit [] spare c = refl
visit_slots-full visit ((k, v) ∷ es) spare c = elim (Bool-cases (visit k v c).1) [
  | inl e ↦ rw (e, visit_slots, visit_all) (visit_slots-full visit es spare (visit k v c).0)
  | inr e ↦ rw (e, visit_slots, visit_all)
]

-- `foreach` on a valid array does not fault: it visits the entries in use once each, in order, and
-- stops with -1 where the visitor refuses one.
pub array_foreach_lem {ℓ} :
    {C : Type ℓ} (visit : Bytes → Bytes → C → C × Bool) (a : KvArray) (c : C)
    → IsValid a
    → foreach visit a c ≡ some (visit_all visit (entries a.total (slots_of a)) c)
unfolding foreach
array_foreach_lem visit a c (es, h) =
    rw (h.table, h.total, entries-full es h.spare) (visit_slots-full visit es h.spare c)

-- What `create` leaves and returns.
abbrev pub Created : KvArray → KvArray × Ret → Type 0
Created a (a', success) = IsValid a' × ((q : Bytes) → view a' q ≡ none)
Created a (a', _) = a' ≡ a

empty_valid :
    (junk : List Slot) (a : KvArray)
    → length junk ≡ array_size
    → Created a (record a { table = some junk; total = 0 }, success)
unfolding occurs lookup
empty_valid junk a h =
    let holds : Holds (record a { table = some junk; total = 0 }) [] = record {
      spare = junk;
      table = refl;
      total = refl;
      size = omega (arith, h);
      unique = λ q. omega arith;
    } in
    (([], holds), λ q. view_lem q holds)

-- With new space of 1024 slots: where `create` returns 0 the array is valid and empty, whatever the
-- slots have for keys and values; with any other code nothing has changed.
pub array_create_lem :
    (mem : Mem) (junk : List Slot) (a : KvArray)
    → length junk ≡ array_size
    → Created a (create mem junk a)
unfolding create
array_create_lem mem junk a h = elim (Option-cases a.table) [
  | inr (t, e) ↦ rw (e, create) (ap (λ t. record a { table = t }) e)
  | inl e ↦
      rw (e, create)
        (elim (Bool-cases (mem 0)) [
          | inr f ↦ rw f (ap (λ t. record a { table = t }) e)
          | inl f ↦ rw f (empty_valid junk a h)
        ])
]
