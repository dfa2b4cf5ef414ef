-- ===== src/Engines/Array/Removal.antt =====
-- src/engines/kvs_array.c: `del` moves the last slot into the place of the deleted one.
use kvstore.Common.{
  ◌-◌, ◌≤◌, ◌≡◌, ◌⊎◌, refl, sym, ap, subst, ◌∙◌, arith, Bytes, List, [], ◌∷◌, ◌++◌, length,
  length-append, append_assoc, append-nil, str_eq, false, Option, none, some, get_or, set, ◌==◌,
  ==_refl, if◌then◌else◌, inl, inr,
}
use kvstore.Engines.Base.{Ret, success, not_found}
use kvstore.Engines.Assoc.{
  Entry, lookup, occurs, update, IsUnique, Found, lookup_cases, lookup_removed, occurs_removed,
  lookup-append, occurs-append, lookup_swap,
}
use kvstore.Engines.Contract.{Wrote, Results}
use kvstore.Engines.Array.{KvArray, slots_of, del_at, del}
use kvstore.Engines.Array.Shape.{
  full, Holds, IsValid, scan_strict-none, scan_strict_some, store-some, full_parts, set_behind,
  get_or_behind, view, view_lem,
}

snoc_cases :
    (es : List Entry) → (es ≡ []) ⊎ ((mid : List Entry) × (l : Entry) × (es ≡ mid ++ l ∷ []))
snoc_cases [] = inl refl
snoc_cases (e ∷ es) = elim (snoc_cases es) [
  | inl h ↦ inr ([], e, ap (λ t. e ∷ t) h)
  | inr (mid, l, h) ↦ inr (e ∷ mid, l, ap (λ t. e ∷ t) h)
]

module _ (k old : Bytes) (front mid : List Entry) (l : Entry) where
  -- The moved entry stands first among those that were behind the deleted one.
  lookup_moved :
      (q : Bytes)
      → IsUnique (front ++ (k, old) ∷ (mid ++ l ∷ []))
      → lookup q (front ++ l ∷ mid)
        ≡ update (λ p. lookup p (front ++ (k, old) ∷ (mid ++ l ∷ []))) k none q
  lookup_moved q u =
      let rest : IsUnique (mid ++ l ∷ []) = λ p.
        unfold occurs in ground (arith, u p, occurs-append p front ((k, old) ∷ (mid ++ l ∷ []))) in
      lookup-append q front (l ∷ mid)
      ∙ rw (← lookup_swap q mid (l ∷ []) rest) (sym (lookup-append q front (mid ++ l ∷ [])))
      ∙ lookup_removed q k front old (mid ++ l ∷ []) u

  occurs_moved : (q : Bytes) → occurs q (front ++ l ∷ mid) ≡ occurs q (front ++ (mid ++ l ∷ []))
  unfolding occurs
  occurs_moved q = ground (
    arith,
    occurs-append q front (l ∷ mid),
    occurs-append q front (mid ++ l ∷ []),
    occurs-append q mid (l ∷ []),
  )

module _ {a : KvArray} {es : List Entry} (h : Holds a es) (k : Bytes) (f : Found k es) where
  del_last-Holds : f.back ≡ [] → Holds (del_at a (length f.front)) f.front
  unfolding del_at
  del_last-Holds e =
      let size = length-append f.front ((k, f.old) ∷ f.back) in
      let last : a.total - 1 ≡ length f.front =
        omega (arith, h.total, ap length f.parts, size, ap length e) in
      record {
        spare = none ∷ h.spare;
        table =
            rw (last, ==_refl (length f.front), store-some h k f none)
              (ap some (set_behind f.front none none (full f.back ++ h.spare))
                ∙ ap (λ b. some (full f.front ++ (none ∷ (full b ++ h.spare)))) e);
        total = last;
        size = omega (arith, h.size, ap length f.parts, size, ap length e);
        unique = λ q.
            unfold occurs in
            ground (
              arith,
              subst (λ l. occurs q l ≤ 1) f.parts (h.unique q),
              occurs-append q f.front ((k, f.old) ∷ f.back),
            );
      }

  module _ (mid : List Entry) (l : Entry) (e : f.back ≡ mid ++ l ∷ []) where
    all_but_last : es ≡ (f.front ++ (k, f.old) ∷ mid) ++ l ∷ []
    all_but_last =
        f.parts
        ∙ ap (λ b. f.front ++ (k, f.old) ∷ b) e
        ∙ sym (append_assoc f.front ((k, f.old) ∷ mid) (l ∷ []))

    last_slot : get_or (slots_of a) (length (f.front ++ (k, f.old) ∷ mid)) none ≡ some l
    last_slot =
        let pre = f.front ++ (k, f.old) ∷ mid in
        let table : a.table ≡ some (full pre ++ (some l ∷ h.spare)) =
          h.table
          ∙ ap some (ap (λ x. full x ++ h.spare) all_but_last ∙ full_parts l pre [] h.spare) in
        rw table (get_or_behind pre (some l) none h.spare)

    moved_table :
        set (full f.front ++ (none ∷ (full f.back ++ h.spare))) (length f.front) (some l)
        ≡ full (f.front ++ l ∷ mid) ++ (some l ∷ h.spare)
    moved_table =
        set_behind f.front none (some l) (full f.back ++ h.spare)
        ∙ ap (λ x. full f.front ++ (some l ∷ x))
            (ap (λ b. full b ++ h.spare) e ∙ full_parts l mid [] h.spare)
        ∙ sym (full_parts l f.front mid (some l ∷ h.spare))

    del_mid-Holds : Holds (del_at a (length f.front)) (f.front ++ l ∷ mid)
    unfolding del_at
    del_mid-Holds =
        let pre = f.front ++ (k, f.old) ∷ mid in
        let post = f.front ++ l ∷ mid in
        let size = length-append f.front ((k, f.old) ∷ mid) in
        let size' = length-append f.front (l ∷ mid) in
        let n = length-append pre (l ∷ []) in
        let last : a.total - 1 ≡ length pre = omega (arith, h.total, ap length all_but_last, n) in
        let same : length pre ≡ length post = omega (arith, size, size') in
        let apart : (length f.front == length pre) ≡ false = ground (arith, size) in
        record {
          spare = none ∷ h.spare;
          table =
              rw (last, apart, last_slot, store-some h k f none)
                (ap some (
                  ap (λ t. set t (length pre) none) moved_table
                  ∙ ap (λ i. set (full post ++ (some l ∷ h.spare)) i none) same
                  ∙ set_behind post (some l) none h.spare));
          total = last ∙ same;
          size = omega (arith, h.size, ap length all_but_last, n, same);
          unique = λ q. omega (
            arith,
            occurs_moved k f.old f.front mid l q,
            occurs_removed q k f.front f.old (mid ++ l ∷ []),
            subst (λ b. occurs q (f.front ++ (k, f.old) ∷ b) ≤ 1) e
                (subst (λ x. occurs q x ≤ 1) f.parts (h.unique q)),
          );
        }

  module _ (b : List Entry) (e : f.back ≡ b) where
    around : es ≡ f.front ++ (k, f.old) ∷ b
    around = f.parts ∙ ap (λ t. f.front ++ (k, f.old) ∷ t) e

    IsUnique-around : IsUnique (f.front ++ (k, f.old) ∷ b)
    IsUnique-around q = subst (λ x. occurs q x ≤ 1) around (h.unique q)

    read_around :
        (q : Bytes)
        → update (λ p. lookup p (f.front ++ (k, f.old) ∷ b)) k none q ≡ update (view a) k none q
    read_around q =
        ap (λ o. if str_eq k q then none else o) (sym (view_lem q h ∙ ap (λ x. lookup q x) around))

  -- Where the deleted entry stood makes no difference to the map.
  deleted : Wrote IsValid view a k none (del_at a (length f.front))
  deleted = elim (snoc_cases f.back) [
    | inl e ↦
        let holds = del_last-Holds e in
        record {
          valid = (_, holds);
          reads = λ q.
              view_lem q holds
              ∙ ap (λ x. lookup q x) (sym (append-nil f.front))
              ∙ lookup_removed q k f.front f.old [] (IsUnique-around [] e)
              ∙ read_around [] e q;
        }
    | inr (mid, l, e) ↦
        let holds = del_mid-Holds mid l e in
        record {
          valid = (_, holds);
          reads = λ q.
              view_lem q holds
              ∙ lookup_moved k f.old f.front mid l q (IsUnique-around (mid ++ l ∷ []) e)
              ∙ read_around (mid ++ l ∷ []) e q;
        }
  ]

-- The return code of `del`.
abbrev pub del_code : Option Bytes → Ret
del_code none = not_found
del_code (some old) = success

-- `del` does not fault on a valid array. It returns 1 and changes nothing if the key is not there,
-- and otherwise 0 with the key gone from the map, all other keys as they were and the array valid.
pub array_del_lem :
    {a : KvArray} (k : Bytes)
    → IsValid a
    → Results IsValid view a k none (del_code (view a k)) (del a k)
unfolding del
array_del_lem {a} k (es, h) = rw (view_lem k h) (elim (lookup_cases k es) [
  | inl gone ↦ rw (gone, scan_strict-none h k gone, del) ((a, not_found), refl, refl, refl)
  | inr f ↦
      rw (f.reads, scan_strict_some h k f, del)
        ((del_at a (length f.front), success), refl, refl, deleted h k f)
])
