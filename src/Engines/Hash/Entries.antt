-- ===== src/Engines/Hash/Entries.antt =====
-- src/engines/kvs_hash.c: the nodes of all chains as one association list.
use kvstore.Common.{
  ℕ, zero, suc, ◌≡◌, ◌≢◌, refl, sym, ◌∙◌, arith, Bytes, List, [], ◌∷◌, get_or, some, Option-cases,
  inl, inr, some_same, none-some,
}
use kvstore.Engines.Assoc.{lookup, occurs, IsUnique, lookup-append, occurs-append, lookup_absent}
use kvstore.Engines.Hash.{KvHash, Chain, hash_index}
use kvstore.Engines.Hash.Table.{Holds, view, view_lem, view-none}
use kvstore.Engines.Hash.Visit.{table_entries}

-- A key that no chain has.
nowhere :
    (q : Bytes) (t : List Chain)
    → ((j : ℕ) → occurs q (get_or t j []) ≡ 0)
    → occurs q (table_entries t) ≡ 0
unfolding table_entries occurs
nowhere q [] h = refl
nowhere q (c ∷ t) h =
    omega (arith, occurs-append q c (table_entries t), h 0, nowhere q t (λ j. h (suc j)))

-- A key that only chain `i` can have.
only_in :
    (q : Bytes) (t : List Chain) (i : ℕ)
    → ((j : ℕ) → j ≢ i → occurs q (get_or t j []) ≡ 0)
    → (occurs q (table_entries t) ≡ occurs q (get_or t i []))
      × (lookup q (table_entries t) ≡ lookup q (get_or t i []))
unfolding table_entries
only_in q [] i h = (refl, refl)
only_in q (c ∷ t) zero h =
    let gone = nowhere q t (λ j. h (suc j) (λ e. omega (arith, e))) in
    (
      omega (arith, occurs-append q c (table_entries t), gone),
      ground (arith, lookup-append q c (table_entries t), lookup_absent q (table_entries t) gone),
    )
only_in q (c ∷ t) (suc i) h =
    let gone = h 0 (λ e. omega (arith, e)) in
    let rest = only_in q t i (λ j ne. h (suc j) (λ e. ne (omega (arith, e)))) in
    (
      omega (arith, occurs-append q c (table_entries t), gone, rest.0),
      ground (arith, lookup-append q c (table_entries t), lookup_absent q c gone, rest.1),
    )

module _ {h : KvHash} {t : List Chain} (v : Holds h t) where
  placed_only :
      (q : Bytes) (i : ℕ) → hash_index q ≡ some i → (j : ℕ) → j ≢ i → occurs q (get_or t j []) ≡ 0
  placed_only q i e j ne = v.placed q j (λ f. ne (some_same (sym f ∙ e)))

  -- The list reads as the table, and has no key twice.
  pub lookup-table_entries : (q : Bytes) → lookup q (table_entries t) ≡ view h q
  lookup-table_entries q = elim (Option-cases (hash_index q)) [
    | inl e ↦
        lookup_absent q (table_entries t)
          (nowhere q t (λ j. v.placed q j (λ f. none-some (sym e ∙ f))))
        ∙ sym (view-none h q e)
    | inr (i, e) ↦ (only_in q t i (placed_only q i e)).1 ∙ sym (view_lem q v e)
  ]

  pub table_entries-IsUnique : IsUnique (table_entries t)
  table_entries-IsUnique q = elim (Option-cases (hash_index q)) [
    | inl e ↦ omega (arith, nowhere q t (λ j. v.placed q j (λ f. none-some (sym e ∙ f))))
    | inr (i, e) ↦ omega (arith, (only_in q t i (placed_only q i e)).0, v.unique i q)
  ]
