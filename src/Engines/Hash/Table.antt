-- ===== src/Engines/Hash/Table.antt =====
-- src/engines/kvs_hash.c: where a key stands, and what one changed chain does to the table.
use kvstore.Common.{
  ℕ, zero, suc, ◌+◌, ◌≤◌, ◌<◌, ◌≡◌, ◌≢◌, refl, sym, ap, ◌∙◌, arith, Bytes, List, [], ◌∷◌, length,
  length-set, get_or, get_or-set_self, get_or-set_ne, set, false, Option, none, some, Option-cases,
  Bool-cases, inl, inr, str_eq, str_eq_iff, if◌then◌else◌,
}
use kvstore.Common.Int.{ℤ, pos, negsuc}
use native.Mathlib.Decide.{ℕ_discrete}
use kvstore.Engines.Assoc.{lookup, occurs, update, IsUnique}
use kvstore.Engines.Contract.{Wrote}
use kvstore.Engines.Hash.{
  KvHash, Chain, max_table_size, sum_loop, index_of_sum, hash_index, at, locate, store,
}

-- The entries of all chains.
unfoldable pub total_length : List Chain → ℕ
total_length [] = 0
total_length (c ∷ t) = length c + total_length t

-- The table `t` is allocated with 1024 chains; a key stands once at most, and in its own chain; the
-- counter is the number of nodes.
pub record Holds (h : KvHash) (t : List Chain) : Type 0 where
  pub nodes : h.nodes ≡ some t
  pub width : length t ≡ max_table_size
  pub slots : h.max_slots ≡ max_table_size
  pub unique : (i : ℕ) → IsUnique (get_or t i [])
  pub placed : (q : Bytes) (i : ℕ) → hash_index q ≢ some i → occurs q (get_or t i []) ≡ 0
  pub counted : h.count ≡ total_length t

abbrev pub IsValid : KvHash → Type 0
IsValid h = (t : List Chain) × Holds h t

-- The keys that the table can take: those whose index is not negative.
abbrev pub IsKey : Bytes → Type 0
IsKey key = (i : ℕ) × (hash_index key ≡ some i)

index_of_sum-lt : (s : ℤ) {i : ℕ} → index_of_sum s ≡ some i → i < max_table_size
unfolding index_of_sum
index_of_sum-lt (pos n) h = ground arith
index_of_sum-lt (negsuc n) h = ground arith

hash_index-lt : (key : Bytes) {i : ℕ} → hash_index key ≡ some i → i < max_table_size
unfolding hash_index
hash_index-lt key h = index_of_sum-lt (sum_loop (pos 0) key) h

at-get_or : (t : List Chain) (i : ℕ) → i < length t → at t i ≡ some (get_or t i [])
unfolding at
at-get_or [] i h = absurd (omega arith)
at-get_or (c ∷ t) zero h = refl
at-get_or (c ∷ t) (suc i) h = at-get_or t i (omega arith)

pub locate_lem :
    {h : KvHash} {t : List Chain} (key : Bytes) {i : ℕ}
    → Holds h t
    → hash_index key ≡ some i
    → locate h key ≡ some (i, get_or t i [])
unfolding locate
locate_lem {h} {t} key {i} v e =
    ground (arith, e, v.nodes, at-get_or t i (omega (arith, v.width, hash_index-lt key e)))

-- The map that the table stands for.
pub view : KvHash → Bytes → Option Bytes
view h q = elim (locate h q) [ none ↦ none | some p ↦ lookup q p.1 ]

pub view_lem :
    {h : KvHash} {t : List Chain} (q : Bytes) {i : ℕ}
    → Holds h t
    → hash_index q ≡ some i
    → view h q ≡ lookup q (get_or t i [])
unfolding view
view_lem q v e = rw (locate_lem q v e, view)

pub view-none : (h : KvHash) (q : Bytes) → hash_index q ≡ none → view h q ≡ none
unfolding view locate
view-none h q e = rw (absent, view)
  where
    absent : locate h q ≡ none
    absent = rw (e, locate)

pub length-get_or-le : (t : List Chain) (i : ℕ) → length (get_or t i []) ≤ total_length t
unfolding total_length
length-get_or-le [] i = omega arith
length-get_or-le (c ∷ t) zero = omega arith
length-get_or-le (c ∷ t) (suc i) = omega (arith, length-get_or-le t i)

total_length-set :
    (t : List Chain) (i : ℕ) (c : Chain)
    → i < length t
    → total_length (set t i c) + length (get_or t i []) ≡ total_length t + length c
unfolding total_length
total_length-set [] i c h = absurd (omega arith)
total_length-set (d ∷ t) zero c h = omega arith
total_length-set (d ∷ t) (suc i) c h = omega (arith, total_length-set t i c (omega arith))

-- A chain that takes the place of the chain of `k`: it differs at `k` alone.
pub record Replaces (k : Bytes) (o : Option Bytes) (old c : Chain) : Type 0 where
  pub reads : (q : Bytes) → lookup q c ≡ update (λ p. lookup p old) k o q
  pub unique : IsUnique c
  pub no_more : (q : Bytes) → str_eq k q ≡ false → occurs q c ≤ occurs q old

module _ {h : KvHash} {t : List Chain} (v : Holds h t) (k : Bytes) {i : ℕ}
    (e : hash_index k ≡ some i) where
  in_table : i < length t
  in_table = omega (arith, v.width, hash_index-lt k e)

  module _ (o : Option Bytes) (c : Chain) (n : ℕ) (r : Replaces k o (get_or t i []) c)
      (size : n + length (get_or t i []) ≡ total_length t + length c) where
    stored_at : (j : ℕ) → i ≢ j → get_or (set t i c) j [] ≡ get_or t j []
    stored_at j ne = get_or-set_ne t i j c [] ne

    stored-Holds : Holds (record h { nodes = store h i c; count = n }) (set t i c)
    stored-Holds = record {
      nodes = rw v.nodes;
      width = length-set t i c ∙ v.width;
      slots = v.slots;
      unique = λ j q. elim (ℕ_discrete i j) [
        | yes p ↦ rw (← p, get_or-set_self t i c [] in_table) (r.unique q)
        | no p ↦ rw (stored_at j p) (v.unique j q)
      ];
      placed = λ q j ne. elim (ℕ_discrete i j) [
        | yes p ↦
            rw (← p, get_or-set_self t i c [] in_table)
              (elim (Bool-cases (str_eq k q)) [
                | inl same ↦
                    absurd (ne (ap hash_index (sym ((str_eq_iff k q).0 same)) ∙ e ∙ ap some p))
                | inr other ↦
                    omega (arith, r.no_more q other, v.placed q i (λ u. ne (u ∙ ap some p)))
              ])
        | no p ↦ rw (stored_at j p) (v.placed q j ne)
      ];
      counted = omega (arith, total_length-set t i c in_table);
    }

    stored_reads :
        (q : Bytes) → view (record h { nodes = store h i c; count = n }) q ≡ update (view h) k o q
    stored_reads q = elim (Option-cases (hash_index q)) [
      | inl none_q ↦
          let other : str_eq k q ≡ false = other_index (λ p. cc (e, none_q, p)) in
          view-none _ q none_q ∙ rw other (sym (view-none h q none_q))
      | inr (j, some_q) ↦ view_lem q stored-Holds some_q ∙ elim (ℕ_discrete i j) [
        | yes p ↦
            ap (λ m. lookup q (get_or (set t i c) m [])) (sym p)
            ∙ ap (λ x. lookup q x) (get_or-set_self t i c [] in_table)
            ∙ r.reads q
            ∙ ap (λ x. if str_eq k q then o else x) (sym (view_lem q v (some_q ∙ ap some (sym p))))
        | no p ↦
            let other : str_eq k q ≡ false = other_index (λ u. p (cc (e, u, some_q))) in
            rw (stored_at j p, other) (sym (view_lem q v some_q))
      ]
    ]
      where
        other_index : (hash_index k ≡ hash_index q → ⊥) → str_eq k q ≡ false
        other_index apart = elim (Bool-cases (str_eq k q)) [
          | inl same ↦ absurd (apart (ap hash_index ((str_eq_iff k q).0 same)))
          | inr other ↦ other
        ]

    -- The table with that chain is valid, and its map differs at the key alone.
    pub stored : Wrote IsValid view h k o (record h { nodes = store h i c; count = n })
    stored = record { valid = (_, stored-Holds); reads = stored_reads }
