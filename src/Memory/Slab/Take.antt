-- ===== src/Memory/Slab/Take.antt =====
-- src/memory/kvs_allocator.c: pool_free_small against the blocks in use.
use kvstore.Common.{
  ℕ, zero, suc, ◌+◌, ◌-◌, ◌/◌, ◌≤◌, ◌<◌, ◌≡◌, refl, sym, ap, subst, ◌∙◌, arith, true, false, not,
  ◌&&◌, List, [], ◌∷◌, none, some, ltb, ◌==◌, if◌then◌else◌, length, get_or, set, length-set,
  get_or-set_self, get_or-set_ne, Bool-cases, inl, inr,
}
use native.Mathlib.Decide.{ℕ_discrete}
use kvstore.Memory.Slab.{Slab, pool_free_small}
use kvstore.Memory.Slab.Valid.{
  vacant, marked, marked-set, marked_at, count, block_at, addresses, live, IsSlab, block_at_back,
  count_self, count_other,
}

-- How many entries of a list are below a bound.
tally : ℕ → List ℕ → ℕ
tally zero xs = 0
tally (suc m) xs = count m xs + tally m xs

tally-nil : (m : ℕ) → tally m [] ≡ 0
unfolding tally
tally-nil zero = refl
tally-nil (suc m) = omega (arith, tally-nil m)

tally-cons : (m x : ℕ) (xs : List ℕ) → tally m (x ∷ xs) ≡ (if ltb x m then 1 else 0) + tally m xs
unfolding tally
tally-cons zero x xs = ground arith
tally-cons (suc m) x xs = ground (arith, tally-cons m x xs)

tally-length : (m : ℕ) (xs : List ℕ) → ((i : ℕ) → m ≤ i → count i xs ≡ 0) → tally m xs ≡ length xs
tally-length m [] h = tally-nil m
tally-length m (x ∷ xs) h = ground (
  arith,
  tally-cons m x xs,
  tally-length m xs (λ i below. omega (arith, h i below)),
  h x,
  count_self x xs,
)

tally_le : (m : ℕ) (xs : List ℕ) → ((i : ℕ) → count i xs ≤ 1) → tally m xs ≤ m
unfolding tally
tally_le zero xs h = omega arith
tally_le (suc m) xs h = omega (arith, h m, tally_le m xs h)

tally_lt :
    (m n : ℕ) (xs : List ℕ) → ((i : ℕ) → count i xs ≤ 1) → n < m → count n xs ≡ 0 → tally m xs < m
unfolding tally
tally_lt zero n xs h below e = absurd (omega arith)
tally_lt (suc m) n xs h below e = elim (ℕ_discrete m n) [
  | yes same ↦ omega (arith, subst (λ j. count j xs ≡ 0) (sym same) e, tally_le m xs h)
  | no other ↦ omega (arith, h m, tally_lt m n xs h (ground arith) e)
]

-- The slab with a block back.
abbrev taken : Slab → ℕ → ℕ → Slab
taken s a n = record s {
  bitmap = set s.bitmap n false;
  free_list = a ∷ s.free_list;
  used_count = s.used_count - 1;
}

-- What a call does: it refuses an address that is not that of a block in use; otherwise this block is no
-- longer in use, and the others as before.
pub data Frees (s : Slab) (a : ℕ) : Type 0 where
  refuses : live s a ≡ false → pool_free_small s a ≡ none → Frees s a
  frees :
      (t : Slab)
      → live s a ≡ true
      → pool_free_small s a ≡ some t
      → (t.base ≡ s.base) × (t.block_size ≡ s.block_size)
      → IsSlab t
      → ((b : ℕ) → live t b ≡ (not (b == a) && live s b))
      → Frees s a

refuse : (s : Slab) (a : ℕ) → live s a ≡ false → pool_free_small s a ≡ none
unfolding pool_free_small live marked
refuse s a h = ground (arith, h)

module _ (s : Slab) (a : ℕ) (v : IsSlab s) (h : live s a ≡ true) where
  abbrev n : ℕ
  n = (a - s.data_start) / s.block_size

  at : block_at s.data_start s.block_size n ≡ a
  unfolding live marked
  at = block_at_back s.data_start s.block_size a (ground (arith, h)) (ground (arith, h))

  below : n < s.capacity
  unfolding live marked
  below = ground (arith, h)

  held : get_or s.bitmap n false ≡ true
  unfolding live marked
  held = ground (arith, h)

  absent : count n v.numbers ≡ 0
  absent = ground (arith, v.counted n, held)

  used : 0 < s.used_count
  used = omega (
    arith,
    v.tallied,
    tally-length s.capacity v.numbers (λ i out. ground (arith, v.counted i)),
    tally_lt s.capacity n v.numbers (λ i. ground (arith, v.counted i)) below absent,
  )

  cleared : get_or (set s.bitmap n false) n false ≡ false
  cleared = get_or-set_self s.bitmap n false false (omega (arith, below, v.roomy))

  counted_taken : (i : ℕ) → count i (n ∷ v.numbers) ≡ vacant s.capacity (set s.bitmap n false) i
  counted_taken i = elim (ℕ_discrete n i) [
    | yes same ↦
        subst (λ j. count j (n ∷ v.numbers) ≡ vacant s.capacity (set s.bitmap n false) j) same
          (ground (arith, count_self n v.numbers, absent, cleared, below))
    | no other ↦ ground (
      arith,
      count_other i n v.numbers (λ f. other (sym f)) ∙ v.counted i,
      get_or-set_ne s.bitmap n i false false other,
    )
  ]

  taken-IsSlab : IsSlab (taken s a n)
  taken-IsSlab = record {
    numbers = n ∷ v.numbers;
    listed =
        ap (λ x. a ∷ x) v.listed
        ∙ ap (λ x. x ∷ addresses s.data_start s.block_size v.numbers) (sym at);
    counted = counted_taken;
    tallied = omega (arith, v.tallied, used);
    sized = v.sized;
    roomy = subst (λ m. s.capacity ≤ m) (sym (length-set s.bitmap n false)) v.roomy;
    aligned = v.aligned;
    data_aligned = v.data_aligned;
    behind = v.behind;
    within = v.within;
    placed = v.placed;
  }

  gone : live (taken s a n) a ≡ false
  unfolding live
  gone =
      subst (λ b. live (taken s a n) b ≡ false) at
        (marked_at s.data_start s.block_size s.capacity n (set s.bitmap n false) v.sized below
          ∙ cleared)

  change : (b : ℕ) → live (taken s a n) b ≡ (not (b == a) && live s b)
  unfolding live
  change b = elim (ℕ_discrete b a) [
    | yes same ↦ ground (arith, gone, same)
    | no other ↦ ground (
      arith,
      marked-set s.data_start s.block_size s.capacity n s.bitmap false b (λ e. other (e ∙ at)),
    )
  ]

  run : pool_free_small s a ≡ some (taken s a n)
  unfolding pool_free_small live marked
  run = ground (arith, h, used)

-- pool_free_small on a valid slab: it refuses exactly the addresses that are not those of blocks in use,
-- blocks already given back among them; otherwise this block alone is no longer in use, and the slab is
-- valid.
pub pool_free_small_lem : (s : Slab) (a : ℕ) → IsSlab s → Frees s a
pool_free_small_lem s a v = elim (Bool-cases (live s a)) [
  | inl h ↦
      frees (taken s a (n s a v h)) h (run s a v h) (refl, refl) (taken-IsSlab s a v h)
        (change s a v h)
  | inr h ↦ refuses h (refuse s a h)
]
