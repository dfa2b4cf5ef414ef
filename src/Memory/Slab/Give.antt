-- ===== src/Memory/Slab/Give.antt =====
-- src/memory/kvs_allocator.c: slab_alloc_block against the blocks in use.
use kvstore.Common.{
  ℕ, ◌+◌, ◌≤◌, ◌<◌, ◌≡◌, ◌≢◌, refl, sym, ap, subst, ◌∙◌, arith, true, false, List, [], ◌∷◌, none,
  some, ◌==◌, length, get_or, set, length-set, get_or-set_self, get_or-set_ne, List-cases, ◌||◌,
  inl, inr,
}
use native.Mathlib.Decide.{ℕ_discrete}
use kvstore.Memory.Slab.{Slab, slab_alloc_block}
use kvstore.Memory.Slab.Valid.{
  vacant, marked-set, marked_at, count, block_at, addresses, live, IsSlab, block_at-number,
  count_self, count_other,
}

-- The slab without the first block of its free list.
abbrev given : Slab → ℕ → List ℕ → Slab
given s n ns = record s {
  free_list = addresses s.data_start s.block_size ns;
  bitmap = set s.bitmap n true;
  used_count = s.used_count + 1;
}

module _ (s : Slab) (n : ℕ) (ns : List ℕ) (v : IsSlab s) (e : v.numbers ≡ n ∷ ns) where
  once : 1 + count n ns ≡ vacant s.capacity s.bitmap n
  once = sym (count_self n ns) ∙ ap (count n) (sym e) ∙ v.counted n

  below : n < s.capacity
  below = ground (arith, once)

  clear : get_or s.bitmap n false ≡ false
  clear = ground (arith, once)

  now_set : get_or (set s.bitmap n true) n false ≡ true
  now_set = get_or-set_self s.bitmap n true false (omega (arith, below, v.roomy))

  counted_given : (i : ℕ) → count i ns ≡ vacant s.capacity (set s.bitmap n true) i
  counted_given i = elim (ℕ_discrete n i) [
    | yes same ↦
        subst (λ j. count j ns ≡ vacant s.capacity (set s.bitmap n true) j) same
          (ground (arith, once, now_set))
    | no other ↦ ground (
      arith,
      sym (count_other i n ns (λ f. other (sym f))) ∙ ap (count i) (sym e) ∙ v.counted i,
      get_or-set_ne s.bitmap n i true false other,
    )
  ]

  given-IsSlab : IsSlab (given s n ns)
  given-IsSlab = record {
    numbers = ns;
    listed = refl;
    counted = counted_given;
    tallied = omega (arith, v.tallied, ap length e);
    sized = v.sized;
    roomy = subst (λ m. s.capacity ≤ m) (sym (length-set s.bitmap n true)) v.roomy;
    aligned = v.aligned;
    data_aligned = v.data_aligned;
    behind = v.behind;
    within = v.within;
    placed = v.placed;
  }

  abbrev block : ℕ
  block = block_at s.data_start s.block_size n

  was_dead : live s block ≡ false
  unfolding live
  was_dead = marked_at s.data_start s.block_size s.capacity n s.bitmap v.sized below ∙ clear

  now_live : live (given s n ns) block ≡ true
  unfolding live
  now_live =
      marked_at s.data_start s.block_size s.capacity n (set s.bitmap n true) v.sized below ∙ now_set

  others : (a : ℕ) → a ≢ block → live (given s n ns) a ≡ live s a
  unfolding live
  others a h = marked-set s.data_start s.block_size s.capacity n s.bitmap true a h

-- What a call does: a full slab gives nothing; otherwise the block given was not in use, and is the
-- only one whose use changes.
pub data Gives (s : Slab) : Type 0 where
  full : slab_alloc_block s ≡ none → s.used_count ≡ s.capacity → Gives s
  gives :
      (t : Slab) (block : ℕ)
      → slab_alloc_block s ≡ some (t, block)
      → (t.base ≡ s.base) × (t.block_size ≡ s.block_size)
      → IsSlab t
      → live s block ≡ false
      → ((a : ℕ) → live t a ≡ ((a == block) || live s a))
      → Gives s

-- The effect of one bit on all addresses.
module _ (s : Slab) (n : ℕ) (ns : List ℕ) (v : IsSlab s) (e : v.numbers ≡ n ∷ ns) where
  change :
      (a : ℕ) → live (given s n ns) a ≡ ((a == block_at s.data_start s.block_size n) || live s a)
  change a = elim (ℕ_discrete a (block_at s.data_start s.block_size n)) [
    | yes same ↦ ground (arith, now_live s n ns v e, same)
    | no other ↦ ground (arith, others s n ns v e a other)
  ]

  run : slab_alloc_block s ≡ some (given s n ns, block_at s.data_start s.block_size n)
  unfolding slab_alloc_block
  run =
      rw
        (
          v.listed ∙ ap (addresses s.data_start s.block_size) e,
          slab_alloc_block,
          block_at-number s.data_start s.block_size n v.sized,
        )
        refl

none_left : (s : Slab) (v : IsSlab s) → v.numbers ≡ [] → slab_alloc_block s ≡ none
unfolding slab_alloc_block
none_left s v e = rw (v.listed ∙ ap (addresses s.data_start s.block_size) e, slab_alloc_block) refl

-- slab_alloc_block on a valid slab: it gives nothing exactly if all blocks are in use; otherwise a block
-- that was not in use, and in the valid slab that is left this block and those before are in use.
pub slab_alloc_block_lem : (s : Slab) → IsSlab s → Gives s
slab_alloc_block_lem s v = elim (List-cases v.numbers) [
  | inl e ↦ full (none_left s v e) (omega (arith, v.tallied, ap length e))
  | inr (n, ns, e) ↦
      gives (given s n ns) (block_at s.data_start s.block_size n) (run s n ns v e) (refl, refl)
        (given-IsSlab s n ns v e) (was_dead s n ns v e) (change s n ns v e)
]
