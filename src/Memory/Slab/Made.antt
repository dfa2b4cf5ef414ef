-- ===== src/Memory/Slab/Made.antt =====
-- src/memory/kvs_allocator.c: a slab that slab_create made.
use kvstore.Common.{
  ℕ, zero, suc, ◌+◌, ◌-◌, ◌*◌, ◌/◌, ◌%◌, ◌≤◌, ◌<◌, ◌≡◌, refl, sym, ap, subst, arith, false, ◌&&◌,
  List, [], ◌∷◌, some, ltb, leb, if◌then◌else◌, length, length-replicate, get_or-replicate,
  some_same, Option-cases, inl, inr,
}
use native.Mathlib.Nat.{div-le_of_le-mul, div-mul-le_self, le-div_iff_mul-le}
use kvstore.Protocol.{size_max}
use kvstore.Memory.Region.{slab_size, System, region_memory_alloc, region_memory_alloc_lem}
use kvstore.Memory.Slab.{
  Slab, slab_head, free_block_size, alignment, max_block_size, bitmap_bytes, data_offset, free_loop,
  slab_at, slab_create,
}
use kvstore.Memory.Slab.Valid.{count, addresses, marked, live, IsSlab}

-- The numbers of the blocks that the loop puts on the list.
numbers_loop : ℕ → ℕ → List ℕ → List ℕ
numbers_loop zero i ns = ns
numbers_loop (suc n) i ns = numbers_loop n (i + 1) (i ∷ ns)

free_loop-addresses :
    (n i start size : ℕ) (ns : List ℕ)
    → free_loop n i start size (addresses start size ns)
      ≡ addresses start size (numbers_loop n i ns)
unfolding free_loop numbers_loop
free_loop-addresses zero i start size ns = refl
free_loop-addresses (suc n) i start size ns = free_loop-addresses n (i + 1) start size (i ∷ ns)

length-numbers_loop : (n i : ℕ) (ns : List ℕ) → length (numbers_loop n i ns) ≡ n + length ns
unfolding numbers_loop
length-numbers_loop zero i ns = omega arith
length-numbers_loop (suc n) i ns = omega (arith, length-numbers_loop n (i + 1) (i ∷ ns))

count-numbers_loop :
    (n i : ℕ) (ns : List ℕ) (j : ℕ)
    → count j (numbers_loop n i ns) ≡ count j ns + (if leb i j && ltb j (i + n) then 1 else 0)
unfolding numbers_loop
count-numbers_loop zero i ns j = ground arith
count-numbers_loop (suc n) i ns j = ground (arith, count-numbers_loop n (i + 1) (i ∷ ns) j)

-- The sizes that slab_create takes.
module _ (size : ℕ) (least : 0 < size) (most : size ≤ max_block_size)
    (even : size % alignment ≡ 0) where
  upper : (slab_size - slab_head) / size ≤ 4092
  upper = div-le_of_le-mul size (omega (arith, least, even))

  offset_aligned : data_offset size % alignment ≡ 0
  unfolding data_offset
  offset_aligned = omega arith

  offset-bounds : (slab_head + bitmap_bytes size ≤ data_offset size) × (data_offset size ≤ 1024)
  unfolding data_offset bitmap_bytes
  offset-bounds = ground (arith, upper)

  -- The bitmap has a bit for every block.
  fewer : (slab_size - data_offset size) / size ≤ (slab_size - slab_head) / size
  fewer =
      (le-div_iff_mul-le least).1
        (omega (arith, div-mul-le_self (slab_size - data_offset size) size, offset-bounds))

  enough_bits : (slab_size - data_offset size) / size ≤ 8 * bitmap_bytes size
  unfolding bitmap_bytes
  enough_bits = ground (arith, fewer)

  slab_at-IsSlab : (base : ℕ) → base % slab_size ≡ 0 → IsSlab (slab_at base size)
  unfolding slab_at
  slab_at-IsSlab base placed = record {
    numbers = numbers_loop ((slab_size - data_offset size) / size) 0 [];
    listed =
        free_loop-addresses ((slab_size - data_offset size) / size) 0 (base + data_offset size) size
          [];
    counted = λ j. ground (
      arith,
      count-numbers_loop ((slab_size - data_offset size) / size) 0 [] j,
      get_or-replicate (8 * bitmap_bytes size) j false,
    );
    tallied = omega (arith, length-numbers_loop ((slab_size - data_offset size) / size) 0 []);
    sized = least;
    roomy =
        subst (λ m. (slab_size - data_offset size) / size ≤ m)
          (sym (length-replicate (8 * bitmap_bytes size) false)) enough_bits;
    aligned = even;
    data_aligned = omega (arith, offset_aligned, placed);
    behind = omega (arith, offset-bounds);
    within = omega (arith, div-mul-le_self (slab_size - data_offset size) size, offset-bounds);
    placed = placed;
  }

  slab_at-dead : (base a : ℕ) → live (slab_at base size) a ≡ false
  unfolding slab_at live marked
  slab_at-dead base a = ground (
    arith,
    get_or-replicate (8 * bitmap_bytes size) ((a - (base + data_offset size)) / size) false,
  )

made :
    (sys : System) (size : ℕ) (s : Slab)
    → slab_create sys size ≡ some s
    → (free_block_size ≤ size)
      × (size % alignment ≡ 0)
      × (size ≤ max_block_size)
      × (0 < (slab_size - data_offset size) / size)
      × ((base : ℕ) × (region_memory_alloc sys slab_size ≡ some base) × (slab_at base size ≡ s))
unfolding slab_create
made sys size s h = elim (Option-cases (region_memory_alloc sys slab_size)) [
  | inl e ↦ absurd (ground (arith, e, h))
  | inr (base, e) ↦ (
    ground (arith, h),
    ground (arith, h),
    ground (arith, h),
    ground (arith, h),
    (base, e, some_same (ground (arith, e, h))),
  )
]

-- slab_create, where the mapping does not reach behind the last address: a slab that it returns lies in
-- the mapping, is valid, has at least one block, of the size asked for, and none of them is in use.
pub slab_create_lem :
    (sys : System) (size raw : ℕ) (s : Slab)
    → sys.mapping ≡ some raw
    → raw + (slab_size + slab_size) ≤ size_max
    → slab_create sys size ≡ some s
    → (raw ≤ s.base)
      × (s.base + slab_size ≤ raw + (slab_size + slab_size))
      × IsSlab s
      × (0 < s.capacity)
      × (s.block_size ≡ size)
      × (s.used_count ≡ 0)
      × ((a : ℕ) → live s a ≡ false)
unfolding slab_at
slab_create_lem sys size raw s m inside h =
    let (least, even, most, some_blocks, (base, e, same)) = made sys size s h in
    let (from, upto, placed) = region_memory_alloc_lem sys slab_size raw base m inside e in
    (
      subst (λ b. raw ≤ b) (ap Slab.base same) from,
      subst (λ b. b + slab_size ≤ raw + (slab_size + slab_size)) (ap Slab.base same) upto,
      subst IsSlab same (slab_at-IsSlab size (omega (arith, least)) most even base placed),
      subst (λ n. 0 < n) (ap Slab.capacity same) some_blocks,
      sym (ap Slab.block_size same),
      sym (ap Slab.used_count same),
      λ a.
          subst (λ t. live t a ≡ false) same
            (slab_at-dead size (omega (arith, least)) most even base a),
    )
