-- ===== src/Memory/Examples.antt =====
-- src/memory/kvs_allocator.c: requests to an allocator with the pools.
use kvstore.Common.{All, ℕ, ◌+◌, ◌-◌, ◌*◌, ◌≡◌, refl, arith, true, false, List, [], ◌∷◌, none, some}
use kvstore.Memory.Region.{slab_size, System, region_start, cut_mapping, region_memory_alloc}
use kvstore.Memory.Slab.{
  bitmap_bytes, data_offset, free_loop, slab_at, slab_create, slab_alloc_block, pool_free_small,
}
use kvstore.Memory.Pool.{
  pool, SizeClass, Allocator, class_sizes, empty_pools, take_free, class_alloc, alloc_in_pools,
  pool_alloc_small, pool_alloc_large, absent, refused, released, release_small, release_slab,
}
use kvstore.Memory.Pool.Calls.{
  kvs_allocator_alloc, kvs_allocator_free, kvs_allocator_destroy, kvs_allocator_pool_stats,
  add_slabs, add_classes, add_larges,
}
use kvstore.Memory.Pool.Class.{has_base, AreSlabs, IsOutside}
use kvstore.Memory.Pool.Held.{
  Runs, starts, allocates_one, releases_one, without, Owns, AreApart, Runs-AreApart,
}
use kvstore.Memory.Pool.Pools.{
  pools_base, ArePools, IsClear, Allots, alloc_in_pools_lem, alloc_in_pools-ArePools,
}
use kvstore.Memory.Pool.Returns.{Returns, release_small_lem}
use kvstore.Memory.Pool.LargeRegion.{IsPlaced, pool_alloc_large_lem}
use kvstore.Memory.Pool.RoundTrip.{extent, IsPooled, IsSame, kvs_allocator_alloc-kvs_allocator_free}
use kvstore.Memory.Pool.Destroyed.{kvs_allocator_destroy-pool_stats}

-- A mapping that begins one page behind a multiple of the slab size.
abbrev raw : ℕ
raw = 10 * slab_size + 4096

abbrev sys : System
sys = record { page_size = 4096; mapping = some raw; cut_front = true; cut_back = true }

abbrev at_start : Allocator
at_start = record {
  allocator_initialized = true;
  allocator_backend = pool;
  pools = empty_pools class_sizes;
  large_regions = [];
}

no_bases : (sizes : List ℕ) (b : ℕ) → pools_base b (empty_pools sizes) ≡ false
unfolding pools_base empty_pools has_base
no_bases [] b = refl
no_bases (size ∷ sizes) b = no_bases sizes b

empty_pools-ArePools : (sizes : List ℕ) → ArePools (empty_pools sizes)
unfolding ArePools empty_pools AreSlabs has_base
empty_pools-ArePools [] = tt
empty_pools-ArePools (size ∷ sizes) = (tt, (λ b. refl), empty_pools-ArePools sizes)

empty_pools-IsClear : (sizes : List ℕ) (from bytes : ℕ) → IsClear from bytes (empty_pools sizes)
unfolding IsClear empty_pools IsOutside
empty_pools-IsClear [] from bytes = tt
empty_pools-IsClear (size ∷ sizes) from bytes = (tt, empty_pools-IsClear sizes from bytes)

at_start-IsPooled : IsPooled at_start
at_start-IsPooled = record { on = refl; backend = refl; sound = empty_pools-ArePools class_sizes }

-- The first block of the pool for 3000 bytes.
abbrev first_block : ℕ
first_block = 11 * slab_size + 64 + 16 + 20 * 3072

abbrev with_block : List SizeClass
with_block = elim (alloc_in_pools sys (empty_pools class_sizes) 3000) [
  | none ↦ []
  | some (pools, block) ↦ pools
]

block_given : alloc_in_pools sys (empty_pools class_sizes) 3000 ≡ some (with_block, first_block)
unfolding alloc_in_pools empty_pools class_alloc take_free slab_create region_memory_alloc
    cut_mapping region_start slab_at data_offset bitmap_bytes free_loop slab_alloc_block
block_given = refl

with_block-ArePools : ArePools with_block
with_block-ArePools =
    alloc_in_pools-ArePools sys 3000 raw refl (omega arith) (empty_pools class_sizes) with_block
      first_block (empty_pools-ArePools class_sizes)
      (empty_pools-IsClear class_sizes raw (slab_size + slab_size)) block_given

alloc_in_pools_lem_example : Allots sys (empty_pools class_sizes) 3000 raw
alloc_in_pools_lem_example =
    alloc_in_pools_lem sys 3000 raw refl (omega arith) (empty_pools class_sizes)
      (empty_pools-ArePools class_sizes)
      (empty_pools-IsClear class_sizes raw (slab_size + slab_size))

release_small_lem_example : Returns with_block first_block
release_small_lem_example = release_small_lem with_block first_block with_block-ArePools

-- The system's next mapping, for another block beside the first.
abbrev sys2 : System
sys2 = record sys { mapping = some (20 * slab_size) }

with_block-IsClear : IsClear (20 * slab_size) (slab_size + slab_size) with_block
unfolding IsClear IsOutside alloc_in_pools empty_pools class_alloc take_free slab_create
    region_memory_alloc cut_mapping region_start slab_at data_offset bitmap_bytes free_loop
    slab_alloc_block
with_block-IsClear = ground arith

abbrev second_block : ℕ
second_block = first_block - 3072

abbrev with_two : List SizeClass
with_two = elim (alloc_in_pools sys2 with_block 2500) [ none ↦ [] | some (pools, block) ↦ pools ]

second_given : alloc_in_pools sys2 with_block 2500 ≡ some (with_two, second_block)
unfolding alloc_in_pools empty_pools class_alloc take_free slab_create region_memory_alloc
    cut_mapping region_start slab_at data_offset bitmap_bytes free_loop slab_alloc_block
second_given = refl

-- The first block is given back.
abbrev with_second : List SizeClass
with_second = elim (release_small with_two first_block) [
  | absent ↦ []
  | refused ↦ []
  | released pools ↦ pools
]

first_released : release_small with_two first_block ≡ released with_second
unfolding release_small release_slab pool_free_small alloc_in_pools empty_pools class_alloc
    take_free slab_create region_memory_alloc cut_mapping region_start slab_at data_offset
    bitmap_bytes free_loop slab_alloc_block
first_released = refl

two_held : Runs with_two ((second_block, 2500) ∷ (first_block, 3000) ∷ [])
two_held =
    allocates_one sys2 (20 * slab_size) 2500 second_block with_block with_two
      ((first_block, 3000) ∷ [])
      (allocates_one sys raw 3000 first_block (empty_pools class_sizes) with_block []
        (starts class_sizes) refl (omega arith)
        (empty_pools-IsClear class_sizes raw (slab_size + slab_size)) block_given)
      refl (omega arith) with_block-IsClear second_given

with_second-IsClear : IsClear (20 * slab_size) (slab_size + slab_size) with_second
unfolding IsClear IsOutside release_small release_slab pool_free_small alloc_in_pools empty_pools
    class_alloc take_free slab_create region_memory_alloc cut_mapping region_start slab_at
    data_offset bitmap_bytes free_loop slab_alloc_block
with_second-IsClear = ground arith

-- It is given again.
abbrev with_both : List SizeClass
with_both = elim (alloc_in_pools sys2 with_second 3072) [ none ↦ [] | some (pools, block) ↦ pools ]

given_again : alloc_in_pools sys2 with_second 3072 ≡ some (with_both, first_block)
unfolding release_small release_slab pool_free_small alloc_in_pools empty_pools class_alloc
    take_free slab_create region_memory_alloc cut_mapping region_start slab_at data_offset
    bitmap_bytes free_loop slab_alloc_block
given_again = refl

abbrev left_held : List (ℕ × ℕ)
left_held = without first_block ((second_block, 2500) ∷ (first_block, 3000) ∷ [])

Runs-AreApart_example :
    All (Owns with_both) ((first_block, 3072) ∷ left_held)
    × AreApart ((first_block, 3072) ∷ left_held)
Runs-AreApart_example = Runs-AreApart (
    allocates_one sys2 (20 * slab_size) 3072 first_block with_second with_both left_held
      (releases_one first_block with_two with_second
        ((second_block, 2500) ∷ (first_block, 3000) ∷ []) two_held first_released)
      refl (omega arith) with_second-IsClear given_again)

-- A request for 5000 bytes.
abbrev with_large : Allocator
with_large = record at_start {
  large_regions = record { start = 11 * slab_size; mapping_size = 8192 } ∷ [];
}

large_given : pool_alloc_large sys at_start 5000 ≡ some (with_large, 11 * slab_size + 32)
unfolding pool_alloc_large region_memory_alloc cut_mapping region_start
large_given = refl

pool_alloc_large_lem_example : IsPlaced raw 5000 at_start with_large (11 * slab_size + 32)
pool_alloc_large_lem_example =
    pool_alloc_large_lem sys at_start with_large 5000 raw (11 * slab_size + 32) refl (omega arith)
      large_given

large_call : kvs_allocator_alloc sys none at_start 5000 ≡ (with_large, some (11 * slab_size + 32))
unfolding kvs_allocator_alloc
large_call = rw large_given refl

-- A request for 3000 bytes.
small_call :
    kvs_allocator_alloc sys none at_start 3000
    ≡ (record at_start { pools = with_block }, some first_block)
unfolding kvs_allocator_alloc pool_alloc_small
small_call = rw block_given refl

kvs_allocator_alloc-kvs_allocator_free_example :
    (t : Allocator) × (kvs_allocator_free
        (λ b. true)
        (record at_start { pools = with_block })
        (some first_block)
      ≡ some t)
    × IsSame at_start t
kvs_allocator_alloc-kvs_allocator_free_example =
    kvs_allocator_alloc-kvs_allocator_free sys none at_start
      (record at_start { pools = with_block }) 3000 first_block raw (λ b. true) at_start-IsPooled
      refl (omega arith) (empty_pools-IsClear class_sizes raw (extent 4096 3000)) (λ b. refl)
      small_call

stats_with_block :
    kvs_allocator_pool_stats (record at_start { pools = with_block })
    ≡ some (record { live_objects = 1; slab_count = 1; large_count = 0; mapped_bytes = slab_size })
unfolding kvs_allocator_pool_stats add_larges add_classes add_slabs alloc_in_pools empty_pools
    class_alloc take_free slab_create region_memory_alloc cut_mapping region_start slab_at
    data_offset bitmap_bytes free_loop slab_alloc_block
stats_with_block = refl

kvs_allocator_destroy-pool_stats_example :
    (kvs_allocator_destroy (λ b. true) (record at_start { pools = with_block })).1 ≡ false
kvs_allocator_destroy-pool_stats_example =
    kvs_allocator_destroy-pool_stats (λ b. true) (λ b. refl)
      (record at_start { pools = with_block })
      (record { live_objects = 1; slab_count = 1; large_count = 0; mapped_bytes = slab_size })
      (record { on = refl; backend = refl; sound = with_block-ArePools }) stats_with_block
