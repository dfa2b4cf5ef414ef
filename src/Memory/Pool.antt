-- ===== src/Memory/Pool.antt =====
-- src/memory/kvs_allocator.c: the pools, the large regions and the functions for the other parts.
-- An answer of the system holds for one call. `none` is a null pointer or the return code -1, and of
-- kvs_allocator_free an abort.
pub mod Class
pub mod Calls
pub mod Back
pub mod Apart
pub mod Pools
pub mod Served
pub mod Held
pub mod LargeRegion
pub mod RoundTrip
pub mod Returns
pub mod Destroyed
use kvstore.Common.{
  ℕ, zero, suc, ◌+◌, ◌-◌, ◌*◌, ◌/◌, ◌%◌, Bool, true, false, not, ◌&&◌, ◌||◌, List, [], ◌∷◌, Option,
  none, some, ltb, leb, ◌==◌, if◌then◌else◌, length,
}
use kvstore.Protocol.{size_max}
use kvstore.Memory.Region.{slab_size, region_start, System, region_memory_alloc}
use kvstore.Memory.Slab.{Slab, alignment, slab_create, slab_alloc_block, pool_free_small}

pub data Backend : Type 0 where
  system : Backend
  pool : Backend

pub record SizeClass : Type 0 where
  pub block_size : ℕ
  pub slabs : List Slab

pub record Large : Type 0 where
  pub start : ℕ
  pub mapping_size : ℕ

pub record Allocator : Type 0 where
  pub allocator_initialized : Bool
  pub allocator_backend : Backend
  pub pools : List SizeClass
  pub large_regions : List Large

-- The block sizes of the pools.
abbrev pub class_sizes : List ℕ
class_sizes =
    16 ∷ 32 ∷ 48 ∷ 64 ∷ 96 ∷ 128 ∷ 192 ∷ 256 ∷ 384 ∷ 512 ∷ 768 ∷ 1024 ∷ 1536 ∷ 2048 ∷ 3072 ∷ 4096
    ∷ []

unfoldable pub empty_pools : List ℕ → List SizeClass
empty_pools [] = []
empty_pools (size ∷ sizes) = record { block_size = size; slabs = [] } ∷ empty_pools sizes

unfoldable pub clear_pools : List SizeClass → List SizeClass
clear_pools [] = []
clear_pools (class ∷ classes) = record class { slabs = [] } ∷ clear_pools classes

unfoldable pub kvs_allocator_init : Allocator → Backend → Option Allocator
kvs_allocator_init m backend =
    if m.allocator_initialized
    then none
    else some (record m {
      pools = clear_pools m.pools;
      allocator_backend = backend;
      allocator_initialized = true;
    })

-- The walk to the first slab with a free block, which gives it.
unfoldable pub take_free : List Slab → Option (List Slab × ℕ)
take_free [] = none
take_free (slab ∷ rest) = elim slab.free_list [
  | [] ↦ elim (take_free rest) [ none ↦ none | some (others, block) ↦ some (slab ∷ others, block) ]
  | _ ∷ _ ↦ elim (slab_alloc_block slab) [ none ↦ none | some (t, block) ↦ some (t ∷ rest, block) ]
]

-- pool_alloc_small in the pool found.
unfoldable pub class_alloc : System → SizeClass → Option (SizeClass × ℕ)
class_alloc sys class = elim (take_free class.slabs) [
  | some (slabs, block) ↦ some (record class { slabs = slabs }, block)
  | none ↦ elim (slab_create sys class.block_size) [
    | none ↦ none
    | some slab ↦ elim (slab_alloc_block slab) [
      | none ↦ none
      | some (t, block) ↦ some (record class { slabs = t ∷ class.slabs }, block)
    ]
  ]
]

-- find_size_class, the first pool with blocks that are large enough, and the allocation from it.
unfoldable pub alloc_in_pools : System → List SizeClass → ℕ → Option (List SizeClass × ℕ)
alloc_in_pools sys [] size = none
alloc_in_pools sys (class ∷ classes) size =
    let rest = alloc_in_pools sys classes size in
    if leb size class.block_size
    then elim (class_alloc sys class) [
      | none ↦ none
      | some (changed, block) ↦ some (changed ∷ classes, block)
    ]
    else elim rest [ none ↦ none | some (others, block) ↦ some (class ∷ others, block) ]

unfoldable pub pool_alloc_small : System → Allocator → ℕ → Option (Allocator × ℕ)
pool_alloc_small sys m size = if size == 0 then none else elim (alloc_in_pools sys m.pools size) [
  | none ↦ none
  | some (pools, block) ↦ some (record m { pools = pools }, block)
]

-- sizeof(kvs_large_t)
abbrev pub large_head : ℕ
large_head = 32

abbrev pub large_offset : ℕ
large_offset = (large_head + alignment - 1) / alignment * alignment

unfoldable pub pool_alloc_large : System → Allocator → ℕ → Option (Allocator × ℕ)
pool_alloc_large sys m size =
    let total = large_offset + size in
    let remainder = total % sys.page_size in
    let padding = if remainder == 0 then 0 else sys.page_size - remainder in
    if (sys.page_size == 0 || size == 0)
      || (leb slab_size large_offset || ltb (size_max - large_offset) size)
    then none
    else if ltb (size_max - padding) total
    then none
    else elim (region_memory_alloc sys (total + padding)) [
      | none ↦ none
      | some start ↦ some (
        record m {
          large_regions =
              record { start = start; mapping_size = total + padding } ∷ m.large_regions;
        },
        start + large_offset,
      )
    ]

-- What the release of an address in a part of the allocator comes to: nothing there begins where the
-- address's region does, the code -1, or the part as changed.
pub data Release (A : Type 0) : Type 0 where
  absent : Release A
  refused : Release A
  released : A → Release A

unfoldable pub release_slab : List Slab → ℕ → Release (List Slab)
release_slab [] address = absent
release_slab (slab ∷ slabs) address =
    let rest = release_slab slabs address in
    if slab.base == region_start address
    then elim (pool_free_small slab address) [ none ↦ refused | some t ↦ released (t ∷ slabs) ]
    else elim rest [
      | absent ↦ absent
      | refused ↦ refused
      | released others ↦ released (slab ∷ others)
    ]

unfoldable pub release_small : List SizeClass → ℕ → Release (List SizeClass)
release_small [] address = absent
release_small (class ∷ classes) address =
    let rest = release_small classes address in
    elim (release_slab class.slabs address) [
      | released slabs ↦ released (record class { slabs = slabs } ∷ classes)
      | refused ↦ refused
      | absent ↦ elim rest [
        | absent ↦ absent
        | refused ↦ refused
        | released others ↦ released (class ∷ others)
      ]
    ]

-- pool_free_large, where the system may refuse to unmap: then the region stays in the list.
unfoldable pub pool_free_large : (ℕ → Bool) → List Large → ℕ → Release (List Large)
pool_free_large unmaps [] start = absent
pool_free_large unmaps (large ∷ larges) start =
    let rest = pool_free_large unmaps larges start in
    if large.start == start then if unmaps start then released larges else refused else elim rest [
      | absent ↦ absent
      | refused ↦ refused
      | released others ↦ released (large ∷ others)
    ]
