-- ===== src/Memory/Pool/Calls.antt =====
-- src/memory/kvs_allocator.c: the calls that the other parts make.
use kvstore.Common.{
  ℕ, ◌+◌, Bool, true, false, not, ◌&&◌, ◌||◌, List, [], ◌∷◌, Option, none, some, ltb, ◌==◌,
  if◌then◌else◌,
}
use kvstore.Memory.Region.{slab_size, region_start, System}
use kvstore.Memory.Slab.{Slab, max_block_size}
use kvstore.Memory.Pool.{
  system, pool, absent, refused, released, SizeClass, Large, Allocator, pool_alloc_small,
  pool_alloc_large, release_small, pool_free_large,
}

-- The allocator afterwards and the address; `heap` is what malloc returns.
unfoldable pub kvs_allocator_alloc : System → Option ℕ → Allocator → ℕ → Allocator × Option ℕ
kvs_allocator_alloc sys heap m size =
    if not m.allocator_initialized || size == 0 then (m, none) else elim m.allocator_backend [
      | system ↦ (m, heap)
      | pool ↦
          elim (if ltb max_block_size size
            then pool_alloc_large sys m size
            else pool_alloc_small sys m size) [
              | none ↦ (m, none)
              | some (changed, address) ↦ (changed, some address)
            ]
    ]

-- A null pointer is let pass; a region that is neither a slab nor large, or a release that is refused,
-- aborts.
unfoldable pub kvs_allocator_free : (ℕ → Bool) → Allocator → Option ℕ → Option Allocator
kvs_allocator_free unmaps m none = some m
kvs_allocator_free unmaps m (some address) =
    if not m.allocator_initialized then none else elim m.allocator_backend [
      | system ↦ some m
      | pool ↦ elim (release_small m.pools address) [
        | released pools ↦ some (record m { pools = pools })
        | refused ↦ none
        | absent ↦ elim (pool_free_large unmaps m.large_regions (region_start address)) [
          | released larges ↦ some (record m { large_regions = larges })
          | refused ↦ none
          | absent ↦ none
        ]
      ]
    ]

-- The slabs left where one cannot be unmapped, and whether all were.
unfoldable pub unmap_slabs : (ℕ → Bool) → List Slab → List Slab × Bool
unmap_slabs unmaps [] = ([], true)
unmap_slabs unmaps (slab ∷ slabs) =
    let rest = unmap_slabs unmaps slabs in if unmaps slab.base then rest else (slab ∷ slabs, false)

unfoldable pub unmap_classes : (ℕ → Bool) → List SizeClass → List SizeClass × Bool
unmap_classes unmaps [] = ([], true)
unmap_classes unmaps (class ∷ classes) =
    let rest = unmap_classes unmaps classes in
    let (slabs, done) = unmap_slabs unmaps class.slabs in
    if done
    then (record class { slabs = slabs } ∷ rest.0, rest.1)
    else (record class { slabs = slabs } ∷ classes, false)

unfoldable pub all_free : List Slab → Bool
all_free [] = true
all_free (slab ∷ slabs) = (slab.used_count == 0) && all_free slabs

unfoldable pub classes_free : List SizeClass → Bool
classes_free [] = true
classes_free (class ∷ classes) = all_free class.slabs && classes_free classes

-- The pools afterwards, and whether the return code is 0.
unfoldable pub pool_destroy : (ℕ → Bool) → List SizeClass → List SizeClass × Bool
pool_destroy unmaps classes =
    if classes_free classes then unmap_classes unmaps classes else (classes, false)

unfoldable pub kvs_allocator_destroy : (ℕ → Bool) → Allocator → Allocator × Bool
kvs_allocator_destroy unmaps m =
    if not m.allocator_initialized then (m, true) else elim m.large_regions [
      | _ ∷ _ ↦ (m, false)
      | [] ↦
          let (pools, done) = pool_destroy unmaps m.pools in
          (record m { pools = pools; allocator_initialized = not done }, done)
    ]

pub record PoolStats : Type 0 where
  pub live_objects : ℕ
  pub slab_count : ℕ
  pub large_count : ℕ
  pub mapped_bytes : ℕ

abbrev pub no_stats : PoolStats
no_stats = record { live_objects = 0; slab_count = 0; large_count = 0; mapped_bytes = 0 }

unfoldable pub add_slabs : List Slab → PoolStats → PoolStats
add_slabs [] r = r
add_slabs (slab ∷ slabs) r = add_slabs slabs (record r {
  live_objects = r.live_objects + slab.used_count;
  slab_count = r.slab_count + 1;
  mapped_bytes = r.mapped_bytes + slab_size;
})

unfoldable pub add_classes : List SizeClass → PoolStats → PoolStats
add_classes [] r = r
add_classes (class ∷ classes) r = add_classes classes (add_slabs class.slabs r)

unfoldable pub add_larges : List Large → PoolStats → PoolStats
add_larges [] r = r
add_larges (large ∷ larges) r = add_larges larges (record r {
  live_objects = r.live_objects + 1;
  large_count = r.large_count + 1;
  mapped_bytes = r.mapped_bytes + large.mapping_size;
})

unfoldable pub kvs_allocator_pool_stats : Allocator → Option PoolStats
kvs_allocator_pool_stats m =
    if not m.allocator_initialized then none else elim m.allocator_backend [
      | system ↦ none
      | pool ↦ some (add_larges m.large_regions (add_classes m.pools no_stats))
    ]
