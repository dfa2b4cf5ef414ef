-- ===== src/Memory/Pool/Destroyed.antt =====
-- src/memory/kvs_allocator.c: kvs_allocator_destroy against kvs_allocator_pool_stats.
use kvstore.Common.{
  ℕ, ◌+◌, ◌≡◌, refl, ap, arith, Bool, true, List, [], ◌∷◌, some, ◌==◌, length, List-cases, inl, inr,
}
use kvstore.Memory.Slab.{Slab}
use kvstore.Memory.Pool.{SizeClass, Large, Allocator}
use kvstore.Memory.Pool.RoundTrip.{IsPooled}
use kvstore.Memory.Pool.Calls.{
  unmap_slabs, unmap_classes, all_free, classes_free, pool_destroy, kvs_allocator_destroy,
  PoolStats, no_stats, add_slabs, add_classes, add_larges, kvs_allocator_pool_stats,
}

-- The blocks in use that the slabs and the pools count.
used : List Slab → ℕ
used [] = 0
used (s ∷ rest) = s.used_count + used rest

used_in : List SizeClass → ℕ
used_in [] = 0
used_in (c ∷ cs) = used c.slabs + used_in cs

all_free-used : (slabs : List Slab) → all_free slabs ≡ (used slabs == 0)
unfolding all_free used
all_free-used [] = refl
all_free-used (s ∷ rest) = ground (arith, all_free-used rest)

classes_free-used : (cs : List SizeClass) → classes_free cs ≡ (used_in cs == 0)
unfolding classes_free used_in
classes_free-used [] = refl
classes_free-used (c ∷ cs) = ground (arith, all_free-used c.slabs, classes_free-used cs)

add_slabs-live :
    (slabs : List Slab) (r : PoolStats)
    → (add_slabs slabs r).live_objects ≡ r.live_objects + used slabs
unfolding add_slabs used
add_slabs-live [] r = omega arith
add_slabs-live (s ∷ rest) r = omega (arith, add_slabs-live rest _)

add_classes-live :
    (cs : List SizeClass) (r : PoolStats)
    → (add_classes cs r).live_objects ≡ r.live_objects + used_in cs
unfolding add_classes used_in
add_classes-live [] r = omega arith
add_classes-live (c ∷ cs) r =
    omega (arith, add_classes-live cs (add_slabs c.slabs r), add_slabs-live c.slabs r)

add_larges-live :
    (larges : List Large) (r : PoolStats)
    → (add_larges larges r).live_objects ≡ r.live_objects + length larges
unfolding add_larges
add_larges-live [] r = omega arith
add_larges-live (l ∷ rest) r = omega (arith, add_larges-live rest _)

module _ (unmaps : ℕ → Bool) (gives_back : (b : ℕ) → unmaps b ≡ true) where
  unmap_slabs-all : (slabs : List Slab) → unmap_slabs unmaps slabs ≡ ([], true)
  unfolding unmap_slabs
  unmap_slabs-all [] = refl
  unmap_slabs-all (s ∷ rest) = rw (gives_back s.base) (unmap_slabs-all rest)

  unmap_classes-all : (cs : List SizeClass) → (unmap_classes unmaps cs).1 ≡ true
  unfolding unmap_classes
  unmap_classes-all [] = refl
  unmap_classes-all (c ∷ cs) = rw (unmap_slabs-all c.slabs) (unmap_classes-all cs)

  module _ (m : Allocator) (r : PoolStats) (v : IsPooled m)
      (h : kvs_allocator_pool_stats m ≡ some r) where
    live : r.live_objects ≡ used_in m.pools + length m.large_regions
    unfolding kvs_allocator_pool_stats
    live =
        let same : add_larges m.large_regions (add_classes m.pools no_stats) ≡ r =
          ground (arith, h, v.on, v.backend) in
        omega (
          arith,
          ap PoolStats.live_objects same,
          add_larges-live m.large_regions (add_classes m.pools no_stats),
          add_classes-live m.pools no_stats,
        )

    -- kvs_allocator_destroy and kvs_allocator_pool_stats of an allocator in use with the pools, where the
    -- system unmaps what it is asked to: destroy returns 0 exactly if pool_stats counts no live object.
    pub kvs_allocator_destroy-pool_stats :
        (kvs_allocator_destroy unmaps m).1 ≡ (r.live_objects == 0)
    unfolding kvs_allocator_destroy pool_destroy
    kvs_allocator_destroy-pool_stats = elim (List-cases m.large_regions) [
      | inl e ↦
          ground (
            arith,
            live,
            e,
            ap length e,
            v.on,
            classes_free-used m.pools,
            unmap_classes-all m.pools,
          )
      | inr (l, rest, e) ↦ ground (arith, live, e, ap length e, v.on)
    ]
