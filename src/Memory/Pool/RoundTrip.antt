-- ===== src/Memory/Pool/RoundTrip.antt =====
-- src/memory/kvs_allocator.c: kvs_allocator_free after kvs_allocator_alloc.
use kvstore.Common.{
  ℕ, ◌+◌, ◌≤◌, ◌≡◌, refl, sym, ap, subst, ◌∙◌, arith, Bool, true, false, ◌||◌, List, ◌∷◌, Option,
  some, ltb, ◌==◌, if◌then◌else◌, none-some, some_same, Bool-cases, Option-cases, inl, inr, ==_refl,
}
use kvstore.Protocol.{size_max}
use kvstore.Memory.Region.{slab_size, region_start, System}
use kvstore.Memory.Slab.{max_block_size}
use kvstore.Memory.Pool.{
  pool, SizeClass, Allocator, large_offset, alloc_in_pools, pool_alloc_small, pool_alloc_large,
  pool_free_large,
}
use kvstore.Memory.Pool.Calls.{kvs_allocator_alloc, kvs_allocator_free}
use kvstore.Memory.Pool.Class.{false-true, BeginsIn}
use kvstore.Memory.Pool.Back.{at_one}
use kvstore.Memory.Pool.Pools.{
  pools_use-pools_base, pools_use, pools_base, ArePools, IsClear, clear-pools_base,
  release_small-absent, no_block, allots, alloc_in_pools_lem,
}
use kvstore.Memory.Pool.Returns.{no_slab, no_block_in_use, returned, release_small_lem}
use kvstore.Memory.Pool.LargeRegion.{padded, IsPlaced, pool_alloc_large_lem}

-- The bytes that a request for a size asks the system for.
abbrev pub extent : ℕ → ℕ → ℕ
extent page_size size =
    if ltb max_block_size size
    then padded page_size (large_offset + size) + slab_size
    else slab_size + slab_size

-- The allocator in use, with the pools.
pub record IsPooled (m : Allocator) : Type 0 where
  pub on : m.allocator_initialized ≡ true
  pub backend : m.allocator_backend ≡ pool
  pub sound : ArePools m.pools

-- The same blocks in use and the same large regions.
pub record IsSame (m t : Allocator) : Type 0 where
  pub pooled : IsPooled t
  pub larges : t.large_regions ≡ m.large_regions
  pub uses : (a : ℕ) → pools_use t.pools a ≡ pools_use m.pools a

module _ (sys : System) (heap : Option ℕ) (m n : Allocator) (size address raw : ℕ)
    (unmaps : ℕ → Bool) (v : IsPooled m) (e : sys.mapping ≡ some raw)
    (inside : raw + extent sys.page_size size ≤ size_max)
    (clear : IsClear raw (extent sys.page_size size) m.pools)
    (gives_back : (b : ℕ) → unmaps b ≡ true)
    (h : kvs_allocator_alloc sys heap m size ≡ (n, some address)) where
  small_run : ltb max_block_size size ≡ false → pool_alloc_small sys m size ≡ some (n, address)
  unfolding kvs_allocator_alloc
  small_run little = elim (Option-cases (pool_alloc_small sys m size)) [
    | inl f ↦ absurd (ground (arith, f, h, v.on, v.backend, little))
    | inr (x, f) ↦ ground (arith, f, h, v.on, v.backend, little)
  ]

  large_run : ltb max_block_size size ≡ true → pool_alloc_large sys m size ≡ some (n, address)
  unfolding kvs_allocator_alloc
  large_run much = elim (Option-cases (pool_alloc_large sys m size)) [
    | inl f ↦ absurd (ground (arith, f, h, v.on, v.backend, much))
    | inr (x, f) ↦ ground (arith, f, h, v.on, v.backend, much)
  ]

  small_made :
      ltb max_block_size size ≡ false
      → (ds : List SizeClass) × (alloc_in_pools sys m.pools size ≡ some (ds, address))
        × (record m { pools = ds } ≡ n)
  unfolding pool_alloc_small
  small_made little = elim (Option-cases (alloc_in_pools sys m.pools size)) [
    | inl f ↦ absurd (ground (arith, f, small_run little))
    | inr ((ds, block), f) ↦
        let same : ◌≡◌ {A = Allocator × ℕ} (record m { pools = ds }, block) (n, address) =
          some_same (ground (arith, f, small_run little)) in
        (
          ds,
          subst (λ b. alloc_in_pools sys m.pools size ≡ some (ds, b)) (ap (λ p. p.1) same) f,
          ap (λ p. p.0) same,
        )
  ]

  -- The block of a pool back in the pools.
  small_back :
      (ds : List SizeClass)
      → ArePools ds
      → pools_use m.pools address ≡ false
      → ((a : ℕ) → pools_use ds a ≡ ((a == address) || pools_use m.pools a))
      → (t : Allocator) × (kvs_allocator_free unmaps (record m { pools = ds }) (some address)
          ≡ some t)
        × IsSame m t
  unfolding kvs_allocator_free
  small_back ds w fresh change = elim (release_small_lem ds address w) [
    | no_slab g f ↦ absurd (false-true (sym g ∙ pools_use-pools_base ds address w used))
    | no_block_in_use g u f ↦ absurd (false-true (sym u ∙ used))
    | returned back u f x same ends ↦ (
      record m { pools = back },
      ground (arith, f, v.on, v.backend),
      record {
        pooled = record { on = v.on; backend = v.backend; sound = x };
        larges = refl;
        uses = λ a. ground (arith, ends a, change a, at_one (pools_use m.pools) address a fresh);
      },
    )
  ]
    where
      used : pools_use ds address ≡ true
      used = ground (arith, change address, ==_refl address)

  small_allotted :
      (ds : List SizeClass)
      → alloc_in_pools sys m.pools size ≡ some (ds, address)
      → raw + (slab_size + slab_size) ≤ size_max
      → IsClear raw (slab_size + slab_size) m.pools
      → (t : Allocator) × (kvs_allocator_free unmaps (record m { pools = ds }) (some address)
          ≡ some t)
        × IsSame m t
  small_allotted ds f inside1 clear1 =
      elim (alloc_in_pools_lem sys size raw e inside1 m.pools v.sound clear1) [
        | no_block g ↦ absurd (none-some (sym g ∙ f))
        | allots ds1 block g w bases fresh change ↦
            let same = some_same (sym g ∙ f) in
            let same_address : block ≡ address = ap (λ p. p.1) same in
            small_back ds (subst (λ p. ArePools p.0) same w)
              (subst (λ b. pools_use m.pools b ≡ false) same_address fresh)
              (λ a.
                subst (λ p. pools_use p.0 a ≡ ((a == p.1) || pools_use m.pools a)) same (change a))
      ]

  begins :
      (p : IsPlaced raw size m n address)
      → BeginsIn raw (padded sys.page_size (large_offset + size) + slab_size) p.region.start
  begins p = (p.from, omega (arith, p.upto))

  region_back :
      (p : IsPlaced raw size m n address)
      → IsClear raw (padded sys.page_size (large_offset + size) + slab_size) m.pools
      → kvs_allocator_free unmaps
          (record m { large_regions = p.region ∷ m.large_regions })
          (some address)
        ≡ some m
  unfolding kvs_allocator_free pool_free_large
  region_back p clear1 = ground (
    arith,
    v.on,
    v.backend,
    p.placed,
    gives_back p.region.start,
    gives_back (region_start address),
    ==_refl p.region.start,
    release_small-absent m.pools address v.sound (
        ap (λ b. pools_base b m.pools) p.placed
        ∙ clear-pools_base raw (padded sys.page_size (large_offset + size) + slab_size)
            p.region.start m.pools (begins p) clear1),
  )

  large_back :
      IsPlaced raw size m n address
      → IsClear raw (padded sys.page_size (large_offset + size) + slab_size) m.pools
      → (t : Allocator) × (kvs_allocator_free unmaps n (some address) ≡ some t) × IsSame m t
  large_back p clear1 = (
    m,
    subst (λ x. kvs_allocator_free unmaps x (some address) ≡ some m) p.listed
        (region_back p clear1),
    record { pooled = v; larges = refl; uses = λ a. refl },
  )

  -- kvs_allocator_free of the address that kvs_allocator_alloc has just returned, with the pools as the
  -- back end, mappings that end before the last address and overlap no slab, and a system that unmaps what
  -- it is asked to: it does not abort, and the blocks in use and the large regions are those before the
  -- allocation, with the pools valid.
  pub kvs_allocator_alloc-kvs_allocator_free :
      (t : Allocator) × (kvs_allocator_free unmaps n (some address) ≡ some t) × IsSame m t
  kvs_allocator_alloc-kvs_allocator_free = elim (Bool-cases (ltb max_block_size size)) [
    | inl much ↦
        let ext : extent sys.page_size size
            ≡ padded sys.page_size (large_offset + size) + slab_size =
          ap
            (λ b.
              if b
              then padded sys.page_size (large_offset + size) + slab_size
              else slab_size + slab_size)
            much in
        large_back
          (pool_alloc_large_lem sys m n size raw address e
            (subst (λ x. raw + x ≤ size_max) ext inside) (large_run much))
          (subst (λ x. IsClear raw x m.pools) ext clear)
    | inr little ↦
        let ext : extent sys.page_size size ≡ slab_size + slab_size =
          ap
            (λ b.
              if b
              then padded sys.page_size (large_offset + size) + slab_size
              else slab_size + slab_size)
            little in
        let (ds, f, same) = small_made little in
        subst
          (λ x.
            (t : Allocator) × (kvs_allocator_free unmaps x (some address) ≡ some t) × IsSame m t)
          same
          (small_allotted ds f (subst (λ x. raw + x ≤ size_max) ext inside)
            (subst (λ x. IsClear raw x m.pools) ext clear))
  ]
