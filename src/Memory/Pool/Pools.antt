-- ===== src/Memory/Pool/Pools.antt =====
-- src/memory/kvs_allocator.c: all pools.
use kvstore.Common.{
  ℕ, ◌+◌, ◌≤◌, ◌≡◌, refl, sym, subst, ◌∙◌, arith, Bool, true, false, ◌&&◌, ◌||◌, ◌==◌, leb, List,
  [], ◌∷◌, none, some, none-some, some_same, Bool-cases, ◌⊎◌, inl, inr,
}
use kvstore.Protocol.{size_max}
use kvstore.Memory.Region.{slab_size, region_start, System}
use kvstore.Memory.Pool.{SizeClass, alloc_in_pools, absent, release_small}
use kvstore.Memory.Pool.Class.{
  in_use, has_base, AreSlabs, IsOutside, BeginsIn, in_use-has_base, outside-has_base, false-true,
  nothing, allocates, class_alloc_lem,
}
use kvstore.Memory.Pool.Back.{other_region, refuses_it, releases, release_slab_lem}

unfoldable pub pools_use : List SizeClass → ℕ → Bool
pools_use [] a = false
pools_use (c ∷ cs) a = in_use c.slabs a || pools_use cs a

unfoldable pub pools_base : ℕ → List SizeClass → Bool
pools_base b [] = false
pools_base b (c ∷ cs) = has_base b c.slabs || pools_base b cs

-- Pools of valid slabs, all in different regions.
unfoldable pub ArePools : List SizeClass → Type 0
ArePools [] = Unit {0}
ArePools (c ∷ cs) =
    AreSlabs c.block_size c.slabs
    × ((b : ℕ) → (has_base b c.slabs && pools_base b cs) ≡ false)
    × ArePools cs

-- The `extent` bytes from an address do not overlap the slabs of the pools.
unfoldable pub IsClear : ℕ → ℕ → List SizeClass → Type 0
IsClear raw extent [] = Unit {0}
IsClear raw extent (c ∷ cs) = IsOutside raw extent c.slabs × IsClear raw extent cs

pub clear-pools_base :
    (raw extent base : ℕ) (cs : List SizeClass)
    → BeginsIn raw extent base
    → IsClear raw extent cs
    → pools_base base cs ≡ false
unfolding IsClear pools_base
clear-pools_base raw extent base [] begins new = refl
clear-pools_base raw extent base (c ∷ cs) begins (new, news) = ground (
  arith,
  outside-has_base raw extent base c.slabs begins new,
  clear-pools_base raw extent base cs begins news,
)

pub pools_use-pools_base :
    (cs : List SizeClass) (a : ℕ)
    → ArePools cs
    → pools_use cs a ≡ true
    → pools_base (region_start a) cs ≡ true
unfolding ArePools pools_use pools_base
pools_use-pools_base [] a v h = absurd (false-true h)
pools_use-pools_base (c ∷ cs) a (v, apart, vs) h = elim (Bool-cases (in_use c.slabs a)) [
  | inl u ↦ ground (arith, in_use-has_base c.block_size c.slabs a v u)
  | inr u ↦ ground (arith, pools_use-pools_base cs a vs (ground (arith, h, u)))
]

-- An address outside the slabs of the pools.
pub release_small-absent :
    (cs : List SizeClass) (a : ℕ)
    → ArePools cs
    → pools_base (region_start a) cs ≡ false
    → release_small cs a ≡ absent
unfolding ArePools pools_base release_small
release_small-absent [] a v h = refl
release_small-absent (c ∷ cs) a (v, apart, vs) h =
    elim (release_slab_lem c.block_size c.slabs a v) [
      | other_region g f ↦ ground (arith, f, release_small-absent cs a vs (ground (arith, h)))
      | refuses_it g l f ↦ absurd (ground (arith, g, h))
      | releases slabs u f w same ends ↦
          absurd (ground (arith, in_use-has_base c.block_size c.slabs a v u, h))
    ]

-- What an allocation from the pools does. The block is in a region of a slab there was or in the mapping.
pub data Allots (sys : System) (cs : List SizeClass) (size raw : ℕ) : Type 0 where
  no_block : alloc_in_pools sys cs size ≡ none → Allots sys cs size raw
  allots :
      (ds : List SizeClass) (block : ℕ)
      → alloc_in_pools sys cs size ≡ some (ds, block)
      → ArePools ds
      → ((b : ℕ)
          → pools_base b ds ≡ true
          → (pools_base b cs ≡ true) ⊎ BeginsIn raw (slab_size + slab_size) b)
      → pools_use cs block ≡ false
      → ((a : ℕ) → pools_use ds a ≡ ((a == block) || pools_use cs a))
      → Allots sys cs size raw

-- The use of an address in two pools of different regions.
pub not_both :
    (c : SizeClass) (cs : List SizeClass) (a : ℕ)
    → AreSlabs c.block_size c.slabs
    → ((b : ℕ) → (has_base b c.slabs && pools_base b cs) ≡ false)
    → ArePools cs
    → (in_use c.slabs a && pools_use cs a) ≡ false
not_both c cs a v apart vs = elim (Bool-cases (in_use c.slabs a)) [
  | inr u ↦ ground (arith, u)
  | inl u ↦ elim (Bool-cases (pools_use cs a)) [
    | inr w ↦ ground (arith, u, w)
    | inl w ↦ absurd (
        ground (
          arith,
          apart (region_start a),
          in_use-has_base c.block_size c.slabs a v u,
          pools_use-pools_base cs a vs w,
        ))
  ]
]

module _ (sys : System) (size raw : ℕ) (m : sys.mapping ≡ some raw)
    (inside : raw + (slab_size + slab_size) ≤ size_max) where
  -- Slabs whose regions are those of a pool, or in the mapping, are apart from the others.
  still_apart :
      (old new others : ℕ → Bool)
      → ((b : ℕ) → new b ≡ true → (old b ≡ true) ⊎ BeginsIn raw (slab_size + slab_size) b)
      → ((b : ℕ) → (old b && others b) ≡ false)
      → ((b : ℕ) → BeginsIn raw (slab_size + slab_size) b → others b ≡ false)
      → (b : ℕ) → (new b && others b) ≡ false
  still_apart old new others bases apart clear b = elim (Bool-cases (new b)) [
    | inr n ↦ ground (arith, n)
    | inl n ↦ elim (bases b n) [
      | inl o ↦ ground (arith, apart b, o)
      | inr begins ↦ ground (arith, clear b begins)
    ]
  ]

  more_bases :
      (old new others : ℕ → Bool) (b : ℕ)
      → ((b : ℕ) → new b ≡ true → (old b ≡ true) ⊎ BeginsIn raw (slab_size + slab_size) b)
      → (new b || others b) ≡ true
      → ((old b || others b) ≡ true) ⊎ BeginsIn raw (slab_size + slab_size) b
  more_bases old new others b bases h = elim (Bool-cases (new b)) [
    | inr n ↦ inl (ground (arith, n, h))
    | inl n ↦ elim (bases b n) [ inl o ↦ inl (ground (arith, o)) | inr begins ↦ inr begins ]
  ]

  module _ (c : SizeClass) (cs : List SizeClass) (v : AreSlabs c.block_size c.slabs)
      (apart : (b : ℕ) → (has_base b c.slabs && pools_base b cs) ≡ false) (vs : ArePools cs)
      (new : IsOutside raw (slab_size + slab_size) c.slabs)
      (news : IsClear raw (slab_size + slab_size) cs) where
    in_first : leb size c.block_size ≡ true → Allots sys (c ∷ cs) size raw
    unfolding alloc_in_pools ArePools pools_base pools_use
    in_first fits = elim (class_alloc_lem sys c raw v m inside new) [
      | nothing f g ↦ no_block (ground (arith, fits, f))
      | allocates d block f same w bases fresh change ↦
          let w1 = subst (λ n. AreSlabs n d.slabs) (sym same) w in
          let apart1 =
            still_apart (λ b. has_base b c.slabs) (λ b. has_base b d.slabs) (λ b. pools_base b cs)
              bases apart
              (λ b begins. clear-pools_base raw (slab_size + slab_size) b cs begins news) in
          allots (d ∷ cs) block (ground (arith, fits, f)) (w1, apart1, vs)
            (λ b.
              more_bases (λ b. has_base b c.slabs) (λ b. has_base b d.slabs) (λ b. pools_base b cs)
                b bases)
            (ground (arith, fresh, change block, not_both d cs block w1 apart1 vs))
            (λ a. ground (arith, change a))
    ]

    in_others :
        leb size c.block_size ≡ false → Allots sys cs size raw → Allots sys (c ∷ cs) size raw
    unfolding alloc_in_pools ArePools pools_base pools_use
    in_others large (no_block f) = no_block (ground (arith, large, f))
    in_others large (allots ds block f w bases fresh change) =
        let flipped =
          still_apart (λ b. pools_base b cs) (λ b. pools_base b ds) (λ b. has_base b c.slabs) bases
            (λ b. ground (arith, apart b))
            (λ b begins. outside-has_base raw (slab_size + slab_size) b c.slabs begins new) in
        let apart1 : (b : ℕ) → (has_base b c.slabs && pools_base b ds) ≡ false =
          λ b. ground (arith, flipped b) in
        allots (c ∷ ds) block (ground (arith, large, f)) (v, apart1, w)
          (λ b h. others_first (has_base b c.slabs) b (
            more_bases (λ b. pools_base b cs) (λ b. pools_base b ds) (λ b. has_base b c.slabs) b
              bases (ground (arith, h))))
          (ground (arith, fresh, change block, not_both c ds block v apart1 w))
          (λ a. ground (arith, change a))
      where
        others_first :
            (one : Bool) (b : ℕ)
            → ((pools_base b cs || one) ≡ true) ⊎ BeginsIn raw (slab_size + slab_size) b
            → ((one || pools_base b cs) ≡ true) ⊎ BeginsIn raw (slab_size + slab_size) b
        others_first one b (inl h) = inl (ground (arith, h))
        others_first one b (inr begins) = inr begins

  -- alloc_in_pools on valid pools, whose regions the mapping does not overlap, where the mapping does not
  -- reach behind the last address: it gives nothing, or a block that was not in use, is the only one
  -- whose use has changed, and leaves the pools valid.
  pub alloc_in_pools_lem :
      (cs : List SizeClass)
      → ArePools cs
      → IsClear raw (slab_size + slab_size) cs
      → Allots sys cs size raw
  unfolding alloc_in_pools ArePools IsClear
  alloc_in_pools_lem [] v new = no_block refl
  alloc_in_pools_lem (c ∷ cs) (v, apart, vs) (new, news) =
      elim (Bool-cases (leb size c.block_size)) [
        | inl fits ↦ in_first c cs v apart vs new news fits
        | inr large ↦ in_others c cs v apart vs new news large (alloc_in_pools_lem cs vs news)
      ]

  pub alloc_in_pools-ArePools :
      (cs ds : List SizeClass) (block : ℕ)
      → ArePools cs
      → IsClear raw (slab_size + slab_size) cs
      → alloc_in_pools sys cs size ≡ some (ds, block)
      → ArePools ds
  alloc_in_pools-ArePools cs ds block v new h = elim (alloc_in_pools_lem cs v new) [
    | no_block f ↦ absurd (none-some (sym f ∙ h))
    | allots ds1 block1 f w bases fresh change ↦ subst (λ p. ArePools p.0) (some_same (sym f ∙ h)) w
  ]
