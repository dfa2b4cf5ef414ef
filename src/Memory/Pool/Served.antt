-- ===== src/Memory/Pool/Served.antt =====
-- src/memory/kvs_allocator.c: where a block that alloc_in_pools gives lies among those in use.
use kvstore.Common.{
  ℕ, ◌+◌, ◌≤◌, ◌<◌, ◌≡◌, refl, sym, ap, subst, ◌∙◌, arith, true, false, ◌&&◌, ◌==◌, leb, List, [],
  ◌∷◌, none, some, none-some, some_same, Bool-cases, ◌⊎◌, inl, inr, ==_refl,
}
use native.Mathlib.Decide.{ℕ_discrete}
use kvstore.Protocol.{size_max}
use kvstore.Memory.Region.{slab_size, region_start, System}
use kvstore.Memory.Pool.{SizeClass, alloc_in_pools}
use kvstore.Memory.Pool.Class.{
  in_use, has_base, in_use-has_base, false-true, nothing, allocates, class_alloc_lem,
}
use kvstore.Memory.Pool.Apart.{in_use-within, in_use-apart, regions_apart}
use kvstore.Memory.Pool.Pools.{
  pools_use, pools_base, ArePools, IsClear, pools_use-pools_base, no_block, allots,
  alloc_in_pools_lem,
}

-- A block of so many bytes at the address is in use in one of the pools.
unfoldable pub HasBlock : List SizeClass → ℕ → ℕ → Type 0
HasBlock [] a n = ⊥
HasBlock (c ∷ cs) a n = ((c.block_size ≡ n) × (in_use c.slabs a ≡ true)) ⊎ HasBlock cs a n

HasBlock-pools_use : (cs : List SizeClass) (a n : ℕ) → HasBlock cs a n → pools_use cs a ≡ true
unfolding HasBlock pools_use
HasBlock-pools_use [] a n h = absurd h
HasBlock-pools_use (c ∷ cs) a n (inl (e, u)) = ground (arith, u)
HasBlock-pools_use (c ∷ cs) a n (inr h) = ground (arith, HasBlock-pools_use cs a n h)

HasBlock-pools_base :
    (cs : List SizeClass) (a n : ℕ)
    → ArePools cs
    → HasBlock cs a n
    → pools_base (region_start a) cs ≡ true
HasBlock-pools_base cs a n v h = pools_use-pools_base cs a v (HasBlock-pools_use cs a n h)

-- A block lies in its region.
HasBlock-fits :
    (cs : List SizeClass) (a n : ℕ)
    → ArePools cs
    → HasBlock cs a n
    → a + n ≤ region_start a + slab_size
unfolding HasBlock ArePools
HasBlock-fits [] a n v h = absurd h
HasBlock-fits (c ∷ cs) a n (v, apart, vs) (inl (e, u)) =
    subst (λ m. a + m ≤ region_start a + slab_size) e (in_use-within c.block_size c.slabs a v u).1
HasBlock-fits (c ∷ cs) a n (v, apart, vs) (inr h) = HasBlock-fits cs a n vs h

-- Regions of two pools.
pools_apart :
    (x y : ℕ) (c : SizeClass) (cs : List SizeClass)
    → ((b : ℕ) → (has_base b c.slabs && pools_base b cs) ≡ false)
    → has_base x c.slabs ≡ true
    → pools_base y cs ≡ true
    → ((x == y) ≡ false) × ((y == x) ≡ false)
pools_apart x y c cs apart here there = elim (ℕ_discrete x y) [
  | yes same ↦
      absurd (ground (arith, apart x, here, subst (λ z. pools_base z cs ≡ true) (sym same) there))
  | no other ↦ (ground (arith, other), ground (arith, other))
]

-- Two blocks in use of valid pools.
blocks_apart :
    (cs : List SizeClass) (a n b m : ℕ)
    → ArePools cs
    → HasBlock cs a n
    → HasBlock cs b m
    → a < b
    → a + n ≤ b
unfolding HasBlock ArePools
blocks_apart [] a n b m v ha hb less = absurd ha
blocks_apart (c ∷ cs) a n b m (v, apart, vs) (inl (e, ua)) (inl (f, ub)) less =
    subst (λ k. a + k ≤ b) e (in_use-apart c.block_size c.slabs a b v ua ub less)
blocks_apart (c ∷ cs) a n b m (v, apart, vs) (inl (e, ua)) (inr hb) less =
    regions_apart n a b (HasBlock-fits (c ∷ cs) a n (v, apart, vs) (inl (e, ua)))
      (pools_apart (region_start a) (region_start b) c cs apart
        (in_use-has_base c.block_size c.slabs a v ua) (HasBlock-pools_base cs b m vs hb)).0
      less
blocks_apart (c ∷ cs) a n b m (v, apart, vs) (inr ha) (inl (f, ub)) less =
    regions_apart n a b (HasBlock-fits cs a n vs ha)
      (pools_apart (region_start b) (region_start a) c cs apart
        (in_use-has_base c.block_size c.slabs b v ub) (HasBlock-pools_base cs a n vs ha)).1
      less
blocks_apart (c ∷ cs) a n b m (v, apart, vs) (inr ha) (inr hb) less =
    blocks_apart cs a n b m vs ha hb less

-- What an allocation gives: nothing, or a block of at least the requested size, with every block kept
-- that was in use.
data Serves (sys : System) (cs : List SizeClass) (size : ℕ) : Type 0 where
  refuses : alloc_in_pools sys cs size ≡ none → Serves sys cs size
  serves :
      (ds : List SizeClass) (block bytes : ℕ)
      → alloc_in_pools sys cs size ≡ some (ds, block)
      → size ≤ bytes
      → HasBlock ds block bytes
      → ((a n : ℕ) → HasBlock cs a n → HasBlock ds a n)
      → Serves sys cs size

-- What it gives besides lies apart from every block that was in use.
pub data ServesApart (sys : System) (cs : List SizeClass) (size : ℕ) : Type 0 where
  serves_none : alloc_in_pools sys cs size ≡ none → ServesApart sys cs size
  serves_apart :
      (ds : List SizeClass) (block bytes : ℕ)
      → alloc_in_pools sys cs size ≡ some (ds, block)
      → size ≤ bytes
      → HasBlock ds block bytes
      → ((a n : ℕ) → HasBlock cs a n → HasBlock ds a n × ((a + n ≤ block) ⊎ (block + bytes ≤ a)))
      → ServesApart sys cs size

-- Another address.
either_side :
    (cs ds : List SizeClass) (a n b m : ℕ)
    → ArePools ds
    → pools_use cs b ≡ false
    → HasBlock cs a n
    → HasBlock ds a n
    → HasBlock ds b m
    → (a + n ≤ b) ⊎ (b + m ≤ a)
either_side cs ds a n b m v fresh old ha hb = elim (Bool-cases (leb b a)) [
  | inr less ↦ inl (blocks_apart ds a n b m v ha hb (ground (arith, less)))
  | inl more ↦ elim (ℕ_discrete b a) [
    | yes same ↦
        absurd
          (false-true (sym fresh ∙ ap (λ x. pools_use cs x) same ∙ HasBlock-pools_use cs a n old))
    | no other ↦ inr (blocks_apart ds b m a n v hb ha (ground (arith, more, other)))
  ]
]

module _ (sys : System) (size raw : ℕ) (m : sys.mapping ≡ some raw)
    (inside : raw + (slab_size + slab_size) ≤ size_max) where
  served :
      (cs : List SizeClass)
      → ArePools cs
      → IsClear raw (slab_size + slab_size) cs
      → Serves sys cs size
  unfolding alloc_in_pools ArePools IsClear HasBlock
  served [] v new = refuses refl
  served (c ∷ cs) (v, apart, vs) (new, news) = elim (Bool-cases (leb size c.block_size)) [
    | inl fits ↦ elim (class_alloc_lem sys c raw v m inside new) [
      | nothing f g ↦ refuses (ground (arith, fits, f))
      | allocates d block f same w bases fresh change ↦
          serves (d ∷ cs) block c.block_size (ground (arith, fits, f)) (ground (arith, fits))
            (inl (same, ground (arith, change block, ==_refl block)))
            (λ a n h. elim h [
              | inl (e, u) ↦ inl (same ∙ e, ground (arith, change a, u))
              | inr k ↦ inr k
            ])
    ]
    | inr large ↦ elim (served cs vs news) [
      | refuses f ↦ refuses (ground (arith, large, f))
      | serves ds block bytes f enough given kept ↦
          serves (c ∷ ds) block bytes (ground (arith, large, f)) enough (inr given)
            (λ a n h. elim h [ inl k ↦ inl k | inr k ↦ inr (kept a n k) ])
    ]
  ]

  -- alloc_in_pools on valid pools, whose regions the mapping does not overlap, where the mapping does not
  -- reach behind the last address: it gives nothing, or a block of at least the requested size that does not
  -- overlap any block in use of any pool; it is in use afterwards, and so is every block that was.
  pub alloc_in_pools-apart :
      (cs : List SizeClass)
      → ArePools cs
      → IsClear raw (slab_size + slab_size) cs
      → ServesApart sys cs size
  alloc_in_pools-apart cs v new = elim (served cs v new) [
    | refuses f ↦ serves_none f
    | serves ds block bytes f enough given kept ↦
        elim (alloc_in_pools_lem sys size raw m inside cs v new) [
          | no_block g ↦ absurd (none-some (sym g ∙ f))
          | allots ds1 block1 g w bases fresh change ↦
              let same = some_same (sym g ∙ f) in
              let valid : ArePools ds = subst (λ p. ArePools p.0) same w in
              let unused : pools_use cs block ≡ false =
                subst (λ p. pools_use cs p.1 ≡ false) same fresh in
              serves_apart ds block bytes f enough given (λ a n h.
                (kept a n h, either_side cs ds a n block bytes valid unused h (kept a n h) given))
        ]
  ]
