-- ===== src/Memory/Pool/Back.antt =====
-- src/memory/kvs_allocator.c: a block given back to its pool.
use kvstore.Common.{
  ℕ, ◌+◌, ◌≤◌, ◌≡◌, refl, sym, ap, subst, ◌∙◌, arith, Bool, true, false, not, ◌&&◌, ◌||◌, List, [],
  ◌∷◌, some, ◌==◌, Bool-cases, none-some, some_same, inl, inr, ==_refl,
}
use native.Mathlib.Decide.{ℕ_discrete}
use kvstore.Protocol.{size_max}
use kvstore.Memory.Region.{slab_size, region_start, System}
use kvstore.Memory.Slab.{Slab}
use kvstore.Memory.Slab.Valid.{live, IsSlab, live-region_start}
use kvstore.Memory.Slab.Take.{refuses, frees, pool_free_small_lem}
use kvstore.Memory.Pool.{SizeClass, class_alloc, absent, refused, released, release_slab}
use kvstore.Memory.Pool.Class.{
  in_use, has_base, AreSlabs, IsOutside, in_use-has_base, false-true, nothing, allocates,
  class_alloc_lem,
}

-- What release_slab does with an address: it is of another region; it is refused; or it is that of a
-- block in use, which alone is no longer so.
pub data Releases (size : ℕ) (slabs : List Slab) (a : ℕ) : Type 0 where
  other_region :
      has_base (region_start a) slabs ≡ false
      → release_slab slabs a ≡ absent
      → Releases size slabs a
  refuses_it :
      has_base (region_start a) slabs ≡ true
      → in_use slabs a ≡ false
      → release_slab slabs a ≡ refused
      → Releases size slabs a
  releases :
      (others : List Slab)
      → in_use slabs a ≡ true
      → release_slab slabs a ≡ released others
      → AreSlabs size others
      → ((b : ℕ) → has_base b others ≡ has_base b slabs)
      → ((b : ℕ) → in_use others b ≡ (not (b == a) && in_use slabs b))
      → Releases size slabs a

-- Where the region is not among those of the slabs, no block is in use there.
not_here :
    (size : ℕ) (slabs : List Slab) (a : ℕ)
    → AreSlabs size slabs
    → has_base (region_start a) slabs ≡ false
    → in_use slabs a ≡ false
not_here size slabs a vs h = ground (arith, h, in_use-has_base size slabs a vs)

-- A test that fails at one address, at another.
pub at_one : (test : ℕ → Bool) (a b : ℕ) → test a ≡ false → ((b == a) && test b) ≡ false
at_one test a b h = elim (ℕ_discrete b a) [
  | yes same ↦ subst (λ x. ((x == a) && test x) ≡ false) (sym same) (ground (arith, h))
  | no other ↦ ground (arith, other)
]

module _ (size : ℕ) (s : Slab) (rest : List Slab) (a : ℕ) (v : IsSlab s) (e : s.block_size ≡ size)
    (apart : has_base s.base rest ≡ false) (vs : AreSlabs size rest) where
  -- The address is in the region of the first slab.
  here : (s.base == region_start a) ≡ true → Releases size (s ∷ rest) a
  unfolding release_slab AreSlabs in_use has_base
  here h = elim (pool_free_small_lem s a v) [
    | refuses l f ↦
        refuses_it (ground (arith, h))
          (ground (arith, l, not_here size rest a vs (ground (arith, h, apart))))
          (ground (arith, h, f))
    | frees t l f (same_base, same_size) w change ↦
        releases (t ∷ rest) (ground (arith, l)) (ground (arith, h, f))
          (w, same_size ∙ e, ap (λ b. has_base b rest) same_base ∙ apart, vs)
          (λ b. ap (λ c. (c == b) || has_base b rest) same_base)
          (λ b. ground (
            arith,
            change b,
            at_one (in_use rest) a b (not_here size rest a vs (ground (arith, h, apart))),
          ))
  ]

  dead_here : (s.base == region_start a) ≡ false → live s a ≡ false
  dead_here h = elim (Bool-cases (live s a)) [
    | inr l ↦ l
    | inl l ↦ ground (arith, h, live-region_start s a v l)
  ]

  there : (s.base == region_start a) ≡ false → Releases size rest a → Releases size (s ∷ rest) a
  unfolding release_slab AreSlabs in_use has_base
  there h (other_region g f) = other_region (ground (arith, h, g)) (ground (arith, h, f))
  there h (refuses_it g l f) =
      refuses_it (ground (arith, g)) (ground (arith, l, dead_here h)) (ground (arith, h, f))
  there h (releases others l f w same change) =
      releases (s ∷ others) (ground (arith, l)) (ground (arith, h, f))
        (v, e, same s.base ∙ apart, w) (λ b. ground (arith, same b))
        (λ b. ground (arith, change b, at_one (live s) a b (dead_here h)))

-- release_slab on the valid slabs of a pool: it finds no slab exactly if none begins where the address's
-- region does, refuses an address in a slab that is not that of a block in use, and otherwise ends the
-- use of this block alone and keeps the slabs valid.
pub release_slab_lem :
    (size : ℕ) (slabs : List Slab) (a : ℕ) → AreSlabs size slabs → Releases size slabs a
unfolding release_slab AreSlabs has_base
release_slab_lem size [] a v = other_region refl refl
release_slab_lem size (s ∷ rest) a (v, e, apart, vs) =
    elim (Bool-cases (s.base == region_start a)) [
      | inl h ↦ here size s rest a v e apart vs h
      | inr h ↦ there size s rest a v e apart vs h (release_slab_lem size rest a vs)
    ]

give_back :
    (size : ℕ) (before after : List Slab) (block : ℕ)
    → AreSlabs size after
    → in_use before block ≡ false
    → ((a : ℕ) → in_use after a ≡ ((a == block) || in_use before a))
    → (slabs : List Slab) × (release_slab after block ≡ released slabs)
      × AreSlabs size slabs
      × ((a : ℕ) → in_use slabs a ≡ in_use before a)
give_back size before after block v fresh change = elim (release_slab_lem size after block v) [
  | other_region h f ↦ absurd (false-true (sym (not_here size after block v h) ∙ used))
  | refuses_it g l f ↦ absurd (false-true (sym l ∙ used))
  | releases slabs l f w same ends ↦
      (slabs, f, w, λ a. ground (arith, ends a, change a, at_one (in_use before) block a fresh))
]
  where
    used : in_use after block ≡ true
    used = ground (arith, change block, ==_refl block)

-- class_alloc and then release_slab of the block that it gave: the release succeeds, the slabs are valid,
-- and the blocks in use are those before.
pub class_alloc-release_slab :
    (sys : System) (c d : SizeClass) (raw block : ℕ)
    → AreSlabs c.block_size c.slabs
    → sys.mapping ≡ some raw
    → raw + (slab_size + slab_size) ≤ size_max
    → IsOutside raw (slab_size + slab_size) c.slabs
    → class_alloc sys c ≡ some (d, block)
    → (slabs : List Slab) × (release_slab d.slabs block ≡ released slabs)
      × AreSlabs c.block_size slabs
      × ((a : ℕ) → in_use slabs a ≡ in_use c.slabs a)
class_alloc-release_slab sys c d raw block v m inside new h =
    elim (class_alloc_lem sys c raw v m inside new) [
      | nothing f g ↦ absurd (none-some (sym f ∙ h))
      | allocates d1 block1 f same w bases fresh change ↦
          subst
            (λ p.
              (slabs : List Slab) × (release_slab p.0.slabs p.1 ≡ released slabs)
              × AreSlabs c.block_size slabs
              × ((a : ℕ) → in_use slabs a ≡ in_use c.slabs a))
            (some_same (sym f ∙ h)) (give_back c.block_size c.slabs d1.slabs block1 w fresh change)
    ]
