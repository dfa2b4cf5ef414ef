-- ===== src/Memory/Pool/Returns.antt =====
-- src/memory/kvs_allocator.c: a block given back to the pools.
use kvstore.Common.{ℕ, ◌≡◌, refl, arith, true, false, not, ◌&&◌, ◌==◌, List, [], ◌∷◌}
use kvstore.Memory.Region.{region_start}
use kvstore.Memory.Pool.{SizeClass, absent, refused, released, release_slab, release_small}
use kvstore.Memory.Pool.Class.{in_use, has_base, AreSlabs, in_use-has_base}
use kvstore.Memory.Pool.Back.{
  Releases, other_region, refuses_it, releases, release_slab_lem, at_one,
}
use kvstore.Memory.Pool.Pools.{pools_use, pools_base, ArePools, pools_use-pools_base}

-- What release_small does with an address: it finds no slab there; or it refuses the address; or the
-- address is that of a block in use, which alone is no longer so.
pub data Returns (cs : List SizeClass) (a : ℕ) : Type 0 where
  no_slab : pools_base (region_start a) cs ≡ false → release_small cs a ≡ absent → Returns cs a
  no_block_in_use :
      pools_base (region_start a) cs ≡ true
      → pools_use cs a ≡ false
      → release_small cs a ≡ refused
      → Returns cs a
  returned :
      (back : List SizeClass)
      → pools_use cs a ≡ true
      → release_small cs a ≡ released back
      → ArePools back
      → ((b : ℕ) → pools_base b back ≡ pools_base b cs)
      → ((b : ℕ) → pools_use back b ≡ (not (b == a) && pools_use cs b))
      → Returns cs a

unused :
    (cs : List SizeClass) (a : ℕ)
    → ArePools cs
    → pools_base (region_start a) cs ≡ false
    → pools_use cs a ≡ false
unused cs a v h = ground (arith, h, pools_use-pools_base cs a v)

module _ (c : SizeClass) (cs : List SizeClass) (a : ℕ) (v : AreSlabs c.block_size c.slabs)
    (apart : (b : ℕ) → (has_base b c.slabs && pools_base b cs) ≡ false) (vs : ArePools cs) where
  -- The address's region is not in the first pool.
  further :
      has_base (region_start a) c.slabs ≡ false
      → release_slab c.slabs a ≡ absent
      → Returns cs a
      → Returns (c ∷ cs) a
  unfolding release_small ArePools pools_base pools_use
  further g f (no_slab h e) = no_slab (ground (arith, g, h)) (ground (arith, f, e))
  further g f (no_block_in_use h u e) =
      no_block_in_use (ground (arith, h))
        (ground (arith, u, g, in_use-has_base c.block_size c.slabs a v)) (ground (arith, f, e))
  further g f (returned back u e w same ends) =
      returned (c ∷ back) (ground (arith, u)) (ground (arith, f, e))
        (v, (λ b. ground (arith, apart b, same b)), w) (λ b. ground (arith, same b))
        (λ b. ground (
          arith,
          ends b,
          at_one (in_use c.slabs) a b (ground (arith, g, in_use-has_base c.block_size c.slabs a v)),
        ))

  in_class : Releases c.block_size c.slabs a → Returns cs a → Returns (c ∷ cs) a
  unfolding release_small ArePools pools_base pools_use
  in_class (other_region g f) r = further g f r
  in_class (refuses_it g l f) r =
      no_block_in_use (ground (arith, g))
        (ground (arith, l, unused cs a vs (ground (arith, g, apart (region_start a)))))
        (ground (arith, f))
  in_class (releases slabs u f w same ends) r =
      let g = in_use-has_base c.block_size c.slabs a v u in
      let dead = unused cs a vs (ground (arith, g, apart (region_start a))) in
      returned (record c { slabs = slabs } ∷ cs) (ground (arith, u)) (ground (arith, f))
        (w, (λ b. ground (arith, apart b, same b)), vs) (λ b. ground (arith, same b))
        (λ b. ground (arith, ends b, at_one (pools_use cs) a b dead))

-- release_small on valid pools: it finds no slab exactly if none begins where the address's region does,
-- refuses an address in a slab that is not that of a block in use, one given back already among them, and
-- otherwise ends the use of this block alone and keeps the pools valid.
pub release_small_lem : (cs : List SizeClass) (a : ℕ) → ArePools cs → Returns cs a
unfolding release_small ArePools pools_base
release_small_lem [] a v = no_slab refl refl
release_small_lem (c ∷ cs) a (v, apart, vs) =
    in_class c cs a v apart vs (release_slab_lem c.block_size c.slabs a v)
      (release_small_lem cs a vs)
