-- ===== src/Memory/Pool/LargeRegion.antt =====
-- src/memory/kvs_allocator.c: a large region.
use kvstore.Common.{
  ℕ, ◌+◌, ◌-◌, ◌%◌, ◌≤◌, ◌<◌, ◌≡◌, refl, subst, arith, ◌∷◌, some, ◌==◌, if◌then◌else◌, some_same,
  Option-cases, inl, inr,
}
use kvstore.Protocol.{size_max}
use kvstore.Memory.Region.{
  slab_size, region_start, System, region_memory_alloc, region_memory_alloc_lem,
}
use kvstore.Memory.Slab.{alignment}
use kvstore.Memory.Pool.{Allocator, Large, large_offset, pool_alloc_large}

-- The bytes of the mapping for a large block: whole pages, more than the block's own.
abbrev pub padded : ℕ → ℕ → ℕ
padded page_size total =
    total + (if total % page_size == 0 then 0 else page_size - total % page_size)

-- A region put in front of the large ones for a block of a size.
pub record IsPlaced (raw size : ℕ) (m n : Allocator) (address : ℕ) : Type 0 where
  pub region : Large
  pub listed : record m { large_regions = region ∷ m.large_regions } ≡ n
  pub from : raw ≤ region.start
  pub upto : region.start + region.mapping_size ≤ raw + (region.mapping_size + slab_size)
  pub placed : region_start address ≡ region.start
  pub fits : address + size ≤ region.start + region.mapping_size
  pub behind : region.start < address
  pub aligned : address % alignment ≡ 0

-- The allocator with a new region, and the block in it.
abbrev with_region : System → Allocator → ℕ → ℕ → Allocator × ℕ
with_region sys m size start = (
  record m {
    large_regions =
        record { start = start; mapping_size = padded sys.page_size (large_offset + size) }
        ∷ m.large_regions;
  },
  start + large_offset,
)

made :
    (sys : System) (m n : Allocator) (size address : ℕ)
    → pool_alloc_large sys m size ≡ some (n, address)
    → (start : ℕ) × (region_memory_alloc sys (padded sys.page_size (large_offset + size))
        ≡ some start)
      × (with_region sys m size start ≡ (n, address))
unfolding pool_alloc_large
made sys m n size address h =
    elim (Option-cases (region_memory_alloc sys (padded sys.page_size (large_offset + size)))) [
      | inl e ↦ absurd (ground (arith, e, h))
      | inr (start, e) ↦ (start, e, some_same (ground (arith, e, h)))
    ]

with_region-IsPlaced :
    (sys : System) (m : Allocator) (size raw start : ℕ)
    → sys.mapping ≡ some raw
    → raw + (padded sys.page_size (large_offset + size) + slab_size) ≤ size_max
    → region_memory_alloc sys (padded sys.page_size (large_offset + size)) ≡ some start
    → IsPlaced raw size m (with_region sys m size start).0 (start + large_offset)
unfolding region_start
with_region-IsPlaced sys m size raw start e inside h =
    let (above, below, aligned) =
      region_memory_alloc_lem sys (padded sys.page_size (large_offset + size)) raw start e inside
        h in
    record {
      region = record { start = start; mapping_size = padded sys.page_size (large_offset + size) };
      listed = refl;
      from = above;
      upto = below;
      placed = omega (arith, aligned);
      fits = omega arith;
      behind = omega arith;
      aligned = omega (arith, aligned);
    }

-- pool_alloc_large, where the mapping does not reach behind the last address: the block lies whole in a
-- region of its own, cut from the mapping and put in front of the list, is aligned, and the region is
-- found from its address.
pub pool_alloc_large_lem :
    (sys : System) (m n : Allocator) (size raw address : ℕ)
    → sys.mapping ≡ some raw
    → raw + (padded sys.page_size (large_offset + size) + slab_size) ≤ size_max
    → pool_alloc_large sys m size ≡ some (n, address)
    → IsPlaced raw size m n address
pool_alloc_large_lem sys m n size raw address e inside h =
    let (start, f, same) = made sys m n size address h in
    subst (λ p. IsPlaced raw size m p.0 p.1) same
      (with_region-IsPlaced sys m size raw start e inside f)
