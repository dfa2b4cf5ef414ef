-- ===== src/Memory/Region.antt =====
-- src/memory/kvs_allocator.c: aligned regions from mmap.
use kvstore.Common.{
  ℕ, ◌+◌, ◌-◌, ◌*◌, ◌/◌, ◌%◌, ◌^◌, ◌≤◌, ◌≡◌, arith, Bool, not, ◌&&◌, ◌||◌, Option, none, some, ltb,
  ◌==◌, if◌then◌else◌,
}
use kvstore.Protocol.{size_max}

-- KVS_SLAB_SIZE
abbrev pub slab_size : ℕ
slab_size = 64 * 1024

-- What the system answers to one request: the page size, 0 for an error; the address of the mapping;
-- whether the parts in front of the region and behind it could be given back.
pub record System : Type 0 where
  pub page_size : ℕ
  pub mapping : Option ℕ
  pub cut_front : Bool
  pub cut_back : Bool

-- The largest multiple of the slab size that is not above the address.
unfoldable pub region_start : ℕ → ℕ
region_start address = address / slab_size * slab_size

-- The region inside the mapping at `raw`; a mapping that cannot be cut is given back whole.
unfoldable pub cut_mapping : System → ℕ → ℕ → Option ℕ
cut_mapping sys mapping_size raw =
    let aligned = region_start ((raw + slab_size - 1) % 2 ^ 64) in
    let prefix = aligned - raw in
    let suffix = mapping_size + slab_size - prefix - mapping_size in
    if not (prefix == 0) && not sys.cut_front
    then none
    else if not (suffix == 0) && not sys.cut_back
    then none
    else some aligned

unfoldable pub region_memory_alloc : System → ℕ → Option ℕ
region_memory_alloc sys mapping_size =
    if (sys.page_size == 0 || not (slab_size % sys.page_size == 0))
      || (mapping_size == 0 || not (mapping_size % sys.page_size == 0))
    then none
    else if ltb (size_max - slab_size) mapping_size
    then none
    else elim sys.mapping [ none ↦ none | some raw ↦ cut_mapping sys mapping_size raw ]

-- A region lies whole in the mapping that it is cut from, if that does not reach behind the last
-- address, and starts at a multiple of the slab size.
pub region_memory_alloc_lem :
    (sys : System) (mapping_size raw start : ℕ)
    → sys.mapping ≡ some raw
    → raw + (mapping_size + slab_size) ≤ size_max
    → region_memory_alloc sys mapping_size ≡ some start
    → (raw ≤ start)
      × (start + mapping_size ≤ raw + (mapping_size + slab_size))
      × (start % slab_size ≡ 0)
unfolding region_memory_alloc cut_mapping region_start
region_memory_alloc_lem sys mapping_size raw start m inside h = ground (arith, m)
