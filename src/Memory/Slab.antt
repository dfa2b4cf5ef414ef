-- ===== src/Memory/Slab.antt =====
-- src/memory/kvs_allocator.c: slabs, and the blocks in them.
-- The free list is the list of the addresses in it, and the bitmap that of its bits: bit `i % 8` of
-- byte `i / 8` is number `i`.
pub mod Valid
pub mod Made
pub mod Give
pub mod Take
use kvstore.Common.{
  ℕ, zero, suc, ◌+◌, ◌-◌, ◌*◌, ◌/◌, ◌%◌, Bool, true, false, not, ◌&&◌, ◌||◌, List, [], ◌∷◌, Option,
  none, some, ltb, leb, ◌==◌, if◌then◌else◌, length, get_or, set, replicate,
}
use kvstore.Memory.Region.{slab_size, System, region_memory_alloc}

pub record Slab : Type 0 where
  pub base : ℕ
  pub block_size : ℕ
  pub capacity : ℕ
  pub used_count : ℕ
  pub free_list : List ℕ
  pub bitmap : List Bool
  pub data_start : ℕ

-- sizeof(kvs_slab_t), sizeof(kvs_free_block_t) and _Alignof(max_align_t)
abbrev pub slab_head : ℕ
slab_head = 64

abbrev pub free_block_size : ℕ
free_block_size = 8

abbrev pub alignment : ℕ
alignment = 16

-- The block size of the last pool.
abbrev pub max_block_size : ℕ
max_block_size = 4096

-- The bytes of the bitmap for the most blocks that a slab could have.
unfoldable pub bitmap_bytes : ℕ → ℕ
bitmap_bytes block_size =
    let upper_count = (slab_size - slab_head) / block_size in
    upper_count / 8 + (if upper_count % 8 == 0 then 0 else 1)

-- Where the blocks begin.
unfoldable pub data_offset : ℕ → ℕ
data_offset block_size =
    (slab_head + bitmap_bytes block_size + alignment - 1) / alignment * alignment

-- The loop that puts block after block at the head of the list, from number `i` on.
unfoldable pub free_loop : ℕ → ℕ → ℕ → ℕ → List ℕ → List ℕ
free_loop zero i start block_size list = list
free_loop (suc n) i start block_size list =
    free_loop n (i + 1) start block_size ((start + i * block_size) ∷ list)

unfoldable pub slab_at : ℕ → ℕ → Slab
slab_at base block_size =
    let offset = data_offset block_size in
    let capacity = (slab_size - offset) / block_size in
    record {
      base = base;
      block_size = block_size;
      capacity = capacity;
      used_count = 0;
      free_list = free_loop capacity 0 (base + offset) block_size [];
      bitmap = replicate (8 * bitmap_bytes block_size) false;
      data_start = base + offset;
    }

unfoldable pub slab_create : System → ℕ → Option Slab
slab_create sys block_size =
    let offset = data_offset block_size in
    if ltb block_size free_block_size
      || (not (block_size % alignment == 0) || ltb max_block_size block_size)
    then none
    else if leb slab_size offset || (slab_size - offset) / block_size == 0
    then none
    else elim (region_memory_alloc sys slab_size) [
      | none ↦ none
      | some base ↦ some (slab_at base block_size)
    ]

-- The slab, and the block that it gives.
unfoldable pub slab_alloc_block : Slab → Option (Slab × ℕ)
slab_alloc_block s = elim s.free_list [
  | [] ↦ none
  | block ∷ rest ↦
      let index = (block - s.data_start) / s.block_size in
      some (
        record s {
          free_list = rest;
          bitmap = set s.bitmap index true;
          used_count = s.used_count + 1;
        },
        block,
      )
]

-- pool_free_small of an address that is not null, on the slab at the start of its region; `none` is the
-- return code -1.
unfoldable pub pool_free_small : Slab → ℕ → Option Slab
pool_free_small s address =
    let offset = address - s.data_start in
    let index = offset / s.block_size in
    if ltb address s.data_start
    then none
    else if not (offset % s.block_size == 0) || leb s.capacity index
    then none
    else if not (get_or s.bitmap index false) || s.used_count == 0
    then none
    else some (record s {
      bitmap = set s.bitmap index false;
      free_list = address ∷ s.free_list;
      used_count = s.used_count - 1;
    })
