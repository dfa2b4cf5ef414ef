-- ===== src/Memory/Slab/Valid.antt =====
-- src/memory/kvs_allocator.c: the invariant of a slab, and which addresses are blocks in use.
use kvstore.Common.{
  ℕ, ◌+◌, ◌-◌, ◌*◌, ◌/◌, ◌%◌, ◌≤◌, ◌<◌, ◌≡◌, ◌≢◌, refl, arith, Bool, true, false, not, ◌&&◌, List,
  [], ◌∷◌, ltb, leb, ◌==◌, if◌then◌else◌, length, get_or, ==_refl, Bool-cases, inl, inr, set,
  get_or-set_ne,
}
use native.Mathlib.Decide.{ℕ_discrete}
use native.Mathlib.Nat.{mul-le-mul_right, mul-div_cancel, mul-mod_left, div-add-mod'}
use kvstore.Memory.Region.{slab_size, region_start}
use kvstore.Memory.Slab.{Slab, slab_head, alignment}

-- How often a number is in a list.
abbrev pub count : ℕ → List ℕ → ℕ
count x [] = 0
count x (y ∷ ys) = (if x == y then 1 else 0) + count x ys

-- Where the block with a number is, for the blocks' first address and their size.
abbrev pub block_at : ℕ → ℕ → ℕ → ℕ
block_at start size number = start + number * size

abbrev pub addresses : ℕ → ℕ → List ℕ → List ℕ
addresses start size [] = []
addresses start size (number ∷ rest) = block_at start size number ∷ addresses start size rest

unfoldable pub marked : ℕ → ℕ → ℕ → List Bool → ℕ → Bool
marked start size capacity bitmap address =
    leb start address
    && (((address - start) % size == 0)
        && (ltb ((address - start) / size) capacity
            && get_or bitmap ((address - start) / size) false))

-- An address is that of a block in use.
unfoldable pub live : Slab → ℕ → Bool
live s address = marked s.data_start s.block_size s.capacity s.bitmap address

-- How often a block is to be on the free list.
abbrev pub vacant : ℕ → List Bool → ℕ → ℕ
vacant capacity bitmap i = if ltb i capacity && not (get_or bitmap i false) then 1 else 0

-- The free list holds the blocks whose bit is clear, each once; the blocks lie in the slab behind its
-- head, and are aligned.
pub record IsSlab (s : Slab) : Type 0 where
  pub numbers : List ℕ
  pub listed : s.free_list ≡ addresses s.data_start s.block_size numbers
  pub counted : (i : ℕ) → count i numbers ≡ vacant s.capacity s.bitmap i
  pub tallied : s.used_count + length numbers ≡ s.capacity
  pub sized : 0 < s.block_size
  pub roomy : s.capacity ≤ length s.bitmap
  pub aligned : s.block_size % alignment ≡ 0
  pub data_aligned : s.data_start % alignment ≡ 0
  pub behind : s.base + slab_head ≤ s.data_start
  pub within : s.data_start + s.capacity * s.block_size ≤ s.base + slab_size
  pub placed : s.base % slab_size ≡ 0

-- A block's number comes back from its address.
pub block_at-number : (start size n : ℕ) → 0 < size → (block_at start size n - start) / size ≡ n
block_at-number start size n h = rw back (mul-div_cancel n h)
  where
    back : block_at start size n - start ≡ n * size
    back = omega arith

pub block_at-rest : (start size n : ℕ) → (block_at start size n - start) % size ≡ 0
block_at-rest start size n = rw back (mul-mod_left n size)
  where
    back : block_at start size n - start ≡ n * size
    back = omega arith

-- An address that passes the tests is that of the block with its number.
pub block_at_back :
    (start size a : ℕ)
    → start ≤ a
    → (a - start) % size ≡ 0
    → block_at start size ((a - start) / size) ≡ a
block_at_back start size a h e = omega (arith, div-add-mod' (a - start) size)

==_ne : (x y : ℕ) → x ≢ y → (x == y) ≡ false
==_ne x y h = ground arith

pub count_self : (x : ℕ) (xs : List ℕ) → count x (x ∷ xs) ≡ 1 + count x xs
count_self x xs = ground (arith, ==_refl x)

pub count_other : (x y : ℕ) (xs : List ℕ) → x ≢ y → count x (y ∷ xs) ≡ count x xs
count_other x y xs h = ground (arith, ==_ne x y h)

-- One block's bit counts for no other address.
pub marked-set :
    (start size capacity n : ℕ) (bits : List Bool) (b : Bool) (a : ℕ)
    → a ≢ block_at start size n
    → marked start size capacity (set bits n b) a ≡ marked start size capacity bits a
unfolding marked
marked-set start size capacity n bits b a h = elim (ℕ_discrete n ((a - start) / size)) [
  | yes same ↦ ground (arith, block_at_back start size a)
  | no other ↦ rw (get_or-set_ne bits n ((a - start) / size) b false other) refl
]

pub marked_at :
    (start size capacity n : ℕ) (bits : List Bool)
    → 0 < size
    → n < capacity
    → marked start size capacity bits (block_at start size n) ≡ get_or bits n false
unfolding marked
marked_at start size capacity n bits h below =
    ground (arith, block_at-number start size n h, block_at-rest start size n)

module _ (s : Slab) (a : ℕ) (v : IsSlab s) (h : live s a ≡ true) where
  abbrev number : ℕ
  number = (a - s.data_start) / s.block_size

  room : (number + 1) * s.block_size ≤ s.capacity * s.block_size
  unfolding live marked
  room = mul-le-mul_right s.block_size (ground (arith, h))

  at : block_at s.data_start s.block_size number ≡ a
  unfolding live marked
  at = block_at_back s.data_start s.block_size a (ground (arith, h)) (ground (arith, h))

  -- A block in use lies whole in its slab behind the head, and is aligned.
  pub live-within : (s.base + slab_head ≤ a) × (a + s.block_size ≤ s.base + slab_size)
  live-within = omega (arith, room, at, v.behind, v.within)

  -- The start of the region of a block is the slab.
  pub live-region_start : region_start a ≡ s.base
  unfolding region_start
  live-region_start = omega (arith, live-within, v.placed, v.sized)

-- Two blocks in use of a slab do not overlap.
pub live-apart :
    (s : Slab) (a b : ℕ)
    → IsSlab s
    → live s a ≡ true
    → live s b ≡ true
    → a < b
    → a + s.block_size ≤ b
live-apart s a b v la lb less = elim (Bool-cases (ltb (number s a v la) (number s b v lb))) [
  | inl below ↦ omega (
    arith,
    at s a v la,
    at s b v lb,
    mul-le-mul_right s.block_size (next_le (number s a v la) (number s b v lb) below),
  )
  | inr above ↦ absurd (
      omega (
        arith,
        less,
        at s a v la,
        at s b v lb,
        mul-le-mul_right s.block_size (back_le (number s a v la) (number s b v lb) above),
      ))
]
  where
    next_le : (n m : ℕ) → ltb n m ≡ true → n + 1 ≤ m
    next_le n m h = ground (arith, h)

    back_le : (n m : ℕ) → ltb n m ≡ false → m ≤ n
    back_le n m h = ground (arith, h)
