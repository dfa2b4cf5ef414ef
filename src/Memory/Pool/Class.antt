-- ===== src/Memory/Pool/Class.antt =====
-- src/memory/kvs_allocator.c: the slabs of one pool.
use kvstore.Common.{
  ℕ, ◌+◌, ◌≤◌, ◌<◌, ◌≡◌, refl, sym, ap, subst, ◌∙◌, arith, Bool, true, false, ◌&&◌, ◌||◌, List, [],
  ◌∷◌, none, some, ◌==◌, Bool-cases, Option-cases, List-cases, ◌⊎◌, inl, inr,
}
use native.Mathlib.Decide.{ℕ_discrete}
use kvstore.Protocol.{size_max}
use kvstore.Memory.Region.{slab_size, region_start, System}
use kvstore.Memory.Slab.{Slab, slab_create, slab_alloc_block}
use kvstore.Memory.Slab.Valid.{live, IsSlab, live-region_start}
use kvstore.Memory.Slab.Give.{full, gives, slab_alloc_block_lem}
use kvstore.Memory.Slab.Made.{slab_create_lem}
use kvstore.Memory.Pool.{SizeClass, take_free, class_alloc}

-- A block in use of one of the slabs.
unfoldable pub in_use : List Slab → ℕ → Bool
in_use [] a = false
in_use (s ∷ rest) a = live s a || in_use rest a

unfoldable pub has_base : ℕ → List Slab → Bool
has_base b [] = false
has_base b (s ∷ rest) = (s.base == b) || has_base b rest

-- Valid slabs of one block size in different regions.
unfoldable pub AreSlabs : ℕ → List Slab → Type 0
AreSlabs size [] = Unit {0}
AreSlabs size (s ∷ rest) =
    IsSlab s × (s.block_size ≡ size) × (has_base s.base rest ≡ false) × AreSlabs size rest

pub false-true : (false ≡ true) → ⊥
false-true h = cc

pub in_use-has_base :
    (size : ℕ) (slabs : List Slab) (a : ℕ)
    → AreSlabs size slabs
    → in_use slabs a ≡ true
    → has_base (region_start a) slabs ≡ true
unfolding in_use has_base AreSlabs
in_use-has_base size [] a v h = absurd (false-true h)
in_use-has_base size (s ∷ rest) a (v, e, apart, vs) h = elim (Bool-cases (live s a)) [
  | inl l ↦ ground (arith, live-region_start s a v l)
  | inr l ↦ ground (arith, in_use-has_base size rest a vs, h, l)
]

-- No address is that of a block in use of two slabs of a pool.
pub elsewhere :
    (size : ℕ) (s : Slab) (slabs : List Slab) (a : ℕ)
    → IsSlab s
    → has_base s.base slabs ≡ false
    → AreSlabs size slabs
    → (live s a && in_use slabs a) ≡ false
elsewhere size s slabs a v apart vs = elim (Bool-cases (live s a)) [
  | inr l ↦ ground (arith, l)
  | inl l ↦ elim (Bool-cases (in_use slabs a)) [
    | inr u ↦ ground (arith, l, u)
    | inl u ↦ absurd (
        false-true (
          sym apart
          ∙ subst (λ b. has_base b slabs ≡ true) (live-region_start s a v l)
              (in_use-has_base size slabs a vs u)))
  ]
]

-- What take_free does on valid slabs: nothing where all are full, else it gives a block that none of them
-- had in use, and no slab comes or goes.
pub data Taken (size : ℕ) (slabs : List Slab) : Type 0 where
  all_full : take_free slabs ≡ none → Taken size slabs
  taken :
      (others : List Slab) (block : ℕ)
      → take_free slabs ≡ some (others, block)
      → AreSlabs size others
      → ((b : ℕ) → has_base b others ≡ has_base b slabs)
      → in_use slabs block ≡ false
      → ((a : ℕ) → in_use others a ≡ ((a == block) || in_use slabs a))
      → Taken size slabs

nonempty_gives :
    (s : Slab) (x : ℕ) (xs : List ℕ) → s.free_list ≡ x ∷ xs → slab_alloc_block s ≡ none → ⊥
unfolding slab_alloc_block
nonempty_gives s x xs e f = ground (arith, e, f)

take_free_lem : (size : ℕ) (slabs : List Slab) → AreSlabs size slabs → Taken size slabs
unfolding take_free AreSlabs in_use has_base
take_free_lem size [] v = all_full refl
take_free_lem size (s ∷ rest) (v, e, apart, vs) = elim (List-cases s.free_list) [
  | inl none_free ↦ elim (take_free_lem size rest vs) [
    | all_full f ↦ all_full (ground (arith, none_free, f))
    | taken others block f w same fresh change ↦
        taken (s ∷ others) block (ground (arith, none_free, f)) (v, e, same s.base ∙ apart, w)
          (λ b. ground (arith, same b))
          (ground
            (arith, fresh, change block, elsewhere size s others block v (same s.base ∙ apart) w))
          (λ a. ground (arith, change a))
  ]
  | inr (x, xs, some_free) ↦ elim (slab_alloc_block_lem s v) [
    | full f used ↦ absurd (nonempty_gives s x xs some_free f)
    | gives t block f (same_base, same_size) w fresh change ↦
        taken (t ∷ rest) block (ground (arith, some_free, f))
          (w, same_size ∙ e, ap (λ b. has_base b rest) same_base ∙ apart, vs)
          (λ b. ap (λ c. (c == b) || has_base b rest) same_base)
          (ground (
            arith,
            fresh,
            change block,
            elsewhere size t rest block w (ap (λ b. has_base b rest) same_base ∙ apart) vs,
          ))
          (λ a. ground (arith, change a))
  ]
]

-- The `extent` bytes from an address do not overlap the slabs.
unfoldable pub IsOutside : ℕ → ℕ → List Slab → Type 0
IsOutside raw extent [] = Unit {0}
IsOutside raw extent (s ∷ rest) =
    ((s.base + slab_size ≤ raw) ⊎ (raw + extent ≤ s.base)) × IsOutside raw extent rest

-- A region begins in those bytes.
abbrev pub BeginsIn : ℕ → ℕ → ℕ → Type 0
BeginsIn raw extent base = (raw ≤ base) × (base < raw + extent)

pub outside-has_base :
    (raw extent base : ℕ) (slabs : List Slab)
    → BeginsIn raw extent base
    → IsOutside raw extent slabs
    → has_base base slabs ≡ false
unfolding IsOutside has_base
outside-has_base raw extent base [] begins new = refl
outside-has_base raw extent base (s ∷ rest) begins (new, news) =
    ground (arith, begins, new, outside-has_base raw extent base rest begins news)

-- What class_alloc does with a pool of valid slabs: nothing where no slab has a free block and no new one
-- can be had; otherwise the slabs of the pool afterwards are valid, and the block given was in use by no
-- slab and is the only one whose use has changed.
pub data Allocates (sys : System) (c : SizeClass) (raw : ℕ) : Type 0 where
  nothing : class_alloc sys c ≡ none → slab_create sys c.block_size ≡ none → Allocates sys c raw
  allocates :
      (d : SizeClass) (block : ℕ)
      → class_alloc sys c ≡ some (d, block)
      → d.block_size ≡ c.block_size
      → AreSlabs c.block_size d.slabs
      → ((b : ℕ)
          → has_base b d.slabs ≡ true
          → (has_base b c.slabs ≡ true) ⊎ BeginsIn raw (slab_size + slab_size) b)
      → in_use c.slabs block ≡ false
      → ((a : ℕ) → in_use d.slabs a ≡ ((a == block) || in_use c.slabs a))
      → Allocates sys c raw

module _ (sys : System) (c : SizeClass) (raw : ℕ) (v : AreSlabs c.block_size c.slabs)
    (m : sys.mapping ≡ some raw) (inside : raw + (slab_size + slab_size) ≤ size_max)
    (new : IsOutside raw (slab_size + slab_size) c.slabs) where
  new_or_old :
      (base b : ℕ) (slabs : List Slab)
      → ((base == b) || has_base b slabs) ≡ true
      → BeginsIn raw (slab_size + slab_size) base
      → (has_base b slabs ≡ true) ⊎ BeginsIn raw (slab_size + slab_size) b
  new_or_old base b slabs h begins = elim (ℕ_discrete base b) [
    | yes e ↦ inr (subst (BeginsIn raw (slab_size + slab_size)) e begins)
    | no other ↦ inl (ground (arith, h, other))
  ]

  -- The allocation from a new slab.
  create :
      (s : Slab)
      → take_free c.slabs ≡ none
      → slab_create sys c.block_size ≡ some s
      → Allocates sys c raw
  unfolding class_alloc AreSlabs in_use has_base
  create s e f =
      let (from, upto, w, blocks, size, used, dead) =
        slab_create_lem sys c.block_size raw s m inside f in
      let begins : BeginsIn raw (slab_size + slab_size) s.base = (from, omega (arith, upto)) in
      let apart = outside-has_base raw (slab_size + slab_size) s.base c.slabs begins new in
      elim (slab_alloc_block_lem s w) [
        | full g h ↦ absurd (omega (arith, h, used, blocks))
        | gives t block g (same_base, same_size) x fresh change ↦
            allocates (record c { slabs = t ∷ c.slabs }) block (ground (arith, e, f, g)) refl
              (x, same_size ∙ size, ap (λ b. has_base b c.slabs) same_base ∙ apart, v)
              (λ b h.
                new_or_old t.base b c.slabs h
                  (subst (BeginsIn raw (slab_size + slab_size)) (sym same_base) begins))
              (ground (
                arith,
                change block,
                elsewhere c.block_size t c.slabs block x
                    (ap (λ b. has_base b c.slabs) same_base ∙ apart) v,
              ))
              (λ a. ground (arith, change a, dead a))
      ]

  pub class_alloc_lem : Allocates sys c raw
  unfolding class_alloc
  class_alloc_lem = elim (take_free_lem c.block_size c.slabs v) [
    | taken others block f w same fresh change ↦
        allocates (record c { slabs = others }) block (ground (arith, f)) refl w
          (λ b h. inl (sym (same b) ∙ h)) fresh change
    | all_full f ↦ elim (Option-cases (slab_create sys c.block_size)) [
      | inl g ↦ nothing (ground (arith, f, g)) g
      | inr (s, g) ↦ create s f g
    ]
  ]
