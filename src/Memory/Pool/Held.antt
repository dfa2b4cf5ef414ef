-- ===== src/Memory/Pool/Held.antt =====
-- src/memory/kvs_allocator.c: the blocks that the other parts hold, after any allocations and releases.
use kvstore.Common.{
  All, sym, ◌∙◌, if◌then◌else◌, ℕ, ◌+◌, ◌≤◌, ◌≡◌, refl, subst, arith, false, ◌==◌, List, [], ◌∷◌,
  some, none-some, some_same, Bool-cases, ◌⊎◌, inl, inr,
}
use kvstore.Protocol.{size_max}
use kvstore.Memory.Region.{slab_size, System}
use kvstore.Memory.Pool.{SizeClass, empty_pools, alloc_in_pools, released, release_small}
use kvstore.Memory.Pool.Class.{AreSlabs, has_base}
use kvstore.Memory.Pool.Back.{other_region, refuses_it, releases, release_slab_lem}
use kvstore.Memory.Pool.Pools.{ArePools, IsClear, alloc_in_pools-ArePools}
use kvstore.Memory.Pool.Returns.{no_slab, no_block_in_use, returned, release_small_lem}
use kvstore.Memory.Pool.Served.{HasBlock, serves_none, serves_apart, alloc_in_pools-apart}

-- The blocks held, with the sizes asked for, without one that begins at the address.
unfoldable pub without : ℕ → List (ℕ × ℕ) → List (ℕ × ℕ)
without a [] = []
without a ((b, n) ∷ held) = let rest = without a held in if b == a then rest else (b, n) ∷ rest

-- Allocations and releases from the empty pools on, in any order. Any address may be released; a release
-- that is refused changes nothing. Every mapping is a new one, and ends before the last address.
pub data Runs : List SizeClass → List (ℕ × ℕ) → Type 0 where
  starts : (sizes : List ℕ) → Runs (empty_pools sizes) []
  allocates_one :
      (sys : System) (raw size block : ℕ) (cs ds : List SizeClass) (held : List (ℕ × ℕ))
      → Runs cs held
      → sys.mapping ≡ some raw
      → raw + (slab_size + slab_size) ≤ size_max
      → IsClear raw (slab_size + slab_size) cs
      → alloc_in_pools sys cs size ≡ some (ds, block)
      → Runs ds ((block, size) ∷ held)
  releases_one :
      (address : ℕ) (cs ds : List SizeClass) (held : List (ℕ × ℕ))
      → Runs cs held
      → release_small cs address ≡ released ds
      → Runs ds (without address held)

-- The block is in use and as large as asked for at least.
abbrev pub Owns : List SizeClass → ℕ × ℕ → Type 0
Owns cs (a, n) = (bytes : ℕ) × HasBlock cs a bytes × (n ≤ bytes)

abbrev pub IsApart : ℕ × ℕ → ℕ × ℕ → Type 0
IsApart (a, n) (b, m) = (a + n ≤ b) ⊎ (b + m ≤ a)

-- No two of the blocks overlap.
abbrev pub AreApart : List (ℕ × ℕ) → Type 0
AreApart [] = Unit {0}
AreApart (p ∷ held) = All (IsApart p) held × AreApart held

-- A release keeps all other blocks.
HasBlock-kept :
    (cs ds : List SizeClass) (a b n : ℕ)
    → ArePools cs
    → release_small cs a ≡ released ds
    → (b == a) ≡ false
    → HasBlock cs b n
    → HasBlock ds b n
unfolding release_small ArePools HasBlock
HasBlock-kept [] ds a b n v h other k = absurd k
HasBlock-kept (c ∷ cs) ds a b n (v, apart, vs) h other k =
    elim (release_slab_lem c.block_size c.slabs a v) [
      | refuses_it g l f ↦ absurd (ground (arith, f, h))
      | releases slabs u f w same ends ↦
          let is_ds : ◌≡◌ {A = List SizeClass} (record c { slabs = slabs } ∷ cs) ds =
            ground (arith, f, h) in
          subst (λ x. HasBlock x b n) is_ds
            (elim k [
              | inl (e, used) ↦ inl (e, ground (arith, ends b, other, used))
              | inr rest ↦ inr rest
            ])
      | other_region g f ↦ elim (release_small_lem cs a vs) [
        | no_slab l e ↦ absurd (ground (arith, f, e, h))
        | no_block_in_use l u e ↦ absurd (ground (arith, f, e, h))
        | returned back u e w same ends ↦
            let is_ds : ◌≡◌ {A = List SizeClass} (c ∷ back) ds = ground (arith, f, e, h) in
            subst (λ x. HasBlock x b n) is_ds
              (elim k [
                | inl here ↦ inl here
                | inr rest ↦ inr (HasBlock-kept cs back a b n vs e other rest)
              ])
      ]
    ]

without-Owns :
    (cs ds : List SizeClass) (a : ℕ) (held : List (ℕ × ℕ))
    → ArePools cs
    → release_small cs a ≡ released ds
    → All (Owns cs) held
    → All (Owns ds) (without a held)
unfolding without
without-Owns cs ds a [] v h owned = tt
without-Owns cs ds a ((b, n) ∷ held) v h ((bytes, k, fits), owned) =
    let rest = without-Owns cs ds a held v h owned in
    elim (Bool-cases (b == a)) [
      | inl e ↦ rw (e, without) rest
      | inr e ↦ rw (e, without) ((bytes, HasBlock-kept cs ds a b bytes v h e k, fits), rest)
    ]

without-All :
    (P : ℕ × ℕ → Type 0) (a : ℕ) (held : List (ℕ × ℕ)) → All P held → All P (without a held)
unfolding without
without-All P a [] h = tt
without-All P a ((b, n) ∷ held) (p, ps) = elim (Bool-cases (b == a)) [
  | inl e ↦ rw (e, without) (without-All P a held ps)
  | inr e ↦ rw (e, without) (p, without-All P a held ps)
]

without-AreApart : (a : ℕ) (held : List (ℕ × ℕ)) → AreApart held → AreApart (without a held)
unfolding without
without-AreApart a [] h = tt
without-AreApart a ((b, n) ∷ held) (p, ps) = elim (Bool-cases (b == a)) [
  | inl e ↦ rw (e, without) (without-AreApart a held ps)
  | inr e ↦ rw (e, without) (without-All (IsApart (b, n)) a held p, without-AreApart a held ps)
]

-- A new block beside those held.
module _ (cs ds : List SizeClass) (block size bytes : ℕ) (enough : size ≤ bytes)
    (beside : (a n : ℕ)
      → HasBlock cs a n
      → HasBlock ds a n × ((a + n ≤ block) ⊎ (block + bytes ≤ a))) where
  held-Owns : (held : List (ℕ × ℕ)) → All (Owns cs) held → All (Owns ds) held
  held-Owns [] h = tt
  held-Owns ((a, n) ∷ held) ((k, has, fits), rest) =
      ((k, (beside a k has).0, fits), held-Owns held rest)

  one-IsApart :
      (a n k : ℕ) → n ≤ k → (a + k ≤ block) ⊎ (block + bytes ≤ a) → IsApart (block, size) (a, n)
  one-IsApart a n k fits (inl left) = inr (omega (arith, fits, left))
  one-IsApart a n k fits (inr right) = inl (omega (arith, enough, right))

  held-IsApart : (held : List (ℕ × ℕ)) → All (Owns cs) held → All (IsApart (block, size)) held
  held-IsApart [] h = tt
  held-IsApart ((a, n) ∷ held) ((k, has, fits), rest) =
      (one-IsApart a n k fits (beside a k has).1, held-IsApart held rest)

-- The pools are valid, and what is held is in use and apart.
record Holds (cs : List SizeClass) (held : List (ℕ × ℕ)) : Type 0 where
  sound : ArePools cs
  owned : All (Owns cs) held
  apart : AreApart held

empty_pools-ArePools : (sizes : List ℕ) → ArePools (empty_pools sizes)
unfolding empty_pools ArePools AreSlabs has_base
empty_pools-ArePools [] = tt
empty_pools-ArePools (size ∷ sizes) = (tt, (λ b. refl), empty_pools-ArePools sizes)

empty-Holds : (sizes : List ℕ) → Holds (empty_pools sizes) []
empty-Holds sizes = record { sound = empty_pools-ArePools sizes; owned = tt; apart = tt }

alloc-Holds :
    (sys : System) (raw size block : ℕ) (cs ds : List SizeClass) (held : List (ℕ × ℕ))
    → Holds cs held
    → sys.mapping ≡ some raw
    → raw + (slab_size + slab_size) ≤ size_max
    → IsClear raw (slab_size + slab_size) cs
    → alloc_in_pools sys cs size ≡ some (ds, block)
    → Holds ds ((block, size) ∷ held)
alloc-Holds sys raw size block cs ds held h m inside clear run =
    elim (alloc_in_pools-apart sys size raw m inside cs h.sound clear) [
      | serves_none f ↦ absurd (none-some (sym f ∙ run))
      | serves_apart ds1 block1 bytes f enough given beside ↦
          subst (λ p. Holds p.0 ((p.1, size) ∷ held)) (some_same (sym f ∙ run))
            (record {
              sound = alloc_in_pools-ArePools sys size raw m inside cs ds1 block1 h.sound clear f;
              owned = (
                (bytes, given, enough),
                held-Owns cs ds1 block1 size bytes enough beside held h.owned,
              );
              apart = (held-IsApart cs ds1 block1 size bytes enough beside held h.owned, h.apart);
            })
    ]

release-Holds :
    (a : ℕ) (cs ds : List SizeClass) (held : List (ℕ × ℕ))
    → Holds cs held
    → release_small cs a ≡ released ds
    → Holds ds (without a held)
release-Holds a cs ds held h run = record {
  sound = valid;
  owned = without-Owns cs ds a held h.sound run h.owned;
  apart = without-AreApart a held h.apart;
}
  where
    valid : ArePools ds
    valid = elim (release_small_lem cs a h.sound) [
      | no_slab l e ↦ absurd (ground (arith, e, run))
      | no_block_in_use l u e ↦ absurd (ground (arith, e, run))
      | returned back u e w same ends ↦ subst ArePools (ground (arith, e, run)) w
    ]

Runs-Holds : {cs : List SizeClass} {held : List (ℕ × ℕ)} → Runs cs held → Holds cs held
Runs-Holds (starts sizes) = empty-Holds sizes
Runs-Holds (allocates_one sys raw size block cs ds held before m inside clear run) =
    alloc-Holds sys raw size block cs ds held (Runs-Holds before) m inside clear run
Runs-Holds (releases_one a cs ds held before run) =
    release-Holds a cs ds held (Runs-Holds before) run

-- After any sequence of calls of alloc_in_pools and release_small, from empty pools of any block sizes on,
-- where each mapping is clear of the slabs there are and ends before the last address: every block that has
-- been given and not been released since is still in use, as large as was asked for at least, and no two
-- of them overlap.
pub Runs-AreApart :
    {cs : List SizeClass} {held : List (ℕ × ℕ)} → Runs cs held → All (Owns cs) held × AreApart held
Runs-AreApart run = let h = Runs-Holds run in (h.owned, h.apart)
