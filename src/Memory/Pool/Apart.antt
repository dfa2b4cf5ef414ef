-- ===== src/Memory/Pool/Apart.antt =====
-- src/memory/kvs_allocator.c: where the blocks of the pools lie.
use kvstore.Common.{
  ℕ, ◌+◌, ◌%◌, ◌≤◌, ◌<◌, ◌≡◌, sym, ap, subst, ◌∙◌, arith, true, false, ◌==◌, List, [], ◌∷◌,
  Bool-cases, inl, inr,
}
use native.Mathlib.Decide.{ℕ_discrete}
use kvstore.Memory.Region.{slab_size, region_start}
use kvstore.Memory.Slab.{Slab, slab_head}
use kvstore.Memory.Slab.Valid.{live, live-within, live-region_start, live-apart}
use kvstore.Memory.Pool.Class.{in_use, has_base, AreSlabs, in_use-has_base, false-true}

-- A block in use lies in the region of its slab, behind the head of the slab.
pub in_use-within :
    (size : ℕ) (slabs : List Slab) (a : ℕ)
    → AreSlabs size slabs
    → in_use slabs a ≡ true
    → (region_start a + slab_head ≤ a) × (a + size ≤ region_start a + slab_size)
unfolding in_use AreSlabs
in_use-within size [] a v h = absurd (false-true h)
in_use-within size (s ∷ rest) a (v, e, apart, vs) h = elim (Bool-cases (live s a)) [
  | inl l ↦ ground (arith, live-within s a v l, live-region_start s a v l, e)
  | inr l ↦ in_use-within size rest a vs (ground (arith, h, l))
]

region_start-aligned : (a : ℕ) → region_start a % slab_size ≡ 0
unfolding region_start
region_start-aligned a = omega arith

-- Blocks in different regions.
pub regions_apart :
    (size a b : ℕ)
    → a + size ≤ region_start a + slab_size
    → (region_start a == region_start b) ≡ false
    → a < b
    → a + size ≤ b
unfolding region_start
regions_apart size a b fits other less = ground (arith, fits, other, less)

other_base :
    (x y : ℕ) (slabs : List Slab)
    → has_base x slabs ≡ false
    → has_base y slabs ≡ true
    → ((x == y) ≡ false) × ((y == x) ≡ false)
other_base x y slabs none_there some_there = elim (ℕ_discrete x y) [
  | yes same ↦
      absurd
        (false-true (sym none_there ∙ subst (λ z. has_base z slabs ≡ true) (sym same) some_there))
  | no other ↦ (ground (arith, other), ground (arith, other))
]

-- Blocks in use of one pool.
pub in_use-apart :
    (size : ℕ) (slabs : List Slab) (a b : ℕ)
    → AreSlabs size slabs
    → in_use slabs a ≡ true
    → in_use slabs b ≡ true
    → a < b
    → a + size ≤ b
unfolding in_use AreSlabs has_base
in_use-apart size [] a b v ua ub less = absurd (false-true ua)
in_use-apart size (s ∷ rest) a b (v, e, apart, vs) ua ub less =
    let fits = (in_use-within size (s ∷ rest) a (v, e, apart, vs) ua).1 in
    elim (Bool-cases (live s a)) [
      | inl la ↦ elim (Bool-cases (live s b)) [
        | inl lb ↦ subst (λ n. a + n ≤ b) e (live-apart s a b v la lb less)
        | inr lb ↦
            regions_apart size a b fits
              (ap (λ x. x == region_start b) (live-region_start s a v la)
                ∙ (other_base s.base (region_start b) rest apart
                    (in_use-has_base size rest b vs (ground (arith, ub, lb)))).0)
              less
      ]
      | inr la ↦ elim (Bool-cases (live s b)) [
        | inl lb ↦
            regions_apart size a b fits
              (ap (λ x. region_start a == x) (live-region_start s b v lb)
                ∙ (other_base s.base (region_start a) rest apart
                    (in_use-has_base size rest a vs (ground (arith, ua, la)))).1)
              less
        | inr lb ↦
            in_use-apart size rest a b vs (ground (arith, ua, la)) (ground (arith, ub, lb)) less
      ]
    ]
