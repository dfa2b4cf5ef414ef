-- ===== src/Buffer/Growth.antt =====
-- src/network/buffer.c: growing and consuming.
use kvstore.Common.{
  none-some, some_same, subst, length, ℕ, zero, suc, ◌+◌, ◌-◌, ◌*◌, ◌/◌, ◌^◌, ◌≤◌, ◌<◌, ◌≡◌, ◌⊎◌,
  refl, arith, Bool, true, false, Option, none, some, ltb, leb, ◌==◌, ◌||◌, if◌then◌else◌,
  Bool-cases, inl, inr,
}
use native.Mathlib.Nat.{pow-suc}
use kvstore.Buffer.{
  int_max, buffer_length, growth_loop, ensure_space, OutputBuffer, output_ensure_space,
}

growth_loop_done : (fuel required : ℕ) → growth_loop fuel required required ≡ required
unfolding growth_loop
growth_loop_done zero required = refl
growth_loop_done (suc fuel) required = ground arith

lt_of_test : (a b : ℕ) → ltb a b ≡ true → a < b
lt_of_test a b h = ground arith

-- With fuel for the doubling the loop ends at or above what is required, and never below its start.
growth_loop_lem :
    (fuel required n : ℕ)
    → required ≤ n * 2 ^ fuel
    → required ≤ int_max
    → n ≤ int_max
    → (required ≤ growth_loop fuel required n)
      × (n ≤ growth_loop fuel required n)
      × (growth_loop fuel required n ≤ int_max)
unfolding growth_loop
growth_loop_lem zero required n h top le = omega arith
growth_loop_lem (suc fuel) required n h top le = elim (Bool-cases (ltb n required)) [
  | inr e ↦ rw e (ground arith)
  | inl e ↦ rw e (elim (Bool-cases (ltb (int_max / 2) n)) [
    | inl big ↦
        rw big
          (let e' = growth_loop_done fuel required in omega (arith, e', lt_of_test n required e))
    | inr small ↦ rw small (
        let w : n * 2 ^ suc fuel ≡ n * 2 * 2 ^ fuel = rw (pow-suc 2 fuel) (omega arith) in
        let rest = growth_loop_lem fuel required (n * 2) (omega arith) top (ground arith) in
        omega (arith, rest.0, rest.1, rest.2))
  ])
]

-- What the answer of `ensure_buffer_space` says: where it refuses, one of its four reasons holds, and
-- where it succeeds the new capacity has room and is an `int` no smaller than the old one.
abbrev pub Grown : Bool → ℕ → ℕ → ℕ → Option ℕ → Type 0
Grown fits len capacity minimum_free none =
    ((minimum_free ≡ 0) ⊎ (capacity < len)) ⊎ ((int_max < len + minimum_free) ⊎ (fits ≡ false))
Grown fits len capacity minimum_free (some n) =
    (len + minimum_free ≤ n) × (capacity ≤ n) × (n ≤ int_max)

-- The answer of `ensure_buffer_space` for a capacity and a request that are `int`s: it refuses only a
-- request for nothing, a length above the capacity, a sum above INT_MAX or a failed allocation, and
-- otherwise the requested bytes fit behind the valid ones in a capacity that has not shrunk and is an
-- `int`.
pub ensure_space_lem :
    (fits : Bool) (len capacity minimum_free : ℕ)
    → capacity ≤ int_max
    → minimum_free ≤ int_max
    → Grown fits len capacity minimum_free (ensure_space fits len capacity minimum_free)
unfolding ensure_space
ensure_space_lem fits len capacity minimum_free h int_request =
    elim (Bool-cases (minimum_free == 0 || ltb capacity len)) [
      | inl e ↦ rw e (inl (ground arith))
      | inr e ↦ rw e (elim (Bool-cases (leb minimum_free (capacity - len))) [
        | inl f ↦ rw f (ground arith)
        | inr f ↦ rw f (elim (Bool-cases (ltb (int_max - minimum_free) len)) [
          | inl g ↦ rw g (inr (inl (ground arith)))
          | inr g ↦ rw g (grown fits (ground arith))
        ])
      ])
    ]
  where
    start : ℕ
    start = if ltb 0 capacity then capacity else buffer_length

    start_bounds : (1 ≤ start) × (capacity ≤ start) × (start ≤ int_max)
    start_bounds = ground arith

    grown :
        (b : Bool)
        → len + minimum_free ≤ int_max
        → Grown b len capacity minimum_free
            (if b then some (growth_loop 32 (len + minimum_free) start) else none)
    grown true le =
        let r =
          growth_loop_lem 32 (len + minimum_free) start (omega (arith, start_bounds)) le
            start_bounds.2 in
        (r.0, omega (arith, r.1, start_bounds), r.2)
    grown false le = inr (inr refl)

-- A reply buffer that has grown has its bytes, and no less space than before.
pub output_ensure_space_lem :
    (fits : Bool) (b b' : OutputBuffer) (minimum_free : ℕ)
    → b.capacity ≤ int_max
    → minimum_free ≤ int_max
    → output_ensure_space fits b minimum_free ≡ some b'
    → (b'.bytes ≡ b.bytes) × (b.capacity ≤ b'.capacity) × (b'.capacity ≤ int_max)
unfolding output_ensure_space
output_ensure_space_lem fits b b' minimum_free h top e =
    decide (ensure_space fits (length b.bytes) b.capacity minimum_free) refl
      (ensure_space_lem fits (length b.bytes) b.capacity minimum_free h top)
  where
    decide :
        (n : Option ℕ)
        → ensure_space fits (length b.bytes) b.capacity minimum_free ≡ n
        → Grown fits (length b.bytes) b.capacity minimum_free n
        → (b'.bytes ≡ b.bytes) × (b.capacity ≤ b'.capacity) × (b'.capacity ≤ int_max)
    decide none f g = absurd (ground (arith, f, e))
    decide (some n) f g = elim (Bool-cases (ltb (length b.bytes) b.offset)) [
      | inl l ↦ absurd (none-some (rw (l, output_ensure_space) at e))
      | inr l ↦
          let same : record b { capacity = n } ≡ b' =
            some_same (rw (l, output_ensure_space, f) at e) in
          subst (λ x. (x.bytes ≡ b.bytes) × (b.capacity ≤ x.capacity) × (x.capacity ≤ int_max)) same
            (refl, g.1, g.2)
    ]
