-- ===== src/Numeric/Rounding.antt =====
-- How far `round` of utils/numeric.py is from the number that it is given.
use shalotrack_gateway.Shared.{
  ℕ, ◌+◌, ◌*◌, ◌/◌, ◌%◌, ◌≤◌, ◌<◌, ◌≡◌, inl, inr, arith, ltb, ltb→lt, ltb-false, ◌==◌, Bool-cases,
}
use shalotrack_gateway.Numeric.{nearest}

split_of : (n d : ℕ) → 0 < d → (n ≡ d * (n / d) + n % d) × (n % d < d)
split_of n d h = grind arith

abbrev Near : ℕ → ℕ → ℕ → Type 0
Near n d m = (2 * (d * m) ≤ 2 * n + d) × (2 * n ≤ 2 * (d * m) + d)

lower-Near : (n d q r : ℕ) → n ≡ d * q + r → 2 * r ≤ d → Near n d q
lower-Near n d q r e h = (omega (arith, e, h), omega (arith, e, h))

upper-Near : (n d q r : ℕ) → n ≡ d * q + r → d ≤ 2 * r → r < d → Near n d (q + 1)
upper-Near n d q r e h l = (grind arith, grind arith)

-- A number that is rounded to the nearest multiple of the unit is off by half the unit at most.
pub nearest-Near :
    (n d : ℕ) → 0 < d → (2 * (d * nearest n d) ≤ 2 * n + d) × (2 * n ≤ 2 * (d * nearest n d) + d)
unfolding nearest
nearest-Near n d h =
    let (e, l) = split_of n d h in
    elim (Bool-cases (ltb (2 * (n % d)) d)) [
      | inl t ↦ rw t (lower-Near n d (n / d) (n % d) e (omega (arith, ltb→lt _ _ t)))
      | inr f ↦ rw f (elim (Bool-cases (ltb d (2 * (n % d)))) [
        | inl t ↦ rw t (upper-Near n d (n / d) (n % d) e (omega (arith, ltb→lt _ _ t)) l)
        | inr g ↦ rw g (elim (Bool-cases (n / d % 2 == 0)) [
          | inl t ↦ rw t (lower-Near n d (n / d) (n % d) e (omega (arith, ltb-false _ _ g)))
          | inr k ↦ rw k (upper-Near n d (n / d) (n % d) e (omega (arith, ltb-false _ _ f)) l)
        ])
      ])
    ]
