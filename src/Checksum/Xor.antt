-- ===== src/Checksum/Xor.antt =====
-- Exclusive or at variables, from the recursion on binary digits that the native operation stands
-- for: the laws that the checksums of parsers/v5_parser.py and parsers/teltonika_parser.py need.
use Prim.Native.Nat.{digits, differ, bit_xor-bitwise}
use native.Mathlib.Nat.{pow-suc, pow-zero}
use shalotrack_gateway.Shared.{
  ℕ, zero, suc, ◌+◌, ◌*◌, ◌/◌, ◌%◌, ◌^◌, ◌≤◌, ◌<◌, ◌≡◌, refl, ap, ◌∙◌, bit_xor, arith,
}

abbrev xor_digits : ℕ → ℕ → ℕ → ℕ
xor_digits n a b = digits (λ b. b) differ n a b

-- The count of digits to go does not matter once it covers the first number.
xor_digits_fuel : (n m a b : ℕ) → a ≤ n → a ≤ m → xor_digits n a b ≡ xor_digits m a b
xor_digits_fuel zero zero a b p q = refl
xor_digits_fuel zero (suc m) zero b p q = refl
xor_digits_fuel zero (suc m) (suc a) b p q = absurd (omega arith)
xor_digits_fuel (suc n) zero zero b p q = refl
xor_digits_fuel (suc n) zero (suc a) b p q = absurd (omega arith)
xor_digits_fuel (suc n) (suc m) zero b p q = refl
xor_digits_fuel (suc n) (suc m) (suc a) b p q =
    ap (λ (t : ℕ). t * 2 + differ (suc a % 2) (b % 2))
      (xor_digits_fuel n m (suc a / 2) (b / 2) (omega arith) (omega arith))

differ_zero : (b : ℕ) → differ 0 b ≡ b
differ_zero b = refl

pub zero-xor : (b : ℕ) → bit_xor 0 b ≡ b
zero-xor b = bit_xor-bitwise 0 b

pub xor_step : (a b : ℕ) → bit_xor a b ≡ bit_xor (a / 2) (b / 2) * 2 + differ (a % 2) (b % 2)
xor_step zero b = omega (arith, zero-xor b, zero-xor (b / 2), differ_zero (b % 2))
xor_step (suc a) b = omega (
  arith,
  bit_xor-bitwise (suc a) b,
  bit_xor-bitwise (suc a / 2) (b / 2),
  xor_digits_fuel a (suc a / 2) (suc a / 2) (b / 2) (omega arith) (omega arith),
)

differ-le : (a b : ℕ) → a < 2 → b < 2 → differ a b < 2
differ-le zero b h k = k
differ-le (suc a) zero h k = h
differ-le (suc zero) (suc b) h k = omega arith
differ-le (suc (suc a)) (suc b) h k = absurd (omega arith)

differ_twice : (a b : ℕ) → a < 2 → b < 2 → differ (differ a b) b ≡ a
differ_twice zero zero h k = refl
differ_twice zero (suc zero) h k = refl
differ_twice zero (suc (suc b)) h k = absurd (omega arith)
differ_twice (suc zero) zero h k = refl
differ_twice (suc zero) (suc zero) h k = refl
differ_twice (suc zero) (suc (suc b)) h k = absurd (omega arith)
differ_twice (suc (suc a)) b h k = absurd (omega arith)

-- Numbers of k bits have an exclusive or of k bits.
pub xor-lt : (k a b : ℕ) → a < 2 ^ k → b < 2 ^ k → bit_xor a b < 2 ^ k
xor-lt zero a b p q =
    omega (arith, pow-zero 2, xor_small a b (omega (arith, pow-zero 2)) (omega (arith, pow-zero 2)))
  where
    xor_small : (a b : ℕ) → a ≤ 0 → b ≤ 0 → bit_xor a b ≡ 0
    xor_small zero b p q = omega (arith, zero-xor b)
    xor_small (suc a) b p q = absurd (omega arith)
xor-lt (suc k) a b p q = omega (
  arith,
  xor_step a b,
  pow-suc 2 k,
  xor-lt k (a / 2) (b / 2) (omega (arith, pow-suc 2 k)) (omega (arith, pow-suc 2 k)),
  differ-le (a % 2) (b % 2) (omega arith) (omega arith),
)

-- Exclusive or with the same number twice gives back the first one.
pub xor_twice : (k a b : ℕ) → a < 2 ^ k → b < 2 ^ k → bit_xor (bit_xor a b) b ≡ a
xor_twice zero a b p q = both (omega (arith, pow-zero 2)) (omega (arith, pow-zero 2))
  where
    both : a ≡ 0 → b ≡ 0 → bit_xor (bit_xor a b) b ≡ a
    both p q = rw (p, q, zero-xor 0, zero-xor 0)
xor_twice (suc k) a b p q =
    let x = bit_xor (a / 2) (b / 2) in
    let d = differ (a % 2) (b % 2) in
    let small = differ-le (a % 2) (b % 2) (omega arith) (omega arith) in
    let e = xor_step a b in
    let half : bit_xor a b / 2 ≡ x = omega arith in
    let low : bit_xor a b % 2 ≡ d = omega arith in
    let ih =
      xor_twice k (a / 2) (b / 2) (omega (arith, pow-suc 2 k)) (omega (arith, pow-suc 2 k)) in
    let back = differ_twice (a % 2) (b % 2) (omega arith) (omega arith) in
    xor_step (bit_xor a b) b
    ∙ (λ i. bit_xor (half i) (b / 2) * 2 + differ (low i) (b % 2))
    ∙ (λ i. ih i * 2 + back i)
    ∙ omega arith

-- A top bit that only the second number has stays.
pub xor_top : (k a b : ℕ) → a < 2 ^ k → 2 ^ k ≤ b → 2 ^ k ≤ bit_xor a b
xor_top zero a b p q = none_of (omega (arith, pow-zero 2))
  where
    none_of : a ≡ 0 → 2 ^ 0 ≤ bit_xor a b
    none_of e = rw (e, zero-xor b) q
xor_top (suc k) a b p q = omega (
  arith,
  xor_step a b,
  pow-suc 2 k,
  xor_top k (a / 2) (b / 2) (omega (arith, pow-suc 2 k)) (omega (arith, pow-suc 2 k)),
)

differ_comm : (a b : ℕ) → a < 2 → b < 2 → differ a b ≡ differ b a
differ_comm zero zero h k = refl
differ_comm zero (suc b) h k = refl
differ_comm (suc a) zero h k = refl
differ_comm (suc zero) (suc zero) h k = refl
differ_comm (suc zero) (suc (suc b)) h k = absurd (omega arith)
differ_comm (suc (suc a)) (suc b) h k = absurd (omega arith)

pub xor_comm : (k a b : ℕ) → a < 2 ^ k → b < 2 ^ k → bit_xor a b ≡ bit_xor b a
xor_comm zero a b p q = both (omega (arith, pow-zero 2)) (omega (arith, pow-zero 2))
  where
    both : a ≡ 0 → b ≡ 0 → bit_xor a b ≡ bit_xor b a
    both p q = rw (p, q)
xor_comm (suc k) a b p q = omega (
  arith,
  xor_step a b,
  xor_step b a,
  differ_comm (a % 2) (b % 2) (omega arith) (omega arith),
  xor_comm k (a / 2) (b / 2) (omega (arith, pow-suc 2 k)) (omega (arith, pow-suc 2 k)),
)
