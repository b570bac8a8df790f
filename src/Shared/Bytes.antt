-- ===== src/Shared/Bytes.antt =====
-- Byte strings of Python: lists of numbers below 256, slices, prefixes and big-endian integers.
use mathlib.Core.Path.{◌≡◌, refl, ap}
use mathlib.Core.Bool.{Bool, true, false, ◌&&◌}
use mathlib.Core.List.{List, [], ◌∷◌, ◌++◌}
use Prim.Native.Nat.{ℕ, ◌+◌, ◌-◌, ◌*◌, ◌/◌, ◌%◌, ◌≤◌, ◌<◌, ◌^◌}
use native.Mathlib.Omega.{arith}
use native.Mathlib.Nat.{pow-zero, pow-suc, mul_assoc}
use shalotrack_gateway.Shared.Tests.{◌==◌}
use shalotrack_gateway.Shared.Lists.{length, take, drop, All}

abbrev pub Bytes : Type 0
Bytes = List ℕ

abbrev pub IsBytes : Bytes → Type 0
IsBytes = All (λ b. b < 256)

-- data[a:b] for 0 ≤ a, b
abbrev pub slice : ℕ → ℕ → Bytes → Bytes
slice a b xs = take (b - a) (drop a xs)

-- data[-a:-b]: positions count from the end, and are clamped at the start
abbrev pub slice_back : ℕ → ℕ → Bytes → Bytes
slice_back a b xs = let n = length xs in take ((n - b) - (n - a)) (drop (n - a) xs)

abbrev pub bytes_eq : Bytes → Bytes → Bool
bytes_eq [] [] = true
bytes_eq [] (y ∷ ys) = false
bytes_eq (x ∷ xs) [] = false
bytes_eq (x ∷ xs) (y ∷ ys) = (x == y) && bytes_eq xs ys

-- data.startswith(prefix)
abbrev pub starts_with : Bytes → Bytes → Bool
starts_with [] xs = true
starts_with (p ∷ ps) [] = false
starts_with (p ∷ ps) (x ∷ xs) = (p == x) && starts_with ps xs

-- int.from_bytes(data, "big")
abbrev pub be_from : ℕ → Bytes → ℕ
be_from acc [] = acc
be_from acc (b ∷ bs) = be_from (acc * 256 + b) bs

abbrev pub be_value : Bytes → ℕ
be_value = be_from 0

-- n.to_bytes(2, "big") and struct.pack(">I", n)
abbrev pub be_bytes2 : ℕ → Bytes
be_bytes2 n = (n / 256 % 256) ∷ (n % 256) ∷ []

abbrev pub be_bytes4 : ℕ → Bytes
be_bytes4 n = (n / 2 ^ 24 % 256) ∷ (n / 2 ^ 16 % 256) ∷ (n / 256 % 256) ∷ (n % 256) ∷ []

pub bytes_eq→eq : (xs ys : Bytes) → bytes_eq xs ys ≡ true → xs ≡ ys
bytes_eq→eq [] [] h = refl
bytes_eq→eq [] (y ∷ ys) h = cc
bytes_eq→eq (x ∷ xs) [] h = cc
bytes_eq→eq (x ∷ xs) (y ∷ ys) h = ground (arith, bytes_eq→eq xs ys)

pub bytes_eq_refl : (xs : Bytes) → bytes_eq xs xs ≡ true
bytes_eq_refl [] = refl
bytes_eq_refl (x ∷ xs) = ground (arith, bytes_eq_refl xs)

pub starts_with-append :
    (p xs ys : Bytes) → starts_with p xs ≡ true → starts_with p (xs ++ ys) ≡ true
starts_with-append [] xs ys h = refl
starts_with-append (p ∷ ps) [] ys h = cc
starts_with-append (p ∷ ps) (x ∷ xs) ys h = ground (arith, starts_with-append ps xs ys)

-- The test sees only as many bytes as the prefix has.
pub starts_with-append_eq :
    (p xs ys : Bytes) → length p ≤ length xs → starts_with p (xs ++ ys) ≡ starts_with p xs
starts_with-append_eq [] xs ys h = refl
starts_with-append_eq (p ∷ ps) [] ys h = absurd (omega arith)
starts_with-append_eq (p ∷ ps) (x ∷ xs) ys h =
    ap (λ b. (p == x) && b) (starts_with-append_eq ps xs ys (omega arith))

-- A number of k bytes is below 256 ^ k, and what was read before counts for the rest.
pub be_from-lt :
    (acc k : ℕ) (bs : Bytes) → IsBytes bs → acc < k → be_from acc bs < k * 256 ^ length bs
be_from-lt acc k [] h l = omega (arith, pow-zero 256, ap (λ (t : ℕ). k * t) (pow-zero 256))
be_from-lt acc k (b ∷ bs) h l = omega (
  arith,
  be_from-lt (acc * 256 + b) (k * 256) bs h.1 (omega (arith, h.0)),
  ap (λ (t : ℕ). k * t) (pow-suc 256 (length bs)),
  mul_assoc k 256 (256 ^ length bs),
)
