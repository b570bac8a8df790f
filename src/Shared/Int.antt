-- ===== src/Shared/Int.antt =====
-- Signed integers over the native numbers: those that the coordinates need.
use Prim.Native.Nat.{ℕ, suc, ◌+◌, ◌-◌, ◌≤◌, ◌*◌}
use mathlib.Core.Bool.{Bool}
use shalotrack_gateway.Shared.Tests.{ltb, leb, if◌then◌else◌}

-- `negsuc n` is -(n + 1).
pub data ℤ : Type 0 where
  pos : ℕ → ℤ
  negsuc : ℕ → ℤ

abbrev pub pos_part : ℤ → ℕ
pos_part (pos n) = n
pos_part (negsuc n) = 0

abbrev pub neg_part : ℤ → ℕ
neg_part (pos n) = 0
neg_part (negsuc n) = suc n

-- a - b, as an integer.
abbrev pub sub_ℕ : ℕ → ℕ → ℤ
sub_ℕ a b = if leb b a then pos (a - b) else negsuc (b - a - 1)

abbrev pub neg : ℤ → ℤ
neg z = sub_ℕ (neg_part z) (pos_part z)

abbrev pub ◌≤ℤ◌ : ℤ → ℤ → Type 0

infix 50 ◌≤ℤ◌
a ≤ℤ b = pos_part a + neg_part b ≤ pos_part b + neg_part a

-- -bound ≤ z and z ≤ bound
abbrev pub within : ℕ → ℤ → Bool
within bound (pos n) = leb n bound
within bound (negsuc n) = ltb n bound

-- The integer that a bit pattern below 2 * half stands for in two's complement.
abbrev pub signed : ℕ → ℕ → ℤ
signed half w = if ltb w half then pos w else negsuc (2 * half - w - 1)
