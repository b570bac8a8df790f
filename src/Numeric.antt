-- ===== src/Numeric.antt =====
-- utils/numeric.py: the numbers that are written to `numeric` columns. A float is the exact number
-- that its text says, or one that is not finite.
pub mod Rounding
use shalotrack_gateway.Shared.{
  ℕ, suc, ◌+◌, ◌*◌, ◌/◌, ◌%◌, ◌^◌, Bool, true, false, ◌&&◌, Option, none, some, ltb, ◌==◌,
  if◌then◌else◌,
}
use shalotrack_gateway.Shared.Int.{ℤ, pos, negsuc, neg}
use shalotrack_gateway.Shared.Attempt.{Attempt, returns, raises}
use shalotrack_gateway.World.{Decimal, in_degrees}

pub data Reading : Type 0 where
  finite : Decimal → Reading
  non_finite : Reading

-- n / d to the nearest whole number, and to the even one of two.
unfoldable pub nearest : ℕ → ℕ → ℕ
nearest n d =
    let q = n / d in
    let r = n % d in
    if ltb (2 * r) d then q else if ltb d (2 * r) then q + 1 else if q % 2 == 0 then q else q + 1

abbrev pub on_size : (ℕ → ℕ) → ℤ → ℤ
on_size f (pos n) = pos (f n)
on_size f (negsuc n) = neg (pos (f (suc n)))

-- round(value, places)
unfoldable pub round_to : ℕ → Decimal → Decimal
unfolding nearest
round_to places value = record {
  num = on_size (λ n. nearest (n * 10 ^ places) value.scale) value.num;
  scale = 10 ^ places;
}

unfoldable pub clean_decimal : ℕ → Option Reading → Attempt (Option Decimal)
unfolding round_to
clean_decimal places none = returns none
clean_decimal places (some non_finite) = raises
clean_decimal places (some (finite value)) = returns (some (round_to places value))

abbrev pub in_bounds : ℕ → Reading → Bool
in_bounds limit (finite value) = in_degrees limit value
in_bounds limit non_finite = false

abbrev pub value_of : Reading → Option Decimal
value_of (finite value) = some (round_to 6 value)
value_of non_finite = none

-- A position that is missing, not finite or out of bounds is missing, and no other.
unfoldable pub clean_coordinates : Option Reading → Option Reading → Option Decimal × Option Decimal
unfolding round_to in_degrees
clean_coordinates none longitude = (none, none)
clean_coordinates (some latitude) none = (none, none)
clean_coordinates (some latitude) (some longitude) =
    if in_bounds 90 latitude && in_bounds 180 longitude
    then (value_of latitude, value_of longitude)
    else (none, none)
