-- ===== src/Parsers/Gps103/Clock.antt =====
-- The timestamps of parsers/gps103_parser.py: a UTC time from the device's local date and time and
-- the UTC time of day.
pub mod Days
pub mod Fields
pub mod Nearest
use shalotrack_gateway.Shared.{
  ℕ, zero, suc, ◌+◌, ◌-◌, ◌*◌, ◌/◌, ◌%◌, Bool, true, false, ◌&&◌, ◌||◌, Option, none, some, List,
  [], ◌∷◌, length, take, drop, get_or, ltb, leb, ◌==◌, if◌then◌else◌,
}
use shalotrack_gateway.Shared.Bytes.{slice}
use shalotrack_gateway.Shared.Text.{Text, is_digit, all_of, split_on, decimal}
use shalotrack_gateway.Shared.Int.{ℤ, pos, negsuc, sub_ℕ}
use shalotrack_gateway.Shared.Attempt.{Attempt, returns, raises}
use shalotrack_gateway.World.{DateTime}
use shalotrack_gateway.Parsers.Calendar.{date_time, days_in_month}

-- int(value[a:b])
abbrev pub number : ℕ → ℕ → Text → ℕ
number a b value = decimal (slice a b value)

-- except ValueError: None
abbrev pub or_none : Attempt DateTime → Option DateTime
or_none raises = none
or_none (returns t) = some t

unfoldable pub parse_local_datetime : Text → Option DateTime
unfolding date_time
parse_local_datetime value =
    if all_of is_digit value && ((length value == 10) || (length value == 12))
    then or_none (
        date_time (record {
          year = 2000 + number 0 2 value;
          month = number 2 4 value;
          day = number 4 6 value;
          hour = number 6 8 value;
          minute = number 8 10 value;
          second = if length value == 12 then number 10 12 value else 0;
        }))
    else none

pub record TimeOfDay : Type 0 where
  pub hour : ℕ
  pub minute : ℕ
  pub second : ℕ

abbrev pub checked : TimeOfDay → Option TimeOfDay
checked t = if ltb 23 t.hour || (ltb 59 t.minute || ltb 59 t.second) then none else some t

abbrev pub time_fields : Text → TimeOfDay
time_fields head = record {
  hour = number 0 2 head;
  minute = number 2 4 head;
  second = number 4 6 head;
}

abbrev pub time_of : Text → Option TimeOfDay
time_of head =
    if all_of is_digit head && (length head == 6) then checked (time_fields head) else none

unfoldable pub parse_utc_time : Text → Option TimeOfDay
parse_utc_time value = time_of (get_or (split_on b'.' value) 0 [])

-- a - n, and a + n
abbrev pub minus : ℤ → ℕ → ℤ
minus (pos a) n = sub_ℕ a n
minus (negsuc a) n = negsuc (a + n)

abbrev pub plus : ℤ → ℕ → ℤ
plus (pos a) n = pos (a + n)
plus (negsuc a) n = sub_ℕ n (suc a)

-- offset > 720, and offset <= -720
abbrev pub above : ℤ → Bool
above (pos a) = ltb 720 a
above (negsuc a) = false

abbrev pub below : ℤ → Bool
below (pos a) = false
below (negsuc a) = leb 719 a

-- The two loops on the offset; none is a loop that has run out of fuel.
unfoldable pub wrap_down : ℕ → ℤ → Option ℤ
wrap_down zero offset = none
wrap_down (suc fuel) offset =
    let rest = wrap_down fuel (minus offset 1440) in if above offset then rest else some offset

unfoldable pub wrap_up : ℕ → ℤ → Option ℤ
wrap_up zero offset = none
wrap_up (suc fuel) offset =
    let rest = wrap_up fuel (plus offset 1440) in if below offset then rest else some offset

abbrev pub loop_fuel : ℕ
loop_fuel = 2

abbrev pub wrap_up_of : Option ℤ → Option ℤ
wrap_up_of none = none
wrap_up_of (some offset) = wrap_up loop_fuel offset

unfoldable pub wrap_offset : ℤ → Option ℤ
unfolding wrap_down wrap_up
wrap_offset offset = wrap_up_of (wrap_down loop_fuel offset)

unfoldable pub next_day : DateTime → DateTime
next_day t =
    if ltb t.day (days_in_month t.year t.month)
    then record t { day = t.day + 1 }
    else if ltb t.month 12
    then record t { month = t.month + 1; day = 1 }
    else record t { year = t.year + 1; month = 1; day = 1 }

unfoldable pub previous_day : DateTime → DateTime
previous_day t =
    if ltb 1 t.day
    then record t { day = t.day - 1 }
    else if ltb 1 t.month
    then record t { month = t.month - 1; day = days_in_month t.year (t.month - 1) }
    else record t { year = t.year - 1; month = 12; day = 31 }

abbrev pub at_minutes : ℕ → DateTime → DateTime
at_minutes m t = record t { hour = m / 60; minute = m % 60 }

abbrev pub minutes_of : DateTime → ℕ
minutes_of t = t.hour * 60 + t.minute

-- The date and time at a minute of the day, of the day before or of the day after.
abbrev pub moved : DateTime → ℤ → DateTime
moved t (pos m) = if ltb m 1440 then at_minutes m t else at_minutes (m - 1440) (next_day t)
moved t (negsuc a) = at_minutes (1440 - suc a) (previous_day t)

-- local - timedelta(minutes=offset), for an offset of less than a day: first the minute
abbrev pub back_by : ℕ → ℤ → ℤ
back_by m (pos a) = sub_ℕ m a
back_by m (negsuc a) = pos (m + suc a)

unfoldable pub shift_minutes : DateTime → ℤ → DateTime
unfolding next_day previous_day
shift_minutes t offset = moved t (back_by (minutes_of t) offset)

abbrev pub with_offset : DateTime → TimeOfDay → Option ℤ → Option DateTime
with_offset t utc none = none
with_offset t utc (some offset) =
    some (record (shift_minutes (record t { second = 0 }) offset) { second = utc.second })

unfoldable pub resolve : DateTime → TimeOfDay → Option DateTime
unfolding wrap_offset shift_minutes
resolve local utc =
    with_offset local utc (wrap_offset (sub_ℕ (minutes_of local) (utc.hour * 60 + utc.minute)))

abbrev pub resolve_both : Option DateTime → Option TimeOfDay → Option DateTime
resolve_both none utc = none
resolve_both (some local) none = none
resolve_both (some local) (some utc) = resolve local utc

unfoldable pub resolve_utc_timestamp : Text → Text → Option DateTime
unfolding resolve parse_local_datetime parse_utc_time
resolve_utc_timestamp local_value utc_value =
    resolve_both (parse_local_datetime local_value) (parse_utc_time utc_value)
