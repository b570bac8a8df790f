-- ===== src/Parsers/Calendar.antt =====
-- The `datetime` constructor that parsers/v5_parser.py calls: a calendar date and a time of day, or
-- a ValueError.
use shalotrack_gateway.Shared.{ℕ, ◌%◌, Bool, not, ◌&&◌, ◌||◌, leb, ltb, ◌==◌, if◌then◌else◌}
use shalotrack_gateway.Shared.Attempt.{Attempt, returns, raises}
use shalotrack_gateway.World.{DateTime}

abbrev pub is_leap : ℕ → Bool
is_leap year = (year % 4 == 0) && (not (year % 100 == 0) || (year % 400 == 0))

abbrev pub days_in_month : ℕ → ℕ → ℕ
days_in_month year month =
    if month == 2
    then (if is_leap year then 29 else 28)
    else if (month == 4) || ((month == 6) || ((month == 9) || (month == 11)))
    then 30
    else 31

unfoldable pub is_date_time : DateTime → Bool
is_date_time t =
    leb 1 t.year
    && leb t.year 9999
    && leb 1 t.month
    && leb t.month 12
    && leb 1 t.day
    && leb t.day (days_in_month t.year t.month)
    && ltb t.hour 24
    && ltb t.minute 60
    && ltb t.second 60

unfoldable pub date_time : DateTime → Attempt DateTime
unfolding is_date_time
date_time t = if is_date_time t then returns t else raises
