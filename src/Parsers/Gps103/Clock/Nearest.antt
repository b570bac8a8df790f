-- ===== src/Parsers/Gps103/Clock/Nearest.antt =====
-- The UTC time that `resolve_utc_timestamp` of parsers/gps103_parser.py finds.
use shalotrack_gateway.Shared.{
  ℕ, ◌+◌, ◌-◌, ◌*◌, ◌≤◌, ◌<◌, ◌≡◌, refl, ap, inl, inr, true, some, arith, ltb, ltb→lt, ltb-false,
  Bool-cases, lt→ltb, le→ltb-false,
}
use shalotrack_gateway.Shared.Int.{pos, negsuc, sub_ℕ}
use shalotrack_gateway.World.{DateTime}
use shalotrack_gateway.Parsers.Calendar.{is_date_time, days_in_month}
use shalotrack_gateway.Parsers.Gps103.Clock.Days.{
  InRange, SameDate, is_date_time-InRange, InRange-is_date_time, next_day-InRange,
  previous_day-InRange, next_day-second, previous_day-second,
}
use shalotrack_gateway.Parsers.Gps103.Clock.{
  TimeOfDay, wrap_offset, wrap_down, wrap_up, shift_minutes, next_day, previous_day, resolve,
  minutes_of, back_by, at_minutes,
}

wrap_same : (a b : ℕ) → a ≤ b + 720 → b < a + 720 → wrap_offset (sub_ℕ a b) ≡ some (sub_ℕ a b)
unfolding wrap_offset wrap_down wrap_up
wrap_same a b h k = ground arith

wrap_after :
    (a b : ℕ) → b + 720 < a → a < 1440 → wrap_offset (sub_ℕ a b) ≡ some (sub_ℕ a (b + 1440))
unfolding wrap_offset wrap_down wrap_up
wrap_after a b h k = ground arith

wrap_before :
    (a b : ℕ) → a + 720 ≤ b → b < 1440 → wrap_offset (sub_ℕ a b) ≡ some (sub_ℕ (a + 1440) b)
unfolding wrap_offset wrap_down wrap_up
wrap_before a b h k = ground arith

back_same : (a b : ℕ) → back_by a (sub_ℕ a b) ≡ pos b
back_same a b = ground arith

back_after : (a b : ℕ) → back_by a (sub_ℕ a (b + 1440)) ≡ pos (b + 1440)
back_after a b = ground arith

back_before : (a b : ℕ) → b < 1440 → back_by a (sub_ℕ (a + 1440) b) ≡ negsuc (1439 - b)
back_before a b h = ground arith

-- A time of day whose fields are in range.
abbrev pub IsTime : TimeOfDay → Type 0
IsTime utc = (utc.hour < 24) × (utc.minute < 60) × (utc.second < 60)

abbrev pub minutes : TimeOfDay → ℕ
minutes utc = utc.hour * 60 + utc.minute

-- The UTC time lies less than twelve hours behind the local one or at most twelve before it, on the
-- local date, the day after or the day before.
pub data Nearest (local t : DateTime) : Type 0 where
  same_day :
      SameDate t local
      → minutes_of local ≤ minutes_of t + 720
      → minutes_of t < minutes_of local + 720
      → Nearest local t
  day_after : SameDate t (next_day local) → minutes_of t + 720 < minutes_of local → Nearest local t
  day_before :
      SameDate t (previous_day local) → minutes_of local + 720 ≤ minutes_of t → Nearest local t

-- What is found: a date and time of the calendar, at the UTC time of day, that is nearest.
pub record Resolved (local : DateTime) (utc : TimeOfDay) (t : DateTime) : Type 0 where
  pub exists : is_date_time t ≡ true
  pub time : (t.hour ≡ utc.hour) × (t.minute ≡ utc.minute) × (t.second ≡ utc.second)
  pub nearest : Nearest local t

abbrev placed : ℕ → ℕ → DateTime → DateTime
placed m s t = record (at_minutes m t) { second = s }

resolve_same :
    (local : DateTime) (utc : TimeOfDay)
    → minutes_of local ≤ minutes utc + 720
    → minutes utc < minutes_of local + 720
    → minutes utc < 1440
    → resolve local utc ≡ some (placed (minutes utc) utc.second (record local { second = 0 }))
unfolding resolve shift_minutes
resolve_same local utc h k l =
    rw
      (
        wrap_same (minutes_of local) (minutes utc) h k,
        back_same (minutes_of local) (minutes utc),
        lt→ltb (minutes utc) 1440 l,
      )
      refl

resolve_after :
    (local : DateTime) (utc : TimeOfDay)
    → minutes utc + 720 < minutes_of local
    → minutes_of local < 1440
    → resolve local utc
      ≡ some (placed (minutes utc) utc.second (next_day (record local { second = 0 })))
unfolding resolve shift_minutes
resolve_after local utc h k =
    rw
      (
        wrap_after (minutes_of local) (minutes utc) h k,
        back_after (minutes_of local) (minutes utc),
        le→ltb-false (minutes utc + 1440) 1440 (omega arith),
      )
      (ap (λ m. some (placed m utc.second (next_day (record local { second = 0 })))) (omega arith))

resolve_before :
    (local : DateTime) (utc : TimeOfDay)
    → minutes_of local + 720 ≤ minutes utc
    → minutes utc < 1440
    → resolve local utc
      ≡ some (placed (minutes utc) utc.second (previous_day (record local { second = 0 })))
unfolding resolve shift_minutes
resolve_before local utc h k =
    rw
      (
        wrap_before (minutes_of local) (minutes utc) h k,
        back_before (minutes_of local) (minutes utc) k,
      )
      (ap (λ m. some (placed m utc.second (previous_day (record local { second = 0 }))))
        (omega arith))

InRange-placed :
    (t : DateTime) (utc : TimeOfDay)
    → IsTime utc
    → InRange t (days_in_month t.year t.month)
    → is_date_time (placed (minutes utc) utc.second t) ≡ true
InRange-placed t utc i v = InRange-is_date_time (placed (minutes utc) utc.second t) (record {
  year = v.year;
  month = v.month;
  day = v.day;
  time = (omega arith, omega arith, omega arith);
})

placed-time :
    (t : DateTime) (utc : TimeOfDay)
    → IsTime utc
    → let u = placed (minutes utc) utc.second t in
      (u.hour ≡ utc.hour) × (u.minute ≡ utc.minute) × (u.second ≡ utc.second)
placed-time t utc i = (omega arith, omega arith, refl)

-- The date and time that a day carries: it exists, at the UTC time, and is nearest.
resolved :
    (local day : DateTime) (utc : TimeOfDay)
    → IsTime utc
    → InRange day (days_in_month day.year day.month)
    → Nearest local (placed (minutes utc) utc.second day)
    → Resolved local utc (placed (minutes utc) utc.second day)
resolved local day utc i v n = record {
  exists = InRange-placed day utc i v;
  time = placed-time day utc i;
  nearest = n;
}

module _ (local : DateTime) (utc : TimeOfDay) (i : IsTime utc) (e : is_date_time local ≡ true)
    (first : 1 < local.year) (last : local.year < 9999) where
  abbrev start : DateTime
  start = record local { second = 0 }

  start-InRange : InRange start (days_in_month start.year start.month)
  start-InRange =
      let v = is_date_time-InRange local e in
      record {
        year = v.year;
        month = v.month;
        day = v.day;
        time = (v.time.0, v.time.1, omega arith);
      }

  local_lt : minutes_of local < 1440
  local_lt = let v = is_date_time-InRange local e in omega (arith, v.time)

  pub resolve-Resolved : (t : DateTime) × (resolve local utc ≡ some t) × Resolved local utc t
  resolve-Resolved = elim (Bool-cases (ltb (minutes utc + 720) (minutes_of local))) [
    | inl g ↦
        let l = ltb→lt _ _ g in
        (
          placed (minutes utc) utc.second (next_day start),
          resolve_after local utc l local_lt,
          resolved local (next_day start) utc i (next_day-InRange start start-InRange last)
              (day_after (next_day-second local 0) (omega (arith, l))),
        )
    | inr g ↦ elim (Bool-cases (ltb (minutes utc) (minutes_of local + 720))) [
      | inl k ↦ (
        placed (minutes utc) utc.second start,
        resolve_same local utc (omega (arith, ltb-false _ _ g)) (ltb→lt _ _ k) (omega (arith, i)),
        resolved local start utc i start-InRange (
            same_day (refl, refl, refl) (omega (arith, ltb-false _ _ g))
              (omega (arith, ltb→lt _ _ k))),
      )
      | inr k ↦ (
        placed (minutes utc) utc.second (previous_day start),
        resolve_before local utc (ltb-false _ _ k) (omega (arith, i)),
        resolved local (previous_day start) utc i (previous_day-InRange start start-InRange first)
            (day_before (previous_day-second local 0) (omega (arith, ltb-false _ _ k))),
      )
    ]
  ]
