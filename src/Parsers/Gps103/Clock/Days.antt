-- ===== src/Parsers/Gps103/Clock/Days.antt =====
-- The days before and after a date, as the arithmetic of parsers/gps103_parser.py on datetimes
-- reaches them.
use shalotrack_gateway.Shared.{
  ℕ, ◌+◌, ◌-◌, ◌≤◌, ◌<◌, ◌≡◌, refl, inl, inr, true, ◌&&◌, ◌||◌, arith, ltb, leb, ltb→lt, ◌==◌,
  Bool-cases,
}
use shalotrack_gateway.World.{DateTime}
use shalotrack_gateway.Parsers.Calendar.{is_date_time, days_in_month, is_leap}
use shalotrack_gateway.Parsers.Gps103.Clock.{next_day, previous_day}

-- The fields of a date and time are in range.
pub record InRange (t : DateTime) (days : ℕ) : Type 0 where
  pub year : (1 ≤ t.year) × (t.year ≤ 9999)
  pub month : (1 ≤ t.month) × (t.month ≤ 12)
  pub day : (1 ≤ t.day) × (t.day ≤ days)
  pub time : (t.hour < 24) × (t.minute < 60) × (t.second < 60)

tests_hold :
    (y m d n h i s : ℕ)
    → (leb 1 y
        && leb y 9999
        && leb 1 m
        && leb m 12
        && leb 1 d
        && leb d n
        && ltb h 24
        && ltb i 60
        && ltb s 60)
      ≡ true
    → ((1 ≤ y) × (y ≤ 9999))
      × ((1 ≤ m) × (m ≤ 12))
      × ((1 ≤ d) × (d ≤ n))
      × ((h < 24) × (i < 60) × (s < 60))
tests_hold y m d n h i s e = ground arith

hold_tests :
    (y m d n h i s : ℕ)
    → (1 ≤ y) × (y ≤ 9999)
    → (1 ≤ m) × (m ≤ 12)
    → (1 ≤ d) × (d ≤ n)
    → (h < 24) × (i < 60) × (s < 60)
    → (leb 1 y
        && leb y 9999
        && leb 1 m
        && leb m 12
        && leb 1 d
        && leb d n
        && ltb h 24
        && ltb i 60
        && ltb s 60)
      ≡ true
hold_tests y m d n h i s a b c e = ground arith

pub is_date_time-InRange :
    (t : DateTime) → is_date_time t ≡ true → InRange t (days_in_month t.year t.month)
unfolding is_date_time
is_date_time-InRange t h =
    let (y, m, d, i) =
      tests_hold t.year t.month t.day (days_in_month t.year t.month) t.hour t.minute t.second h in
    record { year = y; month = m; day = d; time = i }

pub InRange-is_date_time :
    (t : DateTime) → InRange t (days_in_month t.year t.month) → is_date_time t ≡ true
unfolding is_date_time
InRange-is_date_time t v =
    hold_tests t.year t.month t.day (days_in_month t.year t.month) t.hour t.minute t.second v.year
      v.month v.day v.time

-- Every month has its first 28 days, January and December have 31.
days_in_month-le : (y m : ℕ) → 28 ≤ days_in_month y m
days_in_month-le y m = elim (Bool-cases (m == 2)) [
  | inl t ↦
      rw t
        (elim (Bool-cases (is_leap y)) [ inl l ↦ rw l (omega arith) | inr l ↦ rw l (omega arith) ])
  | inr f ↦ rw f (elim (Bool-cases ((m == 4) || ((m == 6) || ((m == 9) || (m == 11))))) [
    | inl l ↦ rw l (omega arith)
    | inr l ↦ rw l (omega arith)
  ])
]

-- The years that have a day before and a day after each of theirs.
pub next_day-InRange :
    (t : DateTime)
    → InRange t (days_in_month t.year t.month)
    → t.year < 9999
    → let u = next_day t in InRange u (days_in_month u.year u.month)
unfolding next_day
next_day-InRange t v l = elim (Bool-cases (ltb t.day (days_in_month t.year t.month))) [
  | inl e ↦ rw e (record {
    year = v.year;
    month = v.month;
    day = (omega arith, omega (arith, ltb→lt _ _ e));
    time = v.time;
  })
  | inr e ↦ rw e (elim (Bool-cases (ltb t.month 12)) [
    | inl g ↦ rw g (record {
      year = v.year;
      month = (omega arith, omega (arith, ltb→lt _ _ g));
      day = (omega arith, omega (arith, days_in_month-le t.year (t.month + 1)));
      time = v.time;
    })
    | inr g ↦ rw g (record {
      year = (omega arith, omega arith);
      month = (omega arith, omega arith);
      day = (omega arith, omega arith);
      time = v.time;
    })
  ])
]

pub previous_day-InRange :
    (t : DateTime)
    → InRange t (days_in_month t.year t.month)
    → 1 < t.year
    → let u = previous_day t in InRange u (days_in_month u.year u.month)
unfolding previous_day
previous_day-InRange t v l = elim (Bool-cases (ltb 1 t.day)) [
  | inl e ↦ rw e (record {
    year = v.year;
    month = v.month;
    day = (omega (arith, ltb→lt _ _ e), omega (arith, v.day));
    time = v.time;
  })
  | inr e ↦ rw e (elim (Bool-cases (ltb 1 t.month)) [
    | inl g ↦ rw g (record {
      year = v.year;
      month = (omega (arith, ltb→lt _ _ g), omega (arith, v.month));
      day = (omega (arith, days_in_month-le t.year (t.month - 1)), omega arith);
      time = v.time;
    })
    | inr g ↦ rw g (record {
      year = (omega arith, omega (arith, v.year));
      month = (omega arith, omega arith);
      day = (omega arith, omega arith);
      time = v.time;
    })
  ])
]

abbrev pub SameDate : DateTime → DateTime → Type 0
SameDate t u = (t.year ≡ u.year) × (t.month ≡ u.month) × (t.day ≡ u.day)

pub next_day-second :
    (t : DateTime) (s : ℕ) → SameDate (next_day (record t { second = s })) (next_day t)
unfolding next_day
next_day-second t s = elim (Bool-cases (ltb t.day (days_in_month t.year t.month))) [
  | inl e ↦ rw e (refl, refl, refl)
  | inr e ↦ rw e (elim (Bool-cases (ltb t.month 12)) [
    | inl g ↦ rw g (refl, refl, refl)
    | inr g ↦ rw g (refl, refl, refl)
  ])
]

pub previous_day-second :
    (t : DateTime) (s : ℕ) → SameDate (previous_day (record t { second = s })) (previous_day t)
unfolding previous_day
previous_day-second t s = elim (Bool-cases (ltb 1 t.day)) [
  | inl e ↦ rw e (refl, refl, refl)
  | inr e ↦ rw e (elim (Bool-cases (ltb 1 t.month)) [
    | inl g ↦ rw g (refl, refl, refl)
    | inr g ↦ rw g (refl, refl, refl)
  ])
]
