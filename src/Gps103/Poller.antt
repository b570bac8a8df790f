-- ===== src/Gps103/Poller.antt =====
-- services/gps103_poller.py: which devices are asked for a position. A time is in the unit of the
-- registry, and so are the intervals `moving_interval` and `idle_interval`, which stand for
-- config.GPS103_POLL_SECONDS and config.GPS103_POLL_IDLE_SECONDS.
use shalotrack_gateway.Shared.{
  ℕ, zero, suc, ◌+◌, ◌≤◌, ◌<◌, ◌≡◌, ◌↔◌, refl, ◌⊎◌, inl, inr, Bool, true, false, ◌&&◌, Option, none,
  some, List, [], ◌∷◌, arith, max, ltb, leb, leb→le, le→leb, lt→ltb, if◌then◌else◌, Bool-cases,
}
use shalotrack_gateway.Shared.Text.{Text}
use shalotrack_gateway.Shared.Dict.{Dict}
use shalotrack_gateway.Registry.{Registry, Entry, Family, gt06, gps103, teltonika}

-- speed is not None and speed > 0
abbrev pub is_moving : Option ℕ → Bool
is_moving none = false
is_moving (some speed) = ltb 0 speed

abbrev pub or_time : Option ℕ → ℕ → ℕ
or_time none default = default
or_time (some time) default = time

abbrev pub newest_of : ℕ → Option ℕ → ℕ
newest_of since none = since
newest_of since (some last_poll) = max since last_poll

abbrev pub is_gps103 : Family → Bool
is_gps103 gt06 = false
is_gps103 gps103 = true
is_gps103 teltonika = false

module _ (moving_interval idle_interval : ℕ) where
  unfoldable pub interval_for : Entry → ℕ
  interval_for entry = if is_moving entry.last_speed then moving_interval else idle_interval

  unfoldable pub is_due : ℕ → Entry → Bool
  is_due now entry =
      let since = or_time entry.last_position_at entry.connected_at in
      is_gps103 entry.protocol && leb (newest_of since entry.last_poll_at + interval_for entry) now

  abbrev pub due_among : ℕ → Dict Text Entry → List Text
  due_among now [] = []
  due_among now ((imei, entry) ∷ entries) =
      let due = due_among now entries in if is_due now entry then imei ∷ due else due

  unfoldable pub due_devices : ℕ → Registry → List Text
  due_devices now r = due_among now r.by_imei

  -- The interval of a device: the moving one after a report with a speed above 0, the idle one after
  -- a report with speed 0 or before any.
  pub data Applies (entry : Entry) : ℕ → Type 0 where
    moving : (speed : ℕ) → entry.last_speed ≡ some speed → 0 < speed → Applies entry moving_interval
    parked : entry.last_speed ≡ some 0 → Applies entry idle_interval
    unreported : entry.last_speed ≡ none → Applies entry idle_interval

  -- A GPS103 device whose interval has passed since its last position, or since it connected if it
  -- has none, and since it was last asked, if it was.
  pub record Due (now : ℕ) (entry : Entry) : Type 0 where
    pub interval : ℕ
    pub applies : Applies entry interval
    pub gps103_device : entry.protocol ≡ gps103
    pub silent :
        (entry.last_position_at ≡ none) × (entry.connected_at + interval ≤ now)
        ⊎ ((at : ℕ) × (entry.last_position_at ≡ some at) × (at + interval ≤ now))
    pub not_asked :
        (entry.last_poll_at ≡ none)
        ⊎ ((at : ℕ) × (entry.last_poll_at ≡ some at) × (at + interval ≤ now))

  interval_for-Applies :
      (entry : Entry) (speed : Option ℕ)
      → entry.last_speed ≡ speed
      → Applies entry (if is_moving speed then moving_interval else idle_interval)
  interval_for-Applies entry none e = unreported e
  interval_for-Applies entry (some zero) e = parked e
  interval_for-Applies entry (some (suc n)) e =
      rw (lt→ltb 0 (suc n) (omega arith)) (moving (suc n) e (omega arith))

  Applies-interval_for :
      (entry : Entry) (interval : ℕ)
      → Applies entry interval
      → (if is_moving entry.last_speed then moving_interval else idle_interval) ≡ interval
  Applies-interval_for entry _ (moving speed e h) = rw (e, lt→ltb 0 speed h) refl
  Applies-interval_for entry _ (parked e) = rw e refl
  Applies-interval_for entry _ (unreported e) = rw e refl

  is_gps103-true : (f : Family) → is_gps103 f ≡ true → f ≡ gps103
  is_gps103-true gt06 h = cc
  is_gps103-true gps103 h = refl
  is_gps103-true teltonika h = cc

  &&-true : (a b : Bool) → (a && b) ≡ true → (a ≡ true) × (b ≡ true)
  &&-true true b h = (refl, h)
  &&-true false b h = cc

  silent_since :
      (now interval connected : ℕ) (position poll : Option ℕ)
      → newest_of (or_time position connected) poll + interval ≤ now
      → ((position ≡ none) × (connected + interval ≤ now))
        ⊎ ((at : ℕ) × (position ≡ some at) × (at + interval ≤ now))
  silent_since now i c none none h = inl (refl, h)
  silent_since now i c none (some p) h = inl (refl, omega arith)
  silent_since now i c (some q) none h = inr (q, refl, h)
  silent_since now i c (some q) (some p) h = inr (q, refl, omega arith)

  not_asked_since :
      (now interval since : ℕ) (poll : Option ℕ)
      → newest_of since poll + interval ≤ now
      → (poll ≡ none) ⊎ ((at : ℕ) × (poll ≡ some at) × (at + interval ≤ now))
  not_asked_since now i s none h = inl refl
  not_asked_since now i s (some p) h = inr (p, refl, omega arith)

  or_time-le :
      (now interval connected : ℕ) (position : Option ℕ)
      → ((position ≡ none) × (connected + interval ≤ now))
        ⊎ ((at : ℕ) × (position ≡ some at) × (at + interval ≤ now))
      → or_time position connected + interval ≤ now
  or_time-le now i c position (inl (e, h)) = rw e h
  or_time-le now i c position (inr (at, e, h)) = rw e h

  newest_of-le :
      (now interval since : ℕ) (poll : Option ℕ)
      → since + interval ≤ now
      → (poll ≡ none) ⊎ ((at : ℕ) × (poll ≡ some at) × (at + interval ≤ now))
      → newest_of since poll + interval ≤ now
  newest_of-le now i s poll h (inl e) = rw e h
  newest_of-le now i s poll h (inr (at, e, k)) = rw e (omega arith)

  is_due-Due : (now : ℕ) (entry : Entry) → is_due now entry ≡ true → Due now entry
  unfolding is_due interval_for
  is_due-Due now entry h =
      let both = &&-true _ _ h in
      let late = leb→le _ _ both.1 in
      record {
        interval = if is_moving entry.last_speed then moving_interval else idle_interval;
        applies = interval_for-Applies entry entry.last_speed refl;
        gps103_device = is_gps103-true entry.protocol both.0;
        silent =
            silent_since now _ entry.connected_at entry.last_position_at entry.last_poll_at late;
        not_asked =
            not_asked_since now _ (or_time entry.last_position_at entry.connected_at)
              entry.last_poll_at late;
      }

  Due-is_due : (now : ℕ) (entry : Entry) → Due now entry → is_due now entry ≡ true
  unfolding is_due interval_for
  Due-is_due now entry d =
      let since = or_time-le now d.interval entry.connected_at entry.last_position_at d.silent in
      let late =
        newest_of-le now d.interval (or_time entry.last_position_at entry.connected_at)
          entry.last_poll_at since d.not_asked in
      rw (d.gps103_device, Applies-interval_for entry d.interval d.applies, le→leb _ _ late) refl

  -- An entry of the registry under an IMEI that has a property.
  abbrev pub Holds : Dict Text Entry → Text → (Entry → Type 0) → Type 0
  Holds [] imei P = ⊥
  Holds ((j, entry) ∷ entries) imei P = ((j ≡ imei) × P entry) ⊎ Holds entries imei P

  abbrev pub Listed : Text → List Text → Type 0
  Listed imei [] = ⊥
  Listed imei (j ∷ imeis) = (j ≡ imei) ⊎ Listed imei imeis

  due_among_iff :
      (now : ℕ) (imei : Text) (entries : Dict Text Entry)
      → Listed imei (due_among now entries) ↔ Holds entries imei (Due now)
  due_among_iff now imei [] = (λ h. h, λ h. h)
  due_among_iff now imei ((j, entry) ∷ entries) =
      let (to, from) = due_among_iff now imei entries in
      elim (Bool-cases (is_due now entry)) [
        | inl t ↦ rw t (
          λ h. elim h [ inl e ↦ inl (e, is_due-Due now entry t) | inr k ↦ inr (to k) ],
          λ h. elim h [ inl (e, d) ↦ inl e | inr k ↦ inr (from k) ],
        )
        | inr f ↦ rw f (
          λ h. inr (to h),
          λ h. elim h [ inl (e, d) ↦ absurd (clash (f, Due-is_due now entry d)) | inr k ↦ from k ],
        )
      ]
    where
      clash : (is_due now entry ≡ false) × (is_due now entry ≡ true) → ⊥
      clash (x, y) = cc

  -- The IMEIs that are to be polled are exactly those under which the registry has a GPS103 device
  -- whose interval has passed since its last position, or since it connected if it has none, and
  -- since it was last asked, if it was. The interval is the moving one when the last speed is above
  -- 0, and the idle one when it is 0 or unknown.
  pub due_devices_iff :
      (now : ℕ) (r : Registry) (imei : Text)
      → Listed imei (due_devices now r) ↔ Holds r.by_imei imei (Due now)
  unfolding due_devices
  due_devices_iff now r imei = due_among_iff now imei r.by_imei
