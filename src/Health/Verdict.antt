-- ===== src/Health/Verdict.antt =====
-- The status of the health report.
use shalotrack_gateway.Shared.{
  ◌≡◌, refl, ◌↔◌, inl, inr, Bool, true, false, ◌||◌, not, Option, none, some, List, [], ◌∷◌, ◌++◌,
  length, if◌then◌else◌, Bool-cases, ap, ◌∙◌,
}
use shalotrack_gateway.Registry.{Registry}
use shalotrack_gateway.Health.{
  Level, ok, degraded, down, Reason, loop_stuck, Check, Settings, Outside, Monitor, Pool,
  call_on_loop, db_check, flag, flag_if, flag_database, flag_pool, is_slow, is_exhausted,
  is_near_limit, is_silent, check_loop, check_devices, get_health,
}

abbrev is_pool_full : Option Pool → Bool
is_pool_full none = false
is_pool_full (some pool) = is_exhausted pool

-- What is wrong although the gateway works.
abbrev pub warns : Settings → Outside → Registry → Check → Bool
warns settings outside registry database =
    is_slow database.elapsed
    || (is_pool_full outside.pool
        || (is_near_limit settings (length registry.by_imei)
            || is_silent settings outside.now registry.last_packet_at))

-- The status that the module's description asks for.
abbrev pub verdict : Settings → Outside → Registry → Monitor → Level
verdict settings outside registry m =
    let database = (db_check settings outside m).0.check in
    if not (call_on_loop outside.noop).succeeded
    then down
    else if not database.succeeded
    then down
    else if warns settings outside registry database
    then degraded
    else ok

-- A level and the reasons for it: none for ok, and one at least for another.
data Fits : Level × List Reason → Type 0 where
  nothing : Fits (ok, [])
  worried : (r : Reason) (rs : List Reason) → Fits (degraded, r ∷ rs)
  broken : (r : Reason) (rs : List Reason) → Fits (down, r ∷ rs)

flag-Fits : (r : Reason) (f : Level × List Reason) → Fits f → Fits (flag degraded r f)
flag-Fits r _ nothing = worried r []
flag-Fits r _ (worried q rs) = worried q (rs ++ (r ∷ []))
flag-Fits r _ (broken q rs) = broken q (rs ++ (r ∷ []))

flag_if-Fits :
    (c : Bool) (r : Reason) (f : Level × List Reason) → Fits f → Fits (flag_if c degraded r f)
flag_if-Fits true r f h = flag-Fits r f h
flag_if-Fits false r f h = h

Fits-iff : (f : Level × List Reason) → Fits f → (f.0 ≡ ok) ↔ (f.1 ≡ [])
Fits-iff _ nothing = (λ _. refl, λ _. refl)
Fits-iff _ (worried r rs) = (λ h. cc, λ h. cc)
Fits-iff _ (broken r rs) = (λ h. cc, λ h. cc)

abbrev soften : Bool → Level → Level
soften c ok = if c then degraded else ok
soften c degraded = degraded
soften c down = down

flag_if-level :
    (c : Bool) (r : Reason) (f : Level × List Reason) → (flag_if c degraded r f).0 ≡ soften c f.0
flag_if-level true r (ok, rs) = refl
flag_if-level true r (degraded, rs) = refl
flag_if-level true r (down, rs) = refl
flag_if-level false r (ok, rs) = refl
flag_if-level false r (degraded, rs) = refl
flag_if-level false r (down, rs) = refl

flag_pool-level :
    (pool : Option Pool) (f : Level × List Reason)
    → (flag_pool pool f).0 ≡ soften (is_pool_full pool) f.0
flag_pool-level none (ok, rs) = refl
flag_pool-level none (degraded, rs) = refl
flag_pool-level none (down, rs) = refl
flag_pool-level (some pool) f = flag_if-level (is_exhausted pool) _ f

flag_pool-Fits : (pool : Option Pool) (f : Level × List Reason) → Fits f → Fits (flag_pool pool f)
flag_pool-Fits none f h = h
flag_pool-Fits (some pool) f h = flag_if-Fits (is_exhausted pool) _ f h

soften_down : (a b c : Bool) → soften a (soften b (soften c down)) ≡ down
soften_down a b c = refl

soften_any :
    (a b c d : Bool)
    → soften d (soften c (soften b (soften a ok))) ≡ (if a || (b || (c || d)) then degraded else ok)
soften_any true b c d = refl
soften_any false true c d = refl
soften_any false false true d = refl
soften_any false false false true = refl
soften_any false false false false = refl

module _ (settings : Settings) (outside : Outside) (registry : Registry) where
  check_devices-level :
      (f : Level × List Reason)
      → (check_devices settings (length registry.by_imei) outside.now registry.last_packet_at f).0
        ≡ soften
            (is_silent settings outside.now registry.last_packet_at)
            (soften (is_near_limit settings (length registry.by_imei)) f.0)
  check_devices-level f =
      flag_if-level (is_silent settings outside.now registry.last_packet_at) _ _
      ∙ ap (soften (is_silent settings outside.now registry.last_packet_at))
          (flag_if-level (is_near_limit settings (length registry.by_imei)) _ f)

  check_devices-Fits :
      (f : Level × List Reason)
      → Fits f
      → Fits
          (check_devices settings (length registry.by_imei) outside.now registry.last_packet_at f)
  check_devices-Fits f h =
      flag_if-Fits (is_silent settings outside.now registry.last_packet_at) _ _
        (flag_if-Fits (is_near_limit settings (length registry.by_imei)) _ f h)

  -- The checks of the database, then those of the devices.
  abbrev judged : Check → Level × List Reason
  judged database =
      check_devices settings (length registry.by_imei) outside.now registry.last_packet_at
        (flag_pool outside.pool (flag_database database (ok, [])))

  judged-Fits : (database : Check) → Fits (judged database)
  judged-Fits database = check_devices-Fits _ (
      flag_pool-Fits outside.pool _ (elim (Bool-cases database.succeeded) [
        | inl t ↦ rw t (flag_if-Fits (is_slow database.elapsed) _ _ nothing)
        | inr f ↦ rw f (broken _ [])
      ]))

  judged-level :
      (database : Check)
      → (judged database).0 ≡ (
          if not database.succeeded
          then down
          else if warns settings outside registry database
          then degraded
          else ok)
  judged-level database = elim (Bool-cases database.succeeded) [
    | inl t ↦ rw t (
        check_devices-level _
        ∙ ap
            (λ l.
              soften (is_silent settings outside.now registry.last_packet_at)
                (soften (is_near_limit settings (length registry.by_imei)) l))
            (flag_pool-level outside.pool _
              ∙ ap (soften (is_pool_full outside.pool))
                  (flag_if-level (is_slow database.elapsed) _ (ok, [])))
        ∙ soften_any (is_slow database.elapsed) (is_pool_full outside.pool)
            (is_near_limit settings (length registry.by_imei))
            (is_silent settings outside.now registry.last_packet_at))
    | inr f ↦ rw f (
        check_devices-level _
        ∙ ap
            (λ l.
              soften (is_silent settings outside.now registry.last_packet_at)
                (soften (is_near_limit settings (length registry.by_imei)) l))
            (flag_pool-level outside.pool _))
  ]

  -- The health report says "down" just when the main loop does not answer or the database does not,
  -- otherwise "degraded" just when the database is slow, its pool is used up, the connections are near
  -- their limit or no packet has come for too long, and otherwise "ok"; and it gives reasons just when
  -- it does not say "ok".
  pub get_health-verdict :
      (m : Monitor)
      → let report = (get_health settings outside registry m).0 in
        (report.status ≡ verdict settings outside registry m)
        × ((report.status ≡ ok) ↔ (report.reasons ≡ []))
  unfolding get_health check_loop
  get_health-verdict m = elim (Bool-cases (call_on_loop outside.noop).succeeded) [
    | inl t ↦ rw t (
      judged-level (db_check settings outside m).0.check,
      Fits-iff _ (judged-Fits (db_check settings outside m).0.check),
    )
    | inr f ↦ rw f (
      check_devices-level (down, loop_stuck (call_on_loop outside.noop).error ∷ []),
      Fits-iff _ (check_devices-Fits _ (broken _ [])),
    )
  ]
