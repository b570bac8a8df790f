-- ===== src/Health/Polls.antt =====
-- What a sequence of health reports does to the database and to the log.
use shalotrack_gateway.Shared.{
  ℕ, ◌-◌, ◌≤◌, ◌≡◌, ◌≢◌, refl, ap, subst, inl, inr, Bool, true, false, Option, none, some, List, [],
  ◌∷◌, min, if◌then◌else◌, Bool-cases, ltb, ltb-false, arith, ==_iff,
}
use shalotrack_gateway.Registry.{Registry}
use shalotrack_gateway.Health.{
  Level, rank, same_level, Reason, Settings, Outside, Monitor, Cached, Line, fresh, ttl, cache_fail,
  cached_or_probe, db_check, check_loop, call_on_loop, is_logged, log_state_change, get_health,
}

-- The monitor after a sequence of reports, the first of which is the last of the list.
unfoldable pub after : Settings → List (Outside × Registry) → Monitor
unfolding get_health
after settings [] = fresh
after settings ((outside, registry) ∷ polls) =
    (get_health settings outside registry (after settings polls)).1

-- The probes of the database, newest first, are apart by the shorter time that an answer is kept.
pub data Spaced (gap : ℕ) : List ℕ → Type 0 where
  none_yet : Spaced gap []
  first : (t : ℕ) → Spaced gap (t ∷ [])
  later : (t s : ℕ) (ts : List ℕ) → gap ≤ t - s → Spaced gap (s ∷ ts) → Spaced gap (t ∷ s ∷ ts)

-- The cache is what the newest probe left.
data Kept : Option Cached → List ℕ → Type 0 where
  unasked : Kept none []
  answered : (c : Cached) (ts : List ℕ) → Kept (some c) (c.at_time ∷ ts)

-- The lines, newest first: each goes on from the level that the one before it came to, and to
-- another one.
pub data Chained : Option Level → List Line → Type 0 where
  unlogged : Chained none []
  changed :
      (line : Line) (lines : List Line)
      → line.previous ≢ some line.level
      → Chained line.previous lines
      → Chained (some line.level) (line ∷ lines)

abbrev gap_of : Settings → ℕ
gap_of settings = min settings.cache_ok cache_fail

next_first : {gap : ℕ} (t : ℕ) (ts : List ℕ) → Kept none ts → Spaced gap (t ∷ ts)
next_first t _ unasked = first t

next_later :
    {gap : ℕ} (t : ℕ) (c : Cached) (ts : List ℕ)
    → gap ≤ t - c.at_time
    → Kept (some c) ts
    → Spaced gap ts
    → Spaced gap (t ∷ ts)
next_later t _ _ h (answered c ts) s = later t c.at_time ts h s

differs : (state : Level) (last : Option Level) → is_logged state last ≡ false → last ≢ some state
differs state none h e = cc
differs state (some last) h e = apart (ap (is_logged state) e)
  where
    apart : is_logged state (some last) ≡ same_level state state → ⊥
    apart q = cc ((==_iff (rank state) (rank state)).1 refl, h, q)

module _ (settings : Settings) where
  abbrev Sound : Monitor → Type 0
  Sound m =
      (Spaced (min settings.cache_ok cache_fail) m.pings × Kept m.db_cache m.pings)
      × Chained m.last_logged m.log

  gap_le :
      (b : Bool) (age : ℕ)
      → ltb age (if b then settings.cache_ok else cache_fail) ≡ false
      → min settings.cache_ok cache_fail ≤ age
  gap_le true age h = omega (arith, ltb-false _ _ h)
  gap_le false age h = omega (arith, ltb-false _ _ h)

  probe-Sound :
      (outside : Outside) (m : Monitor) (c : Option Cached)
      → m.db_cache ≡ c
      → Sound m
      → Sound (cached_or_probe settings outside c m).1
  probe-Sound outside m none e ((s, k), l) =
      ((next_first _ _ (subst (λ o. Kept o m.pings) e k), answered _ m.pings), l)
  probe-Sound outside m (some c) e ((s, k), l) =
      elim (Bool-cases (ltb (outside.monotonic - c.at_time) (ttl settings c.check))) [
        | inl t ↦ rw t ((s, k), l)
        | inr f ↦ rw f (
          (
            next_later outside.monotonic c m.pings (gap_le c.check.succeeded _ f)
                (subst (λ o. Kept o m.pings) e k) s,
            answered _ m.pings,
          ),
          l,
        )
      ]

  log_state_change-Sound :
      (state : Level) (reasons : List Reason) (m : Monitor)
      → Sound m
      → Sound (log_state_change state reasons m)
  unfolding log_state_change
  log_state_change-Sound state reasons m (a, l) =
      elim (Bool-cases (is_logged state m.last_logged)) [
        | inl t ↦ rw t (a, l)
        | inr f ↦ rw f (a, changed _ m.log (differs state m.last_logged f) l)
      ]

  check_loop-Sound :
      (outside : Outside) (m : Monitor) → Sound m → Sound (check_loop settings outside m).1
  unfolding check_loop db_check
  check_loop-Sound outside m h = elim (Bool-cases (call_on_loop outside.noop).succeeded) [
    | inl t ↦ rw t (probe-Sound outside m m.db_cache refl h)
    | inr f ↦ rw f h
  ]

  all_Sound : (polls : List (Outside × Registry)) → Sound (after settings polls)
  unfolding after get_health
  all_Sound [] = ((none_yet, unasked), unlogged)
  all_Sound ((outside, registry) ∷ polls) =
      log_state_change-Sound _ _ _
        (check_loop-Sound outside (after settings polls) (all_Sound polls))

  -- However the health report is polled and whatever the probes answer, two probes of the database are
  -- apart by at least the time that an answer is kept (the shorter of those of a success and of a
  -- failure), and the log has a line per change of the status only: each line goes on from the level
  -- that the one before it came to, and to another one.
  pub after-Sound :
      (polls : List (Outside × Registry))
      → let m = after settings polls in
        Spaced (min settings.cache_ok cache_fail) m.pings × Chained m.last_logged m.log
  after-Sound polls = let ((s, k), l) = all_Sound polls in (s, l)
