-- ===== src/Health.antt =====
-- services/health_service.py: the health report. Times are in microseconds, those of packets in
-- milliseconds; what the probes, the clocks and the pool answer is an argument.
pub mod Verdict
pub mod Polls
use shalotrack_gateway.Shared.{
  ℕ, ◌+◌, ◌-◌, ◌*◌, ◌/◌, Bool, true, false, ◌&&◌, Option, none, some, List, [], ◌∷◌, ◌++◌, length,
  ltb, leb, ◌==◌, if◌then◌else◌,
}
use shalotrack_gateway.Shared.Text.{Text, codes}
use shalotrack_gateway.Registry.{Registry}
use shalotrack_gateway.Numeric.{nearest}

-- OK, DEGRADED, DOWN
pub data Level : Type 0 where
  ok degraded down : Level

-- _RANK
abbrev pub rank : Level → ℕ
rank ok = 0
rank degraded = 1
rank down = 2

abbrev pub same_level : Level → Level → Bool
same_level a b = rank a == rank b

pub data Reason : Type 0 where
  loop_stuck : Option Text → Reason
  database_unreachable : Option Text → Reason
  database_slow : ℕ → Reason
  pool_exhausted : ℕ → ℕ → Reason
  near_limit : ℕ → ℕ → Reason
  silent : ℕ → Reason
  silent_since_start : ℕ → Reason

-- What became of a coroutine that is run on the main loop.
pub data Run : Type 0 where
  no_loop late : Run
  not_scheduled failed : Text → Run
  finished : ℕ → Run

pub record Check : Type 0 where
  pub succeeded : Bool
  pub elapsed : Option ℕ
  pub error : Option Text

abbrev refuses : Text → Check
refuses error = record { succeeded = false; elapsed = none; error = some error }

-- _call_on_loop
abbrev pub call_on_loop : Run → Check
call_on_loop no_loop = refuses (codes "no_event_loop")
call_on_loop late = refuses (codes "timeout")
call_on_loop (not_scheduled error) = refuses error
call_on_loop (failed error) = refuses error
call_on_loop (finished elapsed) = record { succeeded = true; elapsed = some elapsed; error = none }

pub record Settings : Type 0 where
  pub max_connections : ℕ
  pub silence_seconds : ℕ
  pub cache_ok : ℕ
  pub started_at : ℕ
  pub started_mono : ℕ

-- DB_CACHE_FAIL_SECONDS
abbrev pub cache_fail : ℕ
cache_fail = 3000000

-- The answer of the last probe, in tenths of a millisecond, and when it was made.
pub record Cached : Type 0 where
  pub check : Check
  pub at_time : ℕ

pub record DbCheck : Type 0 where
  pub check : Check
  pub cached_age : ℕ

pub record Pool : Type 0 where
  pub size : ℕ
  pub idle : ℕ
  pub largest : ℕ

-- The answers from outside to one report.
pub record Outside : Type 0 where
  pub noop : Run
  pub ping : Run
  pub pool : Option Pool
  pub monotonic : ℕ
  pub now : ℕ

-- A line of the log: from which level to which, and why.
pub record Line : Type 0 where
  pub previous : Option Level
  pub level : Level
  pub reasons : List Reason

-- _db_cache and _last_logged_state, with the times of the probes and the log, newest first.
pub record Monitor : Type 0 where
  pub db_cache : Option Cached
  pub last_logged : Option Level
  pub pings : List ℕ
  pub log : List Line

abbrev pub fresh : Monitor
fresh = record { db_cache = none; last_logged = none; pings = []; log = [] }

-- round(value, places) of an optional time
abbrev pub rounded : ℕ → Option ℕ → Option ℕ
rounded unit none = none
rounded unit (some elapsed) = some (nearest elapsed unit)

abbrev pub ttl : Settings → Check → ℕ
ttl settings check = if check.succeeded then settings.cache_ok else cache_fail

abbrev pub probe : Outside → Monitor → DbCheck × Monitor
probe outside m =
    let check = call_on_loop outside.ping in
    let kept = record check { elapsed = rounded 100 check.elapsed } in
    (
      record { check = kept; cached_age = 0 },
      record m {
        db_cache = some (record { check = kept; at_time = outside.monotonic });
        pings = outside.monotonic ∷ m.pings;
      },
    )

abbrev pub cached_or_probe : Settings → Outside → Option Cached → Monitor → DbCheck × Monitor
cached_or_probe settings outside none m = probe outside m
cached_or_probe settings outside (some cached) m =
    let age = outside.monotonic - cached.at_time in
    if ltb age (ttl settings cached.check)
    then (record { check = cached.check; cached_age = nearest age 100000 }, m)
    else probe outside m

-- _db_check
unfoldable pub db_check : Settings → Outside → Monitor → DbCheck × Monitor
unfolding nearest
db_check settings outside m = cached_or_probe settings outside m.db_cache m

-- flag(level, reason)
abbrev pub flag : Level → Reason → Level × List Reason → Level × List Reason
flag level reason (state, reasons) =
    (if ltb (rank state) (rank level) then level else state, reasons ++ (reason ∷ []))

abbrev pub flag_if : Bool → Level → Reason → Level × List Reason → Level × List Reason
flag_if condition level reason found = if condition then flag level reason found else found

-- SLOW_DB_MS, in tenths of a millisecond
abbrev pub slow_db : ℕ
slow_db = 15000

abbrev pub is_slow : Option ℕ → Bool
is_slow none = false
is_slow (some elapsed) = ltb slow_db elapsed

abbrev pub or_zero : Option ℕ → ℕ
or_zero none = 0
or_zero (some n) = n

abbrev pub flag_database : Check → Level × List Reason → Level × List Reason
flag_database check found =
    if check.succeeded
    then flag_if (is_slow check.elapsed) degraded (database_slow (or_zero check.elapsed / 10)) found
    else flag down (database_unreachable check.error) found

abbrev pub is_exhausted : Pool → Bool
is_exhausted pool = ltb 0 pool.largest && ((pool.idle == 0) && leb pool.largest pool.size)

abbrev pub flag_pool : Option Pool → Level × List Reason → Level × List Reason
flag_pool none found = found
flag_pool (some pool) found =
    flag_if (is_exhausted pool) degraded (pool_exhausted pool.size pool.largest) found

abbrev pub is_near_limit : Settings → ℕ → Bool
is_near_limit settings connected =
    ltb 0 settings.max_connections && leb (9 * settings.max_connections) (10 * connected)

-- now - (last_packet or _started_at), which is nothing when the clock was set back
abbrev pub silent_for : Settings → ℕ → Option ℕ → ℕ
silent_for settings now none = now - settings.started_at
silent_for settings now (some last_packet) = now - last_packet

abbrev pub is_silent : Settings → ℕ → Option ℕ → Bool
is_silent settings now last_packet =
    ltb (settings.silence_seconds * 1000) (silent_for settings now last_packet)

abbrev pub silence : ℕ → Option ℕ → Reason
silence minutes none = silent_since_start minutes
silence minutes (some last_packet) = silent minutes

pub record Report : Type 0 where
  pub status : Level
  pub reasons : List Reason
  pub event_loop : Check
  pub database : Option DbCheck
  pub pool : Option Pool
  pub devices_connected : ℕ
  pub last_packet_age : Option ℕ
  pub uptime : ℕ

-- The checks of the loop and of the database, which is not asked when the loop is stuck.
abbrev pub Found : Type 0
Found = (Level × List Reason) × (Option DbCheck × Option Pool)

abbrev pub check_database : Outside → DbCheck × Monitor → Found × Monitor
check_database outside (db, m) =
    ((flag_pool outside.pool (flag_database db.check (ok, [])), (some db, outside.pool)), m)

unfoldable pub check_loop : Settings → Outside → Monitor → Found × Monitor
unfolding db_check
check_loop settings outside m =
    let loop = call_on_loop outside.noop in
    if loop.succeeded
    then check_database outside (db_check settings outside m)
    else ((flag down (loop_stuck loop.error) (ok, []), (none, none)), m)

-- The checks that no probe is needed for.
abbrev pub check_devices : Settings → ℕ → ℕ → Option ℕ → Level × List Reason → Level × List Reason
check_devices settings connected now last_packet found =
    flag_if (is_silent settings now last_packet) degraded
      (silence (silent_for settings now last_packet / 60000) last_packet)
      (flag_if (is_near_limit settings connected) degraded
        (near_limit connected settings.max_connections) found)

abbrev pub is_logged : Level → Option Level → Bool
is_logged state none = false
is_logged state (some last) = same_level state last

-- _log_state_change
unfoldable pub log_state_change : Level → List Reason → Monitor → Monitor
log_state_change state reasons m = if is_logged state m.last_logged then m else record m {
  last_logged = some state;
  log = (record { previous = m.last_logged; level = state; reasons = reasons }) ∷ m.log;
}

abbrev pub packet_age : ℕ → Option ℕ → Option ℕ
packet_age now none = none
packet_age now (some last_packet) = some (nearest (now - last_packet) 100)

abbrev pub loop_check : Run → Check
loop_check run = let check = call_on_loop run in record check { elapsed = rounded 10 check.elapsed }

abbrev pub report_of : Settings → Outside → Registry → Found × Monitor → Report × Monitor
report_of settings outside registry ((found, (database, pool)), m) =
    let connected = length registry.by_imei in
    let (state, reasons) =
      check_devices settings connected outside.now registry.last_packet_at found in
    (
      record {
        status = state;
        reasons = reasons;
        event_loop = loop_check outside.noop;
        database = database;
        pool = pool;
        devices_connected = connected;
        last_packet_age = packet_age outside.now registry.last_packet_at;
        uptime = (outside.monotonic - settings.started_mono) / 1000000;
      },
      log_state_change state reasons m,
    )

unfoldable pub get_health : Settings → Outside → Registry → Monitor → Report × Monitor
unfolding check_loop log_state_change nearest
get_health settings outside registry m =
    report_of settings outside registry (check_loop settings outside m)
