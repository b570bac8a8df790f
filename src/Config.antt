-- ===== src/Config.antt =====
-- config.py: the settings that the gateway reads from its environment, which is ASCII text. What int()
-- and float() accept is a parameter. HOST and LOG_LEVEL, which stay the text that they are, are left
-- out.
use shalotrack_gateway.Shared.{ℕ, max, Bool, ◌==◌, Option, none, some, List, [], ◌∷◌, if◌then◌else◌}
use shalotrack_gateway.Shared.Bytes.{bytes_eq}
use shalotrack_gateway.Shared.Text.{Text, codes, strip, is_space, split_on, lower, upper}
use shalotrack_gateway.Shared.Int.{ℤ, pos, pos_part}
use shalotrack_gateway.Shared.Attempt.{Attempt, returns, raises, ◌>>=◌}
use shalotrack_gateway.Registry.{Family, gt06, gps103, teltonika}
use shalotrack_gateway.World.{Decimal, RawMode, off, selective, all}

pub record Config : Type 0 where
  pub port : ℤ
  pub connection_timeout : ℤ
  pub max_connections : ℤ
  pub probe_timeout : Decimal
  pub gps103_speed_in_kmh : Bool
  pub gps103_max_unframed_bytes : ℤ
  pub enabled_protocols : List Family
  pub gps103_poll_seconds : ℕ
  pub gps103_poll_idle_seconds : ℕ
  pub teltonika_max_packet_bytes : ℤ
  pub teltonika_max_future_seconds : ℤ
  pub db_pool_min : ℤ
  pub db_pool_max : ℤ
  pub raw_packet_mode : RawMode
  pub gps_tracking_idempotent : Bool
  pub low_battery_threshold : ℤ
  pub overspeed_threshold : ℤ

abbrev pub or_default : Text → Option Text → Text
or_default default none = default
or_default default (some value) = value

-- os.getenv(name, "false").lower() == "true", and with strip() before
abbrev pub is_true : Option Text → Bool
is_true value = bytes_eq (lower (or_default (codes "false") value)) (codes "true")

abbrev pub is_true_stripped : Option Text → Bool
is_true_stripped value =
    bytes_eq (lower (strip is_space (or_default (codes "false") value))) (codes "true")

-- The family of a name in ENABLED_PROTOCOLS; an unknown or empty one is ignored.
abbrev pub family_of : Text → Option Family
family_of name =
    if bytes_eq name (codes "GT06")
    then some gt06
    else if bytes_eq name (codes "GPS103")
    then some gps103
    else if bytes_eq name (codes "TELTONIKA")
    then some teltonika
    else none

abbrev pub cons_known : Option Family → List Family → List Family
cons_known none families = families
cons_known (some family) families = family ∷ families

abbrev pub families_of : List Text → List Family
families_of [] = []
families_of (name ∷ names) =
    cons_known (family_of (upper (strip is_space name))) (families_of names)

unfoldable pub enabled_protocols : Option Text → List Family
enabled_protocols value = families_of (split_on b',' (or_default (codes "GT06,GPS103") value))

-- RAW_PACKET_MODE, of which every other value counts as selective
abbrev pub raw_mode_of : Text → RawMode
raw_mode_of mode =
    if bytes_eq mode (codes "off")
    then off
    else if bytes_eq mode (codes "all")
    then all
    else selective

unfoldable pub raw_packet_mode : Option Text → RawMode
raw_packet_mode value = raw_mode_of (lower (strip is_space (or_default (codes "selective") value)))

-- 0 if _poll <= 0 else max(10, _poll)
abbrev pub raised : ℕ → ℕ
raised poll = if poll == 0 then 0 else max 10 poll

module _ (int_of : Text → Attempt ℤ) (float_of : Text → Attempt Decimal) where
  abbrev pub int_or : ℤ → Option Text → Attempt ℤ
  int_or default none = returns default
  int_or default (some value) = int_of value

  abbrev pub float_or : Decimal → Option Text → Attempt Decimal
  float_or default none = returns default
  float_or default (some value) = float_of value

  abbrev pub value_or : ℤ → Attempt ℤ → ℤ
  value_or default (returns n) = n
  value_or default raises = default

  -- _int_env: except ValueError: default
  abbrev pub int_env : ℤ → Option Text → ℤ
  int_env default value = value_or default (int_or default value)

  unfoldable pub gps103_poll_seconds : Option Text → ℕ
  gps103_poll_seconds value = raised (pos_part (int_env (pos 0) value))

  unfoldable pub gps103_poll_idle_seconds : ℕ → Option Text → ℕ
  gps103_poll_idle_seconds poll value = max poll (pos_part (int_env (pos 300) value))

  unfoldable pub load : (Text → Option Text) → Attempt Config
  unfolding enabled_protocols raw_packet_mode gps103_poll_seconds gps103_poll_idle_seconds
  load getenv = do
    port ← int_or (pos 9000) (getenv (codes "PORT"))
    connection_timeout ← int_or (pos 300) (getenv (codes "CONNECTION_TIMEOUT"))
    max_connections ← int_or (pos 500) (getenv (codes "MAX_CONNECTIONS"))
    probe_timeout ← float_or (record { num = pos 1; scale = 1 }) (getenv (codes "PROBE_TIMEOUT"))
    unframed ← int_or (pos 2048) (getenv (codes "GPS103_MAX_UNFRAMED_BYTES"))
    let poll = gps103_poll_seconds (getenv (codes "GPS103_POLL_SECONDS"))
    packet_bytes ← int_or (pos 4096) (getenv (codes "TELTONIKA_MAX_PACKET_BYTES"))
    future_seconds ← int_or (pos 600) (getenv (codes "TELTONIKA_MAX_FUTURE_SECONDS"))
    pool_min ← int_or (pos 5) (getenv (codes "DB_POOL_MIN"))
    pool_max ← int_or (pos 150) (getenv (codes "DB_POOL_MAX"))
    low_battery ← int_or (pos 2) (getenv (codes "LOW_BATTERY_THRESHOLD"))
    overspeed ← int_or (pos 80) (getenv (codes "OVERSPEED_THRESHOLD"))
    returns (record {
      port = port;
      connection_timeout = connection_timeout;
      max_connections = max_connections;
      probe_timeout = probe_timeout;
      gps103_speed_in_kmh = is_true (getenv (codes "GPS103_SPEED_IN_KMH"));
      gps103_max_unframed_bytes = unframed;
      enabled_protocols = enabled_protocols (getenv (codes "ENABLED_PROTOCOLS"));
      gps103_poll_seconds = poll;
      gps103_poll_idle_seconds =
          gps103_poll_idle_seconds poll (getenv (codes "GPS103_POLL_IDLE_SECONDS"));
      teltonika_max_packet_bytes = packet_bytes;
      teltonika_max_future_seconds = future_seconds;
      db_pool_min = pool_min;
      db_pool_max = pool_max;
      raw_packet_mode = raw_packet_mode (getenv (codes "RAW_PACKET_MODE"));
      gps_tracking_idempotent = is_true_stripped (getenv (codes "GPS_TRACKING_IDEMPOTENT"));
      low_battery_threshold = low_battery;
      overspeed_threshold = overspeed;
    })
