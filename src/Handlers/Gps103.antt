-- ===== src/Handlers/Gps103.antt =====
-- services/gps103_handler.py: one message of a GPS103 device. What Python's float() accepts is a
-- parameter, as is config.GPS103_SPEED_IN_KMH.
pub mod Calm
pub mod Binding
pub mod Writes
pub mod Alarms
use shalotrack_gateway.Shared.{
  ℕ, Bool, true, false, not, ◌&&◌, ◌||◌, Option, none, some, List, [], ◌∷◌, ◌==◌, if◌then◌else◌,
}
use shalotrack_gateway.Shared.Bytes.{Bytes, bytes_eq}
use shalotrack_gateway.Shared.Text.{Text, codes}
use shalotrack_gateway.Shared.Int.{ℤ, pos, negsuc, pos_part, within}
use shalotrack_gateway.Shared.Attempt.{Attempt, returns, raises}
use shalotrack_gateway.Registry.{
  Registry, Entry, gps103, register_device, get_device, get_imei_by_socket, note_position,
}
use shalotrack_gateway.World.{
  World, Environment, Statement, Decimal, DateTime, EventTime, calendar, instant, Position,
  EventRow, in_degrees, truthy,
}
use shalotrack_gateway.World.Action.{
  Action, pure, fault, lift, gets, catch, close, safely, send, execute, save_raw_packet,
  update_registry, ◌>>=◌, ◌>>◌,
}
use shalotrack_gateway.Repository.{get_device_by_imei, get_vehicle_by_device}
use shalotrack_gateway.Numeric.{Reading, finite, non_finite, clean_coordinates}
use shalotrack_gateway.Parsers.Gps103.{
  Kind, login, heartbeat, tracker, unknown, classify, parse_login, parse_heartbeat, parse_tracker,
  Tracker, Fix, is_high, build_help_me_ack, login_reply, heartbeat_reply,
}
use shalotrack_gateway.Handlers.Common.{
  drop_connection, login_bookkeeping, family_name, severity_medium, severity_high,
}

abbrev pub is_natural : ℤ → Bool
is_natural (pos n) = true
is_natural (negsuc n) = false

-- 0 <= value <= limit
abbrev pub from_zero : ℕ → Decimal → Bool
from_zero limit value = is_natural value.num && in_degrees limit value

abbrev pub is_zero : Decimal → Bool
is_zero value = within 0 value.num

-- A finite speed and heading, within 300 and 360.
abbrev pub motion_of : Reading → Reading → Option (Decimal × Decimal)
motion_of non_finite heading = none
motion_of (finite speed) non_finite = none
motion_of (finite speed) (finite heading) =
    if from_zero 300 speed && from_zero 360 heading then some (speed, heading) else none

-- location_is_valid, for the speed and heading if the location is valid
unfoldable pub location_is_valid : Fix → Option (Decimal × Decimal)
unfolding in_degrees
location_is_valid fix =
    if is_zero fix.latitude && is_zero fix.longitude
    then none
    else if in_degrees 90 fix.latitude && in_degrees 180 fix.longitude
    then motion_of fix.speed fix.heading
    else none

-- data["timestamp"] or datetime.now(timezone.utc)
abbrev pub event_time : Option DateTime → ℕ → EventTime
event_time none now = instant now
event_time (some t) now = calendar t

abbrev pub position_of : Fix → Decimal × Decimal → ℕ → Position
position_of fix (speed, heading) now = record {
  latitude = fix.latitude;
  longitude = fix.longitude;
  speed = speed;
  heading = heading;
  satellites = 0;
  event_time = event_time fix.timestamp now;
}

abbrev pub paired : Fix → Option (Decimal × Decimal) → Option (Fix × (Decimal × Decimal))
paired fix none = none
paired fix (some motion) = some (fix, motion)

-- A position that may be stored, with its speed and heading.
abbrev pub storable : Option Fix → Option (Fix × (Decimal × Decimal))
storable none = none
storable (some fix) = paired fix (location_is_valid fix)

abbrev pub coordinates_of : Option (Fix × (Decimal × Decimal)) → Option Decimal × Option Decimal
coordinates_of none = (none, none)
coordinates_of (some (fix, motion)) =
    clean_coordinates (some (finite fix.latitude)) (some (finite fix.longitude))

abbrev pub alarm_event : Option Text → Text → Option (Fix × (Decimal × Decimal)) → EventRow
alarm_event vehicle_id alarm position =
    let clean = coordinates_of position in
    record {
      vehicle_id = vehicle_id;
      event_type = alarm;
      severity = if is_high alarm then severity_high else severity_medium;
      latitude = clean.0;
      longitude = clean.1;
    }

-- if alarm == "SOS"
abbrev pub is_sos : Option Text → Bool
is_sos none = false
is_sos (some alarm) = bytes_eq alarm (codes "SOS")

-- bool(alarm)
abbrev pub is_alarm : Option Text → Bool
is_alarm none = false
is_alarm (some []) = false
is_alarm (some (c ∷ cs)) = true

module _ (env : Environment) (float_of : Text → Option Reading) (in_kmh : Bool) where
  -- _authenticated_imei: close, and no IMEI, before login or when the message names another device
  abbrev pub authenticated : ℕ → Text → Option Text → Action (Option Text)
  authenticated conn message_imei none = drop_connection conn
  authenticated conn message_imei (some connection_imei) =
      if bytes_eq message_imei connection_imei
      then pure (some connection_imei)
      else drop_connection conn

  unfoldable pub authenticated_imei : ℕ → Text → Action (Option Text)
  authenticated_imei conn message_imei w =
      authenticated conn message_imei (truthy (get_imei_by_socket conn w.registry)) w

  abbrev pub welcome : Bytes → ℕ → Text → Text → Option Text → Action (Option Text)
  welcome raw conn ip imei none = drop_connection conn
  welcome raw conn ip imei (some device_id) = do
    λ w. (
      returns tt,
      record w { registry = register_device imei ip device_id conn gps103 (env.now w) w.registry },
    )
    send env conn login_reply
    login_bookkeeping env gps103 device_id raw
    pure (some imei)

  unfoldable pub handle_login : Text → Bytes → ℕ → Text → Action (Option Text)
  handle_login text raw conn ip = do
    imei ← lift (parse_login text)
    device_id ← get_device_by_imei env imei gps103
    welcome raw conn ip imei (truthy device_id)

  -- get_device(imei)["device_id"], which raises on a device that is gone
  abbrev pub device_id_of : Option Entry → Attempt Text
  device_id_of none = raises
  device_id_of (some device) = returns device.device_id

  abbrev pub beat : ℕ → Option Text → Action (Option Text)
  beat conn none = pure none
  beat conn (some imei) = do
    send env conn heartbeat_reply
    device_id ← λ w. (device_id_of (get_device imei w.registry), w)
    safely (execute env (Statement.mark_device_alive device_id true))
    pure (some imei)

  unfoldable pub handle_heartbeat : Text → ℕ → Action (Option Text)
  unfolding authenticated_imei
  handle_heartbeat text conn = do
    imei ← lift (parse_heartbeat text)
    connection_imei ← authenticated_imei conn imei
    beat conn connection_imei

  -- if alarm == "SOS": the acknowledgement, before anything is written to the database
  abbrev pub acknowledge_sos : ℕ → Text → Option Text → Action Unit
  acknowledge_sos conn imei alarm =
      if is_sos alarm then send env conn (build_help_me_ack imei) else pure tt

  abbrev pub store_ignition : Text → Option Bool → Action Unit
  store_ignition device_id none = pure tt
  store_ignition device_id (some on) = safely (execute env (Statement.set_ignition device_id on))

  -- The vehicle, which only an alarm asks for; a failed lookup is none.
  abbrev pub vehicle_for : Text → Option Text → Action (Option Text)
  vehicle_for device_id alarm =
      if is_alarm alarm then catch none (get_vehicle_by_device env device_id) else pure none

  abbrev pub store_position : Text → Text → Option (Fix × (Decimal × Decimal)) → Action Unit
  store_position imei device_id none = pure tt
  store_position imei device_id (some (fix, (speed, heading))) = do
    now ← gets env.now
    safely (execute env (Statement.save_location device_id (position_of fix (speed, heading) now)))
    seen ← gets env.now
    update_registry (note_position imei (some (pos_part speed.num)) seen)

  abbrev pub store_alarm :
      Text → Option Text → Option (Fix × (Decimal × Decimal)) → Option Text → Action Unit
  store_alarm device_id vehicle_id position none = pure tt
  store_alarm device_id vehicle_id position (some []) = pure tt
  store_alarm device_id vehicle_id position (some (c ∷ cs)) =
      safely
        (execute env (Statement.create_event device_id (alarm_event vehicle_id (c ∷ cs) position)))

  unfoldable pub store_report : Bytes → ℕ → Text → Text → Tracker → Action (Option Text)
  unfolding location_is_valid
  store_report raw conn imei device_id report = do
    let position = storable report.fix
    acknowledge_sos conn imei report.alarm_name
    safely (
        save_raw_packet env device_id (family_name gps103) raw
          (is_alarm report.alarm_name || not report.known_keyword) true)
    store_ignition device_id report.ignition
    vehicle_id ← vehicle_for device_id report.alarm_name
    store_position imei device_id position
    store_alarm device_id vehicle_id position report.alarm_name
    pure (some imei)

  abbrev pub report_from : Bytes → ℕ → Tracker → Option Text → Action (Option Text)
  report_from raw conn report none = pure none
  report_from raw conn report (some imei) = do
    device_id ← λ w. (device_id_of (get_device imei w.registry), w)
    store_report raw conn imei device_id report

  unfoldable pub handle_tracker : Text → Bytes → ℕ → Action (Option Text)
  unfolding authenticated_imei store_report
  handle_tracker text raw conn = do
    report ← lift (parse_tracker float_of in_kmh text)
    imei ← authenticated_imei conn report.imei
    report_from raw conn report imei

  abbrev pub handle : Kind → Text → Bytes → ℕ → Text → Action (Option Text)
  handle login text raw conn ip = handle_login text raw conn ip
  handle heartbeat text raw conn ip = handle_heartbeat text conn
  handle tracker text raw conn ip = handle_tracker text raw conn
  handle unknown text raw conn ip = pure none

  -- Both `except` clauses answer with the connection's IMEI.
  abbrev pub or_socket_imei : ℕ → Attempt (Option Text) → World → Option Text
  or_socket_imei conn (returns answer) w = answer
  or_socket_imei conn raises w = get_imei_by_socket conn w.registry

  unfoldable pub process_gps103_message : Bytes → ℕ → Text → World → Option Text × World
  unfolding handle_login handle_heartbeat handle_tracker
  process_gps103_message raw conn ip w =
      let (kind, text) = classify raw in
      let (r, w') = handle kind text raw conn ip w in (or_socket_imei conn r w', w')
