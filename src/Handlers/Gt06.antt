-- ===== src/Handlers/Gt06.antt =====
-- services/packet_handler.py: one packet of a GT06 device. What strptime() reads is a parameter of
-- the handler, and so are Python's int() and float() through the decoders.
pub mod Ack
pub mod Replies
use shalotrack_gateway.Shared.{
  ℕ, zero, suc, ◌+◌, ◌*◌, Bool, true, false, not, ◌&&◌, ◌||◌, Option, none, some, List, [], ◌∷◌,
  ◌++◌, leb, ltb, ◌==◌, if◌then◌else◌, get_elem?,
}
use shalotrack_gateway.Shared.Bytes.{Bytes, starts_with}
use shalotrack_gateway.Shared.Text.{Text, codes}
use shalotrack_gateway.Shared.Int.{ℤ}
use shalotrack_gateway.Shared.Attempt.{Attempt, returns, raises}
use shalotrack_gateway.Registry.{
  Registry, Entry, Family, gt06, register_device, get_device, get_imei_by_socket,
}
use shalotrack_gateway.World.{
  World, Environment, Statement, Event, closed, wrote, Position, Decimal, in_degrees, whole, Status,
  EventRow, calendar, truthy,
}
use shalotrack_gateway.World.Action.{
  Action, pure, fault, lift, gets, catch, close, send, execute, save_raw_packet, update_registry,
  ◌>>=◌, ◌>>◌,
}
use shalotrack_gateway.Repository.{get_device_by_imei, get_vehicle_by_device}
use shalotrack_gateway.Framing.Gt06.{short_marker, long_marker}
use shalotrack_gateway.Decoders.{Numbers, decode_information}
use shalotrack_gateway.Parsers.Replies.{parse_command_response, stored}
use shalotrack_gateway.Parsers.V5.{
  at, hex, is_long, Location, LoginPacket, TerminalStatus, Alarm, Information, coordinate_scale,
  parse_login_packet, parse_location_packet, parse_terminal_status, parse_alarm_packet,
  parse_information_packet, get_alarm_name, build_ack,
}
use shalotrack_gateway.Numeric.{finite, clean_coordinates}
use shalotrack_gateway.Handlers.Common.{
  plain_event, device_online, severity_low, severity_medium, severity_high,
}

abbrev pub degrees : ℤ → Decimal
degrees n = record { num = n; scale = coordinate_scale }

abbrev pub position_of : Location → Position
position_of loc = record {
  latitude = degrees loc.latitude;
  longitude = degrees loc.longitude;
  speed = whole loc.speed;
  heading = whole loc.heading;
  satellites = loc.satellites;
  event_time = calendar loc.timestamp;
}

unfoldable pub location_valid : Location → Bool
unfolding in_degrees
location_valid loc =
    in_degrees 90 (degrees loc.latitude)
    && in_degrees 180 (degrees loc.longitude)
    && leb loc.speed 300
    && leb loc.heading 360

-- constants/power_status.py
abbrev pub power_connected : ℕ
power_connected = 0

abbrev pub power_disconnected : ℕ
power_disconnected = 1

abbrev pub status_of : TerminalStatus → Status
status_of s = record {
  battery_level = s.battery_level;
  gps_signal = s.gsm_signal;
  ignition_status = s.ignition_status;
  movement_status = s.ignition_status;
  power_status = if s.power_cut then power_disconnected else power_connected;
}

-- alarm types 1, 2, 12 and 13
abbrev pub severity_of : ℕ → ℕ
severity_of t =
    if (t == 1) || ((t == 2) || ((t == 12) || (t == 13))) then severity_high else severity_medium

abbrev pub alarm_event : Option Text → Alarm → EventRow
alarm_event vehicle_id alarm =
    let clean =
      clean_coordinates (some (finite (degrees alarm.location.latitude)))
        (some (finite (degrees alarm.location.longitude))) in
    record {
      vehicle_id = vehicle_id;
      event_type = get_alarm_name alarm.alarm_type;
      severity = severity_of alarm.alarm_type;
      latitude = clean.0;
      longitude = clean.1;
    }

-- The packet's protocol byte; a frame of another kind is not answered.
pub data Header : Type 0 where
  invalid : Header
  numbered : ℕ → Header

abbrev protocol_of : Option ℕ → Attempt Header
protocol_of none = raises
protocol_of (some b) = returns (numbered b)

unfoldable pub header_of : Bytes → Attempt Header
header_of raw =
    if starts_with short_marker raw
    then protocol_of (get_elem? raw 3)
    else if starts_with long_marker raw
    then protocol_of (get_elem? raw 4)
    else returns invalid

module _ (env : Environment) (py : Numbers) (strptime : Text → Option Text) where
  -- `_get_device`: no IMEI closes the connection; an unknown one only gives no device
  abbrev pub found_device : Text → Option Entry → World → Option (Text × Entry) × World
  found_device imei none w = (none, w)
  found_device imei (some device) w = (some (imei, device), w)

  abbrev pub device_of : ℕ → Option Text → World → Option (Text × Entry) × World
  device_of conn none w = (none, record w { log = closed conn ∷ w.log })
  device_of conn (some imei) w = found_device imei (get_device imei w.registry) w

  -- if device: run the branch, and answer with the connection's IMEI
  abbrev pub with_device :
      (Text → Entry → Action Unit) → Option (Text × Entry) → Action (Option Text)
  with_device branch none = pure none
  with_device branch (some (imei, device)) = do branch imei device; pure (some imei)

  abbrev pub for_device : ℕ → (Text → Entry → Action Unit) → Action (Option Text)
  for_device conn branch w =
      let (device, w') = device_of conn (truthy (get_imei_by_socket conn w.registry)) w in
      with_device branch device w'

  -- 0x01
  abbrev admit : Bytes → ℕ → Text → Text → Option Text → Action (Option Text)
  admit raw conn ip imei none = pure none
  admit raw conn ip imei (some device_id) = do
    λ w. (
      returns tt,
      record w { registry = register_device imei ip device_id conn gt06 (env.now w) w.registry },
    )
    save_raw_packet env device_id (codes "01") raw true true
    vehicle_id ← get_vehicle_by_device env device_id
    execute env
        (Statement.create_event device_id (plain_event vehicle_id device_online severity_low))
    pure (some imei)

  unfoldable pub on_login : Bytes → ℕ → Text → Action (Option Text)
  on_login raw conn ip = do
    let imei = (parse_login_packet raw).imei
    device_id ← get_device_by_imei env imei gt06
    admit raw conn ip imei (truthy device_id)

  -- 0x12, 0x22: an invalid location is dropped, and the packet still counts as received
  unfoldable pub store_location : Text → Bytes → Location → Entry → Action Unit
  store_location protocol raw loc device = do
    save_raw_packet env device.device_id protocol raw false true
    execute env (Statement.save_location device.device_id (position_of loc))

  abbrev pub place : Text → Bytes → ℕ → Location → Action (Option Text)
  place protocol raw conn loc =
      if location_valid loc
      then for_device conn (λ imei device. store_location protocol raw loc device)
      else gets (λ w. get_imei_by_socket conn w.registry)

  unfoldable pub on_location : Text → Bytes → ℕ → Action (Option Text)
  on_location protocol raw conn = do
    loc ← lift (parse_location_packet raw)
    place protocol raw conn loc

  -- 0x13
  unfoldable pub store_status : Bytes → Entry → Action Unit
  store_status raw device = do
    status ← lift (parse_terminal_status raw)
    save_raw_packet env device.device_id (codes "13") raw false true
    execute env (Statement.update_device_status device.device_id (status_of status))

  -- 0x23
  unfoldable pub store_heartbeat : Bytes → Entry → Action Unit
  store_heartbeat raw device = do
    status ← lift (parse_terminal_status raw)
    save_raw_packet env device.device_id (codes "23") raw false true
    execute env (Statement.update_device_status device.device_id (status_of status))
    execute env (Statement.update_heartbeat device.device_id)

  -- 0x26
  unfoldable pub store_alarm : Bytes → Entry → Action Unit
  store_alarm raw device = do
    alarm ← lift (parse_alarm_packet raw)
    save_raw_packet env device.device_id (codes "26") raw true true
    vehicle_id ← get_vehicle_by_device env device.device_id
    execute env (Statement.create_event device.device_id (alarm_event vehicle_id alarm))

  -- 0x94 and 0x6e, which differ in the names of the protocol and of the event
  abbrev store_values : Text → Entry → Information → Action Unit
  store_values event_type device info = elim info.values [
    | [] ↦ pure tt
    | v ∷ vs ↦ do
      lift (decode_information py info.values)
      vehicle_id ← get_vehicle_by_device env device.device_id
      execute env
          (Statement.create_event device.device_id (plain_event vehicle_id event_type severity_low))
  ]

  unfoldable pub store_information : Text → Text → Bytes → Entry → Action Unit
  store_information protocol event_type raw device = do
    save_raw_packet env device.device_id protocol raw true true
    let info = parse_information_packet raw
    if info.is_ascii then store_values event_type device info else pure tt

  -- 0x8a: the echoed protocol byte is read, and its absence raises
  unfoldable pub store_command_ack : Bytes → Entry → Action Unit
  store_command_ack raw device = do
    save_raw_packet env device.device_id (codes "8a") raw true true
    lift (if is_long raw then at 5 raw else at 4 raw)
    pure tt

  -- 0x21
  unfoldable pub store_reply : Bytes → Entry → Action Unit
  store_reply raw device = do
    save_raw_packet env device.device_id (codes "21") raw true true
    reply ← lift (stored (parse_command_response strptime raw))
    execute env (Statement.save_response device.device_id reply)

  -- any other: kept when the connection's device is registered, and answered with no IMEI
  abbrev keep_unknown : Text → Bytes → Option Entry → Action (Option Text)
  keep_unknown protocol raw none = pure none
  keep_unknown protocol raw (some device) = do
    save_raw_packet env device.device_id protocol raw true false
    pure none

  abbrev unknown_device : Option Text → World → Option Entry
  unknown_device none w = none
  unknown_device (some imei) w = get_device imei w.registry

  unfoldable pub on_unknown : Text → Bytes → ℕ → Action (Option Text)
  on_unknown protocol raw conn w =
      keep_unknown protocol raw (unknown_device (truthy (get_imei_by_socket conn w.registry)) w) w

  -- The chain of `elif` on the protocol number.
  unfoldable pub dispatch : ℕ → Bytes → ℕ → Text → Action (Option Text)
  unfolding on_login on_location on_unknown
  dispatch protocol raw conn ip =
      if protocol == 0x01
      then on_login raw conn ip
      else if (protocol == 0x12) || (protocol == 0x22)
      then on_location (hex (protocol ∷ [])) raw conn
      else if protocol == 0x13
      then for_device conn (λ imei device. store_status raw device)
      else if protocol == 0x23
      then for_device conn (λ imei device. store_heartbeat raw device)
      else if protocol == 0x26
      then for_device conn (λ imei device. store_alarm raw device)
      else if protocol == 0x94
      then for_device conn
          (λ imei device. store_information (codes "94") (codes "DEVICE_INFORMATION") raw device)
      else if protocol == 0x8a
      then for_device conn (λ imei device. store_command_ack raw device)
      else if protocol == 0x21
      then for_device conn (λ imei device. store_reply raw device)
      else if protocol == 0x6e
      then for_device conn
          (λ imei device. store_information (codes "6e") (codes "DEVICE_CONFIGURATION") raw device)
      else on_unknown (hex (protocol ∷ [])) raw conn

  -- ack = build_ack(raw); writer.write(ack), whose exceptions are swallowed
  abbrev send_ack : ℕ → Attempt Bytes → World → World
  send_ack conn raises w = w
  send_ack conn (returns ack) w = (send env conn ack w).1

  abbrev answer_or_none : Attempt (Option Text) → Option Text
  answer_or_none (returns answer) = answer
  answer_or_none raises = none

  abbrev process_header : Bytes → ℕ → Text → Attempt Header → Action (Option Text)
  process_header raw conn ip raises w = (raises, w)
  process_header raw conn ip (returns invalid) w = (returns none, w)
  process_header raw conn ip (returns (numbered b)) w =
      let (r, w') = dispatch b raw conn ip w in
      (returns (answer_or_none r), send_ack conn (build_ack raw) w')

  unfoldable pub process_packet : Bytes → ℕ → Text → Action (Option Text)
  process_packet raw conn ip = process_header raw conn ip (header_of raw)
