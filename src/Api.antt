-- ===== src/Api.antt =====
-- command_api.py: the HTTP endpoint for health and commands.
pub mod Params
pub mod Post
pub mod Guard
pub mod Effects
pub mod Configures
pub mod Answers
pub mod Posts
use shalotrack_gateway.Shared.{
  ℕ, ◌==◌, Bool, true, false, not, ◌&&◌, Option, none, some, List, [], ◌∷◌, ◌++◌, map, length, ltb,
  if◌then◌else◌,
}
use shalotrack_gateway.Shared.Bytes.{Bytes, bytes_eq}
use shalotrack_gateway.Shared.Text.{Text, codes, all_of}
use shalotrack_gateway.Shared.Int.{ℤ, pos, within}
use shalotrack_gateway.Shared.Dict.{Dict, get, text_key}
use shalotrack_gateway.Shared.Attempt.{Attempt, returns, raises}
use shalotrack_gateway.Registry.{Registry, Entry, Family, gt06, gps103, teltonika, get_device}
use shalotrack_gateway.World.{World, Environment}
use shalotrack_gateway.Commands.{Outcome, sent, offline, unsupported, fault}
use shalotrack_gateway.Commands.Service.{
  Sender, send_where, send_status, send_version, send_imei, send_params, send_gprsset, send_url,
  send_position, send_fence_query, send_moving_query, send_speed_query, send_sos_query,
  send_timer_query, send_apn_query, send_server_query, send_reset, send_relay_on, send_relay_off,
  send_sos_delete,
}
use shalotrack_gateway.Gps103.Commands.{send_gps103_command}
use shalotrack_gateway.Health.{
  Settings, Outside, Monitor, Report, Level, ok, degraded, down, get_health,
}
use Params.{
  Python, Loaded, undecodable, malformed, loaded, Parsed, given, missing, wrong, timer_from,
  distance_from, speed_alarm_from, moving_alarm_from, fence_circle_from, sos_add_from, apn_from,
  server_from, batalm_from, poweralm_from,
}

-- COMMAND_API_KEY, and the settings of the health report.
pub record Configuration : Type 0 where
  pub api_key : Text
  pub health : Settings

-- A request: its path, its key or no text, int() of its Content-Length or 0, and its body.
pub record Request : Type 0 where
  pub path : Text
  pub api_key : Text
  pub content_length : Attempt ℤ
  pub body : Bytes

pub data Body : Type 0 where
  error : Text → Body
  unknown_command : Text → Body
  health : Report → Body
  devices : List (Text × Entry) → ℕ → Body
  commands : List Text → Body
  success : Text → Text → Body

-- An exception that leaves the handler ends the request with no response.
pub data Response : Type 0 where
  dropped : Response
  answered : ℕ → Body → Response

-- The gateway as the API sees it: the world, the builders' serial number and the health monitor.
pub record Service : Type 0 where
  pub world : World
  pub serial : ℕ
  pub monitor : Monitor

-- Whether a coroutine ends in the five seconds that are given to it, later, or never runs.
pub data Wait : Type 0 where
  in_time too_late never : Wait

-- What a command comes to for the API.
pub data Done : Type 0 where
  ended : Outcome → Done
  timed_out no_param bad_param : Done

-- _authorized: compare_digest refuses a text that is not ASCII.
abbrev pub is_ascii : Text → Bool
is_ascii text = all_of (λ c. ltb c 128) text

unfoldable pub authorized : Text → Text → Attempt Bool
authorized [] provided = returns false
authorized (c ∷ cs) provided =
    if is_ascii provided && is_ascii (c ∷ cs) then returns (bytes_eq provided (c ∷ cs)) else raises

abbrev pub answer : ℕ → Text → Service → Response × Service
answer status text s = (answered status (error text), s)

-- The handler's first lines.
abbrev pub guarded : (Service → Response × Service) → Attempt Bool → Service → Response × Service
guarded handler (returns true) s = handler s
guarded handler (returns false) s = answer 401 (codes "Unauthorized") s
guarded handler raises s = (dropped, s)

abbrev pub health_status : Level → ℕ
health_status ok = 200
health_status degraded = 200
health_status down = 503

-- SIMPLE_COMMANDS
abbrev pub simple_commands : Environment → Dict Text (Text → Sender)
simple_commands env =
    (codes "where", send_where env)
    ∷ (codes "status", send_status env)
    ∷ (codes "version", send_version env)
    ∷ (codes "imei", send_imei env)
    ∷ (codes "params", send_params env)
    ∷ (codes "gprsset", send_gprsset env)
    ∷ (codes "url", send_url env)
    ∷ (codes "position", send_position env)
    ∷ (codes "fence_query", send_fence_query env)
    ∷ (codes "moving_query", send_moving_query env)
    ∷ (codes "speed_query", send_speed_query env)
    ∷ (codes "sos_query", send_sos_query env)
    ∷ (codes "timer_query", send_timer_query env)
    ∷ (codes "apn_query", send_apn_query env)
    ∷ (codes "server_query", send_server_query env)
    ∷ (codes "reset", send_reset env)
    ∷ (codes "relay_on", send_relay_on env)
    ∷ (codes "relay_off", send_relay_off env)
    ∷ (codes "sos_delete", send_sos_delete env)
    ∷ []

abbrev pub protocol_of : Option Entry → Option Family
protocol_of none = none
protocol_of (some entry) = some entry.protocol

-- _device_protocol(imei) == "GPS103"
abbrev pub is_gps103 : Option Family → Bool
is_gps103 none = false
is_gps103 (some gt06) = false
is_gps103 (some gps103) = true
is_gps103 (some teltonika) = false

abbrev pub is_there : {A : Type 0} → Option A → Bool
is_there none = false
is_there (some a) = true

-- bool(text)
abbrev pub is_empty : Text → Bool
is_empty [] = true
is_empty (c ∷ cs) = false

-- The response to a command; an exception's text may say that the device is offline.
unfoldable pub respond : Text → Text → Bool → Done → Response
respond imei command says_offline (ended sent) = answered 200 (success imei command)
respond imei command says_offline (ended unsupported) = answered 501 (error (codes "Unsupported"))
respond imei command says_offline (ended offline) = answered 503 (error (codes "Device offline"))
respond imei command says_offline (ended fault) =
    if says_offline
    then answered 503 (error (codes "Device offline"))
    else answered 500 (error (codes "Failed"))
respond imei command says_offline timed_out = answered 503 (error (codes "Gateway busy"))
respond imei command says_offline no_param = answered 400 (error (codes "Missing required param"))
respond imei command says_offline bad_param =
    if says_offline
    then answered 503 (error (codes "Device offline"))
    else answered 500 (error (codes "Failed"))

module _ (Value : Type 0) (python : Python Value) (configuration : Configuration)
    (env : Environment) (outside : Service → Outside) (waits : Service → Wait)
    (says_offline : Service → Bool) where
  -- PARAM_COMMANDS, with the branches of do_POST
  abbrev pub param_commands : Dict Text (Text → Option (Dict Text Value) → Parsed Sender)
  param_commands =
      (codes "timer", timer_from Value python env)
      ∷ (codes "distance", distance_from Value python env)
      ∷ (codes "speed_alarm", speed_alarm_from Value python env)
      ∷ (codes "moving_alarm", moving_alarm_from Value python env)
      ∷ (codes "fence_circle", fence_circle_from Value python env)
      ∷ (codes "sos_add", sos_add_from Value python env)
      ∷ (codes "apn", apn_from Value python env)
      ∷ (codes "server", server_from Value python env)
      ∷ (codes "batalm", batalm_from Value python env)
      ∷ (codes "poweralm", poweralm_from Value python env)
      ∷ []

  abbrev pub report_health : Report × Monitor → Service → Response × Service
  report_health (report, monitor) s =
      (answered (health_status report.status) (health report), record s { monitor = monitor })

  abbrev pub get_path : Text → Service → Response × Service
  get_path path s =
      if bytes_eq path (codes "/health")
      then report_health (get_health configuration.health (outside s) s.world.registry s.monitor) s
      else if bytes_eq path (codes "/devices")
      then (answered 200 (devices s.world.registry.by_imei (length s.world.registry.by_imei)), s)
      else if bytes_eq path (codes "/commands")
      then (
        answered 200
            (commands (map (λ c. c.0) (simple_commands env) ++ map (λ c. c.0) param_commands)),
        s,
      )
      else answer 404 (codes "Not found") s

  unfoldable pub do_get : Request → Service → Response × Service
  do_get request s =
      guarded (get_path request.path) (authorized configuration.api_key request.api_key) s
