-- ===== src/World.antt =====
-- What the handlers act on: the registry and the module-level caches, and a log of what they did to
-- sockets and to the database, newest first. What the operating system, the database driver and the
-- clock answer is the environment, which may look at the whole state and so at the whole history.
pub mod Action
pub mod History
use shalotrack_gateway.Shared.{
  ℕ, ◌*◌, Bool, true, false, ◌||◌, ◌&&◌, Option, none, some, List, [], ◌∷◌, ◌==◌, if◌then◌else◌,
}
use shalotrack_gateway.Shared.Bytes.{Bytes}
use shalotrack_gateway.Shared.Text.{Text}
use shalotrack_gateway.Shared.Int.{ℤ, pos, within}
use shalotrack_gateway.Shared.Dict.{Dict}
use shalotrack_gateway.Shared.Attempt.{Attempt}
use shalotrack_gateway.Registry.{Registry, Family}

-- A number `num / scale`, in place of a float: a coordinate in degrees, whose `scale` the device
-- family fixes, a speed or a heading.
pub record Decimal : Type 0 where
  pub num : ℤ
  pub scale : ℕ

-- A whole number.
abbrev pub whole : ℕ → Decimal
whole n = record { num = pos n; scale = 1 }

-- -limit <= value <= limit
unfoldable pub in_degrees : ℕ → Decimal → Bool
in_degrees limit d = within (limit * d.scale) d.num

pub record DateTime : Type 0 where
  pub year : ℕ
  pub month : ℕ
  pub day : ℕ
  pub hour : ℕ
  pub minute : ℕ
  pub second : ℕ

-- GT06 hands over the device's calendar time, Teltonika an instant in milliseconds since the epoch.
pub data EventTime : Type 0 where
  calendar : DateTime → EventTime
  instant : ℕ → EventTime

pub record Position : Type 0 where
  pub latitude : Decimal
  pub longitude : Decimal
  pub speed : Decimal
  pub heading : Decimal
  pub satellites : ℕ
  pub event_time : EventTime

-- The columns of DeviceStatuses that update_device_status sets.
pub record Status : Type 0 where
  pub battery_level : ℕ
  pub gps_signal : ℕ
  pub ignition_status : Bool
  pub movement_status : Bool
  pub power_status : ℕ

-- The columns of DeviceEvents that the handlers fill, but for the free text.
pub record EventRow : Type 0 where
  pub vehicle_id : Option Text
  pub event_type : Text
  pub severity : ℕ
  pub latitude : Option Decimal
  pub longitude : Option Decimal

-- The statements that the services send to the database, with the device that they are about.
pub data Statement : Type 0 where
  save_raw : Text → Text → Bytes → Bool → Statement
  save_location : Text → Position → Statement
  update_device_status : Text → Status → Statement
  update_heartbeat : Text → Statement
  mark_device_alive : Text → Bool → Statement
  set_ignition : Text → Bool → Statement
  create_event : Text → EventRow → Statement
  save_response : Text → Bytes → Statement
  set_device_offline : Text → Statement

-- The flag says whether it went through or raised.
pub data Event : Type 0 where
  wrote : ℕ → Bytes → Bool → Event
  closed : ℕ → Event
  asked : Statement → Bool → Event

pub record World : Type 0 where
  pub registry : Registry
  pub last_alive : Dict Text ℕ
  pub last_ignition : Dict Text Bool
  pub log : List Event

-- config.RAW_PACKET_MODE; an unrecognised value counts as selective.
pub data RawMode : Type 0 where
  off selective all : RawMode

-- A row of GpsDevices joined with the status in SetupShalotrackDevices, and a row of the latter.
pub record Registered : Type 0 where
  pub device_id : Text
  pub status : Option Text

pub record Setup : Type 0 where
  pub status : Text

pub record Environment : Type 0 where
  pub raw_mode : RawMode
  pub samples : World → Bool
  pub now : World → ℕ
  pub monotonic : World → ℕ
  pub accepts : World → Statement → Bool
  pub drains : World → ℕ → Bool
  pub borrows : World → Bool
  pub fetch_registered : World → Text → Attempt (Option Registered)
  pub fetch_setup : World → Text → Attempt (Option Setup)
  pub insert_device : World → Text → Family → Attempt Unit
  pub refetch_device : World → Text → Attempt (Option Text)
  pub fetch_vehicle : World → Text → Attempt (Option Text)

-- if not imei
abbrev pub truthy : Option Text → Option Text
truthy none = none
truthy (some []) = none
truthy (some (c ∷ cs)) = some (c ∷ cs)

-- The writer of the connection is closing.
abbrev pub is_closing_in : ℕ → List Event → Bool
is_closing_in conn [] = false
is_closing_in conn (closed c ∷ log) = c == conn || is_closing_in conn log
is_closing_in conn (_ ∷ log) = is_closing_in conn log

unfoldable pub is_closing : ℕ → World → Bool
is_closing conn w = is_closing_in conn w.log
