-- ===== src/Tracking.antt =====
-- services/tracking_service.py: what its statements do to the rows of GpsTrackings, CurrentLocations
-- and DeviceStatuses. When a row was made or changed (CreatedAt, UpdatedAt), which nothing reads, is
-- left out; the instant of an event time is a parameter, as is config.GPS_TRACKING_IDEMPOTENT.
pub mod Replay
pub mod Presence
use shalotrack_gateway.Shared.{
  ℕ, ◌==◌, ltb, Bool, true, false, ◌&&◌, ◌||◌, Option, none, some, List, [], ◌∷◌, if◌then◌else◌,
}
use shalotrack_gateway.Shared.Bytes.{bytes_eq}
use shalotrack_gateway.Shared.Text.{Text}
use shalotrack_gateway.Shared.Int.{ℤ, pos, negsuc}
use shalotrack_gateway.Shared.Dict.{Dict, get, put, text_key}
use shalotrack_gateway.World.{Decimal, EventTime, Position, Status, Statement}
use shalotrack_gateway.Numeric.{round_to}

pub record TrackRow : Type 0 where
  pub device_id : Text
  pub latitude : Decimal
  pub longitude : Decimal
  pub speed : Decimal
  pub heading : Decimal
  pub satellites : ℕ
  pub event_time : ℕ

pub record LiveRow : Type 0 where
  pub vehicle_id : Text
  pub latitude : Decimal
  pub longitude : Decimal
  pub speed : Decimal
  pub heading : Decimal
  pub ignition_status : Bool
  pub movement_status : Bool
  pub last_update : ℕ

pub record StatusRow : Type 0 where
  pub is_online : Bool
  pub last_heartbeat : Option ℕ
  pub last_seen : ℕ
  pub gps_signal : ℕ
  pub battery_level : ℕ
  pub ignition_status : Bool
  pub movement_status : Bool
  pub power_status : ℕ

-- The tables; of DeviceAssignments, which the gateway only reads, the vehicles of the active rows.
pub record Tables : Type 0 where
  pub trackings : List TrackRow
  pub locations : Dict Text LiveRow
  pub statuses : Dict Text StatusRow
  pub assignments : Dict Text Text

-- A row with this device and event time is there.
unfoldable pub is_recorded : Text → ℕ → List TrackRow → Bool
is_recorded device_id event_time [] = false
is_recorded device_id event_time (row ∷ rows) =
    if bytes_eq row.device_id device_id && (row.event_time == event_time)
    then true
    else is_recorded device_id event_time rows

-- The insert of GpsTrackings, with ON CONFLICT ("DeviceId","EventTime") DO NOTHING or without.
abbrev pub insert_tracking : Bool → TrackRow → List TrackRow → List TrackRow
insert_tracking idempotent row rows =
    if idempotent && is_recorded row.device_id row.event_time rows then rows else row ∷ rows

-- $4::numeric > 0
abbrev pub is_positive : ℤ → Bool
is_positive (pos n) = ltb 0 n
is_positive (negsuc n) = false

-- COALESCE((SELECT "IgnitionStatus" ...), FALSE)
abbrev pub ignition_of : Option StatusRow → Bool
ignition_of none = false
ignition_of (some row) = row.ignition_status

abbrev pub status_row : Status → ℕ → StatusRow
status_row status now = record {
  is_online = true;
  last_heartbeat = some now;
  last_seen = now;
  gps_signal = status.gps_signal;
  battery_level = status.battery_level;
  ignition_status = status.ignition_status;
  movement_status = status.movement_status;
  power_status = status.power_status;
}

-- The row of a first contact.
abbrev pub first_row : Option ℕ → Bool → ℕ → StatusRow
first_row last_heartbeat ignition now = record {
  is_online = true;
  last_heartbeat = last_heartbeat;
  last_seen = now;
  gps_signal = 0;
  battery_level = 0;
  ignition_status = ignition;
  movement_status = false;
  power_status = 0;
}

-- now if heartbeat else None
abbrev pub heartbeat_time : Bool → ℕ → Option ℕ
heartbeat_time heartbeat now = if heartbeat then some now else none

-- COALESCE of two columns
abbrev pub coalesce : Option ℕ → Option ℕ → Option ℕ
coalesce none old = old
coalesce (some new) old = some new

abbrev pub alive_row : Bool → ℕ → Option StatusRow → StatusRow
alive_row heartbeat now none = first_row (heartbeat_time heartbeat now) false now
alive_row heartbeat now (some row) = record row {
  is_online = true;
  last_heartbeat = coalesce (heartbeat_time heartbeat now) row.last_heartbeat;
  last_seen = now;
}

abbrev pub ignition_row : Bool → ℕ → Option StatusRow → StatusRow
ignition_row on now none = first_row none on now
ignition_row on now (some row) = record row { ignition_status = on; last_seen = now }

-- UPDATE ... WHERE "DeviceId" = ..., which does nothing without a row
abbrev pub update_row :
    (StatusRow → StatusRow) → Text → Option StatusRow → Dict Text StatusRow → Dict Text StatusRow
update_row f device_id none statuses = statuses
update_row f device_id (some row) statuses = put device_id (f row) statuses

unfoldable pub update_device_status : Text → Status → ℕ → Tables → Tables
update_device_status device_id status now t = record t {
  statuses = put device_id (status_row status now) t.statuses;
}

unfoldable pub mark_device_alive : Text → Bool → ℕ → Tables → Tables
mark_device_alive device_id heartbeat now t = record t {
  statuses = put device_id (alive_row heartbeat now (get device_id t.statuses)) t.statuses;
}

unfoldable pub set_ignition : Text → Bool → ℕ → Tables → Tables
set_ignition device_id on now t = record t {
  statuses = put device_id (ignition_row on now (get device_id t.statuses)) t.statuses;
}

abbrev pub update_status : (StatusRow → StatusRow) → Text → Tables → Tables
update_status f device_id t = record t {
  statuses = update_row f device_id (get device_id t.statuses) t.statuses;
}

unfoldable pub update_heartbeat : Text → ℕ → Tables → Tables
update_heartbeat device_id now =
    update_status
      (λ row. record row { is_online = true; last_heartbeat = some now; last_seen = now }) device_id

unfoldable pub set_device_offline : Text → Tables → Tables
set_device_offline = update_status (λ row. record row { is_online = false })

unfoldable pub update_last_seen : Text → ℕ → Tables → Tables
update_last_seen device_id now = update_status (λ row. record row { last_seen = now }) device_id

unfoldable pub set_device_online : Text → ℕ → Tables → Tables
set_device_online device_id now =
    update_status (λ row. record row { is_online = true; last_seen = now }) device_id

module _ (idempotent : Bool) (instant_of : EventTime → ℕ) where
  abbrev pub track_row : Text → Position → TrackRow
  track_row device_id p = record {
    device_id = device_id;
    latitude = round_to 6 p.latitude;
    longitude = round_to 6 p.longitude;
    speed = round_to 2 p.speed;
    heading = round_to 2 p.heading;
    satellites = p.satellites;
    event_time = instant_of p.event_time;
  }

  abbrev pub live_row : Text → Bool → Position → LiveRow
  live_row vehicle_id ignition p = record {
    vehicle_id = vehicle_id;
    latitude = round_to 6 p.latitude;
    longitude = round_to 6 p.longitude;
    speed = round_to 2 p.speed;
    heading = round_to 2 p.heading;
    ignition_status = ignition;
    movement_status = is_positive (round_to 2 p.speed).num;
    last_update = instant_of p.event_time;
  }

  -- The upsert of CurrentLocations, from the vehicle that the device is assigned to.
  abbrev pub put_live : Text → Position → Bool → Option Text → Dict Text LiveRow → Dict Text LiveRow
  put_live device_id p ignition none locations = locations
  put_live device_id p ignition (some vehicle_id) locations =
      put device_id (live_row vehicle_id ignition p) locations

  abbrev pub is_assigned : Option Text → Bool
  is_assigned none = false
  is_assigned (some vehicle_id) = true

  -- One statement: both writes or, when it raises, neither.
  unfoldable pub save_location : Text → Position → Tables → Bool × Tables
  save_location device_id p t =
      let vehicle = get device_id t.assignments in
      (
        is_assigned vehicle,
        record t {
          trackings = insert_tracking idempotent (track_row device_id p) t.trackings;
          locations =
              put_live device_id p (ignition_of (get device_id t.statuses)) vehicle t.locations;
        },
      )

  -- A statement that the database takes at a time. The rest are about other tables.
  unfoldable pub run : ℕ → Statement → Tables → Tables
  unfolding save_location update_device_status mark_device_alive set_ignition update_heartbeat
      set_device_offline
  run now (Statement.save_location device_id p) t = (save_location device_id p t).1
  run now (Statement.update_device_status device_id status) t =
      update_device_status device_id status now t
  run now (Statement.update_heartbeat device_id) t = update_heartbeat device_id now t
  run now (Statement.mark_device_alive device_id heartbeat) t =
      mark_device_alive device_id heartbeat now t
  run now (Statement.set_ignition device_id on) t = set_ignition device_id on now t
  run now (Statement.set_device_offline device_id) t = set_device_offline device_id t
  run now (Statement.save_raw device_id protocol raw parsed) t = t
  run now (Statement.create_event device_id row) t = t
  run now (Statement.save_response device_id raw) t = t
