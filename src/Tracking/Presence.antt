-- ===== src/Tracking/Presence.antt =====
-- What DeviceStatuses says of a device: whether it is online, and its battery, signal and power.
use shalotrack_gateway.Shared.{ℕ, Bool, true, false, Option, none, some, if◌then◌else◌}
use shalotrack_gateway.Shared.Bytes.{bytes_eq}
use shalotrack_gateway.Shared.Text.{Text}
use shalotrack_gateway.Shared.Dict.{Dict, get, text_key}
use shalotrack_gateway.World.{Statement}
use shalotrack_gateway.Tracking.{
  StatusRow, Tables, save_location, update_device_status, mark_device_alive, set_ignition,
  update_heartbeat, set_device_offline,
}

pub record Telemetry : Type 0 where
  pub battery_level : ℕ
  pub gps_signal : ℕ
  pub power_status : ℕ

-- Online or not, and the telemetry, of a device that was ever in contact.
abbrev pub View : Type 0
View = Option (Bool × Telemetry)

abbrev pub seen : Option StatusRow → View
seen none = none
seen (some row) = some (
  row.is_online,
  record {
    battery_level = row.battery_level;
    gps_signal = row.gps_signal;
    power_status = row.power_status;
  },
)

abbrev pub view : Text → Tables → View
view device_id t = seen (get device_id t.statuses)

abbrev pub unreported : Telemetry
unreported = record { battery_level = 0; gps_signal = 0; power_status = 0 }

-- Whether a device comes online or goes offline, which needs a row.
abbrev pub turn : Bool → View → View
turn online none = none
turn online (some (was, telemetry)) = some (online, telemetry)

-- A sign of life, which makes a row.
abbrev pub contact : View → View
contact none = some (true, unreported)
contact (some (was, telemetry)) = some (true, telemetry)

-- A report of the ignition, which makes a row too but says nothing of a device that has one.
abbrev pub known : View → View
known none = some (true, unreported)
known (some v) = some v

-- What a device's view becomes by a statement about a device.
abbrev pub changed : Statement → View → View
changed (Statement.update_device_status device_id status) v = some (
  true,
  record {
    battery_level = status.battery_level;
    gps_signal = status.gps_signal;
    power_status = status.power_status;
  },
)
changed (Statement.update_heartbeat device_id) v = turn true v
changed (Statement.mark_device_alive device_id heartbeat) v = contact v
changed (Statement.set_ignition device_id on) v = known v
changed (Statement.set_device_offline device_id) v = turn false v
changed (Statement.save_location device_id p) v = v
changed (Statement.save_raw device_id protocol raw parsed) v = v
changed (Statement.create_event device_id row) v = v
changed (Statement.save_response device_id raw) v = v

-- The device that a statement is about.
abbrev pub about : Statement → Text
about (Statement.update_device_status device_id status) = device_id
about (Statement.update_heartbeat device_id) = device_id
about (Statement.mark_device_alive device_id heartbeat) = device_id
about (Statement.set_ignition device_id on) = device_id
about (Statement.set_device_offline device_id) = device_id
about (Statement.save_location device_id p) = device_id
about (Statement.save_raw device_id protocol raw parsed) = device_id
about (Statement.create_event device_id row) = device_id
about (Statement.save_response device_id raw) = device_id

-- The specification: a statement concerns the device that it is about and no other.
abbrev pub transition : Statement → Text → View → View
transition s device_id v = if bytes_eq (about s) device_id then changed s v else v
