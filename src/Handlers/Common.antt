-- ===== src/Handlers/Common.antt =====
-- What services/gps103_handler.py and services/teltonika_handler.py do alike: dropping a connection,
-- and the bookkeeping behind a login.
use shalotrack_gateway.Shared.{ℕ, true, false, Option, none}
use shalotrack_gateway.Shared.Bytes.{Bytes}
use shalotrack_gateway.Shared.Text.{Text, codes}
use shalotrack_gateway.Registry.{Family, gt06, gps103, teltonika}
use shalotrack_gateway.World.{Environment, Statement, EventRow}
use shalotrack_gateway.World.Action.{
  Action, pure, close, catch, safely, execute, save_raw_packet, ◌>>=◌, ◌>>◌,
}
use shalotrack_gateway.Repository.{get_vehicle_by_device}

-- _close(writer); return None
abbrev pub drop_connection : ℕ → Action (Option Text)
drop_connection conn = do close conn; pure none

abbrev pub family_name : Family → Text
family_name gt06 = codes "GT06"
family_name gps103 = codes "GPS103"
family_name teltonika = codes "TELTONIKA"

abbrev pub device_online : Text
device_online = codes "DEVICE_ONLINE"

-- constants/severity.py
abbrev pub severity_low : ℕ
severity_low = 1

abbrev pub severity_medium : ℕ
severity_medium = 2

abbrev pub severity_high : ℕ
severity_high = 3

abbrev pub plain_event : Option Text → Text → ℕ → EventRow
plain_event vehicle_id event_type severity = record {
  vehicle_id = vehicle_id;
  event_type = event_type;
  severity = severity;
  latitude = none;
  longitude = none;
}

module _ (env : Environment) where
  -- raw packet save, mark online, online event: each on its own
  unfoldable pub login_bookkeeping : Family → Text → Bytes → Action Unit
  login_bookkeeping family device_id raw = do
    safely (save_raw_packet env device_id (family_name family) raw true true)
    safely (execute env (Statement.mark_device_alive device_id false))
    vehicle_id ← catch none (get_vehicle_by_device env device_id)
    safely (
        execute env
          (Statement.create_event device_id (plain_event vehicle_id device_online severity_low)))
