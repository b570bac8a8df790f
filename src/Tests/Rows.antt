-- ===== src/Tests/Rows.antt =====
-- Statements on the rows of one device.
use shalotrack_gateway.Shared.{ℕ, ◌==◌, Bool, true, false, Option, none, some, List, [], ◌∷◌}
use shalotrack_gateway.Shared.Text.{codes}
use shalotrack_gateway.Shared.Int.{pos}
use shalotrack_gateway.World.{EventTime, calendar, instant, Position, whole}
use shalotrack_gateway.Tracking.{Tables}
use shalotrack_gateway.Tests.Fixtures.{device_id}

abbrev millis : EventTime → ℕ
millis (calendar t) = 0
millis (instant t) = t

abbrev place : ℕ → Position
place t = record {
  latitude = record { num = pos 69270790; scale = 10000000 };
  longitude = record { num = pos 798612430; scale = 10000000 };
  speed = whole 42;
  heading = whole 180;
  satellites = 9;
  event_time = instant t;
}

-- A device that is assigned to a vehicle and went offline with a full battery.
abbrev tables : Tables
tables = record {
  trackings = [];
  locations = [];
  statuses =
      (
        device_id,
        record {
          is_online = false;
          last_heartbeat = none;
          last_seen = 3;
          gps_signal = 4;
          battery_level = 6;
          ignition_status = true;
          movement_status = false;
          power_status = 0;
        },
      )
      ∷ [];
  assignments = (device_id, codes "v1") ∷ [];
}

-- A packet with a record that is skipped, and a database that takes one insert.
abbrev records : List (Option Position)
records = some (place 5) ∷ none ∷ some (place 6) ∷ some (place 5) ∷ []

abbrev takes_one : ℕ → Bool
takes_one n = n == 0

-- The first acknowledgement arrives, the second is lost.
abbrev deliveries : List ((ℕ → Bool) × Bool)
deliveries = (takes_one, true) ∷ (takes_one, false) ∷ []
