-- ===== src/Tests/Texts.antt =====
-- The messages of a GPS103 device.
use shalotrack_gateway.Shared.{
  ◌≡◌, ◌≢◌, refl, List, [], ◌∷◌, ◌++◌, Option, none, some, Bool, true, false, inr,
}
use shalotrack_gateway.Shared.Bytes.{Bytes}
use shalotrack_gateway.Shared.Text.{Text, codes}
use shalotrack_gateway.Shared.Int.{pos}
use shalotrack_gateway.Shared.Dict.{get, bytes_eq_iff}
use shalotrack_gateway.Shared.Attempt.{returns}
use shalotrack_gateway.Registry.{gps103, get_device, get_imei_by_socket}
use shalotrack_gateway.World.{DateTime, Event, Statement, truthy, wrote, closed, asked}
use shalotrack_gateway.Numeric.{Reading, finite, nearest, round_to}
use shalotrack_gateway.Parsers.Gps103.{
  Fix, Tracker, classify, parse_heartbeat, parse_tracker, build_help_me_ack, nmea_to_degrees,
}
use shalotrack_gateway.Parsers.Gps103.Clock.{
  TimeOfDay, parse_local_datetime, parse_utc_time, resolve_utc_timestamp, resolve, wrap_offset,
  wrap_down, wrap_up, shift_minutes, previous_day,
}
use shalotrack_gateway.Handlers.Gps103.{process_gps103_message, alarm_event, storable}
use shalotrack_gateway.Handlers.Gps103.Binding.{
  Names, by_heartbeat, process_gps103_message-Stranger,
}
use shalotrack_gateway.Handlers.Gps103.Alarms.{Reports, process_gps103_message-sos}
use shalotrack_gateway.Tests.Fixtures.{imei, other_imei, device_id, env, refusing, entry, connected}

abbrev address : Text
address = codes "10.0.0.1"

-- float() that reads nothing.
abbrev no_float : Text → Option Reading
no_float text = none

-- The IMEI of another device than the one on the socket.
abbrev other_heartbeat : Bytes
other_heartbeat = other_imei

other_heartbeat-Names : Names env no_float true other_heartbeat other_imei
unfolding classify parse_heartbeat
other_heartbeat-Names = by_heartbeat other_imei refl refl

differs : other_imei ≢ imei
differs e = clash ((bytes_eq_iff other_imei imei).1 e)
  where
    clash : false ≡ true → ⊥
    clash q = cc

socket_is_bound : truthy (get_imei_by_socket 7 (connected gps103).registry) ≡ some imei
unfolding get_imei_by_socket get
socket_is_bound = refl

process_gps103_message-Stranger_example :
    process_gps103_message env no_float true other_heartbeat 7 address (connected gps103)
    ≡ (none, record (connected gps103) { log = closed 7 ∷ [] })
process_gps103_message-Stranger_example =
    process_gps103_message-Stranger env no_float true other_heartbeat 7 address (connected gps103)
      other_imei other_heartbeat-Names (inr (imei, socket_is_bound, differs))

-- 15 June 2026, 00:10 in Colombo and 18:40 the day before in UTC.
abbrev help_text : Bytes
help_text =
    codes "imei:"
    ++ (imei ++ codes ",help me,2606150010,-,F,184005.000,A,0655.6240,N,07951.6744,E,-,-,-,1")

abbrev local : DateTime
local = record { year = 2026; month = 6; day = 15; hour = 0; minute = 10; second = 0 }

abbrev utc : TimeOfDay
utc = record { hour = 18; minute = 40; second = 5 }

abbrev help_fix : Fix
help_fix = record {
  timestamp =
      some (record { year = 2026; month = 6; day = 14; hour = 18; minute = 40; second = 5 });
  latitude = record { num = pos 4156240; scale = 600000 };
  longitude = record { num = pos 47916744; scale = 600000 };
  speed = finite (record { num = pos 0; scale = 100 });
  heading = finite (record { num = pos 0; scale = 1 });
}

abbrev help_report : Tracker
help_report = record {
  imei = imei;
  keyword = codes "help me";
  alarm_name = some (codes "SOS");
  known_keyword = true;
  fix = some help_fix;
  ignition = some true;
}

help_parsed : parse_tracker no_float true help_text ≡ returns help_report
unfolding parse_tracker get nmea_to_degrees resolve_utc_timestamp resolve wrap_offset wrap_down
    wrap_up shift_minutes previous_day parse_local_datetime parse_utc_time round_to nearest
help_parsed = refl

help-Reports :
    Reports refusing no_float true help_text 7 (connected gps103) imei (entry gps103) help_report
unfolding classify get_imei_by_socket get_device get
help-Reports = record {
  text = help_text;
  report_kind = refl;
  parsed = help_parsed;
  named = refl;
  logged_in = refl;
  registered = refl;
}

process_gps103_message-sos_example :
    let (answer, w') =
      process_gps103_message refusing no_float true help_text 7 address (connected gps103) in
    (answer ≡ some imei)
    × (sent went : Bool) × (vehicle_id : Option Text) × (between : List Event) × (w'.log
        ≡ asked
            (Statement.create_event device_id
              (alarm_event vehicle_id (codes "SOS") (storable (some help_fix))))
            went
          ∷ (between ++ wrote 7 (build_help_me_ack imei) sent ∷ []))
process_gps103_message-sos_example =
    process_gps103_message-sos refusing no_float true help_text 7 address (connected gps103) imei
      (entry gps103) help_report help-Reports refl
