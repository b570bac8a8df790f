-- ===== src/Tests/Packets.antt =====
-- The handlers of Teltonika frames and of GT06 packets at concrete packets.
use shalotrack_gateway.Shared.{ℕ, ◌≡◌, ◌≢◌, refl, List, [], ◌∷◌, Option, some, Bool, false, ◌⊎◌}
use shalotrack_gateway.Shared.Bytes.{slice_back}
use shalotrack_gateway.Shared.Text.{Text, codes}
use shalotrack_gateway.Shared.Int.{pos}
use shalotrack_gateway.Shared.Dict.{get, put}
use shalotrack_gateway.Shared.Attempt.{returns}
use shalotrack_gateway.Registry.{gt06, teltonika, get_device, get_imei_by_socket}
use shalotrack_gateway.World.{Event, Statement, wrote, asked}
use shalotrack_gateway.Checksum.{crc16_ibm}
use shalotrack_gateway.Parsers.V5.{ack_of}
use shalotrack_gateway.Parsers.Teltonika.{AvlRecord, AvlPacket, IoValue, parse_avl_packet, ack}
use shalotrack_gateway.Parsers.Teltonika.Reader.{ok, err, crc_error, uint}
use shalotrack_gateway.Framing.Teltonika.{is_login_frame}
use shalotrack_gateway.Handlers.Common.{family_name}
use shalotrack_gateway.Handlers.Teltonika.{process_teltonika_frame, refresh_status}
use shalotrack_gateway.Handlers.Teltonika.Status.{Refreshed, refresh_status-Refreshed}
use shalotrack_gateway.Handlers.Teltonika.Delivery.{Delivers}
use shalotrack_gateway.Handlers.Teltonika.Session.{
  Authenticated, process_teltonika_frame_acknowledges, process_teltonika_frame_undecodable,
}
use shalotrack_gateway.Handlers.Gt06.{numbered, header_of, process_packet}
use shalotrack_gateway.Handlers.Gt06.Replies.{process_packet_acks}
use shalotrack_gateway.Tests.Fixtures.{
  imei, device_id, env, entry, idle, connected, no_numbers, no_time, avl_packet, broken_packet,
  gt06_status,
}

abbrev address : Text
address = codes "10.0.0.1"

avl_Authenticated : Authenticated avl_packet 7 (connected teltonika) imei (entry teltonika)
unfolding is_login_frame get_imei_by_socket get_device get
avl_Authenticated = record { data_frame = refl; logged_in = refl; found = refl }

broken_Authenticated : Authenticated broken_packet 7 (connected teltonika) imei (entry teltonika)
unfolding is_login_frame get_imei_by_socket get_device get
broken_Authenticated = record { data_frame = refl; logged_in = refl; found = refl }

-- Colombo, 9 satellites, the ignition on, and 12,600 mV.
abbrev fix : AvlRecord
fix = record {
  timestamp = 1560161086000;
  priority = 1;
  latitude = pos 69270790;
  longitude = pos 798612430;
  altitude = pos 7;
  angle = 180;
  satellites = 9;
  speed = 42;
  event_io_id = 239;
  io = (239, IoValue.number 1) ∷ (66, IoValue.number 12600) ∷ [];
}

abbrev sample : AvlPacket
sample = record { codec = 8; records = fix ∷ [] }

sample_parses : parse_avl_packet avl_packet ≡ ok sample
unfolding parse_avl_packet uint crc16_ibm put
sample_parses = refl

broken_parses : parse_avl_packet broken_packet ≡ err crc_error
unfolding parse_avl_packet crc16_ibm
broken_parses = refl

process_teltonika_frame_acknowledges_example :
    let (answer, w') =
      process_teltonika_frame env 86400000 avl_packet 7 address (connected teltonika) in
    (answer ≡ some imei)
    × (n : ℕ) × (sent : Bool) × (old before : List Event) × (w'.log ≡ wrote 7 (ack n) sent ∷ before)
    × Delivers env 86400000 device_id (fix ∷ []) old n before
process_teltonika_frame_acknowledges_example =
    process_teltonika_frame_acknowledges env 86400000 avl_packet 7 address (connected teltonika)
      imei (entry teltonika) sample avl_Authenticated sample_parses

process_teltonika_frame_undecodable_example :
    let (answer, w') =
      process_teltonika_frame env 86400000 broken_packet 7 address (connected teltonika) in
    (answer ≡ some imei)
    × (w'.registry ≡ (connected teltonika).registry)
    × ((w'.log ≡ [])
        ⊎ ((crc_error ≢ crc_error)
            × (went : Bool) × (w'.log
                ≡ asked
                    (Statement.save_raw device_id (family_name teltonika) broken_packet false)
                    went
                  ∷ [])))
process_teltonika_frame_undecodable_example =
    process_teltonika_frame_undecodable env 86400000 broken_packet 7 address (connected teltonika)
      imei (entry teltonika) crc_error broken_Authenticated broken_parses (λ h. cc)

refresh_status-Refreshed_example :
    Refreshed env 86400000 device_id
      (fix ∷ [])
      idle
      (refresh_status env 86400000 device_id (fix ∷ []) idle).1
refresh_status-Refreshed_example = refresh_status-Refreshed env 86400000 device_id (fix ∷ []) idle

status_header : header_of gt06_status ≡ returns (numbered 0x13)
unfolding header_of
status_header = refl

process_packet_acks_example :
    (answer : Option Text) × (sent : Bool) × (before : List Event) × ((process_packet env no_numbers
        no_time gt06_status 7 address
        (connected gt06)).0
      ≡ returns answer)
    × ((process_packet env no_numbers no_time gt06_status 7 address (connected gt06)).1.log
        ≡ wrote 7 (ack_of 0x13 (slice_back 6 4 gt06_status)) sent ∷ before)
process_packet_acks_example =
    process_packet_acks env no_numbers no_time gt06_status 7 address (connected gt06) 0x13
      status_header
