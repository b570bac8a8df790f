-- ===== src/Tests/Orders.antt =====
-- The commands of the gateway, and its replies, at concrete values.
use shalotrack_gateway.Shared.{◌+◌, ◌≤◌, ◌≡◌, ◌↔◌, refl, [], ◌∷◌, length, arith}
use shalotrack_gateway.Shared.Bytes.{Bytes, slice_back}
use shalotrack_gateway.Shared.Int.{pos}
use shalotrack_gateway.Shared.Text.{Text, codes}
use shalotrack_gateway.Shared.Attempt.{returns, raises}
use shalotrack_gateway.Registry.{gt06, gps103}
use shalotrack_gateway.Parsers.V5.{build_ack}
use shalotrack_gateway.Handlers.Gt06.{header_of, numbered}
use shalotrack_gateway.Handlers.Gt06.Ack.{IsAck, build_ack-IsAck}
use shalotrack_gateway.Commands.{send_command}
use shalotrack_gateway.Commands.Builder.{build_command}
use shalotrack_gateway.Commands.Settings.{build_timer, build_apn, build_sos_add}
use shalotrack_gateway.Commands.Frames.{
  IsCommand, build_command-IsCommand, serial_after, build_command_exhausted,
}
use shalotrack_gateway.Commands.Delivery.{Sent, send_command-Sent}
use shalotrack_gateway.Gps103.Commands.{Ordered, send_gps103_command, send_gps103_command-Ordered}
use shalotrack_gateway.Gps103.Poller.{
  Listed, Holds, Due, due_devices, is_due, interval_for, due_devices_iff,
}
use shalotrack_gateway.Tests.Fixtures.{registry, imei, env, connected, gt06_status}

abbrev relay : Text
relay = codes "RELAY,1#"

timer_text : build_timer (pos 20) (pos 300) 7 ≡ build_command (codes "TIMER,20,300#") 7
timer_text = refl

apn_text : build_apn (codes "dialogbb") [] [] 7 ≡ build_command (codes "APN,dialogbb#") 7
apn_text = refl

sos_text : build_sos_add (codes "+94") [] (codes "119") 7 ≡ build_command (codes "SOS,A,+94,119#") 7
sos_text = refl

status_numbered : header_of gt06_status ≡ returns (numbered 0x13)
unfolding header_of
status_numbered = refl

build_command-IsCommand_example :
    (packet : Bytes) × (build_command relay 1 ≡ (returns packet, 1 + 1)) × IsCommand relay 1 packet
build_command-IsCommand_example = build_command-IsCommand relay 1 (refl, omega arith) (omega arith)

build_command_exhausted_example :
    ((build_command relay (serial_after (relay ∷ relay ∷ []) 65534)).0 ≡ raises)
    ↔ (65536 ≤ 65534 + length (relay ∷ relay ∷ []))
build_command_exhausted_example =
    build_command_exhausted (relay ∷ relay ∷ []) relay 65534 (refl, omega arith)

send_command-Sent_example :
    Sent env imei relay (connected gt06) (send_command env imei relay (connected gt06))
send_command-Sent_example = send_command-Sent env imei relay (connected gt06)

build_ack-IsAck_example :
    (reply : Bytes) × (build_ack gt06_status ≡ returns reply)
    × IsAck (slice_back 6 4 gt06_status) reply
    × (header_of reply ≡ returns (numbered 0x13))
build_ack-IsAck_example = build_ack-IsAck gt06_status 0x13 (omega arith) status_numbered

send_gps103_command-Ordered_example :
    Ordered env imei
      (codes "relay_off")
      (connected gps103)
      (send_gps103_command env imei (codes "relay_off") (connected gps103))
send_gps103_command-Ordered_example =
    send_gps103_command-Ordered env imei (codes "relay_off") (connected gps103)

due_devices_iff_example :
    Listed 60 300 imei (due_devices 60 300 1000 (registry gps103))
    ↔ Holds 60 300 (registry gps103).by_imei imei (Due 60 300 1000)
due_devices_iff_example = due_devices_iff 60 300 1000 (registry gps103) imei

one_due : due_devices 60 300 1000 (registry gps103) ≡ imei ∷ []
unfolding due_devices is_due interval_for
one_due = refl
