-- ===== src/Commands/Delivery.antt =====
-- To which sockets services/command_service.py `send_command` writes.
use shalotrack_gateway.Shared.{◌≡◌, refl, ap, Bool, Option, none, some, ◌∷◌, if◌then◌else◌}
use shalotrack_gateway.Shared.Bytes.{Bytes}
use shalotrack_gateway.Shared.Text.{Text}
use shalotrack_gateway.Registry.{
  Registry, Entry, Family, gt06, gps103, teltonika, get_device, get_socket,
}
use shalotrack_gateway.World.{World, Environment, wrote}
use shalotrack_gateway.Commands.{
  Outcome, sent, offline, unsupported, fault, send_command, write_for,
}

pub socket_of-get_device :
    (imei : Text) (r : Registry) (d : Option Entry)
    → get_device imei r ≡ d
    → get_socket imei r ≡ elim d [ none ↦ none | some device ↦ some device.socket ]
unfolding get_socket get_device
socket_of-get_device imei r d h =
    ap (λ o. elim o [ none ↦ none | some device ↦ some device.socket ]) h

module _ (env : Environment) (imei : Text) (command : Bytes) (w : World) where
  -- What a command comes to: it is refused with nothing done, or it is written.
  pub data Sent : Outcome × World → Type 0 where
    not_connected : Sent (offline, w)
    not_gt06 : Sent (unsupported, w)
    written :
        (device : Entry)
        → get_device imei w.registry ≡ some device
        → device.protocol ≡ gt06
        → (drained : Bool)
        → Sent (
          if drained then sent else fault,
          record w { log = wrote device.socket command drained ∷ w.log },
        )

  write_for-Sent :
      (device : Entry) (protocol : Family)
      → get_device imei w.registry ≡ some device
      → device.protocol ≡ protocol
      → Sent (write_for env protocol device.socket command w)
  write_for-Sent device gt06 e p = written device e p (env.drains w device.socket)
  write_for-Sent device gps103 e p = not_gt06
  write_for-Sent device teltonika e p = not_gt06

  found-Sent :
      (d : Option Entry) → get_device imei w.registry ≡ d → Sent (send_command env imei command w)
  unfolding send_command
  found-Sent none e = rw (socket_of-get_device imei w.registry none e) not_connected
  found-Sent (some device) e =
      rw (socket_of-get_device imei w.registry (some device) e, e)
        (write_for-Sent device device.protocol e refl)

  -- A command is refused and nothing is done, or the device is registered as a GT06 device, and the
  -- one thing that happens is that the command is written to the device's socket; if the write
  -- fails, the caller gets an exception.
  pub send_command-Sent : Sent (send_command env imei command w)
  send_command-Sent = found-Sent (get_device imei w.registry) refl
