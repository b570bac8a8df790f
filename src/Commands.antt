-- ===== src/Commands.antt =====
-- services/command_service.py: sending a command to a connected device.
pub mod Builder
pub mod Settings
pub mod Frames
pub mod Delivery
pub mod Service
use shalotrack_gateway.Shared.{
  ℕ, ◌+◌, Bool, true, false, ◌||◌, Option, none, some, List, [], ◌∷◌, ◌++◌, ltb, length,
  if◌then◌else◌,
}
use shalotrack_gateway.Shared.Bytes.{Bytes, be_bytes2}
use shalotrack_gateway.Shared.Text.{Text, all_of, codes}
use shalotrack_gateway.Shared.Attempt.{Attempt, returns, raises}
use shalotrack_gateway.Checksum.{crc16_x25}
use shalotrack_gateway.Registry.{Entry, Family, gt06, gps103, teltonika, get_device, get_socket}
use shalotrack_gateway.World.{World, Environment, Event, wrote}
use shalotrack_gateway.Framing.Gt06.{short_marker}

-- entry.get("protocol", "GT06") if entry else "GT06"
abbrev pub protocol_or_gt06 : Option Entry → Family
protocol_or_gt06 none = gt06
protocol_or_gt06 (some entry) = entry.protocol

-- What sending a command comes to: the device was sent it, "Device Offline" or UnsupportedCommandError
-- was raised, or another exception.
pub data Outcome : Type 0 where
  sent offline unsupported fault : Outcome

abbrev pub gives_up : Outcome → World → Outcome × World
gives_up o w = (o, w)

module _ (env : Environment) where
  -- writer.write(command); await writer.drain(), whose exceptions leave the coroutine
  abbrev pub write_command : ℕ → Bytes → World → Outcome × World
  write_command conn command w =
      let drained = env.drains w conn in
      (if drained then sent else fault, record w { log = wrote conn command drained ∷ w.log })

  abbrev pub write_for : Family → ℕ → Bytes → World → Outcome × World
  write_for gt06 conn command = write_command conn command
  write_for gps103 conn command = gives_up unsupported
  write_for teltonika conn command = gives_up unsupported

  abbrev pub write_to : Option ℕ → Family → Bytes → World → Outcome × World
  write_to none protocol command = gives_up offline
  write_to (some conn) protocol command = write_for protocol conn command

  unfoldable pub send_command : Text → Bytes → World → Outcome × World
  send_command imei command w =
      write_to (get_socket imei w.registry) (protocol_or_gt06 (get_device imei w.registry)) command
        w
