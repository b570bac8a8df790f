-- ===== src/Gps103/Polling.antt =====
-- services/gps103_poller.py `poll_once`: one position request to every device that is due.
use shalotrack_gateway.Shared.{ℕ, ◌+◌, Bool, true, false, Option, none, some, List, [], ◌∷◌}
use shalotrack_gateway.Shared.Bytes.{Bytes}
use shalotrack_gateway.Shared.Text.{Text}
use shalotrack_gateway.Shared.Attempt.{Attempt, returns, raises}
use shalotrack_gateway.Registry.{Entry, get_device, note_poll}
use shalotrack_gateway.World.{World, Environment, wrote}
use shalotrack_gateway.Gps103.Commands.{build_single_position}
use shalotrack_gateway.Gps103.Poller.{due_devices}

module _ (env : Environment) (moving_interval idle_interval : ℕ) where
  -- The request goes out in time, and is noted, or it fails.
  abbrev pub asked_device : Text → Bool → World → ℕ × World
  asked_device imei true w = (1, record w { registry = note_poll imei (env.now w) w.registry })
  asked_device imei false w = (0, w)

  abbrev pub ask_device : Text → Entry → Attempt Bytes → World → ℕ × World
  ask_device imei entry raises w = (0, w)
  ask_device imei entry (returns payload) w =
      let drained = env.drains w entry.socket in
      asked_device imei drained (record w { log = wrote entry.socket payload drained ∷ w.log })

  abbrev pub poll_device : Text → Option Entry → World → ℕ × World
  poll_device imei none w = (0, w)
  poll_device imei (some entry) w = ask_device imei entry (build_single_position imei) w

  -- A device that fails does not keep the next ones from being asked.
  unfoldable pub poll_all : List Text → World → ℕ × World
  poll_all [] w = (0, w)
  poll_all (imei ∷ due) w =
      let (sent, w') = poll_device imei (get_device imei w.registry) w in
      let (more, w'') = poll_all due w' in (sent + more, w'')

  unfoldable pub poll_once : ℕ → World → ℕ × World
  unfolding poll_all
  poll_once now w = poll_all (due_devices moving_interval idle_interval now w.registry) w
