-- ===== src/Server/Sessions/Uninterrupted.antt =====
-- The `finally` block of tcp_server.py when nothing else runs while it waits.
use shalotrack_gateway.Shared.{ℕ, ◌-◌, ◌≡◌, true, Option, some, ◌∷◌}
use shalotrack_gateway.Shared.Text.{Text}
use shalotrack_gateway.Registry.{Entry, unregister_device}
use shalotrack_gateway.World.{World, Environment, Statement, closed}
use shalotrack_gateway.World.Action.{execute}
use shalotrack_gateway.Server.{cleanup_imei, own_device, clean_up}
use shalotrack_gateway.Server.Sessions.{
  Running, serving, leaving, stuck, closing, Reaches, is_served, phase_at, with_world, without,
}

module _ (env : Environment) (conn : ℕ) (imei : Option Text) (s : Running)
    (h : is_served conn s.served ≡ true) (there : s.phase conn ≡ serving) where
  abbrev own : Option (Text × Entry)
  own = own_device env (cleanup_imei env imei conn s.gateway.world) conn s.gateway.world

  abbrev Ends : Type 0
  Ends = (t : Running) × Reaches env s t × (t.gateway ≡ clean_up env imei conn s.gateway)

  module _ (i : Text) (d : Entry) (o : own ≡ some (i, d)) where
    abbrev waits : Running
    waits = record s { phase = phase_at conn (leaving i d.device_id) s.phase }

    abbrev answered : World
    answered = (execute env (Statement.set_device_offline d.device_id) s.gateway.world).1

    abbrev gives_up : Running
    gives_up = record waits {
      phase = phase_at conn (stuck i) waits.phase;
      gateway = with_world answered s.gateway;
    }

    abbrev unregistered : Running
    unregistered = record waits {
      phase = phase_at conn closing waits.phase;
      gateway =
          with_world
            (record answered {
              registry = unregister_device i answered.registry;
              log = closed conn ∷ answered.log;
            })
            s.gateway;
    }

    abbrev freed : Running
    freed = record unregistered {
      served = without conn s.served;
      gateway = record unregistered.gateway { connection_count = s.gateway.connection_count - 1 };
    }
