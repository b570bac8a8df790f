-- ===== src/Tests/Connections.antt =====
-- The end of a connection at concrete gateways.
use shalotrack_gateway.Shared.{ℕ, ◌≡◌, ◌≤◌, refl, [], ◌∷◌, arith, inl, none, some, true}
use shalotrack_gateway.Shared.Dict.{get, put, pop}
use shalotrack_gateway.Shared.Attempt.{returns}
use shalotrack_gateway.Registry.{
  Family, Entry, gt06, new_entry, get_device, get_socket, get_imei_by_socket, register_device,
  unregister_device,
}
use shalotrack_gateway.World.{World, Statement, closed}
use shalotrack_gateway.World.Action.{execute}
use shalotrack_gateway.Handlers.Gt06.{process_packet}
use shalotrack_gateway.Server.{Gateway, Pipeline, handle_device}
use shalotrack_gateway.Server.Cleanup.{Counted, handle_device_counts, handle_device_cap}
use shalotrack_gateway.Shared.Text.{Text, codes}
use shalotrack_gateway.Server.{cleanup_imei, own_device}
use shalotrack_gateway.Server.Sessions.{
  Running, serving, leaving, closing, Sound, Reaches, accepts, logs_in, leaves_own, unregisters,
  frees, here, then_step, started, phase_at, with_registry, with_world, without, is_served,
}
use shalotrack_gateway.Server.Sessions.Reachable.{Reaches-Sound}
use shalotrack_gateway.Tests.Fixtures.{
  idle, imei, device_id, env, connected, no_numbers, no_time, gt06_login,
}

abbrev gateway : Gateway
gateway = record { world = connected gt06; connection_count = 1 }

-- Each read is a packet, and GT06 answers all of them.
abbrev pipeline : Family → Pipeline
pipeline family = record {
  framer = λ buffer. returns (buffer ∷ [], []);
  handler = process_packet env no_numbers no_time;
}

handle_device_counts_example :
    Counted env gateway (handle_device env 10 (gt06 ∷ []) pipeline 9 imei (gt06_login ∷ []) gateway)
handle_device_counts_example =
    handle_device_counts env 10 (gt06 ∷ []) pipeline 9 imei (gt06_login ∷ []) gateway

handle_device_cap_example :
    (handle_device env 10 (gt06 ∷ []) pipeline 9 imei (gt06_login ∷ []) gateway).connection_count
    ≤ 10
handle_device_cap_example =
    handle_device_cap env 10 (gt06 ∷ []) pipeline 9 imei (gt06_login ∷ []) gateway (omega arith)

-- A device that connects and logs in, reconnects while its first connection waits for the database,
-- and is unregistered by that connection.
abbrev accepted : Running
accepted = record (started idle) {
  served = 7 ∷ [];
  phase = phase_at 7 serving (started idle).phase;
  gateway = record (started idle).gateway { connection_count = 1 };
}

abbrev login : ℕ → Running → Running
login conn s = record s {
  gateway =
      with_registry
        (register_device imei (codes "10.0.0.1") device_id conn gt06 5 s.gateway.world.registry)
        s.gateway;
}

abbrev logged_in : Running
logged_in = login 7 accepted

abbrev waiting : Running
waiting = record logged_in { phase = phase_at 7 (leaving imei device_id) logged_in.phase }

abbrev second : Running
second = record waiting {
  served = 9 ∷ 7 ∷ [];
  phase = phase_at 9 serving waiting.phase;
  gateway = record waiting.gateway { connection_count = 2 };
}

abbrev again : Running
again = login 9 second

abbrev told : World
told = (execute env (Statement.set_device_offline device_id) again.gateway.world).1

abbrev unregistered : Running
unregistered = record again {
  phase = phase_at 7 closing again.phase;
  gateway =
      with_world
        (record told { registry = unregister_device imei told.registry; log = closed 7 ∷ told.log })
        again.gateway;
}

abbrev gone : Running
gone = record unregistered {
  served = without 7 unregistered.served;
  gateway = record unregistered.gateway { connection_count = 1 };
}

unbound : get_imei_by_socket 7 accepted.gateway.world.registry ≡ none
unfolding get_imei_by_socket get
unbound = refl

unbound_second : get_imei_by_socket 9 second.gateway.world.registry ≡ none
unfolding get_imei_by_socket register_device get put
unbound_second = refl

abbrev new : Entry
new = new_entry (codes "10.0.0.1") device_id 7 gt06 5

owns :
    own_device env
      (cleanup_imei env (some imei) 7 logged_in.gateway.world)
      7
      logged_in.gateway.world
    ≡ some (imei, new)
unfolding get_device register_device get put
owns = refl

goes_through :
    (execute env (Statement.set_device_offline device_id) again.gateway.world).0 ≡ returns tt
unfolding execute
goes_through = refl

start : Reaches env (started idle) logged_in
start =
    then_step (started idle) accepted logged_in
      (then_step (started idle) (started idle) accepted (here (started idle))
        (accepts 7 (started idle) refl))
      (logs_in 7 imei (codes "10.0.0.1") device_id gt06 5 accepted refl refl (inl unbound))

visit : Reaches env (started idle) gone
visit =
    then_step (started idle) unregistered gone
      (then_step (started idle) again unregistered
        (then_step (started idle) second again
          (then_step (started idle) waiting second
            (then_step (started idle) logged_in waiting start
              (leaves_own 7 (some imei) imei new logged_in refl owns))
            (accepts 9 waiting refl))
          (logs_in 9 imei (codes "10.0.0.1") device_id gt06 5 second refl refl
            (inl unbound_second)))
        (unregisters 7 imei device_id again refl goes_through))
      (frees 7 unregistered refl refl)

reconnected : get_socket imei again.gateway.world.registry ≡ some 9
unfolding get_socket register_device get put
reconnected = refl

-- The new connection is served, and its device is not registered.
lost : (is_served 9 gone.served ≡ true) × (get_device imei gone.gateway.world.registry ≡ none)
unfolding execute unregister_device get_device register_device get put pop
lost = (refl, refl)

Reaches-Sound_example :
    Sound gone
    × (gone.served ≡ []
        → (gone.gateway.connection_count ≡ 0)
          × ((imei : Text) → get_device imei gone.gateway.world.registry ≡ none)
          × ((conn : ℕ) → get_imei_by_socket conn gone.gateway.world.registry ≡ none))
Reaches-Sound_example = Reaches-Sound env idle gone visit
