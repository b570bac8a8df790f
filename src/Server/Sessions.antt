-- ===== src/Server/Sessions.antt =====
-- Connections of tcp_server.py that run at the same time: their steps on the one registry, in any
-- order. The registry changes only when a device logs in, when its entry is noted, and when a
-- connection that ends unregisters it. The `finally` block of `handle_device` is several steps: it
-- waits for the database between the test of the device's socket and `unregister_device`, and for the
-- lock before the slot is freed.
pub mod Logins
pub mod Ends
pub mod Reachable
pub mod Uninterrupted
use shalotrack_gateway.Shared.{
  ℕ, ◌+◌, ◌-◌, ◌≤◌, ◌≡◌, ◌≢◌, refl, sym, ap, subst, ◌∙◌, ◌⊎◌, inl, inr, Bool, true, false, ◌||◌,
  Option, none, some, List, [], ◌∷◌, length, arith, ◌==◌, ==_iff, Bool-cases, Option-cases,
  if◌then◌else◌,
}
use shalotrack_gateway.Shared.Text.{Text}
use shalotrack_gateway.Shared.Dict.{
  Dict, get, put, text_key, nat_key, get-put, get-pop, get-put_self, get-put_ne, bytes_eq_iff,
}
use shalotrack_gateway.Registry.{
  Registry, Entry, Family, empty, new_entry, change, get_device, get_imei_by_socket,
  register_device, unregister_device,
}
use shalotrack_gateway.Registry.Consistent.{
  Consistent, text-cases, register_device-Consistent, unregister_device-Consistent,
}
use shalotrack_gateway.World.{World, Environment, Statement, closed}
use shalotrack_gateway.Shared.Attempt.{returns, raises}
use shalotrack_gateway.World.Action.{execute}
use shalotrack_gateway.Server.{Gateway, cleanup_imei, own_device, own_entry, finish_own, clean_up}

-- How far a connection is: it is served; it waits for the statement that its device is offline, and
-- will unregister that device; that statement was refused; or its socket is closed and its slot is
-- about to be freed.
pub data Phase : Type 0 where
  serving : Phase
  leaving : Text → Text → Phase
  stuck : Text → Phase
  closing : Phase

-- The gateway, with the sockets of the connections that have a slot, and how far they are.
pub record Running : Type 0 where
  pub served : List ℕ
  pub phase : ℕ → Phase
  pub gateway : Gateway

abbrev pub phase_at : ℕ → Phase → (ℕ → Phase) → ℕ → Phase
phase_at conn p phases c = if c == conn then p else phases c

abbrev pub is_served : ℕ → List ℕ → Bool
is_served conn [] = false
is_served conn (c ∷ cs) = if c == conn then true else is_served conn cs

-- The sockets without one that ends.
abbrev pub without : ℕ → List ℕ → List ℕ
without conn [] = []
without conn (c ∷ cs) = if c == conn then cs else c ∷ without conn cs

abbrev pub with_registry : Registry → Gateway → Gateway
with_registry registry g = record g { world = record g.world { registry = registry } }

abbrev pub with_world : World → Gateway → Gateway
with_world w g = record g { world = w }

module _ (env : Environment) where
  pub data Step : Running → Running → Type 0 where
    -- A connection is accepted.
    accepts :
        (conn : ℕ) (s : Running)
        → is_served conn s.served ≡ false
        → Step s (record {
          served = conn ∷ s.served;
          phase = phase_at conn serving s.phase;
          gateway = record s.gateway { connection_count = s.gateway.connection_count + 1 };
        })
    -- A device logs in on a socket that is bound to no other.
    logs_in :
        (conn : ℕ) (imei ip device_id : Text) (protocol : Family) (now : ℕ) (s : Running)
        → is_served conn s.served ≡ true
        → s.phase conn ≡ serving
        → (get_imei_by_socket conn s.gateway.world.registry ≡ none)
          ⊎ (get_imei_by_socket conn s.gateway.world.registry ≡ some imei)
        → Step s (record s {
          gateway =
              with_registry
                (register_device imei ip device_id conn protocol now s.gateway.world.registry)
                s.gateway;
        })
    -- Something is noted in a device's entry.
    notes :
        (imei : Text) (f : Entry → Entry) (s : Running)
        → ((e : Entry) → (f e).socket ≡ e.socket)
        → Step s (record s {
          gateway =
              with_registry
                (change imei f (get_device imei s.gateway.world.registry) s.gateway.world.registry)
                s.gateway;
        })
    -- A handler does something that leaves the two dictionaries alone.
    works :
        (w : World) (s : Running)
        → w.registry.by_imei ≡ s.gateway.world.registry.by_imei
        → w.registry.by_socket ≡ s.gateway.world.registry.by_socket
        → Step s (record s { gateway = with_world w s.gateway })
    -- A connection ends, finds its device registered on its socket, and waits for the statement that
    -- the device is offline.
    leaves_own :
        (conn : ℕ) (imei : Option Text) (i : Text) (d : Entry) (s : Running)
        → s.phase conn ≡ serving
        → own_device env (cleanup_imei env imei conn s.gateway.world) conn s.gateway.world
          ≡ some (i, d)
        → Step s (record s { phase = phase_at conn (leaving i d.device_id) s.phase })
    -- A connection ends that has no device of its own, and closes its socket. It knows the device that
    -- the socket is bound to, if there is one.
    leaves_other :
        (conn : ℕ) (imei : Option Text) (s : Running)
        → s.phase conn ≡ serving
        → own_device env (cleanup_imei env imei conn s.gateway.world) conn s.gateway.world ≡ none
        → ((j : Text)
            → get_imei_by_socket conn s.gateway.world.registry ≡ some j
            → cleanup_imei env imei conn s.gateway.world ≡ some j)
        → Step s (record s {
          phase = phase_at conn closing s.phase;
          gateway =
              with_world
                (record s.gateway.world { log = closed conn ∷ s.gateway.world.log })
                s.gateway;
        })
    -- The statement is refused, and its exception leaves the `finally` block.
    refused :
        (conn : ℕ) (i device_id : Text) (s : Running)
        → s.phase conn ≡ leaving i device_id
        → (execute env (Statement.set_device_offline device_id) s.gateway.world).0 ≡ raises
        → Step s (record s {
          phase = phase_at conn (stuck i) s.phase;
          gateway =
              with_world
                (execute env (Statement.set_device_offline device_id) s.gateway.world).1
                s.gateway;
        })
    -- The statement goes through: the device is unregistered, on whatever socket it is by then, and
    -- the connection's socket closed.
    unregisters :
        (conn : ℕ) (i device_id : Text) (s : Running)
        → s.phase conn ≡ leaving i device_id
        → (execute env (Statement.set_device_offline device_id) s.gateway.world).0 ≡ returns tt
        → Step s (record s {
          phase = phase_at conn closing s.phase;
          gateway =
              let w = (execute env (Statement.set_device_offline device_id) s.gateway.world).1 in
              with_world
                (record w { registry = unregister_device i w.registry; log = closed conn ∷ w.log })
                s.gateway;
        })
    -- The slot is freed.
    frees :
        (conn : ℕ) (s : Running)
        → is_served conn s.served ≡ true
        → s.phase conn ≡ closing
        → Step s (record s {
          served = without conn s.served;
          gateway = record s.gateway { connection_count = s.gateway.connection_count - 1 };
        })

  pub data Reaches : Running → Running → Type 0 where
    here : (s : Running) → Reaches s s
    then_step : (s t u : Running) → Reaches s t → Step t u → Reaches s u

-- The gateway when it starts.
abbrev pub started : World → Running
started w = record {
  served = [];
  phase = λ conn. serving;
  gateway = record { world = record w { registry = empty }; connection_count = 0 };
}

-- The devices that may be registered on the socket of a connection: any while it is served, at most
-- the one that it found its own while it waits, and none once its socket is closed.
abbrev pub Allowed : Phase → Text → Type 0
Allowed serving imei = Unit
Allowed (leaving i device_id) imei = imei ≡ i
Allowed (stuck i) imei = imei ≡ i
Allowed closing imei = ⊥

-- The two dictionaries agree, every device is on a socket that has a slot and that allows it, and the
-- count is that of the sockets.
pub record Sound (s : Running) : Type 0 where
  pub consistent : Consistent s.gateway.world.registry
  pub on_line :
      (imei : Text) (e : Entry)
      → get imei s.gateway.world.registry.by_imei ≡ some e
      → is_served e.socket s.served ≡ true
  pub allowed :
      (imei : Text) (e : Entry)
      → get imei s.gateway.world.registry.by_imei ≡ some e
      → Allowed (s.phase e.socket) imei
  pub counted : s.gateway.connection_count ≡ length s.served

pub phase_at-Allowed :
    (conn c : ℕ) (p : Phase) (phases : ℕ → Phase) (imei : Text)
    → (c ≡ conn → Allowed p imei)
    → Allowed (phases c) imei
    → Allowed (phase_at conn p phases c) imei
phase_at-Allowed conn c p phases imei h k = elim (Bool-cases (c == conn)) [
  | inl t ↦ rw t (h ((==_iff c conn).0 t))
  | inr n ↦ rw n k
]
