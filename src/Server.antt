-- ===== src/Server.antt =====
-- tcp_server.py: one connection from its accept to its clean-up, and the connection cap. The reads
-- of a connection are a list, which ends when the device closes, is reset, or is silent for too
-- long.
pub mod Cleanup
pub mod Sessions
use shalotrack_gateway.Shared.{
  ℕ, ◌+◌, ◌-◌, Bool, true, false, not, ◌&&◌, Option, none, some, List, [], ◌∷◌, ◌++◌, ltb, leb,
  ◌==◌, length, if◌then◌else◌,
}
use shalotrack_gateway.Shared.Bytes.{Bytes}
use shalotrack_gateway.Shared.Text.{Text}
use shalotrack_gateway.Shared.Attempt.{Attempt, returns, raises}
use shalotrack_gateway.Registry.{
  Registry, Entry, Family, get_device, get_imei_by_socket, unregister_device, update_last_seen,
  mark_packet_received,
}
use shalotrack_gateway.World.{World, Environment, Statement, Event, closed, truthy, is_closing}
use shalotrack_gateway.World.Action.{execute}
use shalotrack_gateway.Detect.{detect_protocol}

-- The world with `_connection_count`.
pub record Gateway : Type 0 where
  pub world : World
  pub connection_count : ℕ

-- framer(buffer) and handler(frame, writer, addr) of a family
pub record Pipeline : Type 0 where
  pub framer : Bytes → Attempt (List Bytes × Bytes)
  pub handler : Bytes → ℕ → Text → World → Attempt (Option Text) × World

-- What the loop over the packets leaves: whether it raised, the IMEI so far, and the world.
pub record Progress : Type 0 where
  pub raised : Bool
  pub imei : Option Text
  pub world : World

module _ (env : Environment) where
  -- if packet_imei: imei = packet_imei; update_last_seen(imei); mark_packet_received()
  abbrev noted : Option Text → Option Text → World → Progress
  noted imei none w = record { raised = false; imei = imei; world = w }
  noted imei (some packet_imei) w = record {
    raised = false;
    imei = some packet_imei;
    world = record w {
      registry =
          mark_packet_received (env.now w) (update_last_seen packet_imei (env.now w) w.registry);
    };
  }

  abbrev after_packet : Option Text → Attempt (Option Text) × World → Progress
  after_packet imei (raises, w) = record { raised = true; imei = imei; world = w }
  after_packet imei (returns answer, w) = noted imei (truthy answer) w

  -- for packet in packets, up to a closing writer or an exception
  unfoldable pub serve_packets : Pipeline → ℕ → Text → List Bytes → Option Text → World → Progress
  serve_packets p conn ip [] imei w = record { raised = false; imei = imei; world = w }
  serve_packets p conn ip (packet ∷ packets) imei w =
      let next = after_packet imei (p.handler packet conn ip w) in
      let rest = serve_packets p conn ip packets next.imei next.world in
      if is_closing conn w
      then record { raised = false; imei = imei; world = w }
      else if next.raised
      then next
      else rest

  -- The `while True` loop, on the reads that are still to come.
  unfoldable pub serve : Pipeline → ℕ → Text → Bytes → List Bytes → Option Text → World → Progress
  unfolding serve_packets
  serve p conn ip buffer [] imei w = elim (p.framer buffer) [
    | raises ↦ record { raised = true; imei = imei; world = w }
    | returns (packets, rest) ↦ serve_packets p conn ip packets imei w
  ]
  serve p conn ip buffer (read ∷ reads) imei w = elim (p.framer buffer) [
    | raises ↦ record { raised = true; imei = imei; world = w }
    | returns (packets, rest) ↦
        let done = serve_packets p conn ip packets imei w in
        let later = serve p conn ip (rest ++ read) reads done.imei done.world in
        if done.raised then done else later
  ]

  -- while len(data) < 5, on the reads that arrive before PROBE_TIMEOUT
  abbrev pub top_up : Bytes → List Bytes → Bytes × List Bytes
  top_up opening [] = (opening, [])
  top_up opening (read ∷ reads) =
      let more = top_up (opening ++ read) reads in
      if ltb (length opening) 5 then more else (opening, read ∷ reads)

  -- `imei or get_imei_by_socket(writer)`
  abbrev pub cleanup_imei : Option Text → ℕ → World → Option Text
  cleanup_imei none conn w = truthy (get_imei_by_socket conn w.registry)
  cleanup_imei (some imei) conn w = some imei

  -- device and device["socket"] is writer
  abbrev pub own_entry : Text → ℕ → Option Entry → Option (Text × Entry)
  own_entry imei conn none = none
  own_entry imei conn (some device) = if device.socket == conn then some (imei, device) else none

  abbrev pub own_device : Option Text → ℕ → World → Option (Text × Entry)
  own_device none conn w = none
  own_device (some imei) conn w = own_entry imei conn (get_device imei w.registry)

  -- writer.close(), and _release_slot()
  abbrev pub release : ℕ → Gateway → Gateway
  release conn g = record g {
    world = record g.world { log = closed conn ∷ g.world.log };
    connection_count = g.connection_count - 1;
  }

  -- unregister_device(imei) and what follows, unless set_device_offline has raised: its exception
  -- leaves the `finally` block at once.
  abbrev pub offline_then : Text → ℕ → Gateway → Attempt Unit × World → Gateway
  offline_then imei conn g (raises, w) = record g { world = w }
  offline_then imei conn g (returns _, w) =
      release conn (record g { world = record w { registry = unregister_device imei w.registry } })

  abbrev pub finish_own : Option (Text × Entry) → ℕ → Gateway → Gateway
  finish_own none conn g = release conn g
  finish_own (some (imei, device)) conn g =
      offline_then imei conn g (execute env (Statement.set_device_offline device.device_id) g.world)

  -- the `finally` block
  unfoldable pub clean_up : Option Text → ℕ → Gateway → Gateway
  clean_up imei conn g =
      finish_own (own_device (cleanup_imei imei conn g.world) conn g.world) conn g

  abbrev pub finish : ℕ → Gateway → Progress → Gateway
  finish conn g p = clean_up p.imei conn (record g { world = p.world })

  abbrev with_family :
      (Family → Pipeline) → ℕ → Text → Bytes → List Bytes → World → Option Family → Progress
  with_family pipelines conn ip opening reads w none = record {
    raised = false;
    imei = none;
    world = w;
  }
  with_family pipelines conn ip opening reads w (some family) =
      serve (pipelines family) conn ip opening reads none w

  -- No first read: a health check connects and leaves without a byte.
  abbrev pub first_data :
      List Family → (Family → Pipeline) → ℕ → Text → List Bytes → World → Progress
  first_data enabled pipelines conn ip [] w = record { raised = false; imei = none; world = w }
  first_data enabled pipelines conn ip (read ∷ reads) w =
      let topped = top_up read reads in
      with_family pipelines conn ip (topped.0) (topped.1) w (detect_protocol enabled (topped.0))

  -- `max_connections` is config.MAX_CONNECTIONS.
  unfoldable pub handle_device :
      ℕ → List Family → (Family → Pipeline) → ℕ → Text → List Bytes → Gateway → Gateway
  unfolding serve clean_up
  handle_device max_connections enabled pipelines conn ip reads g =
      if leb max_connections g.connection_count
      then record g { world = record g.world { log = closed conn ∷ g.world.log } }
      else finish conn (record g { connection_count = g.connection_count + 1 })
          (first_data enabled pipelines conn ip reads g.world)
