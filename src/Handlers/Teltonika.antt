-- ===== src/Handlers/Teltonika.antt =====
-- services/teltonika_handler.py: logins and AVL packets of Teltonika devices. Times are in
-- milliseconds.
pub mod Delivery
pub mod Session
pub mod Status
use shalotrack_gateway.Shared.{
  ℕ, zero, suc, ◌+◌, ◌*◌, ◌^◌, Bool, true, false, not, ◌&&◌, ◌||◌, Option, none, some, List, [],
  ◌∷◌, leb, ltb, if◌then◌else◌,
}
use shalotrack_gateway.Shared.Bytes.{Bytes}
use shalotrack_gateway.Shared.Text.{Text}
use shalotrack_gateway.Shared.Dict.{get, put, pop, text_key}
use shalotrack_gateway.Shared.Attempt.{Attempt, returns, raises}
use shalotrack_gateway.Registry.{
  Registry, Entry, teltonika, register_device, get_device, get_imei_by_socket,
}
use shalotrack_gateway.World.{
  World, Environment, Statement, Event, asked, Position, Decimal, in_degrees, whole, instant,
  truthy,
}
use shalotrack_gateway.World.Action.{
  Action, pure, fault, lift, gets, catch, safely, send, execute, save_raw_packet, ◌>>=◌, ◌>>◌,
}
use shalotrack_gateway.Repository.{get_device_by_imei}
use shalotrack_gateway.Parsers.Teltonika.Reader
use shalotrack_gateway.Parsers.Teltonika.Reader.{Result, ok, err}
use shalotrack_gateway.Parsers.Teltonika.{
  AvlRecord, AvlPacket, has_fix, ignition, parse_login, parse_avl_packet, ack, login_accept,
}
use shalotrack_gateway.Framing.Teltonika.{is_login_frame}
use shalotrack_gateway.Handlers.Common.{drop_connection, login_bookkeeping, family_name}

abbrev pub alive_refresh : ℕ
alive_refresh = 60000

-- The coordinates as degrees: the parser's numbers over 10,000,000.
abbrev pub position_of : AvlRecord → Position
position_of rec = record {
  latitude = record { num = rec.latitude; scale = 10000000 };
  longitude = record { num = rec.longitude; scale = 10000000 };
  speed = whole rec.speed;
  heading = whole rec.angle;
  satellites = rec.satellites;
  event_time = instant rec.timestamp;
}

unfoldable pub position_ok : AvlRecord → Bool
unfolding in_degrees
position_ok rec =
    let p = position_of rec in
    in_degrees 90 p.latitude && in_degrees 180 p.longitude && leb rec.speed 300 && leb rec.angle 360

-- sorted(records, key=lambda r: r.timestamp, reverse=True), which keeps equals in order
abbrev pub insert_newest : AvlRecord → List AvlRecord → List AvlRecord
insert_newest rec [] = rec ∷ []
insert_newest rec (r ∷ rs) =
    let rest = insert_newest rec rs in
    if ltb rec.timestamp r.timestamp then r ∷ rest else rec ∷ r ∷ rs

abbrev pub newest_first : List AvlRecord → List AvlRecord
newest_first [] = []
newest_first (rec ∷ recs) = insert_newest rec (newest_first recs)

abbrev pub or_next : Option Bool → Option Bool → Option Bool
or_next none next = next
or_next (some b) next = some b

abbrev pub first_ignition : List AvlRecord → Option Bool
first_ignition [] = none
first_ignition (rec ∷ recs) = or_next (ignition rec) (first_ignition recs)

abbrev same_flag : Option Bool → Bool → Bool
same_flag none b = false
same_flag (some true) b = b
same_flag (some false) b = not b

abbrev due : Option ℕ → ℕ → Bool
due none now = true
due (some last) now = leb (last + alive_refresh) now

-- `max_future` is config.TELTONIKA_MAX_FUTURE_SECONDS, in milliseconds.
module _ (env : Environment) (max_future : ℕ) where
  abbrev set_alive : Text → ℕ → World → World
  set_alive device_id now w = record w { last_alive = put device_id now w.last_alive }

  -- mark_device_alive(device_id, heartbeat=True), once a minute at most
  abbrev refresh_alive : Text → ℕ → World → World
  refresh_alive device_id now w =
      if due (get device_id w.last_alive) now
      then set_alive device_id now
          (safely (execute env (Statement.mark_device_alive device_id true)) w).1
      else w

  -- Record a changed ignition, or refresh LastSeen.
  abbrev refresh_with : Text → ℕ → Option Bool → World → World
  refresh_with device_id now none w = refresh_alive device_id now w
  refresh_with device_id now (some on) w =
      if same_flag (get device_id w.last_ignition) on
      then refresh_alive device_id now w
      else let w' = (safely (execute env (Statement.set_ignition device_id on)) w).1 in
        set_alive device_id now (record w' { last_ignition = put device_id on w'.last_ignition })

  unfoldable pub refresh_status : Text → List AvlRecord → Action Unit
  unfolding safely execute
  refresh_status device_id records w = (
    returns tt,
    refresh_with device_id (env.monotonic w) (first_ignition (newest_first records)) w,
  )

  -- True when the record is stored or skipped on purpose, False on a database failure.
  unfoldable pub store_record : Text → AvlRecord → World → Bool × World
  store_record device_id rec w =
      let s = Statement.save_location device_id (position_of rec) in
      let went = env.accepts w s in
      if not (has_fix rec)
      then (true, w)
      else if ltb (env.now w + max_future) rec.timestamp
      then (true, w)
      else if not (position_ok rec)
      then (true, w)
      else (went, record w { log = asked s went ∷ w.log })

  -- for record in packet.records: if not await _store_record(...): break; accepted += 1
  unfoldable pub store_records : Text → List AvlRecord → World → ℕ × World
  unfolding store_record
  store_records device_id [] w = (0, w)
  store_records device_id (rec ∷ recs) w =
      let (dealt, w') = store_record device_id rec w in
      let (n, w'') = store_records device_id recs w' in if dealt then (suc n, w'') else (0, w')

  unfoldable pub acknowledge : ℕ → Text → Text → AvlPacket → Bytes → Action (Option Text)
  unfolding store_records refresh_status safely
  acknowledge conn imei device_id packet raw = do
    safely (save_raw_packet env device_id (family_name teltonika) raw false true)
    refresh_status device_id packet.records
    accepted ← λ w. let (n, w') = store_records device_id packet.records w in (returns n, w')
    send env conn (ack accepted)
    pure (some imei)

  abbrev answer_avl : ℕ → Text → Text → Bytes → Result AvlPacket → Action (Option Text)
  answer_avl conn imei device_id raw (ok packet) = acknowledge conn imei device_id packet raw
  answer_avl conn imei device_id raw (err Reader.crc_error) = pure (some imei)
  answer_avl conn imei device_id raw (err Reader.unicode_error) = fault
  answer_avl conn imei device_id raw (err _) = do
    safely (save_raw_packet env device_id (family_name teltonika) raw true false)
    pure (some imei)

  -- get_device(imei)["device_id"], which raises on a device that is gone
  abbrev with_device : ℕ → Text → Bytes → Option Entry → Action (Option Text)
  with_device conn imei raw none = fault
  with_device conn imei raw (some device) =
      answer_avl conn imei device.device_id raw (parse_avl_packet raw)

  abbrev avl_of : ℕ → Bytes → Option Text → Action (Option Text)
  avl_of conn raw none w = drop_connection conn w
  avl_of conn raw (some imei) w = with_device conn imei raw (get_device imei w.registry) w

  unfoldable pub handle_avl : Bytes → ℕ → Action (Option Text)
  handle_avl raw conn w = avl_of conn raw (truthy (get_imei_by_socket conn w.registry)) w

  -- Register, forget the cached state of the device, and answer before the bookkeeping.
  abbrev welcome : Bytes → ℕ → Text → Text → Option Text → Action (Option Text)
  welcome raw conn ip imei none = drop_connection conn
  welcome raw conn ip imei (some device_id) = do
    λ w. (
      returns tt,
      record w {
        registry = register_device imei ip device_id conn teltonika (env.now w) w.registry;
        last_alive = pop device_id w.last_alive;
        last_ignition = pop device_id w.last_ignition;
      },
    )
    send env conn login_accept
    login_bookkeeping env teltonika device_id raw
    pure (some imei)

  abbrev login_as : Bytes → ℕ → Text → Result Text → Action (Option Text)
  login_as raw conn ip (err Reader.unicode_error) = fault
  login_as raw conn ip (err _) = drop_connection conn
  login_as raw conn ip (ok imei) = do
    device_id ← get_device_by_imei env imei teltonika
    welcome raw conn ip imei (truthy device_id)

  unfoldable pub handle_login : Bytes → ℕ → Text → Action (Option Text)
  handle_login raw conn ip = login_as raw conn ip (parse_login raw)

  -- An exception that gets this far leaves the connection's IMEI as the answer.
  abbrev or_socket_imei : ℕ → Attempt (Option Text) → World → Option Text
  or_socket_imei conn (returns answer) w = answer
  or_socket_imei conn raises w = get_imei_by_socket conn w.registry

  unfoldable pub process_teltonika_frame : Bytes → ℕ → Text → World → Option Text × World
  unfolding handle_login handle_avl
  process_teltonika_frame raw conn ip w =
      let (r, w') =
        (if is_login_frame raw then handle_login raw conn ip else handle_avl raw conn) w in
      (or_socket_imei conn r w', w')
