-- ===== src/Handlers/Gps103/Alarms.antt =====
-- What `_handle_tracker` of services/gps103_handler.py does with a report of a device that is
-- logged in.
use shalotrack_gateway.Shared.{
  ℕ, ◌≡◌, refl, sym, ap, ◌∙◌, Bool, true, Option, some, List, [], ◌∷◌, ◌++◌, append_assoc,
}
use shalotrack_gateway.Shared.Bytes.{Bytes, bytes_eq_refl}
use shalotrack_gateway.Shared.Text.{Text, codes}
use shalotrack_gateway.Shared.Dict.{text_key}
use shalotrack_gateway.Shared.Attempt.{Attempt, returns, raises}
use shalotrack_gateway.Registry.{get_imei_by_socket, Entry, gps103, get_device}
use shalotrack_gateway.World.{truthy, World, Environment, Statement, Event, Decimal, asked, wrote}
use shalotrack_gateway.World.Action.{Action, pure, follow, safely, execute, send, ◌>>=◌, ◌>>◌}
use shalotrack_gateway.Numeric.{Reading}
use shalotrack_gateway.Parsers.Gps103.{
  Tracker, Fix, build_help_me_ack, classify, parse_tracker, tracker,
}
use shalotrack_gateway.Handlers.Common.{family_name}
use shalotrack_gateway.Handlers.Gps103.{
  authenticated_imei, process_gps103_message, handle_tracker, or_socket_imei, store_report,
  store_alarm, storable, alarm_event,
}
use shalotrack_gateway.Handlers.Gps103.Calm.{Calm, Calmly, Any, Calm-save_raw_packet}
use shalotrack_gateway.Handlers.Gps103.Writes.{
  Calm-store_ignition, Calm-vehicle_for, Calm-store_position, Calm-store_report,
}

module _ (env : Environment) (float_of : Text → Option Reading) (in_kmh : Bool) where
  abbrev pub sos : Text
  sos = codes "SOS"

  module _ (imei device_id : Text) (position : Option (Fix × (Decimal × Decimal))) where
    -- The alarm event has been asked for, as the last thing, and the answer is the IMEI.
    pub record Raised (w : World) (r : Attempt (Option Text) × World) : Type 0 where
      pub answer : r.0 ≡ returns (some imei)
      pub vehicle_id : Option Text
      pub went : Bool
      pub newer : List Event
      pub logged :
          r.1.log
          ≡ asked (Statement.create_event device_id (alarm_event vehicle_id sos position)) went
            ∷ (newer ++ w.log)

    bound-Raised :
        {A : Type 0} (w : World) (r : Attempt A) (v : World) (f : A → Action (Option Text))
        → Calmly Any w (r, v)
        → ((a : A) (u : World) → Raised u (f a u))
        → Raised w (follow f r v)
    bound-Raised w raises v f h k = absurd (clash h.runs)
      where
        clash : {C : Type 0} {c : C} → ◌≡◌ {A = Attempt C} raises (returns c) → ⊥
        clash q = cc
    bound-Raised w (returns a) v f h k =
        let later = k a v in
        record {
          answer = later.answer;
          vehicle_id = later.vehicle_id;
          went = later.went;
          newer = later.newer ++ h.grows.0;
          logged =
              later.logged
              ∙ ap
                  (λ l.
                    asked
                      (Statement.create_event device_id (alarm_event later.vehicle_id sos position))
                      later.went
                    ∷ l)
                  (ap (λ l. later.newer ++ l) h.grows.1
                    ∙ sym (append_assoc later.newer h.grows.0 w.log));
        }

    >>=-Raised :
        {A : Type 0} (m : Action A) (f : A → Action (Option Text))
        → Calm Any m
        → ((a : A) (u : World) → Raised u (f a u))
        → (w : World) → Raised w ((m >>= f) w)
    >>=-Raised m f h k w = bound-Raised w (m w).0 (m w).1 f (h w) k

    alarm-Raised :
        (vehicle_id : Option Text) (w : World)
        → Raised w (
            (do
              store_alarm env float_of in_kmh device_id vehicle_id position (some sos)
              pure (some imei))
              w)
    unfolding safely execute
    alarm-Raised vehicle_id w = record {
      answer = refl;
      vehicle_id = vehicle_id;
      went = _;
      newer = [];
      logged = refl;
    }

  store_report-Raised :
      (raw : Bytes) (conn : ℕ) (imei device_id : Text) (report : Tracker) (w : World)
      → report.alarm_name ≡ some sos
      → let acked = record w {
        log = wrote conn (build_help_me_ack imei) (env.drains w conn) ∷ w.log;
      } in
        Raised imei device_id
          (storable report.fix)
          acked
          (store_report env float_of in_kmh raw conn imei device_id report w)
  unfolding store_report send
  store_report-Raised raw conn imei device_id report w e =
      let position = storable report.fix in
      rw e (
        >>=-Raised imei device_id position _ _
          (Calm-save_raw_packet env device_id (family_name gps103) raw true true)
          (λ _.
            >>=-Raised imei device_id position _ _
              ((Calm-store_ignition env float_of in_kmh) device_id report.ignition)
              λ _.
                >>=-Raised imei device_id position _ _
                  ((Calm-vehicle_for env float_of in_kmh) device_id (some sos))
                  λ vehicle_id.
                    >>=-Raised imei device_id position _ _
                      ((Calm-store_position env float_of in_kmh) imei device_id position)
                      λ _. alarm-Raised imei device_id position vehicle_id)
          (record w { log = wrote conn (build_help_me_ack imei) (env.drains w conn) ∷ w.log }))

  -- A report on a socket that logged in as the device that it names, and is registered.
  pub record Reports (raw : Bytes) (conn : ℕ) (w : World) (imei : Text) (device : Entry)
      (report : Tracker) : Type 0 where
    pub text : Text
    pub report_kind : classify raw ≡ (tracker, text)
    pub parsed : parse_tracker float_of in_kmh text ≡ returns report
    pub named : report.imei ≡ imei
    pub logged_in : truthy (get_imei_by_socket conn w.registry) ≡ some imei
    pub registered : get_device imei w.registry ≡ some device

  authenticated_self :
      (conn : ℕ) (w : World) (imei : Text)
      → truthy (get_imei_by_socket conn w.registry) ≡ some imei
      → authenticated_imei env float_of in_kmh conn imei w ≡ (returns (some imei), w)
  unfolding authenticated_imei
  authenticated_self conn w imei e = rw (e, bytes_eq_refl imei) refl

  abbrev answered : ℕ → Attempt (Option Text) × World → Option Text × World
  answered conn (r, w) = (or_socket_imei env float_of in_kmh conn r w, w)

  process_report :
      (raw : Bytes) (conn : ℕ) (ip : Text) (w : World) (imei : Text) (device : Entry)
      (report : Tracker)
      → Reports raw conn w imei device report
      → process_gps103_message env float_of in_kmh raw conn ip w
        ≡ answered conn (store_report env float_of in_kmh raw conn imei device.device_id report w)
  unfolding process_gps103_message handle_tracker
  process_report raw conn ip w imei device report r =
      rw
        (
          r.report_kind,
          r.parsed,
          ap (λ i. authenticated_imei env float_of in_kmh conn i w) r.named
              ∙ authenticated_self conn w imei r.logged_in,
          r.registered,
        )
        refl

  -- A report of a device that is logged in is answered with its IMEI, whatever the database does, and
  -- binds no socket anew.
  pub process_gps103_message-Reports :
      (raw : Bytes) (conn : ℕ) (ip : Text) (w : World) (imei : Text) (device : Entry)
      (report : Tracker)
      → Reports raw conn w imei device report
      → let (answer, w') = process_gps103_message env float_of in_kmh raw conn ip w in
        (answer ≡ some imei) × (w'.registry.by_socket ≡ w.registry.by_socket)
  process_gps103_message-Reports raw conn ip w imei device report r =
      let c = (Calm-store_report env float_of in_kmh) raw conn imei device.device_id report w in
      rw (process_report raw conn ip w imei device report r) (
        ap
              (λ x.
                or_socket_imei env float_of in_kmh conn x
                  ((store_report env float_of in_kmh raw conn imei device.device_id report w).1))
              c.runs
            ∙ c.holds,
        c.bindings,
      )

  -- An SOS of a device that is logged in is acknowledged to the device before anything else happens,
  -- and the last thing is that its alarm event is offered to the database: no failure of the database
  -- on the way keeps the one or the other from happening.
  pub process_gps103_message-sos :
      (raw : Bytes) (conn : ℕ) (ip : Text) (w : World) (imei : Text) (device : Entry)
      (report : Tracker)
      → Reports raw conn w imei device report
      → report.alarm_name ≡ some sos
      → let (answer, w') = process_gps103_message env float_of in_kmh raw conn ip w in
        (answer ≡ some imei)
        × (sent went : Bool) × (vehicle_id : Option Text) × (between : List Event) × (w'.log
            ≡ asked
                (Statement.create_event device.device_id
                  (alarm_event vehicle_id sos (storable report.fix)))
                went
              ∷ (between ++ wrote conn (build_help_me_ack imei) sent ∷ w.log))
  process_gps103_message-sos raw conn ip w imei device report r e =
      let s = store_report-Raised raw conn imei device.device_id report w e in
      rw (process_report raw conn ip w imei device report r) (
        ap
            (λ x.
              or_socket_imei env float_of in_kmh conn x
                ((store_report env float_of in_kmh raw conn imei device.device_id report w).1))
            s.answer,
        env.drains w conn,
        s.went,
        s.vehicle_id,
        s.newer,
        s.logged,
      )
