-- ===== src/Handlers/Gps103/Writes.antt =====
-- services/gps103_handler.py: the writes of a report.
use shalotrack_gateway.Shared.{
  ℕ, ◌≡◌, refl, Bool, true, not, ◌||◌, Option, none, some, [], ◌∷◌, Option-cases, inl, inr,
}
use shalotrack_gateway.Shared.Bytes.{Bytes}
use shalotrack_gateway.Shared.Text.{Text}
use shalotrack_gateway.Shared.Int.{pos_part}
use shalotrack_gateway.Shared.Dict.{get, text_key}
use shalotrack_gateway.Registry.{gps103, note_position}
use shalotrack_gateway.World.{Environment, Statement, Decimal}
use shalotrack_gateway.World.Action.{gets, update_registry}
use shalotrack_gateway.Numeric.{Reading}
use shalotrack_gateway.Parsers.Gps103.{Tracker, Fix, build_help_me_ack}
use shalotrack_gateway.Handlers.Common.{family_name}
use shalotrack_gateway.Handlers.Gps103.{
  store_report, store_ignition, vehicle_for, store_position, store_alarm, acknowledge_sos, is_alarm,
  storable, is_sos, alarm_event, position_of,
}
use shalotrack_gateway.Handlers.Gps103.Calm.{
  Calm, Any, Calm-pure, Calm->>=, Calm-if, Calm-send, Calm-execute, Calm-save_raw_packet,
  Calm-vehicle,
}

module _ (env : Environment) (float_of : Text → Option Reading) (in_kmh : Bool) where
  pub Calm-store_ignition :
      (device_id : Text) (on : Option Bool)
      → Calm Any (store_ignition env float_of in_kmh device_id on)
  Calm-store_ignition device_id none = Calm-pure Any tt tt
  Calm-store_ignition device_id (some on) = Calm-execute env (Statement.set_ignition device_id on)

  pub Calm-vehicle_for :
      (device_id : Text) (alarm : Option Text)
      → Calm Any (vehicle_for env float_of in_kmh device_id alarm)
  Calm-vehicle_for device_id alarm =
      Calm-if Any (is_alarm alarm) _ _ (Calm-vehicle env device_id) (Calm-pure Any none tt)

  Calm-note_position :
      (imei : Text) (speed : Option ℕ) (now : ℕ)
      → Calm Any (update_registry (note_position imei speed now))
  unfolding note_position
  Calm-note_position imei speed now w = elim (Option-cases (get imei w.registry.by_imei)) [
    | inl e ↦
        rw e (record { value = tt; holds = tt; runs = refl; bindings = refl; grows = ([], refl) })
    | inr (d, e) ↦
        rw e (record { value = tt; holds = tt; runs = refl; bindings = refl; grows = ([], refl) })
  ]

  Calm-now : Calm Any (gets env.now)
  Calm-now w = record {
    value = env.now w;
    holds = tt;
    runs = refl;
    bindings = refl;
    grows = ([], refl);
  }

  pub Calm-store_position :
      (imei device_id : Text) (position : Option (Fix × (Decimal × Decimal)))
      → Calm Any (store_position env float_of in_kmh imei device_id position)
  Calm-store_position imei device_id none = Calm-pure Any tt tt
  Calm-store_position imei device_id (some (fix, (speed, heading))) =
      Calm->>= Any Any _ _ Calm-now λ now _.
        Calm->>= Any Any _ _
          (Calm-execute env
            (Statement.save_location device_id (position_of fix (speed, heading) now)))
          λ _ _.
            Calm->>= Any Any _ _ Calm-now
              λ seen _. Calm-note_position imei (some (pos_part speed.num)) seen

  Calm-store_alarm :
      (device_id : Text) (vehicle_id : Option Text) (position : Option (Fix × (Decimal × Decimal)))
      (alarm : Option Text)
      → Calm Any (store_alarm env float_of in_kmh device_id vehicle_id position alarm)
  Calm-store_alarm device_id vehicle_id position none = Calm-pure Any tt tt
  Calm-store_alarm device_id vehicle_id position (some []) = Calm-pure Any tt tt
  Calm-store_alarm device_id vehicle_id position (some (c ∷ cs)) =
      Calm-execute env (Statement.create_event device_id (alarm_event vehicle_id (c ∷ cs) position))

  Calm-acknowledge_sos :
      (conn : ℕ) (imei : Text) (alarm : Option Text)
      → Calm Any (acknowledge_sos env float_of in_kmh conn imei alarm)
  Calm-acknowledge_sos conn imei alarm =
      Calm-if Any (is_sos alarm) _ _ (Calm-send env conn (build_help_me_ack imei))
        (Calm-pure Any tt tt)

  -- A report of a device that is logged in: everything that is stored and sent, on the way to the
  -- device's IMEI.
  pub Calm-store_report :
      (raw : Bytes) (conn : ℕ) (imei device_id : Text) (report : Tracker)
      → Calm
          (λ answer. answer ≡ some imei)
          (store_report env float_of in_kmh raw conn imei device_id report)
  unfolding store_report
  Calm-store_report raw conn imei device_id report =
      let P = λ (answer : Option Text). answer ≡ some imei in
      let position = storable report.fix in
      Calm->>= Any P _ _ (Calm-acknowledge_sos conn imei report.alarm_name) λ _ _.
        Calm->>= Any P _ _
          (Calm-save_raw_packet env device_id (family_name gps103) raw
            (is_alarm report.alarm_name || not report.known_keyword) true)
          λ _ _. Calm->>= Any P _ _ (Calm-store_ignition device_id report.ignition) λ _ _.
            Calm->>= Any P _ _ (Calm-vehicle_for device_id report.alarm_name) λ vehicle_id _.
              Calm->>= Any P _ _ (Calm-store_position imei device_id position) λ _ _.
                Calm->>= Any P _ _
                  (Calm-store_alarm device_id vehicle_id position report.alarm_name)
                  λ _ _. Calm-pure P (some imei) refl
