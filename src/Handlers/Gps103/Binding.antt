-- ===== src/Handlers/Gps103/Binding.antt =====
-- `process_gps103_message` of services/gps103_handler.py and the device that a socket is bound to.
use shalotrack_gateway.Shared.{
  ℕ, ◌≡◌, ◌≢◌, refl, sym, subst, ◌⊎◌, inl, inr, Bool, false, Option, none, some, ◌∷◌, Bool-cases,
}
use shalotrack_gateway.Shared.Bytes.{Bytes, bytes_eq}
use shalotrack_gateway.Shared.Text.{Text}
use shalotrack_gateway.Shared.Dict.{bytes_eq_iff}
use shalotrack_gateway.Shared.Attempt.{returns}
use shalotrack_gateway.Registry.{get_imei_by_socket}
use shalotrack_gateway.World.{World, Environment, closed, truthy}
use shalotrack_gateway.Numeric.{Reading}
use shalotrack_gateway.Parsers.Gps103.{
  heartbeat, tracker, classify, parse_heartbeat, parse_tracker, Tracker,
}
use shalotrack_gateway.Handlers.Gps103.{
  process_gps103_message, authenticated_imei, handle_heartbeat, handle_tracker,
}

module _ (env : Environment) (float_of : Text → Option Reading) (in_kmh : Bool) where
  -- A heartbeat or a report, and the device that it names.
  pub data Names (raw : Bytes) (imei : Text) : Type 0 where
    by_heartbeat :
        (text : Text)
        → classify raw ≡ (heartbeat, text)
        → parse_heartbeat text ≡ returns imei
        → Names raw imei
    by_report :
        (text : Text) (report : Tracker)
        → classify raw ≡ (tracker, text)
        → parse_tracker float_of in_kmh text ≡ returns report
        → report.imei ≡ imei
        → Names raw imei

  -- The socket has not logged in, or as another device.
  abbrev pub Stranger : ℕ → World → Text → Type 0
  Stranger conn w imei =
      (truthy (get_imei_by_socket conn w.registry) ≡ none)
      ⊎ ((other : Text) × (truthy (get_imei_by_socket conn w.registry) ≡ some other)
          × (imei ≢ other))

  different : (a b : Text) → a ≢ b → bytes_eq a b ≡ false
  different a b ne = elim (Bool-cases (bytes_eq a b)) [
    | inl t ↦ absurd (ne ((bytes_eq_iff a b).0 t))
    | inr f ↦ f
  ]

  authenticated-Stranger :
      (conn : ℕ) (w : World) (imei : Text)
      → Stranger conn w imei
      → authenticated_imei env float_of in_kmh conn imei w
        ≡ (returns none, record w { log = closed conn ∷ w.log })
  unfolding authenticated_imei
  authenticated-Stranger conn w imei (inl e) = rw e refl
  authenticated-Stranger conn w imei (inr (other, e, ne)) = rw (e, different imei other ne) refl

  -- A heartbeat or a report on a socket that has not logged in, or that names another device than the
  -- one that the socket logged in as, closes the connection, and nothing else happens.
  pub process_gps103_message-Stranger :
      (raw : Bytes) (conn : ℕ) (ip : Text) (w : World) (imei : Text)
      → Names raw imei
      → Stranger conn w imei
      → process_gps103_message env float_of in_kmh raw conn ip w
        ≡ (none, record w { log = closed conn ∷ w.log })
  unfolding process_gps103_message handle_heartbeat handle_tracker
  process_gps103_message-Stranger raw conn ip w imei (by_heartbeat text k p) s =
      rw (k, p, authenticated-Stranger conn w imei s) refl
  process_gps103_message-Stranger raw conn ip w imei (by_report text report k p e) s =
      rw (k, p, authenticated-Stranger conn w report.imei (subst (Stranger conn w) (sym e) s)) refl
