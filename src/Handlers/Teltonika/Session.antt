-- ===== src/Handlers/Teltonika/Session.antt =====
-- One frame of a Teltonika connection through `process_teltonika_frame` of
-- services/teltonika_handler.py, on each of its paths.
use shalotrack_gateway.Shared.{
  ℕ, ◌≡◌, ◌≢◌, refl, ap, ◌∙◌, ◌⊎◌, inl, inr, Bool, true, false, Option, some, List, ◌∷◌, Bool-cases,
}
use shalotrack_gateway.Shared.Bytes.{Bytes}
use shalotrack_gateway.Shared.Text.{Text}
use shalotrack_gateway.Shared.Attempt.{Attempt}
use shalotrack_gateway.Registry.{Entry, teltonika, get_device, get_imei_by_socket}
use shalotrack_gateway.World.{World, Environment, Statement, Event, asked, wrote, truthy}
use shalotrack_gateway.World.Action.{safely, send, save_raw_packet, should_store_raw}
use shalotrack_gateway.Parsers.Teltonika.Reader.{
  ok, err, Error, crc_error, unicode_error, parse_error, unsupported_codec,
}
use shalotrack_gateway.Parsers.Teltonika.{AvlPacket, parse_avl_packet, ack}
use shalotrack_gateway.Framing.Teltonika.{is_login_frame}
use shalotrack_gateway.Handlers.Common.{family_name}
use shalotrack_gateway.Handlers.Teltonika.{
  acknowledge, answer_avl, or_socket_imei, process_teltonika_frame, store_records, refresh_status,
}
use shalotrack_gateway.Handlers.Teltonika.Delivery.{Delivers, store_records-Delivers}

-- A data frame on a socket that logged in as a device that is registered.
pub record Authenticated (raw : Bytes) (conn : ℕ) (w : World) (imei : Text) (device : Entry)
    : Type 0 where
  pub data_frame : is_login_frame raw ≡ false
  pub logged_in : truthy (get_imei_by_socket conn w.registry) ≡ some imei
  pub found : get_device imei w.registry ≡ some device

abbrev answered : Environment → ℕ → ℕ → Attempt (Option Text) × World → Option Text × World
answered env max_future conn (r, w) = (or_socket_imei env max_future conn r w, w)

process_avl :
    (env : Environment) (max_future : ℕ) (raw : Bytes) (conn : ℕ) (ip : Text) (w : World)
    (imei : Text) (device : Entry)
    → Authenticated raw conn w imei device
    → process_teltonika_frame env max_future raw conn ip w
      ≡ answered env max_future conn
          (answer_avl env max_future conn imei device.device_id raw (parse_avl_packet raw) w)
unfolding process_teltonika_frame
process_avl env max_future raw conn ip w imei device a =
    rw (a.data_frame, a.logged_in, a.found) refl

-- On a connection that logged in, a data packet that decodes is answered, as the last thing that
-- happens, with a number of records that were dealt with: they are the first of the packet, each is
-- in the log as stored or was skipped on purpose, and if some are left, the newest event before the
-- answer is the refused insert of the next one.
pub process_teltonika_frame_acknowledges :
    (env : Environment) (max_future : ℕ) (raw : Bytes) (conn : ℕ) (ip : Text) (w : World)
    (imei : Text) (device : Entry) (packet : AvlPacket)
    → Authenticated raw conn w imei device
    → parse_avl_packet raw ≡ ok packet
    → let (answer, w') = process_teltonika_frame env max_future raw conn ip w in
      (answer ≡ some imei)
      × (n : ℕ) × (sent : Bool) × (old before : List Event) × (w'.log
          ≡ wrote conn (ack n) sent ∷ before)
      × Delivers env max_future device.device_id packet.records old n before
unfolding acknowledge send
process_teltonika_frame_acknowledges env max_future raw conn ip w imei device packet a e =
    let v1 =
      (safely (save_raw_packet env device.device_id (family_name teltonika) raw false true) w).1 in
    let v2 = (refresh_status env max_future device.device_id packet.records v1).1 in
    let v3 = store_records env max_future device.device_id packet.records v2 in
    let p =
      process_avl env max_future raw conn ip w imei device a
      ∙ ap
          (λ r.
            answered env max_future conn
              (answer_avl env max_future conn imei device.device_id raw r w))
          e in
    rw p (
      refl,
      v3.0,
      env.drains v3.1 conn,
      v2.log,
      v3.1.log,
      refl,
      store_records-Delivers env max_future device.device_id packet.records v2,
    )

-- On a connection that logged in, a data packet that does not decode is never acknowledged: the
-- registry is unchanged, and either nothing else happens, or the error is no checksum mismatch and
-- the one event is that the raw bytes were offered to the database. An error of text decoding, which
-- only a login can raise, is left out.
pub process_teltonika_frame_undecodable :
    (env : Environment) (max_future : ℕ) (raw : Bytes) (conn : ℕ) (ip : Text) (w : World)
    (imei : Text) (device : Entry) (e : Error)
    → Authenticated raw conn w imei device
    → parse_avl_packet raw ≡ err e
    → e ≢ unicode_error
    → let (answer, w') = process_teltonika_frame env max_future raw conn ip w in
      (answer ≡ some imei)
      × (w'.registry ≡ w.registry)
      × ((w'.log ≡ w.log)
          ⊎ ((e ≢ crc_error)
              × (went : Bool) × (w'.log
                  ≡ asked
                      (Statement.save_raw device.device_id (family_name teltonika) raw false)
                      went
                    ∷ w.log)))
unfolding safely save_raw_packet
process_teltonika_frame_undecodable env max_future raw conn ip w imei device e a q ne =
    let p =
      process_avl env max_future raw conn ip w imei device a
      ∙ ap
          (λ r.
            answered env max_future conn
              (answer_avl env max_future conn imei device.device_id raw r w))
          q in
    rw p (go e ne)
  where
    kept :
        (e : Error)
        → (e ≢ crc_error)
        → let w' =
            (safely
              (save_raw_packet env device.device_id (family_name teltonika) raw true false)
              w).1 in
          (w'.registry ≡ w.registry)
          × ((w'.log ≡ w.log)
              ⊎ ((e ≢ crc_error)
                  × (went : Bool) × (w'.log
                      ≡ asked
                          (Statement.save_raw device.device_id (family_name teltonika) raw false)
                          went
                        ∷ w.log)))
    kept e ne = elim (Bool-cases (should_store_raw env true w)) [
      | inl t ↦ rw t (refl, inr (ne, env.accepts w _, refl))
      | inr f ↦ rw f (refl, inl refl)
    ]

    go :
        (e : Error)
        → (e ≢ unicode_error)
        → let (answer, w') =
            answered env max_future conn
              (answer_avl env max_future conn imei device.device_id raw (err e) w) in
          (answer ≡ some imei)
          × (w'.registry ≡ w.registry)
          × ((w'.log ≡ w.log)
              ⊎ ((e ≢ crc_error)
                  × (went : Bool) × (w'.log
                      ≡ asked
                          (Statement.save_raw device.device_id (family_name teltonika) raw false)
                          went
                        ∷ w.log)))
    go crc_error n = (refl, refl, inl refl)
    go unicode_error n = absurd (n refl)
    go parse_error n = let k = kept parse_error (λ h. cc) in (refl, k.0, k.1)
    go (unsupported_codec c) n = let k = kept (unsupported_codec c) (λ h. cc) in (refl, k.0, k.1)
