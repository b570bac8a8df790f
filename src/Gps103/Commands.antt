-- ===== src/Gps103/Commands.antt =====
-- utils/gps103_command_builder.py and services/gps103_command_service.py: text commands to GPS103
-- devices.
use shalotrack_gateway.Shared.{
  ℕ, ◌≡◌, ◌≢◌, refl, ap, subst, ◌⊎◌, inl, inr, Bool, true, false, ◌&&◌, Option, none, some, ◌∷◌,
  ◌++◌, length, leb, if◌then◌else◌, Bool-cases,
}
use shalotrack_gateway.Shared.Bytes.{Bytes, bytes_eq, bytes_eq→eq}
use shalotrack_gateway.Shared.Text.{Text, codes, all_of, is_digit}
use shalotrack_gateway.Shared.Attempt.{Attempt, returns, raises}
use shalotrack_gateway.Registry.{Entry, Family, gt06, gps103, teltonika, get_device, get_socket}
use shalotrack_gateway.World.{World, Environment, wrote}
use shalotrack_gateway.Commands.{Outcome, sent, offline, unsupported, fault, gives_up}

-- _IMEI_RE.fullmatch(imei)
abbrev pub is_imei : Text → Bool
is_imei imei = all_of is_digit imei && (leb 10 (length imei) && leb (length imei) 17)

abbrev pub order : Text → Text → Bytes
order imei code = codes "**,imei:" ++ (imei ++ (codes "," ++ (code ++ codes ";")))

abbrev pub frame : Text → Text → Attempt Bytes
frame imei code = if is_imei imei then returns (order imei code) else raises

abbrev pub build_single_position : Text → Attempt Bytes
build_single_position imei = frame imei (codes "B")

abbrev pub build_engine_resume : Text → Attempt Bytes
build_engine_resume imei = frame imei (codes "K")

-- SUPPORTED.get(command), which is none for relay_off, the engine cut
abbrev pub supported : Text → Option (Text → Attempt Bytes)
supported command =
    if bytes_eq command (codes "where")
    then some build_single_position
    else if bytes_eq command (codes "position")
    then some build_single_position
    else if bytes_eq command (codes "url")
    then some build_single_position
    else if bytes_eq command (codes "relay_on")
    then some build_engine_resume
    else none

module _ (env : Environment) where
  abbrev pub write_order : ℕ → Attempt Bytes → World → Outcome × World
  write_order conn raises w = (fault, w)
  write_order conn (returns payload) w =
      let drained = env.drains w conn in
      (if drained then sent else fault, record w { log = wrote conn payload drained ∷ w.log })

  abbrev pub run_builder : ℕ → Text → Option (Text → Attempt Bytes) → World → Outcome × World
  run_builder conn imei none = gives_up unsupported
  run_builder conn imei (some builder) = write_order conn (builder imei)

  abbrev pub order_for : Text → Text → ℕ → Family → World → Outcome × World
  order_for imei command conn gt06 = gives_up unsupported
  order_for imei command conn teltonika = gives_up unsupported
  order_for imei command conn gps103 = run_builder conn imei (supported command)

  abbrev pub order_entry : Text → Text → ℕ → Option Entry → World → Outcome × World
  order_entry imei command conn none = gives_up unsupported
  order_entry imei command conn (some entry) = order_for imei command conn entry.protocol

  abbrev pub order_socket : Text → Text → Option ℕ → Option Entry → World → Outcome × World
  order_socket imei command none entry = gives_up offline
  order_socket imei command (some conn) entry = order_entry imei command conn entry

  unfoldable pub send_gps103_command : Text → Text → World → Outcome × World
  send_gps103_command imei command w =
      order_socket imei command (get_socket imei w.registry) (get_device imei w.registry) w

-- The order of a command: K gives the engine back, for relay_on, and B asks for a position.
abbrev IsCode : Text → Text → Type 0
IsCode command code =
    ((command ≢ codes "relay_on") × (code ≡ codes "B"))
    ⊎ ((command ≡ codes "relay_on") × (code ≡ codes "K"))

module _ (env : Environment) (imei command : Text) (w : World) where
  -- What a command comes to: refused with nothing done, or written to a GPS103 device's socket, and
  -- then it asks for a position or gives the engine back.
  pub data Ordered : Outcome × World → Type 0 where
    not_connected : Ordered (offline, w)
    not_supported : Ordered (unsupported, w)
    not_an_imei : Ordered (fault, w)
    written :
        (conn : ℕ) (device : Entry) (payload : Bytes)
        → get_socket imei w.registry ≡ some conn
        → get_device imei w.registry ≡ some device
        → device.protocol ≡ gps103
        → is_imei imei ≡ true
        → ((command ≢ codes "relay_on") × (payload ≡ order imei (codes "B")))
          ⊎ ((command ≡ codes "relay_on") × (payload ≡ order imei (codes "K")))
        → (drained : Bool)
        → Ordered
            (if drained then sent else fault, record w { log = wrote conn payload drained ∷ w.log })

  -- A builder that makes the order of the command.
  abbrev Harmless : Option (Text → Attempt Bytes) → Type 0
  Harmless o =
      (o ≡ none)
      ⊎ (((command ≢ codes "relay_on") × (o ≡ some build_single_position))
          ⊎ ((command ≡ codes "relay_on") × (o ≡ some build_engine_resume)))

  no_resume :
      (name : Text)
      → bytes_eq command name ≡ true
      → bytes_eq (codes "relay_on") name ≡ false
      → command ≢ codes "relay_on"
  no_resume name t f e = let t' = subst (λ (c : Text). bytes_eq c name ≡ true) e t in cc (t', f)

  supported-Harmless : Harmless (supported command)
  supported-Harmless = elim (Bool-cases (bytes_eq command (codes "where"))) [
    | inl t ↦ rw t (inr (inl (no_resume _ t refl, refl)))
    | inr f ↦ rw f (elim (Bool-cases (bytes_eq command (codes "position"))) [
      | inl t ↦ rw t (inr (inl (no_resume _ t refl, refl)))
      | inr g ↦ rw g (elim (Bool-cases (bytes_eq command (codes "url"))) [
        | inl t ↦ rw t (inr (inl (no_resume _ t refl, refl)))
        | inr k ↦ rw k (elim (Bool-cases (bytes_eq command (codes "relay_on"))) [
          | inl t ↦ rw t (inr (inr (bytes_eq→eq command _ t, refl)))
          | inr l ↦ rw l (inl refl)
        ])
      ])
    ])
  ]

  write_frame-Ordered :
      (conn : ℕ) (device : Entry) (code : Text)
      → get_socket imei w.registry ≡ some conn
      → get_device imei w.registry ≡ some device
      → device.protocol ≡ gps103
      → IsCode command code
      → Ordered (write_order env conn (frame imei code) w)
  write_frame-Ordered conn device code s d p c = elim (Bool-cases (is_imei imei)) [
    | inl t ↦ rw t (
        written conn device (order imei code) s d p t
          (elim c [
            | inl (other, e) ↦ inl (other, ap (order imei) e)
            | inr (resume, e) ↦ inr (resume, ap (order imei) e)
          ])
          (env.drains w conn))
    | inr f ↦ rw f not_an_imei
  ]

  run_builder-Ordered :
      (conn : ℕ) (device : Entry)
      → get_socket imei w.registry ≡ some conn
      → get_device imei w.registry ≡ some device
      → device.protocol ≡ gps103
      → Ordered (run_builder env conn imei (supported command) w)
  run_builder-Ordered conn device s d p = elim supported-Harmless [
    | inl e ↦ rw e not_supported
    | inr (inl (o, e)) ↦ rw e (write_frame-Ordered conn device (codes "B") s d p (inl (o, refl)))
    | inr (inr (o, e)) ↦ rw e (write_frame-Ordered conn device (codes "K") s d p (inr (o, refl)))
  ]

  order_for-Ordered :
      (conn : ℕ) (device : Entry) (protocol : Family)
      → get_socket imei w.registry ≡ some conn
      → get_device imei w.registry ≡ some device
      → device.protocol ≡ protocol
      → Ordered (order_for env imei command conn protocol w)
  order_for-Ordered conn device gt06 s d p = not_supported
  order_for-Ordered conn device teltonika s d p = not_supported
  order_for-Ordered conn device gps103 s d p = run_builder-Ordered conn device s d p

  order_socket-Ordered :
      (s : Option ℕ) (d : Option Entry)
      → get_socket imei w.registry ≡ s
      → get_device imei w.registry ≡ d
      → Ordered (order_socket env imei command s d w)
  order_socket-Ordered none d e q = not_connected
  order_socket-Ordered (some conn) none e q = not_supported
  order_socket-Ordered (some conn) (some device) e q =
      order_for-Ordered conn device device.protocol e q refl

  -- Whatever is asked for, a command is refused and nothing is done, or the one thing that happens is
  -- that an order is written to the socket of a device that is registered as a GPS103 device, and
  -- that order gives the engine back, for the command relay_on, or asks for a position, for another:
  -- none cuts it.
  pub send_gps103_command-Ordered : Ordered (send_gps103_command env imei command w)
  unfolding send_gps103_command
  send_gps103_command-Ordered = order_socket-Ordered _ _ refl refl
