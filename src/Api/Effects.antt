-- ===== src/Api/Effects.antt =====
-- command_api.py: what a posted command does.
use shalotrack_gateway.Shared.{
  ℕ, ◌≡◌, ◌≢◌, refl, sym, subst, ◌⊎◌, inl, inr, Bool, true, some, [], ◌∷◌, Bool-cases,
  if◌then◌else◌,
}
use shalotrack_gateway.Shared.Bytes.{Bytes, bytes_eq, bytes_eq→eq, starts_with}
use shalotrack_gateway.Shared.Text.{Text, codes}
use shalotrack_gateway.Shared.Dict.{Dict, get, text_key}
use shalotrack_gateway.Shared.Attempt.{Attempt, returns, raises}
use shalotrack_gateway.Registry.{Entry, Family, gt06, gps103, get_device, get_socket}
use shalotrack_gateway.World.{World, Environment, wrote}
use shalotrack_gateway.Commands.{Outcome, sent, offline, unsupported, fault}
use shalotrack_gateway.Commands.Delivery.{
  Sent, not_connected, not_gt06, written, send_command-Sent, socket_of-get_device,
}
use shalotrack_gateway.Commands.Service.{Sender, deliver, send_built}
use shalotrack_gateway.Gps103.Commands.{Ordered, order}
use shalotrack_gateway.Commands.Builder.{build_command}
use shalotrack_gateway.Commands.Frames.{IsCommand, built-IsCommand}
use shalotrack_gateway.Api.{simple_commands}
use shalotrack_gateway.Api.Params.{Parsed, given, missing, wrong, ◌>>=◌}

-- The texts of the commands that take no parameters.
abbrev pub whole_texts : Dict Text Text
whole_texts =
    (codes "where", codes "WHERE#")
    ∷ (codes "status", codes "STATUS#")
    ∷ (codes "version", codes "VERSION#")
    ∷ (codes "imei", codes "IMEI#")
    ∷ (codes "params", codes "PARAM#")
    ∷ (codes "gprsset", codes "GPRSSET#")
    ∷ (codes "url", codes "URL#")
    ∷ (codes "position", codes "POSITION#")
    ∷ (codes "fence_query", codes "FENCE#")
    ∷ (codes "moving_query", codes "MOVING#")
    ∷ (codes "speed_query", codes "SPEED#")
    ∷ (codes "sos_query", codes "SOS#")
    ∷ (codes "timer_query", codes "TIMER#")
    ∷ (codes "apn_query", codes "APN#")
    ∷ (codes "server_query", codes "SERVER#")
    ∷ (codes "reset", codes "RESET#")
    ∷ (codes "relay_on", codes "RELAY,0#")
    ∷ (codes "relay_off", codes "RELAY,1#")
    ∷ (codes "sos_delete", codes "SOS,D#")
    ∷ []

-- The words with which the texts of the others open.
abbrev pub openings : Dict Text Text
openings =
    (codes "timer", codes "TIMER,")
    ∷ (codes "distance", codes "DISTANCE,")
    ∷ (codes "speed_alarm", codes "SPEED,")
    ∷ (codes "moving_alarm", codes "MOVING,")
    ∷ (codes "fence_circle", codes "FENCE,")
    ∷ (codes "sos_add", codes "SOS,A,")
    ∷ (codes "apn", codes "APN,")
    ∷ (codes "server", codes "SERVER,")
    ∷ (codes "batalm", codes "BATALM,")
    ∷ (codes "poweralm", codes "POWERALM,")
    ∷ []

-- A text that says a command.
abbrev pub IsWorded : Text → Text → Type 0
IsWorded command text =
    (get command whole_texts ≡ some text)
    ⊎ ((words : Text) × (get command openings ≡ some words) × (starts_with words text ≡ true))

-- The bytes that a device of a family may be sent for a command: a GT06 device the packet with a text
-- that says the command, and a GPS103 device the order that gives the
-- engine back for relay_on, and the order for its position for another command.
pub data Suits (imei command : Text) (serial : ℕ) : Family → Bytes → Type 0 where
  frame :
      (text payload : Bytes)
      → IsWorded command text
      → IsCommand text serial payload
      → Suits imei command serial gt06 payload
  position_order :
      command ≢ codes "relay_on" → Suits imei command serial gps103 (order imei (codes "B"))
  resume_order :
      command ≡ codes "relay_on" → Suits imei command serial gps103 (order imei (codes "K"))

-- A command is not sent and nothing happens, or there is one write, to the socket of the device.
pub data Effect (imei command : Text) (serial : ℕ) (w : World) : Outcome → World → Type 0 where
  nothing : (o : Outcome) → o ≢ sent → Effect imei command serial w o w
  one_write :
      (conn : ℕ) (device : Entry) (payload : Bytes)
      → get_socket imei w.registry ≡ some conn
      → get_device imei w.registry ≡ some device
      → Suits imei command serial device.protocol payload
      → (drained : Bool)
      → Effect imei command serial w
          (if drained then sent else fault)
          (record w { log = wrote conn payload drained ∷ w.log })

abbrev pub Effects : Text → Text → Sender → Type 0
Effects imei command sender =
    (w : World) (serial : ℕ)
    → let (outcome, (w', serial')) = sender (w, serial) in Effect imei command serial w outcome w'

abbrev pub Yields : (Sender → Type 0) → Parsed Sender → Type 0
Yields P (given sender) = P sender
Yields P missing = Unit
Yields P wrong = Unit

pub Yields->>= :
    {A : Type 0} (P : Sender → Type 0) (m : Parsed A) (f : A → Parsed Sender)
    → ((a : A) → Yields P (f a))
    → Yields P (m >>= f)
Yields->>= P (given a) f h = h a
Yields->>= P missing f h = tt
Yields->>= P wrong f h = tt

module _ (env : Environment) where
  Sent-Effect :
      (imei command : Text) (serial : ℕ) (w : World) (payload : Bytes) (o : Outcome) (w' : World)
      → Suits imei command serial gt06 payload
      → Sent env imei payload w (o, w')
      → Effect imei command serial w o w'
  Sent-Effect imei command serial w payload _ _ h not_connected = nothing offline (λ e. cc)
  Sent-Effect imei command serial w payload _ _ h not_gt06 = nothing unsupported (λ e. cc)
  Sent-Effect imei command serial w payload _ _ h (written device e p drained) =
      one_write device.socket device payload (socket_of-get_device imei w.registry (some device) e)
        e (subst (λ f. Suits imei command serial f payload) (sym p) h) drained

  module _ (command text : Text) (worded : IsWorded command text) (imei : Text) where
    built-Effect :
        (serial : ℕ) (w : World) (b : Attempt Bytes)
        → (build_command text serial).0 ≡ b
        → Effect imei command serial w (send_built env imei b w).0 (send_built env imei b w).1
    built-Effect serial w raises e = nothing fault (λ e. cc)
    built-Effect serial w (returns payload) e =
        Sent-Effect imei command serial w payload _ _
          (frame text payload worded (built-IsCommand text serial payload e))
          (send_command-Sent env imei payload w)

    -- A command whose text says it is sent, or is not, to the device alone.
    pub deliver-Effects : Effects imei command (deliver env (build_command text) imei)
    deliver-Effects w serial = built-Effect serial w (build_command text serial).0 refl

  order-Suits :
      (imei command : Text) (serial : ℕ) (payload : Bytes)
      → ((command ≢ codes "relay_on") × (payload ≡ order imei (codes "B")))
        ⊎ ((command ≡ codes "relay_on") × (payload ≡ order imei (codes "K")))
      → Suits imei command serial gps103 payload
  order-Suits imei command serial payload (inl (o, e)) =
      subst (Suits imei command serial gps103) (sym e) (position_order o)
  order-Suits imei command serial payload (inr (o, e)) =
      subst (Suits imei command serial gps103) (sym e) (resume_order o)

  pub Ordered-Effect :
      (imei command : Text) (serial : ℕ) (w : World) (o : Outcome) (w' : World)
      → Ordered env imei command w (o, w')
      → Effect imei command serial w o w'
  Ordered-Effect imei command serial w _ _ Ordered.not_connected = nothing offline (λ e. cc)
  Ordered-Effect imei command serial w _ _ Ordered.not_supported = nothing unsupported (λ e. cc)
  Ordered-Effect imei command serial w _ _ Ordered.not_an_imei = nothing fault (λ e. cc)
  Ordered-Effect imei command serial w _ _ (Ordered.written conn device payload s d p v c drained) =
      one_write conn device payload s d
        (subst (λ f. Suits imei command serial f payload) (sym p)
          (order-Suits imei command serial payload c))
        drained

-- Every value of a dictionary has a property, with its key.
infixr 4 ◌▸◌
pub data Each {A : Type 0} (P : Text → A → Type 0) : Dict Text A → Type 0 where
  finish : Each P []
  ◌▸◌ : {k : Text} {v : A} {d : Dict Text A} → P k v → Each P d → Each P ((k, v) ∷ d)

pub Each-get :
    {A : Type 0} (P : Text → A → Type 0) (d : Dict Text A) (k : Text) (v : A)
    → Each P d
    → get k d ≡ some v
    → P k v
unfolding get
Each-get P _ k v finish e = absurd cc
Each-get P _ k v (◌▸◌ {k = j} {v = u} {d = d} p h) e = elim (Bool-cases (bytes_eq j k)) [
  | inl t ↦ subst (λ (x : Text). P x v) (bytes_eq→eq j k t) (subst (P j) (cc (rw t at e)) p)
  | inr f ↦ Each-get P d k v h (rw f at e)
]

module _ (env : Environment) where
  exactly :
      (command text : Text)
      → get command whole_texts ≡ some text
      → (imei : Text) → Effects imei command (deliver env (build_command text) imei)
  exactly command text listed = deliver-Effects env command text (inl listed)

  pub simple-Effects :
      Each (λ command send. (imei : Text) → Effects imei command (send imei)) (simple_commands env)
  unfolding get
  simple-Effects =
      exactly (codes "where") (codes "WHERE#") refl
      ▸ exactly (codes "status") (codes "STATUS#") refl
      ▸ exactly (codes "version") (codes "VERSION#") refl
      ▸ exactly (codes "imei") (codes "IMEI#") refl
      ▸ exactly (codes "params") (codes "PARAM#") refl
      ▸ exactly (codes "gprsset") (codes "GPRSSET#") refl
      ▸ exactly (codes "url") (codes "URL#") refl
      ▸ exactly (codes "position") (codes "POSITION#") refl
      ▸ exactly (codes "fence_query") (codes "FENCE#") refl
      ▸ exactly (codes "moving_query") (codes "MOVING#") refl
      ▸ exactly (codes "speed_query") (codes "SPEED#") refl
      ▸ exactly (codes "sos_query") (codes "SOS#") refl
      ▸ exactly (codes "timer_query") (codes "TIMER#") refl
      ▸ exactly (codes "apn_query") (codes "APN#") refl
      ▸ exactly (codes "server_query") (codes "SERVER#") refl
      ▸ exactly (codes "reset") (codes "RESET#") refl
      ▸ exactly (codes "relay_on") (codes "RELAY,0#") refl
      ▸ exactly (codes "relay_off") (codes "RELAY,1#") refl
      ▸ exactly (codes "sos_delete") (codes "SOS,D#") refl
      ▸ finish
