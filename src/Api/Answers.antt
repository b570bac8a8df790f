-- ===== src/Api/Answers.antt =====
-- command_api.py: the response to a command and what was done.
use shalotrack_gateway.Shared.{ℕ, ◌≡◌, ◌≢◌, refl, Bool, true, false, some, ◌∷◌, ◌==◌, if◌then◌else◌}
use shalotrack_gateway.Shared.Bytes.{Bytes}
use shalotrack_gateway.Shared.Text.{Text, codes}
use shalotrack_gateway.Shared.Dict.{text_key}
use shalotrack_gateway.Registry.{Entry, get_device, get_socket}
use shalotrack_gateway.World.{World, Environment, wrote}
use shalotrack_gateway.Commands.{Outcome, sent, offline, unsupported, fault}
use shalotrack_gateway.Commands.Service.{Sender}
use shalotrack_gateway.Health.{Outside}
use shalotrack_gateway.Api.Params.{Python, Parsed, given, missing, wrong}
use shalotrack_gateway.Api.{
  Configuration, Response, dropped, answered, error, Service, Wait, in_time, too_late, never, Done,
  ended, bad_param, respond,
}
use shalotrack_gateway.Api.Post.{run_async, waited, run_parsed, responded, keep}
use shalotrack_gateway.Api.Effects.{Suits, Effect, nothing, one_write, Effects, Yields}

abbrev pub is_success : Response → Bool
is_success dropped = false
is_success (answered status body) = status == 200

-- Nothing is written and the response is no success; or there is one write, to the socket of the
-- device, of bytes that suit it and the command, and a success only if it went through.
pub data Commanded (s : Service) (imei command : Text) : Response × Service → Type 0 where
  unwritten :
      (r : Response) (s' : Service)
      → is_success r ≡ false
      → s'.world ≡ s.world
      → s'.monitor ≡ s.monitor
      → Commanded s imei command (r, s')
  written_once :
      (r : Response) (s' : Service) (conn : ℕ) (device : Entry) (payload : Bytes) (drained : Bool)
      → get_socket imei s.world.registry ≡ some conn
      → get_device imei s.world.registry ≡ some device
      → Suits imei command s.serial device.protocol payload
      → s'.world ≡ record s.world { log = wrote conn payload drained ∷ s.world.log }
      → s'.monitor ≡ s.monitor
      → (is_success r ≡ true → drained ≡ true)
      → Commanded s imei command (r, s')

respond_unsent :
    (imei command : Text) (b : Bool) (o : Outcome)
    → o ≢ sent
    → is_success (respond imei command b (ended o)) ≡ false
unfolding respond
respond_unsent imei command b sent ne = absurd (ne refl)
respond_unsent imei command b offline ne = refl
respond_unsent imei command b unsupported ne = refl
respond_unsent imei command true fault ne = refl
respond_unsent imei command false fault ne = refl

respond_drained :
    (imei command : Text) (b drained : Bool)
    → is_success (respond imei command b (ended (if drained then sent else fault))) ≡ true
    → drained ≡ true
unfolding respond
respond_drained imei command b true h = refl
respond_drained imei command true false h = cc
respond_drained imei command false false h = cc

respond_wrong :
    (imei command : Text) (b : Bool) → is_success (respond imei command b bad_param) ≡ false
unfolding respond
respond_wrong imei command true = refl
respond_wrong imei command false = refl

module _ (Value : Type 0) (python : Python Value) (configuration : Configuration)
    (env : Environment) (outside : Service → Outside) (waits : Service → Wait)
    (says_offline : Service → Bool) (s : Service) where
  ended-Commanded :
      (imei command : Text) (o : Outcome) (w' : World) (serial' : ℕ)
      → Effect imei command s.serial s.world o w'
      → (b : Bool)
      → Commanded s imei command
          (respond imei command b (ended o), record s { world = w'; serial = serial' })
  ended-Commanded imei command o _ serial' (nothing _ ne) b =
      unwritten _ _ (respond_unsent imei command b o ne) refl refl
  ended-Commanded imei command _ _ serial' (one_write conn device payload c d t drained) b =
      written_once _ _ conn device payload drained c d t refl refl
        (respond_drained imei command b drained)

  late-Commanded :
      (imei command : Text) (o : Outcome) (w' : World) (serial' : ℕ)
      → Effect imei command s.serial s.world o w'
      → Commanded s imei command
          (answered 503 (error (codes "Gateway busy")), record s { world = w'; serial = serial' })
  late-Commanded imei command o _ serial' (nothing _ ne) = unwritten _ _ refl refl refl
  late-Commanded imei command _ _ serial' (one_write conn device payload c d t drained) =
      written_once _ _ conn device payload drained c d t refl refl (λ h. cc)

  abbrev pub say : Text → Text → Done × Service → Response × Service
  say = responded Value python configuration env outside waits says_offline

  abbrev pub runs : Sender → Service → Done × Service
  runs = run_async Value python configuration env outside waits says_offline

  waited-Commanded :
      (imei command : Text) (sender : Sender)
      → Effects imei command sender
      → (wait : Wait)
      → Commanded s imei command (
          say imei command (
            waited Value python configuration env outside waits says_offline wait s (
              keep Value python configuration env outside waits says_offline s
                (sender (s.world, s.serial)))))
  unfolding respond
  waited-Commanded imei command sender h in_time =
      ended-Commanded imei command _ _ _ (h s.world s.serial) _
  waited-Commanded imei command sender h too_late =
      late-Commanded imei command _ _ _ (h s.world s.serial)
  waited-Commanded imei command sender h never = unwritten _ _ refl refl refl

  pub run_async-Commanded :
      (imei command : Text) (sender : Sender)
      → Effects imei command sender
      → Commanded s imei command (say imei command (runs sender s))
  unfolding run_async
  run_async-Commanded imei command sender h = waited-Commanded imei command sender h (waits s)

  pub run_parsed-Commanded :
      (imei command : Text) (m : Parsed Sender)
      → Yields (Effects imei command) m
      → Commanded s imei command (
          say imei command
            (run_parsed Value python configuration env outside waits says_offline m s))
  unfolding respond
  run_parsed-Commanded imei command (given sender) h = run_async-Commanded imei command sender h
  run_parsed-Commanded imei command missing h = unwritten _ _ refl refl refl
  run_parsed-Commanded imei command wrong h =
      unwritten _ _ (respond_wrong imei command (says_offline s)) refl refl
