-- ===== src/Api/Post.antt =====
-- command_api.py `do_POST`: a posted command.
use shalotrack_gateway.Shared.{ℕ, Bool, true, not, Option, none, some, [], length, if◌then◌else◌}
use shalotrack_gateway.Shared.Bytes.{Bytes, bytes_eq}
use shalotrack_gateway.Shared.Text.{Text, codes}
use shalotrack_gateway.Shared.Int.{ℤ, within}
use shalotrack_gateway.Shared.Dict.{Dict, get, text_key}
use shalotrack_gateway.Shared.Attempt.{Attempt, returns, raises}
use shalotrack_gateway.Registry.{get_device}
use shalotrack_gateway.World.{World, Environment}
use shalotrack_gateway.Commands.{Outcome}
use shalotrack_gateway.Commands.Service.{Sender}
use shalotrack_gateway.Gps103.Commands.{send_gps103_command}
use shalotrack_gateway.Health.{Outside}
use shalotrack_gateway.Api.Params.{
  Python, Loaded, undecodable, malformed, loaded, Parsed, given, missing, wrong,
}
use shalotrack_gateway.Api.{
  Configuration, Done, Request, Response, Service, Wait, answer, answered, authorized, bad_param,
  dropped, ended, guarded, in_time, is_empty, is_gps103, is_there, never, no_param, param_commands,
  protocol_of, respond, simple_commands, timed_out, too_late, unknown_command,
}

module _ (Value : Type 0) (python : Python Value) (configuration : Configuration)
    (env : Environment) (outside : Service → Outside) (waits : Service → Wait)
    (says_offline : Service → Bool) where
  abbrev pub keep : Service → Outcome × (World × ℕ) → Outcome × Service
  keep s (outcome, (w, serial)) = (outcome, record s { world = w; serial = serial })

  abbrev pub waited : Wait → Service → Outcome × Service → Done × Service
  waited in_time s (outcome, s') = (ended outcome, s')
  waited too_late s (outcome, s') = (timed_out, s')
  waited never s (outcome, s') = (timed_out, s)

  -- _run_async: a coroutine that is too late goes on, and its outcome is lost.
  unfoldable pub run_async : Sender → Service → Done × Service
  run_async sender s = waited (waits s) s (keep s (sender (s.world, s.serial)))

  abbrev pub order_gps103 : Text → Text → Sender
  order_gps103 imei command (w, serial) =
      let (outcome, w') = send_gps103_command env imei command w in (outcome, (w', serial))

  abbrev pub run_parsed : Parsed Sender → Service → Done × Service
  run_parsed (given sender) s = run_async sender s
  run_parsed missing s = (no_param, s)
  run_parsed wrong s = (bad_param, s)

  -- The response, and an exception's text as the service then stands.
  abbrev pub responded : Text → Text → Done × Service → Response × Service
  responded imei command (done, s) = (respond imei command (says_offline s) done, s)

  abbrev pub post_with_params :
      Text
      → Text
      → Option (Dict Text Value)
      → Option (Text → Option (Dict Text Value) → Parsed Sender)
      → Service
      → Response × Service
  post_with_params imei command params none s = (answered 400 (unknown_command command), s)
  post_with_params imei command params (some parser) s =
      responded imei command (run_parsed (parser imei params) s)

  abbrev pub post_simple :
      Text → Text → Option (Dict Text Value) → Option (Text → Sender) → Service → Response × Service
  post_simple imei command params none s =
      post_with_params imei command params
        (get command (param_commands Value python configuration env outside waits says_offline)) s
  post_simple imei command params (some send) s = responded imei command (run_async (send imei) s)

  unfoldable pub post_command :
      Text → Text → Option (Dict Text Value) → Service → Response × Service
  unfolding run_async respond
  post_command imei command params s =
      if is_gps103 (protocol_of (get_device imei s.world.registry))
      then responded imei command (run_async (order_gps103 imei command) s)
      else post_simple imei command params (get command (simple_commands env)) s

  abbrev pub is_known : Text → Bool
  is_known command =
      if is_there (get command (simple_commands env))
      then true
      else is_there
          (get command (param_commands Value python configuration env outside waits says_offline))

  unfoldable pub post_checked :
      Text → Text → Option (Dict Text Value) → Service → Response × Service
  unfolding post_command
  post_checked imei command params s =
      if is_empty imei
      then answer 400 (codes "Missing 'imei' field") s
      else if is_empty command
      then answer 400 (codes "Missing 'command' field") s
      else if not (is_known command)
      then (answered 400 (unknown_command command), s)
      else post_command imei command params s

  abbrev pub stripped : Option Text → Attempt Text
  stripped none = raises
  stripped (some text) = returns (python.strip text)

  -- body.get(key, "").strip(), which raises on what is not a text
  abbrev pub text_field : Option Value → Attempt Text
  text_field none = returns []
  text_field (some value) = stripped (python.text_of value)

  -- body.get("params", {})
  abbrev pub params_field : Option Value → Option (Dict Text Value)
  params_field none = some []
  params_field (some value) = python.object_of value

  abbrev pub post_fields :
      Attempt Text → Attempt Text → Option (Dict Text Value) → Service → Response × Service
  post_fields raises command params s = (dropped, s)
  post_fields (returns imei) raises params s = (dropped, s)
  post_fields (returns imei) (returns command) params s =
      post_checked imei (python.lower command) params s

  abbrev pub post_object : Option (Dict Text Value) → Service → Response × Service
  post_object none s = (dropped, s)
  post_object (some body) s =
      post_fields (text_field (get (codes "imei") body)) (text_field (get (codes "command") body))
        (params_field (get (codes "params") body)) s

  abbrev pub post_body : Loaded Value → Service → Response × Service
  post_body undecodable s = (dropped, s)
  post_body malformed s = answer 400 (codes "Invalid JSON") s
  post_body (loaded value) s = post_object (python.object_of value) s

  abbrev pub post_length : Attempt ℤ → Bytes → Service → Response × Service
  post_length raises body s = (dropped, s)
  post_length (returns length) body s =
      if within 0 length
      then answer 400 (codes "Empty request body") s
      else post_body (python.loads body) s

  abbrev pub post_path : Request → Service → Response × Service
  post_path request s =
      if bytes_eq request.path (codes "/command")
      then post_length request.content_length request.body s
      else answer 404 (codes "Not found") s

  unfoldable pub do_post : Request → Service → Response × Service
  unfolding post_checked
  do_post request s =
      guarded (post_path request) (authorized configuration.api_key request.api_key) s
