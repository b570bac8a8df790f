-- ===== src/Tests/Requests.antt =====
-- Requests to the command API, and health reports.
use shalotrack_gateway.Shared.{
  ℕ, ◌≡◌, ◌≢◌, ◌↔◌, ◌*◌, inr, Option, none, some, List, [], ◌∷◌, min, true, false,
}
use shalotrack_gateway.Shared.Text.{Text, codes}
use shalotrack_gateway.Shared.Int.{pos}
use shalotrack_gateway.Shared.Attempt.{returns, raises}
use shalotrack_gateway.Shared.Dict.{Dict, bytes_eq_iff}
use shalotrack_gateway.Registry.{Registry, gt06, gps103}
use shalotrack_gateway.Health.{
  Level, Run, finished, late, failed, Settings, Outside, fresh, cache_fail, get_health,
}
use shalotrack_gateway.Health.Verdict.{verdict, get_health-verdict}
use shalotrack_gateway.Health.Polls.{after, Spaced, Chained, after-Sound}
use shalotrack_gateway.Api.Params.{Python, loaded}
use shalotrack_gateway.Api.{Configuration, Request, Service, in_time, do_get}
use shalotrack_gateway.Api.Post.{do_post}
use shalotrack_gateway.Api.Guard.{Refused, do_post-Refused}
use shalotrack_gateway.Tests.Fixtures.{imei, env, connected, registry}

abbrev settings : Settings
settings = record {
  max_connections = 500;
  silence_seconds = 600;
  cache_ok = 10000000;
  started_at = 0;
  started_mono = 0;
}

-- The probes' answers at a time in seconds.
abbrev at_second : ℕ → Run → Run → Outside
at_second t noop ping = record {
  noop = noop;
  ping = ping;
  pool = none;
  monotonic = t * 1000000;
  now = t * 1000;
}

-- A database that takes two seconds.
abbrev slow : Outside
slow = at_second 5 (finished 300) (finished 2000000)

get_health-verdict_example :
    let report = (get_health settings slow (registry gt06) fresh).0 in
    (report.status ≡ verdict settings slow (registry gt06) fresh)
    × ((report.status ≡ Level.ok) ↔ (report.reasons ≡ []))
get_health-verdict_example = get_health-verdict settings slow (registry gt06) fresh

-- The newest first: a stuck loop, then a failure that is kept, and the failure.
abbrev polls : List (Outside × Registry)
polls =
    (at_second 20 late late, registry gt06)
    ∷ (at_second 7 (finished 300) (finished 900), registry gt06)
    ∷ (at_second 5 (finished 300) (failed (codes "OSError")), registry gt06)
    ∷ []

after-Sound_example :
    let m = after settings polls in
    Spaced (min settings.cache_ok cache_fail) m.pings × Chained m.last_logged m.log
after-Sound_example = after-Sound settings polls

-- JSON values: a text, or the body of the request.
abbrev json : Python (Option Text)
json = record {
  loads = λ _. loaded none;
  object_of = object;
  text_of = λ value. value;
  int_of = λ _. raises;
  float_text = λ _. raises;
  is_true = λ _. true;
  shown = λ _. [];
  strip = λ text. text;
  lower = λ text. text;
}
  where
    object : Option Text → Option (Dict Text (Option Text))
    object none = some ((codes "imei", some imei) ∷ (codes "command", some (codes "where")) ∷ [])
    object (some text) = none

abbrev configuration : Configuration
configuration = record { api_key = codes "secret"; health = settings }

abbrev request : Text → Request
request api_key = record {
  path = codes "/command";
  api_key = api_key;
  content_length = returns (pos 9);
  body = codes "{...}";
}

abbrev service : Service
service = record { world = connected gps103; serial = 1; monitor = fresh }

another : codes "guess" ≢ codes "secret"
another h = clash ((bytes_eq_iff (codes "guess") (codes "secret")).1 h)
  where
    clash : false ≡ true → ⊥
    clash q = cc

do_post-Refused_example :
    Refused service (
      do_post
        (Option Text)
        json
        configuration
        env
        (λ _. slow)
        (λ _. in_time)
        (λ _. false)
        (request (codes "guess"))
        service)
    × Refused service (
        do_get
          (Option Text)
          json
          configuration
          env
          (λ _. slow)
          (λ _. in_time)
          (λ _. false)
          (request (codes "guess"))
          service)
do_post-Refused_example =
    do_post-Refused (Option Text) json configuration env (λ _. slow) (λ _. in_time) (λ _. false)
      (request (codes "guess")) service (inr another)
