-- ===== src/Api/Params.antt =====
-- The commands of command_api.py that take parameters. What json, int(), float() and str() make of a
-- request's values is a parameter.
use shalotrack_gateway.Shared.{Bool, true, false, ◌||◌, Option, none, some, [], if◌then◌else◌}
use shalotrack_gateway.Shared.Bytes.{Bytes}
use shalotrack_gateway.Shared.Text.{Text, codes}
use shalotrack_gateway.Shared.Int.{ℤ, pos}
use shalotrack_gateway.Shared.Dict.{Dict, get, text_key}
use shalotrack_gateway.Shared.Attempt.{Attempt, returns, raises}
use shalotrack_gateway.World.{Environment}
use shalotrack_gateway.Commands.{fault}
use shalotrack_gateway.Commands.Service.{
  Sender, send_timer, send_distance, send_speed_alarm, send_moving_alarm, send_fence_circle,
  send_sos_add, send_apn, send_server, send_batalm, send_poweralm,
}

-- A body that is not UTF-8 raises another exception than one that is not JSON.
pub data Loaded (Value : Type 0) : Type 0 where
  undecodable malformed : Loaded Value
  loaded : Value → Loaded Value

-- json.loads of a body; a value as a dict and as a str; int(), the text of float(), bool() and str();
-- strip() and lower().
pub record Python (Value : Type 0) : Type 0 where
  pub loads : Bytes → Loaded Value
  pub object_of : Value → Option (Dict Text Value)
  pub text_of : Value → Option Text
  pub int_of : Value → Attempt ℤ
  pub float_text : Value → Attempt Text
  pub is_true : Value → Bool
  pub shown : Value → Text
  pub strip : Text → Text
  pub lower : Text → Text

-- A KeyError is a missing parameter; another exception is a wrong one.
pub data Parsed (A : Type 0) : Type 0 where
  given : A → Parsed A
  missing wrong : Parsed A

infixl 5 ◌>>=◌
abbrev pub ◌>>=◌ : {A B : Type 0} → Parsed A → (A → Parsed B) → Parsed B
given a >>= f = f a
missing >>= f = missing
wrong >>= f = wrong

abbrev pub or_wrong : {A : Type 0} → Attempt A → Parsed A
or_wrong (returns a) = given a
or_wrong raises = wrong

module _ (Value : Type 0) (python : Python Value) where
  abbrev pub found : Option Value → Parsed Value
  found none = missing
  found (some value) = given value

  -- params[key], where params need not be a dict
  abbrev pub required : Text → Option (Dict Text Value) → Parsed Value
  required name none = wrong
  required name (some params) = found (get name params)

  -- params.get(key)
  abbrev pub optional : Text → Option (Dict Text Value) → Parsed (Option Value)
  optional name none = wrong
  optional name (some params) = given (get name params)

  abbrev pub int_or : ℤ → Option Value → Parsed ℤ
  int_or default none = given default
  int_or default (some value) = or_wrong (python.int_of value)

  abbrev pub flag_or : Bool → Option Value → Bool
  flag_or default none = default
  flag_or default (some value) = python.is_true value

  abbrev pub shown_or_empty : Option Value → Text
  shown_or_empty none = []
  shown_or_empty (some value) = python.shown value

  abbrev pub if_false : Bool → Parsed Text
  if_false is_true = if is_true then wrong else given []

  -- A telephone number, which `join` refuses when it is not a text, and `filter` drops when it is false.
  abbrev pub phone_text : Value → Option Text → Parsed Text
  phone_text value none = if_false (python.is_true value)
  phone_text value (some phone) = given phone

  abbrev pub phone_of : Option Value → Parsed Text
  phone_of none = given []
  phone_of (some value) = phone_text value (python.text_of value)

  -- user and pwd, of which neither is printed if neither is true
  abbrev pub credentials : Option Value → Option Value → Text × Text
  credentials user pwd =
      if flag_or false user || flag_or false pwd
      then (shown_or_empty user, shown_or_empty pwd)
      else ([], [])

  abbrev pub Params : Type 0
  Params = Option (Dict Text Value)

  abbrev pub int_param : Text → Params → Parsed ℤ
  int_param name params = required name params >>= λ value. or_wrong (python.int_of value)

  abbrev pub flag_param : Text → Bool → Params → Parsed Bool
  flag_param name default params = optional name params >>= λ value. given (flag_or default value)

  abbrev pub int_param_or : Text → ℤ → Params → Parsed ℤ
  int_param_or name default params = optional name params >>= int_or default

  module _ (env : Environment) where
    abbrev pub timer_from : Text → Params → Parsed Sender
    timer_from imei params = do
      t1 ← int_param (codes "t1") params
      t2 ← int_param (codes "t2") params
      given (send_timer env imei t1 t2)

    abbrev pub distance_from : Text → Params → Parsed Sender
    distance_from imei params = do
      meters ← int_param (codes "meters") params
      given (send_distance env imei meters)

    abbrev pub speed_alarm_from : Text → Params → Parsed Sender
    speed_alarm_from imei params = do
      enabled ← flag_param (codes "enabled") true params
      interval ← int_param_or (codes "interval") (pos 20) params
      limit_kmh ← int_param_or (codes "limit_kmh") (pos 100) params
      sms ← flag_param (codes "sms") true params
      given (send_speed_alarm env imei enabled interval limit_kmh sms)

    abbrev pub moving_alarm_from : Text → Params → Parsed Sender
    moving_alarm_from imei params = do
      enabled ← flag_param (codes "enabled") true params
      radius_m ← int_param_or (codes "radius_m") (pos 300) params
      sms ← flag_param (codes "sms") true params
      given (send_moving_alarm env imei enabled radius_m sms)

    abbrev pub coordinate : Text → Params → Parsed Text
    coordinate name params = required name params >>= λ value. or_wrong (python.float_text value)

    abbrev pub fence_circle_from : Text → Params → Parsed Sender
    fence_circle_from imei params = do
      enabled ← flag_param (codes "enabled") true params
      lat ← coordinate (codes "lat") params
      lon ← coordinate (codes "lon") params
      radius_100m ← int_param (codes "radius_100m") params
      trigger ← optional (codes "trigger") params
      sms ← flag_param (codes "sms") true params
      given (send_fence_circle env imei enabled lat lon radius_100m (shown_or_empty trigger) sms)

    -- A telephone number that `join` refuses is found out by the coroutine.
    abbrev pub or_fault : Parsed Sender → Sender
    or_fault (given sender) s = sender s
    or_fault missing s = (fault, s)
    or_fault wrong s = (fault, s)

    abbrev pub send_phones : Text → Option Value → Option Value → Option Value → Parsed Sender
    send_phones imei phone1 phone2 phone3 = do
      first ← phone_of phone1
      second ← phone_of phone2
      third ← phone_of phone3
      given (send_sos_add env imei first second third)

    abbrev pub sos_add_from : Text → Params → Parsed Sender
    sos_add_from imei params = do
      phone1 ← optional (codes "phone1") params
      phone2 ← optional (codes "phone2") params
      phone3 ← optional (codes "phone3") params
      given (or_fault (send_phones imei phone1 phone2 phone3))

    abbrev pub apn_from : Text → Params → Parsed Sender
    apn_from imei params = do
      apn_name ← required (codes "apn_name") params
      user ← optional (codes "user") params
      pwd ← optional (codes "pwd") params
      let shown = credentials user pwd
      given (send_apn env imei (python.shown apn_name) shown.0 shown.1)

    abbrev pub server_from : Text → Params → Parsed Sender
    server_from imei params = do
      domain_or_ip ← required (codes "domain_or_ip") params
      port ← int_param (codes "port") params
      use_domain ← flag_param (codes "use_domain") true params
      udp ← flag_param (codes "udp") false params
      given (send_server env imei (python.shown domain_or_ip) port use_domain udp)

    abbrev pub batalm_from : Text → Params → Parsed Sender
    batalm_from imei params = do
      enabled ← flag_param (codes "enabled") true params
      sms ← flag_param (codes "sms") true params
      given (send_batalm env imei enabled sms)

    abbrev pub poweralm_from : Text → Params → Parsed Sender
    poweralm_from imei params = do
      enabled ← flag_param (codes "enabled") true params
      sms ← flag_param (codes "sms") true params
      given (send_poweralm env imei enabled sms)
