-- ===== src/Api/Configures.antt =====
-- command_api.py: the commands that take parameters.
use shalotrack_gateway.Shared.{Bool, true, false, Option, [], ◌∷◌, refl, inr}
use shalotrack_gateway.Shared.Text.{Text, codes}
use shalotrack_gateway.Shared.Int.{ℤ, pos}
use shalotrack_gateway.Shared.Dict.{Dict, get, text_key}
use shalotrack_gateway.World.{Environment}
use shalotrack_gateway.Commands.{fault}
use shalotrack_gateway.Commands.Service.{Sender, send_apn}
use shalotrack_gateway.Api.{Configuration, Service, Wait, param_commands}
use shalotrack_gateway.Health.{Outside}
use shalotrack_gateway.Api.Params.{
  Python, Parsed, given, missing, wrong, required, optional, int_param, int_param_or, flag_param,
  coordinate, phone_of, send_phones, or_fault, credentials, timer_from, distance_from,
  speed_alarm_from, moving_alarm_from, fence_circle_from, sos_add_from, apn_from, server_from,
  batalm_from, poweralm_from,
}
use shalotrack_gateway.Api.Effects.{
  Effects, nothing, Yields, Yields->>=, deliver-Effects, Each, finish, ◌▸◌,
}

module _ (Value : Type 0) (python : Python Value) (env : Environment) where
  abbrev Params : Type 0
  Params = Option (Dict Text Value)

  abbrev pub Params-Effects : Text → (Text → Params → Parsed Sender) → Type 0
  Params-Effects command parser =
      (imei : Text) (params : Params) → Yields (Effects imei command) (parser imei params)

  module _ (imei : Text) (params : Params) where
    abbrev whole : Text → Parsed ℤ
    whole name = int_param Value python name params

    abbrev whole_or : Text → ℤ → Parsed ℤ
    whole_or name default = int_param_or Value python name default params

    abbrev switch : Text → Bool → Parsed Bool
    switch name default = flag_param Value python name default params

    timer-Effects : Yields (Effects imei (codes "timer")) (timer_from Value python env imei params)
    unfolding get
    timer-Effects = Yields->>= (Effects imei (codes "timer")) (whole (codes "t1")) _ λ t1.
        Yields->>= (Effects imei (codes "timer")) (whole (codes "t2")) _
          λ t2. deliver-Effects env (codes "timer") _ (inr ((codes "TIMER,"), refl, refl)) imei

    distance-Effects :
        Yields (Effects imei (codes "distance")) (distance_from Value python env imei params)
    unfolding get
    distance-Effects =
        Yields->>= (Effects imei (codes "distance")) (whole (codes "meters")) _ λ meters.
          deliver-Effects env (codes "distance") _ (inr ((codes "DISTANCE,"), refl, refl)) imei

    speed_alarm-Effects :
        Yields (Effects imei (codes "speed_alarm")) (speed_alarm_from Value python env imei params)
    unfolding get
    speed_alarm-Effects =
        Yields->>= (Effects imei (codes "speed_alarm")) (switch (codes "enabled") true) _ λ enabled.
          Yields->>= (Effects imei (codes "speed_alarm")) (whole_or (codes "interval") (pos 20)) _
            λ interval.
              Yields->>= (Effects imei (codes "speed_alarm"))
                (whole_or (codes "limit_kmh") (pos 100)) _
                λ limit_kmh.
                  Yields->>= (Effects imei (codes "speed_alarm")) (switch (codes "sms") true) _
                    λ sms.
                      deliver-Effects env (codes "speed_alarm") _
                        (inr ((codes "SPEED,"), refl, refl)) imei

    moving_alarm-Effects :
        Yields
          (Effects imei (codes "moving_alarm"))
          (moving_alarm_from Value python env imei params)
    unfolding get
    moving_alarm-Effects =
        Yields->>= (Effects imei (codes "moving_alarm")) (switch (codes "enabled") true) _
          λ enabled.
            Yields->>= (Effects imei (codes "moving_alarm")) (whole_or (codes "radius_m") (pos 300))
              _
              λ radius_m.
                Yields->>= (Effects imei (codes "moving_alarm")) (switch (codes "sms") true) _
                  λ sms.
                    deliver-Effects env (codes "moving_alarm") _
                      (inr ((codes "MOVING,"), refl, refl)) imei

    fence_circle-Effects :
        Yields
          (Effects imei (codes "fence_circle"))
          (fence_circle_from Value python env imei params)
    unfolding get
    fence_circle-Effects =
        Yields->>= (Effects imei (codes "fence_circle")) (switch (codes "enabled") true) _
          λ enabled.
            Yields->>= (Effects imei (codes "fence_circle"))
              (coordinate Value python env (codes "lat") params) _
              λ lat.
                Yields->>= (Effects imei (codes "fence_circle"))
                  (coordinate Value python env (codes "lon") params) _
                  λ lon.
                    Yields->>= (Effects imei (codes "fence_circle")) (whole (codes "radius_100m")) _
                      λ radius_100m.
                        Yields->>= (Effects imei (codes "fence_circle"))
                          (optional Value python (codes "trigger") params) _
                          λ trigger.
                            Yields->>= (Effects imei (codes "fence_circle"))
                              (switch (codes "sms") true) _
                              λ sms.
                                deliver-Effects env (codes "fence_circle") _
                                  (inr ((codes "FENCE,"), refl, refl)) imei

    or_fault-Effects :
        (m : Parsed Sender)
        → Yields (Effects imei (codes "sos_add")) m
        → Effects imei (codes "sos_add") (or_fault Value python env m)
    or_fault-Effects (given sender) h w serial = h w serial
    or_fault-Effects missing h w serial = nothing fault (λ e. cc)
    or_fault-Effects wrong h w serial = nothing fault (λ e. cc)

    phones-Effects :
        (phone1 phone2 phone3 : Option Value)
        → Yields
            (Effects imei (codes "sos_add"))
            (send_phones Value python env imei phone1 phone2 phone3)
    unfolding get
    phones-Effects phone1 phone2 phone3 =
        Yields->>= (Effects imei (codes "sos_add")) (phone_of Value python phone1) _ λ first.
          Yields->>= (Effects imei (codes "sos_add")) (phone_of Value python phone2) _ λ second.
            Yields->>= (Effects imei (codes "sos_add")) (phone_of Value python phone3) _ λ third.
              deliver-Effects env (codes "sos_add") _ (inr ((codes "SOS,A,"), refl, refl)) imei

    sos_add-Effects :
        Yields (Effects imei (codes "sos_add")) (sos_add_from Value python env imei params)
    sos_add-Effects =
        Yields->>= (Effects imei (codes "sos_add")) (optional Value python (codes "phone1") params)
          _
          λ phone1.
            Yields->>= (Effects imei (codes "sos_add"))
              (optional Value python (codes "phone2") params) _
              λ phone2.
                Yields->>= (Effects imei (codes "sos_add"))
                  (optional Value python (codes "phone3") params) _
                  λ phone3. or_fault-Effects _ (phones-Effects phone1 phone2 phone3)

    apn_text-Effects :
        (apn_name user pwd : Text)
        → Effects imei (codes "apn") (send_apn env imei apn_name user pwd)
    unfolding get
    apn_text-Effects apn_name [] [] =
        deliver-Effects env (codes "apn") _ (inr ((codes "APN,"), refl, refl)) imei
    apn_text-Effects apn_name [] (c ∷ cs) =
        deliver-Effects env (codes "apn") _ (inr ((codes "APN,"), refl, refl)) imei
    apn_text-Effects apn_name (c ∷ cs) pwd =
        deliver-Effects env (codes "apn") _ (inr ((codes "APN,"), refl, refl)) imei

    apn-Effects : Yields (Effects imei (codes "apn")) (apn_from Value python env imei params)
    apn-Effects =
        Yields->>= (Effects imei (codes "apn")) (required Value python (codes "apn_name") params) _
          λ apn_name.
            Yields->>= (Effects imei (codes "apn")) (optional Value python (codes "user") params) _
              λ user.
                Yields->>= (Effects imei (codes "apn")) (optional Value python (codes "pwd") params)
                  _
                  λ pwd.
                    let shown = credentials Value python user pwd in
                    apn_text-Effects (python.shown apn_name) shown.0 shown.1

    server-Effects :
        Yields (Effects imei (codes "server")) (server_from Value python env imei params)
    unfolding get
    server-Effects =
        Yields->>= (Effects imei (codes "server"))
          (required Value python (codes "domain_or_ip") params) _
          λ domain_or_ip.
            Yields->>= (Effects imei (codes "server")) (whole (codes "port")) _ λ port.
              Yields->>= (Effects imei (codes "server")) (switch (codes "use_domain") true) _
                λ use_domain.
                  Yields->>= (Effects imei (codes "server")) (switch (codes "udp") false) _ λ udp.
                    deliver-Effects env (codes "server") _ (inr ((codes "SERVER,"), refl, refl))
                      imei

    batalm-Effects :
        Yields (Effects imei (codes "batalm")) (batalm_from Value python env imei params)
    unfolding get
    batalm-Effects =
        Yields->>= (Effects imei (codes "batalm")) (switch (codes "enabled") true) _ λ enabled.
          Yields->>= (Effects imei (codes "batalm")) (switch (codes "sms") true) _
            λ sms. deliver-Effects env (codes "batalm") _ (inr ((codes "BATALM,"), refl, refl)) imei

    poweralm-Effects :
        Yields (Effects imei (codes "poweralm")) (poweralm_from Value python env imei params)
    unfolding get
    poweralm-Effects =
        Yields->>= (Effects imei (codes "poweralm")) (switch (codes "enabled") true) _ λ enabled.
          Yields->>= (Effects imei (codes "poweralm")) (switch (codes "sms") true) _ λ sms.
            deliver-Effects env (codes "poweralm") _ (inr ((codes "POWERALM,"), refl, refl)) imei

  module _ (configuration : Configuration) (outside : Service → Outside) (waits : Service → Wait)
      (says_offline : Service → Bool) where
    pub param-Effects :
        Each Params-Effects
          (param_commands Value python configuration env outside waits says_offline)
    param-Effects =
        timer-Effects ▸ distance-Effects ▸ speed_alarm-Effects ▸ moving_alarm-Effects
        ▸ fence_circle-Effects ▸ sos_add-Effects ▸ apn-Effects ▸ server-Effects ▸ batalm-Effects
        ▸ poweralm-Effects ▸ finish
