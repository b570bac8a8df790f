-- ===== src/Decoders.antt =====
-- decoders/*.py: the configuration that a device reports as key=value pairs. What Python's int()
-- and float() accept is a parameter.
use shalotrack_gateway.Shared.{
  ℕ, ◌/◌, ◌%◌, ◌^◌, Bool, not, Option, none, some, List, [], ◌∷◌, get_or, length, ltb, ◌==◌,
  if◌then◌else◌,
}
use shalotrack_gateway.Shared.Bytes.{bytes_eq}
use shalotrack_gateway.Shared.Text.{Text, codes, split_on}
use shalotrack_gateway.Shared.Int.{ℤ, pos, negsuc}
use shalotrack_gateway.Shared.Dict.{Dict, get, text_key}
use shalotrack_gateway.Shared.Attempt.{Attempt, returns, ◌>>=◌}

-- int(text, 16), int(text) and float(text)
pub record Numbers : Type 1 where
  pub Float : Type 0
  pub int_hex : Text → Attempt ℤ
  pub int_dec : Text → Attempt ℤ
  pub float_of : Text → Attempt Float

-- bool(value & (1 << k)), in two's complement
abbrev pub flag : ℕ → ℤ → Bool
flag k (pos n) = n / 2 ^ k % 2 == 1
flag k (negsuc n) = not (n / 2 ^ k % 2 == 1)

pub record AlarmGroup1 : Type 0 where
  pub sos_alarm : Bool
  pub power_cut_alarm : Bool
  pub shock_alarm : Bool
  pub low_battery_alarm : Bool
  pub overspeed_alarm : Bool
  pub geofence_alarm : Bool
  pub move_alarm : Bool
  pub acc_alarm : Bool

unfoldable pub decode_alarm_group_1 : ℤ → AlarmGroup1
decode_alarm_group_1 value = record {
  sos_alarm = flag 0 value;
  power_cut_alarm = flag 1 value;
  shock_alarm = flag 2 value;
  low_battery_alarm = flag 3 value;
  overspeed_alarm = flag 4 value;
  geofence_alarm = flag 5 value;
  move_alarm = flag 6 value;
  acc_alarm = flag 7 value;
}

-- bit0 to bit7 of the groups 2 and 3
unfoldable pub decode_alarm_bits : ℤ → List Bool
decode_alarm_bits value =
    flag 0 value
    ∷ flag 1 value
    ∷ flag 2 value
    ∷ flag 3 value
    ∷ flag 4 value
    ∷ flag 5 value
    ∷ flag 6 value
    ∷ flag 7 value
    ∷ []

abbrev or_default : Option Text → Text → Text
or_default none default = default
or_default (some text) default = text

-- values.get(key) of each key, in the order of the source
abbrev gets_all : List Text → Dict Text Text → List (Option Text)
gets_all [] values = []
gets_all (key ∷ keys) values = get key values ∷ gets_all keys values

abbrev pub network_keys : List Text
network_keys =
    codes "APN"
    ∷ codes "APNUSER"
    ∷ codes "APNPWD"
    ∷ codes "IP"
    ∷ codes "DOMAIN"
    ∷ codes "PORT"
    ∷ codes "DNS"
    ∷ codes "PROTOCOL"
    ∷ []

abbrev pub device_settings_keys : List Text
device_settings_keys =
    codes "GMT"
    ∷ codes "LANG"
    ∷ codes "MODE"
    ∷ codes "ACC"
    ∷ codes "SLEEP"
    ∷ codes "LED"
    ∷ codes "HEART"
    ∷ codes "UPLOAD"
    ∷ []

abbrev pub sim_keys : List Text
sim_keys = codes "ICCID" ∷ codes "IMSI" ∷ codes "OP" ∷ codes "PHONE" ∷ []

abbrev pub gps_keys : List Text
gps_keys = codes "FILTER" ∷ codes "GPSACC" ∷ codes "INTERVAL" ∷ []

abbrev pub phone_keys : List Text
phone_keys = codes "SOS" ∷ codes "CENTER" ∷ []

-- upload_modes.get(value, value)
unfoldable pub decode_upload_mode : Option Text → Option Text
decode_upload_mode none = none
decode_upload_mode (some value) =
    if bytes_eq value (codes "00")
    then some (codes "Always Upload")
    else if bytes_eq value (codes "01")
    then some (codes "Smart Upload")
    else if bytes_eq value (codes "02")
    then some (codes "Sleep Upload")
    else if bytes_eq value (codes "03")
    then some (codes "ACC Trigger Upload")
    else some value

module _ (py : Numbers) where
  open py use {Float, int_hex, int_dec, float_of}

  pub data Geofence : Type 0 where
    no_fence : Geofence
    unparsed : Text → Geofence
    fence : Bool → ℤ → Float → Float → Text → ℤ → Geofence

  abbrev decode_parts : Text → List Text → Attempt Geofence
  decode_parts value parts = if ltb (length parts) 8 then returns (unparsed value) else do
    radius ← int_dec (get_or parts 2 [])
    latitude ← float_of (get_or parts 3 [])
    longitude ← float_of (get_or parts 4 [])
    index ← int_dec (get_or parts 7 [])
    returns (
        fence (bytes_eq (get_or parts 1 []) (codes "ON")) radius latitude longitude
          (get_or parts 6 []) index)

  unfoldable pub decode_geofence : Option Text → Attempt Geofence
  decode_geofence none = returns no_fence
  decode_geofence (some []) = returns no_fence
  decode_geofence (some (c ∷ cs)) = decode_parts (c ∷ cs) (split_on b',' (c ∷ cs))

  pub record Configuration : Type 0 where
    pub upload_mode : Option Text
    pub geofence : Geofence
    pub phones : List (Option Text)
    pub network : List (Option Text)
    pub device_settings : List (Option Text)
    pub sim : List (Option Text)
    pub gps : List (Option Text)
    pub alarm_group_1 : AlarmGroup1
    pub alarm_group_2 : List Bool
    pub alarm_group_3 : List Bool

  abbrev alarm_word : Text → Dict Text Text → Attempt ℤ
  alarm_word key values = int_hex (or_default (get key values) (codes "00"))

  unfoldable pub decode_information : Dict Text Text → Attempt Configuration
  unfolding decode_geofence
  decode_information values = do
    geofence ← decode_geofence (get (codes "FENCE") values)
    alm1 ← alarm_word (codes "ALM1") values
    alm2 ← alarm_word (codes "ALM2") values
    alm3 ← alarm_word (codes "ALM3") values
    returns (record {
      upload_mode = decode_upload_mode (get (codes "DYD") values);
      geofence = geofence;
      phones = gets_all phone_keys values;
      network = gets_all network_keys values;
      device_settings = gets_all device_settings_keys values;
      sim = gets_all sim_keys values;
      gps = gets_all gps_keys values;
      alarm_group_1 = decode_alarm_group_1 alm1;
      alarm_group_2 = decode_alarm_bits alm2;
      alarm_group_3 = decode_alarm_bits alm3;
    })
