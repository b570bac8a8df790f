-- ===== src/Parsers/Gps103.antt =====
-- parsers/gps103_parser.py: the text messages of the GPS103 family. A number that the device sends
-- is kept exactly; what Python's float() accepts is a parameter.
pub mod Clock
use shalotrack_gateway.Shared.{
  ℕ, ◌+◌, ◌-◌, ◌*◌, ◌^◌, Bool, true, false, not, ◌&&◌, ◌||◌, Option, none, some, List, [], ◌∷◌,
  ◌++◌, length, get_or, take, drop, ltb, leb, ◌==◌, if◌then◌else◌,
}
use shalotrack_gateway.Shared.Bytes.{Bytes, starts_with, bytes_eq}
use shalotrack_gateway.Shared.Text.{
  Text, codes, strip, is_space, is_digit, all_of, split_on, find, contains, lower, upper, decimal,
}
use shalotrack_gateway.Shared.Int.{ℤ, pos, neg}
use shalotrack_gateway.Shared.Dict.{Dict, get, text_key}
use shalotrack_gateway.Shared.Attempt.{Attempt, returns, raises, ◌>>=◌, ◌>>◌}
use shalotrack_gateway.World.{Decimal, DateTime}
use shalotrack_gateway.Numeric.{Reading, finite, non_finite, round_to}
use Clock.{resolve_utc_timestamp}

pub data Kind : Type 0 where
  login heartbeat tracker unknown : Kind

-- _IMEI_RE on a text with no line break at its end
abbrev pub is_imei : Text → Bool
is_imei text = all_of is_digit text && (leb 10 (length text) && leb (length text) 17)

abbrev pub imei_mark : Text
imei_mark = codes "imei:"

abbrev pub kind_of : Text → Kind
kind_of text =
    if starts_with (codes "##") text && contains imei_mark text
    then login
    else if is_imei text
    then heartbeat
    else if starts_with imei_mark text
    then tracker
    else unknown

unfoldable pub classify : Bytes → Kind × Text
classify raw =
    let text = strip is_space raw in
    if all_of (λ c. ltb c 128) raw then (kind_of text, text) else (unknown, [])

-- The digits that a text begins with, `most` of them at most.
abbrev pub digits_of : ℕ → Text → Text
digits_of most [] = []
digits_of most (c ∷ cs) =
    let rest = digits_of (most - 1) cs in if ltb 0 most && is_digit c then c ∷ rest else []

-- _LOGIN_IMEI_RE.search(text): the first mark with ten digits or more behind it
unfoldable pub login_imei : Text → Option Text
login_imei [] = none
login_imei (c ∷ cs) =
    let rest = login_imei cs in
    let found = digits_of 17 (drop 5 (c ∷ cs)) in
    if starts_with imei_mark (c ∷ cs) && leb 10 (length found) then some found else rest

abbrev pub or_parse_error : Option Text → Attempt Text
or_parse_error none = raises
or_parse_error (some imei) = returns imei

unfoldable pub parse_login : Text → Attempt Text
unfolding login_imei
parse_login text = or_parse_error (login_imei text)

unfoldable pub parse_heartbeat : Text → Attempt Text
parse_heartbeat text = if is_imei text then returns text else raises

-- ALARM_NAMES: a keyword's alarm, if it is one
abbrev pub alarm_names : Dict Text (Option Text)
alarm_names =
    (codes "tracker", none)
    ∷ ([], none)
    ∷ (codes "help me", some (codes "SOS"))
    ∷ (codes "low battery", some (codes "LOW_BATTERY"))
    ∷ (codes "stockade", some (codes "GEOFENCE"))
    ∷ (codes "move", some (codes "MOVE"))
    ∷ (codes "speed", some (codes "OVERSPEED"))
    ∷ (codes "ac alarm", some (codes "POWER_CUT"))
    ∷ (codes "door alarm", some (codes "DOOR_OPEN"))
    ∷ (codes "sensor alarm", some (codes "SENSOR"))
    ∷ (codes "acc on", some (codes "ACC_ON"))
    ∷ (codes "acc off", some (codes "ACC_OFF"))
    ∷ []

abbrev pub alarm_of : Option (Option Text) → Option Text
alarm_of none = none
alarm_of (some alarm) = alarm

abbrev pub is_there : Option (Option Text) → Bool
is_there none = false
is_there (some alarm) = true

-- alarm in HIGH_SEVERITY_ALARMS
abbrev pub is_high : Text → Bool
is_high alarm = bytes_eq alarm (codes "SOS") || bytes_eq alarm (codes "POWER_CUT")

-- _field(fields, index)
abbrev pub field : List Text → ℕ → Text
field fields index = strip is_space (get_or fields index [])

abbrev pub is_south_or_west : Text → Bool
is_south_or_west hemisphere = bytes_eq hemisphere (codes "S") || bytes_eq hemisphere (codes "W")

abbrev pub is_hemisphere : Text → Bool
is_hemisphere hemisphere =
    bytes_eq hemisphere (codes "N")
    || (bytes_eq hemisphere (codes "E") || is_south_or_west hemisphere)

-- value.partition(".")
abbrev pub parts_of : Text → Option ℕ → Text × Text
parts_of value none = (value, [])
parts_of value (some i) = (take i value, drop (i + 1) value)

-- Degrees and minutes as minutes over a power of ten: with d degrees and m.f minutes,
-- d + m.f / 60 is (60 d 10^k + mf) / (60 10^k), k being the digits of f.
abbrev pub degrees_of : Bool → Text → Text → Option Decimal
degrees_of negative head fraction =
    let unit = 10 ^ length fraction in
    let degrees = decimal (take (length head - 2) head) in
    let minutes = decimal (drop (length head - 2) head ++ fraction) in
    let num = degrees * (60 * unit) + minutes in
    if leb (60 * unit) minutes
    then none
    else some (record { num = if negative then neg (pos num) else pos num; scale = 60 * unit })

abbrev pub nmea_parts : Bool → Text × Text → Option Decimal
nmea_parts negative (head, fraction) =
    if all_of is_digit head && (leb 3 (length head) && all_of is_digit fraction)
    then degrees_of negative head fraction
    else none

-- _nmea_to_degrees
unfoldable pub nmea_to_degrees : Text → Text → Option Decimal
nmea_to_degrees value hemisphere =
    if is_hemisphere hemisphere
    then nmea_parts (is_south_or_west hemisphere) (parts_of value (find b'.' value))
    else none

pub record Fix : Type 0 where
  pub timestamp : Option DateTime
  pub latitude : Decimal
  pub longitude : Decimal
  pub speed : Reading
  pub heading : Reading

-- What parse_tracker returns; `fix` is there when valid_fix is True.
pub record Tracker : Type 0 where
  pub imei : Text
  pub keyword : Text
  pub alarm_name : Option Text
  pub known_keyword : Bool
  pub fix : Option Fix
  pub ignition : Option Bool

abbrev pub scaled : ℤ → ℤ
scaled (ℤ.pos n) = pos (n * 1852)
scaled (ℤ.negsuc n) = neg (pos ((n + 1) * 1852))

-- speed * KNOTS_TO_KMH, and round(speed, 2)
abbrev pub kmh_of : Bool → Reading → Reading
kmh_of in_kmh non_finite = non_finite
kmh_of true (finite v) = finite (round_to 2 v)
kmh_of false (finite v) =
    finite (round_to 2 (record { num = scaled v.num; scale = v.scale * 1000 }))

abbrev pub or_zero : Option Reading → Reading
or_zero none = finite (record { num = pos 0; scale = 1 })
or_zero (some value) = value

abbrev pub keyword_ignition : Text → Option Bool
keyword_ignition keyword =
    if bytes_eq keyword (codes "acc on")
    then some true
    else if bytes_eq keyword (codes "acc off")
    then some false
    else none

abbrev pub flag_ignition : Text → Option Bool → Option Bool
flag_ignition acc_flag (some on) = some on
flag_ignition acc_flag none =
    if bytes_eq acc_flag (codes "1")
    then some true
    else if bytes_eq acc_flag (codes "0")
    then some false
    else none

abbrev pub report_of : Text → List Text → Tracker
report_of imei fields =
    let keyword = lower (field fields 1) in
    let name = get keyword alarm_names in
    record {
      imei = imei;
      keyword = keyword;
      alarm_name = alarm_of name;
      known_keyword = is_there name;
      fix = none;
      ignition = keyword_ignition keyword;
    }

module _ (float_of : Text → Option Reading) (in_kmh : Bool) where
  abbrev pub with_fix : List Text → Tracker → Option Decimal → Option Decimal → Tracker
  with_fix fields result none longitude = result
  with_fix fields result (some latitude) none = result
  with_fix fields result (some latitude) (some longitude) = record result {
    fix = some (record {
      timestamp = resolve_utc_timestamp (field fields 2) (field fields 5);
      latitude = latitude;
      longitude = longitude;
      speed = kmh_of in_kmh (or_zero (float_of (field fields 11)));
      heading = or_zero (float_of (field fields 12));
    });
    ignition = flag_ignition (field fields 14) result.ignition;
  }

  abbrev pub tracker_of : Text → List Text → Tracker
  tracker_of imei fields =
      let result = report_of imei fields in
      if bytes_eq (upper (field fields 4)) (codes "F")
      then (if bytes_eq (upper (field fields 6)) (codes "A")
          then with_fix fields result (nmea_to_degrees (field fields 7) (upper (field fields 8)))
              (nmea_to_degrees (field fields 9) (upper (field fields 10)))
          else result)
      else result

  abbrev pub tracker_from : List Text → Attempt Tracker
  tracker_from fields =
      let imei = strip is_space (drop 5 (get_or fields 0 [])) in
      if is_imei imei then returns (tracker_of imei fields) else raises

  unfoldable pub parse_tracker : Text → Attempt Tracker
  unfolding nmea_to_degrees get resolve_utc_timestamp
  parse_tracker text =
      if starts_with imei_mark text then tracker_from (split_on b',' text) else raises

-- `**,imei:<imei>,E;`
abbrev pub build_help_me_ack : Text → Bytes
build_help_me_ack imei = codes "**,imei:" ++ (imei ++ codes ",E;")

abbrev pub login_reply : Bytes
login_reply = codes "LOAD"

abbrev pub heartbeat_reply : Bytes
heartbeat_reply = codes "ON"
