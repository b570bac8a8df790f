-- ===== src/Parsers/V5.antt =====
-- parsers/v5_parser.py: the packets of the GT06 family. A coordinate is kept in units of 1/1,800,000
-- degree, as the device sends it.
use shalotrack_gateway.Shared.{
  ℕ, ◌+◌, ◌-◌, ◌/◌, ◌%◌, ◌^◌, Bool, true, false, not, ◌&&◌, Option, none, some, List, [], ◌∷◌, ◌++◌,
  length, get_elem?, take, drop, ltb, leb, ◌==◌, if◌then◌else◌,
}
use shalotrack_gateway.Shared.Bytes.{Bytes, slice, slice_back, starts_with, be_value, be_bytes2}
use shalotrack_gateway.Shared.Text.{Text, codes, strip, lstrip, is_space, all_of, split_on, find}
use shalotrack_gateway.Shared.Int.{ℤ, pos, neg}
use shalotrack_gateway.Shared.Dict.{Dict, put, text_key}
use shalotrack_gateway.Shared.Attempt.{Attempt, returns, or_raise, ◌>>=◌}
use shalotrack_gateway.World.{DateTime}
use shalotrack_gateway.Checksum.{crc16_x25}
use shalotrack_gateway.Framing.Gt06.{short_marker, long_marker}
use shalotrack_gateway.Parsers.Calendar.{date_time}

-- packet[i], which raises out of range
abbrev pub at : ℕ → Bytes → Attempt ℕ
at i packet = or_raise (get_elem? packet i)

-- bool(word & (1 << k))
abbrev pub bit : ℕ → ℕ → Bool
bit k word = word / 2 ^ k % 2 == 1

abbrev pub hex_digit : ℕ → ℕ
hex_digit d = if ltb d 10 then b'0' + d else b'a' + (d - 10)

-- data.hex(), and f"{b:02x}" for each byte
abbrev pub hex : Bytes → Text
hex [] = []
hex (b ∷ bs) = hex_digit (b / 16) ∷ hex_digit (b % 16) ∷ hex bs

pub record LoginPacket : Type 0 where
  pub imei : Text
  pub serial : Text

unfoldable pub parse_login_packet : Bytes → LoginPacket
parse_login_packet raw = record {
  imei = lstrip (λ c. c == b'0') (hex (slice 4 12 raw));
  serial = hex (slice_back 6 4 raw);
}

pub record Location : Type 0 where
  pub latitude : ℤ
  pub longitude : ℤ
  pub speed : ℕ
  pub timestamp : DateTime
  pub heading : ℕ
  pub gps_fixed : Bool
  pub gps_length : ℕ
  pub satellites : ℕ

abbrev pub coordinate_scale : ℕ
coordinate_scale = 1800000

-- The hemisphere bits of the course word set the sign.
abbrev pub signed_if : Bool → ℕ → ℤ
signed_if positive raw = if positive then pos raw else neg (pos raw)

-- The GPS block that a location packet and an alarm packet begin with.
unfoldable pub parse_gps : Bytes → Attempt (Location × ℕ)
unfolding date_time
parse_gps raw = do
  year ← at 4 raw
  month ← at 5 raw
  day ← at 6 raw
  hour ← at 7 raw
  minute ← at 8 raw
  second ← at 9 raw
  timestamp ← date_time (record {
    year = year + 2000;
    month = month;
    day = day;
    hour = hour;
    minute = minute;
    second = second;
  })
  let lat_raw = be_value (slice 11 15 raw)
  let lon_raw = be_value (slice 15 19 raw)
  speed ← at 19 raw
  info ← at 10 raw
  let course_status = be_value (slice 20 22 raw)
  returns (
    record {
      latitude = signed_if (bit 10 course_status) lat_raw;
      longitude = signed_if (not (bit 11 course_status)) lon_raw;
      speed = speed;
      timestamp = timestamp;
      heading = course_status % 1024;
      gps_fixed = bit 12 course_status;
      gps_length = info / 16;
      satellites = info % 16;
    },
    course_status,
  )

unfoldable pub parse_location_packet : Bytes → Attempt Location
unfolding parse_gps
parse_location_packet raw = do block ← parse_gps raw; returns block.0

-- raw[0:2] == b"\x79\x79"
abbrev pub is_long : Bytes → Bool
is_long = starts_with long_marker

-- The reply, from the protocol number and the serial number that it echoes.
unfoldable pub ack_of : ℕ → Bytes → Bytes
ack_of protocol_number serial =
    let ack_body = 0x05 ∷ protocol_number ∷ serial in
    short_marker ++ (ack_body ++ (be_bytes2 (crc16_x25 ack_body) ++ (0x0D ∷ 0x0A ∷ [])))

unfoldable pub build_ack : Bytes → Attempt Bytes
build_ack packet = do
  protocol_number ← if is_long packet then at 4 packet else at 3 packet
  returns (ack_of protocol_number (slice_back 6 4 packet))

pub record TerminalStatus : Type 0 where
  pub battery_level : ℕ
  pub gsm_signal : ℕ
  pub ignition_status : Bool
  pub power_cut : Bool
  pub gps_tracking : Bool
  pub charging : Bool
  pub activated : Bool

abbrev pub terminal_status : ℕ → ℕ → ℕ → TerminalStatus
terminal_status terminal_info voltage gsm_signal = record {
  battery_level = voltage;
  gsm_signal = gsm_signal;
  ignition_status = bit 1 terminal_info;
  power_cut = bit 7 terminal_info;
  gps_tracking = bit 6 terminal_info;
  charging = bit 2 terminal_info;
  activated = bit 0 terminal_info;
}

unfoldable pub parse_terminal_status : Bytes → Attempt TerminalStatus
parse_terminal_status packet = do
  terminal_info ← at 4 packet
  voltage ← at 5 packet
  gsm_signal ← at 6 packet
  returns (terminal_status terminal_info voltage gsm_signal)

pub record Alarm : Type 0 where
  pub location : Location
  pub course_status : ℕ
  pub mcc : ℕ
  pub mnc : ℕ
  pub lac : ℕ
  pub cell_id : ℕ
  pub terminal_info : ℕ
  pub status : TerminalStatus
  pub alarm_type : ℕ
  pub english : Bool

unfoldable pub parse_alarm_packet : Bytes → Attempt Alarm
unfolding parse_gps
parse_alarm_packet packet = do
  block ← parse_gps packet
  let mcc = be_value (slice 22 24 packet)
  mnc ← at 24 packet
  let lac = be_value (slice 25 27 packet)
  let cell_id = be_value (slice 27 30 packet)
  terminal_info ← at 30 packet
  battery_level ← at 31 packet
  gsm_signal ← at 32 packet
  alarm_language ← at 33 packet
  returns (record {
    location = block.0;
    course_status = block.1;
    mcc = mcc;
    mnc = mnc;
    lac = lac;
    cell_id = cell_id;
    terminal_info = terminal_info;
    status = terminal_status terminal_info battery_level gsm_signal;
    alarm_type = alarm_language / 16;
    english = bit 0 alarm_language;
  })

pub record Information : Type 0 where
  pub is_ascii : Bool
  pub raw : Bytes
  pub text : Text
  pub values : Dict Text Text

-- packet[5:-6] of a long packet, packet[4:-6] of a short one
unfoldable pub payload_of : Bytes → Bytes
payload_of packet =
    let end = length packet - 6 in if is_long packet then slice 5 end packet else slice 4 end packet

-- key, value = item.split("=", 1); values[key.strip()] = value.strip()
abbrev pub put_item : Text → Option ℕ → Dict Text Text → Dict Text Text
put_item item none values = values
put_item item (some i) values =
    put (strip is_space (take i item)) (strip is_space (drop (i + 1) item)) values

abbrev pub put_items : List Text → Dict Text Text → Dict Text Text
put_items [] values = values
put_items (item ∷ items) values = put_items items (put_item item (find b'=' item) values)

abbrev pub is_printable : ℕ → Bool
is_printable c = leb 32 c && leb c 126

unfoldable pub parse_information_packet : Bytes → Information
unfolding payload_of put
parse_information_packet packet =
    let payload = payload_of packet in
    let text = strip (λ c. c == 0) payload in
    if all_of (λ c. ltb c 128) payload && all_of is_printable text
    then record {
      is_ascii = true;
      raw = payload;
      text = text;
      values = put_items (split_on b';' text) [];
    }
    else record { is_ascii = false; raw = payload; text = []; values = [] }

abbrev pub hex_upper : ℕ → ℕ
hex_upper d = if ltb d 10 then b'0' + d else b'A' + (d - 10)

-- The names of the alarm types 0 to 14.
abbrev alarms : List Text
alarms =
    codes "NORMAL"
    ∷ codes "SOS"
    ∷ codes "POWER_CUT"
    ∷ codes "SHOCK"
    ∷ codes "FENCE_IN"
    ∷ codes "FENCE_OUT"
    ∷ codes "OVERSPEED"
    ∷ codes "LOW_BATTERY"
    ∷ codes "VIBRATION"
    ∷ codes "MOVE"
    ∷ codes "ACC_ON"
    ∷ codes "ACC_OFF"
    ∷ codes "TOW"
    ∷ codes "GPS_ANTENNA"
    ∷ codes "EXTERNAL_POWER"
    ∷ []

abbrev name_or : Option Text → ℕ → Text
name_or none t = codes "UNKNOWN (0x" ++ (hex_upper (t / 16) ∷ hex_upper (t % 16) ∷ codes ")")
name_or (some name) t = name

-- The alarm type is a nibble, and so has two hexadecimal digits at most.
unfoldable pub get_alarm_name : ℕ → Text
get_alarm_name alarm_type = name_or (get_elem? alarms alarm_type) alarm_type
