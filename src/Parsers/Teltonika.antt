-- ===== src/Parsers/Teltonika.antt =====
-- parsers/teltonika_parser.py: login frames and AVL data packets, Codec 8 and Codec 8 Extended.
-- A coordinate is kept in units of 1e-7 degree, and a time in milliseconds since the epoch.
pub mod Reader
use shalotrack_gateway.Shared.{
  ℕ, zero, suc, ◌+◌, ◌-◌, ◌≡◌, Bool, true, false, not, ◌&&◌, ◌||◌, Option, none, some, List, [],
  ◌∷◌, ◌++◌, length, get_or, take, drop, ltb, ◌==◌, if◌then◌else◌,
}
use shalotrack_gateway.Shared.Bytes.{Bytes, slice, starts_with, be_value, be_bytes4}
use shalotrack_gateway.Shared.Int.{ℤ, pos, signed}
use shalotrack_gateway.Shared.Text.{Text, all_of}
use shalotrack_gateway.Shared.Dict.{Dict, get, put, nat_key}
use shalotrack_gateway.Checksum.{crc16_ibm}
use shalotrack_gateway.Framing.Teltonika.{is_login_frame, all_digits, preamble}
use Reader.{
  Error, parse_error, crc_error, unicode_error, unsupported_codec, Result, ok, err, ◌>>=◌, ◌>>◌,
  Reading, take_bytes, uint, sint, check, give,
}

abbrev pub codec_8 : ℕ
codec_8 = 0x08

abbrev pub codec_8e : ℕ
codec_8e = 0x8E

abbrev pub login_accept : Bytes
login_accept = 1 ∷ []

abbrev pub io_ignition : ℕ
io_ignition = 239

abbrev pub io_movement : ℕ
io_movement = 240

-- An IO value: a number, or the bytes of Codec 8E's variable-length group.
pub data IoValue : Type 0 where
  number : ℕ → IoValue
  raw : Bytes → IoValue

pub record AvlRecord : Type 0 where
  pub timestamp : ℕ
  pub priority : ℕ
  pub latitude : ℤ
  pub longitude : ℤ
  pub altitude : ℤ
  pub angle : ℕ
  pub satellites : ℕ
  pub speed : ℕ
  pub event_io_id : ℕ
  pub io : Dict ℕ IoValue

pub record AvlPacket : Type 0 where
  pub codec : ℕ
  pub records : List AvlRecord

abbrev is_zero : ℤ → Bool
is_zero (ℤ.pos n) = n == 0
is_zero (ℤ.negsuc n) = false

unfoldable pub has_fix : AvlRecord → Bool
has_fix rec = ltb 0 rec.satellites && not (is_zero rec.latitude && is_zero rec.longitude)

abbrev pub flag_of : Option IoValue → Option Bool
flag_of none = none
flag_of (some (raw b)) = none
flag_of (some (number n)) = some (not (n == 0))

unfoldable pub flag : AvlRecord → ℕ → Option Bool
flag rec io_id = flag_of (get io_id rec.io)

unfoldable pub ignition : AvlRecord → Option Bool
unfolding flag
ignition rec = flag rec io_ignition

unfoldable pub movement : AvlRecord → Option Bool
unfolding flag
movement rec = flag rec io_movement

-- `parse_login`: digits that the framer checked, or `isdigit` refuses
unfoldable pub parse_login : Bytes → Result Text
parse_login frame =
    if not (is_login_frame frame)
    then err parse_error
    else if not (all_of (λ b. ltb b 128) (drop 2 frame))
    then err unicode_error
    else if all_digits (drop 2 frame)
    then ok (drop 2 frame)
    else err parse_error

-- for _ in range(n): io_id = r.uint(id_len); io[io_id] = r.uint(value_len)
unfoldable pub read_values : ℕ → ℕ → ℕ → Dict ℕ IoValue → Reading (Dict ℕ IoValue)
unfolding uint give
read_values id_len value_len zero io = give io
read_values id_len value_len (suc n) io = do
  io_id ← uint id_len
  value ← uint value_len
  read_values id_len value_len n (put io_id (number value) io)

-- The groups of 1, 2, 4 and 8 byte values, each behind its count.
unfoldable pub read_groups : ℕ → List ℕ → Dict ℕ IoValue → Reading (Dict ℕ IoValue)
unfolding read_values uint give
read_groups id_len [] io = give io
read_groups id_len (value_len ∷ lens) io = do
  count ← uint id_len
  io' ← read_values id_len value_len count io
  read_groups id_len lens io'

-- Codec 8E: for _ in range(n): io_id = r.uint(2); length = r.uint(2); io[io_id] = r.take(length)
unfoldable pub read_variable : ℕ → Dict ℕ IoValue → Reading (Dict ℕ IoValue)
unfolding uint take_bytes give
read_variable zero io = give io
read_variable (suc n) io = do
  io_id ← uint 2
  size ← uint 2
  chunk ← take_bytes size
  read_variable n (put io_id (raw chunk) io)

unfoldable pub read_io : Bool → Reading (ℕ × Dict ℕ IoValue)
unfolding read_groups read_variable uint give
read_io extended = do
  let id_len : ℕ = if extended then 2 else 1
  event_io_id ← uint id_len
  uint id_len
  io ← read_groups id_len (1 ∷ 2 ∷ 4 ∷ 8 ∷ []) []
  io' ← if extended then (do n ← uint 2; read_variable n io) else give io
  give (event_io_id, io')

-- datetime.fromtimestamp, which refuses what lies behind the year 9999
abbrev pub max_millis : ℕ
max_millis = 253402300800000

unfoldable pub read_record : Bool → Reading AvlRecord
unfolding read_io uint sint give check
read_record extended = do
  millis ← uint 8
  check (ltb millis max_millis)
  priority ← uint 1
  longitude ← sint 4
  latitude ← sint 4
  altitude ← sint 2
  angle ← uint 2
  satellites ← uint 1
  speed ← uint 2
  io ← read_io extended
  give (record {
    timestamp = millis;
    priority = priority;
    latitude = latitude;
    longitude = longitude;
    altitude = altitude;
    angle = angle;
    satellites = satellites;
    speed = speed;
    event_io_id = io.0;
    io = io.1;
  })

-- [_read_record(r, extended) for _ in range(count)]
unfoldable pub read_records : Bool → ℕ → Reading (List AvlRecord)
unfolding read_record give
read_records extended zero = give []
read_records extended (suc n) = do
  rec ← read_record extended
  recs ← read_records extended n
  give (rec ∷ recs)

-- The data field behind its CRC check: codec, count, records, count again, and nothing more.
unfoldable pub read_packet : ℕ → Reading AvlPacket
unfolding read_records uint take_bytes check give
read_packet codec = do
  take_bytes 1
  count ← uint 1
  records ← read_records (codec == codec_8e) count
  trailing_count ← uint 1
  check (trailing_count == count)
  give (record { codec = codec; records = records })

-- if r.remaining: raise
abbrev pub at_end : {A : Type 0} → Result (A × Bytes) → Result A
at_end (ok (a, [])) = ok a
at_end (ok (a, b ∷ bs)) = err parse_error
at_end (err e) = err e

unfoldable pub parse_avl_packet : Bytes → Result AvlPacket
unfolding read_packet
parse_avl_packet frame =
    let size = be_value (slice 4 8 frame) in
    let field = slice 8 (8 + size) frame in
    let codec = get_or field 0 0 in
    if ltb (length frame) (8 + 3 + 4) || not (starts_with preamble frame)
    then err parse_error
    else if not (length frame == 8 + size + 4)
    then err parse_error
    else if not (be_value (drop (8 + size) frame) == crc16_ibm field)
    then err crc_error
    else if not (codec == codec_8 || codec == codec_8e)
    then err (unsupported_codec codec)
    else at_end (read_packet codec field)

unfoldable pub ack : ℕ → Bytes
ack records_accepted = be_bytes4 records_accepted
