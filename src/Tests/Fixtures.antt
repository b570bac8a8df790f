-- ===== src/Tests/Fixtures.antt =====
-- A small gateway: its answers from outside, its devices, and what they send.
use shalotrack_gateway.Shared.{ℕ, Bool, true, false, Option, none, some, [], ◌∷◌}
use shalotrack_gateway.Shared.Bytes.{Bytes}
use shalotrack_gateway.Shared.Text.{Text, codes}
use shalotrack_gateway.Shared.Attempt.{returns, raises}
use shalotrack_gateway.Registry.{Registry, Entry, Family, empty, new_entry}
use shalotrack_gateway.World.{World, Environment, RawMode, Registered}
use shalotrack_gateway.Decoders.{Numbers}

abbrev pub imei : Text
imei = codes "356307042441013"

abbrev pub other_imei : Text
other_imei = codes "356307042441021"

abbrev pub device_id : Text
device_id = codes "d1"

-- An environment that takes or refuses every statement, and knows the rows that are given.
abbrev pub answers : Bool → Option Registered → Environment
answers takes row = record {
  raw_mode = RawMode.all;
  samples = λ _. false;
  now = λ _. 1700000000000;
  monotonic = λ _. 5;
  accepts = λ _ _. takes;
  drains = λ _ _. true;
  borrows = λ _. true;
  fetch_registered = λ _ _. returns row;
  fetch_setup = λ _ _. returns none;
  insert_device = λ _ _ _. raises;
  refetch_device = λ _ _. returns none;
  fetch_vehicle = λ _ _. returns none;
}

abbrev pub active_row : Registered
active_row = record { device_id = device_id; status = some (codes "Activated") }

abbrev pub replaced_row : Registered
replaced_row = record { device_id = device_id; status = some (codes "Replaced") }

abbrev pub env : Environment
env = answers true (some active_row)

abbrev pub refusing : Environment
refusing = answers false (some active_row)

-- Numbers that read nothing.
abbrev pub no_numbers : Numbers
no_numbers = record {
  Float = ℕ;
  int_hex = λ _. raises;
  int_dec = λ _. raises;
  float_of = λ _. raises;
}

-- strptime() that reads nothing.
abbrev pub no_time : Text → Option Text
no_time text = none

abbrev pub entry : Family → Entry
entry family = new_entry (codes "10.0.0.1") device_id 7 family 0

-- One device on socket 7.
abbrev pub registry : Family → Registry
registry family = record {
  by_imei = (imei, entry family) ∷ [];
  by_socket = (7, imei) ∷ [];
  last_packet_at = none;
}

abbrev pub world_of : Registry → World
world_of r = record { registry = r; last_alive = []; last_ignition = []; log = [] }

abbrev pub idle : World
idle = world_of empty

abbrev pub connected : Family → World
connected family = world_of (registry family)

abbrev pub teltonika_login : Bytes
teltonika_login =
    0x00 ∷ 0x0F ∷ 0x33 ∷ 0x35 ∷ 0x36 ∷ 0x33 ∷ 0x30 ∷ 0x37 ∷ 0x30 ∷ 0x34 ∷ 0x32 ∷ 0x34 ∷ 0x34 ∷ 0x31
    ∷ 0x30 ∷ 0x31 ∷ 0x33 ∷ []

-- A Codec 8 packet with one record.
abbrev pub avl_packet : Bytes
avl_packet =
    0x00 ∷ 0x00 ∷ 0x00 ∷ 0x00 ∷ 0x00 ∷ 0x00 ∷ 0x00 ∷ 0x26 ∷ 0x08 ∷ 0x01 ∷ 0x00 ∷ 0x00 ∷ 0x01 ∷ 0x6B
    ∷ 0x40 ∷ 0xD8 ∷ 0xEA ∷ 0x30 ∷ 0x01 ∷ 0x2F ∷ 0x99 ∷ 0xDB ∷ 0xCE ∷ 0x04 ∷ 0x20 ∷ 0xFD ∷ 0x06
    ∷ 0x00 ∷ 0x07 ∷ 0x00 ∷ 0xB4 ∷ 0x09 ∷ 0x00 ∷ 0x2A ∷ 0xEF ∷ 0x02 ∷ 0x01 ∷ 0xEF ∷ 0x01 ∷ 0x01
    ∷ 0x42 ∷ 0x31 ∷ 0x38 ∷ 0x00 ∷ 0x00 ∷ 0x01 ∷ 0x00 ∷ 0x00 ∷ 0xAB ∷ 0x5A ∷ []

-- The same with another checksum.
abbrev pub broken_packet : Bytes
broken_packet =
    0x00 ∷ 0x00 ∷ 0x00 ∷ 0x00 ∷ 0x00 ∷ 0x00 ∷ 0x00 ∷ 0x26 ∷ 0x08 ∷ 0x01 ∷ 0x00 ∷ 0x00 ∷ 0x01 ∷ 0x6B
    ∷ 0x40 ∷ 0xD8 ∷ 0xEA ∷ 0x30 ∷ 0x01 ∷ 0x2F ∷ 0x99 ∷ 0xDB ∷ 0xCE ∷ 0x04 ∷ 0x20 ∷ 0xFD ∷ 0x06
    ∷ 0x00 ∷ 0x07 ∷ 0x00 ∷ 0xB4 ∷ 0x09 ∷ 0x00 ∷ 0x2A ∷ 0xEF ∷ 0x02 ∷ 0x01 ∷ 0xEF ∷ 0x01 ∷ 0x01
    ∷ 0x42 ∷ 0x31 ∷ 0x38 ∷ 0x00 ∷ 0x00 ∷ 0x01 ∷ 0x00 ∷ 0x00 ∷ 0xAB ∷ 0x5B ∷ []

abbrev pub gt06_login : Bytes
gt06_login =
    0x78 ∷ 0x78 ∷ 0x0D ∷ 0x01 ∷ 0x03 ∷ 0x56 ∷ 0x30 ∷ 0x70 ∷ 0x42 ∷ 0x44 ∷ 0x10 ∷ 0x13 ∷ 0x00 ∷ 0x01
    ∷ 0xD4 ∷ 0xA9 ∷ 0x0D ∷ 0x0A ∷ []

abbrev pub gt06_status : Bytes
gt06_status =
    0x78 ∷ 0x78 ∷ 0x0A ∷ 0x13 ∷ 0x44 ∷ 0x01 ∷ 0x04 ∷ 0x00 ∷ 0x01 ∷ 0x00 ∷ 0x02 ∷ 0x7C ∷ 0xFA ∷ 0x0D
    ∷ 0x0A ∷ []
