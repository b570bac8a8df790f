-- ===== src/Commands/Builder.antt =====
-- utils/command_builder.py: the commands that the gateway sends to GT06 devices. The state of the
-- builder is its `_serial`.
use shalotrack_gateway.Shared.{ℕ, ◌+◌, Bool, false, [], ◌∷◌, ◌++◌, ltb, length, if◌then◌else◌}
use shalotrack_gateway.Shared.Bytes.{Bytes, be_bytes2}
use shalotrack_gateway.Shared.Text.{Text, all_of, codes}
use shalotrack_gateway.Shared.Attempt.{Attempt, returns, raises}
use shalotrack_gateway.Checksum.{crc16_x25}
use shalotrack_gateway.Framing.Gt06.{short_marker}

abbrev pub server_flag : Bytes
server_flag = 0 ∷ 0 ∷ 0 ∷ 1 ∷ []

abbrev pub language : Bytes
language = 0 ∷ 2 ∷ []

unfoldable pub next_serial : ℕ → ℕ × ℕ
next_serial serial = (serial, serial + 1)

-- The body, from the command and the serial number's bytes.
abbrev pub body_of : Text → Bytes → Bytes
body_of command serial =
    0x80
    ∷ (length server_flag + length command)
    ∷ (server_flag ++ (command ++ (language ++ serial)))

-- The packet around a body; its length byte counts the body and the checksum.
abbrev pub packet_of : Bytes → Bytes
packet_of body =
    let counted = (length body + 2) ∷ body in
    short_marker ++ (counted ++ (be_bytes2 (crc16_x25 counted) ++ (0x0D ∷ 0x0A ∷ [])))

-- A length byte, a serial number of two bytes and ASCII text, each of which raises if it cannot be.
abbrev pub framed : Bool → Bytes → Attempt Bytes
framed fits body = if fits then returns (packet_of body) else raises

abbrev pub encodes : Text → ℕ → Bool
encodes command serial =
    let body = body_of command (be_bytes2 serial) in
    if ltb serial 65536
    then (if all_of (λ c. ltb c 128) command then ltb (length body + 2) 256 else false)
    else false

-- build_command(command), and the serial number that the next one takes
unfoldable pub build_command : Text → ℕ → Attempt Bytes × ℕ
unfolding next_serial
build_command command state =
    let (serial, state') = next_serial state in
    (framed (encodes command serial) (body_of command (be_bytes2 serial)), state')

-- The commands without arguments. RELAY,1 cuts the engine, RELAY,0 gives it back.
abbrev pub build_where : ℕ → Attempt Bytes × ℕ
build_where = build_command (codes "WHERE#")

abbrev pub build_status : ℕ → Attempt Bytes × ℕ
build_status = build_command (codes "STATUS#")

abbrev pub build_version : ℕ → Attempt Bytes × ℕ
build_version = build_command (codes "VERSION#")

abbrev pub build_imei : ℕ → Attempt Bytes × ℕ
build_imei = build_command (codes "IMEI#")

abbrev pub build_params : ℕ → Attempt Bytes × ℕ
build_params = build_command (codes "PARAM#")

abbrev pub build_gprsset : ℕ → Attempt Bytes × ℕ
build_gprsset = build_command (codes "GPRSSET#")

abbrev pub build_url : ℕ → Attempt Bytes × ℕ
build_url = build_command (codes "URL#")

abbrev pub build_position : ℕ → Attempt Bytes × ℕ
build_position = build_command (codes "POSITION#")

abbrev pub build_fence_query : ℕ → Attempt Bytes × ℕ
build_fence_query = build_command (codes "FENCE#")

abbrev pub build_moving_query : ℕ → Attempt Bytes × ℕ
build_moving_query = build_command (codes "MOVING#")

abbrev pub build_speed_query : ℕ → Attempt Bytes × ℕ
build_speed_query = build_command (codes "SPEED#")

abbrev pub build_sos_query : ℕ → Attempt Bytes × ℕ
build_sos_query = build_command (codes "SOS#")

abbrev pub build_timer_query : ℕ → Attempt Bytes × ℕ
build_timer_query = build_command (codes "TIMER#")

abbrev pub build_apn_query : ℕ → Attempt Bytes × ℕ
build_apn_query = build_command (codes "APN#")

abbrev pub build_server_query : ℕ → Attempt Bytes × ℕ
build_server_query = build_command (codes "SERVER#")

abbrev pub build_reset : ℕ → Attempt Bytes × ℕ
build_reset = build_command (codes "RESET#")

abbrev pub build_relay_on : ℕ → Attempt Bytes × ℕ
build_relay_on = build_command (codes "RELAY,0#")

abbrev pub build_relay_off : ℕ → Attempt Bytes × ℕ
build_relay_off = build_command (codes "RELAY,1#")

abbrev pub build_sos_delete : ℕ → Attempt Bytes × ℕ
build_sos_delete = build_command (codes "SOS,D#")
