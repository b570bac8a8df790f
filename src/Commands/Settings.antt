-- ===== src/Commands/Settings.antt =====
-- The commands of utils/command_builder.py that take arguments. A coordinate of `build_fence_circle`
-- is given as the text that Python prints for it.
use shalotrack_gateway.Shared.{
  ℕ, zero, suc, ◌+◌, ◌/◌, ◌%◌, Bool, true, false, ◌||◌, List, [], ◌∷◌, ◌++◌, ltb, if◌then◌else◌,
}
use shalotrack_gateway.Shared.Bytes.{Bytes}
use shalotrack_gateway.Shared.Text.{Text, codes}
use shalotrack_gateway.Shared.Int.{ℤ, pos, negsuc}
use shalotrack_gateway.Shared.Attempt.{Attempt}
use shalotrack_gateway.Commands.Builder.{build_command}

abbrev digits : ℕ → ℕ → Text → Text
digits zero n text = text
digits (suc fuel) n text =
    let text' = (b'0' + n % 10) ∷ text in
    let more = digits fuel (n / 10) text' in if ltb n 10 then text' else more

-- f"{n}": a number has fewer decimal digits than its successor's value
abbrev pub decimal : ℕ → Text
decimal n = digits (suc n) n []

-- f"{n}" of an integer
abbrev pub printed : ℤ → Text
printed (pos n) = decimal n
printed (negsuc n) = b'-' ∷ decimal (suc n)

abbrev pub state_of : Bool → Text
state_of enabled = if enabled then codes "ON" else codes "OFF"

abbrev pub mode_of : Bool → Text
mode_of sms = if sms then codes "1" else codes "0"

-- ",".join(parts)
abbrev pub join : List Text → Text
join [] = []
join (part ∷ []) = part
join (part ∷ next ∷ parts) = part ++ (b',' ∷ join (next ∷ parts))

-- The parts with commas between them, and the closing hash.
abbrev pub command_of : List Text → Text
command_of parts = join parts ++ (b'#' ∷ [])

abbrev pub build_timer : ℤ → ℤ → ℕ → Attempt Bytes × ℕ
build_timer t1 t2 = build_command (command_of (codes "TIMER" ∷ printed t1 ∷ printed t2 ∷ []))

abbrev pub build_distance : ℤ → ℕ → Attempt Bytes × ℕ
build_distance meters = build_command (command_of (codes "DISTANCE" ∷ printed meters ∷ []))

abbrev pub build_speed_alarm : Bool → ℤ → ℤ → Bool → ℕ → Attempt Bytes × ℕ
build_speed_alarm enabled interval limit_kmh sms = build_command (
    command_of
      (codes "SPEED" ∷ state_of enabled ∷ printed interval ∷ printed limit_kmh ∷ mode_of sms ∷ []))

abbrev pub build_moving_alarm : Bool → ℤ → Bool → ℕ → Attempt Bytes × ℕ
build_moving_alarm enabled radius_m sms =
    build_command
      (command_of (codes "MOVING" ∷ state_of enabled ∷ printed radius_m ∷ mode_of sms ∷ []))

abbrev pub build_fence_circle : Bool → Text → Text → ℤ → Text → Bool → ℕ → Attempt Bytes × ℕ
build_fence_circle enabled lat lon radius_100m trigger sms = build_command (
    command_of (
      codes "FENCE"
      ∷ state_of enabled
      ∷ codes "0"
      ∷ lat
      ∷ lon
      ∷ printed radius_100m
      ∷ trigger
      ∷ mode_of sms
      ∷ []))

-- filter(None, [phone1, phone2, phone3])
abbrev pub non_empty : List Text → List Text
non_empty [] = []
non_empty ([] ∷ phones) = non_empty phones
non_empty ((c ∷ cs) ∷ phones) = (c ∷ cs) ∷ non_empty phones

abbrev pub build_sos_add : Text → Text → Text → ℕ → Attempt Bytes × ℕ
build_sos_add phone1 phone2 phone3 =
    build_command
      (command_of (codes "SOS" ∷ codes "A" ∷ join (non_empty (phone1 ∷ phone2 ∷ phone3 ∷ [])) ∷ []))

abbrev is_set : Text → Bool
is_set [] = false
is_set (c ∷ cs) = true

abbrev pub build_apn : Text → Text → Text → ℕ → Attempt Bytes × ℕ
build_apn apn_name user pwd =
    if is_set user || is_set pwd
    then build_command (command_of (codes "APN" ∷ apn_name ∷ user ∷ pwd ∷ []))
    else build_command (command_of (codes "APN" ∷ apn_name ∷ []))

abbrev pub build_server : Text → ℤ → Bool → Bool → ℕ → Attempt Bytes × ℕ
build_server domain_or_ip port use_domain udp = build_command (
    command_of
      (codes "SERVER" ∷ mode_of use_domain ∷ domain_or_ip ∷ printed port ∷ mode_of udp ∷ []))

abbrev pub build_batalm : Bool → Bool → ℕ → Attempt Bytes × ℕ
build_batalm enabled sms =
    build_command (command_of (codes "BATALM" ∷ state_of enabled ∷ mode_of sms ∷ []))

abbrev pub build_poweralm : Bool → Bool → ℕ → Attempt Bytes × ℕ
build_poweralm enabled sms =
    build_command (command_of (codes "POWERALM" ∷ state_of enabled ∷ mode_of sms ∷ []))
