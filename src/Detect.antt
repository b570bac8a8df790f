-- ===== src/Detect.antt =====
-- protocols/detect.py: the device family of a connection, from its first bytes.
pub mod Frames
use shalotrack_gateway.Shared.{
  ℕ, Bool, true, false, ◌&&◌, ◌||◌, Option, none, some, List, [], ◌∷◌, take, if◌then◌else◌,
}
use shalotrack_gateway.Shared.Bytes.{Bytes, bytes_eq, slice, starts_with}
use shalotrack_gateway.Shared.Text.{codes}
use shalotrack_gateway.Registry.{Family, gt06, gps103, teltonika}
use shalotrack_gateway.Framing.Gt06.{short_marker, long_marker}
use shalotrack_gateway.Framing.Teltonika.{login_prefix, all_digits}

unfoldable pub sniff : Bytes → Option Family
sniff [] = none
sniff (b ∷ bs) =
    let first_bytes = b ∷ bs in
    let head = take 2 first_bytes in
    if bytes_eq head short_marker || bytes_eq head long_marker
    then some gt06
    else if starts_with (codes "##") first_bytes || starts_with (codes "imei:") first_bytes
    then some gps103
    else if bytes_eq head login_prefix && all_digits (slice 2 17 first_bytes)
    then some teltonika
    else none

abbrev same_family : Family → Family → Bool
same_family gt06 gt06 = true
same_family gps103 gps103 = true
same_family teltonika teltonika = true
same_family _ _ = false

abbrev pub is_enabled : Family → List Family → Bool
is_enabled family [] = false
is_enabled family (f ∷ fs) = same_family family f || is_enabled family fs

abbrev if_enabled : List Family → Option Family → Option Family
if_enabled allowed none = none
if_enabled allowed (some family) = if is_enabled family allowed then some family else none

unfoldable pub detect_protocol : List Family → Bytes → Option Family
unfolding sniff
detect_protocol enabled first_bytes = if_enabled enabled (sniff first_bytes)
