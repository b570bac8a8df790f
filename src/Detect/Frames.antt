-- ===== src/Detect/Frames.antt =====
-- `detect_protocol` of protocols/detect.py on connections that open with a frame.
use shalotrack_gateway.Shared.{
  ℕ, ◌≤◌, ◌≡◌, refl, ap, true, none, some, List, [], ◌∷◌, ◌++◌, arith, length, take, if◌then◌else◌,
}
use shalotrack_gateway.Shared.Bytes.{Bytes, starts_with, bytes_eq}
use shalotrack_gateway.Registry.{Family, gt06}
use shalotrack_gateway.Framing.Gt06.{short_marker, long_marker}
use shalotrack_gateway.Framing.Streams.{IsPacket, short, long}
use shalotrack_gateway.Detect.{sniff, detect_protocol, is_enabled, if_enabled}

marked :
    (m rest : Bytes) (x y : ℕ)
    → starts_with (x ∷ y ∷ []) m ≡ true
    → bytes_eq (take 2 (m ++ rest)) (x ∷ y ∷ []) ≡ true
marked [] rest x y h = cc
marked (a ∷ []) rest x y h = ground arith
marked (a ∷ b ∷ m) rest x y h = ground arith

sniff-short :
    (m rest : Bytes)
    → bytes_eq (take 2 (m ++ rest)) short_marker ≡ true
    → 5 ≤ length m
    → sniff (m ++ rest) ≡ some gt06
unfolding sniff
sniff-short [] rest h k = absurd (omega arith)
sniff-short (a ∷ m) rest h k = rw h refl

sniff-long :
    (m rest : Bytes)
    → bytes_eq (take 2 (m ++ rest)) long_marker ≡ true
    → 5 ≤ length m
    → sniff (m ++ rest) ≡ some gt06
unfolding sniff
sniff-long [] rest h k = absurd (omega arith)
sniff-long (a ∷ m) rest h k = rw h (ground arith)

-- A connection that opens with a GT06 packet is a GT06 connection, whatever follows the packet, if
-- the family is enabled; and it is of no family if it is not.
pub detect_protocol-IsPacket :
    (enabled : List Family) (m rest : Bytes)
    → IsPacket m
    → detect_protocol enabled (m ++ rest) ≡ (if is_enabled gt06 enabled then some gt06 else none)
unfolding detect_protocol
detect_protocol-IsPacket enabled m rest (short h s e) =
    ap (if_enabled enabled) (sniff-short m rest (marked m rest 0x78 0x78 s) h)
detect_protocol-IsPacket enabled m rest (long h s l e) =
    ap (if_enabled enabled) (sniff-long m rest (marked m rest 0x79 0x79 l) (omega arith))
