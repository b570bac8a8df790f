-- ===== src/Checksum.antt =====
-- The checksums: `crc16_x25` of parsers/v5_parser.py and `crc16_ibm` of parsers/teltonika_parser.py.
-- Both shift right through a reflected polynomial, so one loop serves.
pub mod Xor
pub mod Detects
use shalotrack_gateway.Shared.{ℕ, zero, suc, ◌/◌, ◌%◌, List, [], ◌∷◌, bit_xor, ◌==◌, if◌then◌else◌}
use shalotrack_gateway.Shared.Bytes.{Bytes}

-- crc = (crc >> 1) ^ poly if crc & 1 else crc >> 1
unfoldable pub shift : ℕ → ℕ → ℕ
shift poly crc = if crc % 2 == 1 then bit_xor (crc / 2) poly else crc / 2

unfoldable pub shifts : ℕ → ℕ → ℕ → ℕ
unfolding shift
shifts poly zero crc = crc
shifts poly (suc n) crc = shifts poly n (shift poly crc)

-- for byte in data: crc ^= byte; eight shifts
unfoldable pub crc_from : ℕ → ℕ → Bytes → ℕ
unfolding shifts
crc_from poly crc [] = crc
crc_from poly crc (b ∷ bs) = crc_from poly (shifts poly 8 (bit_xor crc b)) bs

-- `crc & 0xFFFF` is the remainder modulo 2 ^ 16.
unfoldable pub crc16_x25 : Bytes → ℕ
unfolding crc_from
crc16_x25 bytes = bit_xor (crc_from 0x8408 0xFFFF bytes) 0xFFFF % 65536

unfoldable pub crc16_ibm : Bytes → ℕ
unfolding crc_from
crc16_ibm bytes = crc_from 0xA001 0 bytes
