-- ===== src/Parsers/Teltonika/Reader.antt =====
-- `_Reader` of parsers/teltonika_parser.py: a bounds-checked sequential reader, as a parser whose
-- state is the bytes that are left, and the exceptions of the module.
use shalotrack_gateway.Shared.{ℕ, ◌*◌, ◌^◌, ◌-◌, Bool, length, take, drop, ltb, if◌then◌else◌}
use shalotrack_gateway.Shared.Bytes.{Bytes, be_value}
use shalotrack_gateway.Shared.Int.{ℤ, signed}

-- TeltonikaParseError with its two subclasses, and the UnicodeDecodeError that parse_login lets
-- through
pub data Error : Type 0 where
  parse_error crc_error : Error
  unicode_error : Error
  unsupported_codec : ℕ → Error

pub data Result (A : Type 0) : Type 0 where
  ok : A → Result A
  err : Error → Result A

-- The state is data[pos:].
abbrev pub Reading : Type 0 → Type 0
Reading A = Bytes → Result (A × Bytes)

abbrev pub follow : {A B : Type 0} → Result (A × Bytes) → (A → Reading B) → Result (B × Bytes)
follow (ok (a, rest)) f = f a rest
follow (err e) f = err e

infixl 5 ◌>>=◌ ◌>>◌
abbrev pub ◌>>=◌ : {A B : Type 0} → Reading A → (A → Reading B) → Reading B
◌>>=◌ m f bs = follow (m bs) f

abbrev pub ◌>>◌ : {A B : Type 0} → Reading A → Reading B → Reading B
m >> k = m >>= λ _. k

unfoldable pub give : {A : Type 0} → A → Reading A
give a bs = ok (a, bs)

unfoldable pub check : Bool → Reading Unit
check test bs = if test then ok (tt, bs) else err parse_error

unfoldable pub take_bytes : ℕ → Reading Bytes
take_bytes n bs = if ltb (length bs) n then err parse_error else ok (take n bs, drop n bs)

unfoldable pub uint : ℕ → Reading ℕ
unfolding take_bytes give
uint n = do chunk ← take_bytes n; give (be_value chunk)

-- int.from_bytes(..., signed=True) of n bytes
unfoldable pub sint : ℕ → Reading ℤ
unfolding take_bytes give
sint n = do chunk ← take_bytes n; give (signed (2 ^ (8 * n - 1)) (be_value chunk))
