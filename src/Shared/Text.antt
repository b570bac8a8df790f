-- ===== src/Shared/Text.antt =====
-- Text as the list of its character codes, literals of it, and the methods of str and bytes that
-- the parsers call.
use Prim.Native.Char.{code}
use Prim.Native.String.{String}
use Prim.Native.Nat.{ℕ, suc, ◌+◌, ◌-◌, ◌*◌, ◌<◌}
use mathlib.Core.Path.{◌≡◌}
use mathlib.Core.Bool.{Bool, true, ◌&&◌, ◌||◌}
use mathlib.Core.Option.{Option, none, some}
use mathlib.Core.List.{List, [], ◌∷◌, ◌++◌, map}
use native.Mathlib.Omega.{arith}
use shalotrack_gateway.Shared.Tests.{leb, ◌==◌, if◌then◌else◌}
use shalotrack_gateway.Shared.Lists.{length}
use shalotrack_gateway.Shared.Bytes.{starts_with}

abbrev pub Text : Type 0
Text = List ℕ

abbrev pub codes : String → Text
codes String.[] = []
codes (String.◌∷◌ c s) = code c ∷ codes s

-- What bytes.strip() takes off: tab to carriage return, and the space.
abbrev pub is_byte_space : ℕ → Bool
is_byte_space c = (leb 9 c && leb c 13) || (c == 32)

-- str.strip() on ASCII text takes off the separators 0x1c to 0x1f too.
abbrev pub is_space : ℕ → Bool
is_space c = is_byte_space c || (leb 0x1c c && leb c 0x1f)

abbrev pub is_digit : ℕ → Bool
is_digit b = leb b'0' b && leb b b'9'

abbrev pub all_of : (ℕ → Bool) → Text → Bool
all_of p [] = true
all_of p (c ∷ cs) = p c && all_of p cs

-- str.lower() and str.upper() on ASCII text
abbrev pub lower : Text → Text
lower = map (λ c. if leb b'A' c && leb c b'Z' then c + 32 else c)

abbrev pub upper : Text → Text
upper = map (λ c. if leb b'a' c && leb c b'z' then c - 32 else c)

abbrev pub lstrip : (ℕ → Bool) → Text → Text
lstrip p [] = []
lstrip p (c ∷ cs) = let rest = lstrip p cs in if p c then rest else c ∷ cs

abbrev pub keep_unless_end : (ℕ → Bool) → ℕ → Text → Text
keep_unless_end p c [] = if p c then [] else c ∷ []
keep_unless_end p c (d ∷ ds) = c ∷ d ∷ ds

abbrev pub rstrip : (ℕ → Bool) → Text → Text
rstrip p [] = []
rstrip p (c ∷ cs) = keep_unless_end p c (rstrip p cs)

abbrev pub strip : (ℕ → Bool) → Text → Text
strip p s = rstrip p (lstrip p s)

-- text.find(c) of one character: its first position
abbrev pub find : ℕ → Text → Option ℕ
find c [] = none
find c (d ∷ ds) =
    let rest = find c ds in
    if d == c then some 0 else elim rest [ none ↦ none | some i ↦ some (suc i) ]

abbrev pub cons_first : ℕ → List Text → List Text
cons_first c [] = (c ∷ []) ∷ []
cons_first c (w ∷ ws) = (c ∷ w) ∷ ws

-- text.split(sep) of one character
abbrev pub split_on : ℕ → Text → List Text
split_on sep [] = [] ∷ []
split_on sep (c ∷ cs) =
    let rest = split_on sep cs in if c == sep then [] ∷ rest else cons_first c rest

-- needle in text
abbrev pub contains : Text → Text → Bool
contains needle [] = starts_with needle []
contains needle (c ∷ cs) = starts_with needle (c ∷ cs) || contains needle cs

-- int(text) of decimal digits
abbrev pub decimal_from : ℕ → Text → ℕ
decimal_from acc [] = acc
decimal_from acc (c ∷ cs) = decimal_from (acc * 10 + (c - 48)) cs

abbrev pub decimal : Text → ℕ
decimal = decimal_from 0

pub find-lt : (c : ℕ) (a : Text) (i : ℕ) → find c a ≡ some i → i < length a
find-lt c [] i h = cc
find-lt c (d ∷ ds) i h = ground (arith, find-lt c ds (i - 1))

-- What follows the first occurrence does not move it.
pub find-append : (c : ℕ) (a b : Text) (i : ℕ) → find c a ≡ some i → find c (a ++ b) ≡ some i
find-append c [] b i h = cc
find-append c (d ∷ ds) b i h = ground (arith, find-append c ds b (i - 1))
