-- ===== src/Parsers/Replies.antt =====
-- parsers/command_response_parser.py: the text that a GT06 device answers to a command with. What
-- datetime.strptime reads, and prints again, is a parameter.
pub mod Clean
use shalotrack_gateway.Shared.{
  ℕ, zero, suc, ◌+◌, ◌-◌, ◌^◌, Bool, true, false, not, ◌&&◌, ◌||◌, Option, none, some, List, [],
  ◌∷◌, ◌++◌, length, take, drop, ltb, leb, ◌==◌, if◌then◌else◌,
}
use shalotrack_gateway.Shared.Bytes.{Bytes, starts_with, slice}
use shalotrack_gateway.Shared.Text.{
  Text, codes, strip, is_space, is_digit, all_of, split_on, find, contains, lower, decimal,
}
use shalotrack_gateway.Shared.Int.{ℤ, pos, neg}
use shalotrack_gateway.Shared.Dict.{Dict, get, put, text_key}
use shalotrack_gateway.Shared.Attempt.{Attempt, returns, raises, ◌>>=◌}
use shalotrack_gateway.World.{Decimal}
use shalotrack_gateway.Parsers.V5.{is_long, payload_of}

-- latitude, longitude, course, speed and timestamp of a position reply
pub record Whereabouts : Type 0 where
  pub latitude : Option Decimal
  pub longitude : Option Decimal
  pub course : Option ℕ
  pub speed : Option ℕ
  pub timestamp : Option Text

-- The command that was answered, with its data.
pub data Content : Type 0 where
  position : Whereabouts → Content
  status : Dict Text Text → Content
  version : Text → Content
  parameters : Dict Text Text → Content
  unrecognised : Content

pub record Reply : Type 0 where
  pub raw_text : Text
  pub content : Content

abbrev pub keep : (ℕ → Bool) → Text → Text
keep p [] = []
keep p (c ∷ cs) = let rest = keep p cs in if p c then c ∷ rest else rest

-- [\x00-\x08\x0b\x0c\x0e-\x1f]
abbrev pub is_control : ℕ → Bool
is_control c = leb c 8 || ((c == 0x0B) || ((c == 0x0C) || (leb 0x0E c && leb c 0x1F)))

-- The text of a packet, without what is not ASCII and without control characters.
unfoldable pub text_of : Bytes → Text
unfolding payload_of
text_of packet =
    let text = strip is_space (keep (λ c. ltb c 128) (payload_of packet)) in
    strip is_space (keep (λ c. not (is_control c)) text)

-- The characters that a text begins with.
abbrev pub leading : (ℕ → Bool) → Text → Text
leading p [] = []
leading p (c ∷ cs) = let rest = leading p cs in if p c then c ∷ rest else []

-- re.search: what is read behind the first mark behind which something can be read
abbrev pub or_else : {A : Type 0} → Option A → Option A → Option A
or_else none rest = rest
or_else (some a) rest = some a

unfoldable pub search : {A : Type 0} → Text → (Text → Option A) → Text → Option A
search mark read [] = none
search mark read (c ∷ cs) =
    let rest = search mark read cs in
    if starts_with mark (c ∷ cs) then or_else (read (drop (length mark) (c ∷ cs))) rest else rest

abbrev pub filled : Text → Option Text
filled [] = none
filled (c ∷ cs) = some (c ∷ cs)

abbrev pub with_letter : ℕ → Option Text → Option (ℕ × Text)
with_letter letter none = none
with_letter letter (some number) = some (letter, number)

-- ([NS])([\d.]+), of two letters
abbrev pub hemisphere_number : ℕ → ℕ → Text → Option (ℕ × Text)
hemisphere_number a b [] = none
hemisphere_number a b (c ∷ cs) =
    if (c == a) || (c == b)
    then with_letter c (filled (leading (λ d. is_digit d || (d == b'.')) cs))
    else none

abbrev pub split_number : Text → Option ℕ → Text × Text
split_number text none = (text, [])
split_number text (some i) = (take i text, drop (i + 1) text)

abbrev pub decimal_of : Text × Text → Attempt Decimal
decimal_of (whole, fraction) =
    if all_of is_digit (whole ++ fraction) && ltb 0 (length (whole ++ fraction))
    then returns (record { num = pos (decimal (whole ++ fraction)); scale = 10 ^ length fraction })
    else raises

-- float() of digits and dots
unfoldable pub float_of : Text → Attempt Decimal
float_of text = decimal_of (split_number text (find b'.' text))

abbrev pub signed : ℕ → ℕ → Decimal → Decimal
signed negative letter value =
    if letter == negative then record value { num = neg value.num } else value

abbrev pub coordinate : ℕ → Option (ℕ × Text) → Attempt (Option Decimal)
coordinate negative none = returns none
coordinate negative (some (letter, number)) = do
  value ← float_of number
  returns (some (signed negative letter value))

abbrev pub integer : Option Text → Option ℕ
integer none = none
integer (some digits) = some (decimal digits)

abbrev pub replaced : ℕ → ℕ → Text → Text
replaced old new [] = []
replaced old new (c ∷ cs) = (if c == old then new else c) ∷ replaced old new cs

-- re.split(r'[;\n]', text)
abbrev pub split_parts : Text → List Text
split_parts text = split_on b';' (replaced 10 b';' text)

-- text.splitlines(), of a text whose line breaks are \n and \r, with an empty line between two of them
abbrev pub split_lines : Text → List Text
split_lines text = split_on 10 (replaced 13 10 text)

abbrev pub put_pair : Text → Option ℕ → Dict Text Text → Dict Text Text
put_pair part none values = values
put_pair part (some i) values =
    put (strip is_space (take i part)) (strip is_space (drop (i + 1) part)) values

-- key, _, value = part.partition(":"), of the parts that have a colon
abbrev pub put_pairs : List Text → Dict Text Text → Dict Text Text
put_pairs [] values = values
put_pairs (part ∷ parts) values = put_pairs parts (put_pair part (find b':' part) values)

-- text.replace(mark, ""), with the characters of a mark that are still to be dropped
abbrev pub erase : Text → ℕ → Text → Text
erase mark skip [] = []
erase mark zero (c ∷ cs) =
    let dropped = erase mark (length mark - 1) cs in
    let kept = c ∷ erase mark 0 cs in if starts_with mark (c ∷ cs) then dropped else kept
erase mark (suc skip) (c ∷ cs) = erase mark skip cs

abbrev pub is_status : Text → Bool
is_status text =
    contains (codes "[STATUS]") text
    || (contains (codes "Volt:") text
        || (contains (codes "GPRS:") text || contains (codes "Battery:") text))

abbrev pub is_position : Text → Bool
is_position text = contains (codes "position!") (lower text)

abbrev pub content_of : Text → Content
content_of text =
    if is_status text
    then status (put_pairs (split_parts text) [])
    else if contains (codes "[VERSION]") text
    then version (strip is_space (erase (codes "[VERSION]") 0 text))
    else if contains (codes "[PARAM]") text
    then parameters (put_pairs (split_lines text) [])
    else unrecognised

-- What handle_command_response stores of a reply: its text.
abbrev pub stored : Attempt Reply → Attempt Bytes
stored raises = raises
stored (returns reply) = returns reply.raw_text

module _ (strptime : Text → Option Text) where
  abbrev pub timestamp_of : Option Text → Option Text
  timestamp_of none = none
  timestamp_of (some text) = strptime (strip is_space text)

  abbrev pub whereabouts : Text → Attempt Whereabouts
  whereabouts text = do
    latitude ← coordinate b'S' (search (codes "Lat:") (hemisphere_number b'N' b'S') text)
    longitude ← coordinate b'W' (search (codes "Lon:") (hemisphere_number b'E' b'W') text)
    returns (record {
      latitude = latitude;
      longitude = longitude;
      course = integer (search (codes "Course:") (λ rest. filled (leading is_digit rest)) text);
      speed = integer (search (codes "Speed:") (λ rest. filled (leading is_digit rest)) text);
      timestamp =
          timestamp_of
            (search (codes "DateTime:") (λ rest. filled (leading (λ c. not (c == 10)) rest)) text);
    })

  abbrev pub reply_to : Text → Attempt Reply
  reply_to text =
      if is_position text
      then (whereabouts text >>= λ found.
          returns (record { raw_text = text; content = position found }))
      else returns (record { raw_text = text; content = content_of text })

  unfoldable pub parse_command_response : Bytes → Attempt Reply
  unfolding text_of search float_of put
  parse_command_response packet = reply_to (text_of packet)
