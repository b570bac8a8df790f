-- ===== src/Framing/Splitter.antt =====
-- The loop that utils/packet_buffer.py `extract_packets`, parsers/gps103_parser.py
-- `extract_messages` and parsers/teltonika_parser.py `extract_frames` share: look at the front of
-- the buffer, and take a frame, drop bytes, wait for more data, or give up.
use shalotrack_gateway.Shared.{
  ℕ, zero, suc, ◌<◌, ◌≡◌, refl, ◌⊎◌, List, [], ◌∷◌, ◌++◌, arith, length,
}
use shalotrack_gateway.Shared.Bytes.{Bytes}

-- What one turn of the loop does.
pub data Turn (E : Type 0) : Type 0 where
  wait : Turn E
  emit : Bytes → Bytes → Turn E
  skip : Bytes → Turn E
  fail : E → Turn E

-- (frames, remaining_buffer), or the exception raised
pub data Outcome (E : Type 0) : Type 0 where
  done : List Bytes → Bytes → Outcome E
  raised : E → Outcome E

module _ {E : Type 0} where
  abbrev pub resume : (List Bytes → Bytes → Outcome E) → List Bytes → Bytes → Turn E → Outcome E
  resume next frames buffer wait = done frames buffer
  resume next frames buffer (emit frame rest) = next (frames ++ frame ∷ []) rest
  resume next frames buffer (skip rest) = next frames rest
  resume next frames buffer (fail e) = raised e

  -- The same turn with more bytes behind the buffer.
  abbrev pub extend : Turn E → Bytes → Turn E
  extend wait more = wait
  extend (emit frame rest) more = emit frame (rest ++ more)
  extend (skip rest) more = skip (rest ++ more)
  extend (fail e) more = fail e

  -- What a turn leaves is shorter than what it saw.
  abbrev pub Shrinks : ℕ → Turn E → Type 0
  Shrinks n wait = Unit
  Shrinks n (emit frame rest) = length rest < n
  Shrinks n (skip rest) = length rest < n
  Shrinks n (fail e) = Unit

  -- Frames that were found before go in front.
  abbrev pub prefixed : List Bytes → Outcome E → Outcome E
  prefixed frames (done more rest) = done (frames ++ more) rest
  prefixed frames (raised e) = raised e

module _ {E : Type 0} (turn : Bytes → Turn E) where
  unfoldable pub split : ℕ → List Bytes → Bytes → Outcome E
  split zero frames buffer = done frames buffer
  split (suc fuel) frames buffer = resume (split fuel) frames buffer (turn buffer)

  -- Each turn but the last takes a byte at least, so the buffer's length bounds the turns.
  unfoldable pub extract : Bytes → Outcome E
  extract buffer = split (suc (length buffer)) [] buffer

-- What a framer promises of its turn.
pub record Framer (E : Type 0) : Type 1 where
  pub turn : Bytes → Turn E
  pub shrinks : (buffer : Bytes) → Shrinks (length buffer) (turn buffer)
  pub extends :
      (buffer more : Bytes)
      → (turn buffer ≡ wait) ⊎ (turn (buffer ++ more) ≡ extend (turn buffer) more)

module _ {E : Type 0} (F : Framer E) where
  open F use {turn, shrinks, extends}

  split_fuel_resume :
      (f g : ℕ) (frames : List Bytes) (buffer : Bytes) (t : Turn E)
      → ((fs : List Bytes) (b : Bytes)
          → length b < length buffer
          → split turn f fs b ≡ split turn g fs b)
      → Shrinks (length buffer) t
      → resume (split turn f) frames buffer t ≡ resume (split turn g) frames buffer t
  split_fuel_resume f g frames buffer wait same h = refl
  split_fuel_resume f g frames buffer (emit frame rest) same h = same _ rest h
  split_fuel_resume f g frames buffer (skip rest) same h = same frames rest h
  split_fuel_resume f g frames buffer (fail e) same h = refl

  -- Beyond the length of the buffer the fuel does not matter.
  pub split_fuel :
      (f g : ℕ) (frames : List Bytes) (buffer : Bytes)
      → length buffer < f
      → length buffer < g
      → split turn f frames buffer ≡ split turn g frames buffer
  unfolding split
  split_fuel zero g frames buffer hf hg = absurd (omega arith)
  split_fuel (suc f) zero frames buffer hf hg = absurd (omega arith)
  split_fuel (suc f) (suc g) frames buffer hf hg =
      split_fuel_resume f g frames buffer (turn buffer)
        (λ fs b lt. split_fuel f g fs b (omega arith) (omega arith)) (shrinks buffer)
