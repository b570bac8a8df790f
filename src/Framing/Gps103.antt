-- ===== src/Framing/Gps103.antt =====
-- parsers/gps103_parser.py `extract_messages`: the framer of the GPS103 family, whose messages end
-- with a semicolon.
use shalotrack_gateway.Shared.{
  ℕ, ◌+◌, ◌<◌, ◌≡◌, refl, ap, ◌∙◌, sym, ◌⊎◌, inl, inr, none, some, List, [], ◌∷◌, ◌++◌, arith,
  length, length-drop, take, drop, ltb, if◌then◌else◌, Option-cases, take-append, drop-append,
}
use shalotrack_gateway.Shared.Bytes.{Bytes}
use shalotrack_gateway.Shared.Text.{strip, is_byte_space, find, find-lt, find-append}
use shalotrack_gateway.Framing.Splitter.{
  Turn, wait, emit, skip, Outcome, done, raised, Shrinks, extend, prefixed, extract, Framer,
}
use shalotrack_gateway.Framing.Chunks.{extract-append, feed}

-- FrameOverflowError
pub data Overflow : Type 0 where
  overflow : ℕ → Overflow

-- if raw: messages.append(raw)
abbrev pub append_message : Bytes → Bytes → Turn Overflow
append_message [] rest = skip rest
append_message (c ∷ cs) rest = emit (c ∷ cs) rest

unfoldable pub message_turn : Bytes → Turn Overflow
message_turn buffer = elim (find b';' buffer) [
  | none ↦ wait
  | some idx ↦ append_message (strip is_byte_space (take idx buffer)) (drop (idx + 1) buffer)
]

append_message-Shrinks :
    (n : ℕ) (raw rest : Bytes) → length rest < n → Shrinks n (append_message raw rest)
append_message-Shrinks n [] rest h = h
append_message-Shrinks n (c ∷ cs) rest h = h

append_message_extends :
    (raw rest more : Bytes)
    → append_message raw (rest ++ more) ≡ extend (append_message raw rest) more
append_message_extends [] rest more = refl
append_message_extends (c ∷ cs) rest more = refl

message_turn-some :
    (b : Bytes) (i : ℕ)
    → find b';' b ≡ some i
    → message_turn b ≡ append_message (strip is_byte_space (take i b)) (drop (i + 1) b)
unfolding message_turn
message_turn-some b i e = rw (e, message_turn)

message_turn-none : (b : Bytes) → find b';' b ≡ none → message_turn b ≡ wait
unfolding message_turn
message_turn-none b e = rw (e, message_turn)

pub message_turn-Shrinks : (b : Bytes) → Shrinks (length b) (message_turn b)
message_turn-Shrinks b = elim (Option-cases (find b';' b)) [
  | inl e ↦ rw (message_turn-none b e) tt
  | inr (i, e) ↦
      rw (message_turn-some b i e)
        (append_message-Shrinks _ _ _ (omega (arith, length-drop (i + 1) b, find-lt b';' b i e)))
]

pub message_turn_extends :
    (a b : Bytes) → (message_turn a ≡ wait) ⊎ (message_turn (a ++ b) ≡ extend (message_turn a) b)
message_turn_extends a b = elim (Option-cases (find b';' a)) [
  | inl e ↦ inl (message_turn-none a e)
  | inr (i, e) ↦
      let lt = find-lt b';' a i e in
      inr (
        message_turn-some (a ++ b) i (find-append b';' a b i e)
        ∙ (λ j.
            append_message (strip is_byte_space (take-append i a b (omega arith) j))
              (drop-append (i + 1) a b (omega arith) j))
        ∙ append_message_extends _ _ b
        ∙ ap (λ t. extend t b) (sym (message_turn-some a i e)))
]

abbrev pub gps103_framer : Framer Overflow
gps103_framer = record {
  turn = message_turn;
  shrinks = message_turn-Shrinks;
  extends = message_turn_extends;
}

-- The check behind the loop; `max_unframed` is config.GPS103_MAX_UNFRAMED_BYTES.
abbrev pub bounded : ℕ → Outcome Overflow → Outcome Overflow
bounded max_unframed (done messages rest) =
    if ltb max_unframed (length rest) then raised (overflow (length rest)) else done messages rest
bounded max_unframed (raised e) = raised e

unfoldable pub extract_messages : ℕ → Bytes → Outcome Overflow
extract_messages max_unframed buffer = bounded max_unframed (extract message_turn buffer)

bounded-prefixed :
    (n : ℕ) (ms : List Bytes) (o : Outcome Overflow)
    → bounded n (prefixed ms o) ≡ prefixed ms (bounded n o)
bounded-prefixed n ms (done fs r) = ground arith
bounded-prefixed n ms (raised e) = refl

bounded-done :
    (n : ℕ) (o : Outcome Overflow) (ms : List Bytes) (r : Bytes)
    → bounded n o ≡ done ms r
    → o ≡ done ms r
bounded-done n (done fs s) ms r h = ground arith
bounded-done n (raised e) ms r h = cc

-- Where the first bytes split without overflow, the messages of a longer stream are theirs and
-- those that the remaining buffer gives with the bytes that follow.
pub extract_messages-append :
    (max_unframed : ℕ) (a b : Bytes) (messages : List Bytes) (rest : Bytes)
    → extract_messages max_unframed a ≡ done messages rest
    → extract_messages max_unframed (a ++ b)
      ≡ prefixed messages (extract_messages max_unframed (rest ++ b))
unfolding extract_messages
extract_messages-append n a b ms rest h =
    ap (bounded n) (extract-append gps103_framer a b)
    ∙ ap (λ o. bounded n (feed (extract message_turn) b o)) (bounded-done n _ ms rest h)
    ∙ bounded-prefixed n ms (extract message_turn (rest ++ b))
