-- ===== src/Framing/Gt06.antt =====
-- utils/packet_buffer.py: the framer of the GT06 family (78 78 and 79 79 packets).
use shalotrack_gateway.Shared.{
  ℕ, ◌+◌, ◌≤◌, ◌≡◌, refl, ◌∙◌, ◌⊎◌, inl, inr, Bool, true, false, [], ◌∷◌, ◌++◌, arith, length,
  length-drop, drop, ltb, if◌then◌else◌, Bool-cases, get_or, ltb-false,
}
use shalotrack_gateway.Shared.Bytes.{Bytes, slice, starts_with, be_value, starts_with-append_eq}
use shalotrack_gateway.Framing.Splitter.{
  Turn, wait, skip, Outcome, Shrinks, extend, extract, Framer,
}
use shalotrack_gateway.Framing.Pieces.{
  take_frame, take_frame-Shrinks, take_frame_extends, get_or-append, slice-append,
  length-append-ltb,
}

-- The loop raises nothing.
pub data Never : Type 0 where

abbrev pub short_marker : Bytes
short_marker = 0x78 ∷ 0x78 ∷ []

abbrev pub long_marker : Bytes
long_marker = 0x79 ∷ 0x79 ∷ []

unfoldable pub packet_turn : Bytes → Turn Never
packet_turn buffer =
    if ltb (length buffer) 5
    then wait
    else if starts_with short_marker buffer
    then take_frame (get_or buffer 2 0 + 5) buffer
    else if starts_with long_marker buffer
    then take_frame (be_value (slice 2 4 buffer) + 6) buffer
    else skip (drop 1 buffer)

unfoldable pub extract_packets : Bytes → Outcome Never
extract_packets buffer = extract packet_turn buffer

-- The turn on a buffer of five bytes or more, with its tests and sizes as arguments.
choose : Bool → Bool → ℕ → ℕ → Bytes → Turn Never
choose short long n m buffer =
    if short
    then take_frame (n + 5) buffer
    else if long
    then take_frame (m + 6) buffer
    else skip (drop 1 buffer)

choose-Shrinks :
    (s l : Bool) (n m : ℕ) (b : Bytes) → 5 ≤ length b → Shrinks (length b) (choose s l n m b)
unfolding choose
choose-Shrinks true l n m b h = take_frame-Shrinks Never (n + 5) b (omega arith)
choose-Shrinks false true n m b h = take_frame-Shrinks Never (m + 6) b (omega arith)
choose-Shrinks false false n m b h = omega (arith, length-drop 1 b)

choose_extends :
    (s l : Bool) (n m : ℕ) (a b : Bytes)
    → 5 ≤ length a
    → (choose s l n m a ≡ wait) ⊎ (choose s l n m (a ++ b) ≡ extend (choose s l n m a) b)
unfolding choose
choose_extends true l n m a b h = take_frame_extends Never (n + 5) a b
choose_extends false true n m a b h = take_frame_extends Never (m + 6) a b
choose_extends false false n m [] b h = absurd (omega arith)
choose_extends false false n m (x ∷ a) b h = inr refl

packet_turn-choose :
    (b : Bytes)
    → ltb (length b) 5 ≡ false
    → packet_turn b
      ≡ choose
          (starts_with short_marker b)
          (starts_with long_marker b)
          (get_or b 2 0)
          (be_value (slice 2 4 b))
          b
unfolding packet_turn choose
packet_turn-choose b e = rw e

packet_turn-append :
    (a b : Bytes)
    → ltb (length a) 5 ≡ false
    → packet_turn (a ++ b)
      ≡ choose
          (starts_with short_marker a)
          (starts_with long_marker a)
          (get_or a 2 0)
          (be_value (slice 2 4 a))
          (a ++ b)
packet_turn-append a b e =
    let long_enough : 5 ≤ length a = ltb-false (length a) 5 e in
    let p = starts_with-append_eq short_marker a b (omega arith) in
    let q = starts_with-append_eq long_marker a b (omega arith) in
    let r = get_or-append a b 2 0 (omega arith) in
    let s = slice-append 2 4 a b (omega arith) (omega arith) in
    packet_turn-choose (a ++ b) (length-append-ltb 5 a b e) ∙ λ i.
    choose (p i) (q i) (r i) (be_value (s i)) (a ++ b)

pub packet_turn-Shrinks : (b : Bytes) → Shrinks (length b) (packet_turn b)
packet_turn-Shrinks b = elim (Bool-cases (ltb (length b) 5)) [
  | inl e ↦ unfold packet_turn in rw e tt
  | inr e ↦ rw (packet_turn-choose b e) (choose-Shrinks _ _ _ _ b (ltb-false _ _ e))
]

pub packet_turn_extends :
    (a b : Bytes) → (packet_turn a ≡ wait) ⊎ (packet_turn (a ++ b) ≡ extend (packet_turn a) b)
packet_turn_extends a b = elim (Bool-cases (ltb (length a) 5)) [
  | inl e ↦ inl (unfold packet_turn in rw e)
  | inr e ↦
      rw (packet_turn-choose a e, packet_turn-append a b e)
        (choose_extends _ _ _ _ a b (ltb-false _ _ e))
]

abbrev pub gt06_framer : Framer Never
gt06_framer = record {
  turn = packet_turn;
  shrinks = packet_turn-Shrinks;
  extends = packet_turn_extends;
}
