-- ===== src/Framing/Teltonika.antt =====
-- The framing of parsers/teltonika_parser.py: login frames and AVL packets.
use shalotrack_gateway.Shared.{
  ℕ, ◌+◌, ◌≤◌, ◌≡◌, refl, ap, ◌∙◌, ◌⊎◌, inl, inr, Bool, true, false, ◌&&◌, ◌||◌, [], ◌∷◌, ◌++◌,
  arith, length, length-drop, take, drop, ltb, leb, ◌==◌, if◌then◌else◌, Bool-cases, ltb-false,
  take-append, drop-append,
}
use shalotrack_gateway.Shared.Bytes.{
  Bytes, slice, starts_with, be_value, bytes_eq, starts_with-append_eq,
}
use shalotrack_gateway.Framing.Splitter.{
  Turn, wait, emit, fail, Outcome, Shrinks, extend, extract, Framer,
}
use shalotrack_gateway.Framing.Pieces.{
  take_frame, take_frame-Shrinks, take_frame_extends, slice-append, length-append-ltb,
}

-- TeltonikaFrameError, one constructor for each place that raises it
pub data FrameError : Type 0 where
  non_numeric_imei : FrameError
  bad_length : ℕ → FrameError
  unframed : FrameError

abbrev pub login_frame_len : ℕ
login_frame_len = 17

abbrev pub preamble : Bytes
preamble = 0 ∷ 0 ∷ 0 ∷ 0 ∷ []

abbrev pub login_prefix : Bytes
login_prefix = 0x00 ∷ 0x0f ∷ []

abbrev pub is_digit : ℕ → Bool
is_digit b = leb 48 b && leb b 57

abbrev pub all_digits : Bytes → Bool
all_digits [] = true
all_digits (b ∷ bs) = is_digit b && all_digits bs

unfoldable pub is_login_frame : Bytes → Bool
is_login_frame frame = (length frame == login_frame_len) && bytes_eq (slice 0 2 frame) login_prefix

-- `max_packet_bytes` is config.TELTONIKA_MAX_PACKET_BYTES.
module _ (max_packet_bytes : ℕ) where
  unfoldable pub frame_turn : Bytes → Turn FrameError
  frame_turn buffer =
      if ltb (length buffer) 4
      then wait
      else if starts_with login_prefix buffer
      then (if ltb (length buffer) login_frame_len
          then wait
          else if all_digits (slice 2 login_frame_len buffer)
          then emit (take login_frame_len buffer) (drop login_frame_len buffer)
          else fail non_numeric_imei)
      else if starts_with preamble buffer
      then (if ltb (length buffer) 8
          then wait
          else let size = be_value (slice 4 8 buffer) in
            if (size == 0) || ltb max_packet_bytes size
            then fail (bad_length size)
            else take_frame (8 + size + 4) buffer)
      else fail unframed

  unfoldable pub extract_frames : Bytes → Outcome FrameError
  extract_frames buffer = extract frame_turn buffer

  -- The two kinds of frame, each with what it reads of the buffer as an argument.
  checked_login : Bool → Bytes → Turn FrameError
  checked_login digits buffer =
      if digits
      then emit (take login_frame_len buffer) (drop login_frame_len buffer)
      else fail non_numeric_imei

  checked_login-Shrinks :
      (d : Bool) (b : Bytes) → 17 ≤ length b → Shrinks (length b) (checked_login d b)
  unfolding checked_login
  checked_login-Shrinks true b h = omega (arith, length-drop 17 b)
  checked_login-Shrinks false b h = tt

  checked_login_extends :
      (d : Bool) (a b : Bytes)
      → 17 ≤ length a
      → checked_login d (a ++ b) ≡ extend (checked_login d a) b
  unfolding checked_login
  checked_login_extends true a b h = λ i. emit (take-append 17 a b h i) (drop-append 17 a b h i)
  checked_login_extends false a b h = refl

  sized_turn : ℕ → Bytes → Turn FrameError
  sized_turn size buffer =
      if (size == 0) || ltb max_packet_bytes size
      then fail (bad_length size)
      else take_frame (8 + size + 4) buffer

  sized_turn-Shrinks : (n : ℕ) (b : Bytes) → Shrinks (length b) (sized_turn n b)
  unfolding sized_turn
  sized_turn-Shrinks n b = elim (Bool-cases ((n == 0) || ltb max_packet_bytes n)) [
    | inl e ↦ rw e tt
    | inr e ↦ rw e (take_frame-Shrinks FrameError (8 + n + 4) b (omega arith))
  ]

  sized_turn_extends :
      (n : ℕ) (a b : Bytes)
      → (sized_turn n a ≡ wait) ⊎ (sized_turn n (a ++ b) ≡ extend (sized_turn n a) b)
  unfolding sized_turn
  sized_turn_extends n a b = elim (Bool-cases ((n == 0) || ltb max_packet_bytes n)) [
    | inl e ↦ inr (rw e)
    | inr e ↦ rw e (take_frame_extends FrameError (8 + n + 4) a b)
  ]

  -- The turn on a buffer of four bytes or more.
  choose : Bool → Bool → Bool → ℕ → Bytes → Turn FrameError
  choose login avl digits size buffer =
      if login
      then (if ltb (length buffer) 17 then wait else checked_login digits buffer)
      else if avl
      then (if ltb (length buffer) 8 then wait else sized_turn size buffer)
      else fail unframed

  choose-Shrinks : (l v d : Bool) (n : ℕ) (b : Bytes) → Shrinks (length b) (choose l v d n b)
  unfolding choose
  choose-Shrinks true v d n b = elim (Bool-cases (ltb (length b) 17)) [
    | inl e ↦ rw e tt
    | inr e ↦ rw e (checked_login-Shrinks d b (ltb-false _ _ e))
  ]
  choose-Shrinks false true d n b = elim (Bool-cases (ltb (length b) 8)) [
    | inl e ↦ rw e tt
    | inr e ↦ rw e (sized_turn-Shrinks n b)
  ]
  choose-Shrinks false false d n b = tt

  frame_turn-choose :
      (b : Bytes)
      → ltb (length b) 4 ≡ false
      → frame_turn b
        ≡ choose
            (starts_with login_prefix b)
            (starts_with preamble b)
            (all_digits (slice 2 17 b))
            (be_value (slice 4 8 b))
            b
  unfolding frame_turn choose checked_login sized_turn
  frame_turn-choose b e = rw e

  pub frame_turn-Shrinks : (b : Bytes) → Shrinks (length b) (frame_turn b)
  frame_turn-Shrinks b = elim (Bool-cases (ltb (length b) 4)) [
    | inl e ↦ unfold frame_turn in rw e tt
    | inr e ↦ rw (frame_turn-choose b e) (choose-Shrinks _ _ _ _ b)
  ]

  -- What a login frame and an AVL packet read of the buffer, once they read it, is fixed.
  choose-login_extends :
      (v : Bool) (n m : ℕ) (a b : Bytes)
      → let t = λ (c : Bytes) (k : ℕ). choose true v (all_digits (slice 2 17 c)) k c in
        (t a n ≡ wait) ⊎ (t (a ++ b) m ≡ extend (t a n) b)
  unfolding choose
  choose-login_extends v n m a b = elim (Bool-cases (ltb (length a) 17)) [
    | inl e ↦ inl (rw e)
    | inr e ↦ inr (
        rw (e, length-append-ltb 17 a b e)
          (ap (λ c. checked_login (all_digits c) (a ++ b))
              (slice-append 2 17 a b (ltb-false _ _ e) (omega arith))
            ∙ checked_login_extends _ a b (ltb-false _ _ e)))
  ]

  choose-avl_extends :
      (d d' : Bool) (a b : Bytes)
      → let t = λ (c : Bytes) (e : Bool). choose false true e (be_value (slice 4 8 c)) c in
        (t a d ≡ wait) ⊎ (t (a ++ b) d' ≡ extend (t a d) b)
  unfolding choose
  choose-avl_extends d d' a b = elim (Bool-cases (ltb (length a) 8)) [
    | inl e ↦ inl (rw e)
    | inr e ↦
        rw (e, length-append-ltb 8 a b e, slice-append 4 8 a b (ltb-false _ _ e) (omega arith))
          (sized_turn_extends _ a b)
  ]

  choose_extends :
      (l v : Bool) (a b : Bytes)
      → let t = λ (c : Bytes). choose l v (all_digits (slice 2 17 c)) (be_value (slice 4 8 c)) c in
        (t a ≡ wait) ⊎ (t (a ++ b) ≡ extend (t a) b)
  choose_extends true v a b = choose-login_extends v _ _ a b
  choose_extends false true a b = choose-avl_extends _ _ a b
  choose_extends false false a b = inr (unfold choose in refl)

  frame_turn-append :
      (a b : Bytes)
      → ltb (length a) 4 ≡ false
      → frame_turn (a ++ b)
        ≡ choose
            (starts_with login_prefix a)
            (starts_with preamble a)
            (all_digits (slice 2 17 (a ++ b)))
            (be_value (slice 4 8 (a ++ b)))
            (a ++ b)
  frame_turn-append a b e =
      let long_enough : 4 ≤ length a = ltb-false (length a) 4 e in
      let p = starts_with-append_eq login_prefix a b (omega arith) in
      let q = starts_with-append_eq preamble a b (omega arith) in
      frame_turn-choose (a ++ b) (length-append-ltb 4 a b e) ∙ λ i.
      choose (p i) (q i) (all_digits (slice 2 17 (a ++ b))) (be_value (slice 4 8 (a ++ b))) (a ++ b)

  pub frame_turn_extends :
      (a b : Bytes) → (frame_turn a ≡ wait) ⊎ (frame_turn (a ++ b) ≡ extend (frame_turn a) b)
  frame_turn_extends a b = elim (Bool-cases (ltb (length a) 4)) [
    | inl e ↦ inl (unfold frame_turn in rw e)
    | inr e ↦
        rw (frame_turn-choose a e, frame_turn-append a b e)
          (choose_extends (starts_with login_prefix a) (starts_with preamble a) a b)
  ]

abbrev pub teltonika_framer : ℕ → Framer FrameError
teltonika_framer max_packet_bytes = record {
  turn = frame_turn max_packet_bytes;
  shrinks = frame_turn-Shrinks max_packet_bytes;
  extends = frame_turn_extends max_packet_bytes;
}
