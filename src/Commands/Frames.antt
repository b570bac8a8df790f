-- ===== src/Commands/Frames.antt =====
-- What utils/command_builder.py `build_command` returns.
use shalotrack_gateway.Shared.{
  ℕ, ◌+◌, ◌≤◌, ◌<◌, ◌≡◌, ◌↔◌, ◌∙◌, ap, sym, subst, refl, inl, inr, Bool, true, false, Bool-cases,
  List, [], ◌∷◌, ◌++◌, append_assoc, arith, length, length-append, ltb, lt→ltb, ltb→lt, ltb-false,
  get_or,
}
use shalotrack_gateway.Shared.Bytes.{Bytes, slice, slice_back, be_bytes2}
use shalotrack_gateway.Shared.Text.{Text, all_of}
use shalotrack_gateway.Shared.Attempt.{Attempt, returns, raises}
use shalotrack_gateway.Checksum.{crc16_x25}
use shalotrack_gateway.Framing.Gt06.{short_marker}
use shalotrack_gateway.Framing.Sealed.{IsSealed, whole-IsSealed, slice_middle}
use shalotrack_gateway.Commands.Builder.{
  build_command, body_of, packet_of, server_flag, language, encodes, framed,
}

body_of-length :
    (command : Text) (serial : Bytes)
    → length (body_of command serial) ≡ length command + (8 + length serial)
body_of-length command serial = omega (arith, length-append command (language ++ serial))

-- The characters that a command may have, and how many of them.
abbrev pub IsSendable : Text → Type 0
IsSendable command = (all_of (λ c. ltb c 128) command ≡ true) × (length command ≤ 243)

-- What a device reads in a command packet: a sealed GT06 packet of protocol 0x80, with the size of
-- its content, the server flag, the command's text, the language and the serial number.
pub record IsCommand (command : Text) (serial : ℕ) (m : Bytes) : Type 0 where
  pub sealed : IsSealed m
  pub protocol : get_or m 3 0 ≡ 0x80
  pub sized : get_or m 4 0 ≡ 4 + length command
  pub flag : slice 5 9 m ≡ 0 ∷ 0 ∷ 0 ∷ 1 ∷ []
  pub text : slice 9 (9 + length command) m ≡ command
  pub english : slice_back 8 6 m ≡ 0 ∷ 2 ∷ []
  pub numbered : slice_back 6 4 m ≡ be_bytes2 serial

module _ (command : Text) (serial : ℕ) where
  abbrev body : Bytes
  body = body_of command (be_bytes2 serial)

  abbrev closing : Bytes
  closing = be_bytes2 (crc16_x25 ((length body + 2) ∷ body)) ++ (0x0D ∷ 0x0A ∷ [])

  -- The nine bytes in front of the text.
  abbrev opening : Bytes
  opening = short_marker ++ ((length body + 2) ∷ 0x80 ∷ (4 + length command) ∷ server_flag)

  packet_of-parts :
      packet_of body ≡ opening ++ (command ++ (language ++ (be_bytes2 serial ++ closing)))
  packet_of-parts = ap (◌++◌ opening) (append_assoc command (language ++ be_bytes2 serial) closing)

  packet_of-length : length (packet_of body) ≡ length command + 17
  packet_of-length =
      omega (arith, length-append body closing, body_of-length command (be_bytes2 serial))

  packet_of-IsCommand : IsCommand command serial (packet_of body)
  packet_of-IsCommand = record {
    sealed = whole-IsSealed (length body + 2) body refl;
    protocol = refl;
    sized = refl;
    flag = refl;
    text =
        ap (slice 9 (9 + length command)) packet_of-parts
        ∙ slice_middle opening command (language ++ (be_bytes2 serial ++ closing)) _ _ refl refl;
    english =
        ap (slice_back 8 6) (
          packet_of-parts
          ∙ sym (append_assoc opening command (language ++ (be_bytes2 serial ++ closing))))
        ∙ slice_middle (opening ++ command) language (be_bytes2 serial ++ closing) _ _
            (omega (
              arith,
              length-append (opening ++ command) (language ++ (be_bytes2 serial ++ closing)),
            ))
            (omega (
              arith,
              length-append (opening ++ command) (language ++ (be_bytes2 serial ++ closing)),
            ));
    numbered =
        ap (slice_back 6 4) (
          packet_of-parts
          ∙ sym (append_assoc opening command (language ++ (be_bytes2 serial ++ closing)))
          ∙ sym (append_assoc (opening ++ command) language (be_bytes2 serial ++ closing)))
        ∙ slice_middle ((opening ++ command) ++ language) (be_bytes2 serial) closing _ _
            (omega (
              arith,
              length-append ((opening ++ command) ++ language) (be_bytes2 serial ++ closing),
            ))
            (omega (
              arith,
              length-append ((opening ++ command) ++ language) (be_bytes2 serial ++ closing),
            ));
  }

  encodes-true : IsSendable command → serial < 65536 → encodes command serial ≡ true
  encodes-true (ascii, fits) small =
      rw
        (
          lt→ltb serial 65536 small,
          ascii,
          lt→ltb (length body + 2) 256 (omega (arith, body_of-length command (be_bytes2 serial))),
        )
        refl

  framed-IsCommand :
      (fits : Bool) (payload : Bytes)
      → framed fits body ≡ returns payload
      → IsCommand command serial payload
  framed-IsCommand false payload e = absurd (clash e)
    where
      clash : ◌≡◌ {A = Attempt Bytes} raises (returns payload) → ⊥
      clash z = cc
  framed-IsCommand true payload e = subst (IsCommand command serial) (cc e) packet_of-IsCommand

  -- Whatever is built is such a packet.
  pub built-IsCommand :
      (payload : Bytes)
      → (build_command command serial).0 ≡ returns payload
      → IsCommand command serial payload
  unfolding build_command
  built-IsCommand payload e = framed-IsCommand (encodes command serial) payload e

  -- An ASCII command of at most 243 characters is built, while serial numbers fit two bytes, into a
  -- GT06 packet whose length field, checksum and terminator are right, and in which the command's
  -- text and the serial number stand at their places; the next command takes the next number.
  pub build_command-IsCommand :
      IsSendable command
      → serial < 65536
      → (packet : Bytes) × (build_command command serial ≡ (returns packet, serial + 1))
        × IsCommand command serial packet
  unfolding build_command
  build_command-IsCommand sendable small =
      (packet_of body, rw (encodes-true sendable small) refl, packet_of-IsCommand)

-- The builder's serial number after the commands, whether they could be built or not.
abbrev pub serial_after : List Text → ℕ → ℕ
serial_after [] serial = serial
serial_after (command ∷ commands) serial = serial_after commands (build_command command serial).1

serial_after-length :
    (commands : List Text) (serial : ℕ) → serial_after commands serial ≡ serial + length commands
unfolding build_command
serial_after-length [] serial = omega arith
serial_after-length (command ∷ commands) serial =
    serial_after-length commands (serial + 1) ∙ omega arith

raises_iff :
    (command : Text) (serial : ℕ)
    → IsSendable command
    → ((build_command command serial).0 ≡ raises) ↔ (65536 ≤ serial)
unfolding build_command
raises_iff command serial sendable = elim (Bool-cases (ltb serial 65536)) [
  | inl t ↦
      let small = ltb→lt _ _ t in
      (
        λ e. absurd (clash (rw (encodes-true command serial sendable small) at e)),
        λ h. absurd (omega (arith, small, h)),
      )
  | inr f ↦ rw f (λ e. ltb-false _ _ f, λ h. refl)
]
  where
    clash : ◌≡◌ {A = Attempt Bytes} (returns (packet_of (body command serial))) raises → ⊥
    clash e = cc

-- Whatever commands the builder was asked for before, and whether they could be built or not, the
-- next ASCII command of at most 243 characters cannot be built if and only if the number that the
-- builder started from and the count of those commands come to 65,536 or more.
pub build_command_exhausted :
    (before : List Text) (command : Text) (serial : ℕ)
    → IsSendable command
    → ((build_command command (serial_after before serial)).0 ≡ raises)
      ↔ (65536 ≤ serial + length before)
build_command_exhausted before command serial sendable =
    rw (serial_after-length before serial) (raises_iff command (serial + length before) sendable)
