-- ===== src/Handlers/Gt06/Ack.antt =====
-- The replies that `build_ack` of parsers/v5_parser.py makes to GT06 packets.
use shalotrack_gateway.Shared.{
  ℕ, ◌-◌, ◌≤◌, ◌≡◌, refl, arith, [], ◌∷◌, ◌++◌, length, length-append, length-take, length-drop,
  drop,
}
use shalotrack_gateway.Shared.Bytes.{Bytes, slice_back, be_bytes2}
use shalotrack_gateway.Shared.Attempt.{returns}
use shalotrack_gateway.Checksum.{crc16_x25}
use shalotrack_gateway.Framing.Sealed.{IsSealed, whole-IsSealed, slice_middle}
use shalotrack_gateway.Parsers.V5.{build_ack, ack_of}
use shalotrack_gateway.Handlers.Gt06.{header_of, numbered}
use shalotrack_gateway.Handlers.Gt06.Replies.{build_ack-header}

serial-length : (raw : Bytes) → 6 ≤ length raw → length (slice_back 6 4 raw) ≡ 2
serial-length raw h = omega (
  arith,
  length-drop (length raw - 6) raw,
  length-take ((length raw - 4) - (length raw - 6)) (drop (length raw - 6) raw),
)

-- A sealed reply of ten bytes, which carries the serial number.
pub record IsAck (serial reply : Bytes) : Type 0 where
  pub sealed : IsSealed reply
  pub short : length reply ≡ 10
  pub numbered : slice_back 6 4 reply ≡ serial

ack_of-IsAck : (b : ℕ) (serial : Bytes) → length serial ≡ 2 → IsAck serial (ack_of b serial)
unfolding ack_of
ack_of-IsAck b serial h =
    let closing = be_bytes2 (crc16_x25 (0x05 ∷ b ∷ serial)) ++ (0x0D ∷ 0x0A ∷ []) in
    record {
      sealed = whole-IsSealed 0x05 (b ∷ serial) (omega (arith, h));
      short = omega (arith, h, length-append serial closing);
      numbered =
          slice_middle (0x78 ∷ 0x78 ∷ 0x05 ∷ b ∷ []) serial closing _ _
            (omega (arith, h, length-append serial closing))
            (omega (arith, h, length-append serial closing));
    }

-- The reply to a packet of six bytes or more whose header is read is a GT06 packet of ten bytes whose
-- length field, checksum and terminator are right, with the protocol number and the serial number
-- that the packet has.
pub build_ack-IsAck :
    (raw : Bytes) (b : ℕ)
    → 6 ≤ length raw
    → header_of raw ≡ returns (numbered b)
    → (reply : Bytes) × (build_ack raw ≡ returns reply)
      × IsAck (slice_back 6 4 raw) reply
      × (header_of reply ≡ returns (numbered b))
unfolding header_of ack_of
build_ack-IsAck raw b h e = (
  ack_of b (slice_back 6 4 raw),
  build_ack-header raw b e,
  ack_of-IsAck b (slice_back 6 4 raw) (serial-length raw h),
  refl,
)
