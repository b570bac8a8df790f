-- ===== src/Handlers/Gt06/Replies.antt =====
-- `process_packet` of services/packet_handler.py over all its branches: the reply, sockets without a
-- login, and the device that the answer names.
use shalotrack_gateway.Shared.{
  ℕ, ◌≡◌, refl, ap, ◌⊎◌, inl, inr, Bool, true, false, Option, none, some, List, [], ◌∷◌, arith,
  Bool-cases, get_elem?,
}
use shalotrack_gateway.Shared.Bytes.{Bytes, starts_with, slice_back}
use shalotrack_gateway.Shared.Text.{Text}
use shalotrack_gateway.Shared.Attempt.{Attempt, returns, raises}
use shalotrack_gateway.Registry.{get_imei_by_socket}
use shalotrack_gateway.World.{World, Environment, Event, wrote, closed}
use shalotrack_gateway.World.Action.{Action, send}
use shalotrack_gateway.Repository.{Allowed}
use shalotrack_gateway.Framing.Gt06.{short_marker, long_marker}
use shalotrack_gateway.Decoders.{Numbers}
use shalotrack_gateway.Parsers.V5.{is_long, build_ack, ack_of}
use shalotrack_gateway.Handlers.Gt06.{
  Header, numbered, invalid, header_of, protocol_of, process_packet, dispatch, answer_or_none,
}

short_not_long : (raw : Bytes) → starts_with short_marker raw ≡ true → is_long raw ≡ false
short_not_long [] h = cc
short_not_long (a ∷ raw) h = ground arith

protocol_of-some : (o : Option ℕ) (b : ℕ) → protocol_of o ≡ returns (numbered b) → o ≡ some b
protocol_of-some none b h = cc
protocol_of-some (some c) b h = cc

-- The protocol byte of the header is the one that the reply echoes.
pub build_ack-header :
    (raw : Bytes) (b : ℕ)
    → header_of raw ≡ returns (numbered b)
    → build_ack raw ≡ returns (ack_of b (slice_back 6 4 raw))
unfolding header_of build_ack
build_ack-header raw b h = elim (Bool-cases (starts_with short_marker raw)) [
  | inl s ↦
      let e = protocol_of-some (get_elem? raw 3) b (rw (s, header_of) at h) in
      rw (short_not_long raw s, e) refl
  | inr s ↦ elim (Bool-cases (starts_with long_marker raw)) [
    | inl l ↦
        let e = protocol_of-some (get_elem? raw 4) b (rw (s, l, header_of) at h) in rw (l, e) refl
    | inr l ↦ absurd (clash (rw (s, l, header_of) at h))
  ]
]
  where
    clash : ◌≡◌ {A = Attempt Header} (returns invalid) (returns (numbered b)) → ⊥
    clash q = cc

module _ (env : Environment) (py : Numbers) (strptime : Text → Option Text) where
  abbrev process : Bytes → ℕ → Text → Action (Option Text)
  process = process_packet env py strptime

  abbrev branch : ℕ → Bytes → ℕ → Text → Action (Option Text)
  branch = dispatch env py strptime

  process-dispatch :
      (raw : Bytes) (conn : ℕ) (ip : Text) (w : World) (b : ℕ)
      → header_of raw ≡ returns (numbered b)
      → process raw conn ip w ≡ (
        returns (answer_or_none env py strptime (branch b raw conn ip w).0),
        (send env conn (ack_of b (slice_back 6 4 raw)) (branch b raw conn ip w).1).1,
      )
  unfolding process_packet
  process-dispatch raw conn ip w b h = rw (h, build_ack-header raw b h) refl

  -- Every packet whose header is read is acknowledged: whatever its branch does and whatever fails
  -- in it, the last thing that happens is the reply, which echoes the packet's protocol and serial
  -- numbers, and the handler raises nothing.
  pub process_packet_acks :
      (raw : Bytes) (conn : ℕ) (ip : Text) (w : World) (b : ℕ)
      → header_of raw ≡ returns (numbered b)
      → (answer : Option Text) × (sent : Bool) × (before : List Event) × ((process raw conn ip w).0
          ≡ returns answer)
        × ((process raw conn ip w).1.log ≡ wrote conn (ack_of b (slice_back 6 4 raw)) sent ∷ before)
  unfolding send
  process_packet_acks raw conn ip w b h =
      let p = process-dispatch raw conn ip w b h in (_, _, _, ap (λ r. r.0) p, ap (λ r. r.1.log) p)

  -- Nothing but the socket was touched.
  abbrev Quiet : ℕ → World → Attempt (Option Text) × World → Type 0
  Quiet conn w (r, w') =
      (answer_or_none env py strptime r ≡ none)
      × (w'.registry ≡ w.registry)
      × ((w'.log ≡ w.log) ⊎ (w'.log ≡ closed conn ∷ w.log))

  -- The device that an answer names: the one of the connection, or one that the login lets in.
  abbrev Known : ℕ → World → Attempt (Option Text) → Type 0
  Known conn w raises = Unit
  Known conn w (returns none) = Unit
  Known conn w (returns (some imei)) =
      (get_imei_by_socket conn w.registry ≡ some imei) ⊎ Allowed env w imei
