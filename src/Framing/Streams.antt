-- ===== src/Framing/Streams.antt =====
-- What the framers promise of the bytes of a connection: utils/packet_buffer.py `extract_packets`,
-- parsers/gps103_parser.py `extract_messages` and parsers/teltonika_parser.py `extract_frames`.
use shalotrack_gateway.Shared.{
  ℕ, ◌+◌, ◌≤◌, ◌≡◌, ap, ◌∙◌, sym, ◌≢◌, true, false, List, [], ◌∷◌, ◌++◌, arith, length,
  length-append, take, drop, All, get_or, ltb, take-append, drop-append, take-length, drop-length,
  le→ltb-false, ◌==◌, ◌||◌,
}
use shalotrack_gateway.Shared.Bytes.{Bytes, slice, starts_with, be_value, starts_with-append_eq}
use shalotrack_gateway.Framing.Splitter.{Turn, emit, skip, prefixed}
use shalotrack_gateway.Framing.Chunks.{
  feed_all, joined, concat, extract-concat, feed_all-extract, extract_skip, IsFrame,
}
use shalotrack_gateway.Framing.Pieces.{take_frame, take_frame-emit, slice-append, get_or-append}
use shalotrack_gateway.Framing.Gt06.{
  Never, packet_turn, extract_packets, gt06_framer, short_marker, long_marker,
}
use shalotrack_gateway.Framing.Teltonika.{
  frame_turn, extract_frames, teltonika_framer, login_prefix, preamble, all_digits, FrameError,
}

-- However TCP cuts a GT06 stream into reads, the packets found by splitting after each read, with
-- the remaining buffer carried over, and the buffer left at the end are those of splitting the
-- whole stream at once.
pub extract_packets_reads :
    (first : Bytes) (reads : List Bytes)
    → feed_all gt06_framer reads (extract_packets first)
      ≡ extract_packets (joined gt06_framer first reads)
unfolding extract_packets
extract_packets_reads first reads = feed_all-extract gt06_framer first reads

-- However TCP cuts a Teltonika stream into reads, splitting after each read gives the frames, the
-- remaining buffer or the framing error that splitting the whole stream at once gives.
pub extract_frames_reads :
    (max_packet_bytes : ℕ) (first : Bytes) (reads : List Bytes)
    → feed_all (teltonika_framer max_packet_bytes) reads (extract_frames max_packet_bytes first)
      ≡ extract_frames max_packet_bytes (joined (teltonika_framer max_packet_bytes) first reads)
unfolding extract_frames
extract_frames_reads n first reads = feed_all-extract (teltonika_framer n) first reads

-- A GT06 packet whose length field agrees with its size: 78 78 with one length byte, or 79 79 with
-- two.
pub data IsPacket (m : Bytes) : Type 0 where
  short :
      5 ≤ length m → starts_with short_marker m ≡ true → length m ≡ get_or m 2 0 + 5 → IsPacket m
  long :
      6 ≤ length m
      → starts_with short_marker m ≡ false
      → starts_with long_marker m ≡ true
      → length m ≡ be_value (slice 2 4 m) + 6
      → IsPacket m

take_frame-whole :
    (m rest : Bytes) (n : ℕ) → length m ≡ n → take_frame {E = Never} n (m ++ rest) ≡ emit m rest
take_frame-whole m rest n e =
    ap (λ k. take_frame {E = Never} k (m ++ rest)) (sym e)
    ∙ take_frame-emit Never (length m) m rest (omega arith)
    ∙ λ i. emit (take-length m i) (drop-length m i ++ rest)

IsPacket-IsFrame : (m : Bytes) → IsPacket m → IsFrame gt06_framer m
unfolding packet_turn
IsPacket-IsFrame m (short h s e) rest =
    rw
      (
        le→ltb-false (length (m ++ rest)) 5 (omega (arith, length-append m rest)),
        starts_with-append_eq short_marker m rest (omega arith),
        s,
        get_or-append m rest 2 0 (omega arith),
      )
      (take_frame-whole m rest _ e)
IsPacket-IsFrame m (long h s l e) rest =
    rw
      (
        le→ltb-false (length (m ++ rest)) 5 (omega (arith, length-append m rest)),
        starts_with-append_eq short_marker m rest (omega arith),
        s,
        starts_with-append_eq long_marker m rest (omega arith),
        l,
        slice-append 2 4 m rest (omega arith) (omega arith),
      )
      (take_frame-whole m rest _ e)

IsPacket-length : (m : Bytes) → IsPacket m → 5 ≤ length m
IsPacket-length m (short h s e) = h
IsPacket-length m (long h s l e) = omega arith

IsPacket-All : (ms : List Bytes) → All IsPacket ms → All (IsFrame gt06_framer) ms
IsPacket-All [] h = tt
IsPacket-All (m ∷ ms) h = (IsPacket-IsFrame m h.0, IsPacket-All ms h.1)

-- A byte with which no GT06 packet starts.
abbrev pub IsNoise : ℕ → Type 0
IsNoise b = (b ≢ 0x78) × (b ≢ 0x79)

noise_turn :
    (b : ℕ) (rest : Bytes) → IsNoise b → 4 ≤ length rest → packet_turn (b ∷ rest) ≡ skip rest
unfolding packet_turn
noise_turn b [] h k = absurd (omega arith)
noise_turn b (c ∷ rest) h k = ground arith

-- Bytes of which none is 0x78 and none is 0x79, in front of GT06 packets whose marker and length
-- field are right, are dropped, and the packets come out as they were sent, in order, followed by
-- what the bytes behind them give.
pub extract_packets-resync :
    (noise : Bytes) (m : Bytes) (ms : List Bytes) (tail : Bytes)
    → All IsNoise noise
    → All IsPacket (m ∷ ms)
    → extract_packets (noise ++ concat gt06_framer (m ∷ ms) tail)
      ≡ prefixed (m ∷ ms) (extract_packets tail)
unfolding extract_packets
extract_packets-resync [] m ms tail q h =
    extract-concat gt06_framer (m ∷ ms) tail (IsPacket-All (m ∷ ms) h)
extract_packets-resync (b ∷ noise) m ms tail q h =
    let stream = concat gt06_framer (m ∷ ms) tail in
    extract_skip gt06_framer (b ∷ noise ++ stream) (noise ++ stream) (
      noise_turn b (noise ++ stream) q.0 (
        omega (
          arith,
          length-append noise stream,
          length-append m (concat gt06_framer ms tail),
          IsPacket-length m h.0,
        )))
    ∙ extract_packets-resync noise m ms tail q.1 h

-- A login frame, or an AVL packet whose data field length is in range and agrees with its size.
pub data IsTeltonikaFrame (max_packet_bytes : ℕ) (m : Bytes) : Type 0 where
  login :
      length m ≡ 17
      → starts_with login_prefix m ≡ true
      → all_digits (slice 2 17 m) ≡ true
      → IsTeltonikaFrame max_packet_bytes m
  avl :
      8 ≤ length m
      → starts_with login_prefix m ≡ false
      → starts_with preamble m ≡ true
      → 1 ≤ be_value (slice 4 8 m)
      → be_value (slice 4 8 m) ≤ max_packet_bytes
      → length m ≡ 8 + be_value (slice 4 8 m) + 4
      → IsTeltonikaFrame max_packet_bytes m

module _ (n : ℕ) where
  whole_login :
      (m rest : Bytes)
      → length m ≡ 17
      → ◌≡◌ {A = Turn FrameError} (emit (take 17 (m ++ rest)) (drop 17 (m ++ rest))) (emit m rest)
  whole_login m rest e =
      (λ i. emit (take-append 17 m rest (omega arith) i) (drop-append 17 m rest (omega arith) i))
      ∙ (λ i. emit (take (sym e i) m) (drop (sym e i) m ++ rest))
      ∙ λ i. emit (take-length m i) (drop-length m i ++ rest)

  sized_test : (k : ℕ) → 1 ≤ k → k ≤ n → ((k == 0) || ltb n k) ≡ false
  sized_test k h l = ground arith

  whole_avl :
      (m rest : Bytes) (k : ℕ)
      → length m ≡ k
      → take_frame {E = FrameError} k (m ++ rest) ≡ emit m rest
  whole_avl m rest k e =
      ap (λ k. take_frame {E = FrameError} k (m ++ rest)) (sym e)
      ∙ take_frame-emit FrameError (length m) m rest (omega arith)
      ∙ λ i. emit (take-length m i) (drop-length m i ++ rest)

  IsTeltonikaFrame-IsFrame : (m : Bytes) → IsTeltonikaFrame n m → IsFrame (teltonika_framer n) m
  unfolding frame_turn
  IsTeltonikaFrame-IsFrame m (login e s d) rest =
      rw
        (
          le→ltb-false (length (m ++ rest)) 4 (omega (arith, length-append m rest)),
          starts_with-append_eq login_prefix m rest (omega arith),
          s,
          le→ltb-false (length (m ++ rest)) 17 (omega (arith, length-append m rest)),
          slice-append 2 17 m rest (omega arith) (omega arith),
          d,
        )
        (whole_login m rest e)
  IsTeltonikaFrame-IsFrame m (avl h s p l u e) rest =
      rw
        (
          le→ltb-false (length (m ++ rest)) 4 (omega (arith, length-append m rest)),
          starts_with-append_eq login_prefix m rest (omega arith),
          s,
          starts_with-append_eq preamble m rest (omega arith),
          p,
          le→ltb-false (length (m ++ rest)) 8 (omega (arith, length-append m rest)),
          slice-append 4 8 m rest (omega arith) (omega arith),
          sized_test (be_value (slice 4 8 m)) l u,
        )
        (whole_avl m rest _ e)

  IsTeltonikaFrame-All :
      (ms : List Bytes) → All (IsTeltonikaFrame n) ms → All (IsFrame (teltonika_framer n)) ms
  IsTeltonikaFrame-All [] h = tt
  IsTeltonikaFrame-All (m ∷ ms) h = (IsTeltonikaFrame-IsFrame m h.0, IsTeltonikaFrame-All ms h.1)

-- Login frames and AVL packets of a size in range, sent one behind another, come out one by one and
-- in order, followed by what the bytes behind them give.
pub extract_frames-concat :
    (max_packet_bytes : ℕ) (ms : List Bytes) (tail : Bytes)
    → All (IsTeltonikaFrame max_packet_bytes) ms
    → extract_frames max_packet_bytes (concat (teltonika_framer max_packet_bytes) ms tail)
      ≡ prefixed ms (extract_frames max_packet_bytes tail)
unfolding extract_frames
extract_frames-concat n ms tail h =
    extract-concat (teltonika_framer n) ms tail (IsTeltonikaFrame-All n ms h)
