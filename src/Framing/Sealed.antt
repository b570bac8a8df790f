-- ===== src/Framing/Sealed.antt =====
-- What a receiver reads in a GT06 packet that the gateway sends: 78 78, a length byte, what it
-- counts, a CRC-16/X-25 and 0D 0A, as docs/protocols.md has it.
use shalotrack_gateway.Shared.{
  ℕ, ◌+◌, ◌-◌, ◌≡◌, refl, sym, ap, ◌∙◌, [], ◌∷◌, ◌++◌, arith, length, length-append, take,
  append_assoc, take-append, take-length, drop-append, drop-length,
}
use shalotrack_gateway.Shared.Bytes.{Bytes, slice, be_bytes2}
use shalotrack_gateway.Checksum.{crc16_x25}
use shalotrack_gateway.Framing.Gt06.{short_marker}
use shalotrack_gateway.Framing.Streams.{IsPacket}

-- A packet whose length field is right, whose checksum is that of the bytes from the length byte up
-- to it, and which ends with 0D 0A.
pub record IsSealed (m : Bytes) : Type 0 where
  pub framed : IsPacket m
  pub checked :
      slice (length m - 4) (length m - 2) m ≡ be_bytes2 (crc16_x25 (slice 2 (length m - 4) m))
  pub ended : slice (length m - 2) (length m) m ≡ 0x0D ∷ 0x0A ∷ []

-- The bytes between two others, at their place.
pub slice_middle :
    (xs ys zs : Bytes) (a b : ℕ)
    → length xs ≡ a
    → length xs + length ys ≡ b
    → slice a b (xs ++ (ys ++ zs)) ≡ ys
slice_middle xs ys zs a b p q =
    (λ i. slice (sym p i) (sym q i) (xs ++ (ys ++ zs)))
    ∙ ap (take ((length xs + length ys) - length xs)) (
        drop-append (length xs) xs (ys ++ zs) (omega arith)
        ∙ ap (λ (r : Bytes). r ++ (ys ++ zs)) (drop-length xs))
    ∙ ap (λ k. take k (ys ++ zs)) (omega arith)
    ∙ take-append (length ys) ys zs (omega arith)
    ∙ take-length ys

module _ (k : ℕ) (body : Bytes) where
  abbrev counted : Bytes
  counted = k ∷ body

  abbrev front : Bytes
  front = short_marker ++ counted

  abbrev checksum : Bytes
  checksum = be_bytes2 (crc16_x25 counted)

  abbrev whole : Bytes
  whole = front ++ (checksum ++ (0x0D ∷ 0x0A ∷ []))

  length-whole : length whole ≡ length body + 7
  length-whole = omega (arith, length-append body (checksum ++ (0x0D ∷ 0x0A ∷ [])))

  -- A body behind its length byte, closed by its checksum and the terminator.
  pub whole-IsSealed : k ≡ length body + 2 → IsSealed whole
  whole-IsSealed e = record {
    framed = IsPacket.short (omega (arith, length-whole)) refl (omega (arith, length-whole, e));
    checked =
        slice_middle front checksum (0x0D ∷ 0x0A ∷ []) _ _ (omega (arith, length-whole))
          (omega (arith, length-whole))
        ∙ ap (λ c. be_bytes2 (crc16_x25 c))
            (sym (
              slice_middle short_marker counted (checksum ++ (0x0D ∷ 0x0A ∷ [])) _ _ refl
                (omega (arith, length-whole))));
    ended =
        ap (slice (length whole - 2) (length whole)) (sym (append_assoc front checksum _))
        ∙ slice_middle (front ++ checksum) (0x0D ∷ 0x0A ∷ []) [] _ _
            (omega (arith, length-whole, length-append front checksum))
            (omega (arith, length-whole, length-append front checksum));
  }
