-- ===== src/Checksum/Detects.antt =====
-- The width of both checksums, crc16_x25 of parsers/v5_parser.py and crc16_ibm of
-- parsers/teltonika_parser.py, and the errors that they detect.
use shalotrack_gateway.Shared.{
  ℕ, zero, suc, ◌/◌, ◌%◌, ◌^◌, ◌≤◌, ◌<◌, ◌≡◌, refl, sym, ap, ◌∙◌, ◌≢◌, [], ◌∷◌, ◌++◌, bit_xor,
  arith,
}
use shalotrack_gateway.Shared.Bytes.{Bytes, IsBytes}
use shalotrack_gateway.Checksum.{shift, shifts, crc_from, crc16_x25, crc16_ibm}
use shalotrack_gateway.Checksum.Xor.{xor-lt, xor_twice, xor_top, xor_comm}

module _ (poly : ℕ) (top : 2 ^ 15 ≤ poly) (wide : poly < 2 ^ 16) where
  shift-lt : (c : ℕ) → c < 2 ^ 16 → shift poly c < 2 ^ 16
  unfolding shift
  shift-lt c h = ground (arith, xor-lt 16 (c / 2) poly (omega arith) wide)

  -- The bit that falls out shows in the top bit, and so the shift can be undone.
  shift-injective : (c d : ℕ) → c < 2 ^ 16 → d < 2 ^ 16 → shift poly c ≡ shift poly d → c ≡ d
  unfolding shift
  shift-injective c d h k e = ground (
    arith,
    xor_top 15 (c / 2) poly (omega arith) top,
    xor_top 15 (d / 2) poly (omega arith) top,
    xor_twice 16 (c / 2) poly (omega arith) wide,
    xor_twice 16 (d / 2) poly (omega arith) wide,
  )

  shifts-lt : (n c : ℕ) → c < 2 ^ 16 → shifts poly n c < 2 ^ 16
  unfolding shifts
  shifts-lt zero c h = h
  shifts-lt (suc n) c h = shifts-lt n (shift poly c) (shift-lt c h)

  shifts-injective :
      (n c d : ℕ) → c < 2 ^ 16 → d < 2 ^ 16 → shifts poly n c ≡ shifts poly n d → c ≡ d
  unfolding shifts
  shifts-injective zero c d h k e = e
  shifts-injective (suc n) c d h k e =
      shift-injective c d h k
        (shifts-injective n (shift poly c) (shift poly d) (shift-lt c h) (shift-lt d k) e)

  pub crc_from-lt : (c : ℕ) (bs : Bytes) → c < 2 ^ 16 → IsBytes bs → crc_from poly c bs < 2 ^ 16
  unfolding crc_from
  crc_from-lt c [] h k = h
  crc_from-lt c (b ∷ bs) h k =
      crc_from-lt (shifts poly 8 (bit_xor c b)) bs
        (shifts-lt 8 _ (xor-lt 16 c b h (omega (arith, k.0)))) k.1

  crc_from-injective :
      (c d : ℕ) (bs : Bytes)
      → c < 2 ^ 16
      → d < 2 ^ 16
      → IsBytes bs
      → crc_from poly c bs ≡ crc_from poly d bs
      → c ≡ d
  unfolding crc_from
  crc_from-injective c d [] h k q e = e
  crc_from-injective c d (b ∷ bs) h k q e =
      let b' : b < 2 ^ 16 = omega (arith, q.0) in
      let c' = xor-lt 16 c b h b' in
      let d' = xor-lt 16 d b k b' in
      let ih =
        crc_from-injective (shifts poly 8 (bit_xor c b)) (shifts poly 8 (bit_xor d b)) bs
          (shifts-lt 8 _ c') (shifts-lt 8 _ d') q.1 e in
      let same = shifts-injective 8 _ _ c' d' ih in
      sym (xor_twice 16 c b h b') ∙ ap (λ t. bit_xor t b) same ∙ xor_twice 16 d b k b'

  crc_from_byte :
      (c a b : ℕ) (bs : Bytes)
      → c < 2 ^ 16
      → a < 256
      → b < 256
      → IsBytes bs
      → crc_from poly c (a ∷ bs) ≡ crc_from poly c (b ∷ bs)
      → bit_xor c a ≡ bit_xor c b
  unfolding crc_from
  crc_from_byte c a b bs h p q k e =
      let a' = xor-lt 16 c a h (omega arith) in
      let b' = xor-lt 16 c b h (omega arith) in
      shifts-injective 8 _ _ a' b'
        (crc_from-injective _ _ bs (shifts-lt 8 _ a') (shifts-lt 8 _ b') k e)

  crc_from-append :
      (c : ℕ) (xs ys : Bytes) → crc_from poly c (xs ++ ys) ≡ crc_from poly (crc_from poly c xs) ys
  unfolding crc_from
  crc_from-append c [] ys = refl
  crc_from-append c (x ∷ xs) ys = crc_from-append (shifts poly 8 (bit_xor c x)) xs ys

  pub crc_from_detects :
      (c : ℕ) (xs ys : Bytes) (a b : ℕ)
      → c < 2 ^ 16
      → IsBytes xs
      → IsBytes ys
      → a < 256
      → b < 256
      → crc_from poly c (xs ++ a ∷ ys) ≡ crc_from poly c (xs ++ b ∷ ys)
      → a ≡ b
  crc_from_detects c xs ys a b h kx ky p q e =
      let t = crc_from poly c xs in
      let t' = crc_from-lt c xs h kx in
      let a' : a < 2 ^ 16 = omega arith in
      let b' : b < 2 ^ 16 = omega arith in
      let e' = sym (crc_from-append c xs (a ∷ ys)) ∙ e ∙ crc_from-append c xs (b ∷ ys) in
      let mixed = crc_from_byte t a b ys t' p q ky e' in
      let swapped = xor_comm 16 a t a' t' ∙ mixed ∙ xor_comm 16 t b t' b' in
      sym (xor_twice 16 a t a' t') ∙ ap (λ x. bit_xor x t) swapped ∙ xor_twice 16 b t b' t'

-- The CRC-16/IBM of a byte string fits 16 bits, with no mask in the code.
pub crc16_ibm-lt : (bytes : Bytes) → IsBytes bytes → crc16_ibm bytes < 65536
unfolding crc16_ibm
crc16_ibm-lt bytes h = crc_from-lt 0xA001 (omega arith) (omega arith) 0 bytes (omega arith) h

-- Two byte strings of one length that differ in exactly one byte have different CRC-16/IBM checksums.
pub crc16_ibm_detects :
    (xs ys : Bytes) (a b : ℕ)
    → IsBytes xs
    → IsBytes ys
    → a < 256
    → b < 256
    → a ≢ b
    → crc16_ibm (xs ++ a ∷ ys) ≢ crc16_ibm (xs ++ b ∷ ys)
unfolding crc16_ibm
crc16_ibm_detects xs ys a b hx hy p q ne e =
    ne (crc_from_detects 0xA001 (omega arith) (omega arith) 0 xs ys a b (omega arith) hx hy p q e)

finish-injective :
    (c d : ℕ)
    → c < 2 ^ 16
    → d < 2 ^ 16
    → bit_xor c 0xFFFF % 65536 ≡ bit_xor d 0xFFFF % 65536
    → c ≡ d
finish-injective c d h k e =
    let c' = xor-lt 16 c 0xFFFF h (omega arith) in
    let d' = xor-lt 16 d 0xFFFF k (omega arith) in
    let same : bit_xor c 0xFFFF ≡ bit_xor d 0xFFFF = omega arith in
    sym (xor_twice 16 c 0xFFFF h (omega arith))
    ∙ ap (λ x. bit_xor x 0xFFFF) same
    ∙ xor_twice 16 d 0xFFFF k (omega arith)

IsBytes-append :
    (xs : Bytes) (a : ℕ) (ys : Bytes) → IsBytes xs → a < 256 → IsBytes ys → IsBytes (xs ++ a ∷ ys)
IsBytes-append [] a ys h p k = (p, k)
IsBytes-append (x ∷ xs) a ys h p k = (h.0, IsBytes-append xs a ys h.1 p k)

-- Two byte strings of one length that differ in exactly one byte have different CRC-16/X-25
-- checksums.
pub crc16_x25_detects :
    (xs ys : Bytes) (a b : ℕ)
    → IsBytes xs
    → IsBytes ys
    → a < 256
    → b < 256
    → a ≢ b
    → crc16_x25 (xs ++ a ∷ ys) ≢ crc16_x25 (xs ++ b ∷ ys)
unfolding crc16_x25
crc16_x25_detects xs ys a b hx hy p q ne e =
    let wide = λ (bs : Bytes) (h : IsBytes bs).
      crc_from-lt 0x8408 (omega arith) (omega arith) 0xFFFF bs (omega arith) h in
    let same =
      finish-injective _ _ (wide _ (IsBytes-append xs a ys hx p hy))
        (wide _ (IsBytes-append xs b ys hx q hy)) e in
    ne (
      crc_from_detects 0x8408 (omega arith) (omega arith) 0xFFFF xs ys a b (omega arith) hx hy p q
        same)
