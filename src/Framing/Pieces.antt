-- ===== src/Framing/Pieces.antt =====
-- The parts of a turn that the framers share: taking a frame of a computed size off the buffer, and
-- how tests on the front of the buffer behave when more bytes stand behind it.
use shalotrack_gateway.Shared.{
  ℕ, zero, suc, ◌-◌, ◌≤◌, ◌<◌, ◌≡◌, refl, ap, ◌∙◌, ◌⊎◌, inl, inr, [], ◌∷◌, ◌++◌, arith, length,
  length-append, take, drop, take-append, drop-append, length-drop, ltb, if◌then◌else◌, Bool-cases,
  false, get_or, ltb-false, le→ltb-false,
}
use shalotrack_gateway.Shared.Bytes.{Bytes, slice}
use shalotrack_gateway.Framing.Splitter.{Turn, wait, emit, Shrinks, extend}

-- if len(buffer) < total: break; frames.append(buffer[:total]); buffer = buffer[total:]
abbrev pub take_frame : {E : Type 0} → ℕ → Bytes → Turn E
take_frame total buffer =
    if ltb (length buffer) total then wait else emit (take total buffer) (drop total buffer)

module _ (E : Type 0) (total : ℕ) where
  pub take_frame-Shrinks : (b : Bytes) → 0 < total → Shrinks {E = E} (length b) (take_frame total b)
  take_frame-Shrinks b h = elim (Bool-cases (ltb (length b) total)) [
    | inl e ↦ rw e tt
    | inr e ↦ rw e (omega (arith, length-drop total b, ltb-false _ _ e))
  ]

  pub take_frame-emit :
      (a b : Bytes)
      → total ≤ length a
      → take_frame {E = E} total (a ++ b) ≡ emit (take total a) (drop total a ++ b)
  take_frame-emit a b h =
      rw (le→ltb-false (length (a ++ b)) total (omega (arith, length-append a b))) (
        ap (λ x. emit x (drop total (a ++ b))) (take-append total a b h)
        ∙ ap (emit (take total a)) (drop-append total a b h))

  pub take_frame_extends :
      (a b : Bytes)
      → (take_frame {E = E} total a ≡ wait)
        ⊎ (take_frame {E = E} total (a ++ b) ≡ extend (take_frame total a) b)
  take_frame_extends a b = elim (Bool-cases (ltb (length a) total)) [
    | inl e ↦ inl (rw e)
    | inr e ↦ inr (take_frame-emit a b (ltb-false _ _ e) ∙ rw e)
  ]

pub get_or-append : (a b : Bytes) (i d : ℕ) → i < length a → get_or (a ++ b) i d ≡ get_or a i d
get_or-append [] b i d h = absurd (omega arith)
get_or-append (x ∷ a) b zero d h = refl
get_or-append (x ∷ a) b (suc i) d h = get_or-append a b i d (omega arith)

pub slice-append : (i j : ℕ) (a b : Bytes) → j ≤ length a → i ≤ j → slice i j (a ++ b) ≡ slice i j a
slice-append i j a b h k =
    ap (take (j - i)) (drop-append i a b (omega arith))
    ∙ take-append (j - i) (drop i a) b (omega (arith, length-drop i a))

pub length-append-ltb :
    (n : ℕ) (a b : Bytes) → ltb (length a) n ≡ false → ltb (length (a ++ b)) n ≡ false
length-append-ltb n a b e =
    le→ltb-false _ _ (omega (arith, length-append a b, ltb-false (length a) n e))
