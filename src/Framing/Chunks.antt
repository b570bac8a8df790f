-- ===== src/Framing/Chunks.antt =====
-- What every framer gets from its two laws: splitting a stream that TCP has cut, where the split
-- ends, and splitting a stream of well-formed frames.
use shalotrack_gateway.Shared.{
  ℕ, zero, suc, ◌<◌, ◌≡◌, refl, ap, ◌∙◌, sym, inl, inr, List, [], ◌∷◌, ◌++◌, append_assoc,
  append-nil, arith, length, All,
}
use shalotrack_gateway.Shared.Bytes.{Bytes}
use shalotrack_gateway.Framing.Splitter.{
  Turn, wait, emit, skip, fail, Outcome, done, raised, resume, extend, Shrinks, prefixed, split,
  extract, Framer, split_fuel,
}

module _ {E : Type 0} where
  prefixed-prefixed :
      (fs gs : List Bytes) (o : Outcome E) → prefixed fs (prefixed gs o) ≡ prefixed (fs ++ gs) o
  prefixed-prefixed fs gs (done hs r) = ap (λ x. done x r) (sym (append_assoc fs gs hs))
  prefixed-prefixed fs gs (raised e) = refl

  pub prefixed-nil : (o : Outcome E) → prefixed [] o ≡ o
  prefixed-nil (done fs r) = refl
  prefixed-nil (raised e) = refl

  -- Go on with the remaining buffer and more bytes behind it.
  abbrev pub feed : (Bytes → Outcome E) → Bytes → Outcome E → Outcome E
  feed next more (done frames rest) = prefixed frames (next (rest ++ more))
  feed next more (raised e) = raised e

  feed-prefixed :
      (next : Bytes → Outcome E) (more : Bytes) (fs : List Bytes) (o : Outcome E)
      → feed next more (prefixed fs o) ≡ prefixed fs (feed next more o)
  feed-prefixed next more fs (done gs rest) = sym (prefixed-prefixed fs gs (next (rest ++ more)))
  feed-prefixed next more fs (raised e) = refl

  -- The outcome of a split that stopped where the turn waits.
  abbrev pub Settled : (Bytes → Turn E) → Outcome E → Type 0
  Settled turn (done frames rest) = turn rest ≡ wait
  Settled turn (raised e) = Unit

module _ {E : Type 0} (turn : Bytes → Turn E) where
  resume-acc :
      (f : ℕ) (fs gs : List Bytes) (b : Bytes) (t : Turn E)
      → ((hs : List Bytes) (c : Bytes)
          → split turn f (fs ++ hs) c ≡ prefixed fs (split turn f hs c))
      → resume (split turn f) (fs ++ gs) b t ≡ prefixed fs (resume (split turn f) gs b t)
  resume-acc f fs gs b wait ih = refl
  resume-acc f fs gs b (emit m rest) ih =
      ap (λ x. split turn f x rest) (append_assoc fs gs (m ∷ [])) ∙ ih (gs ++ m ∷ []) rest
  resume-acc f fs gs b (skip rest) ih = ih gs rest
  resume-acc f fs gs b (fail e) ih = refl

  -- The frames found so far only stand in front.
  pub split-acc :
      (f : ℕ) (fs gs : List Bytes) (b : Bytes)
      → split turn f (fs ++ gs) b ≡ prefixed fs (split turn f gs b)
  unfolding split
  split-acc zero fs gs b = refl
  split-acc (suc f) fs gs b = resume-acc f fs gs b (turn b) (λ hs c. split-acc f fs hs c)

  pub split-prefixed :
      (f : ℕ) (fs : List Bytes) (b : Bytes) → split turn f fs b ≡ prefixed fs (split turn f [] b)
  split-prefixed f fs b = ap (λ x. split turn f x b) (sym (append-nil fs)) ∙ split-acc f fs [] b

module _ {E : Type 0} (F : Framer E) where
  open F use {turn, shrinks, extends}

  Settled-resume :
      (f : ℕ) (fs : List Bytes) (b : Bytes) (t : Turn E)
      → turn b ≡ t
      → ((gs : List Bytes) (c : Bytes) → length c < length b → Settled turn (split turn f gs c))
      → Shrinks (length b) t
      → Settled turn (resume (split turn f) fs b t)
  Settled-resume f fs b wait e ih h = e
  Settled-resume f fs b (emit m rest) e ih h = ih _ rest h
  Settled-resume f fs b (skip rest) e ih h = ih fs rest h
  Settled-resume f fs b (fail x) e ih h = tt

  split-Settled :
      (f : ℕ) (fs : List Bytes) (b : Bytes) → length b < f → Settled turn (split turn f fs b)
  unfolding split
  split-Settled zero fs b h = absurd (omega arith)
  split-Settled (suc f) fs b h =
      Settled-resume f fs b (turn b) refl (λ gs c lt. split-Settled f gs c (omega arith))
        (shrinks b)

  -- The loop ends by a `break` of its own, and never for want of fuel.
  pub extract-Settled : (b : Bytes) → Settled turn (extract turn b)
  unfolding extract
  extract-Settled b = split-Settled (suc (length b)) [] b (omega arith)

  split-extract :
      (f : ℕ) (fs : List Bytes) (b : Bytes)
      → length b < f
      → split turn f fs b ≡ prefixed fs (extract turn b)
  unfolding extract
  split-extract f fs b h =
      split_fuel F f (suc (length b)) fs b h (omega arith) ∙ split-prefixed turn _ fs b

  -- One turn of the loop, on the whole buffer.
  pub extract_turn :
      (b : Bytes) → extract turn b ≡ resume (λ fs c. prefixed fs (extract turn c)) [] b (turn b)
  unfolding extract split
  extract_turn b = go (turn b) (shrinks b)
    where
      go :
          (t : Turn E)
          → Shrinks (length b) t
          → resume (split turn (length b)) [] b t
            ≡ resume (λ fs c. prefixed fs (extract turn c)) [] b t
      go wait h = refl
      go (emit m rest) h = split-extract (length b) (m ∷ []) rest h
      go (skip rest) h = split-extract (length b) [] rest h
      go (fail e) h = refl

  pub extract_wait : (b : Bytes) → turn b ≡ wait → extract turn b ≡ done [] b
  extract_wait b e = extract_turn b ∙ ap (resume (λ fs c. prefixed fs (extract turn c)) [] b) e

  pub extract_emit :
      (b m rest : Bytes)
      → turn b ≡ emit m rest
      → extract turn b ≡ prefixed (m ∷ []) (extract turn rest)
  extract_emit b m rest e =
      extract_turn b ∙ ap (resume (λ fs c. prefixed fs (extract turn c)) [] b) e

  pub extract_skip : (b rest : Bytes) → turn b ≡ skip rest → extract turn b ≡ extract turn rest
  extract_skip b rest e =
      extract_turn b
      ∙ ap (resume (λ fs c. prefixed fs (extract turn c)) [] b) e
      ∙ prefixed-nil (extract turn rest)

  pub extract_fail : (b : Bytes) (x : E) → turn b ≡ fail x → extract turn b ≡ raised x
  extract_fail b x e = extract_turn b ∙ ap (resume (λ fs c. prefixed fs (extract turn c)) [] b) e

  chunk_turn :
      (a b : Bytes) (t : Turn E)
      → turn a ≡ t
      → turn (a ++ b) ≡ extend t b
      → Shrinks (length a) t
      → ((c : Bytes)
          → length c < length a
          → extract turn (c ++ b) ≡ feed (extract turn) b (extract turn c))
      → extract turn (a ++ b) ≡ feed (extract turn) b (extract turn a)
  chunk_turn a b wait e e' h ih =
      sym (prefixed-nil (extract turn (a ++ b)))
      ∙ ap (feed (extract turn) b) (sym (extract_wait a e))
  chunk_turn a b (emit m r) e e' h ih =
      extract_emit (a ++ b) m (r ++ b) e'
      ∙ ap (prefixed (m ∷ [])) (ih r h)
      ∙ sym (feed-prefixed (extract turn) b (m ∷ []) (extract turn r))
      ∙ ap (feed (extract turn) b) (sym (extract_emit a m r e))
  chunk_turn a b (skip r) e e' h ih =
      extract_skip (a ++ b) (r ++ b) e'
      ∙ ih r h
      ∙ ap (feed (extract turn) b) (sym (extract_skip a r e))
  chunk_turn a b (fail x) e e' h ih =
      extract_fail (a ++ b) x e' ∙ ap (feed (extract turn) b) (sym (extract_fail a x e))

  chunk_below :
      (n : ℕ) (a b : Bytes)
      → length a < n
      → extract turn (a ++ b) ≡ feed (extract turn) b (extract turn a)
  chunk_below zero a b h = absurd (omega arith)
  chunk_below (suc n) a b h = elim (extends a b) [
    | inl e ↦
        sym (prefixed-nil (extract turn (a ++ b)))
        ∙ ap (feed (extract turn) b) (sym (extract_wait a e))
    | inr e ↦ chunk_turn a b (turn a) refl e (shrinks a) (λ c lt. chunk_below n c b (omega arith))
  ]

  -- Splitting what has arrived, and then the remaining buffer with what arrives later, finds the
  -- frames that splitting everything at once finds, and stops with the same buffer.
  pub extract-append :
      (a b : Bytes) → extract turn (a ++ b) ≡ feed (extract turn) b (extract turn a)
  extract-append a b = chunk_below (suc (length a)) a b (omega arith)

  -- The reads of one connection, each put behind the buffer that the last split left.
  abbrev pub feed_all : List Bytes → Outcome E → Outcome E
  feed_all [] o = o
  feed_all (chunk ∷ chunks) o = feed_all chunks (feed (extract turn) chunk o)

  abbrev pub joined : Bytes → List Bytes → Bytes
  joined b [] = b
  joined b (chunk ∷ chunks) = joined (b ++ chunk) chunks

  pub feed_all-extract :
      (b : Bytes) (chunks : List Bytes)
      → feed_all chunks (extract turn b) ≡ extract turn (joined b chunks)
  feed_all-extract b [] = refl
  feed_all-extract b (chunk ∷ chunks) =
      ap (feed_all chunks) (sym (extract-append b chunk)) ∙ feed_all-extract (b ++ chunk) chunks

  -- A frame that the turn takes off whatever follows it.
  abbrev pub IsFrame : Bytes → Type 0
  IsFrame m = (rest : Bytes) → turn (m ++ rest) ≡ emit m rest

  abbrev pub concat : List Bytes → Bytes → Bytes
  concat [] tail = tail
  concat (m ∷ ms) tail = m ++ concat ms tail

  -- Frames sent one behind another come back one by one.
  pub extract-concat :
      (ms : List Bytes) (tail : Bytes)
      → All IsFrame ms
      → extract turn (concat ms tail) ≡ prefixed ms (extract turn tail)
  extract-concat [] tail h = sym (prefixed-nil (extract turn tail))
  extract-concat (m ∷ ms) tail h =
      extract_emit (m ++ concat ms tail) m (concat ms tail) (h.0 (concat ms tail))
      ∙ ap (prefixed (m ∷ [])) (extract-concat ms tail h.1)
      ∙ prefixed-prefixed (m ∷ []) ms (extract turn tail)
