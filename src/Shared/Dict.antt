-- ===== src/Shared/Dict.antt =====
-- Dictionaries of Python as association lists in insertion order: d[k] = v keeps the place of a key
-- that is there, and puts a new key at the end.
use mathlib.Core.Path.{◌≡◌, refl, sym, ap, ◌∙◌, subst}
use mathlib.Core.Logic.{◌↔◌, ◌≢◌, inl, inr}
use mathlib.Core.Bool.{Bool, true, false}
use mathlib.Core.Option.{Option, none, some}
use mathlib.Core.List.{List, [], ◌∷◌}
use Prim.Native.Nat.{ℕ}
use native.Mathlib.Omega.{arith}
use shalotrack_gateway.Shared.Tests.{Bool-cases, if◌then◌else◌, ◌==◌ as nat_beq, ==_iff}
use shalotrack_gateway.Shared.Bytes.{Bytes, bytes_eq, bytes_eq→eq, bytes_eq_refl}

-- Keys that can be compared.
pub record Key (K : Type 0) : Type 0 where
  pub beq : K → K → Bool
  pub beq_iff : (a b : K) → (beq a b ≡ true) ↔ (a ≡ b)

instance abbrev pub nat_key : Key ℕ
nat_key = record { beq = nat_beq; beq_iff = ==_iff }

pub bytes_eq_iff : (a b : Bytes) → (bytes_eq a b ≡ true) ↔ (a ≡ b)
bytes_eq_iff a b = (bytes_eq→eq a b, λ h. subst (λ c. bytes_eq a c ≡ true) h (bytes_eq_refl a))

instance abbrev pub text_key : Key Bytes
text_key = record { beq = bytes_eq; beq_iff = bytes_eq_iff }

abbrev pub Dict : Type 0 → Type 0 → Type 0
Dict K V = List (K × V)

module _ {K V : Type 0} ⦃e : Key K⦄ where
  -- d.get(k)
  unfoldable pub get : K → Dict K V → Option V
  get k [] = none
  get k ((j, v) ∷ d) = if e.beq j k then some v else get k d

  -- d[k] = v
  unfoldable pub put : K → V → Dict K V → Dict K V
  put k v [] = (k, v) ∷ []
  put k v ((j, w) ∷ d) = if e.beq j k then (k, v) ∷ d else (j, w) ∷ put k v d

  -- d.pop(k, None), for the dictionary that is left
  unfoldable pub pop : K → Dict K V → Dict K V
  pop k [] = []
  pop k ((j, w) ∷ d) = let rest = pop k d in if e.beq j k then rest else (j, w) ∷ rest

  pub get-put :
      (k j : K) (v : V) (d : Dict K V) → get j (put k v d) ≡ (if e.beq k j then some v else get j d)
  unfolding get put
  get-put k j v [] = refl
  get-put k j v ((i, w) ∷ d) =
      ground (arith, e.beq_iff k j, e.beq_iff i k, e.beq_iff i j, get-put k j v d)

  pub get-pop : (k j : K) (d : Dict K V) → get j (pop k d) ≡ (if e.beq k j then none else get j d)
  unfolding get pop
  get-pop k j [] = ground arith
  get-pop k j ((i, w) ∷ d) =
      ground (arith, e.beq_iff k j, e.beq_iff i k, e.beq_iff i j, get-pop k j d)

  put_past :
      (k j : K) (v w : V) (d : Dict K V)
      → e.beq j k ≡ false
      → put k v ((j, w) ∷ d) ≡ (j, w) ∷ put k v d
  unfolding put
  put_past k j v w d f = rw f refl

  pub put_twice : (k : K) (u v : V) (d : Dict K V) → put k v (put k u d) ≡ put k v d
  unfolding put
  put_twice k u v [] = rw ((e.beq_iff k k).1 refl) refl
  put_twice k u v ((j, w) ∷ d) = elim (Bool-cases (e.beq j k)) [
    | inl t ↦ rw (t, (e.beq_iff k k).1 refl) refl
    | inr f ↦
        ap (put k v) (put_past k j u w d f)
        ∙ put_past k j v w (put k u d) f
        ∙ ap (λ rest. (j, w) ∷ rest) (put_twice k u v d)
        ∙ sym (put_past k j v w d f)
  ]

  pub get-put_self : (k : K) (v : V) (d : Dict K V) → get k (put k v d) ≡ some v
  get-put_self k v d = ground (arith, get-put k k v d, e.beq_iff k k)

  pub get-put_ne : (k j : K) (v : V) (d : Dict K V) → k ≢ j → get j (put k v d) ≡ get j d
  get-put_ne k j v d h = ground (arith, get-put k j v d, e.beq_iff k j)

  pub get-pop_self : (k : K) (d : Dict K V) → get k (pop k d) ≡ none
  get-pop_self k d = ground (arith, get-pop k k d, e.beq_iff k k)

  pub get-pop_ne : (k j : K) (d : Dict K V) → k ≢ j → get j (pop k d) ≡ get j d
  get-pop_ne k j d h = ground (arith, get-pop k j d, e.beq_iff k j)
