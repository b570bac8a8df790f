-- ===== src/Handlers/Gps103/Calm.antt =====
-- Actions of services/gps103_handler.py that raise nothing: what they leave alone, and how they
-- compose.
use shalotrack_gateway.Shared.{
  ℕ, ◌≡◌, refl, sym, ap, ◌∙◌, subst, Bool, true, false, none, List, [], ◌∷◌, ◌++◌, append_assoc,
  if◌then◌else◌, Bool-cases, inl, inr,
}
use shalotrack_gateway.Shared.Bytes.{Bytes}
use shalotrack_gateway.Shared.Text.{Text}
use shalotrack_gateway.Shared.Attempt.{Attempt, returns, raises}
use shalotrack_gateway.World.{World, Environment, Statement, Event}
use shalotrack_gateway.World.Action.{
  Action, pure, follow, catch, safely, send, execute, save_raw_packet, should_store_raw, ◌>>=◌,
}
use shalotrack_gateway.World.History.{Grows}
use shalotrack_gateway.Repository.{get_vehicle_by_device}

-- An action that returns a value of a kind, binds no socket anew, and only adds to the log.
pub record Calmly {A : Type 0} (P : A → Type 0) (w : World) (r : Attempt A × World) : Type 0 where
  pub value : A
  pub holds : P value
  pub runs : r.0 ≡ returns value
  pub bindings : r.1.registry.by_socket ≡ w.registry.by_socket
  pub grows : Grows w.log r.1.log

abbrev pub Calm : {A : Type 0} → (A → Type 0) → Action A → Type 0
Calm P m = (w : World) → Calmly P w (m w)

abbrev pub Any : {A : Type 0} → A → Type 0
Any a = Unit

Grows-trans : {a b c : List Event} → Grows a b → Grows b c → Grows a c
Grows-trans (x, p) (y, q) = (y ++ x, q ∙ ap (λ l. y ++ l) p ∙ sym (append_assoc y x _))

pub Calm-pure : {A : Type 0} (P : A → Type 0) (a : A) → P a → Calm P (pure a)
Calm-pure P a h w = record {
  value = a;
  holds = h;
  runs = refl;
  bindings = refl;
  grows = ([], refl);
}

bound-Calmly :
    {A B : Type 0} (P : A → Type 0) (Q : B → Type 0) (w : World) (r : Attempt A) (v : World)
    (f : A → Action B)
    → Calmly P w (r, v)
    → ((a : A) → P a → Calm Q (f a))
    → Calmly Q w (follow f r v)
bound-Calmly P Q w raises v f h k = absurd (clash h.runs)
  where
    clash : {C : Type 0} {c : C} → ◌≡◌ {A = Attempt C} raises (returns c) → ⊥
    clash q = cc
bound-Calmly P Q w (returns a) v f h k =
    let a' : h.value ≡ a = sym (returns_injective h.runs) in
    let later = k a (subst P a' h.holds) v in
    record {
      value = later.value;
      holds = later.holds;
      runs = later.runs;
      bindings = later.bindings ∙ h.bindings;
      grows = Grows-trans h.grows later.grows;
    }
  where
    returns_injective : {C : Type 0} {c d : C} → returns c ≡ returns d → c ≡ d
    returns_injective q = cc

pub Calm->>= :
    {A B : Type 0} (P : A → Type 0) (Q : B → Type 0) (m : Action A) (f : A → Action B)
    → Calm P m
    → ((a : A) → P a → Calm Q (f a))
    → Calm Q (m >>= f)
Calm->>= P Q m f h k w = bound-Calmly P Q w (m w).0 (m w).1 f (h w) k

pub Calm-if :
    {A : Type 0} (P : A → Type 0) (b : Bool) (m n : Action A)
    → Calm P m
    → Calm P n
    → Calm P (if b then m else n)
Calm-if P true m n h k = h
Calm-if P false m n h k = k

module _ (env : Environment) where
  pub Calm-send : (conn : ℕ) (payload : Bytes) → Calm Any (send env conn payload)
  unfolding send
  Calm-send conn payload w = record {
    value = tt;
    holds = tt;
    runs = refl;
    bindings = refl;
    grows = (_ ∷ [], refl);
  }

  pub Calm-execute : (s : Statement) → Calm Any (safely (execute env s))
  unfolding safely execute
  Calm-execute s w = record {
    value = tt;
    holds = tt;
    runs = refl;
    bindings = refl;
    grows = (_ ∷ [], refl);
  }

  pub Calm-save_raw_packet :
      (device_id protocol : Text) (raw : Bytes) (always parsed : Bool)
      → Calm Any (safely (save_raw_packet env device_id protocol raw always parsed))
  unfolding safely save_raw_packet
  Calm-save_raw_packet device_id protocol raw always parsed w =
      elim (Bool-cases (should_store_raw env always w)) [
        | inl t ↦ rw t (record {
          value = tt;
          holds = tt;
          runs = refl;
          bindings = refl;
          grows = (_ ∷ [], refl);
        })
        | inr f ↦
            rw f
              (record { value = tt; holds = tt; runs = refl; bindings = refl; grows = ([], refl) })
      ]

  vehicle_world : (device_id : Text) (w : World) → (get_vehicle_by_device env device_id w).1 ≡ w
  unfolding get_vehicle_by_device
  vehicle_world device_id w = elim (Bool-cases (env.borrows w)) [
    | inl t ↦ rw t refl
    | inr f ↦ rw f refl
  ]

  -- A lookup whose exceptions are caught.
  pub Calm-vehicle :
      (device_id : Text) → Calm Any (catch none (get_vehicle_by_device env device_id))
  Calm-vehicle device_id w = record {
    value = _;
    holds = tt;
    runs = refl;
    bindings = ap (λ (v : World). v.registry.by_socket) (vehicle_world device_id w);
    grows = ([], ap (λ (v : World). v.log) (vehicle_world device_id w));
  }
