-- ===== src/Repository/Allowlist.antt =====
-- Who gets in: the device ids that `get_device_by_imei` of repositories/device_repository.py hands
-- out.
use shalotrack_gateway.Shared.{
  ◌≡◌, ◌≢◌, refl, ap, ◌∙◌, ◌⊎◌, inl, inr, Bool, true, false, Option, none, some, Bool-cases,
}
use shalotrack_gateway.Shared.Bytes.{bytes_eq}
use shalotrack_gateway.Shared.Text.{Text}
use shalotrack_gateway.Shared.Dict.{bytes_eq_iff}
use shalotrack_gateway.Shared.Attempt.{Attempt, returns, raises}
use shalotrack_gateway.Registry.{Family}
use shalotrack_gateway.World.{World, Environment, Registered, Setup}
use shalotrack_gateway.World.Action.{follow, value_or}
use shalotrack_gateway.Repository.{
  Lookup, known, rejected, activates, activated, judge_status, judge_setup, after_registered,
  look_up, conclude, get_device_by_imei, Allowed,
}

module _ (env : Environment) (w : World) (imei : Text) where
  judge_status-Allowed :
      (row : Registered)
      → env.fetch_registered w imei ≡ returns (some row)
      → (o : Option Text) → row.status ≡ o
      → (judge_status row.device_id o ≡ rejected) ⊎ Allowed env w imei
  judge_status-Allowed row e none q = inr (Allowed.registered row e (inl q))
  judge_status-Allowed row e (some s) q = elim (Bool-cases (bytes_eq s activated)) [
    | inl t ↦ inr (Allowed.registered row e (inr (q ∙ ap some ((bytes_eq_iff s activated).0 t))))
    | inr f ↦ inl (rw f)
  ]

  judge_setup-Allowed :
      (s : Option Setup)
      → env.fetch_registered w imei ≡ returns none
      → env.fetch_setup w imei ≡ returns s
      → (judge_setup s ≡ rejected) ⊎ Allowed env w imei
  judge_setup-Allowed none e q = inl refl
  judge_setup-Allowed (some s) e q = elim (Bool-cases (bytes_eq s.status activated)) [
    | inl t ↦ inr (Allowed.setup s e q ((bytes_eq_iff s.status activated).0 t))
    | inr f ↦ inl (rw f)
  ]

  after_setup-Allowed :
      (r : Attempt (Option Setup))
      → env.fetch_registered w imei ≡ returns none
      → env.fetch_setup w imei ≡ r
      → (value_or rejected (follow (λ s. λ v. (returns (judge_setup s), v)) r w).0 ≡ rejected)
        ⊎ Allowed env w imei
  after_setup-Allowed raises e q = inl refl
  after_setup-Allowed (returns s) e q = judge_setup-Allowed s e q

  look_up-Allowed :
      (r : Attempt (Option Registered))
      → env.fetch_registered w imei ≡ r
      → (value_or rejected (follow (after_registered env imei) r w).0 ≡ rejected)
        ⊎ Allowed env w imei
  look_up-Allowed raises e = inl refl
  look_up-Allowed (returns none) e = after_setup-Allowed (env.fetch_setup w imei) e refl
  look_up-Allowed (returns (some row)) e = judge_status-Allowed row e row.status refl

  look_up_world : (r : Attempt (Option Registered)) → (follow (after_registered env imei) r w).1 ≡ w
  look_up_world raises = refl
  look_up_world (returns none) = setup_world (env.fetch_setup w imei)
    where
      setup_world :
          (r : Attempt (Option Setup)) → (follow (λ s. λ v. (returns (judge_setup s), v)) r w).1 ≡ w
      setup_world raises = refl
      setup_world (returns s) = refl
  look_up_world (returns (some row)) = refl

  conclude_rejected :
      (protocol : Family) (l : Lookup) (v : World) (d : Text)
      → l ≡ rejected
      → (conclude env imei protocol l v).0 ≡ returns (some d)
      → ⊥
  conclude_rejected protocol (known x) v d e h = cc
  conclude_rejected protocol rejected v d e h = cc
  conclude_rejected protocol activates v d e h = cc

  borrowed-Allowed :
      (protocol : Family) (d : Text) (b : Bool)
      → env.borrows w ≡ b
      → (get_device_by_imei env imei protocol w).0 ≡ returns (some d)
      → Allowed env w imei
  unfolding get_device_by_imei
  borrowed-Allowed protocol d false e h = absurd (clash (rw (e, get_device_by_imei) at h))
    where
      clash : ◌≡◌ {A = Attempt (Option Text)} raises (returns (some d)) → ⊥
      clash q = cc
  borrowed-Allowed protocol d true e h =
      let h' = rw (e, get_device_by_imei) at h in
      elim (look_up-Allowed (env.fetch_registered w imei) refl) [
        | inl q ↦ absurd (conclude_rejected protocol _ _ d q h')
        | inr a ↦ a
      ]

-- A login is given a device id only when the IMEI has a device row whose setup row, if it has one,
-- says Activated, or has no device row and a setup row that says Activated.
pub get_device_by_imei-Allowed :
    (env : Environment) (w : World) (imei : Text) (protocol : Family) (device_id : Text)
    → (get_device_by_imei env imei protocol w).0 ≡ returns (some device_id)
    → Allowed env w imei
get_device_by_imei-Allowed env w imei protocol d h =
    borrowed-Allowed env w imei protocol d (env.borrows w) refl h

-- A device that is replaced or switched off stays out: with a device row and a setup row whose
-- status is not Activated no device id is given out, whatever the environment answers else.
pub get_device_by_imei_refuses :
    (env : Environment) (w : World) (imei : Text) (protocol : Family) (row : Registered) (s : Text)
    → env.borrows w ≡ true
    → env.fetch_registered w imei ≡ returns (some row)
    → row.status ≡ some s
    → s ≢ activated
    → get_device_by_imei env imei protocol w ≡ (returns none, w)
unfolding get_device_by_imei look_up
get_device_by_imei_refuses env w imei protocol row s b e q ne = rw (b, e, q, refused) refl
  where
    refused : bytes_eq s activated ≡ false
    refused = elim (Bool-cases (bytes_eq s activated)) [
      | inl t ↦ absurd (ne ((bytes_eq_iff s activated).0 t))
      | inr f ↦ f
    ]
