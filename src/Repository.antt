-- ===== src/Repository.antt =====
-- repositories/device_repository.py: which device an IMEI is, and which vehicle it is on. The rows
-- that the queries give are the environment's; the decision what to make of them is here.
pub mod Allowlist
use shalotrack_gateway.Shared.{
  ℕ, ◌≡◌, refl, ◌⊎◌, inl, inr, Bool, true, false, Option, none, some, List, [], ◌∷◌, arith,
  if◌then◌else◌,
}
use shalotrack_gateway.Shared.Bytes.{bytes_eq}
use shalotrack_gateway.Shared.Text.{Text, codes}
use shalotrack_gateway.Shared.Dict.{bytes_eq_iff}
use shalotrack_gateway.Shared.Attempt.{Attempt, returns, raises, require}
use shalotrack_gateway.Registry.{Family}
use shalotrack_gateway.World.{World, Environment, Registered, Setup}
use shalotrack_gateway.World.Action.{Action, pure, lift, gets, asks, catch, ◌>>=◌, ◌>>◌}

abbrev pub activated : Text
activated = codes "Activated"

-- What the two lookups on the borrowed connection come to.
pub data Lookup : Type 0 where
  known : Text → Lookup
  rejected : Lookup
  activates : Lookup

-- A device without a setup row is allowed; one whose setup row is not Activated is refused.
abbrev judge_status : Text → Option Text → Lookup
judge_status device_id none = known device_id
judge_status device_id (some status) =
    if bytes_eq status activated then known device_id else rejected

abbrev judge_setup : Option Setup → Lookup
judge_setup none = rejected
judge_setup (some setup) = if bytes_eq setup.status activated then activates else rejected

module _ (env : Environment) where
  abbrev after_registered : Text → Option Registered → Action Lookup
  after_registered imei (some row) = pure (judge_status row.device_id row.status)
  after_registered imei none = do
    setup ← asks (λ w. env.fetch_setup w imei)
    pure (judge_setup setup)

  unfoldable pub look_up : Text → Action Lookup
  look_up imei = do row ← asks (λ w. env.fetch_registered w imei); after_registered imei row

  -- INSERT ... ON CONFLICT DO NOTHING, and the row read back
  unfoldable pub auto_register : Text → Family → Action (Option Text)
  auto_register imei protocol = do
    asks (λ w. env.insert_device w imei protocol)
    asks (λ w. env.refetch_device w imei)

  abbrev conclude : Text → Family → Lookup → Action (Option Text)
  conclude imei protocol (known device_id) = pure (some device_id)
  conclude imei protocol rejected = pure none
  conclude imei protocol activates = catch none (auto_register imei protocol)

  unfoldable pub get_device_by_imei : Text → Family → Action (Option Text)
  unfolding look_up auto_register
  get_device_by_imei imei protocol = do
    borrowed ← gets env.borrows
    lift (require borrowed)
    found ← catch rejected (look_up imei)
    conclude imei protocol found

  unfoldable pub get_vehicle_by_device : Text → Action (Option Text)
  get_vehicle_by_device device_id = do
    borrowed ← gets env.borrows
    lift (require borrowed)
    catch none (asks (λ w. env.fetch_vehicle w device_id))

  -- Either the IMEI has a device row, and no setup row that says other than Activated, or it has no
  -- device row and its setup row says Activated.
  pub data Allowed (w : World) (imei : Text) : Type 0 where
    registered :
        (row : Registered)
        → env.fetch_registered w imei ≡ returns (some row)
        → (row.status ≡ none) ⊎ (row.status ≡ some activated)
        → Allowed w imei
    setup :
        (s : Setup)
        → env.fetch_registered w imei ≡ returns none
        → env.fetch_setup w imei ≡ returns (some s)
        → s.status ≡ activated
        → Allowed w imei
