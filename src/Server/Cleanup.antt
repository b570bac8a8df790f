-- ===== src/Server/Cleanup.antt =====
-- The `finally` block of `handle_device` in tcp_server.py, and the count of connections.
use shalotrack_gateway.Shared.{
  ℕ, ◌+◌, ◌-◌, ◌≤◌, ◌≡◌, refl, inl, inr, false, Option, none, some, List, ◌∷◌, arith, Bool-cases,
  leb, leb-false,
}
use shalotrack_gateway.Shared.Bytes.{Bytes}
use shalotrack_gateway.Shared.Text.{Text}
use shalotrack_gateway.Registry.{Entry, Family}
use shalotrack_gateway.World.{Environment, Statement, Event, asked, closed}
use shalotrack_gateway.World.Action.{execute}
use shalotrack_gateway.Server.{Gateway, Pipeline, finish_own, clean_up, handle_device}

-- How the clean-up of a connection ends.
pub data Ended (conn : ℕ) (g g' : Gateway) : Type 0 where
  freed :
      (log : List Event)
      → g'.world.log ≡ closed conn ∷ log
      → g'.connection_count ≡ g.connection_count - 1
      → Ended conn g g'
  stuck :
      (device_id : Text)
      → g'.world.log ≡ asked (Statement.set_device_offline device_id) false ∷ g.world.log
      → g'.world.registry ≡ g.world.registry
      → g'.connection_count ≡ g.connection_count
      → Ended conn g g'

module _ (env : Environment) where
  finish_own-Ended :
      (own : Option (Text × Entry)) (conn : ℕ) (g : Gateway)
      → Ended conn g (finish_own env own conn g)
  unfolding execute
  finish_own-Ended none conn g = freed _ refl refl
  finish_own-Ended (some (imei, device)) conn g =
      elim (Bool-cases (env.accepts g.world (Statement.set_device_offline device.device_id))) [
        | inl e ↦ rw e (freed _ refl refl)
        | inr e ↦ rw e (stuck device.device_id refl refl refl)
      ]

  -- However a connection ends, its clean-up either closes the socket and frees one slot, or the
  -- statement that marks the device offline was refused, in which case the registry and the count
  -- of connections are as before and nothing was done after that statement.
  pub clean_up-Ended :
      (imei : Option Text) (conn : ℕ) (g : Gateway) → Ended conn g (clean_up env imei conn g)
  unfolding clean_up
  clean_up-Ended imei conn g = finish_own-Ended _ conn g

  -- What a connection leaves of the count.
  pub data Counted (g g' : Gateway) : Type 0 where
    same : g'.connection_count ≡ g.connection_count → Counted g g'
    leaked :
        (device_id : Text) (log : List Event)
        → g'.world.log ≡ asked (Statement.set_device_offline device_id) false ∷ log
        → g'.connection_count ≡ g.connection_count + 1
        → Counted g g'

  Ended-Counted :
      (conn : ℕ) (g g1 g' : Gateway)
      → g1.connection_count ≡ g.connection_count + 1
      → Ended conn g1 g'
      → Counted g g'
  Ended-Counted conn g g1 g' c (freed log l e) = same (omega (arith, c, e))
  Ended-Counted conn g g1 g' c (stuck id l r e) = leaked id _ l (omega (arith, c, e))

  Ended-cap :
      {conn : ℕ} {g g' : Gateway} (max_connections : ℕ)
      → g.connection_count ≤ max_connections
      → Ended conn g g'
      → g'.connection_count ≤ max_connections
  Ended-cap max_connections h (freed log l e) = omega (arith, h, e)
  Ended-cap max_connections h (stuck id l r e) = omega (arith, h, e)

  module _ (max_connections : ℕ) (enabled : List Family) (pipelines : Family → Pipeline) (conn : ℕ)
      (ip : Text) (reads : List Bytes) (g : Gateway) where
    -- After a connection, served or rejected, the count of connections is what it was before,
    -- unless its last event is a refused statement that marks a device offline: then it is one more.
    pub handle_device_counts :
        Counted g (handle_device env max_connections enabled pipelines conn ip reads g)
    unfolding handle_device
    handle_device_counts = elim (Bool-cases (leb max_connections g.connection_count)) [
      | inl e ↦ rw e (same refl)
      | inr e ↦ rw e (Ended-Counted conn g _ _ refl (clean_up-Ended _ conn _))
    ]

    -- A count of connections within the maximum is within it after a connection, served or rejected.
    pub handle_device_cap :
        g.connection_count ≤ max_connections
        → (handle_device env max_connections enabled pipelines conn ip reads g).connection_count
          ≤ max_connections
    unfolding handle_device
    handle_device_cap h = elim (Bool-cases (leb max_connections g.connection_count)) [
      | inl e ↦ rw e h
      | inr e ↦
          rw e
            (Ended-cap max_connections (omega (arith, leb-false _ _ e)) (clean_up-Ended _ conn _))
    ]
