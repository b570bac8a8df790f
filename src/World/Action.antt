-- ===== src/World/Action.antt =====
-- Coroutines as actions on the world that may raise. What was done before a raise stays done.
use shalotrack_gateway.Shared.{ℕ, Bool, true, false, ◌∷◌, if◌then◌else◌}
use shalotrack_gateway.Shared.Bytes.{Bytes}
use shalotrack_gateway.Shared.Text.{Text}
use shalotrack_gateway.Shared.Attempt.{Attempt, returns, raises}
use shalotrack_gateway.World.{
  World, Environment, Statement, Event, wrote, closed, asked, RawMode, off, selective, all,
}
use shalotrack_gateway.Registry.{Registry}

abbrev pub Action : Type 0 → Type 0
Action A = World → Attempt A × World

abbrev pub pure : {A : Type 0} → A → Action A
pure a w = (returns a, w)

abbrev pub fault : {A : Type 0} → Action A
fault w = (raises, w)

abbrev pub follow : {A B : Type 0} → (A → Action B) → Attempt A → Action B
follow f (returns a) w = f a w
follow f raises w = (raises, w)

infixl 5 ◌>>=◌ ◌>>◌
abbrev pub ◌>>=◌ : {A B : Type 0} → Action A → (A → Action B) → Action B
◌>>=◌ m f w = let (r, w') = m w in follow f r w'

abbrev pub ◌>>◌ : {A B : Type 0} → Action A → Action B → Action B
m >> k = m >>= λ _. k

abbrev pub lift : {A : Type 0} → Attempt A → Action A
lift r w = (r, w)

abbrev pub gets : {A : Type 0} → (World → A) → Action A
gets f w = (returns (f w), w)

-- An answer of the environment, which may be an exception.
abbrev pub asks : {A : Type 0} → (World → Attempt A) → Action A
asks f w = (f w, w)

abbrev pub update_registry : (Registry → Registry) → Action Unit
update_registry f w = (returns tt, record w { registry = f w.registry })

abbrev pub record_event : Event → Action Unit
record_event e w = (returns tt, record w { log = e ∷ w.log })

-- except Exception: with a value in place of what raised
abbrev pub value_or : {A : Type 0} → A → Attempt A → A
value_or a (returns b) = b
value_or a raises = a

abbrev pub catch : {A : Type 0} → A → Action A → Action A
catch a m w = let (r, w') = m w in (returns (value_or a r), w')

-- writer.close(), whose exceptions are swallowed
abbrev pub close : ℕ → Action Unit
close conn = record_event (closed conn)

-- `_safely`: run one write; log and swallow its failure
unfoldable pub safely : Action Unit → Action Unit
safely m w = let (r, w') = m w in (returns tt, w')

module _ (env : Environment) where
  -- await conn.execute(...)
  unfoldable pub execute : Statement → Action Unit
  execute s w =
      let went = env.accepts w s in
      (if went then returns tt else raises, record w { log = asked s went ∷ w.log })

  -- `_send`: writer.write(payload); await writer.drain(), with the exceptions swallowed
  unfoldable pub send : ℕ → Bytes → Action Unit
  send conn payload w =
      (returns tt, record w { log = wrote conn payload (env.drains w conn) ∷ w.log })

  -- services/raw_packet_policy.py
  abbrev pub store_raw_in : RawMode → Bool → Bool → Bool
  store_raw_in off always sampled = false
  store_raw_in all always sampled = true
  store_raw_in selective always sampled = if always then true else sampled

  unfoldable pub should_store_raw : Bool → World → Bool
  should_store_raw always w = store_raw_in env.raw_mode always (env.samples w)

  -- `_save_raw` of the handlers
  unfoldable pub save_raw_packet : Text → Text → Bytes → Bool → Bool → Action Unit
  unfolding should_store_raw execute
  save_raw_packet device_id protocol raw always parsed w =
      if should_store_raw always w
      then execute (Statement.save_raw device_id protocol raw parsed) w
      else (returns tt, w)
