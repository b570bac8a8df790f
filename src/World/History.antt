-- ===== src/World/History.antt =====
-- What the log of a world says, and that it only grows.
use shalotrack_gateway.Shared.{◌≡◌, ◌⊎◌, inr, List, [], ◌∷◌, ◌++◌}
use shalotrack_gateway.World.{Event}

-- The event stands somewhere in the log.
abbrev pub Logged : Event → List Event → Type 0
Logged e [] = ⊥
Logged e (x ∷ log) = (x ≡ e) ⊎ Logged e log

-- The second log is the first one with newer events in front.
abbrev pub Grows : List Event → List Event → Type 0
Grows old new = (more : List Event) × (new ≡ more ++ old)

pub Logged-append : (e : Event) (more old : List Event) → Logged e old → Logged e (more ++ old)
Logged-append e [] old h = h
Logged-append e (x ∷ more) old h = inr (Logged-append e more old h)

pub Logged-Grows : (e : Event) {old new : List Event} → Grows old new → Logged e old → Logged e new
Logged-Grows e {old} g h = rw g.1 (Logged-append e g.0 old h)
