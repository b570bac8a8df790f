-- ===== src/Tracking/Replay.antt =====
-- Positions that are stored more than once.
use shalotrack_gateway.Shared.{
  ℕ, suc, ◌≡◌, Bool, true, Option, none, some, List, [], ◌∷◌, drop, if◌then◌else◌,
}
use shalotrack_gateway.Shared.Text.{Text}
use shalotrack_gateway.Shared.Dict.{Dict, get, text_key}
use shalotrack_gateway.World.{EventTime, Position}
use shalotrack_gateway.Tracking.{
  TrackRow, LiveRow, Tables, is_recorded, insert_tracking, ignition_of, track_row, put_live,
  save_location,
}

-- The records of a packet, stored in their order: those that are skipped on purpose are `none`, and
-- the first insert that the database refuses ends the loop. The answers are the database's, the first
-- for the first record. Also how many records count as accepted.
unfoldable pub save_batch :
    Bool → (EventTime → ℕ) → Text → (ℕ → Bool) → List (Option Position) → Tables → ℕ × Tables
unfolding save_location
save_batch idempotent instant_of device_id answers [] t = (0, t)
save_batch idempotent instant_of device_id answers (none ∷ records) t =
    let (accepted, t') =
      save_batch idempotent instant_of device_id (λ n. answers (suc n)) records t in
    (suc accepted, t')
save_batch idempotent instant_of device_id answers (some p ∷ records) t =
    let (accepted, t') =
      save_batch idempotent instant_of device_id (λ n. answers (suc n)) records
        (save_location idempotent instant_of device_id p t).1 in
    if answers 0 then (suc accepted, t') else (0, t)

-- A device that delivers its records once for each of the database's answers. The acknowledgement says
-- how many were accepted; where it arrives, the device delivers only the others from then on.
abbrev pub redeliver :
    Bool
    → (EventTime → ℕ)
    → Text
    → List ((ℕ → Bool) × Bool)
    → List (Option Position)
    → Tables
    → List (Option Position) × Tables
redeliver idempotent instant_of device_id [] records t = (records, t)
redeliver idempotent instant_of device_id ((answers, heard) ∷ deliveries) records t =
    let (accepted, t') = save_batch idempotent instant_of device_id answers records t in
    redeliver idempotent instant_of device_id deliveries
      (if heard then drop accepted records else records) t'

module _ (instant_of : EventTime → ℕ) (device_id : Text) where
  abbrev history : List Position → List TrackRow → List TrackRow
  history [] rows = rows
  history (p ∷ ps) rows =
      history ps (insert_tracking true (track_row true instant_of device_id p) rows)

  abbrev Recorded : Position → List TrackRow → Type 0
  Recorded p rows = is_recorded device_id (instant_of p.event_time) rows ≡ true

  abbrev AllRecorded : List Position → List TrackRow → Type 0
  AllRecorded [] rows = Unit
  AllRecorded (p ∷ ps) rows = Recorded p rows × AllRecorded ps rows

  module _ (ignition : Bool) (vehicle : Option Text) where
    abbrev live : List Position → Dict Text LiveRow → Dict Text LiveRow
    live [] d = d
    live (p ∷ ps) d = live ps (put_live true instant_of device_id p ignition vehicle d)

  -- The tables once the positions are stored.
  abbrev stored : List Position → Tables → Tables
  stored ps t = record t {
    trackings = history ps t.trackings;
    locations =
        live (ignition_of (get device_id t.statuses)) (get device_id t.assignments) ps t.locations;
  }

  -- The positions that are not skipped.
  abbrev positions : List (Option Position) → List Position
  positions [] = []
  positions (none ∷ records) = positions records
  positions (some p ∷ records) = p ∷ positions records
