-- ===== src/Handlers/Teltonika/Status.antt =====
-- `_refresh_status` of services/teltonika_handler.py: which ignition state is recorded, and how often
-- a device is marked alive.
use shalotrack_gateway.Shared.{
  ℕ, ◌+◌, ◌≤◌, ◌<◌, ◌≡◌, ◌≢◌, refl, sym, ap, ◌⊎◌, inl, inr, Bool, true, false, Option, none, some,
  List, [], ◌∷◌, arith, All, ltb, ltb→lt, ltb-false, leb, leb→le, leb-false, Bool-cases,
}
use shalotrack_gateway.Shared.Text.{Text}
use shalotrack_gateway.Shared.Dict.{Dict, get, put, nat_key, text_key, get-put_self, get-put_ne}
use shalotrack_gateway.World.{World, Environment, Statement, Event, asked}
use shalotrack_gateway.World.Action.{safely, execute}
use shalotrack_gateway.Parsers.Teltonika.{AvlRecord, ignition}
use shalotrack_gateway.Handlers.Teltonika.{
  insert_newest, newest_first, first_ignition, or_next, same_flag, refresh_alive, refresh_with,
  refresh_status, alive_refresh,
}

abbrev pub Elem : AvlRecord → List AvlRecord → Type 0
Elem rec [] = ⊥
Elem rec (r ∷ rs) = (rec ≡ r) ⊎ Elem rec rs

-- Every record behind another is at most as new.
abbrev Sorted : List AvlRecord → Type 0
Sorted [] = Unit
Sorted (r ∷ rs) = All (λ s. s.timestamp ≤ r.timestamp) rs × Sorted rs

All-insert_newest :
    (P : AvlRecord → Type 0) (rec : AvlRecord) (rs : List AvlRecord)
    → P rec
    → All P rs
    → All P (insert_newest rec rs)
All-insert_newest P rec [] p h = (p, tt)
All-insert_newest P rec (r ∷ rs) p h = elim (Bool-cases (ltb rec.timestamp r.timestamp)) [
  | inl t ↦ rw t (h.0, All-insert_newest P rec rs p h.1)
  | inr f ↦ rw f (p, h)
]

All-insert_newest_back :
    (P : AvlRecord → Type 0) (rec : AvlRecord) (rs : List AvlRecord)
    → All P (insert_newest rec rs)
    → P rec × All P rs
All-insert_newest_back P rec [] h = (h.0, tt)
All-insert_newest_back P rec (r ∷ rs) h = elim (Bool-cases (ltb rec.timestamp r.timestamp)) [
  | inl t ↦
      let h' = rw t at h in
      let back = All-insert_newest_back P rec rs h'.1 in (back.0, (h'.0, back.1))
  | inr f ↦ rw f at h
]

All-newest_first_back :
    (P : AvlRecord → Type 0) (rs : List AvlRecord) → All P (newest_first rs) → All P rs
All-newest_first_back P [] h = tt
All-newest_first_back P (r ∷ rs) h =
    let back = All-insert_newest_back P r (newest_first rs) h in
    (back.0, All-newest_first_back P rs back.1)

Elem-insert_newest :
    (x rec : AvlRecord) (rs : List AvlRecord)
    → Elem x (insert_newest rec rs)
    → (x ≡ rec) ⊎ Elem x rs
Elem-insert_newest x rec [] h = h
Elem-insert_newest x rec (r ∷ rs) h = elim (Bool-cases (ltb rec.timestamp r.timestamp)) [
  | inl t ↦ elim (rw t at h) [
    | inl e ↦ inr (inl e)
    | inr k ↦ elim (Elem-insert_newest x rec rs k) [ inl e ↦ inl e | inr m ↦ inr (inr m) ]
  ]
  | inr f ↦ rw f at h
]

Elem-newest_first : (x : AvlRecord) (rs : List AvlRecord) → Elem x (newest_first rs) → Elem x rs
Elem-newest_first x [] h = h
Elem-newest_first x (r ∷ rs) h = elim (Elem-insert_newest x r (newest_first rs) h) [
  | inl e ↦ inl e
  | inr k ↦ inr (Elem-newest_first x rs k)
]

All-weaken :
    (m n : ℕ) (rs : List AvlRecord)
    → m ≤ n
    → All (λ s. s.timestamp ≤ m) rs
    → All (λ s. s.timestamp ≤ n) rs
All-weaken m n [] l h = tt
All-weaken m n (r ∷ rs) l h = (omega (arith, l, h.0), All-weaken m n rs l h.1)

insert_newest-Sorted :
    (rec : AvlRecord) (rs : List AvlRecord) → Sorted rs → Sorted (insert_newest rec rs)
insert_newest-Sorted rec [] h = (tt, tt)
insert_newest-Sorted rec (r ∷ rs) h = elim (Bool-cases (ltb rec.timestamp r.timestamp)) [
  | inl t ↦ rw t (
    All-insert_newest (λ s. s.timestamp ≤ r.timestamp) rec rs (omega (arith, ltb→lt _ _ t)) h.0,
    insert_newest-Sorted rec rs h.1,
  )
  | inr f ↦ let l = ltb-false _ _ f in rw f ((l, All-weaken r.timestamp rec.timestamp rs l h.0), h)
]

newest_first-Sorted : (rs : List AvlRecord) → Sorted (newest_first rs)
newest_first-Sorted [] = tt
newest_first-Sorted (r ∷ rs) = insert_newest-Sorted r (newest_first rs) (newest_first-Sorted rs)

-- A record that is at most as new as `rec`, or that does not report the ignition.
abbrev pub Older : AvlRecord → AvlRecord → Type 0
Older rec s = (ignition s ≡ none) ⊎ (s.timestamp ≤ rec.timestamp)

-- The ignition that the records report: none of them does, or it is that of a newest one that does.
abbrev pub Reports : List AvlRecord → Option Bool → Type 0
Reports recs none = All (λ s. ignition s ≡ none) recs
Reports recs (some on) =
    (rec : AvlRecord) × Elem rec recs × (ignition rec ≡ some on) × All (Older rec) recs

All-Older :
    (rec : AvlRecord) (rs : List AvlRecord)
    → All (λ s. s.timestamp ≤ rec.timestamp) rs
    → All (Older rec) rs
All-Older rec [] h = tt
All-Older rec (r ∷ rs) h = (inr h.0, All-Older rec rs h.1)

or_next-Reports :
    (r : AvlRecord) (rs : List AvlRecord) (o next : Option Bool)
    → ignition r ≡ o
    → All (λ s. s.timestamp ≤ r.timestamp) rs
    → Reports rs next
    → Reports (r ∷ rs) (or_next o next)
or_next-Reports r rs none none e h k = (e, k)
or_next-Reports r rs none (some on) e h (rec, m, q, a) = (rec, inr m, q, (inl e, a))
or_next-Reports r rs (some on) next e h k = (r, inl refl, e, (inr (omega arith), All-Older r rs h))

first_ignition-Reports : (rs : List AvlRecord) → Sorted rs → Reports rs (first_ignition rs)
first_ignition-Reports [] h = tt
first_ignition-Reports (r ∷ rs) h =
    or_next-Reports r rs (ignition r) (first_ignition rs) refl h.0 (first_ignition-Reports rs h.1)

Reports-newest_first :
    (rs : List AvlRecord) (o : Option Bool) → Reports (newest_first rs) o → Reports rs o
Reports-newest_first rs none h = All-newest_first_back (λ s. ignition s ≡ none) rs h
Reports-newest_first rs (some on) (rec, m, q, a) =
    (rec, Elem-newest_first rec rs m, q, All-newest_first_back (Older rec) rs a)

reported : (rs : List AvlRecord) → Reports rs (first_ignition (newest_first rs))
reported rs =
    Reports-newest_first rs _ (first_ignition-Reports (newest_first rs) (newest_first-Sorted rs))

module _ (env : Environment) (max_future : ℕ) (device_id : Text) (records : List AvlRecord)
    (w : World) where
  -- What is remembered when the device is recorded as alive: that it was now. Of other devices, and of
  -- the connections, nothing changes.
  pub record Stamped (w' : World) : Type 0 where
    pub own : get device_id w'.last_alive ≡ some (env.monotonic w)
    pub others :
        (other : Text) → device_id ≢ other → get other w'.last_alive ≡ get other w.last_alive
    pub registry : w'.registry ≡ w.registry

  -- The throttled mark: when none is remembered or the last one is a minute old, it is asked for;
  -- before that nothing happens.
  pub data Marked (w' : World) : Type 0 where
    alive :
        (went : Bool)
        → (get device_id w.last_alive ≡ none)
          ⊎ ((last : ℕ) × (get device_id w.last_alive ≡ some last)
              × (last + alive_refresh ≤ env.monotonic w))
        → w'.log ≡ asked (Statement.mark_device_alive device_id true) went ∷ w.log
        → w'.last_ignition ≡ w.last_ignition
        → Stamped w'
        → Marked w'
    unchanged :
        (last : ℕ)
        → get device_id w.last_alive ≡ some last
        → env.monotonic w < last + alive_refresh
        → w' ≡ w
        → Marked w'

  -- One refresh: a changed ignition is recorded and remembered, or nothing changed and the device is
  -- marked.
  pub data Refreshed (w' : World) : Type 0 where
    switched :
        (on went : Bool)
        → Reports records (some on)
        → get device_id w.last_ignition ≢ some on
        → w'.log ≡ asked (Statement.set_ignition device_id on) went ∷ w.log
        → get device_id w'.last_ignition ≡ some on
        → ((other : Text)
            → device_id ≢ other
            → get other w'.last_ignition ≡ get other w.last_ignition)
        → Stamped w'
        → Refreshed w'
    kept :
        (o : Option Bool)
        → Reports records o
        → (o ≡ none) ⊎ (get device_id w.last_ignition ≡ o)
        → Marked w'
        → Refreshed w'

  stamped :
      (log : List Event) (flags : Dict Text Bool)
      → Stamped (record w {
        log = log;
        last_ignition = flags;
        last_alive = put device_id (env.monotonic w) w.last_alive;
      })
  stamped log flags = record {
    own = get-put_self device_id (env.monotonic w) w.last_alive;
    others = λ other ne. get-put_ne device_id other (env.monotonic w) w.last_alive ne;
    registry = refl;
  }

  refresh_alive-Marked :
      (o : Option ℕ)
      → get device_id w.last_alive ≡ o
      → Marked (refresh_alive env max_future device_id (env.monotonic w) w)
  unfolding safely execute
  refresh_alive-Marked none e = rw e (alive _ (inl e) refl refl (stamped _ _))
  refresh_alive-Marked (some last) e =
      elim (Bool-cases (leb (last + alive_refresh) (env.monotonic w))) [
        | inl t ↦ rw (e, t) (alive _ (inr (last, e, leb→le _ _ t)) refl refl (stamped _ _))
        | inr f ↦ rw (e, f) (unchanged last e (leb-false _ _ f) refl)
      ]

  same_flag-some : (c : Option Bool) (on : Bool) → same_flag c on ≡ true → c ≡ some on
  same_flag-some none on h = cc
  same_flag-some (some true) on h = ap some (sym h)
  same_flag-some (some false) true h = cc
  same_flag-some (some false) false h = refl

  other_flag : (c : Option Bool) (on : Bool) → same_flag c on ≡ false → c ≢ some on
  other_flag none on h e = cc
  other_flag (some true) true h e = cc
  other_flag (some true) false h e = cc
  other_flag (some false) true h e = cc
  other_flag (some false) false h e = cc

  refresh_with-Refreshed :
      (o : Option Bool)
      → Reports records o
      → Refreshed (refresh_with env max_future device_id (env.monotonic w) o w)
  unfolding safely execute
  refresh_with-Refreshed none r = kept none r (inl refl) (refresh_alive-Marked _ refl)
  refresh_with-Refreshed (some on) r =
      elim (Bool-cases (same_flag (get device_id w.last_ignition) on)) [
        | inl t ↦
            rw t (kept (some on) r (inr (same_flag-some _ on t)) (refresh_alive-Marked _ refl))
        | inr f ↦ rw f (
            switched on _ r (other_flag _ on f) refl (get-put_self device_id on w.last_ignition)
              (λ other ne. get-put_ne device_id other on w.last_ignition ne) (stamped _ _))
      ]

  -- Refreshing the status with a batch of records: if a newest record that reports the ignition
  -- reports another state than the remembered one, that state is recorded and remembered, and so is
  -- that the device was alive now; otherwise the device is marked alive, and that it was now is
  -- remembered, when no time is remembered for it or a minute has passed since, and nothing happens
  -- when less has. What is remembered of other devices stays as it was, and so does the registry.
  pub refresh_status-Refreshed : Refreshed (refresh_status env max_future device_id records w).1
  unfolding refresh_status
  refresh_status-Refreshed = refresh_with-Refreshed _ (reported records)
