-- ===== src/Handlers/Teltonika/Delivery.antt =====
-- Delivery of the records of a packet in services/teltonika_handler.py: what the number that the
-- device is told stands for.
use shalotrack_gateway.Shared.{
  ℕ, suc, ◌+◌, ◌≤◌, ◌<◌, ◌≡◌, refl, sym, ◌∙◌, ◌⊎◌, inl, inr, Bool, true, false, Option, none, some,
  List, [], ◌∷◌, ◌++◌, append_assoc, arith, length, take, get_elem?, All, ltb, ltb→lt,
  if◌then◌else◌, Bool-cases,
}
use shalotrack_gateway.Shared.Text.{Text}
use shalotrack_gateway.World.{World, Environment, Statement, Event, asked}
use shalotrack_gateway.World.History.{Logged, Grows, Logged-Grows}
use shalotrack_gateway.Parsers.Teltonika.{AvlRecord, has_fix}
use shalotrack_gateway.Handlers.Teltonika.{position_of, position_ok, store_record, store_records}

module _ (env : Environment) (max_future : ℕ) (device_id : Text) where
  -- No GPS fix, an impossible position, or a time too far in the future when it was looked at.
  abbrev pub Skippable : AvlRecord → Type 0
  Skippable rec =
      (has_fix rec ≡ false)
      ⊎ ((position_ok rec ≡ false) ⊎ ((v : World) × (env.now v + max_future < rec.timestamp)))

  abbrev pub Dealt : List Event → AvlRecord → Type 0
  Dealt log rec =
      Skippable rec ⊎ Logged (asked (Statement.save_location device_id (position_of rec)) true) log

  -- The newest event is a refused insert of the record.
  abbrev pub Failed : List Event → Option AvlRecord → Type 0
  Failed log none = ⊥
  Failed log (some rec) =
      (older : List Event) × (log
        ≡ asked (Statement.save_location device_id (position_of rec)) false ∷ older)

  Dealt-Grows :
      {old new : List Event} (recs : List AvlRecord)
      → Grows old new
      → All (Dealt old) recs
      → All (Dealt new) recs
  Dealt-Grows [] g h = tt
  Dealt-Grows (rec ∷ recs) g (inl s, h) = (inl s, Dealt-Grows recs g h)
  Dealt-Grows (rec ∷ recs) g (inr l, h) = (inr (Logged-Grows _ g l), Dealt-Grows recs g h)

  -- What storing one record comes to.
  pub data Stores (rec : AvlRecord) (w : World) : Bool × World → Type 0 where
    skips : Skippable rec → Stores rec w (true, w)
    asks_for :
        (b : Bool)
        → Stores rec w (
          b,
          record w { log = asked (Statement.save_location device_id (position_of rec)) b ∷ w.log },
        )

  store_record-Stores :
      (rec : AvlRecord) (w : World) → Stores rec w (store_record env max_future device_id rec w)
  unfolding store_record
  store_record-Stores rec w = elim (Bool-cases (has_fix rec)) [
    | inr e ↦ rw e (skips (inl e))
    | inl e ↦ rw e (elim (Bool-cases (ltb (env.now w + max_future) rec.timestamp)) [
      | inl f ↦ rw f (skips (inr (inr (w, ltb→lt _ _ f))))
      | inr f ↦ rw f (elim (Bool-cases (position_ok rec)) [
        | inr g ↦ rw g (skips (inr (inl g)))
        | inl g ↦ rw g (asks_for (env.accepts w _))
      ])
    ])
  ]

  -- The contract of a batch: `n` records were dealt with, all of them in the log, and if some are
  -- left, the insert of the next one is what failed.
  pub record Delivers (recs : List AvlRecord) (old : List Event) (n : ℕ) (new : List Event)
      : Type 0 where
    pub within : n ≤ length recs
    pub dealt : All (Dealt new) (take n recs)
    pub stopped : n < length recs → Failed new (get_elem? recs n)
    pub grows : Grows old new

  -- What a batch comes to, from what its first record comes to.
  abbrev batch : List AvlRecord → Bool × World → ℕ × World
  batch recs (dealt, w) =
      let rest = store_records env max_future device_id recs w in
      if dealt then (suc rest.0, rest.1) else (0, w)

  abbrev DeliversBatch : List AvlRecord → List Event → ℕ × World → Type 0
  DeliversBatch recs old (n, w) = Delivers recs old n w.log

  batch-Delivers :
      (rec : AvlRecord) (recs : List AvlRecord) (w : World) (r : Bool × World)
      → Stores rec w r
      → DeliversBatch recs r.1.log (store_records env max_future device_id recs r.1)
      → DeliversBatch (rec ∷ recs) w.log (batch recs r)
  batch-Delivers rec recs w _ (skips s) d = record {
    within = omega (arith, d.within);
    dealt = (inl s, d.dealt);
    stopped = λ h. d.stopped (omega arith);
    grows = d.grows;
  }
  batch-Delivers rec recs w _ (asks_for true) d = record {
    within = omega (arith, d.within);
    dealt = (inr (Logged-Grows _ d.grows (inl refl)), d.dealt);
    stopped = λ h. d.stopped (omega arith);
    grows = (
      d.grows.0 ++ asked (Statement.save_location device_id (position_of rec)) true ∷ [],
      d.grows.1
          ∙ sym (
              append_assoc d.grows.0
                (asked (Statement.save_location device_id (position_of rec)) true ∷ []) w.log),
    );
  }
  batch-Delivers rec recs w _ (asks_for false) d = record {
    within = omega arith;
    dealt = tt;
    stopped = λ h. (w.log, refl);
    grows = (asked (Statement.save_location device_id (position_of rec)) false ∷ [], refl);
  }

  pub store_records-Delivers :
      (recs : List AvlRecord) (w : World)
      → DeliversBatch recs w.log (store_records env max_future device_id recs w)
  unfolding store_records
  store_records-Delivers [] w = record {
    within = omega arith;
    dealt = tt;
    stopped = λ h. absurd (omega arith);
    grows = ([], refl);
  }
  store_records-Delivers (rec ∷ recs) w =
      batch-Delivers rec recs w (store_record env max_future device_id rec w)
        (store_record-Stores rec w) (store_records-Delivers recs _)
