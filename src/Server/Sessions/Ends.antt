-- ===== src/Server/Sessions/Ends.antt =====
-- The steps with which one connection ends while others run.
use shalotrack_gateway.Shared.{
  ℕ, ◌-◌, ◌≤◌, ◌≡◌, ◌≢◌, refl, sym, ap, subst, ◌∙◌, inl, inr, true, Option, none, some, List, [],
  ◌∷◌, length, arith, ◌==◌, ==_iff, Bool-cases,
}
use shalotrack_gateway.Shared.Text.{Text}
use shalotrack_gateway.Shared.Dict.{get, text_key, nat_key, pop, get-pop_self, get-pop_ne}
use shalotrack_gateway.Registry.{Registry, Entry, get_device, get_imei_by_socket, unregister_device}
use shalotrack_gateway.Registry.Consistent.{unregister_device-Consistent}
use shalotrack_gateway.World.{World, Environment, Statement, Event, closed}
use shalotrack_gateway.World.Action.{execute}
use shalotrack_gateway.Server.{cleanup_imei, own_device, own_entry}
use shalotrack_gateway.Server.Sessions.{
  Running, leaving, stuck, closing, Sound, Allowed, phase_at, phase_at-Allowed, with_world,
  is_served, without,
}

pub served_more :
    (c conn : ℕ) (cs : List ℕ) → is_served conn cs ≡ true → is_served conn (c ∷ cs) ≡ true
served_more c conn cs h = ground arith

pub served_without :
    (c conn : ℕ) (cs : List ℕ)
    → c ≢ conn
    → is_served conn cs ≡ true
    → is_served conn (without c cs) ≡ true
served_without c conn [] ne h = h
served_without c conn (d ∷ cs) ne h =
    ground (arith, served_without c conn cs ne, ==_iff d c, ==_iff d conn)

served_some : (conn : ℕ) (cs : List ℕ) → is_served conn cs ≡ true → 1 ≤ length cs
served_some conn [] h = cc
served_some conn (c ∷ cs) h = omega arith

pub length-without :
    (conn : ℕ) (cs : List ℕ) → is_served conn cs ≡ true → length (without conn cs) ≡ length cs - 1
length-without conn [] h = cc
length-without conn (c ∷ cs) h = elim (Bool-cases (c == conn)) [
  | inl t ↦ rw t (omega arith)
  | inr f ↦
      let later = rw (f, is_served) at h in
      rw f (omega (arith, length-without conn cs later, served_some conn cs later))
]

own-get :
    (env : Environment) (k : Option Text) (conn : ℕ) (w : World) (i : Text) (d : Entry)
    → own_device env k conn w ≡ some (i, d)
    → (get i w.registry.by_imei ≡ some d) × (d.socket ≡ conn)
unfolding get_device
own-get env none conn w i d h = absurd cc
own-get env (some k) conn w i d h = found (get k w.registry.by_imei) refl h
  where
    found :
        (o : Option Entry)
        → get k w.registry.by_imei ≡ o
        → own_entry env k conn o ≡ some (i, d)
        → (get i w.registry.by_imei ≡ some d) × (d.socket ≡ conn)
    found none q h = absurd cc
    found (some e) q h = elim (Bool-cases (e.socket == conn)) [
      | inl t ↦
          let both : ◌≡◌ {A = Option (Text × Entry)} (some (k, e)) (some (i, d)) = cc (rw t at h) in
          let i' : k ≡ i = cc both in
          let d' : e ≡ d = cc both in
          (
            subst (λ (x : Text). get x w.registry.by_imei ≡ some d) i' (q ∙ ap some d'),
            subst (λ (x : Entry). x.socket ≡ conn) d' ((==_iff e.socket conn).0 t),
          )
      | inr f ↦ absurd (clash (rw f at h))
    ]
      where
        clash : ◌≡◌ {A = Option (Text × Entry)} none (some (i, d)) → ⊥
        clash z = cc

module _ (env : Environment) (conn : ℕ) (s : Running) (v : Sound s) where
  abbrev reg : Registry
  reg = s.gateway.world.registry

  on_conn :
      (j : Text) (e : Entry)
      → get j reg.by_imei ≡ some e
      → e.socket ≡ conn
      → get conn reg.by_socket ≡ some j
  on_conn j e q same = subst (λ k. get k reg.by_socket ≡ some j) same (v.consistent.bound j e q)

  pub leaves_own-Sound :
      (imei : Option Text) (i : Text) (d : Entry)
      → own_device env (cleanup_imei env imei conn s.gateway.world) conn s.gateway.world
        ≡ some (i, d)
      → Sound (record s { phase = phase_at conn (leaving i d.device_id) s.phase })
  leaves_own-Sound imei i d o = record {
    consistent = v.consistent;
    on_line = v.on_line;
    allowed = λ j e q.
        phase_at-Allowed conn e.socket (leaving i d.device_id) s.phase j
          (λ same.
            let (p, here) =
              own-get env (cleanup_imei env imei conn s.gateway.world) conn s.gateway.world i d o in
            cc (on_conn j e q same, on_conn i d p here))
          (v.allowed j e q);
    counted = v.counted;
  }

  pub leaves_other-Sound :
      (imei : Option Text) (log : List Event)
      → own_device env (cleanup_imei env imei conn s.gateway.world) conn s.gateway.world ≡ none
      → ((j : Text)
          → get_imei_by_socket conn reg ≡ some j
          → cleanup_imei env imei conn s.gateway.world ≡ some j)
      → Sound (record s {
        phase = phase_at conn closing s.phase;
        gateway = with_world (record s.gateway.world { log = log }) s.gateway;
      })
  unfolding get_imei_by_socket get_device
  leaves_other-Sound imei log n knows = record {
    consistent = v.consistent;
    on_line = v.on_line;
    allowed = λ j e q.
        phase_at-Allowed conn e.socket closing s.phase j (λ same. mine j e q same)
          (v.allowed j e q);
    counted = v.counted;
  }
    where
      mine : (j : Text) (e : Entry) → get j reg.by_imei ≡ some e → e.socket ≡ conn → ⊥
      mine j e q same =
          let k = knows j (on_conn j e q same) in
          clash (rw (k, q, (==_iff e.socket conn).1 same) at n)
        where
          clash : ◌≡◌ {A = Option (Text × Entry)} (some (j, e)) none → ⊥
          clash z = cc

  module _ (i device_id : Text) (there : s.phase conn ≡ leaving i device_id) where
    -- What the connection that waits allows on its socket.
    waits_for : (j : Text) (e : Entry) → get j reg.by_imei ≡ some e → e.socket ≡ conn → j ≡ i
    waits_for j e q same = subst (λ p. Allowed p j) (ap s.phase same ∙ there) (v.allowed j e q)

    pub refused-Sound : Sound (record s {
      phase = phase_at conn (stuck i) s.phase;
      gateway =
          with_world
            (execute env (Statement.set_device_offline device_id) s.gateway.world).1
            s.gateway;
    })
    unfolding execute
    refused-Sound = record {
      consistent = v.consistent;
      on_line = v.on_line;
      allowed = λ j e q.
          phase_at-Allowed conn e.socket (stuck i) s.phase j (waits_for j e q) (v.allowed j e q);
      counted = v.counted;
    }

    other : (j : Text) (e : Entry) → get j (pop i reg.by_imei) ≡ some e → j ≢ i
    other j e h same =
        clash (subst (λ k. get k (pop i reg.by_imei) ≡ some e) same h, get-pop_self i reg.by_imei)
      where
        clash : (get i (pop i reg.by_imei) ≡ some e) × (get i (pop i reg.by_imei) ≡ none) → ⊥
        clash (x, y) = cc

    before :
        (j : Text) (e : Entry) → get j (pop i reg.by_imei) ≡ some e → get j reg.by_imei ≡ some e
    before j e h = sym (get-pop_ne i j reg.by_imei (λ same. other j e h (sym same))) ∙ h

    pub unregisters-Sound : Sound (record s {
      phase = phase_at conn closing s.phase;
      gateway =
          let w = (execute env (Statement.set_device_offline device_id) s.gateway.world).1 in
          with_world
            (record w { registry = unregister_device i w.registry; log = closed conn ∷ w.log })
            s.gateway;
    })
    unfolding execute unregister_device
    unregisters-Sound = record {
      consistent = unregister_device-Consistent i reg v.consistent;
      on_line = λ j e h. v.on_line j e (before j e h);
      allowed = λ j e h.
          phase_at-Allowed conn e.socket closing s.phase j
            (λ same. other j e h (waits_for j e (before j e h) same))
            (v.allowed j e (before j e h));
      counted = v.counted;
    }

  pub frees-Sound :
      is_served conn s.served ≡ true
      → s.phase conn ≡ closing
      → Sound (record s {
        served = without conn s.served;
        gateway = record s.gateway { connection_count = s.gateway.connection_count - 1 };
      })
  frees-Sound h there = record {
    consistent = v.consistent;
    on_line = λ j e q.
        served_without conn e.socket s.served
          (λ same. subst (λ p. Allowed p j) (ap s.phase (sym same) ∙ there) (v.allowed j e q))
          (v.on_line j e q);
    allowed = v.allowed;
    counted = ap (λ n. n - 1) v.counted ∙ sym (length-without conn s.served h);
  }
