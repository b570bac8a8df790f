-- ===== src/Server/Sessions/Reachable.antt =====
-- What holds however the connections interleave.
use shalotrack_gateway.Shared.{
  ℕ, ◌≡◌, refl, sym, ap, ◌∙◌, inl, inr, true, false, none, some, [], ◌∷◌, length, arith,
  Option-cases,
}
use shalotrack_gateway.Shared.Text.{Text}
use shalotrack_gateway.Shared.Dict.{get, text_key, nat_key}
use shalotrack_gateway.Registry.{Entry, get_device, get_imei_by_socket}
use shalotrack_gateway.World.{World, Environment, closed}
use shalotrack_gateway.Server.Sessions.Logins.{logs_in-Sound, notes-Sound}
use shalotrack_gateway.Server.Sessions.Ends.{
  leaves_own-Sound, leaves_other-Sound, refused-Sound, unregisters-Sound, frees-Sound, served_more,
}
use shalotrack_gateway.Server.Sessions.{
  Running, Sound, Step, Reaches, accepts, logs_in, notes, works, leaves_own, leaves_other, refused,
  unregisters, frees, serving, phase_at-Allowed, with_world, here, then_step, started, is_served,
}

Sound-started : (w : World) → Sound (started w)
unfolding get
Sound-started w = record {
  consistent = record { bound = λ imei e h. absurd cc; backed = λ s imei h. absurd cc };
  on_line = λ imei e h. absurd cc;
  allowed = λ imei e h. tt;
  counted = refl;
}

works-Sound :
    (w : World) (s : Running)
    → w.registry.by_imei ≡ s.gateway.world.registry.by_imei
    → w.registry.by_socket ≡ s.gateway.world.registry.by_socket
    → Sound s
    → Sound (record s { gateway = with_world w s.gateway })
works-Sound w s p q v = record {
  consistent = record {
    bound = λ imei e h. ap (get e.socket) q ∙ v.consistent.bound imei e (sym (ap (get imei) p) ∙ h);
    backed = λ c imei h.
        let (e, x, y) = v.consistent.backed c imei (sym (ap (get c) q) ∙ h) in
        (e, ap (get imei) p ∙ x, y);
  };
  on_line = λ imei e h. v.on_line imei e (sym (ap (get imei) p) ∙ h);
  allowed = λ imei e h. v.allowed imei e (sym (ap (get imei) p) ∙ h);
  counted = v.counted;
}

module _ (env : Environment) where
  Step-Sound : (s t : Running) → Step env s t → Sound s → Sound t
  unfolding get_device
  Step-Sound _ _ (accepts conn s h) v = record {
    consistent = v.consistent;
    on_line = λ imei e h. served_more conn e.socket s.served (v.on_line imei e h);
    allowed = λ imei e h.
        phase_at-Allowed conn e.socket serving s.phase imei (λ same. tt) (v.allowed imei e h);
    counted = omega (arith, v.counted);
  }
  Step-Sound _ _ (logs_in conn imei ip device_id protocol now s h there free) v =
      logs_in-Sound s v conn imei ip device_id protocol now h there free
  Step-Sound _ _ (notes imei f s same) v = notes-Sound s v imei f _ refl same
  Step-Sound _ _ (works w s p q) v = works-Sound w s p q v
  Step-Sound _ _ (leaves_own conn imei i d s there o) v = leaves_own-Sound env conn s v imei i d o
  Step-Sound _ _ (leaves_other conn imei s there n knows) v =
      leaves_other-Sound env conn s v imei (closed conn ∷ s.gateway.world.log) n knows
  Step-Sound _ _ (refused conn i device_id s there e) v =
      refused-Sound env conn s v i device_id there
  Step-Sound _ _ (unregisters conn i device_id s there e) v =
      unregisters-Sound env conn s v i device_id there
  Step-Sound _ _ (frees conn s h there) v = frees-Sound env conn s v h there

  Reaches-Sound_from : (s t : Running) → Reaches env s t → Sound s → Sound t
  Reaches-Sound_from _ _ (here s) v = v
  Reaches-Sound_from _ _ (then_step s t u r x) v = Step-Sound t u x (Reaches-Sound_from s t r v)

  -- However the connections interleave, also while one that ends waits for the database before it
  -- unregisters its device, the two dictionaries agree, the count of connections is that of the
  -- sockets that have a slot, every registered device is on such a socket, and so, once no connection
  -- has a slot, no device is registered and no socket is bound. This needs that each socket logs in as
  -- one device, and that a connection that ends without a device of its own knows the device that its
  -- socket is bound to, if there is one. A connection whose statement that the device is offline was
  -- refused keeps its slot.
  pub Reaches-Sound :
      (w : World) (s : Running)
      → Reaches env (started w) s
      → Sound s
        × (s.served ≡ []
            → (s.gateway.connection_count ≡ 0)
              × ((imei : Text) → get_device imei s.gateway.world.registry ≡ none)
              × ((conn : ℕ) → get_imei_by_socket conn s.gateway.world.registry ≡ none))
  unfolding get_device get_imei_by_socket
  Reaches-Sound w s r =
      let v = Reaches-Sound_from (started w) s r (Sound-started w) in
      (v, λ e. (v.counted ∙ ap length e, gone v e, unbound v e))
    where
      gone :
          Sound s → s.served ≡ [] → (imei : Text) → get imei s.gateway.world.registry.by_imei ≡ none
      gone v e imei = elim (Option-cases (get imei s.gateway.world.registry.by_imei)) [
        | inl n ↦ n
        | inr (x, q) ↦ absurd (clash (sym (ap (is_served x.socket) e) ∙ v.on_line imei x q))
      ]
        where
          clash : false ≡ true → ⊥
          clash z = cc

      unbound :
          Sound s → s.served ≡ [] → (conn : ℕ) → get conn s.gateway.world.registry.by_socket ≡ none
      unbound v e conn = elim (Option-cases (get conn s.gateway.world.registry.by_socket)) [
        | inl n ↦ n
        | inr (j, q) ↦
            let (x, p, same) = v.consistent.backed conn j q in absurd (clash j x (p, gone v e j))
      ]
        where
          clash :
              (j : Text) (x : Entry)
              → (get j s.gateway.world.registry.by_imei ≡ some x)
                × (get j s.gateway.world.registry.by_imei ≡ none)
              → ⊥
          clash j x (a, b) = cc
