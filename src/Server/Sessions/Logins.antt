-- ===== src/Server/Sessions/Logins.antt =====
-- A device that logs in, or whose entry is noted, while other connections run.
use shalotrack_gateway.Shared.{
  ℕ, ◌≡◌, refl, sym, ap, subst, ◌∙◌, ◌⊎◌, inl, inr, true, Option, none, some,
}
use shalotrack_gateway.Shared.Text.{Text}
use shalotrack_gateway.Shared.Dict.{get, put, text_key, nat_key, get-put_self, get-put_ne}
use shalotrack_gateway.Registry.{
  Registry, Entry, Family, new_entry, change, get_imei_by_socket, register_device,
}
use shalotrack_gateway.Registry.Consistent.{text-cases, register_device-Consistent}
use shalotrack_gateway.Server.Sessions.{Running, serving, Sound, Allowed, with_registry, is_served}

module _ (s : Running) (v : Sound s) where
  abbrev reg : Registry
  reg = s.gateway.world.registry

  pub logs_in-Sound :
      (conn : ℕ) (imei ip device_id : Text) (protocol : Family) (now : ℕ)
      → is_served conn s.served ≡ true
      → s.phase conn ≡ serving
      → (get_imei_by_socket conn reg ≡ none) ⊎ (get_imei_by_socket conn reg ≡ some imei)
      → Sound (record s {
        gateway = with_registry (register_device imei ip device_id conn protocol now reg) s.gateway;
      })
  unfolding register_device
  logs_in-Sound conn imei ip device_id protocol now h there free = record {
    consistent =
        register_device-Consistent imei ip device_id conn protocol now reg v.consistent free;
    on_line = online;
    allowed = is_allowed;
    counted = v.counted;
  }
    where
      new : Entry
      new = new_entry ip device_id conn protocol now

      online :
          (j : Text) (e : Entry)
          → get j (put imei new reg.by_imei) ≡ some e
          → is_served e.socket s.served ≡ true
      online j e q = elim (text-cases imei j) [
        | inl same ↦
            let q' : get imei (put imei new reg.by_imei) ≡ some e =
              subst (λ k. get k (put imei new reg.by_imei) ≡ some e) (sym same) q in
            let e' : new ≡ e = cc (q', get-put_self imei new reg.by_imei) in
            subst (λ (x : Entry). is_served x.socket s.served ≡ true) e' h
        | inr ne ↦ v.on_line j e (sym (get-put_ne imei j new reg.by_imei ne) ∙ q)
      ]

      is_allowed :
          (j : Text) (e : Entry)
          → get j (put imei new reg.by_imei) ≡ some e
          → Allowed (s.phase e.socket) j
      is_allowed j e q = elim (text-cases imei j) [
        | inl same ↦
            let q' : get imei (put imei new reg.by_imei) ≡ some e =
              subst (λ k. get k (put imei new reg.by_imei) ≡ some e) (sym same) q in
            let e' : new ≡ e = cc (q', get-put_self imei new reg.by_imei) in
            subst (λ (x : Entry). Allowed (s.phase x.socket) j) e'
              (subst (λ p. Allowed p j) (sym there) tt)
        | inr ne ↦ v.allowed j e (sym (get-put_ne imei j new reg.by_imei ne) ∙ q)
      ]

  pub notes-Sound :
      (imei : Text) (f : Entry → Entry) (o : Option Entry)
      → get imei reg.by_imei ≡ o
      → ((e : Entry) → (f e).socket ≡ e.socket)
      → Sound (record s { gateway = with_registry (change imei f o reg) s.gateway })
  notes-Sound imei f none q same = v
  notes-Sound imei f (some x) q same = record {
    consistent = record {
      bound = λ j e h.
          let (y, p, w) = old j e h in
          subst (λ k. get k reg.by_socket ≡ some j) (sym w) (v.consistent.bound j y p);
      backed = λ c j h. let (y, p, w) = v.consistent.backed c j h in new j y c p w;
    };
    on_line = λ j e h.
        let (y, p, w) = old j e h in
        subst (λ k. is_served k s.served ≡ true) (sym w) (v.on_line j y p);
    allowed = λ j e h.
        let (y, p, w) = old j e h in subst (λ k. Allowed (s.phase k) j) (sym w) (v.allowed j y p);
    counted = v.counted;
  }
    where
      -- An entry is an old one but for what is noted in it.
      old :
          (j : Text) (e : Entry)
          → get j (put imei (f x) reg.by_imei) ≡ some e
          → (y : Entry) × (get j reg.by_imei ≡ some y) × (e.socket ≡ y.socket)
      old j e h = elim (text-cases imei j) [
        | inl at_imei ↦
            let h' : get imei (put imei (f x) reg.by_imei) ≡ some e =
              subst (λ k. get k (put imei (f x) reg.by_imei) ≡ some e) (sym at_imei) h in
            let e' : f x ≡ e = cc (h', get-put_self imei (f x) reg.by_imei) in
            (
              x,
              subst (λ k. get k reg.by_imei ≡ some x) at_imei q,
              ap (λ (k : Entry). k.socket) (sym e') ∙ same x,
            )
        | inr ne ↦ (e, sym (get-put_ne imei j (f x) reg.by_imei ne) ∙ h, refl)
      ]

      new :
          (j : Text) (y : Entry) (c : ℕ)
          → get j reg.by_imei ≡ some y
          → y.socket ≡ c
          → (e : Entry) × (get j (put imei (f x) reg.by_imei) ≡ some e) × (e.socket ≡ c)
      new j y c p w = elim (text-cases imei j) [
        | inl at_imei ↦
            let p' : get imei reg.by_imei ≡ some y =
              subst (λ k. get k reg.by_imei ≡ some y) (sym at_imei) p in
            let y' : x ≡ y = cc (p', q) in
            (
              f x,
              subst (λ k. get k (put imei (f x) reg.by_imei) ≡ some (f x)) at_imei
                  (get-put_self imei (f x) reg.by_imei),
              same x ∙ ap (λ (k : Entry). k.socket) y' ∙ w,
            )
        | inr ne ↦ (y, get-put_ne imei j (f x) reg.by_imei ne ∙ p, w)
      ]
