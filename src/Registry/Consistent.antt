-- ===== src/Registry/Consistent.antt =====
-- The agreement of the two dictionaries of services/device_registry.py.
use shalotrack_gateway.Shared.{
  ℕ, ◌≡◌, refl, sym, ap, subst, ◌∙◌, ◌≢◌, ◌⊎◌, inl, inr, Option, none, some, arith, Bool-cases,
  Option-cases,
}
use shalotrack_gateway.Shared.Bytes.{bytes_eq}
use shalotrack_gateway.Shared.Text.{Text}
use shalotrack_gateway.Shared.Dict.{
  Dict, get, put, pop, nat_key, text_key, get-pop, get-put_self, get-put_ne, get-pop_self,
  get-pop_ne, bytes_eq_iff,
}
use shalotrack_gateway.Registry.{
  Family, Entry, Registry, new_entry, unbind, register_device, unregister_device,
  get_imei_by_socket, get_device, get_socket,
}

-- Every device is bound to the socket of its entry, and every bound socket is that of the entry of
-- its device.
pub record Consistent (r : Registry) : Type 0 where
  pub bound :
      (imei : Text) (e : Entry) → get imei r.by_imei ≡ some e → get e.socket r.by_socket ≡ some imei
  pub backed :
      (s : ℕ) (imei : Text)
      → get s r.by_socket ≡ some imei
      → (e : Entry) × (get imei r.by_imei ≡ some e) × (e.socket ≡ s)

pub text-cases : (a b : Text) → (a ≡ b) ⊎ (a ≢ b)
text-cases a b = elim (Bool-cases (bytes_eq a b)) [
  | inl e ↦ inl ((bytes_eq_iff a b).0 e)
  | inr e ↦ inr (λ h. cc (e, (bytes_eq_iff a b).1 h))
]

pub nat-cases : (a b : ℕ) → (a ≡ b) ⊎ (a ≢ b)
nat-cases a b = omega arith

module _ (r : Registry) (v : Consistent r) (imei : Text) where
  -- Another device keeps its binding when the old socket of `imei` is unbound.
  unbind_other :
      (j : Text) (s : ℕ)
      → imei ≢ j
      → get s r.by_socket ≡ some j
      → get s (unbind (get imei r.by_imei) r.by_socket) ≡ some j
  unbind_other j s ne h = elim (Option-cases (get imei r.by_imei)) [
    | inl e ↦ rw e h
    | inr (x, e) ↦ rw e (ground (arith, get-pop x.socket s r.by_socket, v.bound imei x e))
  ]

  left_none : (j : Text) (s : ℕ) → get imei r.by_imei ≡ none → get s r.by_socket ≡ some j → imei ≢ j
  left_none j s e h same =
      let (x, q, w) = v.backed s j h in
      let q' : get imei r.by_imei ≡ some x = subst (λ k. get k r.by_imei ≡ some x) (sym same) q in
      cc (e, q')

  left_some :
      (j : Text) (s : ℕ) (x : Entry)
      → get imei r.by_imei ≡ some x
      → x.socket ≢ s
      → get s r.by_socket ≡ some j
      → imei ≢ j
  left_some j s x e ne h same =
      let (y, q, w) = v.backed s j h in
      let q' : get imei r.by_imei ≡ some y = subst (λ k. get k r.by_imei ≡ some y) (sym same) q in
      let xy : x ≡ y = cc (e, q') in ne (ap (λ (z : Entry). z.socket) xy ∙ w)

  -- A binding that is left is an old one, and not that of `imei`.
  unbind_left :
      (j : Text) (s : ℕ) (o : Option Entry)
      → get imei r.by_imei ≡ o
      → get s (unbind o r.by_socket) ≡ some j
      → (get s r.by_socket ≡ some j) × (imei ≢ j)
  unbind_left j s none e h = (h, left_none j s e h)
  unbind_left j s (some x) e h = elim (nat-cases x.socket s) [
    | inl same ↦ absurd (gone same)
    | inr ne ↦ (kept ne, left_some j s x e ne (kept ne))
  ]
    where
      gone : x.socket ≡ s → ⊥
      gone same = ground (arith, get-pop x.socket s r.by_socket, same)

      kept : x.socket ≢ s → get s r.by_socket ≡ some j
      kept ne = ground (arith, get-pop_ne x.socket s r.by_socket ne)

-- Registering keeps a consistent registry consistent, when the socket is free or is the one that the
-- device is bound to.
pub register_device-Consistent :
    (imei ip device_id : Text) (conn : ℕ) (protocol : Family) (now : ℕ) (r : Registry)
    → Consistent r
    → (get_imei_by_socket conn r ≡ none) ⊎ (get_imei_by_socket conn r ≡ some imei)
    → Consistent (register_device imei ip device_id conn protocol now r)
unfolding register_device get_imei_by_socket
register_device-Consistent imei ip device_id conn protocol now r v free = record {
  bound = λ j e h. elim (text-cases imei j) [
    | inl same ↦ new_bound j e same h
    | inr ne ↦ old_bound j e ne (sym (get-put_ne imei j new r.by_imei ne) ∙ h)
  ];
  backed = λ s j h. elim (nat-cases conn s) [
    | inl same ↦ new_backed s j same h
    | inr ne ↦ old_backed s j (sym (get-put_ne conn s imei rest ne) ∙ h)
  ];
}
  where
    new : Entry
    new = new_entry ip device_id conn protocol now

    rest : Dict ℕ Text
    rest = unbind (get imei r.by_imei) r.by_socket

    new_bound :
        (j : Text) (e : Entry)
        → imei ≡ j
        → get j (put imei new r.by_imei) ≡ some e
        → get e.socket (put conn imei rest) ≡ some j
    new_bound j e same h =
        let h' : get imei (put imei new r.by_imei) ≡ some e =
          subst (λ k. get k (put imei new r.by_imei) ≡ some e) (sym same) h in
        let e' : new ≡ e = cc (h', get-put_self imei new r.by_imei) in
        subst (λ (x : Entry). get x.socket (put conn imei rest) ≡ some j) e'
          (get-put_self conn imei rest ∙ ap some same)

    old_bound :
        (j : Text) (e : Entry)
        → imei ≢ j
        → get j r.by_imei ≡ some e
        → get e.socket (put conn imei rest) ≡ some j
    old_bound j e ne h =
        get-put_ne conn e.socket imei rest (λ same. elim free [
          | inl f ↦ cc (f, v.bound j e h, ap (λ k. get k r.by_socket) same)
          | inr f ↦ ne (cc (f, v.bound j e h, ap (λ k. get k r.by_socket) same))
        ])
        ∙ unbind_other r v imei j e.socket ne (v.bound j e h)

    new_backed :
        (s : ℕ) (j : Text)
        → conn ≡ s
        → get s (put conn imei rest) ≡ some j
        → (e : Entry) × (get j (put imei new r.by_imei) ≡ some e) × (e.socket ≡ s)
    new_backed s j same h =
        let h' : get conn (put conn imei rest) ≡ some j =
          subst (λ k. get k (put conn imei rest) ≡ some j) (sym same) h in
        let j' : imei ≡ j = cc (h', get-put_self conn imei rest) in
        (
          new,
          subst (λ k. get k (put imei new r.by_imei) ≡ some new) j'
              (get-put_self imei new r.by_imei),
          same,
        )

    old_backed :
        (s : ℕ) (j : Text)
        → get s rest ≡ some j
        → (e : Entry) × (get j (put imei new r.by_imei) ≡ some e) × (e.socket ≡ s)
    old_backed s j h =
        let (q, ne) = unbind_left r v imei j s (get imei r.by_imei) refl h in
        let (e, p, w) = v.backed s j q in (e, get-put_ne imei j new r.by_imei ne ∙ p, w)

-- Unregistering keeps a consistent registry consistent.
pub unregister_device-Consistent :
    (imei : Text) (r : Registry) → Consistent r → Consistent (unregister_device imei r)
unfolding unregister_device
unregister_device-Consistent imei r v = record {
  bound = λ j e h. elim (text-cases imei j) [
    | inl same ↦ absurd (gone j e same h)
    | inr ne ↦
        let h' = sym (get-pop_ne imei j r.by_imei ne) ∙ h in
        unbind_other r v imei j e.socket ne (v.bound j e h')
  ];
  backed = λ s j h.
      let (q, ne) = unbind_left r v imei j s (get imei r.by_imei) refl h in
      let (e, p, w) = v.backed s j q in (e, get-pop_ne imei j r.by_imei ne ∙ p, w);
}
  where
    gone : (j : Text) (e : Entry) → imei ≡ j → get j (pop imei r.by_imei) ≡ some e → ⊥
    gone j e same h =
        let h' : get imei (pop imei r.by_imei) ≡ some e =
          subst (λ k. get k (pop imei r.by_imei) ≡ some e) (sym same) h in
        cc (h', get-pop_self imei r.by_imei)

-- A registered device that logs in again on another socket is found on the new socket only: the old socket is
-- bound to no device any more.
pub register_device_moves :
    (imei ip device_id : Text) (conn : ℕ) (protocol : Family) (now : ℕ) (r : Registry) (old : Entry)
    → get_device imei r ≡ some old
    → old.socket ≢ conn
    → let r' = register_device imei ip device_id conn protocol now r in
      (get_socket imei r' ≡ some conn)
      × (get_imei_by_socket conn r' ≡ some imei)
      × (get_imei_by_socket old.socket r' ≡ none)
unfolding register_device get_imei_by_socket get_device get_socket
register_device_moves imei ip device_id conn protocol now r old e ne = (
  ground (arith, get-put_self imei (new_entry ip device_id conn protocol now) r.by_imei),
  get-put_self conn imei (unbind (get imei r.by_imei) r.by_socket),
  get-put_ne conn old.socket imei _ (λ h. ne (sym h)) ∙ rw e (get-pop_self old.socket r.by_socket),
)

-- In a consistent registry, a socket that logs in as a second device leaves the first one behind:
-- after the second is unregistered the first is still registered on that socket, which is bound to
-- nobody.
pub register_second_leaks :
    (first imei ip device_id : Text) (conn : ℕ) (protocol : Family) (now : ℕ) (r : Registry)
    → Consistent r
    → get_imei_by_socket conn r ≡ some first
    → imei ≢ first
    → let r' = unregister_device imei (register_device imei ip device_id conn protocol now r) in
      (get_socket first r' ≡ some conn) × (get_imei_by_socket conn r' ≡ none)
unfolding register_device unregister_device get_imei_by_socket get_socket
register_second_leaks first imei ip device_id conn protocol now r v h ne =
    let (e, p, w) = v.backed conn first h in
    let new = new_entry ip device_id conn protocol now in
    let kept : get first (pop imei (put imei new r.by_imei)) ≡ some e =
      get-pop_ne imei first (put imei new r.by_imei) ne
      ∙ get-put_ne imei first new r.by_imei ne
      ∙ p in
    (rw (kept, get_socket) (ap some w), rw (get-put_self imei new r.by_imei) (get-pop_self conn _))
