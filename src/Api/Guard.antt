-- ===== src/Api/Guard.antt =====
-- command_api.py: requests without the key.
use shalotrack_gateway.Shared.{
  ◌≡◌, ◌≢◌, refl, ◌⊎◌, inl, inr, Bool, false, ◌&&◌, [], ◌∷◌, Bool-cases,
}
use shalotrack_gateway.Shared.Bytes.{bytes_eq}
use shalotrack_gateway.Shared.Text.{Text, codes}
use shalotrack_gateway.Shared.Dict.{bytes_eq_iff}
use shalotrack_gateway.Shared.Attempt.{Attempt, returns, raises}
use shalotrack_gateway.World.{Environment}
use shalotrack_gateway.Health.{Outside}
use shalotrack_gateway.Api.Params.{Python}
use shalotrack_gateway.Api.{
  Configuration, Request, Response, dropped, answered, error, Service, Wait, is_ascii, authorized,
  guarded, do_get,
}
use shalotrack_gateway.Api.Post.{do_post}

-- The request ends with no response or as unauthorised, and changes nothing.
abbrev pub Refused : Service → Response × Service → Type 0
Refused s r = (r ≡ (dropped, s)) ⊎ (r ≡ (answered 401 (error (codes "Unauthorized")), s))

unequal : (a b : Text) → a ≢ b → bytes_eq a b ≡ false
unequal a b ne = elim (Bool-cases (bytes_eq a b)) [
  | inl t ↦ absurd (ne ((bytes_eq_iff a b).0 t))
  | inr f ↦ f
]

-- No key is configured, or another one is given.
abbrev pub Keyless : Text → Text → Type 0
Keyless api_key provided = (api_key ≡ []) ⊎ (provided ≢ api_key)

authorized-Keyless :
    (api_key provided : Text)
    → Keyless api_key provided
    → (authorized api_key provided ≡ returns false) ⊎ (authorized api_key provided ≡ raises)
unfolding authorized
authorized-Keyless [] provided k = inl refl
authorized-Keyless (c ∷ cs) provided (inl e) = absurd cc
authorized-Keyless (c ∷ cs) provided (inr ne) =
    elim (Bool-cases (is_ascii provided && is_ascii (c ∷ cs))) [
      | inl t ↦ inl (rw (t, unequal provided (c ∷ cs) ne) refl)
      | inr f ↦ inr (rw f refl)
    ]

guarded-Refused :
    (handler : Service → Response × Service) (a : Attempt Bool) (s : Service)
    → (a ≡ returns false) ⊎ (a ≡ raises)
    → Refused s (guarded handler a s)
guarded-Refused handler a s (inl e) = rw e (inr refl)
guarded-Refused handler a s (inr e) = rw e (inl refl)

module _ (Value : Type 0) (python : Python Value) (configuration : Configuration)
    (env : Environment) (outside : Service → Outside) (waits : Service → Wait)
    (says_offline : Service → Bool) where
  -- A request that does not give the configured key, and every request when no key is configured, is
  -- answered with 401 or not at all, whatever it asks for, and changes nothing: no health check is
  -- made and no command is sent.
  pub do_post-Refused :
      (request : Request) (s : Service)
      → Keyless configuration.api_key request.api_key
      → Refused s (do_post Value python configuration env outside waits says_offline request s)
        × Refused s (do_get Value python configuration env outside waits says_offline request s)
  unfolding do_post do_get
  do_post-Refused request s k =
      let refusal = authorized-Keyless configuration.api_key request.api_key k in
      (guarded-Refused _ _ s refusal, guarded-Refused _ _ s refusal)
