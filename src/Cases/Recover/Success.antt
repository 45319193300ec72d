-- ===== src/Cases/Recover/Success.antt =====
-- What a recovery of a password that returns has found and written.
use hexagonal_auth_service.Base.{
  ℕ, suc, leb, ◌≡◌, ◌≢◌, refl, true, false, none, List, [], ◌∷◌, Text, arith, strip, length, ◌≤◌,
}
use hexagonal_auth_service.Exec.{ok, pure, ◌>>◌}
use hexagonal_auth_service.Env.{Env}
use hexagonal_auth_service.Events.{Event, user_password_recovered}
use hexagonal_auth_service.Schema.{UserRow, OneTimeTokenRow}
use hexagonal_auth_service.World.{World}
use hexagonal_auth_service.User
use hexagonal_auth_service.OneTimeToken
use hexagonal_auth_service.Validators.Password.{validate_hash_password, validate_password}
use hexagonal_auth_service.Persistence.Sql.{scalar_one_or_none}
use hexagonal_auth_service.Persistence.Users
use hexagonal_auth_service.Persistence.OneTimeTokens
use hexagonal_auth_service.Cases.Inputs.{PasswordRecoverInputDto}
use hexagonal_auth_service.Cases.Rows.{hits, owners, used_token, one-row}
use hexagonal_auth_service.Cases.Renewed.{renewed}
use hexagonal_auth_service.Cases.Recover.{recover_password}

module _ ⦃env : Env⦄ where
  abbrev pub recovered_event : UserRow → ℕ → Event
  recovered_event u n = record {
    timestamp = env.clock (suc n);
    payload = user_password_recovered u.id;
  }

  pub recover-live :
      (i : PasswordRecoverInputDto) (w : World) (r : OneTimeTokenRow) (u : UserRow)
      {events : List Event} {v : World}
      → hits i.password_recover_token w ≡ r ∷ []
      → owners r.user_id w ≡ u ∷ []
      → recover_password i w ≡ (ok events, v)
      → (OneTimeTokens.parse_purpose r.purpose ≡ ok OneTimeToken.recover_password)
        × (r.used ≡ false)
        × (leb (env.clock (suc (suc w.calls))) r.expires_at ≡ true)
        × (8 ≤ length (strip i.password))
        × (length (strip i.password) ≤ 255)
        × (env.hashpw (strip i.password) (env.gensalt w.calls) ≢ none)
  unfolding recover_password OneTimeTokens.get_by_string Users.get_by_id OneTimeToken.use_token
      User.recover_password validate_hash_password validate_password
  recover-live i w r u e f h =
      (ground arith, ground arith, ground arith, ground arith, ground arith, λ k. ground arith)

  pub recover-saves :
      (i : PasswordRecoverInputDto) (w : World) (r : OneTimeTokenRow) (u : UserRow) (h : Text)
      → hits i.password_recover_token w ≡ r ∷ []
      → owners r.user_id w ≡ u ∷ []
      → OneTimeTokens.parse_purpose r.purpose ≡ ok OneTimeToken.recover_password
      → r.used ≡ false
      → leb (env.clock (suc (suc w.calls))) r.expires_at ≡ true
      → validate_hash_password i.password w.calls ≡ (ok h, suc w.calls)
      → recover_password i w
        ≡ (do
          Users.save (renewed u h)
          OneTimeTokens.save (used_token OneTimeToken.recover_password r)
          pure (recovered_event u w.calls ∷ []))
            (record w { calls = suc (suc (suc w.calls)) })
  unfolding recover_password OneTimeTokens.get_by_string Users.get_by_id OneTimeToken.use_token
      User.recover_password User.pull_domain_events
  recover-saves i w r u h e f e₁ e₂ e₃ e₄ =
      rw (e, scalar_one_or_none) (rw e₁ (rw (f, scalar_one_or_none) (rw (e₄, e₂, e₃) refl)))

  -- Without a token, an owner or an unused token, or with several of these, the block raises.
  token-unfound :
      (i : PasswordRecoverInputDto) (w : World) {events : List Event} {v : World}
      → hits i.password_recover_token w ≡ []
      → recover_password i w ≢ (ok events, v)
  unfolding recover_password OneTimeTokens.get_by_string
  token-unfound i w e = ground arith

  token-ambiguous :
      (i : PasswordRecoverInputDto) (w : World) (r q : OneTimeTokenRow)
      (rows : List OneTimeTokenRow) {events : List Event} {v : World}
      → hits i.password_recover_token w ≡ r ∷ q ∷ rows
      → recover_password i w ≢ (ok events, v)
  unfolding recover_password OneTimeTokens.get_by_string
  token-ambiguous i w r q rows e = ground arith

  owner-unfound :
      (i : PasswordRecoverInputDto) (w : World) (r : OneTimeTokenRow) {events : List Event}
      {v : World}
      → hits i.password_recover_token w ≡ r ∷ []
      → owners r.user_id w ≡ []
      → recover_password i w ≢ (ok events, v)
  unfolding recover_password OneTimeTokens.get_by_string Users.get_by_id
  owner-unfound i w r e f = ground arith

  owner-ambiguous :
      (i : PasswordRecoverInputDto) (w : World) (r : OneTimeTokenRow) (u q : UserRow)
      (rows : List UserRow) {events : List Event} {v : World}
      → hits i.password_recover_token w ≡ r ∷ []
      → owners r.user_id w ≡ u ∷ q ∷ rows
      → recover_password i w ≢ (ok events, v)
  unfolding recover_password OneTimeTokens.get_by_string Users.get_by_id
  owner-ambiguous i w r u q rows e f = ground arith

  -- the one row of a token that was used, and its owner's
  pub recover-finds :
      (i : PasswordRecoverInputDto) (w : World) {events : List Event} {v : World}
      → recover_password i w ≡ (ok events, v)
      → (r : OneTimeTokenRow) × (u : UserRow) × (hits i.password_recover_token w ≡ r ∷ [])
        × (owners r.user_id w ≡ u ∷ [])
  recover-finds i w h =
      let (r, e) =
        one-row (hits i.password_recover_token w) (λ e. token-unfound i w e h)
          (λ r q rows e. token-ambiguous i w r q rows e h) in
      let (u, f) =
        one-row (owners r.user_id w) (λ f. owner-unfound i w r e f h)
          (λ u q rows f. owner-ambiguous i w r u q rows e f h) in
      (r, u, e, f)
