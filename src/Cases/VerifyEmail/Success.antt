-- ===== src/Cases/VerifyEmail/Success.antt =====
-- What a verification that returns has found and written.
use hexagonal_auth_service.Base.{suc, leb, ◌≡◌, ◌≢◌, refl, true, false, List, [], ◌∷◌, arith}
use hexagonal_auth_service.Exec.{ok, pure, ◌>>◌}
use hexagonal_auth_service.Env.{Env}
use hexagonal_auth_service.Events.{Event, user_email_verified}
use hexagonal_auth_service.Schema.{UserRow, OneTimeTokenRow}
use hexagonal_auth_service.World.{World}
use hexagonal_auth_service.User
use hexagonal_auth_service.OneTimeToken
use hexagonal_auth_service.Persistence.Sql.{scalar_one_or_none}
use hexagonal_auth_service.Persistence.Users
use hexagonal_auth_service.Persistence.OneTimeTokens
use hexagonal_auth_service.Cases.Inputs.{VerifyEmailInputDto}
use hexagonal_auth_service.Cases.VerifyEmail.{verify_user}
use hexagonal_auth_service.Cases.Rows.{hits, owners, used_token, one-row}

module _ ⦃env : Env⦄ where
  pub verify-live :
      (i : VerifyEmailInputDto) (w : World) (r : OneTimeTokenRow) (u : UserRow)
      {events : List Event} {v : World}
      → hits i.one_time_token w ≡ r ∷ []
      → owners r.user_id w ≡ u ∷ []
      → verify_user i w ≡ (ok events, v)
      → (OneTimeTokens.parse_purpose r.purpose ≡ ok OneTimeToken.verify_email)
        × (r.used ≡ false)
        × (leb (env.clock w.calls) r.expires_at ≡ true)
        × (u.is_email_verified ≡ false)
  unfolding verify_user OneTimeTokens.get_by_string Users.get_by_id OneTimeToken.use_token
      User.verify_email
  verify-live i w r u e f h = ground arith

  pub verify-saves :
      (i : VerifyEmailInputDto) (w : World) (r : OneTimeTokenRow) (u : UserRow)
      → hits i.one_time_token w ≡ r ∷ []
      → owners r.user_id w ≡ u ∷ []
      → OneTimeTokens.parse_purpose r.purpose ≡ ok OneTimeToken.verify_email
      → r.used ≡ false
      → leb (env.clock w.calls) r.expires_at ≡ true
      → u.is_email_verified ≡ false
      → verify_user i w
        ≡ (do
          Users.save (record (Users.orm2domain u) { is_email_verified = true })
          OneTimeTokens.save (used_token OneTimeToken.verify_email r)
          pure (
              record {
                timestamp = env.clock (suc w.calls);
                payload = user_email_verified u.id u.email;
              }
              ∷ []))
            (record w { calls = suc (suc w.calls) })
  unfolding verify_user OneTimeTokens.get_by_string Users.get_by_id OneTimeToken.use_token
      User.verify_email User.pull_domain_events
  verify-saves i w r u e f e₁ e₂ e₃ e₄ =
      rw (e, scalar_one_or_none) (rw e₁ (rw (f, scalar_one_or_none) (rw (e₂, e₃, e₄) refl)))

  -- Without a token, an owner or an unused token, or with several of these, the block raises.
  token-unfound :
      (i : VerifyEmailInputDto) (w : World) {events : List Event} {v : World}
      → hits i.one_time_token w ≡ []
      → verify_user i w ≢ (ok events, v)
  unfolding verify_user OneTimeTokens.get_by_string
  token-unfound i w e = ground arith

  token-ambiguous :
      (i : VerifyEmailInputDto) (w : World) (r q : OneTimeTokenRow) (rows : List OneTimeTokenRow)
      {events : List Event} {v : World}
      → hits i.one_time_token w ≡ r ∷ q ∷ rows
      → verify_user i w ≢ (ok events, v)
  unfolding verify_user OneTimeTokens.get_by_string
  token-ambiguous i w r q rows e = ground arith

  owner-unfound :
      (i : VerifyEmailInputDto) (w : World) (r : OneTimeTokenRow) {events : List Event} {v : World}
      → hits i.one_time_token w ≡ r ∷ []
      → owners r.user_id w ≡ []
      → verify_user i w ≢ (ok events, v)
  unfolding verify_user OneTimeTokens.get_by_string Users.get_by_id
  owner-unfound i w r e f = ground arith

  owner-ambiguous :
      (i : VerifyEmailInputDto) (w : World) (r : OneTimeTokenRow) (u q : UserRow)
      (rows : List UserRow) {events : List Event} {v : World}
      → hits i.one_time_token w ≡ r ∷ []
      → owners r.user_id w ≡ u ∷ q ∷ rows
      → verify_user i w ≢ (ok events, v)
  unfolding verify_user OneTimeTokens.get_by_string Users.get_by_id
  owner-ambiguous i w r u q rows e f = ground arith

  -- the one row of a token that was used, and its owner's
  pub verify-finds :
      (i : VerifyEmailInputDto) (w : World) {events : List Event} {v : World}
      → verify_user i w ≡ (ok events, v)
      → (r : OneTimeTokenRow) × (u : UserRow) × (hits i.one_time_token w ≡ r ∷ [])
        × (owners r.user_id w ≡ u ∷ [])
  verify-finds i w h =
      let (r, e) =
        one-row (hits i.one_time_token w) (λ e. token-unfound i w e h)
          (λ r q rows e. token-ambiguous i w r q rows e h) in
      let (u, f) =
        one-row (owners r.user_id w) (λ f. owner-unfound i w r e f h)
          (λ u q rows f. owner-ambiguous i w r u q rows e f h) in
      (r, u, e, f)
