-- ===== src/Cases/VerifyEmail/Grant.antt =====
-- cases/user/verify_email.py: what a verification of an address writes.
use hexagonal_auth_service.Base.{
  ℕ, suc, leb, ◌+◌, ◌≡◌, refl, sym, ◌∙◌, true, false, List, [], ◌∷◌, filter, count, ◌==◌,
}
use hexagonal_auth_service.Exec.{ok}
use hexagonal_auth_service.Env.{Env}
use hexagonal_auth_service.Events.{Event, user_email_verified}
use hexagonal_auth_service.Events.Kinds.{is_notification, is_domain}
use hexagonal_auth_service.Events.Serializer.{serialize}
use hexagonal_auth_service.Schema.{UserRow, OneTimeTokenRow}
use hexagonal_auth_service.World.{World}
use hexagonal_auth_service.User
use hexagonal_auth_service.OneTimeToken
use hexagonal_auth_service.Persistence.Sql.{update_where}
use hexagonal_auth_service.Persistence.Users
use hexagonal_auth_service.Persistence.OneTimeTokens
use hexagonal_auth_service.EventBus.RedisQueue.{push}
use hexagonal_auth_service.EventBus.Publisher.{publish}
use hexagonal_auth_service.Cases.Inputs.{VerifyEmailInputDto}
use hexagonal_auth_service.Cases.Rows.{
  hits, owners, used_token, saves-ok, hits-used, publishes-ok, owners-saved,
}
use hexagonal_auth_service.Cases.VerifyEmail.{verify_user, execute}
use hexagonal_auth_service.Cases.VerifyEmail.Success.{verify-live, verify-saves, verify-finds}

module _ ⦃env : Env⦄ where
  -- A verification found one unused token for verifying an address and the one owner of it, and stored
  -- the owner as verified.
  pub record IsVerification (i : VerifyEmailInputDto) (w w' : World) : Type 0 where
    pub token : OneTimeTokenRow
    pub user : UserRow
    pub found : hits i.one_time_token w ≡ token ∷ []
    pub purpose : OneTimeTokens.parse_purpose token.purpose ≡ ok OneTimeToken.verify_email
    pub unused : token.used ≡ false
    pub alive : leb (env.clock w.calls) token.expires_at ≡ true
    pub owner : owners token.user_id w ≡ user ∷ []
    pub unverified : user.is_email_verified ≡ false
    pub stored :
        owners user.id w'
        ≡ record user { is_email_verified = true; version = user.version + 1 } ∷ []
    pub spent :
        hits i.one_time_token w' ≡ record token { used = true; version = token.version + 1 } ∷ []
    pub sessions : w'.db.refresh_tokens ≡ w.db.refresh_tokens
    pub logged :
        w'.audit
        ≡ env.rpush w.audit (
            serialize (record {
              timestamp = env.clock (suc w.calls);
              payload = user_email_verified user.id user.email;
            }))
    pub quiet : w'.notifications ≡ w.notifications

  abbrev verified_user : UserRow → User.User
  verified_user u = record (Users.orm2domain u) { is_email_verified = true }

  owners-verified :
      (u : UserRow) (id : ℕ) (w : World)
      → owners id w ≡ u ∷ []
      → count (Users.is_current (verified_user u)) w.db.users ≡ 1
      → filter
          (λ r. r.id == u.id)
          (update_where
            (Users.is_current (verified_user u))
            (Users.set_columns (verified_user u) (u.version + 1))
            w.db.users)
        ≡ record u { is_email_verified = true; version = u.version + 1 } ∷ []
  unfolding Users.set_columns Users.orm2domain
  owners-verified u id w e alone = owners-saved (verified_user u) u id w refl refl e alone

  verified :
      (i : VerifyEmailInputDto) (w : World) (r : OneTimeTokenRow) (u : UserRow)
      {events : List Event} {v : World}
      → hits i.one_time_token w ≡ r ∷ []
      → owners r.user_id w ≡ u ∷ []
      → verify_user i w ≡ (ok events, v)
      → IsVerification i w (publish events v).1
  unfolding publish push is_notification is_domain Users.save OneTimeTokens.save Users.orm2domain
      OneTimeTokens.with_purpose OneTimeTokens.set_columns
  verified i w r u {events} {v} e f k =
      let (purpose, unused, alive, unverified) = verify-live i w r u e f k in
      let (there, one, alone, world) =
        saves-ok (verified_user u) (used_token OneTimeToken.verify_email r) u.version r.version
          (record {
            timestamp = env.clock (suc w.calls);
            payload = user_email_verified u.id u.email;
          }
            ∷ [])
          (record w { calls = suc (suc w.calls) })
          (sym (verify-saves i w r u e f purpose unused alive unverified) ∙ k) in
      rw (← there, world)
        (record {
          token = r;
          user = u;
          found = e;
          purpose = purpose;
          unused = unused;
          alive = alive;
          owner = f;
          unverified = unverified;
          stored = owners-verified u r.user_id w f one;
          spent = hits-used i.one_time_token OneTimeToken.verify_email r w e alone;
          sessions = refl;
          logged = refl;
          quiet = refl;
        })

  -- A verification of an address that returns found the one row of the token, which was unused, for
  -- verifying an address and not expired, and the one owner of it, who was not verified. It stored this
  -- user as verified, marked the token as used, left the refresh tokens, pushed the event of the
  -- verification to the audit log and sent no notification.
  pub execute-IsVerification :
      (i : VerifyEmailInputDto) (w : World) {w' : World}
      → execute i w ≡ (ok tt, w')
      → IsVerification i w w'
  unfolding execute
  execute-IsVerification i w h =
      let (events, v, inner, outer) = publishes-ok (verify_user i) w h in
      let (r, u, e, f) = verify-finds i w inner in rw outer (verified i w r u e f inner)
