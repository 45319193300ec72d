-- ===== src/Cases/RecoverRequest/Grant.antt =====
-- cases/user/password_recover_request.py: what a request for a recovery writes and sends.
use hexagonal_auth_service.Base.{ℕ, ◌≡◌, ◌≢◌, refl, sym, ◌∙◌, true, List, [], ◌∷◌, arith}
use hexagonal_auth_service.Exec.{ok, pure, ◌>>◌}
use hexagonal_auth_service.Env.{Env}
use hexagonal_auth_service.Events.{Event, user_password_recover_requested}
use hexagonal_auth_service.Events.Kinds.{is_notification, is_domain}
use hexagonal_auth_service.Schema.{UserRow}
use hexagonal_auth_service.World.{World}
use hexagonal_auth_service.User
use hexagonal_auth_service.OneTimeToken
use hexagonal_auth_service.Services.{request_password_recover}
use hexagonal_auth_service.Persistence.Sql.{scalar_one_or_none}
use hexagonal_auth_service.Persistence.Users
use hexagonal_auth_service.Persistence.OneTimeTokens
use hexagonal_auth_service.EventBus.Memory.{push_notification}
use hexagonal_auth_service.EventBus.Publisher.{publish}
use hexagonal_auth_service.Cases.Inputs.{PasswordRecoverRequestInputDto}
use hexagonal_auth_service.Cases.Refresh.Success.{after}
use hexagonal_auth_service.Cases.Rows.{one-row, publishes-ok}
use hexagonal_auth_service.Cases.Sent.{IsSent, addressed, sent_token, saves-ok}
use hexagonal_auth_service.Cases.RecoverRequest.{request_recover, execute}

module _ ⦃env : Env⦄ where
  abbrev requested_token : ℕ → ℕ → OneTimeToken.OneTimeToken
  requested_token =
      sent_token OneTimeToken.recover_password env.password_recover_token_len
        env.password_recover_token_exp

  abbrev requested_event : UserRow → ℕ → Event
  requested_event u n = record {
    timestamp = env.clock (after 3 n);
    payload =
        user_password_recover_requested u.id u.email
          (env.token_urlsafe (after 1 n) env.password_recover_token_len);
  }

  request-saves :
      (i : PasswordRecoverRequestInputDto) (w : World) (u : UserRow)
      → addressed i.email w ≡ u ∷ []
      → u.is_email_verified ≡ true
      → request_recover i w
        ≡ (do
          Users.save (Users.orm2domain u)
          OneTimeTokens.save (requested_token u.id w.calls)
          pure (requested_event u w.calls ∷ []))
            (record w { calls = after 4 w.calls })
  unfolding request_recover Users.get_by_email request_password_recover OneTimeToken.create
      User.request_password_recover User.pull_domain_events Users.orm2domain
  request-saves i w u found verified = rw (found, scalar_one_or_none) (rw verified refl)

  unverified :
      (i : PasswordRecoverRequestInputDto) (w : World) (u : UserRow) {events : List Event}
      {v : World}
      → addressed i.email w ≡ u ∷ []
      → request_recover i w ≡ (ok events, v)
      → u.is_email_verified ≡ true
  unfolding request_recover Users.get_by_email request_password_recover OneTimeToken.create
      User.request_password_recover
  unverified i w u found h = ground arith

  unfound :
      (i : PasswordRecoverRequestInputDto) (w : World) {events : List Event} {v : World}
      → addressed i.email w ≡ []
      → request_recover i w ≢ (ok events, v)
  unfolding request_recover Users.get_by_email
  unfound i w found = ground arith

  ambiguous :
      (i : PasswordRecoverRequestInputDto) (w : World) (u q : UserRow) (rows : List UserRow)
      {events : List Event} {v : World}
      → addressed i.email w ≡ u ∷ q ∷ rows
      → request_recover i w ≢ (ok events, v)
  unfolding request_recover Users.get_by_email
  ambiguous i w u q rows found = ground arith

  requested :
      (i : PasswordRecoverRequestInputDto) (w : World) (u : UserRow) {events : List Event}
      {v : World}
      → addressed i.email w ≡ u ∷ []
      → u.is_email_verified ≡ true
      → request_recover i w ≡ (ok events, v)
      → IsSent i.email true OneTimeToken.recover_password env.password_recover_token_exp
          user_password_recover_requested w
          (publish events v).1
  unfolding publish push_notification is_notification is_domain Users.save OneTimeTokens.save
      Users.orm2domain Users.set_columns OneTimeTokens.domain2orm OneTimeTokens.purpose_value
  requested i w u {events} {v} found verified k =
      let (there, one, world) =
        saves-ok (Users.orm2domain u) (requested_token u.id w.calls) u.version
          (requested_event u w.calls ∷ []) (record w { calls = after 4 w.calls })
          (sym (request-saves i w u found verified) ∙ k) in
      rw (← there, world)
        (record {
          user = u;
          token = record (OneTimeTokens.domain2orm (requested_token u.id w.calls)) { version = 1 };
          string = env.token_urlsafe (after 1 w.calls) env.password_recover_token_len;
          time = env.clock (after 3 w.calls);
          found = found;
          status = verified;
          alone = one;
          tables = refl;
          owned = refl;
          token_hash = refl;
          usable = (refl, refl);
          expires = refl;
          logged = refl;
          notified = refl;
        })

  -- A request for recovering a password that returns found the one user with the given address, whose
  -- address is verified. It left this user as it was but for the version, added one unused token of
  -- this user for recovering a password, which expires the configured time after the request, and
  -- changed nothing else in the tables or in the audit log. It sent one notification, with the string
  -- whose hash the token has.
  pub execute-IsRecoverRequest :
      (i : PasswordRecoverRequestInputDto) (w : World) {w' : World}
      → execute i w ≡ (ok tt, w')
      → IsSent i.email true OneTimeToken.recover_password env.password_recover_token_exp
          user_password_recover_requested w w'
  unfolding execute
  execute-IsRecoverRequest i w h =
      let (events, v, inner, outer) = publishes-ok (request_recover i) w h in
      let (u, found) =
        one-row (addressed i.email w) (λ e. unfound i w e inner)
          (λ u q rows e. ambiguous i w u q rows e inner) in
      let verified = unverified i w u found inner in rw outer (requested i w u found verified inner)
