-- ===== src/Cases/Register/Again.antt =====
-- cases/user/register.py: a registration of an address that is stored and not verified.
use hexagonal_auth_service.Base.{ℕ, ◌≡◌, refl, sym, ◌∙◌, false, List, [], ◌∷◌, arith}
use hexagonal_auth_service.Exec.{ok, pure, ◌>>◌}
use hexagonal_auth_service.Env.{Env}
use hexagonal_auth_service.Events.{Event, user_email_verification_requested}
use hexagonal_auth_service.Events.Kinds.{is_notification, is_domain}
use hexagonal_auth_service.Schema.{UserRow}
use hexagonal_auth_service.World.{World}
use hexagonal_auth_service.User
use hexagonal_auth_service.OneTimeToken
use hexagonal_auth_service.Services.{request_verification}
use hexagonal_auth_service.Persistence.Sql.{scalar_one_or_none}
use hexagonal_auth_service.Persistence.Users
use hexagonal_auth_service.Persistence.OneTimeTokens
use hexagonal_auth_service.EventBus.Memory.{push_notification}
use hexagonal_auth_service.EventBus.Publisher.{publish}
use hexagonal_auth_service.Cases.Inputs.{RegisterUserInputDto}
use hexagonal_auth_service.Cases.Refresh.Success.{after}
use hexagonal_auth_service.Cases.Rows.{publishes-ok}
use hexagonal_auth_service.Cases.Sent.{IsSent, addressed, sent_token, saves-ok}
use hexagonal_auth_service.Cases.Register.{register_user, or_create, execute}

module _ ⦃env : Env⦄ where
  abbrev next_token : ℕ → ℕ → OneTimeToken.OneTimeToken
  next_token = sent_token OneTimeToken.verify_email env.email_token_len env.email_token_exp

  abbrev next_event : UserRow → ℕ → Event
  next_event u n = record {
    timestamp = env.clock (after 3 n);
    payload =
        user_email_verification_requested u.id u.email
          (env.token_urlsafe (after 1 n) env.email_token_len);
  }

  renew-saves :
      (i : RegisterUserInputDto) (w : World) (u : UserRow)
      → addressed i.email w ≡ u ∷ []
      → u.is_email_verified ≡ false
      → register_user i w
        ≡ (do
          Users.save (Users.orm2domain u)
          OneTimeTokens.save (next_token u.id w.calls)
          pure (next_event u w.calls ∷ []))
            (record w { calls = after 4 w.calls })
  unfolding register_user or_create Users.get_by_email request_verification OneTimeToken.create
      User.request_email_verification User.pull_domain_events Users.orm2domain
  renew-saves i w u found verified = rw (found, scalar_one_or_none) (rw verified refl)

  unverified :
      (i : RegisterUserInputDto) (w : World) (u : UserRow) {events : List Event} {v : World}
      → addressed i.email w ≡ u ∷ []
      → register_user i w ≡ (ok events, v)
      → u.is_email_verified ≡ false
  unfolding register_user Users.get_by_email
  unverified i w u found h = ground arith

  renewed :
      (i : RegisterUserInputDto) (w : World) (u : UserRow) {events : List Event} {v : World}
      → addressed i.email w ≡ u ∷ []
      → u.is_email_verified ≡ false
      → register_user i w ≡ (ok events, v)
      → IsSent i.email false OneTimeToken.verify_email env.email_token_exp
          user_email_verification_requested w
          (publish events v).1
  unfolding publish push_notification is_notification is_domain Users.save OneTimeTokens.save
      Users.orm2domain Users.set_columns OneTimeTokens.domain2orm OneTimeTokens.purpose_value
  renewed i w u {events} {v} found verified k =
      let (there, one, world) =
        saves-ok (Users.orm2domain u) (next_token u.id w.calls) u.version
          (next_event u w.calls ∷ []) (record w { calls = after 4 w.calls })
          (sym (renew-saves i w u found verified) ∙ k) in
      rw (← there, world)
        (record {
          user = u;
          token = record (OneTimeTokens.domain2orm (next_token u.id w.calls)) { version = 1 };
          string = env.token_urlsafe (after 1 w.calls) env.email_token_len;
          time = env.clock (after 3 w.calls);
          found = found;
          status = verified;
          alone = one;
          tables = refl;
          owned = refl;
          token_hash = refl;
          usable = (refl, refl);
          expires = refl;
          logged = refl;
          notified = refl;
        })

  -- A registration that returns, of an address under which one user is stored, found this user not
  -- verified. Whatever password it was given, valid or not, it left the user as it was but for the
  -- version, the hash of the first registration included, and added one unused token of this user for
  -- verifying the address, which expires the configured time after the registration. It changed
  -- nothing else in the tables or in the audit log, and sent one notification, with the string whose
  -- hash the token has.
  pub execute-IsRenewal :
      (i : RegisterUserInputDto) (w : World) (u : UserRow) {w' : World}
      → addressed i.email w ≡ u ∷ []
      → execute i w ≡ (ok tt, w')
      → IsSent i.email false OneTimeToken.verify_email env.email_token_exp
          user_email_verification_requested w w'
  unfolding execute
  execute-IsRenewal i w u found h =
      let (events, v, inner, outer) = publishes-ok (register_user i) w h in
      rw outer (renewed i w u found (unverified i w u found inner) inner)
