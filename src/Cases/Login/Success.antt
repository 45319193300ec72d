-- ===== src/Cases/Login/Success.antt =====
-- Whom a login that returns has let in, and what it has done.
use hexagonal_auth_service.Base.{
  ℕ, ◌+◌, ◌≡◌, ◌≢◌, refl, Bool, true, ◌&&◌, none, some, List, [], ◌∷◌, ◌++◌, Text, codes, text_eq,
  filter, count, ◌==◌, arith,
}
use hexagonal_auth_service.Exec.{ok, pure, ◌>>◌}
use hexagonal_auth_service.Env.{Env}
use hexagonal_auth_service.Events.{Event, refresh_token_created}
use hexagonal_auth_service.Utils
use hexagonal_auth_service.Utils.{hash_token}
use hexagonal_auth_service.Schema.{UserRow}
use hexagonal_auth_service.World.{World}
use hexagonal_auth_service.User
use hexagonal_auth_service.User.{User}
use hexagonal_auth_service.RefreshToken
use hexagonal_auth_service.RefreshToken.{RefreshToken}
use hexagonal_auth_service.AccessToken.{issue}
use hexagonal_auth_service.Persistence.Sql.{scalar_one_or_none, update_where, write}
use hexagonal_auth_service.Persistence.Users
use hexagonal_auth_service.Persistence.RefreshTokens
use hexagonal_auth_service.Cases.Inputs.{LoginUserInputDto, TokenPairDto}
use hexagonal_auth_service.Cases.Login.{login_user}
use hexagonal_auth_service.Cases.Refresh.Success.{after}

module _ ⦃env : Env⦄ where
  -- the rows with an address
  abbrev pub owners : Text → World → List UserRow
  owners email w = filter (λ r. text_eq r.email email) w.db.users

  abbrev pub same_version : UserRow → UserRow → Bool
  same_version user r = r.id == user.id && r.version == user.version

  abbrev pub new_token : LoginUserInputDto → UserRow → ℕ → RefreshToken
  new_token i u n = record {
    id = env.uuid (after 3 n);
    user_id = u.id;
    token_hash = hash_token (env.token_urlsafe (after 1 n) env.refresh_token_len);
    expires_at = env.clock (after 2 n) + env.refresh_token_exp;
    created_at = env.clock (after 2 n);
    revoked_at = none;
    replaced_by_id = none;
    location = i.location;
    client_ip = i.client_ip;
    user_agent = i.user_agent;
    events = [];
    version = none;
  }

  abbrev pub new_pair : UserRow → ℕ → TokenPairDto
  new_pair u n = record {
    access_token = env.encode (record {
      sub = env.uuid_text u.id;
      iat = env.clock n;
      exp = env.clock n + env.access_token_exp;
      kind = codes "access";
    });
    refresh_token = env.token_urlsafe (after 1 n) env.refresh_token_len;
  }

  abbrev pub created_event : LoginUserInputDto → UserRow → ℕ → Event
  created_event i u n = record {
    timestamp = env.clock (after 4 n);
    payload = refresh_token_created u.id (env.uuid (after 3 n)) i.client_ip i.user_agent i.location;
  }

  pub login-admits :
      (i : LoginUserInputDto) (w : World) (u : UserRow) {out : TokenPairDto × List Event}
      {w' : World}
      → owners i.email w ≡ u ∷ []
      → login_user i w ≡ (ok out, w')
      → (u.active ≡ true)
        × (u.is_email_verified ≡ true)
        × (env.checkpw i.password u.password_hash ≡ some true)
  unfolding login_user Users.get_by_email User.assert_can_login Utils.verify_password
  login-admits i w u e h = ground arith

  pub login-saves :
      (i : LoginUserInputDto) (w : World) (u : UserRow)
      → owners i.email w ≡ u ∷ []
      → u.active ≡ true
      → u.is_email_verified ≡ true
      → env.checkpw i.password u.password_hash ≡ some true
      → login_user i w
        ≡ (do
          Users.save (Users.orm2domain u)
          RefreshTokens.save (new_token i u w.calls)
          pure (new_pair u w.calls, created_event i u w.calls ∷ []))
            (record w { calls = after 5 w.calls })
  unfolding login_user Users.get_by_email User.assert_can_login Utils.verify_password issue
      RefreshToken.create User.pull_domain_events RefreshToken.pull_domain_events
  login-saves i w u e e₁ e₂ e₃ = rw (e, scalar_one_or_none) (rw (e₁, e₂, e₃) refl)

  pub saves-ok :
      {A : Type 0} (u : User) (t : RefreshToken) (v : ℕ) (a : A) (w : World) {w' : World} {b : A}
      → (do Users.save_with u (some v); RefreshTokens.save_with t none; pure a) w ≡ (ok b, w')
      → (a ≡ b)
        × (count (Users.is_current u) w.db.users ≡ 1)
        × (w' ≡ record w {
          db = record w.db {
            users = update_where (Users.is_current u) (Users.set_columns u (v + 1)) w.db.users;
            refresh_tokens =
                w.db.refresh_tokens ++ record (RefreshTokens.domain2orm t) { version = 1 } ∷ [];
          };
        })
  unfolding Users.save_with RefreshTokens.save_with write
  saves-ok u t v a w h = (ground arith, ground arith, ground arith)

  pub login-unfound :
      (i : LoginUserInputDto) (w : World) {out : TokenPairDto × List Event} {w' : World}
      → owners i.email w ≡ []
      → login_user i w ≢ (ok out, w')
  unfolding login_user Users.get_by_email
  login-unfound i w e = ground arith

  pub login-ambiguous :
      (i : LoginUserInputDto) (w : World) (r q : UserRow) (rows : List UserRow)
      {out : TokenPairDto × List Event} {w' : World}
      → owners i.email w ≡ r ∷ q ∷ rows
      → login_user i w ≢ (ok out, w')
  unfolding login_user Users.get_by_email
  login-ambiguous i w r q rows e = ground arith
