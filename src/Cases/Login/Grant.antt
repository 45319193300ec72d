-- ===== src/Cases/Login/Grant.antt =====
-- What a login grants, and to whom.
use hexagonal_auth_service.Base.{
  count, ℕ, ◌+◌, ◌≡◌, refl, sym, ap, ◌∙◌, true, none, some, List, [], ◌∷◌, ◌++◌,
}
use hexagonal_auth_service.Exec.{Result, ok, err, continue, pure, ◌>>◌}
use hexagonal_auth_service.Env.{Env}
use hexagonal_auth_service.Events.{Event, refresh_token_created}
use hexagonal_auth_service.Events.Kinds.{is_notification, is_domain}
use hexagonal_auth_service.Events.Serializer.{serialize}
use hexagonal_auth_service.Utils.{hash_token}
use hexagonal_auth_service.AccessToken.{issue}
use hexagonal_auth_service.Schema.{UserRow, RefreshTokenRow}
use hexagonal_auth_service.World.{World, transaction, finish}
use hexagonal_auth_service.Persistence.Sql.{update_where}
use hexagonal_auth_service.Persistence.Users
use hexagonal_auth_service.Persistence.RefreshTokens
use hexagonal_auth_service.EventBus.RedisQueue.{push}
use hexagonal_auth_service.EventBus.Publisher.{publish}
use hexagonal_auth_service.Cases.Refresh.Success.{after}
use hexagonal_auth_service.Cases.Inputs.{LoginUserInputDto, TokenPairDto}
use hexagonal_auth_service.Cases.Login.{login_user, execute}
use hexagonal_auth_service.Cases.Login.Success.{
  owners, same_version, new_token, new_pair, created_event, login-admits, login-saves, saves-ok,
  login-unfound, login-ambiguous,
}

module _ ⦃env : Env⦄ where
  -- A login found the one user with the address, who may log in, and added a refresh token.
  pub record IsLogin (i : LoginUserInputDto) (w : World) (pair : TokenPairDto) (w' : World)
      : Type 0 where
    pub user : UserRow
    pub new : RefreshTokenRow
    pub time : ℕ
    pub found : owners i.email w ≡ user ∷ []
    pub active : user.active ≡ true
    pub verified : user.is_email_verified ≡ true
    pub password : env.checkpw i.password user.password_hash ≡ some true
    pub alone : count (same_version user) w.db.users ≡ 1
    pub tables : w'.db ≡ record w.db {
      users =
          update_where
            (same_version user)
            (λ r. record user { id = r.id; version = user.version + 1 })
            w.db.users;
      refresh_tokens = w.db.refresh_tokens ++ new ∷ [];
    }
    pub owned : new.user_id ≡ user.id
    pub new_hash : new.token_hash ≡ hash_token pair.refresh_token
    pub access : (issue user.id env.access_token_exp w.calls).0 ≡ ok pair.access_token
    pub new_live : (new.revoked_at ≡ none) × (new.replaced_by_id ≡ none)
    pub new_created : new.created_at ≡ env.clock (after 2 w.calls)
    pub new_expires : new.expires_at ≡ new.created_at + env.refresh_token_exp
    pub logged :
        w'.audit
        ≡ env.rpush w.audit (
            serialize (record {
              timestamp = time;
              payload = refresh_token_created user.id new.id i.client_ip i.user_agent i.location;
            }))
    pub quiet : w'.notifications ≡ w.notifications

  -- the block returned, and its events were published
  execute-ok :
      (i : LoginUserInputDto) (w : World) {pair : TokenPairDto} {w' : World}
      → execute i w ≡ (ok pair, w')
      → (events : List Event) × (v : World) × (login_user i w ≡ (ok (pair, events), v))
        × (w' ≡ (publish events v).1)
  unfolding execute transaction publish
  execute-ok i w h = split (login_user i w) h
    where
      split :
          {pair : TokenPairDto} {w' : World} (r : Result (TokenPairDto × List Event) × World)
          → continue
              (finish w.db r)
              (λ (out : TokenPairDto × List Event). do publish out.1; pure out.0)
            ≡ (ok pair, w')
          → (events : List Event) × (v : World) × (r ≡ (ok (pair, events), v))
            × (w' ≡ (publish events v).1)
      split (ok (p, events), v) k = (events, v, cc, cc)
      split (err e, v) k = cc

  granted :
      (i : LoginUserInputDto) (w : World) (u : UserRow) {pair : TokenPairDto} {events : List Event}
      {v : World}
      → owners i.email w ≡ u ∷ []
      → login_user i w ≡ (ok (pair, events), v)
      → IsLogin i w pair (publish events v).1
  unfolding publish push is_notification is_domain Users.save RefreshTokens.save Users.is_current
      Users.set_columns Users.orm2domain RefreshTokens.domain2orm issue
  granted i w u {pair} {events} {v} e h =
      let (active, verified, password) = login-admits i w u e h in
      let (same, alone, world) =
        saves-ok (Users.orm2domain u) (new_token i u w.calls) u.version
          (new_pair u w.calls, created_event i u w.calls ∷ [])
          (record w { calls = after 5 w.calls })
          (sym (login-saves i w u e active verified password) ∙ h) in
      let there : (created_event i u w.calls ∷ []) ≡ events =
        ap (λ (o : TokenPairDto × List Event). o.1) same in
      rw (← there, world)
        (record {
          user = u;
          new = record (RefreshTokens.domain2orm (new_token i u w.calls)) { version = 1 };
          time = env.clock (after 4 w.calls);
          found = e;
          active = active;
          verified = verified;
          password = password;
          alone = alone;
          tables = refl;
          owned = refl;
          new_hash = ap (λ (o : TokenPairDto × List Event). hash_token o.0.refresh_token) same;
          access = ap (λ (o : TokenPairDto × List Event). ok o.0.access_token) same;
          new_live = (refl, refl);
          new_created = refl;
          new_expires = refl;
          logged = refl;
          quiet = refl;
        })

  -- A login that returns a pair found the one user with the given address, active and verified, whose
  -- hash the given password matches. It returned an access token that was issued for that user, and added
  -- one refresh token of that user, with the hash of the returned one, neither revoked nor replaced,
  -- created in this run and expiring the configured lifetime after that. It raised the version of the
  -- user's row, and pushed the event of the token's creation to the audit log; it changed nothing else
  -- in the tables and sent no notification.
  pub execute-IsLogin :
      (i : LoginUserInputDto) (w : World) {pair : TokenPairDto} {w' : World}
      → execute i w ≡ (ok pair, w')
      → IsLogin i w pair w'
  execute-IsLogin i w {pair} h =
      let (events, v, inner, outer) = execute-ok i w h in
      rw outer (split (owners i.email w) refl inner)
    where
      split :
          {pair : TokenPairDto} {events : List Event} {v : World} (rows : List UserRow)
          → owners i.email w ≡ rows
          → login_user i w ≡ (ok (pair, events), v)
          → IsLogin i w pair (publish events v).1
      split [] e k = absurd (login-unfound i w e k)
      split (u ∷ q ∷ rows) e k = absurd (login-ambiguous i w u q rows e k)
      split (u ∷ []) e k = granted i w u e k
