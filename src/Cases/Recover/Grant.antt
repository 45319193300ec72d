-- ===== src/Cases/Recover/Grant.antt =====
-- cases/user/password_recover.py: what a recovery writes, and the logins after it.
use hexagonal_auth_service.Base.{
  suc, leb, ◌+◌, ◌≡◌, refl, sym, ◌∙◌, true, false, some, List, [], ◌∷◌, Text, Option-cases, inl,
  inr, strip, length, ◌≤◌,
}
use hexagonal_auth_service.Exec.{ok}
use hexagonal_auth_service.Env.{Env}
use hexagonal_auth_service.Events.{Event, user_password_recovered}
use hexagonal_auth_service.Events.Kinds.{is_notification, is_domain}
use hexagonal_auth_service.Events.Serializer.{serialize}
use hexagonal_auth_service.Schema.{UserRow, OneTimeTokenRow}
use hexagonal_auth_service.World.{World}
use hexagonal_auth_service.User.Passwords.{IsHashing}
use hexagonal_auth_service.OneTimeToken
use hexagonal_auth_service.Persistence.Users
use hexagonal_auth_service.Persistence.OneTimeTokens
use hexagonal_auth_service.EventBus.RedisQueue.{push}
use hexagonal_auth_service.EventBus.Publisher.{publish}
use hexagonal_auth_service.Cases.Inputs.{PasswordRecoverInputDto, LoginUserInputDto, TokenPairDto}
use hexagonal_auth_service.Cases.Rows.{hits, owners, used_token, saves-ok, hits-used, publishes-ok}
use hexagonal_auth_service.Cases.Login
use hexagonal_auth_service.Cases.Relogin.{login-renewed}
use hexagonal_auth_service.Cases.Renewed.{renewed, owners-renewed, hashes-stripped}
use hexagonal_auth_service.Cases.Recover.{recover_password, execute}
use hexagonal_auth_service.Cases.Recover.Success.{
  recovered_event, recover-live, recover-finds, recover-saves,
}

module _ ⦃env : Env⦄ where
  -- A recovery found one unused token for recovering a password and the one owner of it, and stored
  -- the hash of the stripped password.
  pub record IsRecovery (i : PasswordRecoverInputDto) (w w' : World) : Type 0 where
    pub token : OneTimeTokenRow
    pub user : UserRow
    pub hash : Text
    pub found : hits i.password_recover_token w ≡ token ∷ []
    pub purpose : OneTimeTokens.parse_purpose token.purpose ≡ ok OneTimeToken.recover_password
    pub unused : token.used ≡ false
    pub alive : leb (env.clock (suc (suc w.calls))) token.expires_at ≡ true
    pub owner : owners token.user_id w ≡ user ∷ []
    pub long : 8 ≤ length (strip i.password)
    pub short : length (strip i.password) ≤ 255
    pub hashed : env.hashpw (strip i.password) (env.gensalt w.calls) ≡ some hash
    pub stored :
        owners user.id w' ≡ record user { password_hash = hash; version = user.version + 1 } ∷ []
    pub spent :
        hits i.password_recover_token w'
        ≡ record token { used = true; version = token.version + 1 } ∷ []
    pub sessions : w'.db.refresh_tokens ≡ w.db.refresh_tokens
    pub logged :
        w'.audit
        ≡ env.rpush w.audit (
            serialize (record {
              timestamp = env.clock (suc w.calls);
              payload = user_password_recovered user.id;
            }))
    pub quiet : w'.notifications ≡ w.notifications

  recovered :
      (i : PasswordRecoverInputDto) (w : World) (r : OneTimeTokenRow) (u : UserRow) (h : Text)
      {events : List Event} {v : World}
      → hits i.password_recover_token w ≡ r ∷ []
      → owners r.user_id w ≡ u ∷ []
      → env.hashpw (strip i.password) (env.gensalt w.calls) ≡ some h
      → recover_password i w ≡ (ok events, v)
      → IsRecovery i w (publish events v).1
  unfolding publish push is_notification is_domain Users.save OneTimeTokens.save Users.orm2domain
      OneTimeTokens.with_purpose OneTimeTokens.set_columns
  recovered i w r u h {events} {v} e f hashed k =
      let (purpose, unused, alive, long, short, _) = recover-live i w r u e f k in
      let (there, one, alone, world) =
        saves-ok (renewed u h) (used_token OneTimeToken.recover_password r) u.version r.version
          (recovered_event u w.calls ∷ []) (record w { calls = suc (suc (suc w.calls)) })
          (sym (
              recover-saves i w r u h e f purpose unused alive
                (hashes-stripped i.password w.calls h long short hashed))
            ∙ k) in
      rw (← there, world)
        (record {
          token = r;
          user = u;
          hash = h;
          found = e;
          purpose = purpose;
          unused = unused;
          alive = alive;
          owner = f;
          long = long;
          short = short;
          hashed = hashed;
          stored = owners-renewed u h r.user_id w f one;
          spent = hits-used i.password_recover_token OneTimeToken.recover_password r w e alone;
          sessions = refl;
          logged = refl;
          quiet = refl;
        })

  -- A recovery that returns found the one row of the token, which was unused, for recovering a password
  -- and not expired, and the one owner of it. It stored for this user the hash of the password without
  -- its surrounding spaces, which has 8 to 255 characters, marked the token as used, left the refresh
  -- tokens, pushed the event of the recovery to the audit log and sent no notification.
  pub execute-IsRecovery :
      (i : PasswordRecoverInputDto) (w : World) {w' : World}
      → execute i w ≡ (ok tt, w')
      → IsRecovery i w w'
  unfolding execute
  execute-IsRecovery i w h =
      let (events, v, inner, outer) = publishes-ok (recover_password i) w h in
      let (r, u, e, f) = recover-finds i w inner in
      let (_, _, _, _, _, some_hash) = recover-live i w r u e f inner in
      rw outer (elim (Option-cases (env.hashpw (strip i.password) (env.gensalt w.calls))) [
        | inl nothing ↦ absurd (some_hash nothing)
        | inr (hash, hashed) ↦ recovered i w r u hash e f hashed inner
      ])

  -- After a recovery that returned, a login that returns a pair for the address of the token's owner
  -- gave exactly the new password without its surrounding spaces, if no other password checks with
  -- bcrypt against the hash of a password.
  pub recovered_password :
      IsHashing
      → (i : PasswordRecoverInputDto) (j : LoginUserInputDto) (w : World) (r : OneTimeTokenRow)
        (u : UserRow) {w₁ w₂ : World} {pair : TokenPairDto}
      → hits i.password_recover_token w ≡ r ∷ []
      → owners r.user_id w ≡ u ∷ []
      → execute i w ≡ (ok tt, w₁)
      → j.email ≡ u.email
      → Login.execute j w₁ ≡ (ok pair, w₂)
      → j.password ≡ strip i.password
  recovered_password law i j w r u {w₁} e f h same k =
      let a = execute-IsRecovery i w h in
      let token : a.token ≡ r = cc in
      let user : a.user ≡ u = cc in
      let address : j.email ≡ a.user.email = cc in
      login-renewed law j a.user (strip i.password) (env.gensalt w.calls) a.hash
        (a.user.version + 1) w₁ a.stored a.hashed address k
