-- ===== src/Cases/ChangePassword/Grant.antt =====
-- cases/user/change_password.py: what a change of a password writes, and the logins after it.
use hexagonal_auth_service.Base.{
  ℕ, suc, ◌+◌, ◌≡◌, ◌≢◌, refl, sym, ◌∙◌, true, some, List, [], ◌∷◌, Text, Option-cases, inl, inr,
  strip, length, ◌≤◌,
}
use hexagonal_auth_service.Exec.{ok}
use hexagonal_auth_service.Env.{Env}
use hexagonal_auth_service.Events.{Event, user_password_changed}
use hexagonal_auth_service.Events.Kinds.{is_notification, is_domain}
use hexagonal_auth_service.Events.Serializer.{serialize}
use hexagonal_auth_service.Schema.{UserRow}
use hexagonal_auth_service.World.{World}
use hexagonal_auth_service.User.Passwords.{IsHashing}
use hexagonal_auth_service.Persistence.Users
use hexagonal_auth_service.EventBus.RedisQueue.{push}
use hexagonal_auth_service.EventBus.Publisher.{publish}
use hexagonal_auth_service.Cases.Inputs.{ChangePasswordInputDto, LoginUserInputDto, TokenPairDto}
use hexagonal_auth_service.Cases.Rows.{owners, publishes-ok}
use hexagonal_auth_service.Cases.Renewed.{renewed, owners-renewed, hashes-stripped, save-ok}
use hexagonal_auth_service.Cases.Login
use hexagonal_auth_service.Cases.Relogin.{login-renewed}
use hexagonal_auth_service.Cases.ChangePassword.{change_password, execute}
use hexagonal_auth_service.Cases.ChangePassword.Success.{
  bearer, changed_event, change-live, change-finds, change-saves,
}

module _ ⦃env : Env⦄ where
  -- A change found the one user that the access token stands for, and stored the hash of the stripped
  -- new password.
  pub record IsChange (i : ChangePasswordInputDto) (w w' : World) : Type 0 where
    pub user : UserRow
    pub hash : Text
    pub id : ℕ
    pub authenticated : bearer i w ≡ ok id
    pub found : owners id w ≡ user ∷ []
    pub old : env.checkpw i.old_password user.password_hash ≡ some true
    pub another : i.old_password ≢ i.new_password
    pub long : 8 ≤ length (strip i.new_password)
    pub short : length (strip i.new_password) ≤ 255
    pub hashed : env.hashpw (strip i.new_password) (env.gensalt (suc w.calls)) ≡ some hash
    pub stored :
        owners user.id w' ≡ record user { password_hash = hash; version = user.version + 1 } ∷ []
    pub tokens : w'.db.one_time_tokens ≡ w.db.one_time_tokens
    pub sessions : w'.db.refresh_tokens ≡ w.db.refresh_tokens
    pub logged :
        w'.audit
        ≡ env.rpush w.audit (
            serialize (record {
              timestamp = env.clock (suc (suc w.calls));
              payload = user_password_changed user.id;
            }))
    pub quiet : w'.notifications ≡ w.notifications

  changed :
      (i : ChangePasswordInputDto) (w : World) (id : ℕ) (u : UserRow) (h : Text)
      {events : List Event} {v : World}
      → bearer i w ≡ ok id
      → owners id w ≡ u ∷ []
      → env.hashpw (strip i.new_password) (env.gensalt (suc w.calls)) ≡ some h
      → change_password i w ≡ (ok events, v)
      → IsChange i w (publish events v).1
  unfolding publish push is_notification is_domain Users.save Users.orm2domain
  changed i w id u h {events} {v} b f hashed k =
      let (old, differs, long, short, _) = change-live i w id u b f k in
      let (there, one, world) =
        save-ok (renewed u h) u.version (changed_event u w.calls ∷ [])
          (record w { calls = suc (suc (suc w.calls)) })
          (sym (
              change-saves i w id u h b f old differs
                (hashes-stripped i.new_password (suc w.calls) h long short hashed))
            ∙ k) in
      rw (← there, world)
        (record {
          user = u;
          hash = h;
          id = id;
          authenticated = b;
          found = f;
          old = old;
          another = differs;
          long = long;
          short = short;
          hashed = hashed;
          stored = owners-renewed u h id w f one;
          tokens = refl;
          sessions = refl;
          logged = refl;
          quiet = refl;
        })

  -- A change of a password that returns found the one user whom the access token stands for. The old
  -- password matches this user's hash, and the new one differs from it as given and has 8 to 255
  -- characters without its surrounding spaces. It stored for this user the hash of the new password
  -- without these spaces, left all tokens, refresh tokens included, pushed the event of the change to
  -- the audit log and sent no notification.
  pub execute-IsChange :
      (i : ChangePasswordInputDto) (w : World) {w' : World}
      → execute i w ≡ (ok tt, w')
      → IsChange i w w'
  unfolding execute
  execute-IsChange i w h =
      let (events, v, inner, outer) = publishes-ok (change_password i) w h in
      let (id, u, b, f) = change-finds i w inner in
      let (_, _, _, _, some_hash) = change-live i w id u b f inner in
      rw outer
        (elim (Option-cases (env.hashpw (strip i.new_password) (env.gensalt (suc w.calls)))) [
          | inl nothing ↦ absurd (some_hash nothing)
          | inr (hash, hashed) ↦ changed i w id u hash b f hashed inner
        ])

  -- After a change of a password that returned, a login that returns a pair for the address of the
  -- user whom the access token stands for gave exactly the new password without its surrounding
  -- spaces, if no other password checks with bcrypt against the hash of a password.
  pub changed_password :
      IsHashing
      → (i : ChangePasswordInputDto) (j : LoginUserInputDto) (w : World) (id : ℕ) (u : UserRow)
        {w₁ w₂ : World} {pair : TokenPairDto}
      → bearer i w ≡ ok id
      → owners id w ≡ u ∷ []
      → execute i w ≡ (ok tt, w₁)
      → j.email ≡ u.email
      → Login.execute j w₁ ≡ (ok pair, w₂)
      → j.password ≡ strip i.new_password
  changed_password law i j w id u {w₁} e f h same k =
      let a = execute-IsChange i w h in
      let who : a.id ≡ id = cc in
      let user : a.user ≡ u = cc in
      let address : j.email ≡ a.user.email = cc in
      login-renewed law j a.user (strip i.new_password) (env.gensalt (suc w.calls)) a.hash
        (a.user.version + 1) w₁ a.stored a.hashed address k
