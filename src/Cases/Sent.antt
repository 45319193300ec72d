-- ===== src/Cases/Sent.antt =====
-- What the use cases that send a token to a stored user share: the user that is found by the address,
-- the token, the two statements at the end and the notification.
use hexagonal_auth_service.Base.{
  ℕ, ◌+◌, ◌≡◌, Bool, false, some, none, List, [], ◌∷◌, ◌++◌, Text, text_eq, filter, count, arith,
}
use hexagonal_auth_service.Exec.{ok, pure, ◌>>◌}
use hexagonal_auth_service.Env.{Env}
use hexagonal_auth_service.Events.{Payload}
use hexagonal_auth_service.Utils.{hash_token}
use hexagonal_auth_service.Schema.{UserRow, OneTimeTokenRow}
use hexagonal_auth_service.World.{World}
use hexagonal_auth_service.User
use hexagonal_auth_service.OneTimeToken
use hexagonal_auth_service.OneTimeToken.{OneTimeTokenPurpose}
use hexagonal_auth_service.Persistence.Sql.{update_where, version_is, write}
use hexagonal_auth_service.Persistence.Tables.{filter-update_where, filter-head}
use hexagonal_auth_service.Persistence.Users
use hexagonal_auth_service.Persistence.OneTimeTokens
use hexagonal_auth_service.Cases.Refresh.Success.{after}

module _ ⦃env : Env⦄ where
  -- the rows with an address
  abbrev pub addressed : Text → World → List UserRow
  addressed email w = filter (λ r. text_eq r.email email) w.db.users

  -- the token of a user, made after the answer `n`
  abbrev pub sent_token : OneTimeTokenPurpose → ℕ → ℕ → ℕ → ℕ → OneTimeToken.OneTimeToken
  sent_token purpose len exp user_id n = record {
    id = env.uuid (after 2 n);
    user_id = user_id;
    token_hash = hash_token (env.token_urlsafe (after 1 n) len);
    expires_at = env.clock n + exp;
    purpose = purpose;
    used = false;
    version = none;
  }

  -- A use case found the one user with an address, which is verified or not, saved it as it was, and added a token of this user
  -- whose string went into a notification.
  pub record IsSent (email : Text) (verified : Bool) (purpose : OneTimeTokenPurpose) (exp : ℕ)
      (payload : ℕ → Text → Text → Payload) (w w' : World) : Type 0 where
    pub user : UserRow
    pub token : OneTimeTokenRow
    pub string : Text
    pub time : ℕ
    pub found : addressed email w ≡ user ∷ []
    pub status : user.is_email_verified ≡ verified
    pub alone : count (Users.is_current (Users.orm2domain user)) w.db.users ≡ 1
    pub tables : w'.db ≡ record w.db {
      users =
          update_where
            (Users.is_current (Users.orm2domain user))
            (λ r. record user { id = r.id; version = user.version + 1 })
            w.db.users;
      one_time_tokens = w.db.one_time_tokens ++ token ∷ [];
    }
    pub owned : token.user_id ≡ user.id
    pub token_hash : token.token_hash ≡ hash_token string
    pub usable : (token.used ≡ false) × (token.purpose ≡ OneTimeTokens.purpose_value purpose)
    pub expires : token.expires_at ≡ env.clock w.calls + exp
    pub logged : w'.audit ≡ w.audit
    pub notified :
        w'.notifications
        ≡ w.notifications
          ++ record { timestamp = time; payload = payload user.id user.email string } ∷ []

  pub saves-ok :
      {A : Type 0} (u : User.User) (t : OneTimeToken.OneTimeToken) (n : ℕ) (a : A) (w : World)
      {w' : World} {b : A}
      → (do Users.save_with u (some n); OneTimeTokens.save_with t none; pure a) w ≡ (ok b, w')
      → (a ≡ b)
        × (count (Users.is_current u) w.db.users ≡ 1)
        × (w' ≡ record w {
          db = record w.db {
            users = update_where (Users.is_current u) (Users.set_columns u (n + 1)) w.db.users;
            one_time_tokens =
                w.db.one_time_tokens ++ record (OneTimeTokens.domain2orm t) { version = 1 } ∷ [];
          };
        })
  unfolding Users.save_with OneTimeTokens.save_with write
  saves-ok u t n a w h = (ground arith, ground arith, ground arith)

  -- The user under the address is the same but for the version.
  pub sent-user :
      {email : Text} {verified : Bool} {purpose : OneTimeTokenPurpose} {exp : ℕ}
      {payload : ℕ → Text → Text → Payload} {w w' : World}
      (s : IsSent email verified purpose exp payload w w')
      → addressed email w' ≡ record s.user { version = s.user.version + 1 } ∷ []
  unfolding Users.is_current Users.orm2domain version_is
  sent-user {email} {w = w} s =
      let same =
        filter-head (λ (r : UserRow). text_eq r.email email) s.user [] w.db.users s.found in
      rw s.tables (
        filter-update_where (Users.is_current (Users.orm2domain s.user))
          (λ r. text_eq r.email email)
          (λ r. record s.user { id = r.id; version = s.user.version + 1 }) s.user w.db.users s.found
          (ground arith) s.alone same)
