-- ===== src/Cases/Register/Grant.antt =====
-- What a registration of a new address writes and announces.
use hexagonal_auth_service.Base.{
  ℕ, suc, ◌≡◌, refl, sym, ap, ◌∙◌, true, false, List, [], ◌∷◌, ◌++◌, Text, codes, text_eq, filter,
}
use hexagonal_auth_service.Exec.{Result, ok}
use hexagonal_auth_service.Env.{Env}
use hexagonal_auth_service.Events.{Event, user_created, user_email_verification_requested}
use hexagonal_auth_service.Events.Kinds.{is_notification, is_domain}
use hexagonal_auth_service.Events.Serializer.{serialize}
use hexagonal_auth_service.Utils.{hash_token}
use hexagonal_auth_service.Schema.{UserRow, OneTimeTokenRow}
use hexagonal_auth_service.World.{World}
use hexagonal_auth_service.Validators.Email.{validate_email}
use hexagonal_auth_service.Validators.Password.{validate_hash_password}
use hexagonal_auth_service.Persistence.Users
use hexagonal_auth_service.Persistence.OneTimeTokens
use hexagonal_auth_service.EventBus.Memory.{push_notification}
use hexagonal_auth_service.EventBus.RedisQueue.{push}
use hexagonal_auth_service.EventBus.Publisher.{publish}
use hexagonal_auth_service.Cases.Inputs.{RegisterUserInputDto}
use hexagonal_auth_service.Cases.Rows.{publishes-ok}
use hexagonal_auth_service.Cases.Refresh.Success.{after}
use hexagonal_auth_service.Cases.Register.{register_user, execute}
use hexagonal_auth_service.Cases.Register.Success.{
  new_user, new_token, new_events, token_string, register-saves, register-live, saves-ok,
}

module _ ⦃env : Env⦄ where
  -- A registration added an unverified user and a token for verifying the address, whose string went
  -- into a notification.
  pub record IsRegistration (i : RegisterUserInputDto) (w w' : World) : Type 0 where
    pub email : Text
    pub hash : Text
    pub user : UserRow
    pub token : OneTimeTokenRow
    pub string : Text
    pub created_time : ℕ
    pub requested_time : ℕ
    pub valid : validate_email i.email ≡ ok email
    pub hashed : (validate_hash_password i.password (suc w.calls)).0 ≡ ok hash
    pub tables : w'.db ≡ record w.db {
      users = w.db.users ++ user ∷ [];
      one_time_tokens = w.db.one_time_tokens ++ token ∷ [];
    }
    pub address : (user.email ≡ email) × (user.password_hash ≡ hash)
    pub pending : (user.active ≡ true) × (user.is_email_verified ≡ false)
    pub owned : token.user_id ≡ user.id
    pub token_hash : token.token_hash ≡ hash_token string
    pub usable : (token.used ≡ false) × (token.purpose ≡ codes "verify_email")
    pub logged :
        w'.audit
        ≡ env.rpush w.audit
            (serialize (record { timestamp = created_time; payload = user_created user.id email }))
    pub notified :
        w'.notifications
        ≡ w.notifications
          ++ record {
            timestamp = requested_time;
            payload = user_email_verification_requested user.id email string;
          }
            ∷ []

  registered :
      (i : RegisterUserInputDto) (w : World) (email h : Text) {events : List Event} {v : World}
      → filter (λ (r : UserRow). text_eq r.email i.email) w.db.users ≡ []
      → validate_email i.email ≡ ok email
      → validate_hash_password i.password (suc w.calls) ≡ (ok h, suc (suc w.calls))
      → register_user i w ≡ (ok events, v)
      → IsRegistration i w (publish events v).1
  unfolding publish push push_notification is_notification is_domain Users.save OneTimeTokens.save
      Users.domain2orm OneTimeTokens.domain2orm OneTimeTokens.purpose_value
  registered i w email h {events} {v} none_found valid hashed k =
      let (there, world) =
        saves-ok (new_user email h w.calls) (new_token w.calls) (new_events email w.calls)
          (record w { calls = after 8 w.calls })
          (sym (register-saves i w email h none_found valid hashed) ∙ k) in
      rw (← there, world)
        (record {
          email = email;
          hash = h;
          user = record (Users.domain2orm (new_user email h w.calls)) { version = 1 };
          token = record (OneTimeTokens.domain2orm (new_token w.calls)) { version = 1 };
          string = token_string w.calls;
          created_time = env.clock (after 3 w.calls);
          requested_time = env.clock (after 7 w.calls);
          valid = valid;
          hashed = ap (λ (r : Result Text × ℕ). r.0) hashed;
          tables = refl;
          address = (refl, refl);
          pending = (refl, refl);
          owned = refl;
          token_hash = refl;
          usable = (refl, refl);
          logged = refl;
          notified = refl;
        })

  -- A registration that returns, of an address under which no user is stored, added one user with the
  -- validated address and the hash of the password, active and not verified, and one unused token of
  -- this user for verifying the address. It changed nothing else in the tables, pushed the event of the
  -- user's creation to the audit log, and sent one notification, with the string whose hash the token
  -- has.
  pub execute-IsRegistration :
      (i : RegisterUserInputDto) (w : World) {w' : World}
      → filter (λ (r : UserRow). text_eq r.email i.email) w.db.users ≡ []
      → execute i w ≡ (ok tt, w')
      → IsRegistration i w w'
  unfolding execute
  execute-IsRegistration i w new h =
      let (events, v, inner, outer) = publishes-ok (register_user i) w h in
      let (email, hash, valid, hashed) = register-live i w new inner in
      rw outer (registered i w email hash new valid hashed inner)
