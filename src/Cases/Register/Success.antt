-- ===== src/Cases/Register/Success.antt =====
-- What a registration of a new address that returns has found and written.
use hexagonal_auth_service.Base.{
  ℕ, suc, ◌+◌, ◌≡◌, refl, ap, ◌∙◌, true, false, none, List, [], ◌∷◌, ◌++◌, Text, text_eq, filter,
  arith,
}
use hexagonal_auth_service.Errors.{Error}
use hexagonal_auth_service.Exec.{Result, ok, err, pure, ◌>>◌}
use hexagonal_auth_service.Env.{Env}
use hexagonal_auth_service.Events.{Event, user_created, user_email_verification_requested}
use hexagonal_auth_service.Utils.{hash_token}
use hexagonal_auth_service.Schema.{UserRow}
use hexagonal_auth_service.World.{World}
use hexagonal_auth_service.User
use hexagonal_auth_service.OneTimeToken
use hexagonal_auth_service.Services.{request_verification}
use hexagonal_auth_service.Validators.Email.{validate_email}
use hexagonal_auth_service.Validators.Password.{validate_hash_password}
use hexagonal_auth_service.Persistence.Sql.{scalar_one_or_none, write}
use hexagonal_auth_service.Persistence.Users
use hexagonal_auth_service.Persistence.OneTimeTokens
use hexagonal_auth_service.Cases.Inputs.{RegisterUserInputDto}
use hexagonal_auth_service.Cases.Refresh.Success.{after}
use hexagonal_auth_service.Cases.Register.{register_user, or_create}

ok_not_err :
    {A : Type 0} {r : Result A × World} {a : A} {v : World} {c : Error}
    → r ≡ (ok a, v)
    → r.0 ≡ err c
    → ⊥
ok_not_err h k = cc

module _ ⦃env : Env⦄ where
  -- the user when it is saved, after the answer `n`
  abbrev pub new_user : Text → Text → ℕ → User.User
  new_user email h n = record {
    id = env.uuid n;
    email = email;
    password_hash = h;
    active = true;
    is_email_verified = false;
    created_at = env.clock (after 2 n);
    events = [];
    version = none;
  }

  -- the string of the token
  abbrev pub token_string : ℕ → Text
  token_string n = env.token_urlsafe (after 5 n) env.email_token_len

  abbrev pub new_token : ℕ → OneTimeToken.OneTimeToken
  new_token n = record {
    id = env.uuid (after 6 n);
    user_id = env.uuid n;
    token_hash = hash_token (token_string n);
    expires_at = env.clock (after 4 n) + env.email_token_exp;
    purpose = OneTimeToken.verify_email;
    used = false;
    version = none;
  }

  abbrev pub new_events : Text → ℕ → List Event
  new_events email n =
      record { timestamp = env.clock (after 3 n); payload = user_created (env.uuid n) email }
      ∷ record {
        timestamp = env.clock (after 7 n);
        payload = user_email_verification_requested (env.uuid n) email (token_string n);
      }
      ∷ []

  pub register-saves :
      (i : RegisterUserInputDto) (w : World) (email h : Text)
      → filter (λ (r : UserRow). text_eq r.email i.email) w.db.users ≡ []
      → validate_email i.email ≡ ok email
      → validate_hash_password i.password (suc w.calls) ≡ (ok h, suc (suc w.calls))
      → register_user i w
        ≡ (do
          Users.save (new_user email h w.calls)
          OneTimeTokens.save (new_token w.calls)
          pure (new_events email w.calls))
            (record w { calls = after 8 w.calls })
  unfolding register_user Users.get_by_email or_create User.create request_verification
      User.request_email_verification OneTimeToken.create User.pull_domain_events
  register-saves i w email h none_found valid hashed =
      rw (none_found, scalar_one_or_none) (rw (valid, hashed) refl)

  email-refused :
      (i : RegisterUserInputDto) (w : World) {c : Error}
      → filter (λ (r : UserRow). text_eq r.email i.email) w.db.users ≡ []
      → validate_email i.email ≡ err c
      → (register_user i w).0 ≡ err c
  unfolding register_user Users.get_by_email or_create User.create
  email-refused i w e a = rw (e, scalar_one_or_none) (rw a refl)

  hash-refused :
      (i : RegisterUserInputDto) (w : World) (email : Text) {c : Error} {m : ℕ}
      → filter (λ (r : UserRow). text_eq r.email i.email) w.db.users ≡ []
      → validate_email i.email ≡ ok email
      → validate_hash_password i.password (suc w.calls) ≡ (err c, m)
      → (register_user i w).0 ≡ err c
  unfolding register_user Users.get_by_email or_create User.create
  hash-refused i w email e a b = rw (e, scalar_one_or_none) (rw (a, b) refl)

  hashed-calls :
      (p : Text) (n : ℕ) {h : Text} {m : ℕ} → validate_hash_password p n ≡ (ok h, m) → m ≡ suc n
  unfolding validate_hash_password
  hashed-calls p n h = ground arith

  -- an address and a password that a registration which returned was given
  pub register-live :
      (i : RegisterUserInputDto) (w : World) {events : List Event} {v : World}
      → filter (λ (r : UserRow). text_eq r.email i.email) w.db.users ≡ []
      → register_user i w ≡ (ok events, v)
      → (email : Text) × (h : Text) × (validate_email i.email ≡ ok email)
        × (validate_hash_password i.password (suc w.calls) ≡ (ok h, suc (suc w.calls)))
  register-live i w {events} {v} e h = emails (validate_email i.email) refl
    where
      Valid : Type 0
      Valid =
          (email : Text) × (h : Text) × (validate_email i.email ≡ ok email)
          × (validate_hash_password i.password (suc w.calls) ≡ (ok h, suc (suc w.calls)))

      hashes :
          (email : Text) (r : Result Text × ℕ)
          → validate_email i.email ≡ ok email
          → validate_hash_password i.password (suc w.calls) ≡ r
          → Valid
      hashes email (ok hash, m) a b =
          (email, hash, a, b ∙ ap (λ k. (ok hash, k)) (hashed-calls i.password (suc w.calls) b))
      hashes email (err c, m) a b = absurd (ok_not_err h (hash-refused i w email e a b))

      emails : (r : Result Text) → validate_email i.email ≡ r → Valid
      emails (ok email) a = hashes email (validate_hash_password i.password (suc w.calls)) a refl
      emails (err c) a = absurd (ok_not_err h (email-refused i w e a))

  pub saves-ok :
      {A : Type 0} (u : User.User) (t : OneTimeToken.OneTimeToken) (a : A) (w : World) {w' : World}
      {b : A}
      → (do Users.save_with u none; OneTimeTokens.save_with t none; pure a) w ≡ (ok b, w')
      → (a ≡ b)
        × (w' ≡ record w {
          db = record w.db {
            users = w.db.users ++ record (Users.domain2orm u) { version = 1 } ∷ [];
            one_time_tokens =
                w.db.one_time_tokens ++ record (OneTimeTokens.domain2orm t) { version = 1 } ∷ [];
          };
        })
  unfolding Users.save_with OneTimeTokens.save_with write
  saves-ok u t a w h = (ground arith, ground arith)
