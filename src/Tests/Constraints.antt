-- ===== src/Tests/Constraints.antt =====
-- Runs over a database that tests the constraints of the models.
use hexagonal_auth_service.Base.{
  ◌≡◌, refl, true, false, none, some, [], ◌∷◌, codes, text_eq, filter, strip, is_space, ◌==◌,
}
use hexagonal_auth_service.Errors.{concurrency_error}
use hexagonal_auth_service.Exec.{ok, err}
use hexagonal_auth_service.Env.{Env}
use hexagonal_auth_service.Schema.Constraints.{
  satisfies, users_valid, one_time_tokens_valid, refresh_tokens_valid, unique_by, all_rows, fits,
  is_integer, refers, IsEnforcing,
}
use hexagonal_auth_service.World.{World}
use hexagonal_auth_service.World.Unchanged.{IsUnchanged}
use hexagonal_auth_service.RefreshToken.{RefreshToken}
use hexagonal_auth_service.Validators.Email.{validate_email, check_format, matches_email}
use hexagonal_auth_service.Validators.Password.{validate_password, validate_hash_password}
use hexagonal_auth_service.Persistence.RefreshTokens
use hexagonal_auth_service.Persistence.Sql.{delete_where}
use hexagonal_auth_service.Persistence.Race.{inserts, deletes, elsewhere, onward, done}
use hexagonal_auth_service.Persistence.Race.Tables.{
  user_table, user_save_race, one_time_table, refresh_table, refresh_save_race, one_time_save_race,
}
use hexagonal_auth_service.Persistence.OneTimeTokens
use hexagonal_auth_service.Persistence.RoundTrip.{get-save}
use hexagonal_auth_service.Persistence.Users
use hexagonal_auth_service.User.{User}
use hexagonal_auth_service.OneTimeToken
use hexagonal_auth_service.OneTimeToken.{OneTimeToken}
use hexagonal_auth_service.Cases.Inputs.{RegisterUserInputDto}
use hexagonal_auth_service.Http.Auth.{internal_server_error, register, serve}
use hexagonal_auth_service.Http.Registration.{registering_another_spelling}
use hexagonal_auth_service.Tests.Demo.{demo, start, ann, session}

-- the demonstration over the constraints of the models
abbrev strict : Env
strict = record demo { admits = satisfies }

strict-IsEnforcing : IsEnforcing ⦃env = strict⦄
strict-IsEnforcing = record { enforced = λ db h. h }

start_valid : satisfies start.db ≡ true
unfolding satisfies users_valid one_time_tokens_valid refresh_tokens_valid unique_by all_rows fits
    is_integer refers text_eq codes
start_valid = refl

abbrev shouting : RegisterUserInputDto
shouting = record { email = codes "ANN@example.com"; password = codes "another-word" }

not_stored : filter (λ r. text_eq r.email (codes "ANN@example.com")) start.db.users ≡ []
unfolding text_eq codes
not_stored = refl

stored : filter (λ r. text_eq r.email (codes "ann@example.com")) start.db.users ≡ ann ∷ []
unfolding text_eq codes
stored = refl

same_address :
    validate_email ⦃env = strict⦄ (codes "ANN@example.com") ≡ ok (codes "ann@example.com")
unfolding validate_email check_format matches_email strip is_space codes
same_address = refl

hashes :
    validate_hash_password ⦃env = strict⦄ (codes "another-word") 11
    ≡ (ok (35 ∷ codes "another-word"), 12)
unfolding validate_hash_password validate_password strip is_space codes
hashes = refl

registering_another_spelling_example :
    ((serve ⦃env = strict⦄ (register shouting) start).0 ≡ internal_server_error)
    × IsUnchanged start (serve ⦃env = strict⦄ (register shouting) start).1
registering_another_spelling_example =
    registering_another_spelling ⦃env = strict⦄ strict-IsEnforcing shouting start ann
      (35 ∷ codes "another-word") not_stored same_address stored hashes

-- two clients have loaded the session, and another user logs in between their saves
abbrev copy : RefreshToken
copy = RefreshTokens.orm2domain session

abbrev another : RefreshToken
another = record (RefreshTokens.orm2domain session) {
  id = 9;
  token_hash = 36 ∷ 8 ∷ [];
  version = none;
}

abbrev rotated : World
rotated = (RefreshTokens.save ⦃env = strict⦄ (record copy { revoked_at = some 12 }) start).1

abbrev joined : World
joined = (RefreshTokens.save ⦃env = strict⦄ another rotated).1

saved :
    RefreshTokens.save ⦃env = strict⦄ (record copy { revoked_at = some 12 }) start
    ≡ (ok (record copy { revoked_at = some 12; version = some 2 }), rotated)
unfolding RefreshTokens.save RefreshTokens.orm2domain satisfies users_valid one_time_tokens_valid
    refresh_tokens_valid unique_by all_rows fits is_integer refers text_eq codes
saved = refl

inserted :
    RefreshTokens.save ⦃env = strict⦄ another rotated
    ≡ (ok (record another { version = some 1 }), joined)
unfolding RefreshTokens.save RefreshTokens.orm2domain satisfies users_valid one_time_tokens_valid
    refresh_tokens_valid unique_by all_rows fits is_integer refers text_eq codes
inserted = refl

refresh_save_race_example :
    (RefreshTokens.save ⦃env = strict⦄ (record copy { revoked_at = some 13 }) joined).0
    ≡ err (concurrency_error (codes "RefreshToken version conflict"))
unfolding RefreshTokens.orm2domain refresh_table
refresh_save_race_example =
    refresh_save_race ⦃env = strict⦄ strict-IsEnforcing (record copy { revoked_at = some 12 })
      (record copy { revoked_at = some 13 }) 1 start start_valid refl refl refl saved
      (onward (inserts another (record another { version = some 1 }) refl refl inserted) done)

-- two clients have loaded ann's token, and the one of them has used it
abbrev pending : OneTimeToken
pending = record {
  id = 3;
  user_id = 1;
  token_hash = 36 ∷ 9 ∷ [];
  expires_at = 500;
  purpose = OneTimeToken.verify_email;
  used = false;
  version = none;
}

abbrev waiting : World
waiting = (OneTimeTokens.save ⦃env = strict⦄ pending start).1

abbrev loaded : OneTimeToken
loaded = record pending { version = some 1 }

abbrev spent : World
spent = (OneTimeTokens.save ⦃env = strict⦄ (record loaded { used = true }) waiting).1

waiting_valid : strict.admits waiting.db ≡ true
unfolding OneTimeTokens.save OneTimeTokens.domain2orm OneTimeTokens.purpose_value satisfies
    users_valid one_time_tokens_valid refresh_tokens_valid unique_by all_rows fits is_integer refers
    text_eq codes
waiting_valid = refl

spends :
    OneTimeTokens.save ⦃env = strict⦄ (record loaded { used = true }) waiting
    ≡ (ok (record loaded { used = true; version = some 2 }), spent)
unfolding OneTimeTokens.save OneTimeTokens.domain2orm OneTimeTokens.purpose_value satisfies
    users_valid one_time_tokens_valid refresh_tokens_valid unique_by all_rows fits is_integer refers
    text_eq codes
spends = refl

spent_valid : strict.admits spent.db ≡ true
unfolding OneTimeTokens.save OneTimeTokens.domain2orm OneTimeTokens.purpose_value satisfies
    users_valid one_time_tokens_valid refresh_tokens_valid unique_by all_rows fits is_integer refers
    text_eq codes
spent_valid = refl

-- the token is deleted
abbrev cleared : World
cleared = record spent { db = record spent.db { one_time_tokens = [] } }

gone : [] ≡ delete_where (λ r. r.user_id == 1) spent.db.one_time_tokens
unfolding OneTimeTokens.save OneTimeTokens.domain2orm OneTimeTokens.purpose_value satisfies
    users_valid one_time_tokens_valid refresh_tokens_valid unique_by all_rows fits is_integer refers
    text_eq codes delete_where
gone = refl

cleared_valid : strict.admits cleared.db ≡ true
unfolding OneTimeTokens.save OneTimeTokens.domain2orm OneTimeTokens.purpose_value satisfies
    users_valid one_time_tokens_valid refresh_tokens_valid unique_by all_rows fits is_integer refers
    text_eq codes
cleared_valid = refl

one_time_save_race_example :
    (OneTimeTokens.save ⦃env = strict⦄ (record loaded { used = true }) cleared).0
    ≡ err (concurrency_error (codes "OneTimeToken version conflict"))
unfolding one_time_table
one_time_save_race_example =
    one_time_save_race ⦃env = strict⦄ strict-IsEnforcing (record loaded { used = true })
      (record loaded { used = true }) 1 waiting waiting_valid refl refl refl spends
      (onward (elsewhere {w' = spent} refl spent_valid)
        (onward (deletes (λ r. r.user_id == 1) {w = spent} {w' = cleared} gone cleared_valid) done))

-- ann is deactivated and looked up again
abbrev deactivated : User
deactivated = record (Users.orm2domain ann) { active = false }

abbrev closed : World
closed = (Users.save ⦃env = strict⦄ deactivated start).1

deactivates :
    Users.save ⦃env = strict⦄ deactivated start
    ≡ (ok (record deactivated { version = some 2 }), closed)
unfolding Users.save Users.orm2domain satisfies users_valid one_time_tokens_valid
    refresh_tokens_valid unique_by all_rows fits is_integer refers text_eq codes
deactivates = refl

get-save_example :
    (Users.get_by_id 1 closed ≡ (ok (some (record deactivated { version = some 2 })), closed))
    × (Users.get_by_email (codes "ann@example.com") closed
        ≡ (ok (some (record deactivated { version = some 2 })), closed))
unfolding Users.orm2domain
get-save_example =
    get-save ⦃env = strict⦄ strict-IsEnforcing deactivated (record deactivated { version = some 2 })
      start closed deactivates

-- another copy of ann, with another password
user_save_race_example :
    (Users.save ⦃env = strict⦄
      (record (Users.orm2domain ann) { password_hash = 35 ∷ codes "another-word" })
      closed).0
    ≡ err (concurrency_error (codes "User version conflict"))
unfolding Users.orm2domain user_table
user_save_race_example =
    user_save_race ⦃env = strict⦄ strict-IsEnforcing deactivated
      (record (Users.orm2domain ann) { password_hash = 35 ∷ codes "another-word" }) 1 start
      start_valid refl refl refl deactivates done
