-- ===== src/Tests/Recoveries.antt =====
-- A recovery of a password, twice, and the login that follows it.
use hexagonal_auth_service.Base.{◌≡◌, refl, false, none, [], ◌∷◌, codes, text_eq, strip, is_space}
use hexagonal_auth_service.Errors.{Error}
use hexagonal_auth_service.Exec.{ok, err}
use hexagonal_auth_service.Utils
use hexagonal_auth_service.Utils.{hash_token}
use hexagonal_auth_service.Validators.Password.{validate_password, validate_hash_password}
use hexagonal_auth_service.User
use hexagonal_auth_service.Schema.{OneTimeTokenRow}
use hexagonal_auth_service.Cases.Rows.{hits, owners}
use hexagonal_auth_service.OneTimeToken
use hexagonal_auth_service.RefreshToken
use hexagonal_auth_service.AccessToken.{issue}
use hexagonal_auth_service.World.{World, transaction}
use hexagonal_auth_service.World.Unchanged.{IsUnchanged}
use hexagonal_auth_service.Persistence.Users
use hexagonal_auth_service.Persistence.OneTimeTokens
use hexagonal_auth_service.Persistence.RefreshTokens
use hexagonal_auth_service.EventBus.Publisher.{publish}
use hexagonal_auth_service.Cases.Inputs.{PasswordRecoverInputDto, LoginUserInputDto, TokenPairDto}
use hexagonal_auth_service.Cases.Login
use hexagonal_auth_service.Cases.Recover
use hexagonal_auth_service.Cases.Recover.Grant.{IsRecovery, execute-IsRecovery, recovered_password}
use hexagonal_auth_service.Cases.Recover.Once.{recovery_once}
use hexagonal_auth_service.Tests.Users.{demo-IsHashing}
use hexagonal_auth_service.Tests.Demo.{demo, start, ann}

-- a token for recovering ann's password, whose string is the text 9
abbrev mailed : OneTimeTokenRow
mailed = record {
  id = 3;
  token_hash = 36 ∷ 9 ∷ [];
  user_id = 1;
  expires_at = 500;
  version = 1;
  used = false;
  purpose = codes "recover_password";
}

abbrev forgetful : World
forgetful = record start {
  db = record { users = ann ∷ []; one_time_tokens = mailed ∷ []; refresh_tokens = [] };
}

abbrev answer : PasswordRecoverInputDto
answer = record { password_recover_token = 9 ∷ []; password = codes " other-word" }

abbrev recovered : World
recovered = (Recover.execute answer forgetful).1

recovers : Recover.execute answer forgetful ≡ (ok tt, recovered)
unfolding Recover.execute Recover.recover_password transaction OneTimeTokens.get_by_string
    Users.get_by_id OneTimeToken.use_token User.recover_password User.pull_domain_events Users.save
    OneTimeTokens.save publish text_eq hash_token codes validate_password validate_hash_password
    strip is_space
recovers = refl

execute-IsRecovery_example : IsRecovery answer forgetful recovered
execute-IsRecovery_example = execute-IsRecovery answer forgetful recovers

recovery_once_example :
    (e : Error) × ((Recover.execute answer recovered).0 ≡ err e)
    × IsUnchanged recovered (Recover.execute answer recovered).1
recovery_once_example = recovery_once answer answer forgetful recovers refl

abbrev credentials : LoginUserInputDto
credentials = record {
  email = codes "ann@example.com";
  password = codes "other-word";
  client_ip = none;
  user_agent = none;
  location = none;
}

abbrev granted_pair : TokenPairDto
granted_pair = record { access_token = 13 ∷ 28 ∷ 1 ∷ []; refresh_token = 14 ∷ 32 ∷ [] }

logs_in :
    Login.execute credentials recovered ≡ (ok granted_pair, (Login.execute credentials recovered).1)
unfolding Recover.execute Recover.recover_password transaction OneTimeTokens.get_by_string
    Users.get_by_id OneTimeToken.use_token User.recover_password User.pull_domain_events Users.save
    OneTimeTokens.save publish text_eq hash_token codes validate_password validate_hash_password
    strip is_space Login.execute Login.login_user Users.get_by_email User.assert_can_login
    Utils.verify_password issue RefreshToken.create RefreshToken.pull_domain_events
    RefreshTokens.save
logs_in = refl

found : hits (9 ∷ []) forgetful ≡ mailed ∷ []
unfolding text_eq hash_token
found = refl

owned : owners 1 forgetful ≡ ann ∷ []
owned = refl

recovered_password_example : codes "other-word" ≡ strip (codes " other-word")
recovered_password_example =
    recovered_password demo-IsHashing answer credentials forgetful mailed ann found owned recovers
      refl logs_in
