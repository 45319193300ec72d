-- ===== src/Tests/Access.antt =====
-- The access token of a login, at a lifetime of two seconds.
use hexagonal_auth_service.Base.{
  ◌≡◌, refl, [], ◌∷◌, ◌+◌, codes, text_eq, ltb, filter, arith, if◌then◌else◌,
}
use hexagonal_auth_service.Errors.{access_token_expired}
use hexagonal_auth_service.Exec.{ok, err}
use hexagonal_auth_service.Env.{Env}
use hexagonal_auth_service.Utils
use hexagonal_auth_service.Utils.{hash_token}
use hexagonal_auth_service.User
use hexagonal_auth_service.RefreshToken
use hexagonal_auth_service.AccessToken.{issue, verify}
use hexagonal_auth_service.AccessToken.RoundTrip.{IsSigning, whole_seconds}
use hexagonal_auth_service.World.{transaction}
use hexagonal_auth_service.Persistence.Users
use hexagonal_auth_service.Persistence.RefreshTokens
use hexagonal_auth_service.EventBus.Publisher.{publish}
use hexagonal_auth_service.Cases.Inputs.{TokenPairDto}
use hexagonal_auth_service.Cases.Login
use hexagonal_auth_service.Cases.Login.Access.{login_verified}
use hexagonal_auth_service.Tests.Demo.{demo, demo_config, start, ann}
use hexagonal_auth_service.Tests.Logins.{credentials}

abbrev lasting : Env
lasting = record demo { config = record demo_config { access_token_exp = 2000000 } }

lasting-IsSigning : IsSigning ⦃env = lasting⦄
lasting-IsSigning = record {
  decode_immature = λ c now h. ground arith;
  decode_live = λ c now h k. ground arith;
  decode_expired = λ c now h k. ground arith;
  parse_text = λ id. refl;
}

abbrev granted_pair : TokenPairDto
granted_pair = record { access_token = 10 ∷ 2000010 ∷ 1 ∷ []; refresh_token = 11 ∷ 32 ∷ [] }

logs_in :
    Login.execute ⦃env = lasting⦄ credentials start
    ≡ (ok granted_pair, (Login.execute ⦃env = lasting⦄ credentials start).1)
unfolding Login.execute Login.login_user transaction Users.get_by_email User.assert_can_login
    Utils.verify_password issue RefreshToken.create User.pull_domain_events
    RefreshToken.pull_domain_events Users.save RefreshTokens.save publish text_eq hash_token codes
logs_in = refl

stored : filter (λ r. text_eq r.email credentials.email) start.db.users ≡ ann ∷ []
unfolding text_eq codes
stored = refl

login_verified_example : (verify ⦃env = lasting⦄ granted_pair.access_token 1999999).0 ≡ (
    if ltb 1999999 (whole_seconds (10 + 2000000))
    then ok 1
    else err (access_token_expired (codes "Access token expired")))
login_verified_example =
    login_verified ⦃env = lasting⦄ lasting-IsSigning credentials start ann 1999999 stored logs_in
      (omega arith)
