-- ===== src/Cases/Keeps.antt =====
-- What the blocks under a transaction keep of the tables: one lemma for each case.
use hexagonal_auth_service.Base.{ℕ, zero, suc, Option, none, some}
use hexagonal_auth_service.Env.{Env}
use hexagonal_auth_service.World.{World}
use hexagonal_auth_service.World.Keeps.{Keeps, IsStable}
use hexagonal_auth_service.User.{User}
use hexagonal_auth_service.RefreshToken.{RefreshToken}
use hexagonal_auth_service.Persistence.Keeps.{repository_rules}
use hexagonal_auth_service.Cases.Inputs.{
  RegisterUserInputDto, VerifyEmailInputDto, LoginUserInputDto, RefreshTokenInputDto,
  RevokeRefreshTokenInputDto, ChangePasswordInputDto, PasswordRecoverRequestInputDto,
  PasswordRecoverInputDto,
}
use hexagonal_auth_service.Cases.Register.{or_create, register_user}
use hexagonal_auth_service.Cases.VerifyEmail.{verify_user}
use hexagonal_auth_service.Cases.Login.{login_user}
use hexagonal_auth_service.Cases.Refresh.{refresh, reuse_events, detect_reuse}
use hexagonal_auth_service.Cases.Revoke.{threat_events, revoke_token}
use hexagonal_auth_service.Cases.ChangePassword.{change_password}
use hexagonal_auth_service.Cases.RecoverRequest.{request_recover}
use hexagonal_auth_service.Cases.Recover.{recover_password}

module _ ⦃env : Env⦄ {P : World → Type 0} (stable : IsStable P) where
  Keeps-or_create : (o : Option User) (i : RegisterUserInputDto) → Keeps P (or_create o i)
  unfolding or_create
  Keeps-or_create none i = search repository_rules
  Keeps-or_create (some u) i = search repository_rules

  pub Keeps-register_user : (i : RegisterUserInputDto) → Keeps P (register_user i)
  unfolding register_user
  Keeps-register_user i = search (repository_rules, Keeps-or_create) depth 30

  pub Keeps-verify_user : (i : VerifyEmailInputDto) → Keeps P (verify_user i)
  unfolding verify_user
  Keeps-verify_user i = search repository_rules depth 30

  pub Keeps-login_user : (i : LoginUserInputDto) → Keeps P (login_user i)
  unfolding login_user
  Keeps-login_user i = search repository_rules depth 30

  pub Keeps-refresh : (i : RefreshTokenInputDto) → Keeps P (refresh i)
  unfolding refresh
  Keeps-refresh i = search repository_rules depth 30

  Keeps-reuse_events :
      (o : Option RefreshToken) (i : RefreshTokenInputDto) → Keeps P (reuse_events o i)
  unfolding reuse_events
  Keeps-reuse_events none i = search repository_rules
  Keeps-reuse_events (some rt) i = search repository_rules depth 10

  pub Keeps-detect_reuse : (i : RefreshTokenInputDto) → Keeps P (detect_reuse i)
  unfolding detect_reuse
  Keeps-detect_reuse i = search (repository_rules, Keeps-reuse_events) depth 10

  Keeps-threat_events :
      (n : ℕ) (rt : RefreshToken) (i : RevokeRefreshTokenInputDto) → Keeps P (threat_events n rt i)
  unfolding threat_events
  Keeps-threat_events zero rt i = search repository_rules
  Keeps-threat_events (suc n) rt i = search repository_rules depth 10

  pub Keeps-revoke_token : (i : RevokeRefreshTokenInputDto) → Keeps P (revoke_token i)
  unfolding revoke_token
  Keeps-revoke_token i = search (repository_rules, Keeps-threat_events) depth 30

  pub Keeps-change_password : (i : ChangePasswordInputDto) → Keeps P (change_password i)
  unfolding change_password
  Keeps-change_password i = search repository_rules depth 30

  pub Keeps-request_recover : (i : PasswordRecoverRequestInputDto) → Keeps P (request_recover i)
  unfolding request_recover
  Keeps-request_recover i = search repository_rules depth 30

  pub Keeps-recover_password : (i : PasswordRecoverInputDto) → Keeps P (recover_password i)
  unfolding recover_password
  Keeps-recover_password i = search repository_rules depth 30
