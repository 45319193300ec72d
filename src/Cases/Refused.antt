-- ===== src/Cases/Refused.antt =====
-- app/application/cases/user: what a case that raises leaves behind.
use hexagonal_auth_service.Base.{◌≡◌, refl}
use hexagonal_auth_service.Errors.{Error}
use hexagonal_auth_service.Exec.{err}
use hexagonal_auth_service.Env.{Env}
use hexagonal_auth_service.World.{World}
use hexagonal_auth_service.World.Unchanged.{IsUnchanged, IsQuiet-IsStable, use_case-IsUnchanged}
use hexagonal_auth_service.EventBus.Publisher.{publish}
use hexagonal_auth_service.Cases.Inputs.{
  RegisterUserInputDto, VerifyEmailInputDto, RevokeRefreshTokenInputDto, ChangePasswordInputDto,
  PasswordRecoverRequestInputDto, PasswordRecoverInputDto, LoginUserInputDto,
}
use hexagonal_auth_service.Cases.Keeps.{
  Keeps-register_user, Keeps-verify_user, Keeps-revoke_token, Keeps-change_password,
  Keeps-request_recover, Keeps-recover_password, Keeps-login_user,
}
use hexagonal_auth_service.Cases.Register
use hexagonal_auth_service.Cases.VerifyEmail
use hexagonal_auth_service.Cases.Revoke
use hexagonal_auth_service.Cases.ChangePassword
use hexagonal_auth_service.Cases.RecoverRequest
use hexagonal_auth_service.Cases.Recover
use hexagonal_auth_service.Cases.Login

module _ ⦃env : Env⦄ (w : World) (e : Error) where
  pub register-IsUnchanged :
      (i : RegisterUserInputDto)
      → (Register.execute i w).0 ≡ err e
      → IsUnchanged w (Register.execute i w).1
  unfolding Register.execute publish
  register-IsUnchanged i =
      use_case-IsUnchanged (Register.register_user i) w (Keeps-register_user (IsQuiet-IsStable w) i)
        publish (λ a w'. (tt, refl)) e

  pub verify_email-IsUnchanged :
      (i : VerifyEmailInputDto)
      → (VerifyEmail.execute i w).0 ≡ err e
      → IsUnchanged w (VerifyEmail.execute i w).1
  unfolding VerifyEmail.execute publish
  verify_email-IsUnchanged i =
      use_case-IsUnchanged (VerifyEmail.verify_user i) w (Keeps-verify_user (IsQuiet-IsStable w) i)
        publish (λ a w'. (tt, refl)) e

  pub revoke-IsUnchanged :
      (i : RevokeRefreshTokenInputDto)
      → (Revoke.execute i w).0 ≡ err e
      → IsUnchanged w (Revoke.execute i w).1
  unfolding Revoke.execute publish
  revoke-IsUnchanged i =
      use_case-IsUnchanged (Revoke.revoke_token i) w (Keeps-revoke_token (IsQuiet-IsStable w) i)
        publish (λ a w'. (tt, refl)) e

  pub change_password-IsUnchanged :
      (i : ChangePasswordInputDto)
      → (ChangePassword.execute i w).0 ≡ err e
      → IsUnchanged w (ChangePassword.execute i w).1
  unfolding ChangePassword.execute publish
  change_password-IsUnchanged i =
      use_case-IsUnchanged (ChangePassword.change_password i) w
        (Keeps-change_password (IsQuiet-IsStable w) i) publish (λ a w'. (tt, refl)) e

  pub recover_request-IsUnchanged :
      (i : PasswordRecoverRequestInputDto)
      → (RecoverRequest.execute i w).0 ≡ err e
      → IsUnchanged w (RecoverRequest.execute i w).1
  unfolding RecoverRequest.execute publish
  recover_request-IsUnchanged i =
      use_case-IsUnchanged (RecoverRequest.request_recover i) w
        (Keeps-request_recover (IsQuiet-IsStable w) i) publish (λ a w'. (tt, refl)) e

  pub recover-IsUnchanged :
      (i : PasswordRecoverInputDto)
      → (Recover.execute i w).0 ≡ err e
      → IsUnchanged w (Recover.execute i w).1
  unfolding Recover.execute publish
  recover-IsUnchanged i =
      use_case-IsUnchanged (Recover.recover_password i) w
        (Keeps-recover_password (IsQuiet-IsStable w) i) publish (λ a w'. (tt, refl)) e

  pub login-IsUnchanged :
      (i : LoginUserInputDto) → (Login.execute i w).0 ≡ err e → IsUnchanged w (Login.execute i w).1
  unfolding Login.execute publish
  login-IsUnchanged i =
      use_case-IsUnchanged (Login.login_user i) w (Keeps-login_user (IsQuiet-IsStable w) i) _
        (λ a w'. (a.0, refl)) e
