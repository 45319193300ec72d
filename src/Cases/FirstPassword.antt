-- ===== src/Cases/FirstPassword.antt =====
-- cases/user/register.py, verify_email.py and login.py: two registrations of one address, its
-- verification and a login.
use hexagonal_auth_service.Base.{
  ℕ, suc, ◌+◌, ◌≡◌, refl, subst, true, some, [], ◌∷◌, Text, text_eq, ◌==◌, ==_iff, strip, arith,
}
use hexagonal_auth_service.Exec.{ok}
use hexagonal_auth_service.Env.{Env}
use hexagonal_auth_service.Schema.{UserRow, OneTimeTokenRow}
use hexagonal_auth_service.World.{World}
use hexagonal_auth_service.User.Passwords.{IsHashing}
use hexagonal_auth_service.Validators.Password.{validate_hash_password, validate_password}
use hexagonal_auth_service.Persistence.Tables.{filter_unique}
use hexagonal_auth_service.Cases.Inputs.{
  RegisterUserInputDto, VerifyEmailInputDto, LoginUserInputDto, TokenPairDto,
}
use hexagonal_auth_service.Cases.Rows.{hits, owners}
use hexagonal_auth_service.Cases.Sent.{addressed, sent-user}
use hexagonal_auth_service.Cases.Relogin.{login-renewed}
use hexagonal_auth_service.Cases.Register
use hexagonal_auth_service.Cases.Register.Grant.{IsRegistration}
use hexagonal_auth_service.Cases.Register.Again.{execute-IsRenewal}
use hexagonal_auth_service.Cases.VerifyEmail.Grant.{execute-IsVerification}
use hexagonal_auth_service.Cases.VerifyEmail
use hexagonal_auth_service.Cases.Login

module _ ⦃env : Env⦄ where
  -- a validated hash is that of the stripped password
  hashes-as :
      (p : Text) (n : ℕ) (h : Text)
      → (validate_hash_password p n).0 ≡ ok h
      → env.hashpw (strip p) (env.gensalt n) ≡ some h
  unfolding validate_hash_password validate_password
  hashes-as p n h e = ground arith

  -- A new address was registered, then registered again with whatever password, and then verified with
  -- a token of its user, each of which returned. A login that then returns a pair for this address gave
  -- exactly the password of the first registration without its surrounding spaces, if no
  -- other password checks with bcrypt against the hash of a password.
  pub first_password :
      IsHashing
      → (i i₂ : RegisterUserInputDto) (k : VerifyEmailInputDto) (j : LoginUserInputDto)
        (w w₁ w₂ w₃ : World) (t : OneTimeTokenRow) {w₄ : World} {pair : TokenPairDto}
        (a : IsRegistration i w w₁)
      → addressed i₂.email w₁ ≡ a.user ∷ []
      → Register.execute i₂ w₁ ≡ (ok tt, w₂)
      → hits k.one_time_token w₂ ≡ t ∷ []
      → t.user_id ≡ a.user.id
      → VerifyEmail.execute k w₂ ≡ (ok tt, w₃)
      → j.email ≡ a.user.email
      → Login.execute j w₃ ≡ (ok pair, w₄)
      → j.password ≡ strip i.password
  first_password law i i₂ k j w w₁ w₂ w₃ t a found again held own_token verifies address login =
      let b = execute-IsVerification k w₂ verifies in
      let same : b.token.user_id ≡ a.user.id = cc in
      let s = execute-IsRenewal i₂ w₁ a.user found again in
      let own : s.user ≡ a.user = cc in
      let row : addressed i₂.email w₂ ≡ record a.user { version = a.user.version + 1 } ∷ [] =
        subst (λ (u : UserRow). addressed i₂.email w₂ ≡ record u { version = u.version + 1 } ∷ [])
          own (sent-user s) in
      let stored : b.user ≡ record a.user { version = a.user.version + 1 } =
        filter_unique (λ (r : UserRow). text_eq r.email i₂.email) (λ r. r.id == b.token.user_id)
          b.user (record a.user { version = a.user.version + 1 }) w₂.db.users b.owner row
          (rw same ((==_iff a.user.id a.user.id).1 refl)) in
      let u : UserRow = record a.user { is_email_verified = true } in
      let last : owners u.id w₃ ≡ record u { version = a.user.version + 1 + 1 } ∷ [] =
        subst
          (λ (r : UserRow).
            owners r.id w₃ ≡ record r { is_email_verified = true; version = r.version + 1 } ∷ [])
          stored b.stored in
      login-renewed law j u (strip i.password) (env.gensalt (suc w.calls)) a.hash
        (a.user.version + 1 + 1) w₃
        (subst
          (λ h.
            owners u.id w₃ ≡ record u { password_hash = h; version = a.user.version + 1 + 1 } ∷ [])
          a.address.1 last)
        (hashes-as i.password (suc w.calls) a.hash a.hashed) address login
