-- ===== src/Cases/Relogin.antt =====
-- Logins after a new password was stored.
use hexagonal_auth_service.Base.{
  ℕ, ◌≡◌, sym, ap, ◌∙◌, true, some, [], ◌∷◌, Text, text_eq, text_eq_refl, ◌==◌,
}
use hexagonal_auth_service.Exec.{ok}
use hexagonal_auth_service.Env.{Env}
use hexagonal_auth_service.Schema.{UserRow}
use hexagonal_auth_service.World.{World}
use hexagonal_auth_service.User.Passwords.{IsHashing}
use hexagonal_auth_service.Persistence.Tables.{filter_unique}
use hexagonal_auth_service.Cases.Inputs.{LoginUserInputDto, TokenPairDto}
use hexagonal_auth_service.Cases.Rows.{owners}
use hexagonal_auth_service.Cases.Login
use hexagonal_auth_service.Cases.Login.Grant.{execute-IsLogin}

module _ ⦃env : Env⦄ where
  -- The hash of one password is stored for a user: who logs in with the address gave that password.
  pub login-renewed :
      IsHashing
      → (j : LoginUserInputDto) (u : UserRow) (p salt h : Text) (n : ℕ) (w : World) {w' : World}
        {pair : TokenPairDto}
      → owners u.id w ≡ record u { password_hash = h; version = n } ∷ []
      → env.hashpw p salt ≡ some h
      → j.email ≡ u.email
      → Login.execute j w ≡ (ok pair, w')
      → j.password ≡ p
  login-renewed law j u p salt h n w stored hashed same k =
      let b = execute-IsLogin j w k in
      let row : UserRow = record u { password_hash = h; version = n } in
      let login : b.user ≡ row =
        filter_unique (λ (x : UserRow). x.id == u.id) (λ x. text_eq x.email j.email) b.user row
          w.db.users b.found stored (rw same (text_eq_refl u.email)) in
      let checked : env.checkpw j.password h ≡ some true =
        ap (λ (x : UserRow). env.checkpw j.password x.password_hash) (sym login) ∙ b.password in
      law.check_hash j.password p salt h hashed checked
