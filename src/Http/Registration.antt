-- ===== src/Http/Registration.antt =====
-- Registering an address that is taken, in another spelling.
use hexagonal_auth_service.Base.{ℕ, false, arith, suc, ◌≡◌, refl, [], ◌∷◌, Text, text_eq, filter}
use hexagonal_auth_service.Errors.{Error, integrity_error, is_base_error}
use hexagonal_auth_service.Exec.{Result, ok, err}
use hexagonal_auth_service.Env.{Env}
use hexagonal_auth_service.Schema.{UserRow}
use hexagonal_auth_service.Schema.Constraints.{IsEnforcing}
use hexagonal_auth_service.World.{World}
use hexagonal_auth_service.World.Unchanged.{IsUnchanged}
use hexagonal_auth_service.Validators.Email.{validate_email}
use hexagonal_auth_service.Validators.Password.{validate_hash_password}
use hexagonal_auth_service.Cases.Inputs.{RegisterUserInputDto}
use hexagonal_auth_service.Cases.Register
use hexagonal_auth_service.Cases.Register.OtherCase.{refused, full-repeated}
use hexagonal_auth_service.Http.Atomic.{serve-IsUnchanged}
use hexagonal_auth_service.Cases.Rows.{publishes-err}
use hexagonal_auth_service.Http.Auth.{
  Response, internal_server_error, register, answer, domain_error, serve,
}

-- an exception that is no `BaseError`
answer-unexpected :
    {A : Type 0} (n : ℕ) (respond : A → Response) (r : Result A × World) (e : Error)
    → r.0 ≡ err e
    → is_base_error e ≡ false
    → (answer n respond r).0 ≡ internal_server_error
unfolding answer domain_error
answer-unexpected n respond (ok a, w) e h k = cc
answer-unexpected n respond (err c, w) e h k = ground arith

module _ ⦃env : Env⦄ where
  -- If PostgreSQL enforces the constraints, then registering with an address that is stored in another
  -- spelling, which validation turns into the stored one, is answered with status 500, whether the
  -- stored user has verified the address or not, as long as the password is valid and bcrypt hashes it;
  -- the tables, the audit log and the notifications stay as they were.
  pub registering_another_spelling :
      IsEnforcing
      → (i : RegisterUserInputDto) (w : World) (u : UserRow) (h : Text)
      → filter (λ (r : UserRow). text_eq r.email i.email) w.db.users ≡ []
      → validate_email i.email ≡ ok u.email
      → filter (λ (r : UserRow). text_eq r.email u.email) w.db.users ≡ u ∷ []
      → validate_hash_password i.password (suc w.calls) ≡ (ok h, suc (suc w.calls))
      → ((serve (register i) w).0 ≡ internal_server_error) × IsUnchanged w (serve (register i) w).1
  unfolding serve Register.execute is_base_error
  registering_another_spelling law i w u h other valid taken hashed =
      let inner =
        refused i w u h other valid hashed
          (λ row same. full-repeated law w.db u row (rw same taken)) in
      let e =
        answer-unexpected 400 _ (Register.execute i w) integrity_error
          (publishes-err (Register.register_user i) w integrity_error inner) refl in
      (e, serve-IsUnchanged (register i) w (rw e refl))
