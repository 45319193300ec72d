-- ===== src/Cases/Register/OtherCase.antt =====
-- A registration under another spelling of an address that is taken.
use hexagonal_auth_service.Base.{
  ap, ◌∙◌, suc, ◌≡◌, refl, true, false, Bool-cases, inl, inr, none, List, [], ◌∷◌, ◌++◌, Text,
  text_eq, filter, count, ◌==◌, arith,
}
use hexagonal_auth_service.Errors.{integrity_error}
use hexagonal_auth_service.Exec.{Result, Exec, ok, err, ◌>>◌}
use hexagonal_auth_service.Env.{Env}
use hexagonal_auth_service.Schema.{UserRow, Database}
use hexagonal_auth_service.Schema.Constraints.{unique_by, users_valid, satisfies, IsEnforcing}
use hexagonal_auth_service.World.{World}
use hexagonal_auth_service.User
use hexagonal_auth_service.Validators.Email.{validate_email}
use hexagonal_auth_service.Validators.Password.{validate_hash_password}
use hexagonal_auth_service.Persistence.Sql.{write}
use hexagonal_auth_service.Persistence.Users
use hexagonal_auth_service.Cases.Inputs.{RegisterUserInputDto}
use hexagonal_auth_service.Cases.Register.{register_user}
use hexagonal_auth_service.Cases.Register.Success.{new_user, register-saves}
use hexagonal_auth_service.Events.{Event}

-- the last row is counted under its address
counted-last :
    (email : Text) (r : UserRow) (rows : List UserRow)
    → text_eq email r.email ≡ true
    → (count (λ (b : UserRow). text_eq email b.email) (rows ++ r ∷ []) == 0) ≡ false
counted-last email r [] h = ground arith
counted-last email r (x ∷ rows) h = ground (arith, counted-last email r rows)

-- a second row with an address
unique_by-repeated :
    (u r : UserRow) (rows : List UserRow)
    → filter (λ x. text_eq x.email r.email) rows ≡ u ∷ []
    → unique_by (λ a b. text_eq a.email b.email) (rows ++ r ∷ []) ≡ false
unfolding unique_by
unique_by-repeated u r [] h = cc
unique_by-repeated u r (x ∷ rows) h =
    ground (arith, unique_by-repeated u r rows, counted-last x.email r rows)

module _ ⦃env : Env⦄ where
  insert-refused :
      {A : Type 0} (user : User.User) (k : Exec World A) (w : World)
      → env.admits (record w.db {
        users = w.db.users ++ record (Users.domain2orm user) { version = 1 } ∷ [];
      })
        ≡ false
      → ((do Users.save_with user none; k) w).0 ≡ err integrity_error
  unfolding Users.save_with write
  insert-refused user k w e = rw e refl

  pub refused :
      (i : RegisterUserInputDto) (w : World) (u : UserRow) (h : Text)
      → filter (λ (r : UserRow). text_eq r.email i.email) w.db.users ≡ []
      → validate_email i.email ≡ ok u.email
      → validate_hash_password i.password (suc w.calls) ≡ (ok h, suc (suc w.calls))
      → ((row : UserRow)
          → row.email ≡ u.email
          → env.admits (record w.db { users = w.db.users ++ row ∷ [] }) ≡ false)
      → (register_user i w).0 ≡ err integrity_error
  unfolding Users.save Users.domain2orm
  refused i w u h none_found valid hashed full =
      ap (λ (r : Result (List Event) × World). r.0)
        (register-saves i w u.email h none_found valid hashed)
      ∙ insert-refused (new_user u.email h w.calls) _ _ (full _ refl)

  -- no tables with a second row of an address are admitted
  pub full-repeated :
      IsEnforcing
      → (db : Database) (u row : UserRow)
      → filter (λ (r : UserRow). text_eq r.email row.email) db.users ≡ u ∷ []
      → env.admits (record db { users = db.users ++ row ∷ [] }) ≡ false
  unfolding satisfies users_valid
  full-repeated law db u row found =
      elim (Bool-cases (env.admits (record db { users = db.users ++ row ∷ [] }))) [
        | inl admitted ↦
            let valid = law.enforced _ admitted in
            let twice = unique_by-repeated u row db.users found in ground arith
        | inr refused ↦ refused
      ]
