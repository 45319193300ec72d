-- ===== src/User/Methods.antt =====
-- The methods of the user aggregate, all together.
use hexagonal_auth_service.Base.{
  ℕ, suc, ap, ◌≡◌, true, List, [], ◌∷◌, ◌++◌, Text, append-nil, arith,
}
use hexagonal_auth_service.Errors.{Error}
use hexagonal_auth_service.Exec.{Exec, ok, err}
use hexagonal_auth_service.Events.{
  Event, Payload, user_email_verification_requested, user_password_recover_requested,
  user_email_verified, user_activated, user_deactivated, user_password_recovered,
  user_password_changed,
}
use hexagonal_auth_service.Env.{Env}
use hexagonal_auth_service.Live.{Live}
use hexagonal_auth_service.Utils
use hexagonal_auth_service.Validators.Password.{validate_hash_password}
use hexagonal_auth_service.User.{
  User, request_email_verification, request_password_recover, verify_email, assert_can_login,
  change_password, recover_password, activate, deactivate,
}

-- a call of one of the methods that return nothing
pub data Method : Type 0 where
  requests_email_verification requests_password_recover : Text → Method
  verifies_email activates deactivates : Method
  asserts_can_login recovers_password : Text → Method
  changes_password : Text → Text → Method

-- the event that each method announces when it returns
abbrev pub announced : Method → User → List Payload
announced (requests_email_verification t) u = user_email_verification_requested u.id u.email t ∷ []
announced (requests_password_recover t) u = user_password_recover_requested u.id u.email t ∷ []
announced verifies_email u = user_email_verified u.id u.email ∷ []
announced activates u = user_activated u.id ∷ []
announced deactivates u = user_deactivated u.id ∷ []
announced (asserts_can_login p) u = []
announced (recovers_password p) u = user_password_recovered u.id ∷ []
announced (changes_password p q) u = user_password_changed u.id ∷ []

abbrev pub stamped : ℕ → List Payload → List Event
stamped t [] = []
stamped t (p ∷ ps) = record { timestamp = t; payload = p } ∷ stamped t ps

module _ ⦃env : Env⦄ where
  unfoldable pub run : Method → Exec (Live User) (Unit {0})
  unfolding request_email_verification request_password_recover verify_email assert_can_login
      change_password recover_password activate deactivate
  run (requests_email_verification t) = request_email_verification t
  run (requests_password_recover t) = request_password_recover t
  run verifies_email = verify_email
  run activates = activate
  run deactivates = deactivate
  run (asserts_can_login p) = assert_can_login p
  run (recovers_password p) = recover_password p
  run (changes_password p q) = change_password p q

  -- A method that raises leaves the user as it was.
  pub run-raises :
      (m : Method) (s : Live User) (e : Error) → (run m s).0 ≡ err e → (run m s).1.self ≡ s.self
  unfolding run Utils.verify_password validate_hash_password
  run-raises (requests_email_verification t) s e h = ground arith
  run-raises _ s e h = ground arith

  -- No method, whether it returns or raises, changes the id, the address, the creation time or the
  -- version of a user, or makes a verified address unverified.
  pub run_keeps :
      (m : Method) (s : Live User)
      → let v = (run m s).1.self in
        (v.id ≡ s.self.id)
        × (v.email ≡ s.self.email)
        × (v.created_at ≡ s.self.created_at)
        × (v.version ≡ s.self.version)
        × (s.self.is_email_verified ≡ true → v.is_email_verified ≡ true)
  unfolding run Utils.verify_password validate_hash_password
  run_keeps (requests_email_verification t) s = ground arith
  run_keeps _ s = ground arith

  announces :
      (m : Method) (s : Live User)
      → (run m s).0 ≡ ok tt
      → (t : ℕ) × ((run m s).1.self.events ≡ s.self.events ++ stamped t (announced m s.self))
  unfolding run Utils.verify_password validate_hash_password
  announces (requests_email_verification t) s h = (env.clock s.calls, ground arith)
  announces (asserts_can_login p) s h = (0, rw append-nil (ground arith))
  announces (recovers_password p) s h = (env.clock (suc s.calls), ground arith)
  announces (changes_password p q) s h = (env.clock (suc s.calls), ground arith)
  announces _ s h = (env.clock s.calls, ground arith)

  -- A method that returns appends the one event of its kind, if it has one, and no other; a method that
  -- raises appends none.
  pub run-announces :
      (m : Method) (s : Live User)
      → ((run m s).0 ≡ ok tt
          → (t : ℕ) × ((run m s).1.self.events ≡ s.self.events ++ stamped t (announced m s.self)))
        × ((e : Error) → (run m s).0 ≡ err e → (run m s).1.self.events ≡ s.self.events)
  run-announces m s = (announces m s, λ e h. ap (λ (u : User). u.events) (run-raises m s e h))
