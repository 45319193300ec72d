-- ===== src/User/Passwords.antt =====
-- Passwords of the user aggregate: who may log in, and what a change of password checks.
use hexagonal_auth_service.Base.{
  ℕ, suc, ◌≡◌, ◌≢◌, ◌↔◌, true, false, Bool, none, some, inl, inr, sym, ◌⊎◌, Option-cases, Text,
  codes, arith, text_eq_iff, text_eq_refl, strip, length, ◌≤◌,
}
use hexagonal_auth_service.Errors.{user_error, value_error}
use hexagonal_auth_service.Exec.{ok, err}
use hexagonal_auth_service.Env.{Env}
use hexagonal_auth_service.Live.{Live}
use hexagonal_auth_service.Utils
use hexagonal_auth_service.Validators.Password.{validate_hash_password, validate_password}
use hexagonal_auth_service.User.{User, assert_can_login, change_password, create}

-- What bcrypt documents of its hashes: no other password checks against the hash of a password. Both
-- calls may raise, as bcrypt does for more than 72 bytes.
pub record IsHashing ⦃env : Env⦄ : Type 0 where
  pub check_hash :
      (p q salt h : Text) → env.hashpw q salt ≡ some h → env.checkpw p h ≡ some true → p ≡ q

module _ ⦃env : Env⦄ where
  -- `assert_can_login` returns exactly for an active user with a verified address whose hash the
  -- password matches, and never changes the user.
  pub assert_can_login_iff :
      (p : Text) (s : Live User)
      → (((assert_can_login p s).0 ≡ ok tt) ↔ (
          (s.self.active ≡ true)
          × (s.self.is_email_verified ≡ true)
          × (env.checkpw p s.self.password_hash ≡ some true)))
        × ((assert_can_login p s).1.self ≡ s.self)
  unfolding assert_can_login Utils.verify_password
  assert_can_login_iff p s = ((λ h. ground arith, λ h. ground arith), ground arith)

  -- A change of password that returns had the right old password and a new one that differs from it as
  -- given; the stored hash is that of the new password without its surrounding spaces, which has 8 to
  -- 255 characters.
  pub change_password-ok :
      (old new : Text) (s : Live User)
      → (change_password old new s).0 ≡ ok tt
      → (env.checkpw old s.self.password_hash ≡ some true)
        × (old ≢ new)
        × (8 ≤ length (strip new))
        × (length (strip new) ≤ 255)
        × (env.hashpw (strip new) (env.gensalt s.calls)
            ≡ some (change_password old new s).1.self.password_hash)
  unfolding change_password Utils.verify_password validate_hash_password validate_password
  change_password-ok old new s h = (
    ground arith,
    λ same. ground (arith, text_eq_refl new),
    ground arith,
    ground arith,
    ground arith,
  )

  -- The test against reuse compares the passwords as given, and the hash is of the stripped one. So the
  -- old password with surrounding spaces counts as a new one: if it strips to the old password, the
  -- change returns and stores a hash of the old password itself.
  change_password_padded :
      (old new : Text) (s : Live User) (h : Text)
      → strip new ≡ old
      → old ≢ new
      → 8 ≤ length old
      → length old ≤ 255
      → env.checkpw old s.self.password_hash ≡ some true
      → env.hashpw old (env.gensalt s.calls) ≡ some h
      → ((change_password old new s).0 ≡ ok tt)
        × ((change_password old new s).1.self.password_hash ≡ h)
  unfolding change_password Utils.verify_password validate_hash_password validate_password
  change_password_padded old new s h e ne low high check hashed =
      ground (arith, text_eq_iff old new)

  check-cases : (p h : Text) → (env.checkpw p h ≡ none) ⊎ ((b : Bool) × (env.checkpw p h ≡ some b))
  check-cases p h = Option-cases (env.checkpw p h)

  -- A user who registers with surrounding spaces in the password, and whose account is active and
  -- verified, is refused with that very password, because `create` hashes the stripped password and
  -- `assert_can_login` checks the given one: with `UserError` where bcrypt answers false, and with
  -- `ValueError` where bcrypt raises, as it does for a password that is too long. That a hash checks
  -- with no password but its own is a hypothesis on bcrypt.
  pub padded_password_refused :
      IsHashing
      → (email p : Text) (n : ℕ) (u : User) (m k : ℕ) → create email p n ≡ (ok u, m)
      → strip p ≢ p
      → let login =
          assert_can_login p (record { self = record u { is_email_verified = true }; calls = k }) in
        ((env.checkpw p u.password_hash ≡ some false)
          × (login.0 ≡ err (user_error (codes "Invalid password"))))
        ⊎ ((env.checkpw p u.password_hash ≡ none) × (login.0 ≡ err value_error))
  unfolding create validate_hash_password validate_password assert_can_login Utils.verify_password
  padded_password_refused law email p n u m k h ne = elim (check-cases p u.password_hash) [
    | inl raised ↦ inr (raised, ground arith)
    | inr (true, matched) ↦ absurd (
        ne (
          sym (
            law.check_hash p (strip p) (env.gensalt (suc n)) u.password_hash (ground arith)
              matched)))
    | inr (false, missed) ↦ inl (missed, ground arith)
  ]
