-- ===== src/Cases/ChangePassword/Success.antt =====
-- What a change of a password that returns has found and written.
use hexagonal_auth_service.Base.{
  ℕ, suc, ◌≡◌, ◌≢◌, refl, true, some, none, List, [], ◌∷◌, Text, text_eq, text_eq_iff, text_eq_refl,
  false, arith, strip, length, ◌≤◌,
}
use hexagonal_auth_service.Errors.{Error}
use hexagonal_auth_service.Exec.{Result, ok, err, pure, ◌>>◌}
use hexagonal_auth_service.Env.{Env}
use hexagonal_auth_service.Events.{Event, user_password_changed}
use hexagonal_auth_service.Utils
use hexagonal_auth_service.Schema.{UserRow}
use hexagonal_auth_service.World.{World}
use hexagonal_auth_service.User
use hexagonal_auth_service.AccessToken.{verify}
use hexagonal_auth_service.Validators.Password.{validate_hash_password, validate_password}
use hexagonal_auth_service.Persistence.Sql.{scalar_one_or_none}
use hexagonal_auth_service.Persistence.Users
use hexagonal_auth_service.Cases.Inputs.{ChangePasswordInputDto}
use hexagonal_auth_service.Cases.Rows.{owners, one-row}
use hexagonal_auth_service.Cases.Renewed.{renewed}
use hexagonal_auth_service.Cases.ChangePassword.{change_password}

module _ ⦃env : Env⦄ where
  -- whom the access token stands for
  abbrev pub bearer : ChangePasswordInputDto → World → Result ℕ
  bearer i w = (verify i.access_token w.calls).0

  abbrev pub changed_event : UserRow → ℕ → Event
  changed_event u n = record {
    timestamp = env.clock (suc (suc n));
    payload = user_password_changed u.id;
  }

  pub change-live :
      (i : ChangePasswordInputDto) (w : World) (id : ℕ) (u : UserRow) {events : List Event}
      {v : World}
      → bearer i w ≡ ok id
      → owners id w ≡ u ∷ []
      → change_password i w ≡ (ok events, v)
      → (env.checkpw i.old_password u.password_hash ≡ some true)
        × (i.old_password ≢ i.new_password)
        × (8 ≤ length (strip i.new_password))
        × (length (strip i.new_password) ≤ 255)
        × (env.hashpw (strip i.new_password) (env.gensalt (suc w.calls)) ≢ none)
  unfolding change_password verify Users.get_by_id User.change_password Utils.verify_password
      validate_hash_password validate_password
  change-live i w id u b f h = (
    ground arith,
    λ same. ground (arith, text_eq_refl i.new_password),
    ground arith,
    ground arith,
    λ k. ground arith,
  )

  pub change-saves :
      (i : ChangePasswordInputDto) (w : World) (id : ℕ) (u : UserRow) (h : Text)
      → bearer i w ≡ ok id
      → owners id w ≡ u ∷ []
      → env.checkpw i.old_password u.password_hash ≡ some true
      → i.old_password ≢ i.new_password
      → validate_hash_password i.new_password (suc w.calls) ≡ (ok h, suc (suc w.calls))
      → change_password i w
        ≡ (do Users.save (renewed u h); pure (changed_event u w.calls ∷ []))
            (record w { calls = suc (suc (suc w.calls)) })
  unfolding change_password verify Users.get_by_id User.change_password Utils.verify_password
      User.pull_domain_events
  change-saves i w id u h b f checked differs hashed =
      let other : text_eq i.old_password i.new_password ≡ false =
        ground (arith, text_eq_iff i.old_password i.new_password) in
      rw b (rw (f, scalar_one_or_none) (rw (checked, other) (rw hashed refl)))

  -- Without a bearer or an owner, or with several of these, the block raises.
  bearer-refused :
      (i : ChangePasswordInputDto) (w : World) (e : Error) {events : List Event} {v : World}
      → bearer i w ≡ err e
      → change_password i w ≢ (ok events, v)
  unfolding change_password verify
  bearer-refused i w e b = ground arith

  owner-unfound :
      (i : ChangePasswordInputDto) (w : World) (id : ℕ) {events : List Event} {v : World}
      → bearer i w ≡ ok id
      → owners id w ≡ []
      → change_password i w ≢ (ok events, v)
  unfolding change_password verify Users.get_by_id
  owner-unfound i w id b f = ground arith

  owner-ambiguous :
      (i : ChangePasswordInputDto) (w : World) (id : ℕ) (u q : UserRow) (rows : List UserRow)
      {events : List Event} {v : World}
      → bearer i w ≡ ok id
      → owners id w ≡ u ∷ q ∷ rows
      → change_password i w ≢ (ok events, v)
  unfolding change_password verify Users.get_by_id
  owner-ambiguous i w id u q rows b f = ground arith

  -- the one row of the bearer
  pub change-finds :
      (i : ChangePasswordInputDto) (w : World) {events : List Event} {v : World}
      → change_password i w ≡ (ok events, v)
      → (id : ℕ) × (u : UserRow) × (bearer i w ≡ ok id) × (owners id w ≡ u ∷ [])
  change-finds i w h = of (bearer i w) refl
    where
      of :
          (r : Result ℕ)
          → bearer i w ≡ r
          → (id : ℕ) × (u : UserRow) × (bearer i w ≡ ok id) × (owners id w ≡ u ∷ [])
      of (err e) b = absurd (bearer-refused i w e b h)
      of (ok id) b =
          let (u, f) =
            one-row (owners id w) (λ f. owner-unfound i w id b f h)
              (λ u q rows f. owner-ambiguous i w id u q rows b f h) in
          (id, u, b, f)
