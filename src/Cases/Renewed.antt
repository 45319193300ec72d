-- ===== src/Cases/Renewed.antt =====
-- What the use cases that store a new password share: the user that they save, and its row after.
use hexagonal_auth_service.Base.{
  ℕ, suc, ◌+◌, ◌≡◌, refl, some, [], ◌∷◌, Text, filter, count, ◌==◌, arith, strip, length, ◌≤◌,
}
use hexagonal_auth_service.Exec.{ok, pure, ◌>>◌}
use hexagonal_auth_service.Env.{Env}
use hexagonal_auth_service.Schema.{UserRow}
use hexagonal_auth_service.World.{World}
use hexagonal_auth_service.User
use hexagonal_auth_service.Validators.Password.{validate_hash_password, validate_password}
use hexagonal_auth_service.Persistence.Sql.{update_where, write}
use hexagonal_auth_service.Persistence.Users
use hexagonal_auth_service.Cases.Rows.{owners, owners-saved}

module _ ⦃env : Env⦄ where
  -- the user when it is saved
  abbrev pub renewed : UserRow → Text → User.User
  renewed u h = record (Users.orm2domain u) { password_hash = h }

  -- the hash of a password of a right length
  pub hashes-stripped :
      (p : Text) (n : ℕ) (h : Text)
      → 8 ≤ length (strip p)
      → length (strip p) ≤ 255
      → env.hashpw (strip p) (env.gensalt n) ≡ some h
      → validate_hash_password p n ≡ (ok h, suc n)
  unfolding validate_hash_password validate_password
  hashes-stripped p n h low high e = ground arith

  -- the one row of a user with a new password, after the update
  pub owners-renewed :
      (u : UserRow) (h : Text) (id : ℕ) (w : World)
      → owners id w ≡ u ∷ []
      → count (Users.is_current (renewed u h)) w.db.users ≡ 1
      → filter
          (λ r. r.id == u.id)
          (update_where
            (Users.is_current (renewed u h))
            (Users.set_columns (renewed u h) (u.version + 1))
            w.db.users)
        ≡ record u { password_hash = h; version = u.version + 1 } ∷ []
  unfolding Users.set_columns Users.orm2domain
  owners-renewed u h id w e alone = owners-saved (renewed u h) u id w refl refl e alone

  -- the save of a user at the end of a block, when the block returned
  pub save-ok :
      {A : Type 0} (u : User.User) (n : ℕ) (a : A) (w : World) {w' : World} {b : A}
      → (do Users.save_with u (some n); pure a) w ≡ (ok b, w')
      → (a ≡ b)
        × (count (Users.is_current u) w.db.users ≡ 1)
        × (w' ≡ record w {
          db = record w.db {
            users = update_where (Users.is_current u) (Users.set_columns u (n + 1)) w.db.users;
          };
        })
  unfolding Users.save_with write
  save-ok u n a w h = (ground arith, ground arith, ground arith)
