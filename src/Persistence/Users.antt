-- ===== src/Persistence/Users.antt =====
-- repositories/user.py
use hexagonal_auth_service.Base.{
  ℕ, ◌+◌, Bool, ◌&&◌, not, Option, none, some, List, [], ◌∷◌, ◌++◌, Text, codes, text_eq, filter,
  count, ◌==◌, ltb,
}
use mathlib.Core.Option
use hexagonal_auth_service.Errors.{concurrency_error}
use hexagonal_auth_service.Exec.{Exec, pure, lift, gets, raise_if, ◌>>=◌, ◌>>◌}
use hexagonal_auth_service.Env.{Env}
use hexagonal_auth_service.Schema.{UserRow}
use hexagonal_auth_service.World.{World}
use hexagonal_auth_service.User.{User}
use hexagonal_auth_service.Persistence.Sql.{
  scalar_one_or_none, update_where, delete_where, version_is, write,
}

unfoldable pub orm2domain : UserRow → User
orm2domain user = record {
  id = user.id;
  email = user.email;
  password_hash = user.password_hash;
  active = user.active;
  is_email_verified = user.is_email_verified;
  created_at = user.created_at;
  events = [];
  version = some user.version;
}

-- `getattr(user, "__version", 0)`
unfoldable pub version_or_zero : Option ℕ → ℕ
version_or_zero none = 0
version_or_zero (some v) = v

unfoldable pub domain2orm : User → UserRow
unfolding version_or_zero
domain2orm user = record {
  id = user.id;
  email = user.email;
  is_email_verified = user.is_email_verified;
  password_hash = user.password_hash;
  active = user.active;
  created_at = user.created_at;
  version = version_or_zero user.version;
}

unfoldable pub get_by_email : Text → Exec World (Option User)
unfolding scalar_one_or_none orm2domain
get_by_email email = do
  rows ← gets (λ w. filter (λ r. text_eq r.email email) w.db.users)
  found ← lift (scalar_one_or_none rows)
  pure (Option.map orm2domain found)

unfoldable pub get_by_id : ℕ → Exec World (Option User)
unfolding scalar_one_or_none orm2domain
get_by_id user_id = do
  rows ← gets (λ w. filter (λ r. r.id == user_id) w.db.users)
  found ← lift (scalar_one_or_none rows)
  pure (Option.map orm2domain found)

-- `WHERE id = … AND version = …`
unfoldable pub is_current : User → UserRow → Bool
unfolding version_is
is_current user r = r.id == user.id && version_is user.version r.version

-- the columns that the UPDATE sets
unfoldable pub set_columns : User → ℕ → UserRow → UserRow
set_columns user version r = record r {
  email = user.email;
  password_hash = user.password_hash;
  active = user.active;
  is_email_verified = user.is_email_verified;
  created_at = user.created_at;
  version = version;
}

-- ON DELETE CASCADE: the DELETE takes the row of the user with this id
unfoldable pub owner_goes : User → List UserRow → ℕ → Bool
unfolding is_current
owner_goes user users user_id = ltb 0 (count (λ r. is_current user r && r.id == user_id) users)

module _ ⦃env : Env⦄ where
  unfoldable pub save_with : User → Option ℕ → Exec World User
  unfolding domain2orm is_current set_columns update_where write
  save_with user none = do
    db ← gets (λ w. w.db)
    write (record db { users = db.users ++ record (domain2orm user) { version = 1 } ∷ [] })
    pure (record user { version = some 1 })
  save_with user (some expected) = do
    db ← gets (λ w. w.db)
    write (record db {
      users = update_where (is_current user) (set_columns user (expected + 1)) db.users;
    })
    raise_if (not (count (is_current user) db.users == 1))
        (concurrency_error (codes "User version conflict"))
    pure (record user { version = some (expected + 1) })

  unfoldable pub save : User → Exec World User
  unfolding save_with
  save user = save_with user user.version

  unfoldable pub delete : User → Exec World (Unit {0})
  unfolding is_current delete_where owner_goes write
  delete user = do
    db ← gets (λ w. w.db)
    write (record {
      users = delete_where (is_current user) db.users;
      one_time_tokens = delete_where (λ r. owner_goes user db.users r.user_id) db.one_time_tokens;
      refresh_tokens = delete_where (λ r. owner_goes user db.users r.user_id) db.refresh_tokens;
    })
    raise_if (not (count (is_current user) db.users == 1))
        (concurrency_error (codes "User version conflict on delete"))
