-- ===== src/Persistence/Race/Tables.antt =====
-- The three repositories as tables of versioned rows, and the races of their saves.
use hexagonal_auth_service.Base.{
  ℕ, ◌+◌, ◌≡◌, refl, true, none, some, ◌∷◌, [], ◌++◌, count, codes, arith, ◌==◌,
}
use hexagonal_auth_service.Errors.{concurrency_error}
use hexagonal_auth_service.Exec.{ok, err}
use hexagonal_auth_service.Env.{Env}
use hexagonal_auth_service.Schema.{Database, UserRow, OneTimeTokenRow, RefreshTokenRow}
use hexagonal_auth_service.Schema.Constraints.{
  satisfies, unique_by, users_valid, one_time_tokens_valid, refresh_tokens_valid, IsEnforcing,
}
use hexagonal_auth_service.World.{World}
use hexagonal_auth_service.User.{User}
use hexagonal_auth_service.OneTimeToken.{OneTimeToken}
use hexagonal_auth_service.RefreshToken.{RefreshToken}
use hexagonal_auth_service.Persistence.Sql.{update_where, write}
use hexagonal_auth_service.Persistence.Users
use hexagonal_auth_service.Persistence.OneTimeTokens
use hexagonal_auth_service.Persistence.RefreshTokens
use hexagonal_auth_service.Persistence.Locking.{user_stale, one_time_stale, refresh_stale}
use hexagonal_auth_service.Persistence.Versioned.{Versioned}
use hexagonal_auth_service.Persistence.Race.{Steps, save_race}

module _ ⦃env : Env⦄ where
  pub user_inserted :
      (e e' : User) (w w' : World)
      → Users.save_with e none w ≡ (ok e', w')
      → (w'.db.users ≡ w.db.users ++ record (Users.domain2orm e) { version = 1 } ∷ [])
        × (env.admits w'.db ≡ true)
  unfolding Users.save_with write
  user_inserted e e' w w' h = (ground arith, ground arith)

  pub user_updated :
      (e e' : User) (n : ℕ) (w w' : World)
      → Users.save_with e (some n) w ≡ (ok e', w')
      → (w'.db.users ≡ update_where (Users.is_current e) (Users.set_columns e (n + 1)) w.db.users)
        × (env.admits w'.db ≡ true)
        × (count (Users.is_current e) w.db.users ≡ 1)
  unfolding Users.save_with write
  user_updated e e' n w w' h = (ground arith, ground arith, ground arith)

  pub user_unique :
      (db : Database)
      → satisfies db ≡ true
      → unique_by (λ (a b : UserRow). a.id == b.id) db.users ≡ true
  unfolding satisfies users_valid
  user_unique db h = ground arith

  unfoldable pub user_table : Versioned User UserRow
  unfolding Users.save Users.is_current Users.set_columns Users.domain2orm
  user_table = record {
    rows = λ db. db.users;
    row_id = λ r. r.id;
    row_version = λ r. r.version;
    id = λ e. e.id;
    version = λ e. e.version;
    save = Users.save;
    save_with = Users.save_with;
    conflict = concurrency_error (codes "User version conflict");
    is_current = Users.is_current;
    set_columns = Users.set_columns;
    new_row = λ e. record (Users.domain2orm e) { version = 1 };
    save_lem = λ e w. refl;
    is_current_lem = λ e r. refl;
    new_id = λ e. refl;
    keeps_id = λ e n r. refl;
    sets_version = λ e n r. refl;
    inserted = user_inserted;
    updated = user_updated;
    stale = user_stale;
    unique = user_unique;
  }

  pub one_time_inserted :
      (e e' : OneTimeToken) (w w' : World)
      → OneTimeTokens.save_with e none w ≡ (ok e', w')
      → (w'.db.one_time_tokens
          ≡ w.db.one_time_tokens ++ record (OneTimeTokens.domain2orm e) { version = 1 } ∷ [])
        × (env.admits w'.db ≡ true)
  unfolding OneTimeTokens.save_with write
  one_time_inserted e e' w w' h = (ground arith, ground arith)

  pub one_time_updated :
      (e e' : OneTimeToken) (n : ℕ) (w w' : World)
      → OneTimeTokens.save_with e (some n) w ≡ (ok e', w')
      → (w'.db.one_time_tokens
          ≡ update_where
              (OneTimeTokens.is_current e)
              (OneTimeTokens.set_columns e (n + 1))
              w.db.one_time_tokens)
        × (env.admits w'.db ≡ true)
        × (count (OneTimeTokens.is_current e) w.db.one_time_tokens ≡ 1)
  unfolding OneTimeTokens.save_with write
  one_time_updated e e' n w w' h = (ground arith, ground arith, ground arith)

  pub one_time_unique :
      (db : Database)
      → satisfies db ≡ true
      → unique_by (λ (a b : OneTimeTokenRow). a.id == b.id) db.one_time_tokens ≡ true
  unfolding satisfies one_time_tokens_valid
  one_time_unique db h = ground arith

  unfoldable pub one_time_table : Versioned OneTimeToken OneTimeTokenRow
  unfolding OneTimeTokens.save OneTimeTokens.is_current OneTimeTokens.set_columns
      OneTimeTokens.domain2orm
  one_time_table = record {
    rows = λ db. db.one_time_tokens;
    row_id = λ r. r.id;
    row_version = λ r. r.version;
    id = λ e. e.id;
    version = λ e. e.version;
    save = OneTimeTokens.save;
    save_with = OneTimeTokens.save_with;
    conflict = concurrency_error (codes "OneTimeToken version conflict");
    is_current = OneTimeTokens.is_current;
    set_columns = OneTimeTokens.set_columns;
    new_row = λ e. record (OneTimeTokens.domain2orm e) { version = 1 };
    save_lem = λ e w. refl;
    is_current_lem = λ e r. refl;
    new_id = λ e. refl;
    keeps_id = λ e n r. refl;
    sets_version = λ e n r. refl;
    inserted = one_time_inserted;
    updated = one_time_updated;
    stale = one_time_stale;
    unique = one_time_unique;
  }

  pub refresh_inserted :
      (e e' : RefreshToken) (w w' : World)
      → RefreshTokens.save_with e none w ≡ (ok e', w')
      → (w'.db.refresh_tokens
          ≡ w.db.refresh_tokens ++ record (RefreshTokens.domain2orm e) { version = 1 } ∷ [])
        × (env.admits w'.db ≡ true)
  unfolding RefreshTokens.save_with write
  refresh_inserted e e' w w' h = (ground arith, ground arith)

  pub refresh_updated :
      (e e' : RefreshToken) (n : ℕ) (w w' : World)
      → RefreshTokens.save_with e (some n) w ≡ (ok e', w')
      → (w'.db.refresh_tokens
          ≡ update_where
              (RefreshTokens.is_current e)
              (RefreshTokens.set_columns e (n + 1))
              w.db.refresh_tokens)
        × (env.admits w'.db ≡ true)
        × (count (RefreshTokens.is_current e) w.db.refresh_tokens ≡ 1)
  unfolding RefreshTokens.save_with write
  refresh_updated e e' n w w' h = (ground arith, ground arith, ground arith)

  pub refresh_unique :
      (db : Database)
      → satisfies db ≡ true
      → unique_by (λ (a b : RefreshTokenRow). a.id == b.id) db.refresh_tokens ≡ true
  unfolding satisfies refresh_tokens_valid
  refresh_unique db h = ground arith

  unfoldable pub refresh_table : Versioned RefreshToken RefreshTokenRow
  unfolding RefreshTokens.save RefreshTokens.is_current RefreshTokens.set_columns
      RefreshTokens.domain2orm
  refresh_table = record {
    rows = λ db. db.refresh_tokens;
    row_id = λ r. r.id;
    row_version = λ r. r.version;
    id = λ e. e.id;
    version = λ e. e.version;
    save = RefreshTokens.save;
    save_with = RefreshTokens.save_with;
    conflict = concurrency_error (codes "RefreshToken version conflict");
    is_current = RefreshTokens.is_current;
    set_columns = RefreshTokens.set_columns;
    new_row = λ e. record (RefreshTokens.domain2orm e) { version = 1 };
    save_lem = λ e w. refl;
    is_current_lem = λ e r. refl;
    new_id = λ e. refl;
    keeps_id = λ e n r. refl;
    sets_version = λ e n r. refl;
    inserted = refresh_inserted;
    updated = refresh_updated;
    stale = refresh_stale;
    unique = refresh_unique;
  }

  -- Take copies of a user that were loaded at one version, and the save of one of them that returned.
  -- Then saving another raises `ConcurrencyError`, whatever of these come in between, in any order:
  -- statements that save other copies or objects, deletions of any rows of the table, and changes that
  -- leave the table; if PostgreSQL enforces the constraints and no row is inserted with the same id again.
  pub user_save_race :
      IsEnforcing
      → (a b : User) (n : ℕ) (w : World) {a' : User} {v w' : World} → env.admits w.db ≡ true
      → a.version ≡ some n
      → b.version ≡ some n
      → b.id ≡ a.id
      → Users.save a w ≡ (ok a', v)
      → Steps user_table a.id v w'
      → (Users.save b w').0 ≡ err (concurrency_error (codes "User version conflict"))
  unfolding user_table
  user_save_race law a b n w {a'} {v} {w'} admitted va vb same h steps =
      save_race user_table law a b a' n w v w' admitted va vb same h steps

  -- Take copies of a one-time token that were loaded at one version, and the save of one of them that returned.
  -- Then saving another raises `ConcurrencyError`, whatever of these come in between, in any order:
  -- statements that save other copies or objects, deletions of any rows of the table, and changes that
  -- leave the table; if PostgreSQL enforces the constraints and no row is inserted with the same id again.
  pub one_time_save_race :
      IsEnforcing
      → (a b : OneTimeToken) (n : ℕ) (w : World) {a' : OneTimeToken} {v w' : World}
      → env.admits w.db ≡ true
      → a.version ≡ some n
      → b.version ≡ some n
      → b.id ≡ a.id
      → OneTimeTokens.save a w ≡ (ok a', v)
      → Steps one_time_table a.id v w'
      → (OneTimeTokens.save b w').0
        ≡ err (concurrency_error (codes "OneTimeToken version conflict"))
  unfolding one_time_table
  one_time_save_race law a b n w {a'} {v} {w'} admitted va vb same h steps =
      save_race one_time_table law a b a' n w v w' admitted va vb same h steps

  -- Take copies of a refresh token that were loaded at one version, and the save of one of them that returned.
  -- Then saving another raises `ConcurrencyError`, whatever of these come in between, in any order:
  -- statements that save other copies or objects, deletions of any rows of the table, and changes that
  -- leave the table; if PostgreSQL enforces the constraints and no row is inserted with the same id again.
  pub refresh_save_race :
      IsEnforcing
      → (a b : RefreshToken) (n : ℕ) (w : World) {a' : RefreshToken} {v w' : World}
      → env.admits w.db ≡ true
      → a.version ≡ some n
      → b.version ≡ some n
      → b.id ≡ a.id
      → RefreshTokens.save a w ≡ (ok a', v)
      → Steps refresh_table a.id v w'
      → (RefreshTokens.save b w').0
        ≡ err (concurrency_error (codes "RefreshToken version conflict"))
  unfolding refresh_table
  refresh_save_race law a b n w {a'} {v} {w'} admitted va vb same h steps =
      save_race refresh_table law a b a' n w v w' admitted va vb same h steps
