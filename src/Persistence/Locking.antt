-- ===== src/Persistence/Locking.antt =====
-- repositories: two copies of an object that were loaded at one version.
use hexagonal_auth_service.Base.{
  ℕ, ◌+◌, ◌≡◌, refl, ◌∙◌, ap, subst, true, false, some, codes, arith, count,
}
use hexagonal_auth_service.Errors.{concurrency_error}
use hexagonal_auth_service.Exec.{ok, err}
use hexagonal_auth_service.Env.{Env}
use hexagonal_auth_service.Schema.{Database, UserRow, OneTimeTokenRow, RefreshTokenRow}
use hexagonal_auth_service.World.{World}
use hexagonal_auth_service.User.{User}
use hexagonal_auth_service.RefreshToken.{RefreshToken}
use hexagonal_auth_service.OneTimeToken.{OneTimeToken}
use hexagonal_auth_service.Persistence.Sql.{update_where, version_is, write}
use hexagonal_auth_service.Persistence.Tables.{update_where-none, count-update_where}
use hexagonal_auth_service.Persistence.Users
use hexagonal_auth_service.Persistence.OneTimeTokens
use hexagonal_auth_service.Persistence.RefreshTokens

module _ ⦃env : Env⦄ where
  -- what a save of a user that returned has left
  user_saved :
      (a : User) (n : ℕ) (w : World) {a' : User} {w' : World}
      → Users.save_with a (some n) w ≡ (ok a', w')
      → (w'.db ≡ record w.db {
        users = update_where (Users.is_current a) (Users.set_columns a (n + 1)) w.db.users;
      })
        × (env.admits w'.db ≡ true)
  unfolding Users.save_with write
  user_saved a n w h = (ground arith, ground arith)

  -- a save under a version that no row has
  pub user_stale :
      (b : User) (n : ℕ) (w : World)
      → count (Users.is_current b) w.db.users ≡ 0
      → env.admits w.db ≡ true
      → (Users.save_with b (some n) w).0 ≡ err (concurrency_error (codes "User version conflict"))
  unfolding Users.save_with write
  user_stale b n w none_left admitted =
      rw (update_where-none (Users.is_current b) (Users.set_columns b (n + 1)) w.db.users none_left)
        (rw (admitted, none_left) refl)

  user_missed :
      (a b : User) (n : ℕ) (r : UserRow)
      → b.version ≡ some n
      → Users.is_current b (Users.set_columns a (n + 1) r) ≡ false
  unfolding Users.is_current Users.set_columns version_is
  user_missed a b n r hb = ground (arith, hb)

  user_hit :
      (a b : User) (n : ℕ) (r : UserRow)
      → a.version ≡ some n
      → b.version ≡ some n
      → b.id ≡ a.id
      → Users.is_current b r ≡ true
      → Users.is_current a r ≡ true
  unfolding Users.is_current version_is
  user_hit a b n r ha hb same h = ground arith

  -- If two copies of a user have the same id and the same version, and the one is saved, then saving
  -- the other raises `ConcurrencyError`.
  pub user_save-conflicts :
      (a b : User) (n : ℕ) (w : World) {a' : User} {w' : World}
      → a.version ≡ some n
      → b.version ≡ some n
      → b.id ≡ a.id
      → Users.save a w ≡ (ok a', w')
      → (Users.save b w').0 ≡ err (concurrency_error (codes "User version conflict"))
  unfolding Users.save
  user_save-conflicts a b n w {a'} {w'} ha hb same h =
      let (tables, admitted) =
        user_saved a n w (subst (λ o. Users.save_with a o w ≡ (ok a', w')) ha h) in
      let none_left =
        ap (λ (db : Database). count (Users.is_current b) db.users) tables
        ∙ count-update_where (Users.is_current a) (Users.is_current b) (Users.set_columns a (n + 1))
            w.db.users (λ r. user_missed a b n r hb) (λ r. user_hit a b n r ha hb same) in
      ap (λ o. (Users.save_with b o w').0) hb ∙ user_stale b n w' none_left admitted

module _ ⦃env : Env⦄ where
  -- what a save of a refresh token that returned has left
  refresh_saved :
      (a : RefreshToken) (n : ℕ) (w : World) {a' : RefreshToken} {w' : World}
      → RefreshTokens.save_with a (some n) w ≡ (ok a', w')
      → (w'.db ≡ record w.db {
        refresh_tokens =
            update_where
              (RefreshTokens.is_current a)
              (RefreshTokens.set_columns a (n + 1))
              w.db.refresh_tokens;
      })
        × (env.admits w'.db ≡ true)
  unfolding RefreshTokens.save_with write
  refresh_saved a n w h = (ground arith, ground arith)

  -- a save under a version that no row has
  pub refresh_stale :
      (b : RefreshToken) (n : ℕ) (w : World)
      → count (RefreshTokens.is_current b) w.db.refresh_tokens ≡ 0
      → env.admits w.db ≡ true
      → (RefreshTokens.save_with b (some n) w).0
        ≡ err (concurrency_error (codes "RefreshToken version conflict"))
  unfolding RefreshTokens.save_with write
  refresh_stale b n w none_left admitted =
      rw
        (update_where-none (RefreshTokens.is_current b) (RefreshTokens.set_columns b (n + 1))
          w.db.refresh_tokens none_left)
        (rw (admitted, none_left) refl)

  refresh_missed :
      (a b : RefreshToken) (n : ℕ) (r : RefreshTokenRow)
      → b.version ≡ some n
      → RefreshTokens.is_current b (RefreshTokens.set_columns a (n + 1) r) ≡ false
  unfolding RefreshTokens.is_current RefreshTokens.set_columns version_is
  refresh_missed a b n r hb = ground (arith, hb)

  refresh_hit :
      (a b : RefreshToken) (n : ℕ) (r : RefreshTokenRow)
      → a.version ≡ some n
      → b.version ≡ some n
      → b.id ≡ a.id
      → RefreshTokens.is_current b r ≡ true
      → RefreshTokens.is_current a r ≡ true
  unfolding RefreshTokens.is_current version_is
  refresh_hit a b n r ha hb same h = ground arith

  -- If two copies of a refresh token have the same id and the same version, and the one is saved, then
  -- saving the other raises `ConcurrencyError`.
  pub refresh_save-conflicts :
      (a b : RefreshToken) (n : ℕ) (w : World) {a' : RefreshToken} {w' : World}
      → a.version ≡ some n
      → b.version ≡ some n
      → b.id ≡ a.id
      → RefreshTokens.save a w ≡ (ok a', w')
      → (RefreshTokens.save b w').0
        ≡ err (concurrency_error (codes "RefreshToken version conflict"))
  unfolding RefreshTokens.save
  refresh_save-conflicts a b n w {a'} {w'} ha hb same h =
      let (tables, admitted) =
        refresh_saved a n w (subst (λ o. RefreshTokens.save_with a o w ≡ (ok a', w')) ha h) in
      let none_left =
        ap (λ (db : Database). count (RefreshTokens.is_current b) db.refresh_tokens) tables
        ∙ count-update_where (RefreshTokens.is_current a) (RefreshTokens.is_current b)
            (RefreshTokens.set_columns a (n + 1)) w.db.refresh_tokens
            (λ r. refresh_missed a b n r hb) (λ r. refresh_hit a b n r ha hb same) in
      ap (λ o. (RefreshTokens.save_with b o w').0) hb ∙ refresh_stale b n w' none_left admitted

module _ ⦃env : Env⦄ where
  -- what a save of a one-time token that returned has left
  one_time_saved :
      (a : OneTimeToken) (n : ℕ) (w : World) {a' : OneTimeToken} {w' : World}
      → OneTimeTokens.save_with a (some n) w ≡ (ok a', w')
      → (w'.db ≡ record w.db {
        one_time_tokens =
            update_where
              (OneTimeTokens.is_current a)
              (OneTimeTokens.set_columns a (n + 1))
              w.db.one_time_tokens;
      })
        × (env.admits w'.db ≡ true)
  unfolding OneTimeTokens.save_with write
  one_time_saved a n w h = (ground arith, ground arith)

  -- a save under a version that no row has
  pub one_time_stale :
      (b : OneTimeToken) (n : ℕ) (w : World)
      → count (OneTimeTokens.is_current b) w.db.one_time_tokens ≡ 0
      → env.admits w.db ≡ true
      → (OneTimeTokens.save_with b (some n) w).0
        ≡ err (concurrency_error (codes "OneTimeToken version conflict"))
  unfolding OneTimeTokens.save_with write
  one_time_stale b n w none_left admitted =
      rw
        (update_where-none (OneTimeTokens.is_current b) (OneTimeTokens.set_columns b (n + 1))
          w.db.one_time_tokens none_left)
        (rw (admitted, none_left) refl)

  one_time_missed :
      (a b : OneTimeToken) (n : ℕ) (r : OneTimeTokenRow)
      → b.version ≡ some n
      → OneTimeTokens.is_current b (OneTimeTokens.set_columns a (n + 1) r) ≡ false
  unfolding OneTimeTokens.is_current OneTimeTokens.set_columns version_is
  one_time_missed a b n r hb = ground (arith, hb)

  one_time_hit :
      (a b : OneTimeToken) (n : ℕ) (r : OneTimeTokenRow)
      → a.version ≡ some n
      → b.version ≡ some n
      → b.id ≡ a.id
      → OneTimeTokens.is_current b r ≡ true
      → OneTimeTokens.is_current a r ≡ true
  unfolding OneTimeTokens.is_current version_is
  one_time_hit a b n r ha hb same h = ground arith

  -- If two copies of a one-time token have the same id and the same version, and the one is saved, then
  -- saving the other raises `ConcurrencyError`.
  pub one_time_save-conflicts :
      (a b : OneTimeToken) (n : ℕ) (w : World) {a' : OneTimeToken} {w' : World}
      → a.version ≡ some n
      → b.version ≡ some n
      → b.id ≡ a.id
      → OneTimeTokens.save a w ≡ (ok a', w')
      → (OneTimeTokens.save b w').0
        ≡ err (concurrency_error (codes "OneTimeToken version conflict"))
  unfolding OneTimeTokens.save
  one_time_save-conflicts a b n w {a'} {w'} ha hb same h =
      let (tables, admitted) =
        one_time_saved a n w (subst (λ o. OneTimeTokens.save_with a o w ≡ (ok a', w')) ha h) in
      let none_left =
        ap (λ (db : Database). count (OneTimeTokens.is_current b) db.one_time_tokens) tables
        ∙ count-update_where (OneTimeTokens.is_current a) (OneTimeTokens.is_current b)
            (OneTimeTokens.set_columns a (n + 1)) w.db.one_time_tokens
            (λ r. one_time_missed a b n r hb) (λ r. one_time_hit a b n r ha hb same) in
      ap (λ o. (OneTimeTokens.save_with b o w').0) hb ∙ one_time_stale b n w' none_left admitted
