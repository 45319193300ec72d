-- ===== src/Persistence/RefreshTokens.antt =====
-- repositories/refresh_token.py. The table has no columns for the client's address, agent and location.
use hexagonal_auth_service.Base.{
  ℕ, ◌+◌, Bool, ◌&&◌, not, Option, none, some, List, [], ◌∷◌, ◌++◌, map, Text, codes, text_eq,
  filter, count, ◌==◌,
}
use mathlib.Core.Option
use hexagonal_auth_service.Errors.{concurrency_error}
use hexagonal_auth_service.Exec.{Exec, pure, lift, gets, raise_if, ◌>>=◌, ◌>>◌}
use hexagonal_auth_service.Env.{Env}
use hexagonal_auth_service.Schema.{RefreshTokenRow}
use hexagonal_auth_service.World.{World}
use hexagonal_auth_service.Utils.{hash_token}
use hexagonal_auth_service.RefreshToken.{RefreshToken}
use hexagonal_auth_service.Persistence.Sql.{
  scalar_one_or_none, update_where, delete_where, version_is, write,
}
use hexagonal_auth_service.Persistence.Users.{version_or_zero}

unfoldable pub orm2domain : RefreshTokenRow → RefreshToken
orm2domain token = record {
  id = token.id;
  user_id = token.user_id;
  token_hash = token.token_hash;
  expires_at = token.expires_at;
  created_at = token.created_at;
  revoked_at = token.revoked_at;
  replaced_by_id = token.replaced_by_id;
  location = none;
  client_ip = none;
  user_agent = none;
  events = [];
  version = some token.version;
}

unfoldable pub domain2orm : RefreshToken → RefreshTokenRow
unfolding version_or_zero
domain2orm token = record {
  id = token.id;
  token_hash = token.token_hash;
  user_id = token.user_id;
  expires_at = token.expires_at;
  version = version_or_zero token.version;
  revoked_at = token.revoked_at;
  replaced_by_id = token.replaced_by_id;
  created_at = token.created_at;
}

unfoldable pub get_all_by_user : ℕ → Exec World (List RefreshToken)
unfolding orm2domain
get_all_by_user user_id = do
  rows ← gets (λ w. filter (λ r. r.user_id == user_id) w.db.refresh_tokens)
  pure (map orm2domain rows)

unfoldable pub is_current : RefreshToken → RefreshTokenRow → Bool
unfolding version_is
is_current token r = r.id == token.id && version_is token.version r.version

-- the columns that the UPDATE sets
unfoldable pub set_columns : RefreshToken → ℕ → RefreshTokenRow → RefreshTokenRow
set_columns token version r = record r {
  user_id = token.user_id;
  token_hash = token.token_hash;
  expires_at = token.expires_at;
  revoked_at = token.revoked_at;
  replaced_by_id = token.replaced_by_id;
  created_at = token.created_at;
  version = version;
}

module _ ⦃env : Env⦄ where
  unfoldable pub get_by_string : Text → Exec World (Option RefreshToken)
  unfolding scalar_one_or_none orm2domain hash_token
  get_by_string token_string = do
    rows ←
        gets (λ w. filter (λ r. text_eq r.token_hash (hash_token token_string)) w.db.refresh_tokens)
    found ← lift (scalar_one_or_none rows)
    pure (Option.map orm2domain found)

  unfoldable pub save_with : RefreshToken → Option ℕ → Exec World RefreshToken
  unfolding domain2orm is_current set_columns update_where write
  save_with token none = do
    db ← gets (λ w. w.db)
    write (record db {
      refresh_tokens = db.refresh_tokens ++ record (domain2orm token) { version = 1 } ∷ [];
    })
    pure (record token { version = some 1 })
  save_with token (some expected) = do
    db ← gets (λ w. w.db)
    write (record db {
      refresh_tokens =
          update_where (is_current token) (set_columns token (expected + 1)) db.refresh_tokens;
    })
    raise_if (not (count (is_current token) db.refresh_tokens == 1))
        (concurrency_error (codes "RefreshToken version conflict"))
    pure (record token { version = some (expected + 1) })

  unfoldable pub save : RefreshToken → Exec World RefreshToken
  unfolding save_with
  save token = save_with token token.version

  unfoldable pub delete : RefreshToken → Exec World (Unit {0})
  unfolding is_current delete_where write
  delete token = do
    db ← gets (λ w. w.db)
    write (record db { refresh_tokens = delete_where (is_current token) db.refresh_tokens })
    raise_if (not (count (is_current token) db.refresh_tokens == 1))
        (concurrency_error (codes "RefreshToken version conflict on delete"))
