-- ===== src/Persistence/OneTimeTokens.antt =====
-- repositories/one_time_token.py
use hexagonal_auth_service.Base.{
  ℕ, ◌+◌, Bool, ◌&&◌, not, Option, none, some, [], ◌∷◌, ◌++◌, Text, codes, text_eq, filter, count,
  ◌==◌, if◌then◌else◌,
}
use hexagonal_auth_service.Errors.{concurrency_error, value_error}
use hexagonal_auth_service.Exec.{Exec, Result, ok, err, pure, lift, gets, raise_if, ◌>>=◌, ◌>>◌}
use hexagonal_auth_service.Env.{Env}
use hexagonal_auth_service.Schema.{OneTimeTokenRow}
use hexagonal_auth_service.World.{World}
use hexagonal_auth_service.Utils.{hash_token}
use hexagonal_auth_service.OneTimeToken.{
  OneTimeToken, OneTimeTokenPurpose, verify_email, recover_password,
}
use hexagonal_auth_service.Persistence.Sql.{
  scalar_one_or_none, update_where, delete_where, version_is, write,
}
use hexagonal_auth_service.Persistence.Users.{version_or_zero}

-- `purpose.value`
unfoldable pub purpose_value : OneTimeTokenPurpose → Text
purpose_value verify_email = codes "verify_email"
purpose_value recover_password = codes "recover_password"

-- `OneTimeTokenPurpose(text)`
unfoldable pub parse_purpose : Text → Result OneTimeTokenPurpose
unfolding purpose_value
parse_purpose t =
    if text_eq t (purpose_value verify_email)
    then ok verify_email
    else if text_eq t (purpose_value recover_password)
    then ok recover_password
    else err value_error

unfoldable pub with_purpose : OneTimeTokenRow → OneTimeTokenPurpose → OneTimeToken
with_purpose token purpose = record {
  id = token.id;
  user_id = token.user_id;
  token_hash = token.token_hash;
  expires_at = token.expires_at;
  purpose = purpose;
  used = token.used;
  version = some token.version;
}

unfoldable pub orm2domain : OneTimeTokenRow → Exec World OneTimeToken
unfolding parse_purpose with_purpose
orm2domain token = do
  purpose ← lift (parse_purpose token.purpose)
  pure (with_purpose token purpose)

unfoldable pub domain2orm : OneTimeToken → OneTimeTokenRow
unfolding version_or_zero purpose_value
domain2orm token = record {
  id = token.id;
  token_hash = token.token_hash;
  user_id = token.user_id;
  expires_at = token.expires_at;
  version = version_or_zero token.version;
  used = token.used;
  purpose = purpose_value token.purpose;
}

-- `if orm_token: return orm2domain(orm_token)`
unfoldable pub to_domain : Option OneTimeTokenRow → Exec World (Option OneTimeToken)
unfolding orm2domain
to_domain none = pure none
to_domain (some r) = do token ← orm2domain r; pure (some token)

unfoldable pub is_current : OneTimeToken → OneTimeTokenRow → Bool
unfolding version_is
is_current token r = r.id == token.id && version_is token.version r.version

-- the columns that the UPDATE sets; the purpose is not among them
unfoldable pub set_columns : OneTimeToken → ℕ → OneTimeTokenRow → OneTimeTokenRow
set_columns token version r = record r {
  token_hash = token.token_hash;
  user_id = token.user_id;
  expires_at = token.expires_at;
  used = token.used;
  version = version;
}

module _ ⦃env : Env⦄ where
  unfoldable pub get_by_string : Text → Exec World (Option OneTimeToken)
  unfolding scalar_one_or_none to_domain hash_token
  get_by_string token_string = do
    rows ←
        gets
          (λ w. filter (λ r. text_eq r.token_hash (hash_token token_string)) w.db.one_time_tokens)
    found ← lift (scalar_one_or_none rows)
    to_domain found

  unfoldable pub save_with : OneTimeToken → Option ℕ → Exec World OneTimeToken
  unfolding domain2orm is_current set_columns update_where write
  save_with token none = do
    db ← gets (λ w. w.db)
    write (record db {
      one_time_tokens = db.one_time_tokens ++ record (domain2orm token) { version = 1 } ∷ [];
    })
    pure (record token { version = some 1 })
  save_with token (some expected) = do
    db ← gets (λ w. w.db)
    write (record db {
      one_time_tokens =
          update_where (is_current token) (set_columns token (expected + 1)) db.one_time_tokens;
    })
    raise_if (not (count (is_current token) db.one_time_tokens == 1))
        (concurrency_error (codes "OneTimeToken version conflict"))
    pure (record token { version = some (expected + 1) })

  unfoldable pub save : OneTimeToken → Exec World OneTimeToken
  unfolding save_with
  save token = save_with token token.version

  unfoldable pub delete : OneTimeToken → Exec World (Unit {0})
  unfolding is_current delete_where write
  delete token = do
    db ← gets (λ w. w.db)
    write (record db { one_time_tokens = delete_where (is_current token) db.one_time_tokens })
    raise_if (not (count (is_current token) db.one_time_tokens == 1))
        (concurrency_error (codes "OneTimeToken version conflict on delete"))
