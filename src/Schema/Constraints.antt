-- ===== src/Schema/Constraints.antt =====
-- The constraints that the models declare: primary keys, the unique address, the foreign keys of the
-- tokens, and the sizes of the columns `String(255)` and `Integer`.
use hexagonal_auth_service.Base.{
  ℕ, ◌≡◌, Bool, true, ◌&&◌, List, [], ◌∷◌, Text, text_eq, length, count, leb, ltb, ◌==◌,
}
use hexagonal_auth_service.Env.{Env}
use hexagonal_auth_service.Schema.{UserRow, OneTimeTokenRow, RefreshTokenRow, Database}

module _ {ℓ} {R : Type ℓ} where
  -- every row passes the test
  unfoldable pub all_rows : (R → Bool) → List R → Bool
  all_rows p [] = true
  all_rows p (r ∷ rows) = p r && all_rows p rows

  -- `unique=True`, for a column with its comparison: no row has the value of a later one
  unfoldable pub unique_by : (R → R → Bool) → List R → Bool
  unique_by same [] = true
  unique_by same (r ∷ rows) = count (same r) rows == 0 && unique_by same rows

-- `String(255)`
unfoldable pub fits : Text → Bool
fits t = leb (length t) 255

-- `Integer()`, of 32 bits with a sign
unfoldable pub is_integer : ℕ → Bool
is_integer n = ltb n 2147483648

-- `ForeignKey("users.id")`
unfoldable pub refers : List UserRow → ℕ → Bool
refers users user_id = ltb 0 (count (λ u. u.id == user_id) users)

unfoldable pub users_valid : List UserRow → Bool
unfolding all_rows unique_by fits is_integer
users_valid users =
    unique_by (λ a b. a.id == b.id) users
    && unique_by (λ a b. text_eq a.email b.email) users
    && all_rows (λ u. fits u.email && fits u.password_hash && is_integer u.version) users

unfoldable pub one_time_tokens_valid : List UserRow → List OneTimeTokenRow → Bool
unfolding all_rows unique_by fits is_integer refers
one_time_tokens_valid users rows =
    unique_by (λ a b. a.id == b.id) rows
    && all_rows
        (λ r. refers users r.user_id && fits r.token_hash && fits r.purpose && is_integer r.version)
        rows

unfoldable pub refresh_tokens_valid : List UserRow → List RefreshTokenRow → Bool
unfolding all_rows unique_by fits is_integer refers
refresh_tokens_valid users rows =
    unique_by (λ a b. a.id == b.id) rows
    && all_rows (λ r. refers users r.user_id && fits r.token_hash && is_integer r.version) rows

unfoldable pub satisfies : Database → Bool
unfolding users_valid one_time_tokens_valid refresh_tokens_valid
satisfies db =
    users_valid db.users
    && one_time_tokens_valid db.users db.one_time_tokens
    && refresh_tokens_valid db.users db.refresh_tokens

-- What PostgreSQL documents of constraints: it accepts no tables that violate one.
pub record IsEnforcing ⦃env : Env⦄ : Type 0 where
  pub enforced : (db : Database) → env.admits db ≡ true → satisfies db ≡ true
