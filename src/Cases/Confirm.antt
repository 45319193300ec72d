-- ===== src/Cases/Confirm.antt =====
-- cases/user/register.py and verify_email.py: a registration, and the verification with the string
-- that it sent.
use hexagonal_auth_service.Base.{
  suc, ◌+◌, ◌≡◌, refl, ap, ◌∙◌, true, List, [], ◌∷◌, ◌++◌, codes, text_eq, text_eq_refl, filter,
  count, leb, ◌==◌, arith,
}
use hexagonal_auth_service.Exec.{Result, ok}
use hexagonal_auth_service.Env.{Env}
use hexagonal_auth_service.Events.{Event}
use hexagonal_auth_service.Utils.{hash_token}
use hexagonal_auth_service.Schema.{UserRow, OneTimeTokenRow}
use hexagonal_auth_service.World.{World}
use hexagonal_auth_service.OneTimeToken
use hexagonal_auth_service.Persistence.Sql.{update_where, version_is}
use hexagonal_auth_service.Persistence.Tables.{count-unfound, update_where-last, filter-last}
use hexagonal_auth_service.Persistence.Users
use hexagonal_auth_service.Persistence.OneTimeTokens
use hexagonal_auth_service.Cases.Inputs.{RegisterUserInputDto}
use hexagonal_auth_service.Cases.Rows.{
  hits, owners, used_token, saves-run, publishes-run, db-publish,
}
use hexagonal_auth_service.Cases.Register.Grant.{IsRegistration}
use hexagonal_auth_service.Cases.VerifyEmail
use hexagonal_auth_service.Cases.VerifyEmail.{verify_user}
use hexagonal_auth_service.Cases.VerifyEmail.Success.{verify-saves}

module _ ⦃env : Env⦄ where
  -- the rows after the verification
  abbrev pub verified_row : UserRow → UserRow
  verified_row u = record u { is_email_verified = true; version = u.version + 1 }

  abbrev pub used_row : OneTimeTokenRow → OneTimeTokenRow
  used_row r = record r { used = true; version = r.version + 1 }

  -- the UPDATE of the last user, the only one with its id
  user-updated :
      (u : UserRow) (rows : List UserRow)
      → filter (λ r. r.id == u.id) rows ≡ []
      → let v = record (Users.orm2domain u) { is_email_verified = true } in
        (update_where (Users.is_current v) (Users.set_columns v (u.version + 1)) (rows ++ u ∷ [])
          ≡ rows ++ verified_row u ∷ [])
        × (count (Users.is_current v) (rows ++ u ∷ []) ≡ 1)
  unfolding Users.orm2domain Users.is_current Users.set_columns version_is
  user-updated u rows fresh =
      let v = record (Users.orm2domain u) { is_email_verified = true } in
      update_where-last (Users.is_current v) (Users.set_columns v (u.version + 1)) u rows
        (count-unfound (Users.is_current v) (λ r. r.id == u.id) rows (λ r h. ground arith) fresh)
        (ground arith)

  -- the UPDATE of the last token, the only one with its id
  token-updated :
      (t : OneTimeTokenRow) (rows : List OneTimeTokenRow)
      → filter (λ r. r.id == t.id) rows ≡ []
      → let v = used_token OneTimeToken.verify_email t in
        (update_where
            (OneTimeTokens.is_current v)
            (OneTimeTokens.set_columns v (t.version + 1))
            (rows ++ t ∷ [])
          ≡ rows ++ used_row t ∷ [])
        × (count (OneTimeTokens.is_current v) (rows ++ t ∷ []) ≡ 1)
  unfolding OneTimeTokens.with_purpose OneTimeTokens.is_current OneTimeTokens.set_columns version_is
  token-updated t rows fresh =
      let v = used_token OneTimeToken.verify_email t in
      update_where-last (OneTimeTokens.is_current v) (OneTimeTokens.set_columns v (t.version + 1)) t
        rows
        (count-unfound (OneTimeTokens.is_current v) (λ r. r.id == t.id) rows (λ r h. ground arith)
          fresh)
        (ground arith)

  module _ (i : RegisterUserInputDto) (w w' v : World) (a : IsRegistration i w w')
      (fresh_user : filter (λ (r : UserRow). r.id == a.user.id) w.db.users ≡ [])
      (fresh_token : filter (λ (r : OneTimeTokenRow). r.id == a.token.id) w.db.one_time_tokens ≡ [])
      (fresh_hash : hits a.string w ≡ []) (same : v.db ≡ w'.db)
      (alive : leb (env.clock v.calls) a.token.expires_at ≡ true) where
    hits-token : hits a.string v ≡ a.token ∷ []
    hits-token =
        rw (same, a.tables)
          (filter-last _ a.token w.db.one_time_tokens fresh_hash
            (rw a.token_hash (text_eq_refl (hash_token a.string))))

    owners-user : owners a.token.user_id v ≡ a.user ∷ []
    owners-user =
        rw (same, a.tables, a.owned) (filter-last _ a.user w.db.users fresh_user (ground arith))

    abbrev after_users : List UserRow
    after_users = w.db.users ++ verified_row a.user ∷ []

    abbrev after_tokens : List OneTimeTokenRow
    after_tokens = w.db.one_time_tokens ++ used_row a.token ∷ []

    purpose-parsed : OneTimeTokens.parse_purpose a.token.purpose ≡ ok OneTimeToken.verify_email
    unfolding OneTimeTokens.parse_purpose OneTimeTokens.purpose_value text_eq codes
    purpose-parsed = rw (a.usable.1) refl

    -- the block of the verification
    verified-block :
        env.admits (record v.db { users = after_users }) ≡ true
        → env.admits (record v.db { users = after_users; one_time_tokens = after_tokens }) ≡ true
        → (es : List Event) × (u : World) × (verify_user (record { one_time_token = a.string }) v
            ≡ (ok es, u))
          × (u.db ≡ record v.db { users = after_users; one_time_tokens = after_tokens })
    unfolding Users.save OneTimeTokens.save Users.orm2domain OneTimeTokens.with_purpose
    verified-block ok₁ ok₂ =
        let (users, one) = user-updated a.user w.db.users fresh_user in
        let (tokens, one') = token-updated a.token w.db.one_time_tokens fresh_token in
        let stored_users : v.db.users ≡ w.db.users ++ a.user ∷ [] = rw (same, a.tables) refl in
        let stored_tokens : v.db.one_time_tokens ≡ w.db.one_time_tokens ++ a.token ∷ [] =
          rw (same, a.tables) refl in
        (
          _,
          _,
          verify-saves (record { one_time_token = a.string }) v a.token a.user hits-token
                owners-user purpose-parsed a.usable.0 alive a.pending.1
              ∙ saves-run (record (Users.orm2domain a.user) { is_email_verified = true })
                  (used_token OneTimeToken.verify_email a.token) a.user.version a.token.version _
                  (record v { calls = suc (suc v.calls) }) after_users after_tokens
                  (rw stored_users one) (rw stored_tokens one') (rw stored_users users)
                  (rw stored_tokens tokens) ok₁ ok₂,
          refl,
        )

    -- The string that a registration of a new address sends verifies the address: a verification with
    -- it, on the same tables and before the token expires, returns, and leaves the user verified and the
    -- token used. The ids of the user and the token and the hash of the string are new in the tables, and
    -- the database accepts the two rows.
    pub registration_verifiable :
        env.admits (record v.db { users = after_users }) ≡ true
        → env.admits (record v.db { users = after_users; one_time_tokens = after_tokens }) ≡ true
        → ((VerifyEmail.execute (record { one_time_token = a.string }) v).0 ≡ ok tt)
          × ((VerifyEmail.execute (record { one_time_token = a.string }) v).1.db
              ≡ record v.db { users = after_users; one_time_tokens = after_tokens })
    unfolding VerifyEmail.execute
    registration_verifiable ok₁ ok₂ =
        let (es, u, inner, tables) = verified-block ok₁ ok₂ in
        let run = publishes-run (verify_user (record { one_time_token = a.string })) v es u inner in
        (
          ap (λ (r : Result (Unit {0}) × World). r.0) run,
          ap (λ (r : Result (Unit {0}) × World). r.1.db) run ∙ db-publish es u ∙ tables,
        )
