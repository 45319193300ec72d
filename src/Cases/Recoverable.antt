-- ===== src/Cases/Recoverable.antt =====
-- cases/user/password_recover_request.py and password_recover.py: a request for a recovery, and the
-- recovery with the string that it sent.
use hexagonal_auth_service.Base.{
  ℕ, suc, ◌+◌, ◌≤◌, ◌≡◌, refl, sym, ap, subst, subst₂, ◌∙◌, true, some, List, [], ◌∷◌, Text, codes,
  text_eq, text_eq_refl, filter, leb, ◌==◌, arith, strip, length,
}
use hexagonal_auth_service.Exec.{ok}
use hexagonal_auth_service.Env.{Env}
use hexagonal_auth_service.Events.{Payload, Event}
use hexagonal_auth_service.Utils.{hash_token}
use hexagonal_auth_service.Schema.{UserRow, OneTimeTokenRow}
use hexagonal_auth_service.World.{World}
use hexagonal_auth_service.OneTimeToken
use hexagonal_auth_service.Persistence.Sql.{update_where, version_is}
use hexagonal_auth_service.Persistence.Tables.{filter-last, filter-update_where, count-one}
use hexagonal_auth_service.Persistence.Users
use hexagonal_auth_service.Persistence.OneTimeTokens
use hexagonal_auth_service.EventBus.Publisher.{publish}
use hexagonal_auth_service.Cases.Inputs.{PasswordRecoverInputDto}
use hexagonal_auth_service.Cases.Rows.{hits, owners, used_token, saves-run, publishes-run}
use hexagonal_auth_service.Cases.Renewed.{renewed, hashes-stripped}
use hexagonal_auth_service.Cases.Sent.{IsSent}
use hexagonal_auth_service.Cases.Recover.{recover_password, execute}
use hexagonal_auth_service.Cases.Recover.Success.{recovered_event, recover-saves}
use hexagonal_auth_service.Cases.Recover.Grant.{IsRecovery, execute-IsRecovery}

module _ ⦃env : Env⦄ where
  module _ {email : Text} {exp : ℕ} {payload : ℕ → Text → Text → Payload} {w w' : World} (v : World)
      (s : IsSent email true OneTimeToken.recover_password exp payload w w')
      (one_user : owners s.user.id w ≡ s.user ∷ [])
      (fresh_token : filter (λ (r : OneTimeTokenRow). r.id == s.token.id) w.db.one_time_tokens ≡ [])
      (fresh_hash : hits s.string w ≡ []) (same : v.db ≡ w'.db)
      (alive : leb (env.clock (suc (suc v.calls))) s.token.expires_at ≡ true) where
    hits-token : hits s.string v ≡ s.token ∷ []
    hits-token =
        rw (same, s.tables)
          (filter-last _ s.token w.db.one_time_tokens fresh_hash
            (rw s.token_hash (text_eq_refl (hash_token s.string))))

    abbrev asker : UserRow
    asker = record s.user { version = s.user.version + 1 }

    owners-asker : owners s.token.user_id v ≡ asker ∷ []
    unfolding Users.is_current Users.orm2domain version_is
    owners-asker =
        rw (same, s.tables, s.owned)
          (filter-update_where (Users.is_current (Users.orm2domain s.user)) (λ r. r.id == s.user.id)
            (λ r. record s.user { id = r.id; version = s.user.version + 1 }) s.user w.db.users
            one_user (ground arith) s.alone (ground arith))

    purpose-parsed : OneTimeTokens.parse_purpose s.token.purpose ≡ ok OneTimeToken.recover_password
    unfolding OneTimeTokens.parse_purpose OneTimeTokens.purpose_value text_eq codes
    purpose-parsed = rw (s.usable.1) refl

    module _ (i : PasswordRecoverInputDto) (h : Text) (token : i.password_recover_token ≡ s.string)
        (long : 8 ≤ length (strip i.password)) (short : length (strip i.password) ≤ 255)
        (hashed : env.hashpw (strip i.password) (env.gensalt v.calls) ≡ some h) where
      -- the tables after the recovery
      abbrev after_users : List UserRow
      after_users =
          update_where (Users.is_current (renewed asker h))
            (Users.set_columns (renewed asker h) (asker.version + 1)) v.db.users

      abbrev after_tokens : List OneTimeTokenRow
      after_tokens =
          update_where (OneTimeTokens.is_current (used_token OneTimeToken.recover_password s.token))
            (OneTimeTokens.set_columns (used_token OneTimeToken.recover_password s.token)
              (s.token.version + 1))
            v.db.one_time_tokens

      -- the block of the recovery
      recovered-block :
          env.admits (record v.db { users = after_users }) ≡ true
          → env.admits (record v.db { users = after_users; one_time_tokens = after_tokens }) ≡ true
          → (es : List Event) × (u : World) × (recover_password i v ≡ (ok es, u))
      unfolding Users.save OneTimeTokens.save Users.orm2domain OneTimeTokens.with_purpose
          Users.is_current OneTimeTokens.is_current version_is
      recovered-block ok₁ ok₂ = (
        _,
        _,
        recover-saves i v s.token asker h (rw token hits-token) owners-asker purpose-parsed
              s.usable.0 alive (hashes-stripped i.password v.calls h long short hashed)
            ∙ saves-run (renewed asker h) (used_token OneTimeToken.recover_password s.token)
                asker.version s.token.version (recovered_event asker v.calls ∷ [])
                (record v { calls = suc (suc (suc v.calls)) }) after_users after_tokens
                (count-one _ (λ r. r.id == s.token.user_id) asker v.db.users
                  (λ r k. ground (arith, s.owned)) owners-asker (ground arith))
                (count-one _ (λ r. r.id == s.token.id) s.token v.db.one_time_tokens
                  (λ r k. ground arith)
                  (rw (same, s.tables)
                    (filter-last _ s.token w.db.one_time_tokens fresh_token (ground arith)))
                  (ground arith))
                refl refl ok₁ ok₂,
      )

      -- what such a recovery has stored
      stored :
          {v' : World}
          → IsRecovery i v v'
          → (owners s.user.id v'
              ≡ record s.user { password_hash = h; version = s.user.version + 2 } ∷ [])
            × (hits s.string v'
                ≡ record s.token { used = true; version = s.token.version + 1 } ∷ [])
      stored {v'} a =
          let row : a.token ≡ s.token =
            let e : a.token ∷ [] ≡ s.token ∷ [] = sym a.found ∙ rw token hits-token in cc in
          let user : a.user ≡ asker =
            let e : a.user ∷ [] ≡ asker ∷ [] = sym a.owner ∙ rw row owners-asker in cc in
          let hash : a.hash ≡ h = let e : some a.hash ≡ some h = sym a.hashed ∙ hashed in cc in
          (
            subst₂
                  (λ (x : UserRow) k.
                    owners x.id v' ≡ record x { password_hash = k; version = x.version + 1 } ∷ [])
                  user hash a.stored
                ∙ ap (λ k. record s.user { password_hash = h; version = k } ∷ []) (omega arith),
            subst
                (λ (x : OneTimeTokenRow).
                  hits s.string v' ≡ record x { used = true; version = x.version + 1 } ∷ [])
                row (rw (← token) a.spent),
          )

      -- The string that a request for recovering a password sends to a verified user recovers it: a
      -- recovery with it, on the tables that the request left and before the token expires, with a
      -- password of 8 to 255 characters that bcrypt hashes, returns, leaves the user with this hash and
      -- the token used. The user is the only one with its id, the id of the token and the hash of the
      -- string are new in the tables, and the database accepts the two updates.
      pub request_recoverable :
          env.admits (record v.db { users = after_users }) ≡ true
          → env.admits (record v.db { users = after_users; one_time_tokens = after_tokens }) ≡ true
          → (v' : World) × (execute i v ≡ (ok tt, v'))
            × (owners s.user.id v'
                ≡ record s.user { password_hash = h; version = s.user.version + 2 } ∷ [])
            × (hits s.string v'
                ≡ record s.token { used = true; version = s.token.version + 1 } ∷ [])
      unfolding execute
      request_recoverable ok₁ ok₂ =
          let (es, u, inner) = recovered-block ok₁ ok₂ in
          let run = publishes-run (recover_password i) v es u inner in
          let (row, used) = stored (execute-IsRecovery i v run) in
          ((publish es u).1, run, row, used)
