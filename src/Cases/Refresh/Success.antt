-- ===== src/Cases/Refresh/Success.antt =====
-- What a rotation that returns has done to the tables.
use hexagonal_auth_service.Base.{
  ℕ, zero, suc, ◌+◌, ◌≤◌, ◌≡◌, ◌≢◌, refl, sym, ap, ◌∙◌, Bool, false, ◌&&◌, none, some, List, [],
  ◌∷◌, ◌++◌, Text, codes, text_eq, filter, count, ◌==◌, ltb, arith,
}
use hexagonal_auth_service.Exec.{ok, pure, ◌>>◌}
use hexagonal_auth_service.Env.{Env}
use hexagonal_auth_service.Events.{Event, refresh_token_created, refresh_token_revoked}
use hexagonal_auth_service.Utils.{hash_token}
use hexagonal_auth_service.Schema.{RefreshTokenRow}
use hexagonal_auth_service.World.{World}
use hexagonal_auth_service.RefreshToken
use hexagonal_auth_service.RefreshToken.{RefreshToken}
use hexagonal_auth_service.Services.{rotate}
use hexagonal_auth_service.AccessToken.{issue}
use hexagonal_auth_service.Persistence.Sql.{scalar_one_or_none, update_where, write}
use hexagonal_auth_service.Persistence.RefreshTokens
use hexagonal_auth_service.Cases.Inputs.{RefreshTokenInputDto, TokenPairDto}
use hexagonal_auth_service.Cases.Refresh.{refresh}

-- the count of calls, some calls later
abbrev pub after : ℕ → ℕ → ℕ
after zero n = n
after (suc k) n = suc (after k n)

module _ ⦃env : Env⦄ where
  -- the rows with the hash of a token
  abbrev pub hits : Text → World → List RefreshTokenRow
  hits t w = filter (λ r. text_eq r.token_hash (hash_token t)) w.db.refresh_tokens

  -- `WHERE id = … AND version = …`, at the values of a row
  abbrev pub same_version : RefreshTokenRow → RefreshTokenRow → Bool
  same_version old r = r.id == old.id && r.version == old.version

  -- what the UPDATE of a used and replaced token writes into a row
  abbrev pub replaced : RefreshTokenRow → ℕ → ℕ → RefreshTokenRow → RefreshTokenRow
  replaced old time new_id r = record r {
    user_id = old.user_id;
    token_hash = old.token_hash;
    expires_at = old.expires_at;
    revoked_at = some time;
    replaced_by_id = some new_id;
    created_at = old.created_at;
    version = old.version + 1;
  }

  -- A rotation found the one row of its token, live; it replaced that row, and added another.
  pub record IsRotation (t : Text) (w : World) (pair : TokenPairDto) (w' : World) : Type 0 where
    pub old : RefreshTokenRow
    pub new : RefreshTokenRow
    pub time : ℕ
    pub found : hits t w ≡ old ∷ []
    pub unrevoked : old.revoked_at ≡ none
    pub unreplaced : old.replaced_by_id ≡ none
    pub unexpired : env.clock w.calls ≤ old.expires_at
    pub alone : count (same_version old) w.db.refresh_tokens ≡ 1
    pub tables : w'.db ≡ record w.db {
      refresh_tokens =
          update_where (same_version old) (replaced old time new.id) w.db.refresh_tokens
          ++ new ∷ [];
    }
    pub same_user : new.user_id ≡ old.user_id
    pub new_hash : new.token_hash ≡ hash_token pair.refresh_token
    pub access : (issue old.user_id env.access_token_exp (after 7 w.calls)).0 ≡ ok pair.access_token
    pub new_live : (new.revoked_at ≡ none) × (new.replaced_by_id ≡ none)
    pub new_created : new.created_at ≡ env.clock (after 4 w.calls)
    pub new_expires : new.expires_at ≡ new.created_at + env.refresh_token_exp

  -- the old token when it is saved; `n` calls came before the rotation
  abbrev used_token : RefreshTokenRow → ℕ → RefreshToken
  used_token r n = record (RefreshTokens.orm2domain r) {
    revoked_at = some (env.clock (after 1 n));
    replaced_by_id = some (env.uuid (after 5 n));
  }

  -- the new token when it is saved
  abbrev new_token : RefreshTokenRow → ℕ → RefreshToken
  new_token r n = record {
    id = env.uuid (after 5 n);
    user_id = r.user_id;
    token_hash = hash_token (env.token_urlsafe (after 3 n) env.refresh_token_len);
    expires_at = env.clock (after 4 n) + env.refresh_token_exp;
    created_at = env.clock (after 4 n);
    revoked_at = none;
    replaced_by_id = none;
    location = none;
    client_ip = none;
    user_agent = none;
    events = [];
    version = none;
  }

  abbrev new_pair : RefreshTokenRow → ℕ → TokenPairDto
  new_pair r n = record {
    access_token = env.encode (record {
      sub = env.uuid_text r.user_id;
      iat = env.clock (after 7 n);
      exp = env.clock (after 7 n) + env.access_token_exp;
      kind = codes "access";
    });
    refresh_token = env.token_urlsafe (after 3 n) env.refresh_token_len;
  }

  abbrev rotation_events : RefreshTokenRow → ℕ → List Event
  rotation_events r n =
      record { timestamp = env.clock (after 2 n); payload = refresh_token_revoked r.user_id r.id }
      ∷ record {
        timestamp = env.clock (after 6 n);
        payload = refresh_token_created r.user_id (env.uuid (after 5 n)) none none none;
      }
      ∷ []

  refresh-live :
      (i : RefreshTokenInputDto) (w : World) (r : RefreshTokenRow) {out : TokenPairDto × List Event}
      {w' : World}
      → hits i.refresh_token w ≡ r ∷ []
      → refresh i w ≡ (ok out, w')
      → (r.replaced_by_id ≡ none)
        × (r.revoked_at ≡ none)
        × (ltb r.expires_at (env.clock w.calls) ≡ false)
  unfolding refresh RefreshTokens.get_by_string RefreshToken.use_token
  refresh-live i w r e h = ground arith

  refresh-saves :
      (i : RefreshTokenInputDto) (w : World) (r : RefreshTokenRow)
      → hits i.refresh_token w ≡ r ∷ []
      → r.replaced_by_id ≡ none
      → r.revoked_at ≡ none
      → ltb r.expires_at (env.clock w.calls) ≡ false
      → refresh i w
        ≡ (do
          RefreshTokens.save (used_token r w.calls)
          RefreshTokens.save (new_token r w.calls)
          pure (new_pair r w.calls, rotation_events r w.calls))
            (record w { calls = after 8 w.calls })
  unfolding refresh RefreshTokens.get_by_string RefreshToken.use_token rotate RefreshToken.create
      RefreshToken.mark_as_replaced_by RefreshToken.pull_domain_events issue
  refresh-saves i w r e e₁ e₂ e₃ = rw (e, scalar_one_or_none) (rw (e₁, e₂, e₃) refl)

  -- Both saves went through: one row was current, and the tables are the updated ones.
  saves-ok :
      {A : Type 0} (t s : RefreshToken) (v : ℕ) (a : A) (w : World) {w' : World} {b : A}
      → (do RefreshTokens.save_with t (some v); RefreshTokens.save_with s none; pure a) w
        ≡ (ok b, w')
      → (a ≡ b)
        × (count (RefreshTokens.is_current t) w.db.refresh_tokens ≡ 1)
        × (w'.db ≡ record w.db {
          refresh_tokens =
              update_where
                (RefreshTokens.is_current t)
                (RefreshTokens.set_columns t (v + 1))
                w.db.refresh_tokens
              ++ record (RefreshTokens.domain2orm s) { version = 1 } ∷ [];
        })
  unfolding RefreshTokens.save_with write
  saves-ok t s v a w h = (ground arith, ground arith, ground arith)

  refresh-unfound :
      (i : RefreshTokenInputDto) (w : World) {out : TokenPairDto × List Event} {w' : World}
      → hits i.refresh_token w ≡ []
      → refresh i w ≢ (ok out, w')
  unfolding refresh RefreshTokens.get_by_string
  refresh-unfound i w e = ground arith

  refresh-ambiguous :
      (i : RefreshTokenInputDto) (w : World) (r q : RefreshTokenRow) (rows : List RefreshTokenRow)
      {out : TokenPairDto × List Event} {w' : World}
      → hits i.refresh_token w ≡ r ∷ q ∷ rows
      → refresh i w ≢ (ok out, w')
  unfolding refresh RefreshTokens.get_by_string
  refresh-ambiguous i w r q rows e = ground arith

  pub refresh-ok :
      (i : RefreshTokenInputDto) (w : World) {out : TokenPairDto × List Event} {w' : World}
      → refresh i w ≡ (ok out, w')
      → IsRotation i.refresh_token w out.0 w'
  unfolding RefreshTokens.save RefreshTokens.orm2domain RefreshTokens.is_current
      RefreshTokens.set_columns RefreshTokens.domain2orm issue
  refresh-ok i w {out} {w'} h = split (hits i.refresh_token w) refl
    where
      split :
          (rows : List RefreshTokenRow)
          → hits i.refresh_token w ≡ rows
          → IsRotation i.refresh_token w out.0 w'
      split [] e = absurd (refresh-unfound i w e h)
      split (r ∷ q ∷ rows) e = absurd (refresh-ambiguous i w r q rows e h)
      split (r ∷ []) e =
          let (unreplaced, unrevoked, unexpired) = refresh-live i w r e h in
          let (same, alone, tables) =
            saves-ok (used_token r w.calls) (new_token r w.calls) r.version
              (new_pair r w.calls, rotation_events r w.calls) (record w { calls = after 8 w.calls })
              (sym (refresh-saves i w r e unreplaced unrevoked unexpired) ∙ h) in
          record {
            old = r;
            new = record (RefreshTokens.domain2orm (new_token r w.calls)) { version = 1 };
            time = env.clock (after 1 w.calls);
            found = e;
            unrevoked = unrevoked;
            unreplaced = unreplaced;
            unexpired = ground arith;
            alone = alone;
            tables = tables;
            same_user = refl;
            new_hash = ap (λ (o : TokenPairDto × List Event). hash_token o.0.refresh_token) same;
            access = ap (λ (o : TokenPairDto × List Event). ok o.0.access_token) same;
            new_live = (refl, refl);
            new_created = refl;
            new_expires = refl;
          }
