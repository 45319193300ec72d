-- ===== src/Cases/Rows.antt =====
-- What the use cases that answer a token sent by mail share: the rows they look for, their two
-- statements at the end, and the publication of the events of their block.
use hexagonal_auth_service.Base.{
  ℕ, ◌+◌, ◌≡◌, ◌≢◌, refl, sym, ap, subst, true, some, List, [], ◌∷◌, Text, text_eq, filter, count,
  ◌==◌, arith,
}
use hexagonal_auth_service.Errors.{Error}
use hexagonal_auth_service.Exec.{Exec, Result, ok, err, continue, pure, ◌>>=◌, ◌>>◌}
use hexagonal_auth_service.Env.{Env}
use hexagonal_auth_service.Events.{Event}
use hexagonal_auth_service.Utils.{hash_token}
use hexagonal_auth_service.Schema.{UserRow, OneTimeTokenRow}
use hexagonal_auth_service.World.{World, transaction, finish}
use hexagonal_auth_service.User
use hexagonal_auth_service.OneTimeToken
use hexagonal_auth_service.OneTimeToken.{OneTimeTokenPurpose}
use hexagonal_auth_service.Persistence.Sql.{update_where, version_is, write}
use hexagonal_auth_service.Persistence.Tables.{filter-update_where, filter-head}
use hexagonal_auth_service.Persistence.Users
use hexagonal_auth_service.Persistence.OneTimeTokens
use hexagonal_auth_service.EventBus.Publisher.{publish}
use hexagonal_auth_service.EventBus.Publisher.Routing.{db-route_all}

-- a query that finds neither no row nor several finds one
pub one-row :
    {R : Type 0} (rows : List R)
    → rows ≢ []
    → ((r q : R) (rest : List R) → rows ≢ r ∷ q ∷ rest)
    → (r : R) × (rows ≡ r ∷ [])
one-row [] found single = absurd (found refl)
one-row (r ∷ []) found single = (r, refl)
one-row (r ∷ q ∷ rest) found single = absurd (single r q rest refl)

module _ ⦃env : Env⦄ where
  -- the rows with the hash of a token
  abbrev pub hits : Text → World → List OneTimeTokenRow
  hits t w = filter (λ r. text_eq r.token_hash (hash_token t)) w.db.one_time_tokens

  -- the token when it is saved
  abbrev pub used_token : OneTimeTokenPurpose → OneTimeTokenRow → OneTimeToken.OneTimeToken
  used_token p r = record (OneTimeTokens.with_purpose r p) { used = true }

  -- the rows with an id
  abbrev pub owners : ℕ → World → List UserRow
  owners id w = filter (λ r. r.id == id) w.db.users

  pub saves-ok :
      {A : Type 0} (u : User.User) (t : OneTimeToken.OneTimeToken) (n m : ℕ) (a : A) (w : World)
      {w' : World} {b : A}
      → (do Users.save_with u (some n); OneTimeTokens.save_with t (some m); pure a) w ≡ (ok b, w')
      → (a ≡ b)
        × (count (Users.is_current u) w.db.users ≡ 1)
        × (count (OneTimeTokens.is_current t) w.db.one_time_tokens ≡ 1)
        × (w' ≡ record w {
          db = record w.db {
            users = update_where (Users.is_current u) (Users.set_columns u (n + 1)) w.db.users;
            one_time_tokens =
                update_where
                  (OneTimeTokens.is_current t)
                  (OneTimeTokens.set_columns t (m + 1))
                  w.db.one_time_tokens;
          };
        })
  unfolding Users.save_with OneTimeTokens.save_with write
  saves-ok u t n m a w h = (ground arith, ground arith, ground arith, ground arith)

  -- the hash of a token that was saved as used finds its used row, and nothing else
  pub hits-used :
      (t : Text) (p : OneTimeTokenPurpose) (r : OneTimeTokenRow) (w : World)
      → hits t w ≡ r ∷ []
      → count (OneTimeTokens.is_current (used_token p r)) w.db.one_time_tokens ≡ 1
      → filter
          (λ x. text_eq x.token_hash (hash_token t))
          (update_where
            (OneTimeTokens.is_current (used_token p r))
            (OneTimeTokens.set_columns (used_token p r) (r.version + 1))
            w.db.one_time_tokens)
        ≡ OneTimeTokens.set_columns (used_token p r) (r.version + 1) r ∷ []
  unfolding OneTimeTokens.is_current OneTimeTokens.set_columns OneTimeTokens.with_purpose
  hits-used t p r w e alone =
      filter-update_where (OneTimeTokens.is_current (used_token p r))
        (λ x. text_eq x.token_hash (hash_token t))
        (OneTimeTokens.set_columns (used_token p r) (r.version + 1)) r w.db.one_time_tokens e
        (ground arith) alone
        (filter-head (λ x. text_eq x.token_hash (hash_token t)) r [] w.db.one_time_tokens e)

  -- a block that never returns is a case that raises
  pub publishes-refused :
      (body : Exec World (List Event)) (w : World)
      → ((events : List Event) (v : World) → body w ≢ (ok events, v))
      → (e : Error) × (((do events ← transaction body; publish events) w).0 ≡ err e)
  unfolding transaction
  publishes-refused body w never = split (body w) never
    where
      split :
          (r : Result (List Event) × World)
          → ((events : List Event) (v : World) → r ≢ (ok events, v))
          → (e : Error) × ((continue (finish w.db r) publish).0 ≡ err e)
      split (ok events, v) k = absurd (k events v refl)
      split (err e, v) k = (e, refl)

  -- a case that returns has published the events of its block
  pub publishes-ok :
      (body : Exec World (List Event)) (w : World) {w' : World}
      → (do events ← transaction body; publish events) w ≡ (ok tt, w')
      → (events : List Event) × (v : World) × (body w ≡ (ok events, v))
        × (w' ≡ (publish events v).1)
  unfolding transaction publish
  publishes-ok body w h = split (body w) h
    where
      split :
          {w' : World} (r : Result (List Event) × World)
          → continue (finish w.db r) publish ≡ (ok tt, w')
          → (events : List Event) × (v : World) × (r ≡ (ok events, v)) × (w' ≡ (publish events v).1)
      split (ok events, v) k =
          (events, v, refl, sym (ap (λ (s : Result (Unit {0}) × World). s.1) k))
      split (err e, v) k = cc

  -- publishing leaves the tables
  pub db-publish : (events : List Event) (v : World) → (publish events v).1.db ≡ v.db
  unfolding publish
  db-publish events v = db-route_all events v

  -- a block that raises is a case that raises the same
  pub publishes-err :
      (body : Exec World (List Event)) (w : World) (c : Error)
      → (body w).0 ≡ err c
      → ((do events ← transaction body; publish events) w).0 ≡ err c
  unfolding transaction
  publishes-err body w c h = split (body w) h
    where
      split :
          (r : Result (List Event) × World)
          → r.0 ≡ err c
          → (continue (finish w.db r) publish).0 ≡ err c
      split (ok events, v) k = cc
      split (err e, v) k = cc

  -- a block that returns is a case that returns
  pub publishes-run :
      (body : Exec World (List Event)) (w : World) (events : List Event) (v : World)
      → body w ≡ (ok events, v)
      → (do es ← transaction body; publish es) w ≡ (ok tt, (publish events v).1)
  unfolding transaction publish
  publishes-run body w events v h =
      ap (λ (r : Result (List Event) × World). continue (finish w.db r) publish) h

  -- the two saves at the end of a block, where each hits its row and the tables are admitted
  pub saves-run :
      {A : Type 0} (u : User.User) (t : OneTimeToken.OneTimeToken) (n m : ℕ) (a : A) (w : World)
      (users : List UserRow) (tokens : List OneTimeTokenRow)
      → count (Users.is_current u) w.db.users ≡ 1
      → count (OneTimeTokens.is_current t) w.db.one_time_tokens ≡ 1
      → update_where (Users.is_current u) (Users.set_columns u (n + 1)) w.db.users ≡ users
      → update_where
          (OneTimeTokens.is_current t)
          (OneTimeTokens.set_columns t (m + 1))
          w.db.one_time_tokens
        ≡ tokens
      → env.admits (record w.db { users = users }) ≡ true
      → env.admits (record w.db { users = users; one_time_tokens = tokens }) ≡ true
      → (do Users.save_with u (some n); OneTimeTokens.save_with t (some m); pure a) w
        ≡ (ok a, record w { db = record w.db { users = users; one_time_tokens = tokens } })
  unfolding Users.save_with OneTimeTokens.save_with write
  saves-run u t n m a w users tokens one one' e e' ok₁ ok₂ =
      rw (e, ok₁) (rw one (rw (e', ok₂) (rw one' refl)))

  -- the one row of a user, after the save of the user
  pub owners-saved :
      (v : User.User) (u : UserRow) (id : ℕ) (w : World)
      → v.id ≡ u.id
      → v.version ≡ some u.version
      → owners id w ≡ u ∷ []
      → count (Users.is_current v) w.db.users ≡ 1
      → filter
          (λ r. r.id == u.id)
          (update_where (Users.is_current v) (Users.set_columns v (u.version + 1)) w.db.users)
        ≡ Users.set_columns v (u.version + 1) u ∷ []
  unfolding Users.is_current Users.set_columns version_is
  owners-saved v u id w same_id same_version e alone =
      let same : u.id ≡ id =
        ground (arith, filter-head (λ (r : UserRow). r.id == id) u [] w.db.users e) in
      filter-update_where (Users.is_current v) (λ r. r.id == u.id)
        (Users.set_columns v (u.version + 1)) u w.db.users
        (subst (λ k. filter (λ (r : UserRow). r.id == k) w.db.users ≡ u ∷ []) (sym same) e)
        (ground arith) alone (ground arith)
