-- ===== src/Persistence/RoundTrip.antt =====
-- repositories/user.py: a user that was saved is found again.
use hexagonal_auth_service.Base.{
  ℕ, ◌+◌, ◌≡◌, ◌≢◌, refl, ap, subst, Bool, true, Bool-cases, inl, inr, Option-cases, none, some,
  List, [], ◌∷◌, ◌++◌, text_eq, text_eq_iff, text_eq_refl, filter, count, ◌==◌, ==_iff, arith,
}
use hexagonal_auth_service.Exec.{ok}
use hexagonal_auth_service.Env.{Env}
use hexagonal_auth_service.Schema.{UserRow}
use hexagonal_auth_service.Schema.Constraints.{users_valid, satisfies, IsEnforcing}
use hexagonal_auth_service.World.{World}
use hexagonal_auth_service.User.{User}
use hexagonal_auth_service.Persistence.Sql.{scalar_one_or_none, update_where, write}
use hexagonal_auth_service.Persistence.Lookups.{unique-filter}
use hexagonal_auth_service.Persistence.Users
use hexagonal_auth_service.Persistence.Race.Tables.{user_inserted, user_updated}

module _ {R : Type 0} (q : R → Bool) (v : R) (passes : q v ≡ true) where
  appended-found : (rows : List R) → filter q (rows ++ v ∷ []) ≢ []
  appended-found [] h = ground arith
  appended-found (x ∷ rows) h = ground (arith, appended-found rows)

  -- after an INSERT a query that finds one row and the new one finds the new one
  appended-only : (rows : List R) {r : R} → filter q (rows ++ v ∷ []) ≡ r ∷ [] → r ≡ v
  appended-only [] h = ground arith
  appended-only (x ∷ rows) {r} h = elim (Bool-cases (q x)) [
    | inl hit ↦ absurd (appended-found rows (ground arith))
    | inr missed ↦ appended-only rows {r = r} (ground arith)
  ]

  module _ (p : R → Bool) (f : R → R) (changed : (x : R) → p x ≡ true → f x ≡ v) where
    updated-found : (rows : List R) → count p rows ≢ 0 → filter q (update_where p f rows) ≢ []
    unfolding update_where
    updated-found [] some_row h = some_row refl
    updated-found (x ∷ rows) some_row h = elim (Bool-cases (p x)) [
      | inl hit ↦ let e = changed x hit in ground arith
      | inr missed ↦ ground (arith, updated-found rows)
    ]

    -- so does a query after an UPDATE
    updated-only :
        (rows : List R) {r : R}
        → count p rows ≢ 0
        → filter q (update_where p f rows) ≡ r ∷ []
        → r ≡ v
    unfolding update_where
    updated-only [] some_row h = absurd (some_row refl)
    updated-only (x ∷ rows) {r} some_row h = elim (Bool-cases (p x)) [
      | inl hit ↦ let e = changed x hit in ground arith
      | inr missed ↦ elim (Bool-cases (q x)) [
        | inl kept ↦ absurd (updated-found rows (ground arith) (ground arith))
        | inr other ↦ updated-only rows {r = r} (ground arith) (ground arith)
      ]
    ]

-- a query that finds something and not two rows
only-one :
    {R : Type 0} (rows : List R) (v : R)
    → rows ≢ []
    → ((r s : R) (rest : List R) → rows ≢ r ∷ s ∷ rest)
    → ((r : R) → rows ≡ r ∷ [] → r ≡ v)
    → rows ≡ v ∷ []
only-one [] v found single same = absurd (found refl)
only-one (r ∷ []) v found single same = ap (λ x. x ∷ []) (same r refl)
only-one (r ∷ s ∷ rest) v found single same = absurd (single r s rest refl)

-- the row of a user at a version
abbrev row_of : User → ℕ → UserRow
row_of u k = record {
  id = u.id;
  email = u.email;
  is_email_verified = u.is_email_verified;
  password_hash = u.password_hash;
  active = u.active;
  created_at = u.created_at;
  version = k;
}

set-row_of :
    (u : User) (k : ℕ) (r : UserRow)
    → Users.is_current u r ≡ true
    → Users.set_columns u k r ≡ row_of u k
unfolding Users.is_current Users.set_columns
set-row_of u k r h = ground arith

module _ ⦃env : Env⦄ where
  inserted-user :
      (u u' : User) (w w' : World)
      → Users.save_with u none w ≡ (ok u', w')
      → u' ≡ record u { version = some 1 }
  unfolding Users.save_with write
  inserted-user u u' w w' h = ground arith

  updated-user :
      (u u' : User) (n : ℕ) (w w' : World)
      → Users.save_with u (some n) w ≡ (ok u', w')
      → u' ≡ record u { version = some (n + 1) }
  unfolding Users.save_with write
  updated-user u u' n w w' h = ground arith

  -- What a save leaves: a query that the saved row passes finds something, and if it finds one row,
  -- then this.
  record Leaves (u u' : User) (w' : World) : Type 0 where
    at : ℕ
    result : u' ≡ record u { version = some at }
    admitted : env.admits w'.db ≡ true
    found : (q : UserRow → Bool) → q (row_of u at) ≡ true → filter q w'.db.users ≢ []
    only :
        (q : UserRow → Bool) (r : UserRow)
        → q (row_of u at) ≡ true
        → filter q w'.db.users ≡ r ∷ []
        → r ≡ row_of u at

  save-Leaves : (u u' : User) (w w' : World) → Users.save u w ≡ (ok u', w') → Leaves u u' w'
  unfolding Users.save Users.domain2orm
  save-Leaves u u' w w' h = elim (Option-cases u.version) [
    | inl new ↦
        let h' = subst (λ o. Users.save_with u o w ≡ (ok u', w')) new h in
        let (rows, admitted) = user_inserted u u' w w' h' in
        record {
          at = 1;
          result = inserted-user u u' w w' h';
          admitted = admitted;
          found = λ q e. rw rows (appended-found q (row_of u 1) e w.db.users);
          only = λ q r e k.
              appended-only q (row_of u 1) e w.db.users (subst (λ l. filter q l ≡ r ∷ []) rows k);
        }
    | inr (n, old) ↦
        let h' = subst (λ o. Users.save_with u o w ≡ (ok u', w')) old h in
        let (rows, admitted, one) = user_updated u u' n w w' h' in
        let some_row : count (Users.is_current u) w.db.users ≢ 0 = λ k. ground arith in
        record {
          at = n + 1;
          result = updated-user u u' n w w' h';
          admitted = admitted;
          found = λ q e. rw rows (
              updated-found q (row_of u (n + 1)) e (Users.is_current u)
                (Users.set_columns u (n + 1)) (set-row_of u (n + 1)) w.db.users some_row);
          only = λ q r e k.
              updated-only q (row_of u (n + 1)) e (Users.is_current u) (Users.set_columns u (n + 1))
                (set-row_of u (n + 1)) w.db.users some_row
                (subst (λ l. filter q l ≡ r ∷ []) rows k);
        }
  ]

  -- A user whose save returned, whether it was new or stored before, is found again by its id and by
  -- its address, if PostgreSQL enforces the constraints: each lookup returns it as the save did, with
  -- every field but the list of events, which is empty, and changes nothing.
  pub get-save :
      IsEnforcing
      → (u u' : User) (w w' : World) → Users.save u w ≡ (ok u', w')
      → (Users.get_by_id u.id w' ≡ (ok (some (record u' { events = [] })), w'))
        × (Users.get_by_email u.email w' ≡ (ok (some (record u' { events = [] })), w'))
  unfolding Users.get_by_id Users.get_by_email Users.orm2domain satisfies users_valid
  get-save law u u' w w' h =
      let s = save-Leaves u u' w w' h in
      let valid = law.enforced w'.db s.admitted in
      let by_id =
        only-one (filter (λ r. r.id == u.id) w'.db.users) (row_of u s.at)
          (s.found (λ r. r.id == u.id) ((==_iff u.id u.id).1 refl))
          (λ r q rest.
            unique-filter (λ (a b : UserRow). a.id == b.id) (λ r. r.id == u.id) r q rest w'.db.users
              (λ a b h k. ground arith) (ground arith))
          (λ r. s.only (λ r. r.id == u.id) r ((==_iff u.id u.id).1 refl)) in
      let by_email =
        only-one (filter (λ r. text_eq r.email u.email) w'.db.users) (row_of u s.at)
          (s.found (λ r. text_eq r.email u.email) (text_eq_refl u.email))
          (λ r q rest.
            unique-filter (λ (a b : UserRow). text_eq a.email b.email)
              (λ r. text_eq r.email u.email) r q rest w'.db.users
              (λ a b h k. ground (
                arith,
                text_eq_iff a.email u.email,
                text_eq_iff b.email u.email,
                text_eq_refl b.email,
              ))
              (ground arith))
          (λ r. s.only (λ r. text_eq r.email u.email) r (text_eq_refl u.email)) in
      (
        rw (by_id, scalar_one_or_none) (rw s.result refl),
        rw (by_email, scalar_one_or_none) (rw s.result refl),
      )
