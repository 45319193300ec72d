-- ===== src/Persistence/Lookups.antt =====
-- repositories/user.py: lookups under the constraints of the tables.
use hexagonal_auth_service.Base.{
  ℕ, ◌≤◌, ◌≡◌, ◌≢◌, refl, inl, inr, Bool, true, Bool-cases, Option, none, some, List, [], ◌∷◌, Text,
  text_eq, text_eq_iff, text_eq_refl, filter, count, ◌==◌, arith,
}
use mathlib.Core.Option
use hexagonal_auth_service.Exec.{ok}
use hexagonal_auth_service.Env.{Env}
use hexagonal_auth_service.Schema.{UserRow}
use hexagonal_auth_service.Schema.Constraints.{unique_by, users_valid, satisfies, IsEnforcing}
use hexagonal_auth_service.World.{World}
use hexagonal_auth_service.User.{User}
use hexagonal_auth_service.Persistence.Sql.{scalar_one_or_none}
use hexagonal_auth_service.Persistence.Tables.{filter-head}
use hexagonal_auth_service.Persistence.Users

-- nothing, or something of a kind
pub data Found {A : Type 0} (P : A → Type 0) : Option A → Type 0 where
  missing : Found P none
  hit : (a : A) → P a → Found P (some a)

module _ {R : Type 0} (same : R → R → Bool) (q : R → Bool) where
  -- what a query finds after a row is counted as the same
  count-found :
      (x s : R) (rest rows : List R)
      → ((a b : R) → q a ≡ true → q b ≡ true → same a b ≡ true)
      → q x ≡ true
      → filter q rows ≡ s ∷ rest
      → 1 ≤ count (same x) rows
  count-found x s rest [] one e h = cc
  count-found x s rest (y ∷ rows) one e h = elim (Bool-cases (q y)) [
    | inl passes ↦ ground (arith, one x y e passes)
    | inr missed ↦ ground (arith, count-found x s rest rows one e)
  ]

  -- a query for the value of a unique column does not find two rows
  pub unique-filter :
      (r s : R) (rest rows : List R)
      → ((a b : R) → q a ≡ true → q b ≡ true → same a b ≡ true)
      → unique_by same rows ≡ true
      → filter q rows ≢ r ∷ s ∷ rest
  unfolding unique_by
  unique-filter r s rest [] one u h = cc
  unique-filter r s rest (x ∷ rows) one u h = elim (Bool-cases (q x)) [
    | inl passes ↦ ground (arith, count-found x s rest rows one passes)
    | inr missed ↦ ground (arith, unique-filter r s rest rows one)
  ]

  -- so the query returns
  unique-scalar :
      (rows : List R)
      → ((a b : R) → q a ≡ true → q b ≡ true → same a b ≡ true)
      → unique_by same rows ≡ true
      → (o : Option R) × (scalar_one_or_none (filter q rows) ≡ ok o) × Found (λ r. q r ≡ true) o
  unfolding scalar_one_or_none
  unique-scalar rows one u = split (filter q rows) refl
    where
      split :
          (found : List R)
          → filter q rows ≡ found
          → (o : Option R) × (scalar_one_or_none found ≡ ok o) × Found (λ r. q r ≡ true) o
      split [] e = (none, refl, missing)
      split (r ∷ []) e = (some r, refl, hit r (filter-head q r [] rows e))
      split (r ∷ s ∷ rest) e = absurd (unique-filter r s rest rows one u e)

Found-map :
    {P : UserRow → Type 0} {Q : User → Type 0} (o : Option UserRow)
    → ((r : UserRow) → P r → Q (Users.orm2domain r))
    → Found P o
    → Found Q (Option.map Users.orm2domain o)
Found-map o f missing = missing
Found-map o f (hit r p) = hit (Users.orm2domain r) (f r p)

module _ ⦃env : Env⦄ where
  -- In tables that the database admits, if PostgreSQL enforces the constraints, a lookup of a user by the
  -- address or by the id returns, without a change, and finds no user or one with this address or id; so
  -- that it never raises `MultipleResultsFound`.
  pub user_lookups :
      IsEnforcing
      → (w : World) (email : Text) (id : ℕ) → env.admits w.db ≡ true
      → ((o : Option User) × (Users.get_by_email email w ≡ (ok o, w))
          × Found (λ u. u.email ≡ email) o)
        × ((o : Option User) × (Users.get_by_id id w ≡ (ok o, w)) × Found (λ u. u.id ≡ id) o)
  unfolding Users.get_by_email Users.get_by_id Users.orm2domain satisfies users_valid
  user_lookups law w email id admitted =
      let valid = law.enforced w.db admitted in
      let (found, e, f) =
        unique-scalar (λ (a b : UserRow). text_eq a.email b.email) (λ r. text_eq r.email email)
          w.db.users
          (λ a b h k.
            ground
              (arith, text_eq_iff a.email email, text_eq_iff b.email email, text_eq_refl b.email))
          (ground arith) in
      let (found', e', f') =
        unique-scalar (λ (a b : UserRow). a.id == b.id) (λ r. r.id == id) w.db.users
          (λ a b h k. ground arith) (ground arith) in
      (
        (
          Option.map Users.orm2domain found,
          rw e refl,
          Found-map found (λ r h. (text_eq_iff r.email email).0 h) f,
        ),
        (Option.map Users.orm2domain found', rw e' refl, Found-map found' (λ r h. ground arith) f'),
      )
