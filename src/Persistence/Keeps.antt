-- ===== src/Persistence/Keeps.antt =====
-- repositories: what their operations keep of the tables.
use hexagonal_auth_service.Base.{ℕ, Option, none, some, Text, inl, inr, Bool-cases}
use hexagonal_auth_service.Env.{Env}
use hexagonal_auth_service.Schema.{Database, OneTimeTokenRow}
use hexagonal_auth_service.World.{World}
use hexagonal_auth_service.World.Keeps.{Keeps, IsStable, keeps_rules}
use hexagonal_auth_service.User.{User}
use hexagonal_auth_service.OneTimeToken.{OneTimeToken}
use hexagonal_auth_service.RefreshToken.{RefreshToken}
use hexagonal_auth_service.Persistence.Sql.{write}
use hexagonal_auth_service.Persistence.Users
use hexagonal_auth_service.Persistence.OneTimeTokens
use hexagonal_auth_service.Persistence.RefreshTokens

module _ ⦃env : Env⦄ {P : World → Type 0} (stable : IsStable P) where
  Keeps-write : (db : Database) → Keeps P (write db)
  unfolding write
  Keeps-write db = record {
    at = λ w h. elim (Bool-cases (env.admits db)) [
      | inl accepted ↦ rw accepted (stable.at_db w db accepted h)
      | inr refused ↦ rw refused h
    ];
  }

  pub Keeps-get_by_email : (t : Text) → Keeps P (Users.get_by_email t)
  unfolding Users.get_by_email
  Keeps-get_by_email t = search keeps_rules

  pub Keeps-get_by_id : (n : ℕ) → Keeps P (Users.get_by_id n)
  unfolding Users.get_by_id
  Keeps-get_by_id n = search keeps_rules

  Keeps-save_user_with : (u : User) (v : Option ℕ) → Keeps P (Users.save_with u v)
  unfolding Users.save_with
  Keeps-save_user_with u none = search (keeps_rules, Keeps-write) depth 20
  Keeps-save_user_with u (some v) = search (keeps_rules, Keeps-write) depth 20

  pub Keeps-save_user : (u : User) → Keeps P (Users.save u)
  unfolding Users.save
  Keeps-save_user u = Keeps-save_user_with u u.version

  Keeps-save_ott_with : (t : OneTimeToken) (v : Option ℕ) → Keeps P (OneTimeTokens.save_with t v)
  unfolding OneTimeTokens.save_with
  Keeps-save_ott_with t none = search (keeps_rules, Keeps-write) depth 20
  Keeps-save_ott_with t (some v) = search (keeps_rules, Keeps-write) depth 20

  pub Keeps-save_ott : (t : OneTimeToken) → Keeps P (OneTimeTokens.save t)
  unfolding OneTimeTokens.save
  Keeps-save_ott t = Keeps-save_ott_with t t.version

  Keeps-to_domain : (r : Option OneTimeTokenRow) → Keeps P (OneTimeTokens.to_domain r)
  unfolding OneTimeTokens.to_domain
  Keeps-to_domain none = search keeps_rules
  Keeps-to_domain (some r) = search keeps_rules depth 20

  pub Keeps-get_ott : (t : Text) → Keeps P (OneTimeTokens.get_by_string t)
  unfolding OneTimeTokens.get_by_string
  Keeps-get_ott t = search (keeps_rules, Keeps-to_domain) depth 20

  Keeps-save_rt_with : (t : RefreshToken) (v : Option ℕ) → Keeps P (RefreshTokens.save_with t v)
  unfolding RefreshTokens.save_with
  Keeps-save_rt_with t none = search (keeps_rules, Keeps-write) depth 20
  Keeps-save_rt_with t (some v) = search (keeps_rules, Keeps-write) depth 20

  pub Keeps-save_rt : (t : RefreshToken) → Keeps P (RefreshTokens.save t)
  unfolding RefreshTokens.save
  Keeps-save_rt t = Keeps-save_rt_with t t.version

  pub Keeps-get_rt : (t : Text) → Keeps P (RefreshTokens.get_by_string t)
  unfolding RefreshTokens.get_by_string
  Keeps-get_rt t = search keeps_rules

pub ruleset repository_rules = (
  keeps_rules, Keeps-get_by_email, Keeps-get_by_id, Keeps-save_user, Keeps-save_ott, Keeps-get_ott,
  Keeps-save_rt, Keeps-get_rt,
)
