-- ===== src/Ports.antt =====
-- app/core/ports: the protocols, as records of their operations. A protocol that extends another one has
-- it as a field. `ConfigPort` is the record `Config` of Env.antt.
pub mod Adapters
pub mod Queues
use hexagonal_auth_service.Base.{ℕ, Bool, Option, List, Text}
use hexagonal_auth_service.Base.Int.{ℤ}
use hexagonal_auth_service.Exec.{Exec, Result}
use hexagonal_auth_service.Events.{Event}
use hexagonal_auth_service.World.{World}
use hexagonal_auth_service.User.{User}
use hexagonal_auth_service.OneTimeToken.{OneTimeToken}
use hexagonal_auth_service.RefreshToken.{RefreshToken}

-- The methods set the version of the entity that they are given: the entity is returned.
pub record RepositoryPort (T : Type 0) : Type 0 where
  pub save : T → Exec World T
  pub delete : T → Exec World (Unit {0})

pub record UserRepositoryPort : Type 0 where
  pub repository : RepositoryPort User
  pub get_by_email : Text → Exec World (Option User)
  pub get_by_id : ℕ → Exec World (Option User)

pub record OneTimeTokenRepositoryPort : Type 0 where
  pub repository : RepositoryPort OneTimeToken
  pub get_by_string : Text → Exec World (Option OneTimeToken)

pub record RefreshTokenRepositoryPort : Type 0 where
  pub repository : RepositoryPort RefreshToken
  pub get_by_string : Text → Exec World (Option RefreshToken)
  pub get_all_by_user : ℕ → Exec World (List RefreshToken)

-- `async with`: what leaves the block, for what the block made of the state
pub record TransactionPort : Type 1 where
  pub within : {A : Type 0} → Exec World A → Exec World A

pub record AccessTokenIssuerPort : Type 0 where
  pub issue : ℕ → ℕ → Exec ℕ Text

pub record AccessTokenVerifierPort : Type 0 where
  pub verify : Text → Exec ℕ ℕ

pub record EventPublisherPort : Type 0 where
  pub publish : List Event → Exec World (Unit {0})

-- The state of an implementation is a parameter; reading an event may ask for the time, and the number
-- of these calls is threaded through.
pub record EventQueuePort (S : Type 0) : Type 0 where
  pub push : S → Event → S
  pub get : S → ℤ → ℤ → Bool → ℕ → List Event × ℕ

pub record NotificationPort (S : Type 0) : Type 0 where
  pub push : S → Event → S
  pub get_all : S → List Event
  pub clear : S → S
