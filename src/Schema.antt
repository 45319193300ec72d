-- ===== src/Schema.antt =====
-- The tables: app/adapters/outbound/persistence/sqlalchemy/models. Each row type has the columns of
-- its model, those of `BaseToken` included; a table is the list of its rows, oldest first.
pub mod Constraints
use hexagonal_auth_service.Base.{ℕ, Bool, Option, List, Text}

pub record UserRow : Type 0 where
  pub id : ℕ
  pub email : Text
  pub is_email_verified : Bool
  pub password_hash : Text
  pub active : Bool
  pub created_at : ℕ
  pub version : ℕ

pub record OneTimeTokenRow : Type 0 where
  pub id : ℕ
  pub token_hash : Text
  pub user_id : ℕ
  pub expires_at : ℕ
  pub version : ℕ
  pub used : Bool
  pub purpose : Text

pub record RefreshTokenRow : Type 0 where
  pub id : ℕ
  pub token_hash : Text
  pub user_id : ℕ
  pub expires_at : ℕ
  pub version : ℕ
  pub revoked_at : Option ℕ
  pub replaced_by_id : Option ℕ
  pub created_at : ℕ

pub record Database : Type 0 where
  pub users : List UserRow
  pub one_time_tokens : List OneTimeTokenRow
  pub refresh_tokens : List RefreshTokenRow
