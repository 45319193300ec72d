-- ===== src/Migrations/Declared.antt =====
-- The tables that the models declare, `Base.metadata`, to which migrations/env.py compares a
-- database: app/adapters/outbound/persistence/sqlalchemy/models.
use hexagonal_auth_service.Base.{
  Bool, true, false, Option, none, some, List, [], ◌∷◌, ◌++◌, map, filter, Text, codes,
}
use hexagonal_auth_service.Migrations.Catalog.{
  ColumnType, varchar, boolean, uuid, timestamp, integer, Column, Constraint, foreign_key,
  primary_key, Index, Table, Catalog, put_all,
}
use hexagonal_auth_service.Migrations.Effect.{default_name}

-- `ForeignKey(table.column, ondelete=ondelete)`
pub record Reference : Type 0 where
  pub table : Text
  pub column : Text
  pub ondelete : Option Text

-- `mapped_column`: a column with `primary_key`, `index`, `unique` and its foreign key
pub record Mapped : Type 0 where
  pub column : Column
  pub primary : Bool
  pub index : Bool
  pub unique : Bool
  pub reference : Option Reference

-- a column with none of these
unfoldable pub plain : Text → ColumnType → Bool → Mapped
plain name type nullable = record {
  column = record { name = name; type = type; nullable = nullable };
  primary = false;
  index = false;
  unique = false;
  reference = none;
}

unfoldable pub base_token : List Mapped
unfolding codes plain
base_token =
    record (plain (codes "id") uuid false) { primary = true }
    ∷ record (plain (codes "token_hash") (varchar 255) false) { index = true }
    ∷ record (plain (codes "user_id") uuid false) {
      index = true;
      reference = some (record {
        table = codes "users";
        column = codes "id";
        ondelete = some (codes "CASCADE");
      });
    }
    ∷ plain (codes "expires_at") timestamp false
    ∷ plain (codes "version") integer false
    ∷ []

unfoldable pub one_time_token : List Mapped
unfolding codes plain base_token
one_time_token =
    base_token
    ++ plain (codes "used") boolean false ∷ plain (codes "purpose") (varchar 255) false ∷ []

unfoldable pub refresh_token : List Mapped
unfolding codes plain base_token
refresh_token =
    base_token
    ++ plain (codes "revoked_at") timestamp true
      ∷ plain (codes "replaced_by_id") uuid true
      ∷ plain (codes "created_at") timestamp false
      ∷ []

unfoldable pub user : List Mapped
unfolding codes plain
user =
    record (plain (codes "id") uuid false) { primary = true; index = true }
    ∷ record (plain (codes "email") (varchar 255) false) { unique = true; index = true }
    ∷ plain (codes "is_email_verified") boolean false
    ∷ plain (codes "password_hash") (varchar 255) false
    ∷ plain (codes "active") boolean false
    ∷ plain (codes "created_at") timestamp false
    ∷ plain (codes "version") integer false
    ∷ []

-- SQLAlchemy's names: an index is `ix_<table>_<column>`, and is unique if the column is.
unfoldable pub index_of : Text → Mapped → Index
unfolding codes
index_of table k = record {
  name = codes "ix_" ++ table ++ codes "_" ++ k.column.name;
  columns = k.column.name ∷ [];
  unique = k.unique;
}

unfoldable pub references : List Mapped → List Constraint
references [] = []
references (k ∷ ks) = elim k.reference [
  | none ↦ references ks
  | some r ↦ foreign_key (k.column.name ∷ []) r.table (r.column ∷ []) r.ondelete ∷ references ks
]

unfoldable pub table_of : Text → List Mapped → Table
unfolding put_all index_of references default_name
table_of name ks = record {
  name = name;
  columns = put_all (λ k. k.name) (map (λ k. k.column) ks);
  constraints =
      put_all (λ k. k.0)
        (map (λ k. (default_name name k, k))
          (primary_key (map (λ k. k.column.name) (filter (λ k. k.primary) ks)) ∷ references ks));
  indexes = put_all (λ x. x.name) (map (index_of name) (filter (λ k. k.index) ks));
  rows = 0;
}

unfoldable pub metadata : Catalog
unfolding codes table_of one_time_token refresh_token user
metadata =
    table_of (codes "one_time_tokens") one_time_token
    ∷ table_of (codes "refresh_tokens") refresh_token
    ∷ table_of (codes "users") user
    ∷ []
