-- ===== src/Migrations/Catalog.antt =====
-- What the scripts say of tables, in the words of Alembic and SQLAlchemy, and the catalog of a
-- database: its tables, each with its columns, constraints and indexes by name. Names identify them
-- in SQL, so each list is kept in the order of the names: a finite map in one form.
use hexagonal_auth_service.Base.{
  ℕ, Bool, true, false, ◌||◌, Option, none, some, List, [], ◌∷◌, Text, text_eq, ltb, ◌==◌,
  if◌then◌else◌,
}

-- `String` and `VARCHAR` of SQLAlchemy both stand for VARCHAR, `DateTime(timezone=True)` and
-- `TIMESTAMP(timezone=True)` both for TIMESTAMP WITH TIME ZONE.
pub data ColumnType : Type 0 where
  varchar : ℕ → ColumnType
  boolean : ColumnType
  uuid : ColumnType
  timestamp : ColumnType
  integer : ColumnType
  inet : ColumnType
  jsonb : ColumnType

pub record Column : Type 0 where
  pub name : Text
  pub type : ColumnType
  pub nullable : Bool

-- A foreign key has its columns, the table and the columns that it refers to, and `ondelete`.
pub data Constraint : Type 0 where
  foreign_key : List Text → Text → List Text → Option Text → Constraint
  primary_key : List Text → Constraint

-- `sa.Column(name, type, nullable=nullable)`
unfoldable pub column : Text → ColumnType → Bool → Column
column name type nullable = record { name = name; type = type; nullable = nullable }

pub record Index : Type 0 where
  pub name : Text
  pub columns : List Text
  pub unique : Bool

-- The operations of `alembic.op` that the scripts call. A constraint of `create_table` may have no
-- name; `drop_constraint` is that with `type_='foreignkey'`.
pub data Operation : Type 0 where
  create_table : Text → List Column → List (Option Text × Constraint) → Operation
  drop_table : Text → Operation
  create_index : Text → Text → List Text → Bool → Operation
  drop_index : Text → Text → Operation
  add_column : Text → Column → Operation
  drop_column : Text → Text → Operation
  drop_constraint : Text → Text → Operation
  create_foreign_key : Text → Text → Text → List Text → List Text → Option Text → Operation

-- A script, with the identifiers by which Alembic orders the scripts.
pub record Revision : Type 0 where
  pub revision : Text
  pub down_revision : Option Text
  pub upgrade : List Operation
  pub downgrade : List Operation

pub record Table : Type 0 where
  pub name : Text
  pub columns : List Column
  pub constraints : List (Text × Constraint)
  pub indexes : List Index
  -- how many rows it has
  pub rows : ℕ

abbrev pub Catalog : Type 0
Catalog = List Table

-- the order of names
unfoldable pub precedes : Text → Text → Bool
precedes s [] = false
precedes [] (d ∷ t) = true
precedes (c ∷ s) (d ∷ t) = if c == d then precedes s t else ltb c d

module _ {A : Type 0} where
  -- `a` at its place among the entries of other names
  unfoldable pub put : (A → Text) → A → List A → List A
  unfolding precedes
  put key a [] = a ∷ []
  put key a (b ∷ bs) =
      let rest = put key a bs in if precedes (key a) (key b) then a ∷ b ∷ bs else b ∷ rest

  -- the entries, each at its place
  unfoldable pub put_all : (A → Text) → List A → List A
  unfolding put
  put_all key [] = []
  put_all key (a ∷ as') = put key a (put_all key as')

  unfoldable pub any : (A → Bool) → List A → Bool
  any p [] = false
  any p (a ∷ as') = p a || any p as'

  -- the entries without those that pass the test
  unfoldable pub without : (A → Bool) → List A → List A
  without p [] = []
  without p (a ∷ as') = let rest = without p as' in if p a then rest else a ∷ rest

-- `name in names`
unfoldable pub is_among : Text → List Text → Bool
unfolding any text_eq
is_among name names = any (text_eq name) names

unfoldable pub find_table : Text → Catalog → Option Table
unfolding text_eq
find_table name [] = none
find_table name (t ∷ c) = if text_eq name t.name then some t else find_table name c
