-- ===== src/Migrations/Effect.antt =====
-- What PostgreSQL documents of the statements that the operations stand for: their effect on the
-- catalog, and when a statement fails (`none`).
use mathlib.Core.Option
use hexagonal_auth_service.Base.{
  Bool, true, false, not, ◌&&◌, ◌||◌, Option, none, some, List, [], ◌∷◌, ◌++◌, map, Text, codes,
  text_eq, ltb, ◌==◌, is_some, if◌then◌else◌,
}
use hexagonal_auth_service.Migrations.Catalog.{
  Column, Constraint, foreign_key, primary_key, Index, Operation, create_table, drop_table,
  create_index, drop_index, add_column, drop_column, drop_constraint, create_foreign_key, Table,
  Catalog, put, put_all, any, without, is_among, find_table,
}

-- A constraint with no name gets one: `<table>_pkey`, and `<table>_<columns>_fkey`.
unfoldable pub underscored : List Text → Text
unfolding codes
underscored [] = []
underscored (name ∷ names) = codes "_" ++ name ++ underscored names

unfoldable pub default_name : Text → Constraint → Text
unfolding codes underscored
default_name table (foreign_key columns _ _ _) = table ++ underscored columns ++ codes "_fkey"
default_name table (primary_key _) = table ++ codes "_pkey"

unfoldable pub named : Text → Option Text × Constraint → Text × Constraint
unfolding default_name
named table (none, k) = (default_name table k, k)
named table (some name, k) = (name, k)

unfoldable pub columns_of : Constraint → List Text
columns_of (foreign_key columns _ _ _) = columns
columns_of (primary_key columns) = columns

unfoldable pub has_columns : Table → List Text → Bool
unfolding any text_eq
has_columns t [] = true
has_columns t (name ∷ names) =
    any (λ (k : Column). text_eq name k.name) t.columns && has_columns t names

-- the table that a foreign key refers to is there, with the columns
unfoldable pub refers_well : Catalog → Constraint → Bool
unfolding find_table has_columns
refers_well c (foreign_key _ table columns _) = elim (find_table table c) [
  | none ↦ false
  | some t ↦ has_columns t columns
]
refers_well c (primary_key _) = true

unfoldable pub constraints_fit : Catalog → Table → List (Text × Constraint) → Bool
unfolding refers_well has_columns columns_of
constraints_fit c t [] = true
constraints_fit c t ((_, k) ∷ ks) =
    (refers_well c k && has_columns t (columns_of k)) && constraints_fit c t ks

-- a foreign key to the table, and to one of its columns
unfoldable pub is_reference : Text → Text × Constraint → Bool
unfolding text_eq
is_reference table (_, foreign_key _ referent _ _) = text_eq table referent
is_reference table (_, primary_key _) = false

unfoldable pub is_reference_to : Text → Text → Text × Constraint → Bool
unfolding text_eq is_among
is_reference_to table column (_, foreign_key _ referent columns _) =
    text_eq table referent && is_among column columns
is_reference_to table column (_, primary_key _) = false

-- A table refers to another one.
unfoldable pub refers_to : Text → Table → Bool
unfolding text_eq any is_reference
refers_to table t = not (text_eq table t.name) && any (is_reference table) t.constraints

unfoldable pub has_index : Text → Table → Bool
unfolding any text_eq
has_index name t = any (λ (x : Index). text_eq name x.name) t.indexes

-- The table of that name is changed, if the change is possible.
unfoldable pub alter : Text → (Table → Option Table) → Catalog → Option Catalog
unfolding text_eq
alter name f [] = none
alter name f (t ∷ c) =
    let rest = Option.map (λ (c' : Catalog). t ∷ c') (alter name f c) in
    if text_eq name t.name then Option.map (λ t'. t' ∷ c) (f t) else rest

unfoldable pub new_table : Text → List Column → List (Option Text × Constraint) → Table
unfolding put_all named
new_table name columns constraints = record {
  name = name;
  columns = put_all (λ k. k.name) columns;
  constraints = put_all (λ k. k.0) (map (named name) constraints);
  indexes = [];
  rows = 0;
}

unfoldable pub with_index : Index → Table → Option Table
unfolding has_columns put
with_index x t =
    if has_columns t x.columns
    then some (record t { indexes = put (λ y. y.name) x t.indexes })
    else none

unfoldable pub without_index : Text → Table → Table
unfolding without text_eq
without_index name t = record t { indexes = without (λ (x : Index). text_eq name x.name) t.indexes }

-- A column that must not be null and has no default cannot be added to rows.
unfoldable pub with_column : Column → Table → Option Table
unfolding any put text_eq
with_column k t =
    if any (λ (j : Column). text_eq k.name j.name) t.columns || (not k.nullable && ltb 0 t.rows)
    then none
    else some (record t { columns = put (λ j. j.name) k t.columns })

-- A column goes with the indexes and the constraints of its table that it stands in.
unfoldable pub without_column : Text → Table → Option Table
unfolding any without is_among columns_of text_eq
without_column name t =
    if any (λ (j : Column). text_eq name j.name) t.columns
    then some (record t {
      columns = without (λ (j : Column). text_eq name j.name) t.columns;
      constraints =
          without (λ (k : Text × Constraint). is_among name (columns_of k.1)) t.constraints;
      indexes = without (λ (x : Index). is_among name x.columns) t.indexes;
    })
    else none

unfoldable pub is_foreign_key : Text → Text × Constraint → Bool
unfolding text_eq
is_foreign_key name (given, foreign_key _ _ _ _) = text_eq name given
is_foreign_key name (given, primary_key _) = false

unfoldable pub without_constraint : Text → Table → Option Table
unfolding any without is_foreign_key
without_constraint name t =
    if any (is_foreign_key name) t.constraints
    then some (record t { constraints = without (is_foreign_key name) t.constraints })
    else none

unfoldable pub with_constraint : Text → Constraint → Table → Option Table
unfolding any put has_columns columns_of text_eq
with_constraint name k t =
    if any (λ (j : Text × Constraint). text_eq name j.0) t.constraints
      || not (has_columns t (columns_of k))
    then none
    else some (record t { constraints = put (λ j. j.0) (name, k) t.constraints })

unfoldable pub effect : Operation → Catalog → Option Catalog
unfolding find_table constraints_fit new_table any refers_to without text_eq has_index alter
    with_index without_index with_column is_reference_to without_column without_constraint
    with_constraint refers_well
effect (create_table name columns constraints) c =
    let t = new_table name columns constraints in
    if is_some (find_table name c) || not (constraints_fit (t ∷ c) t t.constraints)
    then none
    else some (t ∷ c)
effect (drop_table name) c =
    if not (is_some (find_table name c)) || any (refers_to name) c
    then none
    else some (without (λ (t : Table). text_eq name t.name) c)
effect (create_index name table columns unique) c =
    if any (has_index name) c
    then none
    else alter table (with_index (record { name = name; columns = columns; unique = unique })) c
effect (drop_index name table) c =
    if any (has_index name) c then some (map (without_index name) c) else none
effect (add_column table k) c = alter table (with_column k) c
effect (drop_column table name) c =
    if any (λ (t : Table). any (is_reference_to table name) t.constraints) c
    then none
    else alter table (without_column name) c
effect (drop_constraint name table) c = alter table (without_constraint name) c
effect (create_foreign_key name table referent columns remote ondelete) c =
    let k = foreign_key columns referent remote ondelete in
    if refers_well c k then alter table (with_constraint name k) c else none

-- The rows that there are must satisfy a constraint that an operation adds: it surely returns where
-- there are none.
unfoldable pub is_empty : Text → Catalog → Bool
unfolding find_table
is_empty table c = elim (find_table table c) [ none ↦ true | some t ↦ t.rows == 0 ]

unfoldable pub needs_no_rows : Operation → Catalog → Bool
unfolding is_empty
needs_no_rows (create_index _ table _ true) c = is_empty table c
needs_no_rows (create_foreign_key _ table _ _ _ _) c = is_empty table c
needs_no_rows _ c = true
