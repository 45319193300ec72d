-- ===== src/Migrations/Run.antt =====
-- Running the scripts: migrations/env.py. Alembic orders the scripts by their links; PostgreSQL runs
-- their operations, in one transaction.
pub mod Surely
use hexagonal_auth_service.Base.{
  ◌≡◌, Bool, true, false, Option, none, some, List, [], ◌∷◌, Text, text_eq, if◌then◌else◌, ℕ, zero,
  suc, take,
}
use mathlib.Core.Option
use hexagonal_auth_service.Migrations.Catalog.{Operation, Revision, Catalog}
use hexagonal_auth_service.Migrations.Effect.{effect, needs_no_rows}
use hexagonal_auth_service.Migrations.Versions

-- the scripts in the order of their files
unfoldable pub scripts : List Revision
unfolding Versions.RestructureTables.revision Versions.RenamePasswordResetTokens.revision
    Versions.AddOnDeleteCascade.revision Versions.AddVersions.revision
    Versions.InitialTables.revision Versions.RemoveUsernameField.revision
scripts =
    Versions.RestructureTables.revision ∷ Versions.RenamePasswordResetTokens.revision
    ∷ Versions.AddOnDeleteCascade.revision ∷ Versions.AddVersions.revision
    ∷ Versions.InitialTables.revision ∷ Versions.RemoveUsernameField.revision ∷ []

-- whether a script's `down_revision` is this one
unfoldable pub follows : Option Text → Option Text → Bool
unfolding text_eq
follows none none = true
follows none (some s) = false
follows (some r) none = false
follows (some r) (some s) = text_eq r s

unfoldable pub next : Option Text → List Revision → Option Revision
unfolding follows
next current [] = none
next current (r ∷ rs) = if follows r.down_revision current then some r else next current rs

-- at most so many scripts after a revision, oldest first
unfoldable pub history : ℕ → Option Text → List Revision
unfolding next scripts
history zero current = []
history (suc n) current = elim (next current scripts) [
  | none ↦ []
  | some r ↦ r ∷ history n (some r.revision)
]

-- What runs the operations: PostgreSQL, by way of Alembic. A database has a catalog; an operation
-- gives another database or fails. `satisfied` says whether its rows satisfy the constraint, if any,
-- that the operation adds.
pub record Ddl : Type 1 where
  pub Store : Type 0
  pub run : Operation → Store → Option Store
  pub catalog : Store → Catalog
  pub satisfied : Operation → Store → Bool

-- What PostgreSQL documents of it.
pub record IsPostgres (ddl : Ddl) : Type 0 where
  pub run_lem :
      (op : Operation) (d : ddl.Store)
      → Option.map ddl.catalog (ddl.run op d)
        ≡ (if ddl.satisfied op d then effect op (ddl.catalog d) else none)
  pub satisfied_lem :
      (op : Operation) (d : ddl.Store)
      → needs_no_rows op (ddl.catalog d) ≡ true
      → ddl.satisfied op d ≡ true

module _ (ddl : Ddl) where
  -- the calls of one function, in their order
  unfoldable pub call : List Operation → ddl.Store → Option ddl.Store
  call [] d = some d
  call (op ∷ ops) d = elim (ddl.run op d) [ none ↦ none | some d' ↦ call ops d' ]

  unfoldable pub upgrade_through : List Revision → ddl.Store → Option ddl.Store
  unfolding call
  upgrade_through [] d = some d
  upgrade_through (r ∷ rs) d = elim (call r.upgrade d) [
    | none ↦ none
    | some d' ↦ upgrade_through rs d'
  ]

  unfoldable pub downgrade_through : List Revision → ddl.Store → Option ddl.Store
  unfolding call
  downgrade_through [] d = some d
  downgrade_through (r ∷ rs) d = elim (call r.downgrade d) [
    | none ↦ none
    | some d' ↦ downgrade_through rs d'
  ]

  -- `with context.begin_transaction(): context.run_migrations()`: what an error leaves is rolled back
  unfoldable pub run_migrations_online :
      (ddl.Store → Option ddl.Store) → ddl.Store → ddl.Store × Bool
  run_migrations_online migrate d = elim (migrate d) [ none ↦ (d, false) | some d' ↦ (d', true) ]

-- the same on a catalog, where the rows cannot hinder an operation
unfoldable pub surely : Operation → Catalog → Option Catalog
unfolding effect needs_no_rows
surely op c = if needs_no_rows op c then effect op c else none

unfoldable pub surely_all : List Operation → Catalog → Option Catalog
unfolding surely
surely_all [] c = some c
surely_all (op ∷ ops) c = elim (surely op c) [ none ↦ none | some c' ↦ surely_all ops c' ]

unfoldable pub surely_upgraded : List Revision → Catalog → Option Catalog
unfolding surely_all
surely_upgraded [] c = some c
surely_upgraded (r ∷ rs) c = elim (surely_all r.upgrade c) [
  | none ↦ none
  | some c' ↦ surely_upgraded rs c'
]

unfoldable pub surely_downgraded : List Revision → Catalog → Option Catalog
unfolding surely_all
surely_downgraded [] c = some c
surely_downgraded (r ∷ rs) c = elim (surely_all r.downgrade c) [
  | none ↦ none
  | some c' ↦ surely_downgraded rs c'
]

-- the tables that a migration leads to
unfoldable pub reached : Option Catalog → Catalog
reached none = []
reached (some c) = c

-- the tables after the first scripts, with no rows
unfoldable pub schema : ℕ → Catalog
unfolding reached surely_upgraded history
schema k = reached (surely_upgraded (take k (history 6 none)) [])

-- the tables with as many rows as their names are given
unfoldable pub counted : (Text → ℕ) → Catalog → Catalog
counted count [] = []
counted count (t ∷ c) = record t { rows = count t.name } ∷ counted count c

-- An operation fails, whatever the rows of the operations before it.
unfoldable pub surely_fails : List Operation → Catalog → Bool
unfolding effect needs_no_rows
surely_fails [] c = false
surely_fails (op ∷ ops) c = elim (effect op c) [
  | none ↦ true
  | some c' ↦ if needs_no_rows op c then surely_fails ops c' else false
]
