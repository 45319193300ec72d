-- ===== src/Migrations.antt =====
-- The schema migrations: migrations/env.py and migrations/versions. A script's `upgrade` and
-- `downgrade` are the lists of the operations that they call; what an operation does to a database
-- is PostgreSQL's, a parameter whose documented effect on the catalog is Migrations/Effect.antt.
pub mod Catalog
pub mod Effect
pub mod Versions
pub mod Run
pub mod Declared
pub mod Frame
pub mod Head
pub mod Undo
pub mod Rows
