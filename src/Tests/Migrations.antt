-- ===== src/Tests/Migrations.antt =====
-- The migrations at concrete databases: PostgreSQL is a function on catalogs.
use mathlib.Core.Option
use hexagonal_auth_service.Base.{
  ℕ, ◌≡◌, refl, true, false, Option, none, some, [], ◌∷◌, Text, codes, text_eq, arith, map, filter,
  if◌then◌else◌, take, drop, ◌++◌, ◌+◌, ◌<◌, ◌⊎◌,
}
use hexagonal_auth_service.Migrations.Catalog.{Operation, Catalog, any, find_table}
use hexagonal_auth_service.Migrations.Declared.{metadata}
use hexagonal_auth_service.Migrations.Frame.{mentions}
use hexagonal_auth_service.Migrations.Head.{upgrade_head-metadata}
use hexagonal_auth_service.Migrations.Undo.{downgrade-upgrade}
use hexagonal_auth_service.Migrations.Rows.{kept, upgrade-kept, upgrade_versions-outcome}
use hexagonal_auth_service.Migrations.Effect.{effect, needs_no_rows}
use hexagonal_auth_service.Migrations.Run.{
  Ddl, IsPostgres, scripts, history, upgrade_through, downgrade_through, run_migrations_online,
  counted, schema, surely,
}
use hexagonal_auth_service.Migrations.Run.Surely.{Unrelated}

abbrev postgres : Ddl
postgres = record { Store = Catalog; run = surely; catalog = λ c. c; satisfied = needs_no_rows }

map-same : {A : Type 0} (o : Option A) → Option.map (λ a. a) o ≡ o
map-same none = refl
map-same (some a) = refl

postgres-lem :
    (op : Operation) (c : Catalog)
    → Option.map (λ (a : Catalog). a) (surely op c)
      ≡ (if needs_no_rows op c then effect op c else none)
unfolding surely
postgres-lem op c = map-same (surely op c)

abbrev postgres-IsPostgres : IsPostgres postgres
postgres-IsPostgres = record { run_lem = postgres-lem; satisfied_lem = λ op d h. h }

-- a table of another application
abbrev others : Catalog
others =
    record { name = codes "posts"; columns = []; constraints = []; indexes = []; rows = 3 } ∷ []

others-Unrelated : Unrelated scripts others
unfolding Unrelated scripts any mentions
others-Unrelated = search

upgrade_head-metadata_example :
    (d' : Catalog) × (run_migrations_online postgres
        (upgrade_through postgres (history 9 none))
        others
      ≡ (d', true))
    × (d' ≡ metadata ++ others)
upgrade_head-metadata_example =
    upgrade_head-metadata postgres-IsPostgres others 9 (omega arith) others-Unrelated

downgrade-upgrade_example :
    (d₁ : Catalog) × (d₂ : Catalog) × (d₃ : Catalog) × (upgrade_through postgres
        (take 3 (history 6 none))
        others
      ≡ some d₁)
    × (upgrade_through postgres (take 1 (drop 3 (history 6 none))) d₁ ≡ some d₂)
    × (downgrade_through postgres (take 1 (drop 3 (history 6 none))) d₂ ≡ some d₃)
    × ((name : Text) → find_table name d₃ ≡ find_table name d₁)
downgrade-upgrade_example =
    downgrade-upgrade postgres-IsPostgres others 3 (omega arith) others-Unrelated

-- two rows in every table
abbrev two : Text → ℕ
two name = 2

upgrade-kept_example :
    (d' : Catalog) × (run_migrations_online postgres
        (upgrade_through postgres (take 1 (drop 1 (history 6 none))))
        (counted two (schema 1) ++ others)
      ≡ (d', true))
    × (d' ≡ counted (kept (schema 1) two) (schema 2) ++ others)
upgrade-kept_example =
    upgrade-kept postgres-IsPostgres (counted two (schema 1) ++ others) two others 1 (omega arith)
      others-Unrelated refl

-- the rows of the tokens' table are lost by its renaming
renamed_rows :
    map
      (λ t. t.rows)
      (filter
        (λ t. text_eq t.name (codes "password_recover_tokens"))
        (counted (kept (schema 1) two) (schema 2)))
    ≡ 0 ∷ []
unfolding counted kept schema text_eq codes
renamed_rows = refl

abbrev filled : Catalog
filled = counted two (schema 4) ++ others

upgrade_versions-outcome_example :
    ((two (codes "one_time_tokens") + two (codes "refresh_tokens") + two (codes "users") ≡ 0)
      × ((d' : Catalog) × (run_migrations_online postgres
              (upgrade_through postgres (drop 4 (history 6 none)))
              filled
            ≡ (d', true))
          × (d' ≡ metadata ++ others)))
    ⊎ ((0 < two (codes "one_time_tokens") + two (codes "refresh_tokens") + two (codes "users"))
        × (run_migrations_online postgres
              (upgrade_through postgres (drop 4 (history 6 none)))
              filled
            ≡ (filled, false)))
upgrade_versions-outcome_example =
    upgrade_versions-outcome postgres-IsPostgres filled two others others-Unrelated refl
