-- ===== src/Migrations/Head.antt =====
-- The order of the scripts, and the schema that they lead to.
use hexagonal_auth_service.Base.{
  ℕ, zero, suc, ◌≤◌, ◌≡◌, refl, true, none, some, [], ◌++◌, codes, ap, ◌∙◌, arith,
}
use hexagonal_auth_service.Migrations.Catalog.{Catalog}
use hexagonal_auth_service.Migrations.Declared.{metadata}
use hexagonal_auth_service.Migrations.Run.{
  Ddl, IsPostgres, scripts, history, upgrade_through, run_migrations_online, surely_upgraded,
}
use hexagonal_auth_service.Migrations.Run.Surely.{Unrelated, upgrade-beside, online-some}

-- No script comes after the last one.
history_end : (n : ℕ) → history n (some (codes "4dd9b045d9d8")) ≡ []
unfolding history
history_end zero = refl
history_end (suc n) = refl

-- Six steps take in every script.
pub history_enough : (n : ℕ) → 6 ≤ n → history n none ≡ history 6 none
unfolding history
history_enough (suc (suc (suc (suc (suc (suc n)))))) h = rw (history_end n)
history_enough (suc (suc (suc (suc (suc zero))))) h = absurd (omega arith)
history_enough (suc (suc (suc (suc zero)))) h = absurd (omega arith)
history_enough (suc (suc (suc zero))) h = absurd (omega arith)
history_enough (suc (suc zero)) h = absurd (omega arith)
history_enough (suc zero) h = absurd (omega arith)
history_enough zero h = absurd (omega arith)

pub Unrelated-history : (rest : Catalog) → Unrelated scripts rest → Unrelated (history 6 none) rest
unfolding Unrelated history
Unrelated-history rest h = (
  h.2.2.2.2.0,
  h.2.2.2.2.1,
  (
    h.2.0,
    h.2.1,
    (h.2.2.2.2.2.0, h.2.2.2.2.2.1, (h.0, h.1, (h.2.2.2.0, h.2.2.2.1, (h.2.2.0, h.2.2.1, tt)))),
  ),
)

upgraded_head : surely_upgraded (history 6 none) [] ≡ some metadata
unfolding surely_upgraded history metadata
upgraded_head = refl

-- From a database in which no table mentions the names of the scripts, the upgrade through all
-- scripts, in the order of their links, returns, and adds to the tables that there were exactly the
-- tables that the models declare, with no rows: the same columns with their types, the same keys
-- and the same indexes.
pub upgrade_head-metadata :
    {ddl : Ddl} (pg : IsPostgres ddl) (d : ddl.Store) (n : ℕ)
    → 6 ≤ n
    → Unrelated scripts (ddl.catalog d)
    → (d' : ddl.Store) × (run_migrations_online ddl (upgrade_through ddl (history n none)) d
        ≡ (d', true))
      × (ddl.catalog d' ≡ metadata ++ ddl.catalog d)
upgrade_head-metadata {ddl} pg d n enough h =
    let (d', went, at) =
      upgrade-beside pg (history 6 none) d [] _ (Unrelated-history _ h) refl upgraded_head in
    (
      d',
      ap (λ rs. run_migrations_online ddl (upgrade_through ddl rs) d) (history_enough n enough)
          ∙ online-some ddl (upgrade_through ddl (history 6 none)) d went,
      at,
    )
