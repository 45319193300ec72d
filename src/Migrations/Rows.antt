-- ===== src/Migrations/Rows.antt =====
-- The scripts over tables that have rows.
use hexagonal_auth_service.Base.{
  ℕ, ◌+◌, ◌<◌, ◌≡◌, refl, true, false, none, some, ◌++◌, ◌⊎◌, Text, codes, arith, take, drop, [],
  zero, suc, inl, inr, ap, ◌∷◌, ◌∙◌,
}
use hexagonal_auth_service.Migrations.Catalog.{Catalog, find_table}
use hexagonal_auth_service.Migrations.Declared.{metadata}
use hexagonal_auth_service.Migrations.Versions
use hexagonal_auth_service.Migrations.Run.{
  Ddl, IsPostgres, scripts, history, upgrade_through, run_migrations_online, surely_upgraded,
  schema, counted, surely_fails, surely_all, call,
}
use hexagonal_auth_service.Migrations.Run.Surely.{
  Unrelated, upgrade-beside, online-some, online-none, call-fails, call-beside, upgrade-fails,
  Unrelated-take, Unrelated-drop,
}
use hexagonal_auth_service.Migrations.Head.{Unrelated-history}

-- The rows after a script: a table that there was before keeps its rows, another one has none.
unfoldable pub kept : Catalog → (Text → ℕ) → Text → ℕ
unfolding find_table
kept c count name = elim (find_table name c) [ none ↦ 0 | some t ↦ count name ]

module _ (count : Text → ℕ) where
  versions_fail :
      0 < count (codes "one_time_tokens") + count (codes "refresh_tokens") + count (codes "users")
      → surely_fails Versions.AddVersions.upgrade (counted count (schema 4)) ≡ true
  unfolding surely_fails Versions.AddVersions.upgrade counted schema
  versions_fail h = ground arith

  no_rows :
      count (codes "one_time_tokens") + count (codes "refresh_tokens") + count (codes "users") ≡ 0
      → counted count (schema 4) ≡ schema 4
  unfolding counted schema
  no_rows h = ground arith

  username_fails :
      0 < count (codes "users")
      → surely_fails Versions.RemoveUsernameField.downgrade (counted count (schema 3)) ≡ true
  unfolding surely_fails Versions.RemoveUsernameField.downgrade counted schema
  username_fails h = ground arith

  username_returns :
      count (codes "users") ≡ 0
      → surely_all Versions.RemoveUsernameField.downgrade (counted count (schema 3))
        ≡ some (counted count (schema 2))
  unfolding surely_all Versions.RemoveUsernameField.downgrade counted schema
  username_returns h = ground arith

  rows_kept :
      (k : ℕ)
      → k < 4
      → surely_upgraded (take 1 (drop k (history 6 none))) (counted count (schema k))
        ≡ some (counted (kept (schema k) count) (schema (suc k)))
  unfolding surely_upgraded history counted schema kept
  rows_kept zero h = refl
  rows_kept (suc zero) h = refl
  rows_kept (suc (suc zero)) h = refl
  rows_kept (suc (suc (suc zero))) h = refl
  rows_kept (suc (suc (suc (suc k)))) h = absurd (omega arith)

last_scripts : surely_upgraded (drop 4 (history 6 none)) (schema 4) ≡ some metadata
unfolding surely_upgraded history schema metadata
last_scripts = refl

zero-cases : (n : ℕ) → (n ≡ 0) ⊎ (0 < n)
zero-cases zero = inl refl
zero-cases (suc n) = inr (omega arith)

module _ {ddl : Ddl} (pg : IsPostgres ddl) (d : ddl.Store) (count : Text → ℕ) (rest : Catalog) where
  -- Take a database with the tables after the first k scripts, k < 4, and whatever rows, beside tables
  -- that do not mention the names of the scripts. The next script's upgrade returns; each table that
  -- there was before and is there still keeps its number of rows, and each other one has none. The
  -- other tables are unchanged.
  pub upgrade-kept :
      (k : ℕ)
      → k < 4
      → Unrelated scripts rest
      → ddl.catalog d ≡ counted count (schema k) ++ rest
      → (d' : ddl.Store) × (run_migrations_online ddl
            (upgrade_through ddl (take 1 (drop k (history 6 none))))
            d
          ≡ (d', true))
        × (ddl.catalog d' ≡ counted (kept (schema k) count) (schema (suc k)) ++ rest)
  upgrade-kept k bound h at =
      let one = Unrelated-take 1 _ rest (Unrelated-drop k _ rest (Unrelated-history rest h)) in
      let (d', went, at') = upgrade-beside pg _ d _ rest one at (rows_kept count k bound) in
      (d', online-some ddl _ d went, at')

  -- Take a database with the tables after the first four scripts and whatever rows, beside tables
  -- that do not mention the names of the scripts. The upgrade through the other two returns if there
  -- are no users and no tokens, and then leads to the tables that the models declare; if there is a
  -- user or a token, it fails and changes nothing.
  pub upgrade_versions-outcome :
      Unrelated scripts rest
      → ddl.catalog d ≡ counted count (schema 4) ++ rest
      → ((count (codes "one_time_tokens") + count (codes "refresh_tokens") + count (codes "users")
            ≡ 0)
          × ((d' : ddl.Store) × (run_migrations_online ddl
                  (upgrade_through ddl (drop 4 (history 6 none)))
                  d
                ≡ (d', true))
              × (ddl.catalog d' ≡ metadata ++ rest)))
        ⊎ ((0
              < count (codes "one_time_tokens")
                + count (codes "refresh_tokens")
                + count (codes "users"))
            × (run_migrations_online ddl (upgrade_through ddl (drop 4 (history 6 none))) d
                ≡ (d, false)))
  unfolding history
  upgrade_versions-outcome h at =
      let all = Unrelated-drop 4 (history 6 none) rest (Unrelated-history rest h) in
      elim (zero-cases (
        count (codes "one_time_tokens") + count (codes "refresh_tokens") + count (codes "users"))) [
          | inl empty ↦
              let (d', went, at') =
                upgrade-beside pg _ d (schema 4) rest all
                  (at ∙ ap (λ c. c ++ rest) (no_rows count empty)) last_scripts in
              inl (empty, (d', online-some ddl _ d went, at'))
          | inr some_rows ↦ inr (
            some_rows,
            online-none ddl _ d (
                upgrade-fails pg Versions.AddVersions.revision
                  (Versions.AddOnDeleteCascade.revision ∷ []) d _ rest all at
                  (versions_fail count some_rows)),
          )
        ]

  -- Take a database with the tables after the first three scripts and whatever rows, beside tables
  -- that do not mention the names of the scripts. The downgrade of the third script returns if there
  -- are no users, and then leads back to the tables after two scripts, with their rows; if there is a
  -- user, it fails and changes nothing.
  downgrade_username-outcome :
      Unrelated scripts rest
      → ddl.catalog d ≡ counted count (schema 3) ++ rest
      → ((count (codes "users") ≡ 0)
          × ((d' : ddl.Store) × (run_migrations_online ddl
                  (call ddl Versions.RemoveUsernameField.downgrade)
                  d
                ≡ (d', true))
              × (ddl.catalog d' ≡ counted count (schema 2) ++ rest)))
        ⊎ ((0 < count (codes "users"))
            × (run_migrations_online ddl (call ddl Versions.RemoveUsernameField.downgrade) d
                ≡ (d, false)))
  unfolding Unrelated scripts
  downgrade_username-outcome h at = elim (zero-cases (count (codes "users"))) [
    | inl empty ↦
        let (d', went, at') =
          call-beside pg _ d _ rest (h.2.2.2.2.2.1) at (username_returns count empty) in
        inl (empty, (d', online-some ddl _ d went, at'))
    | inr some_rows ↦ inr (
      some_rows,
      online-none ddl _ d
          (call-fails pg _ d _ rest (h.2.2.2.2.2.1) at (username_fails count some_rows)),
    )
  ]
