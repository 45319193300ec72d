-- ===== src/Migrations/Run/Surely.antt =====
-- What scripts do to every database with a catalog, from what they do to a catalog.
use hexagonal_auth_service.Base.{
  ◌≡◌, refl, ℕ, zero, suc, take, drop, true, false, Option, none, some, List, [], ◌∷◌, ◌++◌, ◌∙◌,
  ap, arith, Option-cases, inl, inr,
}
use hexagonal_auth_service.Migrations.Catalog.{Operation, Revision, Catalog}
use hexagonal_auth_service.Migrations.Effect.{effect}
use hexagonal_auth_service.Migrations.Run.{
  Ddl, IsPostgres, call, upgrade_through, downgrade_through, run_migrations_online, surely,
  surely_all, surely_upgraded, surely_downgraded, surely_fails,
}
use hexagonal_auth_service.Migrations.Frame.{AllApart, beside}
use hexagonal_auth_service.Migrations.Frame.Effects.{surely_all-append, effect-append}

-- None of the tables mentions a name that the scripts use.
unfoldable pub Unrelated : List Revision → Catalog → Type 0
unfolding AllApart
Unrelated [] rest = Unit
Unrelated (r ∷ rs) rest = AllApart r.upgrade rest × AllApart r.downgrade rest × Unrelated rs rest

pub Unrelated-take :
    (k : ℕ) (rs : List Revision) (rest : Catalog) → Unrelated rs rest → Unrelated (take k rs) rest
unfolding Unrelated
Unrelated-take zero rs rest h = tt
Unrelated-take (suc k) [] rest h = tt
Unrelated-take (suc k) (r ∷ rs) rest h = (h.0, h.1, Unrelated-take k rs rest h.2)

pub Unrelated-drop :
    (k : ℕ) (rs : List Revision) (rest : Catalog) → Unrelated rs rest → Unrelated (drop k rs) rest
unfolding Unrelated
Unrelated-drop zero rs rest h = h
Unrelated-drop (suc k) [] rest h = tt
Unrelated-drop (suc k) (r ∷ rs) rest h = Unrelated-drop k rs rest h.2

module _ (ddl : Ddl) (migrate : ddl.Store → Option ddl.Store) (d : ddl.Store) where
  pub online-some :
      {d' : ddl.Store} → migrate d ≡ some d' → run_migrations_online ddl migrate d ≡ (d', true)
  unfolding run_migrations_online
  online-some h = rw (h, run_migrations_online)

  pub online-none : migrate d ≡ none → run_migrations_online ddl migrate d ≡ (d, false)
  unfolding run_migrations_online
  online-none h = rw (h, run_migrations_online)

module _ {ddl : Ddl} (pg : IsPostgres ddl) where
  run-surely :
      (op : Operation) (d : ddl.Store) {c : Catalog}
      → surely op (ddl.catalog d) ≡ some c
      → (d' : ddl.Store) × (ddl.run op d ≡ some d') × (ddl.catalog d' ≡ c)
  unfolding surely
  run-surely op d h = elim (Option-cases (ddl.run op d)) [
    | inl fails ↦ absurd (ground (arith, fails, pg.run_lem op d, pg.satisfied_lem op d))
    | inr (d', returns) ↦
        (d', returns, ground (arith, returns, pg.run_lem op d, pg.satisfied_lem op d))
  ]

  pub run-fails :
      (op : Operation) (d : ddl.Store) → effect op (ddl.catalog d) ≡ none → ddl.run op d ≡ none
  run-fails op d h = elim (Option-cases (ddl.run op d)) [
    | inl fails ↦ fails
    | inr (d', returns) ↦ absurd (ground (arith, returns, pg.run_lem op d))
  ]

  pub call-surely :
      (ops : List Operation) (d : ddl.Store) {c : Catalog}
      → surely_all ops (ddl.catalog d) ≡ some c
      → (d' : ddl.Store) × (call ddl ops d ≡ some d') × (ddl.catalog d' ≡ c)
  unfolding call surely_all
  call-surely [] d h = (d, refl, ground arith)
  call-surely (op ∷ ops) d h = elim (Option-cases (surely op (ddl.catalog d))) [
    | inl fails ↦ absurd (ground (arith, fails))
    | inr (c₁, returns) ↦
        let (d₁, ran, e) = run-surely op d returns in
        let (d', called, e') = call-surely ops d₁ (ground (arith, returns, e)) in
        (d', ground (arith, ran, called), e')
  ]

  -- the same beside other tables
  pub call-beside :
      (ops : List Operation) (d : ddl.Store) (c rest : Catalog) {c' : Catalog}
      → AllApart ops rest
      → ddl.catalog d ≡ c ++ rest
      → surely_all ops c ≡ some c'
      → (d' : ddl.Store) × (call ddl ops d ≡ some d') × (ddl.catalog d' ≡ c' ++ rest)
  call-beside ops d c rest {c'} h at returns =
      call-surely ops d (ap (surely_all ops) at ∙ surely_all-append ops c rest h returns)

  pub upgrade-beside :
      (rs : List Revision) (d : ddl.Store) (c rest : Catalog) {c' : Catalog}
      → Unrelated rs rest
      → ddl.catalog d ≡ c ++ rest
      → surely_upgraded rs c ≡ some c'
      → (d' : ddl.Store) × (upgrade_through ddl rs d ≡ some d') × (ddl.catalog d' ≡ c' ++ rest)
  unfolding upgrade_through surely_upgraded Unrelated
  upgrade-beside [] d c rest h at returns = (d, refl, ground arith)
  upgrade-beside (r ∷ rs) d c rest {c'} h at e = elim (Option-cases (surely_all r.upgrade c)) [
    | inl fails ↦ absurd (ground (arith, fails))
    | inr (c₁, returns) ↦
        let (d₁, called, at₁) = call-beside r.upgrade d c rest h.0 at returns in
        let (d', went, at') =
          upgrade-beside rs d₁ c₁ rest {c' = c'} h.2 at₁ (ground (arith, returns)) in
        (d', ground (arith, called, went), at')
  ]

  pub downgrade-beside :
      (rs : List Revision) (d : ddl.Store) (c rest : Catalog) {c' : Catalog}
      → Unrelated rs rest
      → ddl.catalog d ≡ c ++ rest
      → surely_downgraded rs c ≡ some c'
      → (d' : ddl.Store) × (downgrade_through ddl rs d ≡ some d') × (ddl.catalog d' ≡ c' ++ rest)
  unfolding downgrade_through surely_downgraded Unrelated
  downgrade-beside [] d c rest h at returns = (d, refl, ground arith)
  downgrade-beside (r ∷ rs) d c rest {c'} h at e = elim (Option-cases (surely_all r.downgrade c)) [
    | inl fails ↦ absurd (ground (arith, fails))
    | inr (c₁, returns) ↦
        let (d₁, called, at₁) = call-beside r.downgrade d c rest h.1 at returns in
        let (d', went, at') =
          downgrade-beside rs d₁ c₁ rest {c' = c'} h.2 at₁ (ground (arith, returns)) in
        (d', ground (arith, called, went), at')
  ]

  pub call-fails :
      (ops : List Operation) (d : ddl.Store) (c rest : Catalog)
      → AllApart ops rest
      → ddl.catalog d ≡ c ++ rest
      → surely_fails ops c ≡ true
      → call ddl ops d ≡ none
  unfolding call surely_fails AllApart
  call-fails [] d c rest h at fails = cc
  call-fails (op ∷ ops) d c rest h at fails = elim (Option-cases (effect op c)) [
    | inl refused ↦ ground (
      arith,
      run-fails op d (ap (effect op) at ∙ effect-append op c rest h.0 ∙ ap (beside rest) refused),
    )
    | inr (c₁, done) ↦ elim (Option-cases (ddl.run op d)) [
      | inl refused ↦ ground (arith, refused)
      | inr (d₁, ran) ↦ ground (
        arith,
        ran,
        call-fails ops d₁ c₁ rest h.1
            (ground
              (arith, ran, done, pg.run_lem op d, ap (effect op) at, effect-append op c rest h.0))
            (ground (arith, done)),
      )
    ]
  ]

  -- Where the first script fails, so does the upgrade.
  pub upgrade-fails :
      (r : Revision) (rs : List Revision) (d : ddl.Store) (c rest : Catalog)
      → Unrelated (r ∷ rs) rest
      → ddl.catalog d ≡ c ++ rest
      → surely_fails r.upgrade c ≡ true
      → upgrade_through ddl (r ∷ rs) d ≡ none
  unfolding upgrade_through Unrelated
  upgrade-fails r rs d c rest h at fails =
      ground (arith, call-fails r.upgrade d c rest h.0 at fails)
