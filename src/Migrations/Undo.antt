-- ===== src/Migrations/Undo.antt =====
-- Each script's `downgrade` undoes its `upgrade`.
use hexagonal_auth_service.Base.{
  ℕ, zero, suc, ◌<◌, ◌≡◌, refl, Option, none, some, [], ◌∷◌, ◌++◌, Text, text_eq_iff, take, drop,
  arith, Option-cases, inl, inr,
}
use hexagonal_auth_service.Migrations.Catalog.{Table, Catalog, find_table}
use hexagonal_auth_service.Migrations.Run.{
  Ddl, IsPostgres, scripts, history, upgrade_through, downgrade_through, surely_upgraded,
  surely_downgraded, reached, schema,
}
use hexagonal_auth_service.Migrations.Run.Surely.{
  Unrelated, upgrade-beside, downgrade-beside, Unrelated-take, Unrelated-drop,
}
use hexagonal_auth_service.Migrations.Head.{Unrelated-history}

-- Every table of the one catalog is found in the other.
unfoldable pub Within : Catalog → Catalog → Type 0
unfolding find_table
Within [] c = Unit
Within (t ∷ ts) c = (find_table t.name c ≡ some t) × Within ts c

Within-find :
    (name : Text) (ts c : Catalog) (t : Table)
    → Within ts c
    → find_table name ts ≡ some t
    → find_table name c ≡ some t
unfolding Within
Within-find name [] c t h e = cc
Within-find name (u ∷ ts) c t h e =
    ground (arith, text_eq_iff name u.name, h.0, Within-find name ts c t h.1)

-- Catalogs within each other have the same tables.
same_tables :
    (name : Text) (c c' : Catalog)
    → Within c c'
    → Within c' c
    → find_table name c ≡ find_table name c'
same_tables name c c' h h' = elim (Option-cases (find_table name c)) [
  | inr (t, found) ↦ rw (found, Within-find name c c' t h found)
  | inl missing ↦ elim (Option-cases (find_table name c')) [
    | inl missing' ↦ rw (missing, missing')
    | inr (t, found) ↦ absurd (ground (arith, missing, Within-find name c' c t h' found))
  ]
]

-- the first of two tables that is there
abbrev or_else : Option Table → Option Table → Option Table
or_else none found = found
or_else (some t) found = some t

find_table-or_else :
    (name : Text) (c rest : Catalog)
    → find_table name (c ++ rest) ≡ or_else (find_table name c) (find_table name rest)
unfolding find_table
find_table-or_else name [] rest = refl
find_table-or_else name (t ∷ c) rest = ground (arith, find_table-or_else name c rest)

same_tables-append :
    (c c' rest : Catalog)
    → Within c c'
    → Within c' c
    → (name : Text) → find_table name (c ++ rest) ≡ find_table name (c' ++ rest)
same_tables-append c c' rest h h' name =
    rw (find_table-or_else name c rest, find_table-or_else name c' rest, same_tables name c c' h h')

-- The first k scripts and one more, which is then undone, from no tables.
record IsUndone (k : ℕ) : Type 0 where
  after : Catalog
  came : surely_upgraded (take k (history 6 none)) [] ≡ some (schema k)
  went : surely_upgraded (take 1 (drop k (history 6 none))) (schema k) ≡ some (schema (suc k))
  back : surely_downgraded (take 1 (drop k (history 6 none))) (schema (suc k)) ≡ some after
  kept : Within after (schema k)
  all_kept : Within (schema k) after

undone : (k : ℕ) → k < 6 → IsUndone k
unfolding schema surely_downgraded surely_upgraded history Within
undone zero h = record {
  after = reached (surely_downgraded (take 1 (drop 0 (history 6 none))) (schema 1));
  came = refl;
  went = refl;
  back = refl;
  kept = tt;
  all_kept = tt;
}
undone (suc zero) h = record {
  after = reached (surely_downgraded (take 1 (drop 1 (history 6 none))) (schema 2));
  came = refl;
  went = refl;
  back = refl;
  kept = (refl, (refl, (refl, (refl, (refl, (refl, tt))))));
  all_kept = (refl, (refl, (refl, (refl, (refl, (refl, tt))))));
}
undone (suc (suc zero)) h = record {
  after = reached (surely_downgraded (take 1 (drop 2 (history 6 none))) (schema 3));
  came = refl;
  went = refl;
  back = refl;
  kept = (refl, (refl, (refl, (refl, (refl, (refl, tt))))));
  all_kept = (refl, (refl, (refl, (refl, (refl, (refl, tt))))));
}
undone (suc (suc (suc zero))) h = record {
  after = reached (surely_downgraded (take 1 (drop 3 (history 6 none))) (schema 4));
  came = refl;
  went = refl;
  back = refl;
  kept = (refl, (refl, (refl, (refl, (refl, (refl, tt))))));
  all_kept = (refl, (refl, (refl, (refl, (refl, (refl, tt))))));
}
undone (suc (suc (suc (suc zero)))) h = record {
  after = reached (surely_downgraded (take 1 (drop 4 (history 6 none))) (schema 5));
  came = refl;
  went = refl;
  back = refl;
  kept = (refl, (refl, (refl, tt)));
  all_kept = (refl, (refl, (refl, tt)));
}
undone (suc (suc (suc (suc (suc zero))))) h = record {
  after = reached (surely_downgraded (take 1 (drop 5 (history 6 none))) (schema 6));
  came = refl;
  went = refl;
  back = refl;
  kept = (refl, (refl, (refl, tt)));
  all_kept = (refl, (refl, (refl, tt)));
}
undone (suc (suc (suc (suc (suc (suc k)))))) h = absurd (omega arith)

-- Take a database in which no table mentions the names of the scripts. For each script: the upgrade
-- through those before it returns, the script's `upgrade` then returns, and its `downgrade` after
-- that returns too, to a database with the same tables as before its `upgrade`.
pub downgrade-upgrade :
    {ddl : Ddl} (pg : IsPostgres ddl) (d : ddl.Store) (k : ℕ)
    → k < 6
    → Unrelated scripts (ddl.catalog d)
    → (d₁ : ddl.Store) × (d₂ : ddl.Store) × (d₃ : ddl.Store) × (upgrade_through ddl
          (take k (history 6 none))
          d
        ≡ some d₁)
      × (upgrade_through ddl (take 1 (drop k (history 6 none))) d₁ ≡ some d₂)
      × (downgrade_through ddl (take 1 (drop k (history 6 none))) d₂ ≡ some d₃)
      × ((name : Text) → find_table name (ddl.catalog d₃) ≡ find_table name (ddl.catalog d₁))
downgrade-upgrade {ddl} pg d k bound h =
    let rest = ddl.catalog d in
    let all = Unrelated-history rest h in
    let one = Unrelated-take 1 _ rest (Unrelated-drop k (history 6 none) rest all) in
    let u = undone k bound in
    let (d₁, came, at₁) = upgrade-beside pg _ d [] rest (Unrelated-take k _ rest all) refl u.came in
    let (d₂, went, at₂) = upgrade-beside pg _ d₁ (schema k) rest one at₁ u.went in
    let (d₃, back, at₃) = downgrade-beside pg _ d₂ (schema (suc k)) rest one at₂ u.back in
    (
      d₁,
      d₂,
      d₃,
      came,
      went,
      back,
      λ name. rw (at₃, at₁, same_tables-append u.after (schema k) rest u.kept u.all_kept name),
    )
