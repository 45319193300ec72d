-- ===== src/Migrations/Versions/AddVersions.antt =====
-- migrations/versions/5a61177eee13_add_versions.py
use hexagonal_auth_service.Base.{false, [], ◌∷◌, codes, List, some}
use hexagonal_auth_service.Migrations.Catalog.{
  column, integer, Operation, add_column, drop_column, Revision,
}

unfoldable pub upgrade : List Operation
unfolding codes column
upgrade =
    add_column (codes "one_time_tokens") (column (codes "version") integer false)
    ∷ add_column (codes "refresh_tokens") (column (codes "version") integer false)
    ∷ add_column (codes "users") (column (codes "version") integer false)
    ∷ []

unfoldable pub downgrade : List Operation
unfolding codes column
downgrade =
    drop_column (codes "users") (codes "version")
    ∷ drop_column (codes "refresh_tokens") (codes "version")
    ∷ drop_column (codes "one_time_tokens") (codes "version")
    ∷ []

-- the link to the revision before it
unfoldable pub revision : Revision
unfolding codes upgrade downgrade
revision = record {
  revision = codes "5a61177eee13";
  down_revision = some (codes "364c0924848c");
  upgrade = upgrade;
  downgrade = downgrade;
}
