-- ===== src/Migrations/Versions/RemoveUsernameField.antt =====
-- migrations/versions/f5c23607d425_remove_username_field.py
use hexagonal_auth_service.Base.{false, [], ◌∷◌, codes, List, some}
use hexagonal_auth_service.Migrations.Catalog.{
  column, varchar, Operation, add_column, drop_column, Revision,
}

unfoldable pub upgrade : List Operation
unfolding codes column
upgrade = drop_column (codes "users") (codes "username") ∷ []

unfoldable pub downgrade : List Operation
unfolding codes column
downgrade = add_column (codes "users") (column (codes "username") (varchar 50) false) ∷ []

-- the link to the revision before it
unfoldable pub revision : Revision
unfolding codes upgrade downgrade
revision = record {
  revision = codes "f5c23607d425";
  down_revision = some (codes "4a5651fa4918");
  upgrade = upgrade;
  downgrade = downgrade;
}
