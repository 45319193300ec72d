-- ===== src/Migrations/Versions/AddOnDeleteCascade.antt =====
-- migrations/versions/4dd9b045d9d8_add_on_delete_cascade_to_token_fks.py
use hexagonal_auth_service.Base.{none, some, [], ◌∷◌, codes, List}
use hexagonal_auth_service.Migrations.Catalog.{
  Operation, drop_constraint, create_foreign_key, Revision,
}

unfoldable pub upgrade : List Operation
unfolding codes
upgrade =
    drop_constraint (codes "one_time_tokens_user_id_fkey") (codes "one_time_tokens")
    ∷ create_foreign_key (codes "one_time_tokens_user_id_fkey") (codes "one_time_tokens")
        (codes "users") (codes "user_id" ∷ []) (codes "id" ∷ []) (some (codes "CASCADE"))
    ∷ drop_constraint (codes "refresh_tokens_user_id_fkey") (codes "refresh_tokens")
    ∷ create_foreign_key (codes "refresh_tokens_user_id_fkey") (codes "refresh_tokens")
        (codes "users") (codes "user_id" ∷ []) (codes "id" ∷ []) (some (codes "CASCADE"))
    ∷ []

unfoldable pub downgrade : List Operation
unfolding codes
downgrade =
    drop_constraint (codes "refresh_tokens_user_id_fkey") (codes "refresh_tokens")
    ∷ create_foreign_key (codes "refresh_tokens_user_id_fkey") (codes "refresh_tokens")
        (codes "users") (codes "user_id" ∷ []) (codes "id" ∷ []) none
    ∷ drop_constraint (codes "one_time_tokens_user_id_fkey") (codes "one_time_tokens")
    ∷ create_foreign_key (codes "one_time_tokens_user_id_fkey") (codes "one_time_tokens")
        (codes "users") (codes "user_id" ∷ []) (codes "id" ∷ []) none
    ∷ []

-- the link to the revision before it
unfoldable pub revision : Revision
unfolding codes upgrade downgrade
revision = record {
  revision = codes "4dd9b045d9d8";
  down_revision = some (codes "5a61177eee13");
  upgrade = upgrade;
  downgrade = downgrade;
}
