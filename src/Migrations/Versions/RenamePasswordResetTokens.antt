-- ===== src/Migrations/Versions/RenamePasswordResetTokens.antt =====
-- migrations/versions/4a5651fa4918_rename_password_reset_tokens_to_.py
use hexagonal_auth_service.Base.{false, none, some, [], ◌∷◌, codes, List}
use hexagonal_auth_service.Migrations.Catalog.{
  column, varchar, boolean, uuid, timestamp, foreign_key, primary_key, Operation, create_table,
  drop_table, create_index, drop_index, Revision,
}

unfoldable pub upgrade : List Operation
unfolding codes column
upgrade =
    create_table (codes "password_recover_tokens")
      (column (codes "used") boolean false
        ∷ column (codes "id") uuid false
        ∷ column (codes "token_hash") (varchar 255) false
        ∷ column (codes "user_id") uuid false
        ∷ column (codes "expires_at") timestamp false
        ∷ [])
      ((none, foreign_key (codes "user_id" ∷ []) (codes "users") (codes "id" ∷ []) none)
        ∷ (none, primary_key (codes "id" ∷ []))
        ∷ [])
    ∷ create_index (codes "ix_password_recover_tokens_token_hash") (codes "password_recover_tokens")
        (codes "token_hash" ∷ []) false
    ∷ create_index (codes "ix_password_recover_tokens_user_id") (codes "password_recover_tokens")
        (codes "user_id" ∷ []) false
    ∷ drop_index (codes "ix_password_reset_tokens_token_hash") (codes "password_reset_tokens")
    ∷ drop_index (codes "ix_password_reset_tokens_user_id") (codes "password_reset_tokens")
    ∷ drop_table (codes "password_reset_tokens")
    ∷ []

unfoldable pub downgrade : List Operation
unfolding codes column
downgrade =
    create_table (codes "password_reset_tokens")
      (column (codes "used") boolean false
        ∷ column (codes "id") uuid false
        ∷ column (codes "token_hash") (varchar 255) false
        ∷ column (codes "user_id") uuid false
        ∷ column (codes "expires_at") timestamp false
        ∷ [])
      ((
        some (codes "password_reset_tokens_user_id_fkey"),
        foreign_key (codes "user_id" ∷ []) (codes "users") (codes "id" ∷ []) none,
      )
        ∷ (some (codes "password_reset_tokens_pkey"), primary_key (codes "id" ∷ []))
        ∷ [])
    ∷ create_index (codes "ix_password_reset_tokens_user_id") (codes "password_reset_tokens")
        (codes "user_id" ∷ []) false
    ∷ create_index (codes "ix_password_reset_tokens_token_hash") (codes "password_reset_tokens")
        (codes "token_hash" ∷ []) false
    ∷ drop_index (codes "ix_password_recover_tokens_user_id") (codes "password_recover_tokens")
    ∷ drop_index (codes "ix_password_recover_tokens_token_hash") (codes "password_recover_tokens")
    ∷ drop_table (codes "password_recover_tokens")
    ∷ []

-- the link to the revision before it
unfoldable pub revision : Revision
unfolding codes upgrade downgrade
revision = record {
  revision = codes "4a5651fa4918";
  down_revision = some (codes "abdf4009ef15");
  upgrade = upgrade;
  downgrade = downgrade;
}
