-- ===== src/Migrations/Versions/InitialTables.antt =====
-- migrations/versions/abdf4009ef15_initial_tables.py
use hexagonal_auth_service.Base.{true, false, none, [], ◌∷◌, codes, List}
use hexagonal_auth_service.Migrations.Catalog.{
  column, varchar, boolean, uuid, timestamp, inet, jsonb, foreign_key, primary_key, Operation,
  create_table, drop_table, create_index, drop_index, Revision,
}

unfoldable pub upgrade : List Operation
unfolding codes column
upgrade =
    create_table (codes "users")
      (column (codes "id") uuid false
        ∷ column (codes "email") (varchar 255) false
        ∷ column (codes "is_email_verified") boolean false
        ∷ column (codes "password_hash") (varchar 255) false
        ∷ column (codes "username") (varchar 50) false
        ∷ column (codes "active") boolean false
        ∷ column (codes "created_at") timestamp false
        ∷ [])
      ((none, primary_key (codes "id" ∷ [])) ∷ [])
    ∷ create_index (codes "ix_users_email") (codes "users") (codes "email" ∷ []) true
    ∷ create_index (codes "ix_users_id") (codes "users") (codes "id" ∷ []) false
    ∷ create_table (codes "email_tokens")
        (column (codes "used") boolean false
          ∷ column (codes "id") uuid false
          ∷ column (codes "token_hash") (varchar 255) false
          ∷ column (codes "user_id") uuid false
          ∷ column (codes "expires_at") timestamp false
          ∷ [])
        ((none, foreign_key (codes "user_id" ∷ []) (codes "users") (codes "id" ∷ []) none)
          ∷ (none, primary_key (codes "id" ∷ []))
          ∷ [])
    ∷ create_index (codes "ix_email_tokens_token_hash") (codes "email_tokens")
        (codes "token_hash" ∷ []) false
    ∷ create_index (codes "ix_email_tokens_user_id") (codes "email_tokens") (codes "user_id" ∷ [])
        false
    ∷ create_table (codes "password_reset_tokens")
        (column (codes "used") boolean false
          ∷ column (codes "id") uuid false
          ∷ column (codes "token_hash") (varchar 255) false
          ∷ column (codes "user_id") uuid false
          ∷ column (codes "expires_at") timestamp false
          ∷ [])
        ((none, foreign_key (codes "user_id" ∷ []) (codes "users") (codes "id" ∷ []) none)
          ∷ (none, primary_key (codes "id" ∷ []))
          ∷ [])
    ∷ create_index (codes "ix_password_reset_tokens_token_hash") (codes "password_reset_tokens")
        (codes "token_hash" ∷ []) false
    ∷ create_index (codes "ix_password_reset_tokens_user_id") (codes "password_reset_tokens")
        (codes "user_id" ∷ []) false
    ∷ create_table (codes "refresh_tokens")
        (column (codes "revoked_at") timestamp true
          ∷ column (codes "replaced_by_id") uuid true
          ∷ column (codes "created_at") timestamp false
          ∷ column (codes "id") uuid false
          ∷ column (codes "token_hash") (varchar 255) false
          ∷ column (codes "user_id") uuid false
          ∷ column (codes "expires_at") timestamp false
          ∷ [])
        ((none, foreign_key (codes "user_id" ∷ []) (codes "users") (codes "id" ∷ []) none)
          ∷ (none, primary_key (codes "id" ∷ []))
          ∷ [])
    ∷ create_index (codes "ix_refresh_tokens_token_hash") (codes "refresh_tokens")
        (codes "token_hash" ∷ []) false
    ∷ create_index (codes "ix_refresh_tokens_user_id") (codes "refresh_tokens")
        (codes "user_id" ∷ []) false
    ∷ create_table (codes "security_events")
        (column (codes "id") uuid false
          ∷ column (codes "user_id") uuid false
          ∷ column (codes "event_type") (varchar 255) false
          ∷ column (codes "ip_address") inet true
          ∷ column (codes "user_agent") (varchar 512) true
          ∷ column (codes "created_at") timestamp false
          ∷ [])
        ((none, foreign_key (codes "user_id" ∷ []) (codes "users") (codes "id" ∷ []) none)
          ∷ (none, primary_key (codes "id" ∷ []))
          ∷ [])
    ∷ create_index (codes "ix_security_events_id") (codes "security_events") (codes "id" ∷ []) false
    ∷ create_index (codes "ix_security_events_user_id") (codes "security_events")
        (codes "user_id" ∷ []) false
    ∷ create_table (codes "sent_emails")
        (column (codes "id") uuid false
          ∷ column (codes "user_id") uuid false
          ∷ column (codes "email_type") (varchar 255) false
          ∷ column (codes "email") (varchar 255) false
          ∷ column (codes "payload") jsonb false
          ∷ column (codes "sent_at") timestamp true
          ∷ [])
        ((none, foreign_key (codes "user_id" ∷ []) (codes "users") (codes "id" ∷ []) none)
          ∷ (none, primary_key (codes "id" ∷ []))
          ∷ [])
    ∷ create_index (codes "ix_sent_emails_id") (codes "sent_emails") (codes "id" ∷ []) false
    ∷ create_index (codes "ix_sent_emails_user_id") (codes "sent_emails") (codes "user_id" ∷ [])
        false
    ∷ []

unfoldable pub downgrade : List Operation
unfolding codes column
downgrade =
    drop_index (codes "ix_sent_emails_user_id") (codes "sent_emails")
    ∷ drop_index (codes "ix_sent_emails_id") (codes "sent_emails")
    ∷ drop_table (codes "sent_emails")
    ∷ drop_index (codes "ix_security_events_user_id") (codes "security_events")
    ∷ drop_index (codes "ix_security_events_id") (codes "security_events")
    ∷ drop_table (codes "security_events")
    ∷ drop_index (codes "ix_refresh_tokens_user_id") (codes "refresh_tokens")
    ∷ drop_index (codes "ix_refresh_tokens_token_hash") (codes "refresh_tokens")
    ∷ drop_table (codes "refresh_tokens")
    ∷ drop_index (codes "ix_password_reset_tokens_user_id") (codes "password_reset_tokens")
    ∷ drop_index (codes "ix_password_reset_tokens_token_hash") (codes "password_reset_tokens")
    ∷ drop_table (codes "password_reset_tokens")
    ∷ drop_index (codes "ix_email_tokens_user_id") (codes "email_tokens")
    ∷ drop_index (codes "ix_email_tokens_token_hash") (codes "email_tokens")
    ∷ drop_table (codes "email_tokens")
    ∷ drop_index (codes "ix_users_id") (codes "users")
    ∷ drop_index (codes "ix_users_email") (codes "users")
    ∷ drop_table (codes "users")
    ∷ []

-- the link to the revision before it
unfoldable pub revision : Revision
unfolding codes upgrade downgrade
revision = record {
  revision = codes "abdf4009ef15";
  down_revision = none;
  upgrade = upgrade;
  downgrade = downgrade;
}
