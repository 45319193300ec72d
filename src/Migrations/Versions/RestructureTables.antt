-- ===== src/Migrations/Versions/RestructureTables.antt =====
-- migrations/versions/364c0924848c_restructure_tables.py
use hexagonal_auth_service.Base.{true, false, none, some, [], ◌∷◌, codes, List}
use hexagonal_auth_service.Migrations.Catalog.{
  column, varchar, boolean, uuid, timestamp, inet, jsonb, foreign_key, primary_key, Operation,
  create_table, drop_table, create_index, drop_index, Revision,
}

unfoldable pub upgrade : List Operation
unfolding codes column
upgrade =
    create_table (codes "one_time_tokens")
      (column (codes "used") boolean false
        ∷ column (codes "purpose") (varchar 255) false
        ∷ column (codes "id") uuid false
        ∷ column (codes "token_hash") (varchar 255) false
        ∷ column (codes "user_id") uuid false
        ∷ column (codes "expires_at") timestamp false
        ∷ [])
      ((none, foreign_key (codes "user_id" ∷ []) (codes "users") (codes "id" ∷ []) none)
        ∷ (none, primary_key (codes "id" ∷ []))
        ∷ [])
    ∷ create_index (codes "ix_one_time_tokens_token_hash") (codes "one_time_tokens")
        (codes "token_hash" ∷ []) false
    ∷ create_index (codes "ix_one_time_tokens_user_id") (codes "one_time_tokens")
        (codes "user_id" ∷ []) false
    ∷ drop_index (codes "ix_password_recover_tokens_token_hash") (codes "password_recover_tokens")
    ∷ drop_index (codes "ix_password_recover_tokens_user_id") (codes "password_recover_tokens")
    ∷ drop_table (codes "password_recover_tokens")
    ∷ drop_index (codes "ix_security_events_id") (codes "security_events")
    ∷ drop_index (codes "ix_security_events_user_id") (codes "security_events")
    ∷ drop_table (codes "security_events")
    ∷ drop_index (codes "ix_sent_emails_id") (codes "sent_emails")
    ∷ drop_index (codes "ix_sent_emails_user_id") (codes "sent_emails")
    ∷ drop_table (codes "sent_emails")
    ∷ drop_index (codes "ix_email_tokens_token_hash") (codes "email_tokens")
    ∷ drop_index (codes "ix_email_tokens_user_id") (codes "email_tokens")
    ∷ drop_table (codes "email_tokens")
    ∷ []

unfoldable pub downgrade : List Operation
unfolding codes column
downgrade =
    create_table (codes "email_tokens")
      (column (codes "used") boolean false
        ∷ column (codes "id") uuid false
        ∷ column (codes "token_hash") (varchar 255) false
        ∷ column (codes "user_id") uuid false
        ∷ column (codes "expires_at") timestamp false
        ∷ [])
      ((
        some (codes "email_tokens_user_id_fkey"),
        foreign_key (codes "user_id" ∷ []) (codes "users") (codes "id" ∷ []) none,
      )
        ∷ (some (codes "email_tokens_pkey"), primary_key (codes "id" ∷ []))
        ∷ [])
    ∷ create_index (codes "ix_email_tokens_user_id") (codes "email_tokens") (codes "user_id" ∷ [])
        false
    ∷ create_index (codes "ix_email_tokens_token_hash") (codes "email_tokens")
        (codes "token_hash" ∷ []) false
    ∷ create_table (codes "sent_emails")
        (column (codes "id") uuid false
          ∷ column (codes "user_id") uuid false
          ∷ column (codes "email_type") (varchar 255) false
          ∷ column (codes "email") (varchar 255) false
          ∷ column (codes "payload") jsonb false
          ∷ column (codes "sent_at") timestamp true
          ∷ [])
        ((
          some (codes "sent_emails_user_id_fkey"),
          foreign_key (codes "user_id" ∷ []) (codes "users") (codes "id" ∷ []) none,
        )
          ∷ (some (codes "sent_emails_pkey"), primary_key (codes "id" ∷ []))
          ∷ [])
    ∷ create_index (codes "ix_sent_emails_user_id") (codes "sent_emails") (codes "user_id" ∷ [])
        false
    ∷ create_index (codes "ix_sent_emails_id") (codes "sent_emails") (codes "id" ∷ []) false
    ∷ create_table (codes "security_events")
        (column (codes "id") uuid false
          ∷ column (codes "user_id") uuid false
          ∷ column (codes "event_type") (varchar 255) false
          ∷ column (codes "ip_address") inet true
          ∷ column (codes "user_agent") (varchar 512) true
          ∷ column (codes "created_at") timestamp false
          ∷ [])
        ((
          some (codes "security_events_user_id_fkey"),
          foreign_key (codes "user_id" ∷ []) (codes "users") (codes "id" ∷ []) none,
        )
          ∷ (some (codes "security_events_pkey"), primary_key (codes "id" ∷ []))
          ∷ [])
    ∷ create_index (codes "ix_security_events_user_id") (codes "security_events")
        (codes "user_id" ∷ []) false
    ∷ create_index (codes "ix_security_events_id") (codes "security_events") (codes "id" ∷ []) false
    ∷ create_table (codes "password_recover_tokens")
        (column (codes "used") boolean false
          ∷ column (codes "id") uuid false
          ∷ column (codes "token_hash") (varchar 255) false
          ∷ column (codes "user_id") uuid false
          ∷ column (codes "expires_at") timestamp false
          ∷ [])
        ((
          some (codes "password_recover_tokens_user_id_fkey"),
          foreign_key (codes "user_id" ∷ []) (codes "users") (codes "id" ∷ []) none,
        )
          ∷ (some (codes "password_recover_tokens_pkey"), primary_key (codes "id" ∷ []))
          ∷ [])
    ∷ create_index (codes "ix_password_recover_tokens_user_id") (codes "password_recover_tokens")
        (codes "user_id" ∷ []) false
    ∷ create_index (codes "ix_password_recover_tokens_token_hash") (codes "password_recover_tokens")
        (codes "token_hash" ∷ []) false
    ∷ drop_index (codes "ix_one_time_tokens_user_id") (codes "one_time_tokens")
    ∷ drop_index (codes "ix_one_time_tokens_token_hash") (codes "one_time_tokens")
    ∷ drop_table (codes "one_time_tokens")
    ∷ []

-- the link to the revision before it
unfoldable pub revision : Revision
unfolding codes upgrade downgrade
revision = record {
  revision = codes "364c0924848c";
  down_revision = some (codes "f5c23607d425");
  upgrade = upgrade;
  downgrade = downgrade;
}
