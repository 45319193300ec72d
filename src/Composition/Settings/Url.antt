-- ===== src/Composition/Settings/Url.antt =====
-- app/config/settings.py: the URL of the database and its parts.
use hexagonal_auth_service.Base.{ℕ, ◌≡◌, refl, [], ◌∷◌, ◌++◌, Text, codes, append_assoc, arith}
use hexagonal_auth_service.Env.{Env}
use hexagonal_auth_service.Http.Client.Split.{Avoids}
use hexagonal_auth_service.Composition.Settings.{
  Settings, colon, at_sign, slash, location_part, database_url,
}

same-append : (s u v : Text) → s ++ u ≡ s ++ v → u ≡ v
same-append [] u v h = h
same-append (c ∷ s) u v h = same-append s u v (ground arith)

-- two texts that agree up to a separator and beyond it
separated :
    (sep : ℕ) (s t u v : Text)
    → Avoids sep s
    → Avoids sep t
    → s ++ sep ∷ u ≡ t ++ sep ∷ v
    → (s ≡ t) × (u ≡ v)
separated sep [] [] u v h k e = (refl, ground arith)
separated sep [] (d ∷ t) u v h k e = absurd (k.0 (ground arith))
separated sep (c ∷ s) [] u v h k e = absurd (h.0 (ground arith))
separated sep (c ∷ s) (d ∷ t) u v h k e =
    let (rest, after) = separated sep s t u v h.1 k.1 (ground arith) in (ground arith, after)

module _ ⦃env : Env⦄ where
  -- Settings whose parts are free of the separator that ends each of them.
  pub record IsPlain (s : Settings) : Type 0 where
    pub user : Avoids colon s.postgres_user
    pub password : Avoids at_sign s.postgres_password
    pub host : Avoids colon s.postgres_host
    pub port : Avoids slash (env.int_text s.postgres_port)

  -- Two settings with the same URL of the database have the same user, password, host, text of the port
  -- and database, if in both the user and the host have no ":", the password no "@" and the port no "/".
  pub database_url_plain :
      (s t : Settings)
      → IsPlain s
      → IsPlain t
      → database_url s ≡ database_url t
      → (s.postgres_user ≡ t.postgres_user)
        × (s.postgres_password ≡ t.postgres_password)
        × (s.postgres_host ≡ t.postgres_host)
        × (env.int_text s.postgres_port ≡ env.int_text t.postgres_port)
        × (s.postgres_db ≡ t.postgres_db)
  unfolding database_url location_part
  database_url_plain s t p q e =
      let (user, e₁) =
        separated colon s.postgres_user t.postgres_user _ _ p.user q.user
          (same-append (codes "postgresql+asyncpg://") _ _ e) in
      let (password, e₂) =
        separated at_sign s.postgres_password t.postgres_password _ _ p.password q.password e₁ in
      let (host, e₃) = separated colon s.postgres_host t.postgres_host _ _ p.host q.host e₂ in
      let (port, db) =
        separated slash (env.int_text s.postgres_port) (env.int_text t.postgres_port) _ _ p.port
          q.port e₃ in
      (user, password, host, port, db)

  -- The URL does not escape its parts: a password with an "@" gives the URL of the password before the
  -- "@" and a host that starts with what follows it.
  pub password_moves_host :
      (s : Settings) (before after : Text)
      → database_url (record s { postgres_password = before ++ at_sign ∷ after })
        ≡ database_url (record s {
          postgres_password = before;
          postgres_host = after ++ at_sign ∷ s.postgres_host;
        })
  unfolding database_url location_part
  password_moves_host s before after = simp append_assoc
