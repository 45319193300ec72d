-- ===== src/Events/Serializer/RoundTrip.antt =====
-- app/core/domain/events/serializer.py: serialized events and what is read back.
use hexagonal_auth_service.Base.{
  ℕ, ◌≡◌, refl, true, false, Option, none, some, List, [], ◌∷◌, ◌++◌, Text, codes, text_eq,
}
use hexagonal_auth_service.Errors.{key_error}
use hexagonal_auth_service.Exec.{ok, err}
use hexagonal_auth_service.Env.{Env, Value, text, object}
use hexagonal_auth_service.Events.{
  Event, Payload, user_created, user_activated, user_deactivated, user_email_verified,
  user_password_changed, user_password_recovered, user_email_verification_requested,
  user_password_recover_requested, refresh_token_created, refresh_token_revoked,
  refresh_token_reuse_detected, suspicious_refresh_token_revocation,
}
use hexagonal_auth_service.Events.Kinds.{is_domain}
use hexagonal_auth_service.Events.Serializer.{
  serialize, deserialize, model_dump, type_name, optional, as_optional, type_key,
}

module _ ⦃env : Env⦄ where
  -- the document of an event
  abbrev pub document : Event → List (Text × Value)
  document e = model_dump e ++ (type_key, text (type_name e.payload)) ∷ []

  -- What `json` and pydantic document: a document of texts and nulls, a time and a UUID are read back
  -- from the text that was written for them.
  pub record IsReadBack : Type 0 where
    pub loads_dumps : (e : Event) → env.loads (env.dumps (document e)) ≡ object (document e)
    pub time_read : (t : ℕ) → env.validate_time (text (env.time_text t)) ≡ some t
    pub uuid_read : (u : ℕ) → env.validate_uuid (text (env.uuid_text u)) ≡ some u

  as_optional-optional : (o : Option Text) → as_optional (some (optional o)) ≡ some o
  unfolding as_optional optional
  as_optional-optional none = refl
  as_optional-optional (some t) = refl

  -- one payload: the document is read, then its fields
  abbrev at_payload : ℕ → Payload → Event
  at_payload t p = record { timestamp = t; payload = p }

  read_back :
      IsReadBack
      → (t : ℕ) (p : Payload) (n : ℕ) → is_domain (at_payload t p) ≡ true
      → deserialize (serialize (at_payload t p)) n ≡ (ok (at_payload t p), n)
  unfolding deserialize serialize is_domain codes text_eq
  read_back law t (user_created u e) n h =
      rw (law.loads_dumps (at_payload t (user_created u e)), deserialize)
        (rw (law.time_read t, law.uuid_read u) refl)
  read_back law t (user_activated u) n h =
      rw (law.loads_dumps (at_payload t (user_activated u)), deserialize)
        (rw (law.time_read t, law.uuid_read u) refl)
  read_back law t (user_deactivated u) n h =
      rw (law.loads_dumps (at_payload t (user_deactivated u)), deserialize)
        (rw (law.time_read t, law.uuid_read u) refl)
  read_back law t (user_email_verified u e) n h =
      rw (law.loads_dumps (at_payload t (user_email_verified u e)), deserialize)
        (rw (law.time_read t, law.uuid_read u) refl)
  read_back law t (user_password_changed u) n h =
      rw (law.loads_dumps (at_payload t (user_password_changed u)), deserialize)
        (rw (law.time_read t, law.uuid_read u) refl)
  read_back law t (user_password_recovered u) n h =
      rw (law.loads_dumps (at_payload t (user_password_recovered u)), deserialize)
        (rw (law.time_read t, law.uuid_read u) refl)
  read_back law t (refresh_token_revoked u v) n h =
      rw (law.loads_dumps (at_payload t (refresh_token_revoked u v)), deserialize)
        (rw (law.time_read t, law.uuid_read u, law.uuid_read v) refl)
  read_back law t (refresh_token_created u v ip agent place) n h =
      rw (law.loads_dumps (at_payload t (refresh_token_created u v ip agent place)), deserialize)
        (rw
          (
            law.time_read t,
            law.uuid_read u,
            law.uuid_read v,
            as_optional-optional ip,
            as_optional-optional agent,
            as_optional-optional place,
          )
          refl)
  read_back law t (user_email_verification_requested u e s) n h = cc
  read_back law t (user_password_recover_requested u e s) n h = cc
  read_back law t (refresh_token_reuse_detected u v ip agent place) n h = cc
  read_back law t (suspicious_refresh_token_revocation u v ip agent place) n h = cc

  refused :
      IsReadBack
      → (t : ℕ) (p : Payload) (n : ℕ) → is_domain (at_payload t p) ≡ false
      → deserialize (serialize (at_payload t p)) n ≡ (err key_error, n)
  unfolding deserialize serialize is_domain codes text_eq
  refused law t (user_email_verification_requested u e s) n h =
      rw (law.loads_dumps (at_payload t (user_email_verification_requested u e s)), deserialize)
        refl
  refused law t (user_password_recover_requested u e s) n h =
      rw (law.loads_dumps (at_payload t (user_password_recover_requested u e s)), deserialize) refl
  refused law t (refresh_token_reuse_detected u v ip agent place) n h =
      rw
        (
          law.loads_dumps (at_payload t (refresh_token_reuse_detected u v ip agent place)),
          deserialize,
        )
        refl
  refused law t (suspicious_refresh_token_revocation u v ip agent place) n h =
      rw
        (
          law.loads_dumps (at_payload t (suspicious_refresh_token_revocation u v ip agent place)),
          deserialize,
        )
        refl
  refused law t _ n h = cc

  -- Every `DomainEvent` that is serialized is deserialized to the same event, of the same class and with
  -- the same timestamp and fields, and no time is asked for in doing so.
  pub deserialize-serialize :
      IsReadBack
      → (e : Event) (n : ℕ) → is_domain e ≡ true
      → deserialize (serialize e) n ≡ (ok e, n)
  deserialize-serialize law e n h = read_back law e.timestamp e.payload n h

  -- What is stored under another name of an event class is refused with `KeyError`: the document of an
  -- event that is no `DomainEvent` cannot be read back.
  pub deserialize-unregistered :
      IsReadBack
      → (e : Event) (n : ℕ) → is_domain e ≡ false
      → deserialize (serialize e) n ≡ (err key_error, n)
  deserialize-unregistered law e n h = refused law e.timestamp e.payload n h
