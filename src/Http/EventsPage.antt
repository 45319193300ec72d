-- ===== src/Http/EventsPage.antt =====
-- routers/events.py: the page of the audit log. The template is left out: a page is what it is given.
pub mod Display
pub mod Pages
use hexagonal_auth_service.Base.{
  ℕ, suc, ◌+◌, ◌-◌, ◌*◌, Bool, true, false, Option, none, some, List, [], ◌∷◌, ◌++◌, map, filter,
  length, take, Text, codes, ltb, leb, if◌then◌else◌, not, ◌==◌,
}
use hexagonal_auth_service.Base.Int.{ℤ, pos}
use hexagonal_auth_service.Env.{Env}
use hexagonal_auth_service.Events.{
  Event, Payload, user_created, user_activated, user_deactivated, user_email_verified,
  user_password_changed, user_password_recovered, user_email_verification_requested,
  user_password_recover_requested, refresh_token_created, refresh_token_revoked,
  refresh_token_reuse_detected, suspicious_refresh_token_revocation,
}
use hexagonal_auth_service.Events.Serializer.{type_name}
use hexagonal_auth_service.EventBus.RedisQueue.{get}

-- the value of a field of an event, by its Python type
pub data FieldValue : Type 0 where
  date_time uuid : ℕ → FieldValue
  text : Text → FieldValue
  nothing : FieldValue

-- a field `str | None`
abbrev pub text_or_nothing : Option Text → FieldValue
text_or_nothing none = nothing
text_or_nothing (some t) = text t

-- the entries of `event.__dict__`, in the order in which the classes declare them
unfoldable pub payload_dict : Payload → List (Text × FieldValue)
payload_dict (user_created u e) = (codes "user_id", uuid u) ∷ (codes "email", text e) ∷ []
payload_dict (user_activated u) = (codes "user_id", uuid u) ∷ []
payload_dict (user_deactivated u) = (codes "user_id", uuid u) ∷ []
payload_dict (user_email_verified u e) = (codes "user_id", uuid u) ∷ (codes "email", text e) ∷ []
payload_dict (user_password_changed u) = (codes "user_id", uuid u) ∷ []
payload_dict (user_password_recovered u) = (codes "user_id", uuid u) ∷ []
payload_dict (user_email_verification_requested u e t) =
    (codes "user_id", uuid u) ∷ (codes "email", text e) ∷ (codes "token", text t) ∷ []
payload_dict (user_password_recover_requested u e t) =
    (codes "user_id", uuid u) ∷ (codes "email", text e) ∷ (codes "token", text t) ∷ []
payload_dict (refresh_token_created u t ip agent place) =
    (codes "user_id", uuid u)
    ∷ (codes "token_id", uuid t)
    ∷ (codes "client_ip", text_or_nothing ip)
    ∷ (codes "user_agent", text_or_nothing agent)
    ∷ (codes "location", text_or_nothing place)
    ∷ []
payload_dict (refresh_token_revoked u t) =
    (codes "user_id", uuid u) ∷ (codes "token_id", uuid t) ∷ []
payload_dict (refresh_token_reuse_detected u t ip agent place) =
    (codes "user_id", uuid u)
    ∷ (codes "token_id", uuid t)
    ∷ (codes "client_ip", text_or_nothing ip)
    ∷ (codes "user_agent", text_or_nothing agent)
    ∷ (codes "location", text_or_nothing place)
    ∷ []
payload_dict (suspicious_refresh_token_revocation u t ip agent place) =
    (codes "user_id", uuid u)
    ∷ (codes "token_id", uuid t)
    ∷ (codes "client_ip", text_or_nothing ip)
    ∷ (codes "user_agent", text_or_nothing agent)
    ∷ (codes "location", text_or_nothing place)
    ∷ []

unfoldable pub dict : Event → List (Text × FieldValue)
unfolding payload_dict
dict e = (codes "timestamp", date_time e.timestamp) ∷ payload_dict e.payload

-- `key.startswith('_')`
unfoldable pub is_hidden : Text → Bool
is_hidden [] = false
is_hidden (c ∷ key) = c == b'_'

abbrev pub max_shown : ℕ
max_shown = 150

pub record EventData : Type 0 where
  pub event_type : Text
  pub timestamp : Text
  pub fields : List (Text × Text)

pub record Page : Type 0 where
  pub events : List EventData
  pub page : ℕ
  pub has_next : Bool
  pub has_prev : Bool
  pub next_page : ℕ
  pub prev_page : ℕ

abbrev pub per_page : ℕ
per_page = 10

module _ ⦃env : Env⦄ where
  unfoldable pub serialize_value : FieldValue → Text
  serialize_value (date_time t) = env.strftime t
  serialize_value (uuid u) = env.uuid_text u
  serialize_value nothing = codes "null"
  serialize_value (text value) =
      if leb (length value) max_shown then value else take max_shown value ++ codes "..."

  -- the loop over `event.__dict__`
  unfoldable pub show_fields : List (Text × FieldValue) → List (Text × Text)
  unfolding is_hidden serialize_value
  show_fields [] = []
  show_fields ((key, value) ∷ items) =
      if is_hidden key then show_fields items else (key, serialize_value value) ∷ show_fields items

  unfoldable pub event_to_dict : Event → List (Text × Text)
  unfolding dict show_fields
  event_to_dict event = show_fields (dict event)

  -- Every event has a `timestamp`, which is a `datetime` and so is never false.
  unfoldable pub get_event_timestamp : Event → Text
  get_event_timestamp event = env.strftime event.timestamp

  unfoldable pub event_data : Event → EventData
  unfolding type_name get_event_timestamp event_to_dict
  event_data event = record {
    event_type = type_name event.payload;
    timestamp = get_event_timestamp event;
    fields = event_to_dict event;
  }

  -- `page` is at least 1, as FastAPI checks; the state is the number of calls to the outside.
  unfoldable pub events_page : ℕ → List Text → ℕ → Page × ℕ
  unfolding event_data
  events_page page stored n =
      let offset = (page - 1) * per_page in
      let (events, n₁) = get stored (pos offset) (pos per_page) true n in
      let (next_page_events, n₂) = get stored (pos (offset + per_page)) (pos 1) false n₁ in
      (
        record {
          events = map event_data events;
          page = page;
          has_next = ltb 0 (length next_page_events);
          has_prev = ltb 1 page;
          next_page = page + 1;
          prev_page = page - 1;
        },
        n₂,
      )
