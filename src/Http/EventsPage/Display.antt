-- ===== src/Http/EventsPage/Display.antt =====
-- What a page shows of an event.
use hexagonal_auth_service.Base.{
  ℕ, zero, suc, ◌+◌, ◌≤◌, ◌≡◌, refl, List, [], ◌∷◌, ◌++◌, map, filter, length, take, length-append,
  leb, if◌then◌else◌, Text, codes, arith,
}
use hexagonal_auth_service.Env.{Env}
use hexagonal_auth_service.Events.{Event, Payload, user_activated}
use hexagonal_auth_service.Http.EventsPage.{
  FieldValue, date_time, uuid, text, nothing, dict, payload_dict, is_hidden, serialize_value,
  show_fields, event_to_dict, max_shown,
}

length-take_le : {A : Type 0} (n : ℕ) (xs : List A) → length (take n xs) ≤ n
length-take_le zero xs = omega arith
length-take_le (suc n) [] = omega arith
length-take_le (suc n) (x ∷ xs) = omega (arith, length-take_le n xs)

truncated_length :
    (n : ℕ) (t dots : Text)
    → length (if leb (length t) n then t else take n t ++ dots) ≤ n + length dots
truncated_length n t dots = ground (arith, length-append (take n t) dots, length-take_le n t)

-- every entry of a shown event has at most so many characters
abbrev pub IsShort : ℕ → List (Text × Text) → Type 0
IsShort n [] = Unit
IsShort n ((key, value) ∷ items) = (length value ≤ n) × IsShort n items

payload_keys :
    (p : Payload) → filter (λ (kv : Text × FieldValue). is_hidden kv.0) (payload_dict p) ≡ []
unfolding payload_dict is_hidden codes
payload_keys (user_activated u) = refl
payload_keys _ = refl

module _ ⦃env : Env⦄ where
  -- What `datetime` and `uuid` document: "2026-01-27 23:11:14" and the form with hyphens.
  pub record IsFormatted : Type 0 where
    pub strftime_length : (t : ℕ) → length (env.strftime t) ≡ 19
    pub uuid_length : (u : ℕ) → length (env.uuid_text u) ≡ 36

  serialize_value-le : IsFormatted → (v : FieldValue) → length (serialize_value v) ≤ 153
  unfolding serialize_value codes
  serialize_value-le law (date_time t) = omega (arith, law.strftime_length t)
  serialize_value-le law (uuid u) = omega (arith, law.uuid_length u)
  serialize_value-le law nothing = omega arith
  serialize_value-le law (text t) = truncated_length max_shown t (b'.' ∷ b'.' ∷ b'.' ∷ [])

  show_fields-IsShort :
      IsFormatted → (items : List (Text × FieldValue)) → IsShort 153 (show_fields items)
  unfolding show_fields
  show_fields-IsShort law [] = tt
  show_fields-IsShort law ((key, value) ∷ items) =
      ground (arith, serialize_value-le law value, show_fields-IsShort law items)

  show_fields-keys :
      (items : List (Text × FieldValue))
      → filter (λ (kv : Text × FieldValue). is_hidden kv.0) items ≡ []
      → map (λ (kv : Text × Text). kv.0) (show_fields items)
        ≡ map (λ (kv : Text × FieldValue). kv.0) items
  unfolding show_fields
  show_fields-keys [] h = refl
  show_fields-keys ((key, value) ∷ items) h = ground (arith, show_fields-keys items)

  -- The page shows every field of an event, under its name and in its order, and no value takes more
  -- than 153 characters, however long the text in the event is.
  pub event_to_dict_bounds :
      IsFormatted
      → (e : Event)
      → (map (λ (kv : Text × Text). kv.0) (event_to_dict e)
          ≡ map (λ (kv : Text × FieldValue). kv.0) (dict e))
        × IsShort 153 (event_to_dict e)
  unfolding event_to_dict codes is_hidden
  event_to_dict_bounds law e =
      (show_fields-keys (dict e) (payload_keys e.payload), show_fields-IsShort law (dict e))
