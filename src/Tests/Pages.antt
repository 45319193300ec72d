-- ===== src/Tests/Pages.antt =====
-- The events page at a concrete log.
use hexagonal_auth_service.Base.{
  ◌+◌, ◌*◌, ◌<◌, ◌≡◌, refl, ◌↔◌, true, some, map, reverse, take, drop, length, Text, codes,
}
use hexagonal_auth_service.Env.{Env}
use hexagonal_auth_service.Events.{Event, user_created}
use hexagonal_auth_service.Events.Serializer.{serialize}
use hexagonal_auth_service.Http.EventsPage.{
  FieldValue, dict, event_to_dict, event_data, events_page,
}
use hexagonal_auth_service.Http.EventsPage.Display.{IsFormatted, IsShort, event_to_dict_bounds}
use hexagonal_auth_service.Http.EventsPage.Pages.{follow, events_page_lem, follow_all}
use hexagonal_auth_service.Tests.Demo.{demo}
use hexagonal_auth_service.Tests.Texts.{demo-IsReadBack}
use hexagonal_auth_service.Tests.Queues.{demo-IsRedis, logged, logged-AllDomain}

-- the demonstration with times and UUIDs of their real lengths
abbrev printing : Env
printing = record demo {
  strings = record demo.strings {
    uuid_text = λ u. codes "00000000-0000-0000-0000-000000000000";
    strftime = λ t. codes "2026-01-27 23:11:14";
  };
}

printing-IsFormatted : IsFormatted ⦃env = printing⦄
unfolding codes
printing-IsFormatted = record { strftime_length = λ t. refl; uuid_length = λ u. refl }

abbrev welcome : Event
welcome = record { timestamp = 4; payload = user_created 1 (codes "ann@example.com") }

event_to_dict_bounds_example :
    (map (λ (kv : Text × Text). kv.0) (event_to_dict ⦃env = printing⦄ welcome)
      ≡ map (λ (kv : Text × FieldValue). kv.0) (dict welcome))
    × IsShort 153 (event_to_dict ⦃env = printing⦄ welcome)
event_to_dict_bounds_example = event_to_dict_bounds ⦃env = printing⦄ printing-IsFormatted welcome

events_page_lem_example :
    let p = (events_page 1 (map serialize logged) 9).0 in
    (p.events ≡ map event_data (take 10 (drop (10 * 0) (reverse logged))))
    × ((p.has_next ≡ true) ↔ (10 * (0 + 1) < length logged))
    × ((p.has_prev ≡ true) ↔ (0 < 0))
    × (p.next_page ≡ 0 + 2)
    × (p.prev_page ≡ 0)
events_page_lem_example = events_page_lem demo-IsRedis demo-IsReadBack logged logged-AllDomain 0 9

follow_all_example : follow 3 1 (map serialize logged) 9 ≡ some (map event_data (reverse logged))
follow_all_example = follow_all demo-IsRedis demo-IsReadBack logged logged-AllDomain 9
