-- ===== src/Http/Client.antt =====
-- routers/dependencies/security.py: the address, the agent and the location that a request is taken to
-- have. The headers are as FastAPI gives them: `none` where there is none of the name.
pub mod Split
pub mod Address
pub mod Location
use hexagonal_auth_service.Base.{
  ℕ, Bool, false, ◌&&◌, not, Option, none, some, List, [], ◌∷◌, Text, codes, strip, text_eq, truthy,
  ◌==◌, if◌then◌else◌,
}
use hexagonal_auth_service.Env.{Env}

pub record HttpRequest : Type 0 where
  pub x_forwarded_for : Option Text
  pub x_real_ip : Option Text
  pub user_agent : Option Text
  pub cf_ipcountry : Option Text
  pub x_country_code : Option Text
  pub accept_language : Option Text
  pub client_host : Option Text

-- a character before the first part
abbrev pub onto_head : ℕ → List Text → List Text
onto_head c [] = (c ∷ []) ∷ []
onto_head c (t ∷ parts) = (c ∷ t) ∷ parts

-- `text.split(sep)` for a separator of one character
unfoldable pub split_on : ℕ → Text → List Text
split_on sep [] = [] ∷ []
split_on sep (c ∷ s) =
    let parts = split_on sep s in if c == sep then [] ∷ parts else onto_head c parts

-- `parts[0]`, on a list that is not empty
abbrev pub first_part : List Text → Text
first_part [] = []
first_part (t ∷ parts) = t

abbrev pub comma : ℕ
comma = b','

abbrev pub dash : ℕ
dash = b'-'

-- the branches of `get_client_ip`; an empty header counts as none
unfoldable pub pick_ip : Option Text → Option Text → Option Text → Text
unfolding split_on
pick_ip (some (c ∷ s)) real_ip host = strip (first_part (split_on comma (c ∷ s)))
pick_ip _ (some (c ∷ s)) host = strip (c ∷ s)
pick_ip _ _ (some host) = host
pick_ip _ _ none = codes "unknown"

unfoldable pub get_client_ip : HttpRequest → Text
unfolding pick_ip
get_client_ip request = pick_ip request.x_forwarded_for request.x_real_ip request.client_host

-- `user_agent or "unknown"`
unfoldable pub agent_or_unknown : Option Text → Text
agent_or_unknown (some (c ∷ s)) = c ∷ s
agent_or_unknown _ = codes "unknown"

unfoldable pub get_user_agent : HttpRequest → Text
unfolding agent_or_unknown
get_user_agent request = agent_or_unknown request.user_agent

-- `header == text`
unfoldable pub is_text : Option Text → Text → Bool
is_text none t = false
is_text (some s) t = text_eq s t

module _ ⦃env : Env⦄ where
  -- `parts[1].upper()` if there are two parts
  unfoldable pub second_upper : List Text → Option Text
  second_upper (a ∷ b ∷ parts) = some (env.upper b)
  second_upper _ = none

  -- "en-US,en;q=0.9" gives "US"
  unfoldable pub language_country : Option Text → Option Text
  unfolding split_on second_upper
  language_country (some (c ∷ s)) =
      second_upper (split_on dash (first_part (split_on comma (c ∷ s))))
  language_country _ = none

  unfoldable pub pick_location : Option Text → Option Text → Option Text → Option Text
  unfolding language_country is_text
  pick_location cf_ipcountry x_country_code accept_language =
      if truthy cf_ipcountry && not (is_text cf_ipcountry (codes "XX"))
      then cf_ipcountry
      else if truthy x_country_code
      then x_country_code
      else language_country accept_language

  unfoldable pub get_location : HttpRequest → Option Text
  unfolding pick_location
  get_location request =
      pick_location request.cf_ipcountry request.x_country_code request.accept_language
