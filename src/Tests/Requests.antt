-- ===== src/Tests/Requests.antt =====
-- A request for recovering ann's password, and the recovery with the string that it sends.
use hexagonal_auth_service.Base.{
  ◌≡◌, refl, true, false, some, [], ◌∷◌, ◌++◌, ◌+◌, codes, text_eq, count, Text, ◌≤◌, length, arith,
  strip, is_space,
}
use hexagonal_auth_service.Exec.{ok}
use hexagonal_auth_service.Events.{user_password_recover_requested}
use hexagonal_auth_service.Utils.{hash_token}
use hexagonal_auth_service.Schema.{OneTimeTokenRow}
use hexagonal_auth_service.World.{World, transaction}
use hexagonal_auth_service.User
use hexagonal_auth_service.OneTimeToken
use hexagonal_auth_service.Services.{request_password_recover}
use hexagonal_auth_service.Persistence.Sql.{update_where}
use hexagonal_auth_service.Persistence.Users
use hexagonal_auth_service.Persistence.OneTimeTokens
use hexagonal_auth_service.EventBus.Publisher.{publish}
use hexagonal_auth_service.Cases.Inputs.{PasswordRecoverRequestInputDto, PasswordRecoverInputDto}
use hexagonal_auth_service.Cases.Rows.{hits, owners}
use hexagonal_auth_service.Cases.Sent.{IsSent, addressed}
use hexagonal_auth_service.Cases.RecoverRequest
use hexagonal_auth_service.Cases.Recover
use hexagonal_auth_service.Cases.Recoverable.{request_recoverable}
use hexagonal_auth_service.Tests.Demo.{demo, start, ann}

abbrev forgot : PasswordRecoverRequestInputDto
forgot = record { email = codes "ann@example.com" }

-- the string that is sent
abbrev sent : Text
sent = 11 ∷ 32 ∷ []

abbrev token : OneTimeTokenRow
token = record {
  id = 112;
  token_hash = 36 ∷ sent;
  user_id = 1;
  expires_at = 25;
  version = 1;
  used = false;
  purpose = codes "recover_password";
}

abbrev asked : World
asked = record {
  calls = 14;
  db = record start.db { users = record ann { version = 2 } ∷ []; one_time_tokens = token ∷ [] };
  audit = [];
  notifications =
      record {
        timestamp = 13;
        payload = user_password_recover_requested 1 (codes "ann@example.com") sent;
      }
      ∷ [];
}

requests : RecoverRequest.execute forgot start ≡ (ok tt, asked)
unfolding RecoverRequest.execute RecoverRequest.request_recover transaction Users.get_by_email
    Users.save OneTimeTokens.save OneTimeTokens.domain2orm OneTimeTokens.purpose_value
    User.request_password_recover User.pull_domain_events OneTimeToken.create
    request_password_recover publish text_eq hash_token codes
requests = refl

stored : addressed forgot.email start ≡ ann ∷ []
unfolding text_eq codes
stored = refl

alone : count (Users.is_current (Users.orm2domain ann)) start.db.users ≡ 1
unfolding Users.is_current Users.orm2domain
alone = refl

tables : asked.db ≡ record start.db {
  users =
      update_where
        (Users.is_current (Users.orm2domain ann))
        (λ r. record ann { id = r.id; version = ann.version + 1 })
        start.db.users;
  one_time_tokens = start.db.one_time_tokens ++ token ∷ [];
}
unfolding Users.is_current Users.orm2domain update_where
tables = refl

purpose : token.purpose ≡ OneTimeTokens.purpose_value OneTimeToken.recover_password
unfolding OneTimeTokens.purpose_value codes
purpose = refl

sent_hash : token.token_hash ≡ hash_token sent
unfolding hash_token
sent_hash = refl

abbrev request :
    IsSent forgot.email true OneTimeToken.recover_password demo.password_recover_token_exp
      user_password_recover_requested start asked
request = record {
  user = ann;
  token = token;
  string = sent;
  time = 13;
  found = stored;
  status = refl;
  alone = alone;
  tables = tables;
  owned = refl;
  token_hash = sent_hash;
  usable = (refl, purpose);
  expires = refl;
  logged = refl;
  notified = refl;
}

abbrev answer : PasswordRecoverInputDto
answer = record { password_recover_token = sent; password = codes " other-word" }

fresh_hash : hits sent start ≡ []
fresh_hash = refl

long : 8 ≤ length (strip answer.password)
unfolding strip is_space codes
long = omega arith

short : length (strip answer.password) ≤ 255
unfolding strip is_space codes
short = omega arith

hashed : demo.hashpw (strip answer.password) (demo.gensalt 14) ≡ some (35 ∷ codes "other-word")
unfolding strip is_space codes
hashed = refl

request_recoverable_example :
    (v' : World) × (Recover.execute answer asked ≡ (ok tt, v'))
    × (owners 1 v'
        ≡ record ann { password_hash = 35 ∷ codes "other-word"; version = ann.version + 2 } ∷ [])
    × (hits sent v' ≡ record token { used = true; version = token.version + 1 } ∷ [])
unfolding update_where
request_recoverable_example =
    request_recoverable asked request refl refl fresh_hash refl refl answer
      (35 ∷ codes "other-word") refl long short hashed refl refl
