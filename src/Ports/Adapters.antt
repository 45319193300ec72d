-- ===== src/Ports/Adapters.antt =====
-- The adapters behind the ports: the classes of app/adapters/outbound that extend a protocol.
use hexagonal_auth_service.Base.{List, Text}
use hexagonal_auth_service.Env.{Env}
use hexagonal_auth_service.Events.{Event}
use hexagonal_auth_service.World.{transaction}
use hexagonal_auth_service.AccessToken
use hexagonal_auth_service.Persistence.Users
use hexagonal_auth_service.Persistence.OneTimeTokens
use hexagonal_auth_service.Persistence.RefreshTokens
use hexagonal_auth_service.EventBus.Memory
use hexagonal_auth_service.EventBus.RedisQueue
use hexagonal_auth_service.EventBus.Publisher
use hexagonal_auth_service.Ports.{
  UserRepositoryPort, OneTimeTokenRepositoryPort, RefreshTokenRepositoryPort, TransactionPort,
  AccessTokenIssuerPort, AccessTokenVerifierPort, EventPublisherPort, EventQueuePort,
  NotificationPort,
}

unfoldable pub in_memory_event_queue : EventQueuePort (List Event)
in_memory_event_queue = record {
  push = Memory.push;
  get = λ events offset limit desc n. (Memory.get events offset limit desc, n);
}

unfoldable pub in_memory_notification_queue : NotificationPort (List Event)
in_memory_notification_queue = record {
  push = Memory.push_notification;
  get_all = Memory.get_all;
  clear = Memory.clear;
}

module _ ⦃env : Env⦄ where
  unfoldable pub redis_event_queue : EventQueuePort (List Text)
  redis_event_queue = record { push = RedisQueue.push; get = RedisQueue.get }

  unfoldable pub event_publisher : EventPublisherPort
  event_publisher = record { publish = Publisher.publish }

  unfoldable pub user_repository : UserRepositoryPort
  user_repository = record {
    repository = record { save = Users.save; delete = Users.delete };
    get_by_email = Users.get_by_email;
    get_by_id = Users.get_by_id;
  }

  unfoldable pub one_time_token_repository : OneTimeTokenRepositoryPort
  one_time_token_repository = record {
    repository = record { save = OneTimeTokens.save; delete = OneTimeTokens.delete };
    get_by_string = OneTimeTokens.get_by_string;
  }

  unfoldable pub refresh_token_repository : RefreshTokenRepositoryPort
  refresh_token_repository = record {
    repository = record { save = RefreshTokens.save; delete = RefreshTokens.delete };
    get_by_string = RefreshTokens.get_by_string;
    get_all_by_user = RefreshTokens.get_all_by_user;
  }

  unfoldable pub sqlalchemy_transaction : TransactionPort
  sqlalchemy_transaction = record { within = transaction }

  unfoldable pub access_token_issuer : AccessTokenIssuerPort
  access_token_issuer = record { issue = AccessToken.issue }

  unfoldable pub access_token_verifier : AccessTokenVerifierPort
  access_token_verifier = record { verify = AccessToken.verify }
