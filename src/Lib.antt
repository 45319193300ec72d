-- ===== src/Lib.antt =====
-- An authentication service in the ports-and-adapters style: registration with a confirmed address,
-- login, rotation of refresh tokens, change and recovery of passwords, and an audit log of events.
--
-- The parts and their files:
-- - app/core/domain/entities: `User` (User.antt), `OneTimeToken` (OneTimeToken.antt) and `RefreshToken`
--   (RefreshToken.antt). A method is a function on `Live`, the object with the number of calls made to
--   the outside (Live.antt); the Python name is kept, with `use` written `use_token`.
-- - app/core/domain/services: Services.antt, and the security policy in RiskPolicy.antt.
-- - app/core/domain/validators: Validators/Email.antt and Validators/Password.antt.
-- - app/core/domain/events and app/application/events: Events.antt, Events/Kinds.antt and
--   Events/Serializer.antt.
-- - app/core/domain/exceptions and app/application/exceptions: Errors.antt.
-- - app/core/utils: Utils.antt.
-- - app/application/cases/user: one file each under Cases, with the DTOs in Cases/Inputs.antt. The block
--   under the transaction is a function of its own, and `execute` runs it and then publishes.
-- - app/adapters/outbound/persistence/sqlalchemy: the rows in Schema.antt and the
--   declared constraints in Schema/Constraints.antt, the repositories under Persistence, the
--   transaction in World.antt. A table is the list of its rows.
-- - app/adapters/outbound/event_bus: EventBus/Memory.antt, EventBus/RedisQueue.antt and
--   EventBus/Publisher.antt.
-- - app/adapters/outbound/access_token: AccessToken.antt.
-- - app/core/ports: Ports.antt, with the adapters behind the ports in Ports/Adapters.antt.
-- - app/adapters/inbound/http/routers/auth.py and schemas.py: Http/Endpoints.antt, from the request to
--   the DTO, and Http/Auth.antt, from the DTO to the response; dependencies/security.py, which they ask
--   for the client, is Http/Client.antt.
-- - app/adapters/inbound/http/routers/events.py: Http/EventsPage.antt.
-- - app/config/settings.py and app/adapters/outbound/config.py: Composition/Settings.antt.
-- - app/adapters/nexus.py: Composition/Nexus.antt, a provider with the values of its parameters.
-- - app/adapters/inbound/http/routers/dependencies/cases.py: Composition/UseCases.antt, with the
--   signatures of the use cases. The objects that a request gets are those of the providers that it
--   needs, and what FastAPI documents of `Depends` is a hypothesis.
-- - migrations: Migrations.antt. A script is the lists of its operations (Migrations/Versions), in the
--   words of Migrations/Catalog.antt; Migrations/Run.antt orders and runs the scripts as migrations/env.py
--   does, and Migrations/Declared.antt has the tables that the models declare.
--
-- How they interact: a route runs a use case on the `World`, which holds the tables, the audit log, the
-- notifications and the number of calls to the outside. A use case reads objects through a repository,
-- calls methods on them, saves them under a test of their version, and publishes the events that it
-- pulled from them. `Exec S A` is a function from a state to a result and a state; an exception is the
-- result `err`, and the state at that point is kept, so that what `transaction` rolls back is visible.
-- The other files hold lemmas: World/Keeps.antt and Persistence/Keeps.antt say what every call keeps,
-- Persistence/Tables.antt is about lists of rows, Cases/Rows.antt about the cases that answer a token
-- sent by mail, Cases/Sent.antt about those that send one to a stored user, Cases/Renewed.antt and
-- Cases/Relogin.antt about those that store a new password, Cases/Confirm.antt about a registration and
-- the verification after it, Cases/Recoverable.antt about a request for a recovery and the recovery, Cases/FirstPassword.antt about two registrations of one address,
-- Persistence/RoundTrip.antt about a saved user that is looked up, Ports/Queues.antt about the calls of a
-- queue, Persistence/Versioned.antt is what the three tables have in common, Migrations/Frame.antt is about
-- tables that a script does not name, and Tests has a concrete environment and the runs.
--
-- Outside of the model: the clock, the random source, bcrypt, hashlib, PyJWT, `json`, pydantic,
-- `ipaddress`, Redis, the constraints of PostgreSQL and the settings are functions in `Env` (Env.antt), an
-- instance argument of the definitions that call them. The database that the migrations run on is the
-- parameter `Ddl` (Migrations/Run.antt), and that an operation has the effect on the catalog which
-- PostgreSQL documents (Migrations/Effect.antt) is the hypothesis `IsPostgres`. Texts are lists of code
-- points, times and durations are microseconds, a UUID is its number. Every loop of the code is over a list; the reader of
-- the events page who follows its links has fuel, and one page more than the log has events is enough;
-- the scripts are followed for a number of links, and six, the number of the scripts, are enough.
--
-- Not modelled: what FastAPI and pydantic check of a request, the template of the events page, how the
-- settings are read from the environment, the creation of the clients of Redis and PostgreSQL, logging,
-- and the offline run of the migrations, which prints their statements. Of the rows, the migrations know
-- how many a table has. Requests run one after another, save in Persistence/Race.antt, where the
-- statements of several transactions on one table come in any order. Redis and PostgreSQL
-- answer every call: in the code an error of Redis, which comes after the commit, answers 500 to a
-- request whose changes are stored. PyJWT is given times in microseconds, and that it cuts them to whole
-- seconds is in the hypothesis on it; bcrypt may raise, as it does for more than 72 bytes.
pub mod Base
pub mod Errors
pub mod Exec
pub mod Schema
pub mod Env
pub mod Utils
pub mod Validators
pub mod Live
pub mod User
pub mod Migrations
pub mod Ports
pub mod OneTimeToken
pub mod RefreshToken
pub mod AccessToken
pub mod RiskPolicy
pub mod Services
pub mod World
pub mod Persistence
pub mod EventBus
pub mod Cases
pub mod Http
pub mod Composition
mod Tests
pub mod Events
