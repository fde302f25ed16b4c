-- ===== src/Lib.antt =====
-- A model of a multi-tenant NestJS server: tenants, users, roles and permissions over Prisma, caches,
-- locks and marks in Redis, and events over RabbitMQ.
--
-- How it is modelled. A service's method is an action (Exec): it reads and writes the state of the
-- request and returns or throws, and what was written before a throw stays written. The state (Env's
-- World) is the database, the keys of Redis, the request's store and the clock. Prisma, Redis, JSON
-- and the channel to RabbitMQ are not of this repository: they are parameters, and what is used of
-- their documentation are the records of hypotheses PrismaLaws, RedisLaws, ScanLaws and JsonLaws.
-- Samples has a database and a keyspace in memory that satisfy them.
--
-- The files:
--   Base            lists, texts and tests as JavaScript has them, and their lemmas
--   Exec            actions, exceptions, and rules for what holds when an action returns
--   Schema          prisma/schema.prisma
--   Json            values of JSON.parse
--   Prisma, Redis   the two clients, with their laws in Prisma/Laws and Redis/Laws
--   Env             the environment and the state
--   RedisService    src/redis/redis.service.ts
--   Constants       src/common/constants.ts
--   Tenancy         src/tenancy/tenancy-context.service.ts
--   Access          src/access/access.service.ts
--   Roles           src/roles/roles.service.ts: the checks in Roles/Checks, the operations in
--                   Roles/Service, the proofs in the other children
--   Queue           src/queue: parsing of messages in Message, handleMessage in Handling and
--                   Settlement, publishing and returning copies in Delivery, idempotency.guard.ts in
--                   Idempotency, rabbitmq.consumer.ts in Consumer and Deduplication,
--                   dlq-consumer.service.ts in Dlq; the topology in Topology and Declared, the
--                   deliveries of a message in Journey, events-cleanup.service.ts in Cleanup, the
--                   connection in Connection, Reconnection and Backoff
--   Tenancy/Service, Tenancy/Slugs
--                   src/tenancy/tenancy.service.ts
--   Users           src/users/users.service.ts
--   Duration        src/common/utils/parse-ttl.ts
--   Throttler       src/redis/redis-throttler-storage.ts
--   Verification    src/auth/verification-code.service.ts
--   Auth            src/auth/auth.service.ts and src/auth/jwt.strategy.ts: the tokens in Auth/Tokens, the
--                   DTOs in Auth/Responses, the operations in Auth/Service, the proofs in the other
--                   children
--   Guards          roles.guard.ts, permissions.guard.ts and tenant.guard.ts of src/common/guards
--   Permissions     src/permissions/permissions.service.ts
--   Seed            src/database/seed.service.ts
--   Notification    src/notification: the choice of the provider, and the providers
--   Http            the context of a request (src/common/middleware), the order of the guards
--                   (src/app.module.ts) and the controllers of src/auth, src/roles, src/users,
--                   src/tenancy, src/permissions and src/queue, each method behind the guards; the
--                   filters and the response envelope (src/common) in Filters
--   Samples         services in memory and the theorems at concrete inputs
--
-- How the parts interact. RolesService asks AccessService for the actor's access and invalidates its
-- cache after a change; AccessService keeps that cache by RedisService. RabbitmqService hands each
-- message to RabbitmqConsumer, which uses IdempotencyService, and settles it by what comes back. A
-- request passes RequestContextMiddleware, then JwtAuthGuard (which asks Auth's validate), TenantGuard,
-- RolesGuard and PermissionsGuard, and then the method of a controller, which calls a service.
--
-- Bounds. The loop of deleteByPattern has Env's scan_rounds; its theorems ask for more rounds than
-- ScanLaws says a full iteration needs. The loop of republishAll has a number of rounds: its theorems say
-- when that is enough, and that none is where messages keep arriving. Queue/Journey has as many
-- deliveries as a message has retries left and one more.
--
-- What is not modelled. Requests do not interleave: an action runs to its end. The exception is
-- Auth/Interleaving, which has the accesses to the refresh tokens in any order. Only Queue/Connection
-- has connections that fail: elsewhere a client is connected.
-- An event id or a routing key that is no text in its JSON becomes the text that JavaScript makes
-- of it (string_of). The email template and the health check are not modelled; modules and
-- validation decorators are glue of the framework.
pub mod Base
pub mod Exec
pub mod Schema
pub mod Json
pub mod Prisma
pub mod Redis
pub mod Env
pub mod RedisService
pub mod Constants
pub mod Tenancy
pub mod Access
pub mod Roles
pub mod Queue
pub mod Verification
pub mod Guards
pub mod Duration
pub mod Users
pub mod Throttler
pub mod Auth
pub mod Permissions
pub mod Seed
pub mod Notification
pub mod Http
pub mod Samples
