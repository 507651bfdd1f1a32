-- ===== src/Lib.antt =====
-- A model of Sockethub's client library and of its server's core: what stands between a client's
-- connection and the child processes that speak a platform's protocol.
--
-- A client connects by socket.io or by HTTP. Its messages pass a rate limiter (RateLimiter, of
-- packages/server/src/rate-limiter.ts) and name a platform in their context (Context, of
-- packages/schemas/src/context.ts; Validator, of packages/schemas/src/validator.ts). Credentials give
-- the connection a scope (ConnectionScope, of packages/server/src/connection-scope.ts), which goes
-- into the identifier of a platform instance (Identity, of packages/util/src/crypto/index.ts and
-- packages/data-layer/src/queue-id.ts). The process manager (ProcessManager, of packages/server/src/
-- process-manager.ts) finds or forks that instance (PlatformInstance and PlatformInstance.Lifecycle,
-- of packages/server/src/platform-instance.ts), and the janitor (Janitor, of packages/server/src/
-- janitor.ts) takes it down when its sessions are gone. HttpActions, of packages/server/src/http/
-- actions.ts, has the HTTP endpoint: the claim of a request id (Claim), the replay, and the run of one
-- request as steps on the variables that its callbacks share (Request), and the order of its payloads
-- (Dispatch). World is the state that these modules share: instances by reference, the maps, the queues
-- in Redis, the messages sent. Base has
-- the helpers: `Table` for a JavaScript `Map`, `Group` for a `Set`, `Text` for a string of code points.
--
-- Cors, of packages/server/src/cors.ts, has the origins that may read the server's answers.
-- Middleware, of packages/server/src/middleware.ts, is the chain of handlers that a message passes, and
-- Middleware.Validate, of packages/server/src/middleware/validate.ts, the one that validates it.
-- Client, of packages/client/src/sockethub-client.ts, is the library at the other end: its registry of
-- platforms (Registry), its queue, checks and replay (Outbound), and its initialization with all its
-- events as steps (Init); Stream is the normal form of what it sends, of packages/schemas/src/
-- activity-stream-helper.ts. What leaves a client is a list, its `log`.
--
-- A platform's process is PlatformChild, of packages/server/src/platform.ts: its jobs (Steps) as promises
-- that the platform's code settles at any later time, and the workers that it renews as its actor
-- changes (Actor). It reads
-- credentials by CredentialsStore, of packages/data-layer/src/credentials-store.ts; JobQueue, of packages/
-- data-layer/src/job-queue.ts, job-worker.ts and job-base.ts, brings it its jobs. NetAddress, of packages/
-- util/src/net/address.ts, has the addresses that it may not be sent to. Two platforms write
-- text formats: Ical, of packages/platform-caldav/src/ical.ts (values, parameters, lines, folding), and
-- Vcard, of packages/platform-carddav/src/vcard.ts; Escapes has the text operations of both.
--
-- A function of the source is a function of the same name, in snake case. A function that awaits is in
-- parts, one up to each await, so that other steps can come between: `teardown_begin`,
-- `teardown_work`, `teardown_end`; `ensure_begin`, `ensure_finish`; `claim_step`. Time, timers,
-- forked processes and digests are arguments. Instances are objects, so the maps hold references to
-- a heap. In the client the application's handlers run at the event `ready` only, as a list of
-- emissions. Fuel is used in `replay_from`, which gets one step more than the list has lines, and in
-- `next` of Middleware, which gets one more than the chain has handlers.
--
-- Not modelled: Redis beyond the keys and queues named here, in particular the expiry of keys; AJV
-- (a parameter); Express, socket.io, BullMQ; logs; the start and the fatal errors of a child process; the
-- platforms' protocols, dates and recurrences of calendars; middleware that calls
-- `next` more than once; a client made on a socket that is connected already, and its look-ups of
-- contexts and schemas by the name of a platform.
pub mod Base
pub mod Identity
pub mod Context
pub mod Validator
pub mod Escapes
pub mod Ical
pub mod Vcard
pub mod CredentialsStore
pub mod PlatformChild
pub mod NetAddress
pub mod JobQueue
pub mod Cors
pub mod Stream
pub mod Client
pub mod Middleware
pub mod World
pub mod PlatformInstance
pub mod ProcessManager
pub mod Janitor
pub mod RateLimiter
pub mod ConnectionScope
pub mod HttpActions
