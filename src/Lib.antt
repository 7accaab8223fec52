-- ===== src/Lib.antt =====
-- A model of the service, a NestJS application with a domain-driven layout, and of what makes its parts
-- correct. Paths below are those of the repository.
--
-- The parts and their files:
--   Prelude: Boolean tests, lists, options, texts and dictionaries that the other files share.
--   Cluster: the primary of cluster mode, src/infrastructure/cluster (`startPrimary`). Its closure's
--     variables are the record `Primary`; the exit listener and the signal handlers are functions to
--     the new state and the effects in their order. `run` handles a list of events.
--   Scheduler, Scheduler.Runner: the scheduled jobs of src/interface/scheduler, with awaited promises as
--     flags that events settle. OneScheduler joins them with Cluster: a worker's CLUSTER_LEADER decides
--     whether it registers the jobs.
--   Lifecycle: `runGracefulShutdown` of src/infrastructure/lifecycle with the signal handlers of
--     src/main.ts; each `await` is a phase.
--   Semaphore: the limiter of src/common/utils/semaphore.util.ts as a step relation between the calls
--     that wait, are woken and run.
--   Errors: the error classes of the layers and the problems they present (src/shared/problem.ts).
--   Http.Presenter, Http.Filter: what reply and which line of the log any caught value gets
--     (src/interface/http). Http.Guards: the three global guards in their order.
--   Database.Oracle: borrowing, transactions and health checks of the Oracle client
--     (src/infrastructure/database/clients/oracle.client.ts) over the history of a connection, with
--     Database.Text for the context user's name and Database.Mapper for the driver's errors. Every call,
--     a setter included, may throw. A failed commit is in doubt: a parameter says whether it was done.
--   Database.Pools: the pool manager and the placeholder client.
--   Legacy: the forwarder to a legacy service (src/infrastructure/legacy), as the listeners of one
--     request; Legacy.Headers and Legacy.Request for what is sent on.
--   Shared: the `Result` of src/shared/result.ts.
--   Http.Formatter: the interceptor that puts every answer into an envelope, and what it makes of a
--     failed Result; Http.Health: the readiness check; Http.RequestIds: the id of a request in the
--     logger and in the middleware.
--   Logs.Frames, Logs.Origin, Logs.Trace: which frame of this code an error comes from
--     (src/common/utils/error-origin.util.ts, format-stack-trace.util.ts), with errors in a heap that may
--     have circles. Logs.Options: the options of the logger (src/infrastructure/logging/pino.options.ts).
--   Config: the configuration (src/infrastructure/config): Env reads variables, Hydrate puts them
--     together, Checks and Secrets are the functions that the schemas call, Access reads dotted keys,
--     Tls loads certificate files (src/infrastructure/tls), and Keys joins it with Database.Pools.
--   Http.Validation: the validated parts of a request and what a handler reads of them.
--   Http.Deprecation: the headers of deprecated routes (src/interface/http).
--   Http.OrderBy: the parser of a query's sort order (src/interface/http/schemas/order-by.util.ts).
--   Bootstrap: the steps of the start of a process (src/main.ts), any of which may throw.
--   Database.Queries: the lines logged of a query; Database.Settings: the credentials of a pool and the
--     start of the driver, joined with the configuration's check in Database.Settings.Connecting.
--
-- Errors are constructors, and what the code throws is a value of the model. Texts are native strings;
-- where the code looks into a text it is a list of code points or units. Counts and times are natural
-- numbers: the sources' numbers are integers here, and a difference is written as a sum, so no
-- subtraction goes below 0. Every loop is structural; the loop over the attempts of a ping recurses on
-- the attempts that are left, `retries` + 1 of them. Only the two loops of Logs.Origin run on fuel, since
-- their `while` follows references: 11 turns are enough, because `depth` stops them at 10.
--
-- What is not in the repository is a parameter: node's `cluster.fork`, the cron registry, the Oracle
-- driver's answers to each call, passport's verification of the token, the URL parser, the writing of a
-- number, lower and upper case, random ids, the texts of the clock, JSON.parse, the reading of files and
-- what Zod answers for a schema.
--
-- Not modelled: the types, bounds and defaults that Zod reads from the schemas, the adapters that pass
-- log lines on to pino, the other controllers, DAOs and their SQL, and the order in which concurrent
-- pings finish.
pub mod Prelude
pub mod Semaphore
pub mod Cluster
pub mod Scheduler
pub mod OneScheduler
pub mod Lifecycle
pub mod Errors
pub mod Http
pub mod Database
pub mod Legacy
pub mod Shared
pub mod Logs
pub mod Config
pub mod Bootstrap
