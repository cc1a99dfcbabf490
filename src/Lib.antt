-- ===== src/Lib.antt =====
-- easy-cron: a verification library for the core of the cron service: scheduling, dispatch, the
-- execution store, recovery and the guards around them. Paths are those of the repository.
--
-- The parts and how they interact. internal/scheduler reads the enabled jobs page by page, asks the
-- cron library for the due times of each, inserts one execution for each due time and emits an
-- event. internal/transport/channel carries the event to internal/dispatcher, which sends the
-- webhook with retries, asks internal/circuitbreaker before and reports to it after, and writes the
-- final status. internal/store/postgres holds the executions; in database mode the workers claim
-- them from it. internal/reconciler requeues what was claimed too long ago and emits what was never
-- delivered. internal/leaderelection decides which instance schedules. internal/config checks the
-- settings. internal/service changes the jobs for the HTTP interface, which internal/api guards by
-- keys, and internal/webadmin/auth.go keeps the sessions of the admin pages.
--
-- The files. Prelude: native numbers, lists, integers, maps. Domain: internal/domain, instants as
-- nanoseconds since the zero time. Breaker: internal/circuitbreaker/breaker.go, one entry for each
-- URL. Store: the table `executions` of store.go and queries.go, one function for each method.
-- Dispatcher: dispatcher.go; Dispatcher/Loop is the loop over the attempts, Dispatcher/Run the rest
-- of Dispatch, Dispatcher/Classify the metric classes, Dispatcher/Postgres the store that it runs
-- on, Dispatcher/Workers the loops Run, drain and dbPollWorker. Scheduler: scheduler.go;
-- Scheduler/Due and Scheduler/Fires treat one job, Scheduler/Pages and Scheduler/Tick a tick over
-- all of them, Scheduler/Zero a schedule that never matches. Bus: bus.go, with Emit as a relation.
-- Reconciler: reconciler.go, over the store and a bounded buffer. RateLimit and Auth:
-- middleware.go. Config: validate.go, and Config/Load: config.go. Leader: leader.go, as the list of
-- its calls, the query for the lock with its answer. Config/Load/Start: the breaker that
-- cmd/cronlite/main.go starts with. Jobs: the tables of store.go around a job, with Jobs/Lists for the statements that
-- read lists. Cron: internal/cron/parser.go. WebhookUrl: internal/webhookurl/validation.go. Mcp:
-- internal/mcp/auth.go, which guards the tools of the MCP server.
-- Service: internal/service, with Service/Write for the changes of jobs, Service/Trigger for
-- TriggerNow, Service/Read for what reads, and Service/Language for the natural language of
-- schedules. Keys: the tables of the keys and the admin sessions with apikeys.go, and
-- Keys/Sessions: internal/webadmin/auth.go. The modules Tests run the theorems at concrete inputs.
--
-- State is passed explicitly. What is not in the repository is a parameter: the cron library, the
-- time zones, the HTTP client, URLs and addresses, the hash, random tokens and new ids, the clock,
-- the context, `ILIKE`, the order of texts, and what the database driver fails. A text whose
-- letters matter is the list of its bytes. The dispatcher and the reconciler take their store as a
-- record of operations, and the dispatcher's has the laws that the comment of the Go interface
-- demands.
--
-- Bounds and fuel. The loop over the attempts of a delivery has four rounds and that of TriggerNow
-- five, the code's own bounds, and the catch-up loop its cap; a poll worker never ends by itself,
-- so it is run for a number of rounds. The loop over the pages runs on fuel: a number above that of
-- the enabled jobs is enough, since every full page moves past a hundred of them. The drain
-- of a channel runs on fuel as well: one more than the number of the select that takes the deadline
-- is enough. Durations are not bounded to 64 bits; the values in use are far from that bound. The
-- times of jobs and schedules are stored in whole microseconds, as the columns are; those of the
-- other tables are kept as they are given. The rate limiters' floating-point
-- numbers are read as exact.
--
-- Not modelled: the HTTP handlers, the generated server, the admin pages, the tools of the MCP server, metrics
-- registration, Redis, the rest of the commands and the benchmark tools, which are input and output around
-- these parts; RunDBPoll, which starts the workers, and Run of the scheduler, a loop over a ticker.
pub mod Prelude
pub mod Domain
pub mod Breaker
pub mod Store
pub mod Dispatcher
pub mod Scheduler
pub mod Bus
pub mod Reconciler
pub mod RateLimit
pub mod Auth
pub mod Config
pub mod Leader
pub mod Jobs
pub mod Cron
pub mod WebhookUrl
pub mod Service
pub mod Keys
pub mod Mcp
