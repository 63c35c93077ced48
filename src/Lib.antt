-- ===== src/Lib.antt =====
-- The data plane of the email delivery engine: the Go worker that takes message identities from a
-- Redis stream, decides about each message and records what it did in PostgreSQL.
--
-- The parts, each with the file of data-plane/ that it models:
--   Classify   internal/classify/classify.go: the kind of an SMTP response, by a table of phrases
--   Simulate   internal/simulate/simulate.go: the simulated response of a delivery attempt
--   Backoff    internal/backoff/backoff.go: the delay before the next attempt, and exhaustion
--   Store      internal/store/store.go: rows, SELECT (Query) and INSERT and UPDATE (Statement)
--   Metrics    internal/metrics/metrics.go: the registry of counters and gauges, and its page (Page)
--   Throttle   internal/throttle/throttle.go: the fixed-window limiter
--   Route      internal/route/route.go: the route and IP pool of a message, and warmup caps
--   Worker     internal/worker/worker.go: `Process` (Pipeline), its endings (Sending), RunAbuseSweep
--              (Sweep)
--   Queue      internal/queue/queue.go: the delivery stream, over Redis's stream commands
--   Consumer   cmd/worker/main.go: the rounds of the consumer, the deferred poller, the abuse sweep
--              and the metrics updater; with their cancellation in Consumer.Loops
--   Startup    cmd/worker/main.go: `run` and `main`, as the events of start and shutdown, with the
--              constructors of the store, the queue and the limiter; the metrics server's routes
--   Config     internal/config/config.go: `Load`
--   Runtime    the state that these act on, what may become of each statement, and the interface to
--              the outside (Interface) with its two implementations
--   Interleaving  rounds of the loops and calls of `Process` that run at the same time
--   Prelude    tests, integers, texts and list lemmas that the parts share
--   Examples   a small installation, with runs and examples of the theorems
--
-- `process` loads a message, then its customer, asks the suppression list, selects a route and a
-- pool, checks the customer's cap, the pool's cap and the throttles, and then marks the message as
-- sending, simulates the send, records the attempt and applies its outcome. Each step is an action
-- `World R → Result A × World R`: an error returned at any statement ends the call, and what is
-- written stays written. The world holds the database, the metrics, the state `R` of Redis and a
-- counter of the points where the outside is asked. `Env` answers those points: whether a statement
-- works, is refused, loses its reply or meets a locked row; the clock; and the random draws. A
-- theorem for every `Env` holds for every sequence of failures. Redis is a parameter (`Redis R`), of
-- which nothing is assumed but where Throttle.Window, Runtime.Success and Consumer.Requeue say so.
--
-- The abstract view of `process` is a plan (Worker.Plan): the list of the writes that one decision
-- makes, without control flow or failures. Worker.Refinement says which plan the tables,
-- the clock, the failures and Redis give a call, by the points where the call reads them
-- (Worker.Refinement.Readings), and that the code makes its writes in order. The guarantees (Worker.Guarantees) follow
-- from the plans. Statements that compose, such as returning no error or lowering no counter, go
-- through `process` once (Runtime.Closed, Worker.Traversal).
--
-- The operations are written against interfaces: the statements, the clock, the draws and the counters
-- (Runtime.Interface), the commands of the limiter and those of the queue. Actions implement them for a
-- round that runs alone (`acts`, `commands`, `stream_commands`); trees of statements (Runtime.Thread)
-- implement them for rounds between whose statements those of others come. A schedule names, move by
-- move, the round whose statement is next (Interleaving), so a theorem for every schedule holds for
-- every interleaving of the loops of any number of workers. Interleaving.Safe says what a round does
-- among others, relying on what they do; Course and Walk go through `process` once, Consumer.Traversal
-- through the rounds, and Team puts rounds together that keep to what the others rely on.
--
-- Conventions. A column of an enum type of control-plane/src/db/schema.ts is a data type. Identities
-- of routes and pools are natural numbers, those of messages and customers texts. Instants and
-- durations are nanoseconds. The rows of a SELECT without ORDER BY come in the order of the table.
-- The database's day begins at midnight UTC. Each statement reads the database's clock by itself.
-- Texts that are searched are ASCII. The metadata of an event is the map before it is marshalled.
-- A draw d of the random source gives Int63n(n) as d % n and Float64() as the fraction of d % 2 ^ 53
-- and 2 ^ 53; a draw that a run does not use changes nothing for the rest of it, since draws are
-- numbered by points. FOR UPDATE SKIP LOCKED finds no row where the answer is `locked`; the statement
-- runs outside a transaction, so that a lock ends with it.
--
-- Fuel: `itoa_within` (Throttle) and `decimal_within` (Prelude.Decimal) run on n + 1 rounds for the
-- number n, and each round divides by 10. The loops with their cancellation run on one unit a pass;
-- Consumer.Loops.Ends says how much is enough. All other recursion is structural.
--
-- The page of the metrics is a list of codes. Page.Scrape reads it independently of the code, the way
-- a scraper does: by lines, without comments, splitting each at its space.
--
-- The loops of a worker are rounds (Consumer), each one pass of a loop's body. `run_rounds` runs rounds
-- one after another in any order, so its theorems cover workers whose rounds do not overlap in time;
-- those of Interleaving cover rounds that do. Each statement, each command of Redis and each change of
-- a counter is one step there. Each tick is asked once, so one `Env` answers all rounds.
--
-- Not modelled: log calls; connection pools; what a cancelled context does to a statement that runs,
-- but that it may fail; the time between ticks; the text of errors beyond the words that wrap
-- them; and the control plane, which is TypeScript.
pub mod Prelude
pub mod Classify
pub mod Simulate
pub mod Backoff
pub mod Store
pub mod Metrics
pub mod Runtime
pub mod Throttle
pub mod Route
pub mod Worker
pub mod Config
pub mod Queue
pub mod Consumer
pub mod Interleaving
pub mod Startup
pub mod Examples
