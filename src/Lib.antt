-- ===== src/Lib.antt =====
-- The parts of this repository that decide what happens when something fails or races: the outbound
-- HTTP client, the Kafka consumer, the worker of the consumer service, the tasks service with its
-- store, outbox, cache and HTTP API, the migrations of its schema, and what the HTTP server does
-- around a handler and shows of its configuration. Paths are from the repository's root.
--
-- libs/resilient-http-client guards the calls of one service to others. Client.send looks a target up,
-- counts the request in flight (enter, leave), counts it in the retry budget and sends attempts until
-- one succeeds or a rule stops it; Client.attempt asks the circuit breaker, the rate limiter and the
-- bulkhead in turn and tells the breaker how the attempt ended.
--   Resilient/Window     window.go: the sliding window that the breaker and the budget count in
--   Resilient/Config     config.go: the configuration and its defaults
--   Resilient/Validate   validate.go: the problems of a configuration, in the order of the code
--   Resilient/Errors     errors.go and the classifications of backoff.go and metrics.go
--   Resilient/Backoff    backoff.go: fullJitter and parseRetryAfter
--   Resilient/Bulkhead   bulkhead.go
--   Resilient/Budget     budget.go
--   Resilient/Breaker    breaker.go: allow, record and recordProbe; a pass of their loops loads the
--                        snapshot, a rival acts, and the swap compares the version
--   Resilient/Policy     client.go: newPolicy and attempt, with its early returns as its helpers
--   Resilient/Redirects  transport.go: redirectPolicy
--   Resilient/Client     client.go: send, enter, leave and the closing of a body; Client/Gate has enter,
--                        leave and any calls of Shutdown as steps of one atomic operation each
--
-- libs/kafka runs a handler over the records of a poll. Consumer.Run polls, processes the batch,
-- commits what was marked and lets a rebalance through; the client's callbacks change which
-- partitions are owned.
--   Kafka/Partitions     consumer.go: the maps keyed by topic and partition, as lists
--   Kafka/Ledger         consumer.go: owned, pending, the commits, the callbacks, processBatch and Run
--   Kafka/Parking        message.go and consumer.go: headers and the copy of a record that is parked
--   Kafka/Settings       config.go: the configuration and its defaults; Settings/Checks has
--                        Validate
--   Kafka/Sends          errors.go and producer.go: kinds of errors, headerCarrier and Producer.Send
--   Kafka/Processing     consumer.go and message.go: process, deadLetter's loop and backoff
--
-- libs/kafka-rdkafka is the driver over librdkafka. A fatal error replaces the producer's client while
-- calls, other errors and Close go on; the consumer's Poll drops what a rebalance takes away.
--   Rdkafka/Producer     rdkafka.go: produce, startReplace, replace and Close as steps under the lock
--   Rdkafka/Sends        rdkafka.go: sendError, Send and its wait for room in the queue
--   Rdkafka/Poll         rdkafka.go: the loop of Poll over what librdkafka returns
--
-- services/consumer/internal/worker handles task events once per event id.
--   Worker/Lru           lru.go: the list and the map
--   Worker/Handle        worker.go: Handle, taskID and New's default
--
-- services/tasks/internal/outbox sends the events of a table to Kafka. Relay.relayOnce takes a batch of
-- the rows that are due, publishes them in order and deletes those that were acknowledged; a rejected
-- row steps aside, an outage ends the batch.
--   Outbox/Relay         relay.go: the pass with its SQL statements, its backoff and Run's wait
--
-- services/tasks keeps tasks in PostgreSQL. A handler reads its request, calls one operation of the
-- store, and after a change wakes the relay and fills or invalidates the cache. An operation is one
-- transaction that also writes its event to the outbox.
--   Tasks/Domain         internal/domain: patches, titles and pages
--   Tasks/Store          internal/store/store.go and Enqueue of internal/outbox/outbox.go: the
--                        operations as functions of the tables; Store/Tables has the rows and what one
--                        statement does to them, Store/Transaction inTx and its commit, Store/Pages
--                        List and the order of its pages; Store/Effects what each operation leaves
--   Tasks/Api            internal/api/api.go: create, get, list, update and delete; Api/Header has
--                        ETag, ifMatch and idempotencyKey, Api/Wire what the handlers read and answer
--   Tasks/Cache          internal/cache/cache.go: the cache of the handlers, over libs/valkey
--
-- libs/valkey is the cache: Aside reads through it and fills it with SET NX, Tombstone invalidates.
--   Valkey/Server        valkey.go and Tombstone: the commands over a server with documented laws
--   Valkey/Aside         aside.go: Jitter, Aside and the closure that fills
--   Valkey/Guard         a tombstone among the fills and invalidations of other requests
--
-- libs/pgx brings the schema up to date: the replicas that boot apply the migrations one by one, each
-- in a transaction under a lock.
--   Pgx/Files            migrate.go: LoadMigrations
--   Pgx/Migrate          migrate.go: applyOne, and the loop of Migrate as steps of any number of
--                        runners
--
-- libs/httpx serves the requests. entry settles a request's id, address and deadline; recovery answers
-- for a handler that panics; the access log reads the status that the writer kept, and log lines pass
-- the sampling handler. A refresh runs the health checks, /readyz answers from their last results.
--   Httpx/Request        middleware.go and requestid.go: ids, requestBudget, clientIP and entry
--   Httpx/Answer         middleware.go and problem.go: the writer, recovery, problems and the status
--   Httpx/Sampling       sampling.go: the counters and Handle
--   Httpx/LogLevel       loglevel.go and admin.go: Set, revert and their timers, PUT /admin/log-level
--   Httpx/Redact         redact.go: Redact, and the secrets in URLs as Redact/Urls
--   Httpx/Health         health.go: Register, refresh, runCheck, snapshot and ReadyHandler
--
-- Base has the shared names: natural numbers, signed integers, texts, lists, and float64 as a
-- parameter of the model (the theorems hold for every such arithmetic). Tests runs the definitions
-- and applies the theorems at concrete inputs.
--
-- What the code reads from outside is an argument: the time, random numbers, http.ParseTime, the
-- limiter of golang.org/x/time/rate, the transport's reply, the database's answers, the handler, the
-- broker, what librdkafka returns, JSON, reflect, net/url, regular expressions, the digest of a
-- title, the collation of ids, the Valkey server, files, IP addresses, the hash of a log message and
-- net/http's writer with its documented laws. Of PostgreSQL, the tables are lists of rows and each
-- SQL statement of the code is a function on them, with a failure of each step, a refused commit and
-- a commit whose answer is lost as inputs. What other goroutines do is an argument too, or a step.
-- Loops that may go on are on fuel: send_loop on as many passes as the target allows attempts, the
-- loops of process and deadLetter on one pass more than the retries; the results below say that this
-- is enough. The breaker's and the probes' loops take one pass for each race that is lost.
--
-- Durations and counts that the code keeps in int and int64 are natural numbers or signed integers
-- of any size, except that the generation of the breaker wraps at 2^64, strconv.ParseUint overflows
-- at 2^64 and the consumer's backoff doubles modulo 2^64; the size of Kafka's queue in bytes wraps
-- to 64 bits; a version of a task is at most 2^63 - 1, as BIGINT is, and strconv.ParseInt overflows
-- there. The product of base and power of two in fullJitter, a float64 there, is exact here.
--
-- Not modelled: logging, metrics other than those that a result speaks of, tracing, YAML and JSON,
-- the HTTP transport, the ends of Run on a closed or failed client, cursors as texts, the routes and
-- the text of problems, the loops of RunJanitor and of Health.Run, a registration during a refresh,
-- and the other libraries and services of the repository: routing, configuration and the rest of the
-- admin port of libs/httpx, the rest of the drivers of libs/kafka, the pool of libs/pgx.
pub mod Base
pub mod Resilient
pub mod Kafka
pub mod Outbox
pub mod Worker
pub mod Tasks
pub mod Valkey
pub mod Httpx
pub mod Pgx
pub mod Rdkafka
pub mod Tests
