-- ===== src/Lib.antt =====
-- Verification of the metrics pipeline: training metrics come in over HTTP, go through RabbitMQ to
-- a worker that stores them, and their events come back through an outbox to the clients that stream.
--
-- Parts and files (paths from the repository's root):
--   Domain               internal/domain: batches, samples, points and events.
--   Messaging/Message    internal/messaging/message.go: the message between API and worker: NewIngestMessage,
--                        GenerateMessageID, MarshalIngestPublishing, DecodeIngestMessage (check_message and
--                        its parts) and ExpandMetricPoints.
--   Messaging/Delivery   internal/messaging/consumer.go: validateDelivery, integerHeader.
--   Messaging/Consumer   the same file: consumeSession and flush. The parent declares the state and flush,
--                        SessionLoop the loop; the other children are proofs.
--   Messaging/Publisher  internal/messaging/publisher.go: publishWithRetry, publishOnce, openSession, backoff.
--   Messaging/Settings   the defaults and the validation of ConsumerConfig and PublisherConfig.
--   Messaging/Relay      internal/messaging/outbox_relay.go: Run, runLeader, releaseClaims.
--   Messaging/Bridge     internal/messaging/event_bridge.go: decodeRealtimeEvent, seen, remember,
--                        consumeSession, Run.
--   Sse/Hub              internal/sse/hub.go: Subscribe, Close and Publish; Threads has the publishing and the
--                        handlers as threads that share the lock.
--   Storage/Points       internal/storage/postgres/metric_point_store.go: encodeMetricPoints.
--   Storage/Flush        the same file: Flush, one transaction.
--   Storage/Reading      the same file: QueryEvents, QuerySummary, QueryHistory.
--   Storage/Partitions   the same file: ensureMetricPointPartitions; partition_maintainer.go beside it:
--                        ensureDailyPartitions; the loop of migrations/000001_initial_schema.sql.
--   Storage/Maintenance  partition_maintainer.go: MaintainRetention, RunPartitionMaintenance; the deletions of
--                        migrations/000002_retention_maintenance.sql.
--   Storage/Migrations   internal/storage/postgres/migrate.go: DiscoverMigrations; Runner has Run.
--   Storage/Outbox       internal/storage/postgres/outbox_store.go and the statements of a claim in sql/.
--   Simulator            internal/simulator/simulator.go: Validate and NextBatch; Expected has addExpected and
--                        finish, Task the loop of a task, Audit the comparison and the report.
--   Http/Ingest          internal/transport/http/ingest.go and internal/service/ingest.
--   Http/Stream          internal/transport/http/stream.go.
--   Http/History         internal/transport/http/history.go and internal/service/history.
--   Http/Tasks           internal/transport/http/summary.go and audit.go with their use cases.
--   Config               internal/config/config.go, and what internal/app/worker and internal/app/api make
--                        of a configuration.
-- Prelude has what these share: numbers, lists, integers, results, byte strings.
--
-- How they interact: Http/Ingest hands a batch to Messaging/Publisher, which publishes it as a
-- Messaging/Message; Messaging/Consumer takes its delivery, expands it and flushes its points to the
-- store, Storage/Flush; Messaging/Relay claims the events of Storage/Outbox and publishes them,
-- Messaging/Bridge takes them and hands them to Sse/Hub, from which Http/Stream writes them to a client.
-- Storage/Maintenance keeps the partitions and drops what is old, Storage/Migrations makes the tables, and
-- Simulator posts batches and compares the audit of the API with what it expects.
--
-- Conventions. An int64 is an integer, and where the code adds or doubles one, the sum wraps around
-- (add64). A string is the list of its bytes. A map of metrics is the list of its entries in the order in
-- which a range visits them. A shared object of the code (the state of a delivery) is a number into
-- a store. What the outside answers (the broker, the sink, the context, timers, random numbers, the JSON
-- codec, the parsers of the standard library) is a record of functions, most of them of the number of the
-- call. A select is a list of the cases taken, so the theorems hold for every interleaving of them.
--
-- Rounds. The loops over lists recurse on the list. retry recurses on the attempts left, which are
-- MaxAttempts at the start, so it never runs out. backoff_from has as many rounds as the code's loop. The
-- relay's loops end by the context alone: run_leader and run_relay take a number of rounds, and their
-- theorems hold for every number. retention_loop takes fuel, and more rounds than there are rows are
-- enough (Storage/Maintenance/Retained). missing_from, days_from and next_samples have as many rounds as the
-- code's loops; the steps of the simulator start at 0 and stay far below the end of int64.
--
-- SQL. Of the statements, the deletions of the retention, the days of the partitions and the claims of the
-- outbox are modelled over tables as lists; of the others only the calls are, which answer or fail.
--
-- Not modelled: the AMQP client and the dialling, the reconnection of the consumer, the queue in front
-- of the publisher's workers, QueryAudit and EventBounds, the advisory
-- lock of the relay's leader, the simulator's random values and its requests, internal/health,
-- internal/logging and the commands. The other statements are run by the database, and the wrappers and
-- the router are calls of libraries.
pub mod Prelude
pub mod Domain
pub mod Messaging
pub mod Storage
pub mod Sse
pub mod Simulator
pub mod Http
pub mod Config
mod Samples
