-- ===== src/Lib.antt =====
-- mailgun-ses-proxy: a proxy that takes newsletters by the Mailgun API and sends them by Amazon SES.
--
-- A newsletter is stored as a batch and queued on SQS. A worker receives it, sends one mail for each
-- recipient by SES and stores a row for each accepted mail. SES reports deliveries, bounces and the
-- like on further queues; their workers store these events, or park them as orphans while the mail
-- they belong to is not recorded. A registry in memory holds the state of the workers for the health
-- endpoint, and a supervisor ends the process when a worker stops. Old newsletters are selected for
-- deletion by a retention plan, and copied to an escrow file.
--
-- Base: lists, dictionaries (JavaScript's Map), numbers, calls that throw.
-- ErrorClass: lib/core/error-class.ts.
-- Supervisor: lib/core/worker-supervisor.ts; the closure's variables are a record and the promise
--   handlers are steps.
-- Registry: lib/core/worker-registry.ts, a map from names to entries, and every operation on it.
-- Health: lib/core/health-status.ts over the registry.
-- Database: service/database/db.ts, the tables that the services write, with the keys of
--   prisma/schema.prisma. Every call may fail, which is an argument.
-- Newsletter: service/newsletter-service.ts. A step runs from one await of a recipient's task to the
--   next; the tasks of a batch, one for each entry of `to`, interleave in any order and the batch may
--   be redelivered after its tasks have settled. Two addresses are the same to the look-up of a row
--   when the collation of its column equates them; the collation is a function that gives a key.
-- Events: lib/core/event-processor.ts, lib/core/aws-utils.ts, service/events-service/index.ts and
--   service/system-email-notification.ts.
-- SqsWorker: lib/core/sqs-worker.ts. Limits has the clamped settings, Circuit the breaker, Pool the
--   bounded handler pool (processWithConcurrency), Acknowledge the delete requests, and Poller the
--   loop of runPoller, the group of pollers in startWorker and its end. The registry operations
--   called are those of Registry. Telemetry has the sampler. The loop of the delete requests runs on fuel, one more than there
--   are messages, and each round drops some.
-- Retention: service/newsletter-retention.ts, service/newsletter-retention-plan.ts and
--   service/newsletter-retention-coordinator.ts. Instant reads
--   the UTC timestamps, Order compares and sorts, Policy has the policy and the evidence, Plan the
--   selection, Lock the process-local lock, Manifest the manifest, Coordinator the dry run.
-- Escrow: service/newsletter-retention-escrow.ts, service/newsletter-retention-escrow-writer.ts,
--   service/newsletter-retention-escrow-loader.ts and
--   service/newsletter-retention-candidate-loader.ts, the file that keeps a copy of what the retention
--   deletes, and the reading of the database for it and for the plan. Text has texts as UTF-16 code
--   units, Value the values of JSON and the checks of a field, Record, Rows, Normalize and Serialize
--   the lines of a file, Scanner the scanner for repeated keys, Accumulator, Consume and Verify the
--   check of a file line by line, Writer the writer. Spec says what well-formed batches are; Step,
--   Stage, Advance and Refinement relate what the accumulator accepts to it, Completeness the other way
--   round. Loader makes the records of a file from the rows of the candidates of a plan, and
--   CandidateLoader the candidates of a plan; in both the database's delegates are parameters that
--   return what a query finds, and a Date is the text of its toISOString. ManifestHash is the
--   canonical JSON and the hash of a manifest, of service/newsletter-retention.ts. DryRun is the dry run
--   with an escrow of service/newsletter-retention-coordinator.ts, which joins the plan, the manifest,
--   the loader and the writer under the lock. The scanner runs on fuel, one more than twice the length
--   of the text: at each nesting it takes two calls for at least one character. The year of a
--   timestamp is found on fuel 32 from a quotient that is at most 30 years too early.
-- TaskQueue: lib/task-queue/queue.ts, one step for what runs from one await to the next.
--
-- SES, SQS and the database's clock are parameters or events, and so are JSON.parse and SHA-256.
-- Logging, HTTP routes, the dashboard and the construction of clients are not modelled: they keep no
-- state that these parts read. Of the retention's command line only the reading of an escrow file is
-- modelled; the apply artifact and the deletion are not, nor is the running of the workers' processes.
-- A redelivery of a newsletter while its tasks are in flight and the receive deadline are not modelled
-- either.
pub mod Base
pub mod ErrorClass
pub mod Escrow
pub mod Supervisor
pub mod Registry
pub mod Health
pub mod Database
pub mod Newsletter
pub mod Events
pub mod SqsWorker
pub mod Retention
pub mod TaskQueue
