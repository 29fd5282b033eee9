-- ===== src/SqsWorker.antt =====
-- lib/core/sqs-worker.ts: the long-polling consumers of the queues.
pub mod Limits
pub mod Circuit
pub mod Acknowledge
pub mod Pool
pub mod Poller
pub mod Telemetry
mod Examples
