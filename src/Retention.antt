-- ===== src/Retention.antt =====
-- The retention of old newsletters: service/newsletter-retention.ts, service/newsletter-retention-plan.ts
-- and service/newsletter-retention-coordinator.ts.
pub mod Instant
pub mod Order
pub mod Policy
pub mod Freshness
pub mod Plan
pub mod Lock
pub mod Candidates
pub mod Selection
pub mod Manifest
pub mod Coordinator
pub mod DryRun
mod Examples
