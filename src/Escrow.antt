-- ===== src/Escrow.antt =====
-- The escrow of the newsletters that the retention deletes: service/newsletter-retention-escrow.ts,
-- service/newsletter-retention-escrow-writer.ts, service/newsletter-retention-escrow-loader.ts,
-- service/newsletter-retention-candidate-loader.ts, the hash of a manifest of
-- service/newsletter-retention.ts, and the dry run with an escrow of
-- service/newsletter-retention-coordinator.ts.
pub mod Text
pub mod Value
pub mod Record
pub mod Rows
pub mod Normalize
pub mod Serialize
pub mod Scanner
pub mod Accumulator
pub mod Consume
pub mod Verify
pub mod Spec
pub mod Step
pub mod Completeness
pub mod Stage
pub mod Advance
pub mod Refinement
pub mod Writer
pub mod Loader
pub mod CandidateLoader
pub mod ManifestHash
pub mod DryRun
mod Examples
