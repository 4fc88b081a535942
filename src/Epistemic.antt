-- ===== src/Epistemic.antt =====
-- The epistemic runtime (src/orbita): claims, evidence, proofs and contradictions in a ledger, the
-- policy that says who may commit a claim, and the engine that evaluates what supports a claim.
pub mod Models
pub mod Policy
pub mod Tables
pub mod Ledger
pub mod Integrity
pub mod Descendants
pub mod Support
pub mod Commit
pub mod Links
pub mod Steps
pub mod Planner
pub mod Actions
mod Tests
