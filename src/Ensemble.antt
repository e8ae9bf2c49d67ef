-- ===== src/Ensemble.antt =====
-- truepresence/ensemble/orchestrator.py: from the outputs of the roles to the reports.
pub mod Report
pub mod Review
pub mod Decided
pub mod Spread
pub mod Supported
pub mod Examples
