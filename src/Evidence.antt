-- ===== src/Evidence.antt =====
-- truepresence/evidence/: from an event to the packet of evidence that the decision reads.
pub mod Values
pub mod Signals
pub mod Builder
pub mod Graph
pub mod Marked
pub mod Examples
