-- ===== src/Decision.antt =====
-- truepresence/decision/: which tier a packet of evidence goes to, and what is decided about it.
pub mod Packet
pub mod Tier
pub mod Object
pub mod Reports
pub mod Synthesizer
pub mod Sound
pub mod Reasons
pub mod Engine
pub mod Path
pub mod Firm
pub mod Allowed
pub mod Returns
pub mod Completed
pub mod Passed
pub mod Lawful
pub mod Through
pub mod Innocent
pub mod EventExamples
pub mod Examples
