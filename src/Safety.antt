-- ===== src/Safety.antt =====
-- truepresence/safety/: the media policy for Telegram and its escalations.
pub mod Policy
pub mod Escalation
pub mod Graded
pub mod Reasons
pub mod Serious
pub mod Examples
