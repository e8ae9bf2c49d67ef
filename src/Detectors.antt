-- ===== src/Detectors.antt =====
-- truepresence/detectors/: each detector reads derived features and emits signals.
pub mod Signal
pub mod Typing
pub mod Agentic
pub mod Telegram
pub mod InOrder
pub mod Graded
pub mod Strength
pub mod TypingRisk
pub mod AgenticRisk
pub mod Risk
pub mod Examples
