-- ===== src/Challenges.antt =====
-- truepresence/challenges/: the questions that a session is asked, and the check of its answers.
pub mod Validator
pub mod Replay
pub mod Profile
pub mod Asked
pub mod Examples
