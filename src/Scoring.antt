-- ===== src/Scoring.antt =====
-- truepresence/scoring/model.py and weights.py. The floats are those of the section's `Floats`.
pub mod Model
pub mod Action
pub mod Bounds
pub mod Independence
pub mod Quiet
pub mod NoRisk
pub mod Monotone
pub mod Examples
