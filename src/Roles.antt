-- ===== src/Roles.antt =====
-- truepresence/core/roles/base.py: the roles that judge the evidence of a session.
pub mod Role
pub mod Simple
pub mod Adversarial
pub mod Judged
pub mod Threats
pub mod Reviewed
pub mod Examples
