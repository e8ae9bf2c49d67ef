-- ===== src/Privacy.antt =====
-- truepresence/sdk/privacy.py: the guard that refuses payloads with raw user content.
pub mod Sets
pub mod Keys
pub mod Scan
mod Decides
pub mod Guard
pub mod Clean
pub mod Permitted
pub mod Accepts
pub mod Strip
pub mod Deep
pub mod Examples
