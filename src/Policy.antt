-- ===== src/Policy.antt =====
-- crates/passman-policy
pub mod Charset
pub mod Request
pub mod Effective
pub mod Sample
pub mod Generate
pub mod Validate
