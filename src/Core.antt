-- ===== src/Core.antt =====
-- crates/passman-core
pub mod Lockout
pub mod Error
pub mod Act
pub mod Storage
pub mod App
pub mod Clipboard
pub mod Unlocked
pub mod Worker
pub mod Toy
