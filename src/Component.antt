-- ===== src/Component.antt =====
-- aegis-rust/src/component.rs: `impl Component`.
pub mod Sending
pub mod Registering
pub mod Handling
pub mod Running
pub mod Rules
pub mod Sessions
pub mod Schedule
pub mod Returns
pub mod States
pub mod Announcements
pub mod Tasks
pub mod Reconnecting
pub mod BackOff
pub mod Messages
pub mod Registration
pub mod Configuration
pub mod Replies
pub mod Turns
pub mod Reborns
