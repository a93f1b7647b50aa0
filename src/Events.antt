-- ===== src/Events.antt =====
-- The events of modules/events.
pub mod Retry
pub mod Recording
pub mod Links
