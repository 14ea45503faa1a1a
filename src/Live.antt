-- ===== src/Live.antt =====
-- crates/arc-live: the application.
pub mod Updates
pub mod View
pub mod App
mod Tests
