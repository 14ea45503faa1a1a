-- ===== src/Core.antt =====
-- crates/core: the shared state, the statistics, the widget layout, the redaction.
pub mod Overlay
pub mod State
pub mod Events
pub mod Stats
pub mod WidgetPresets
pub mod WidgetConfig
pub mod WidgetFile
pub mod Redaction
pub mod Config
mod Tests
mod WidgetTests
mod RedactionTests
