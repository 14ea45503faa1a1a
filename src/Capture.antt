-- ===== src/Capture.antt =====
-- crates/capture: from packets to discovery messages.
pub mod Packet
pub mod Report
pub mod Host
pub mod Chunked
pub mod Discovery
pub mod Watchdog
pub mod Sni
mod Tests
mod DiscoveryTests
