-- ===== src/Lib.antt =====
-- ARC Live: a desktop program that reads the statistics of a game from its own HTTPS traffic and
-- shows them in an overlay for streams.
--
-- The parts and how they interact. A packet of the network is parsed to a TCP segment
-- (crates/capture/src/packet.rs). The stream manager of the pcapsql library, which is not modelled,
-- puts segments in order and decrypts them; the bytes of a connection go to the discovery parser
-- (crates/capture/src/scanner.rs), which cuts HTTP messages out of them, keeps those of the game's
-- API and tells of the statistics. The collector (crates/collector/src/lib.rs) normalises a response
-- (crates/core/src/stats.rs) and passes it on through a bounded channel. The application
-- (crates/arc-live/src/ui.rs) takes the baseline of the stream off (crates/core/src/state.rs), resolves
-- the layout of the widget (crates/core/src/widget_config.rs) for the overlay, and keeps the stream, the
-- observations and the events for the user in a database (crates/storage/src/lib.rs), where they are
-- cleaned first (crates/core/src/redaction.rs). Its settings are crates/core/src/config.rs. Apart from
-- this the program updates itself (crates/arc-live/src/updates.rs).
--
-- The files and the code:
--   Prelude: lists, machine integers, results, and `Run`, in which an index or a slice out of range
--     is a panic and a loop may run out of the rounds that its model has.
--   Text, BTreeMap, HashMap, Json: what the program uses of the standard library and of the values
--     of serde_json.
--   Core/Overlay, Core/State: crates/core/src/state.rs. `OverlayStats`, its baseline and its
--     upgrade, `AppState` and its activity.
--   Core/Events, Core/Stats: crates/core/src/stats.rs. `normalize_player_stats`, event by event.
--   Core/WidgetPresets, Core/WidgetConfig, Core/WidgetFile: crates/core/src/widget_config.rs. The
--     shipped layout, the sources and `apply`, and `validate`, `load_or_create` and `save`.
--   Core/Config: crates/core/src/config.rs. `AppConfig`, `validate`, `load_or_create` and `save`.
--   Core/Redaction: crates/core/src/redaction.rs. `sanitize_json` and `json_shape`.
--   Capture/Packet: crates/capture/src/packet.rs. `parse_ipv4_tcp`.
--   Capture/Host, Capture/Chunked: crates/capture/src/scanner.rs. `is_allowed_host`,
--     `sanitize_path`, and `decode_chunked`.
--   Capture/Discovery: crates/capture/src/scanner.rs. `DiscoveryParser`: `touch_and_prune`
--     (Discovery), the messages (Discovery/Message), hosts and requests (Discovery/Exchange), the
--     loop over the bytes (Discovery/Stream), and `parse_stream` around it (Discovery/Parse).
--   Capture/Sni, Capture/Watchdog: crates/capture/src/scanner.rs. `tls_client_hello_sni` and
--     `CaptureWatchdog`.
--   Capture/Report: crates/capture/src/scanner.rs. `CaptureEvent` and `CaptureStats`.
--   Collector: crates/collector/src/lib.rs. `run_collector` and `start_local`, with the bounded channel
--     and its consumer as explicit steps.
--   Storage: crates/storage/src/lib.rs. The tables (Storage/Tables), the database and its rows
--     (Storage), and the operations of `Storage` (Storage/Access).
--   Live/App: crates/arc-live/src/ui.rs. The state of `ArcLiveApp` (App), days and streams (App/Stream),
--     presets and settings (App/Settings), responses (App/Probe), the events of the collector and of the
--     process monitor (App/Events), the actions of the window (App/Actions), start and end (App/Start).
--     What the operating system, SQLite and the clock do in an operation is its `Moment`. App/Refined
--     follows the statistics from the capture through the collector to the widget; App/Kept follows
--     whole runs, those of the manager of updates included.
--   Live/View: crates/arc-live/src/view.rs. The formatting of numbers and `capture_problem`.
--   Live/Updates: crates/arc-live/src/updates.rs. Versions, `check_update`, `download_update`
--     (Updates/Download) and `UpdateManager` (Updates/Manager).
-- A child file that holds no definitions of the code is named for what it proves; files named Tests
-- hold runs on small inputs and instances of the theorems.
--
-- Conventions. Integers are natural numbers with the wrap-around, the saturation or the overflow test
-- of the code written out; the target has 64 bits. A text is the list of its scalar values, and its
-- bytes are their UTF-8. An error is a constructor that stands for its message. Times are numbers,
-- and the clock is an argument. Locks are left out, since one thread at a time holds them. The order
-- of a hash map is that of a list, in any order.
--
-- Bounds and fuel. `decode_chunked` and the loop of `parse_stream` have one round more than there are
-- bytes, and each round that goes on moves ahead by a byte at least; the two loops that drop entries
-- of a map have as many rounds as there are entries. That the rounds are enough is part of the
-- theorems that these functions return.
--
-- Not modelled: the operating system's interfaces for capture, processes and windows; the decryption
-- and the reassembly, which are pcapsql's; the counting of segments, the key log, and the threads and
-- channels of the capture loop; the inside of SQLite; the server, the onboarding and the drawing of the
-- window; the capture service, the release tool and the diagnostics, which are programs and exports
-- beside the way of the statistics. What flate2, brotli, serde_json, sha2, base64, ed25519_dalek
-- and reqwest do is a parameter, with what the code relies on as named hypotheses.
mod Prelude
pub mod Text
pub mod BTreeMap
pub mod HashMap
pub mod Json
pub mod Core
pub mod Capture
pub mod Collector
pub mod Storage
pub mod Live
