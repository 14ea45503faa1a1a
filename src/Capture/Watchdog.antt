-- ===== src/Capture/Watchdog.antt =====
-- crates/capture/src/scanner.rs: `CaptureWatchdog`, which says why nothing is decrypted. The counters
-- that it reads and the time since its start are a reading.
pub mod Once
use arc_twitch_widget.Prelude.{
  ℕ, ◌*◌, Bool, true, false, not, ◌&&◌, List, [], ◌∷◌, ◌++◌, if◌then◌else◌, ltb, ◌==◌,
}

-- 60 seconds, in microseconds.
abbrev pub grace : ℕ
grace = 60 * 1000000

pub record CaptureWatchdog : Type 0 where
  pub warned_no_inbound : Bool
  pub warned_no_handshake : Bool

-- The two messages.
pub data Warning : Type 0 where
  no_inbound no_handshake : Warning

-- What an evaluation reads: the time since the start, and three counters of `CaptureStats`.
pub record Reading : Type 0 where
  pub elapsed : ℕ
  pub packets_seen : ℕ
  pub tcp_443_to_client : ℕ
  pub tls_client_hellos : ℕ

unfoldable pub watchdog_new : CaptureWatchdog
watchdog_new = record { warned_no_inbound = false; warned_no_handshake = false }

-- No HTTPS arrives.
unfoldable pub warn_inbound : CaptureWatchdog → CaptureWatchdog × List Warning
warn_inbound w =
    if not w.warned_no_inbound
    then (record w { warned_no_inbound = true }, no_inbound ∷ [])
    else (w, [])

-- HTTPS arrives, and no ClientHello was seen.
unfoldable pub warn_handshake : Reading → CaptureWatchdog → CaptureWatchdog × List Warning
warn_handshake r w =
    if ltb 0 r.tcp_443_to_client && r.tls_client_hellos == 0 && not w.warned_no_handshake
    then (record w { warned_no_handshake = true }, no_handshake ∷ [])
    else (w, [])

-- `CaptureWatchdog::evaluate`
unfoldable pub evaluate : Reading → CaptureWatchdog → CaptureWatchdog × List Warning
evaluate r w =
    if ltb r.elapsed grace
    then (w, [])
    else if ltb 0 r.packets_seen && r.tcp_443_to_client == 0
    then warn_inbound w
    else warn_handshake r w

-- The warnings of a capture, evaluation by evaluation.
unfoldable pub watch : List Reading → CaptureWatchdog → List Warning
watch [] w = []
watch (r ∷ rs) w = let (w', said) = evaluate r w in said ++ watch rs w'
