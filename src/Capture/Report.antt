-- ===== src/Capture/Report.antt =====
-- crates/capture/src/scanner.rs: what a capture tells its owner.
use arc_twitch_widget.Prelude.{ℕ, List, [], Option, none}
use arc_twitch_widget.Text.{Text}
use arc_twitch_widget.Json.{Value}

pub record CaptureStats : Type 0 where
  pub packets_seen : ℕ
  pub tcp_443_segments : ℕ
  pub tcp_443_to_server : ℕ
  pub tcp_443_to_client : ℕ
  pub keylog_entries : ℕ
  pub keylog_reloads : ℕ
  pub tls_records : ℕ
  pub tls_records_to_server : ℕ
  pub tls_records_to_client : ℕ
  pub tls_client_hellos : ℕ
  pub tls_server_hellos : ℕ
  pub tls_keys_established : ℕ
  pub tls_client_hellos_with_keys : ℕ
  pub tls_key_errors : ℕ
  pub tls_decrypt_errors : ℕ
  pub last_tls_sni : Option Text
  pub last_embark_sni : Option Text
  pub regional_api_hosts : List Text
  pub decrypted_records : ℕ
  pub observations : ℕ
  pub active_connections : ℕ
  pub buffered_bytes : ℕ
  pub connections_evicted : ℕ
  pub last_host : Option Text
  pub last_path : Option Text
  pub capture_backend : Text
  pub oversized_packets : ℕ
  pub gap_recoveries : ℕ
  pub capture_drops : ℕ

-- `CaptureStats::default()`
abbrev pub capture_stats_default : CaptureStats
capture_stats_default = record {
  packets_seen = 0;
  tcp_443_segments = 0;
  tcp_443_to_server = 0;
  tcp_443_to_client = 0;
  keylog_entries = 0;
  keylog_reloads = 0;
  tls_records = 0;
  tls_records_to_server = 0;
  tls_records_to_client = 0;
  tls_client_hellos = 0;
  tls_server_hellos = 0;
  tls_keys_established = 0;
  tls_client_hellos_with_keys = 0;
  tls_key_errors = 0;
  tls_decrypt_errors = 0;
  last_tls_sni = none;
  last_embark_sni = none;
  regional_api_hosts = [];
  decrypted_records = 0;
  observations = 0;
  active_connections = 0;
  buffered_bytes = 0;
  connections_evicted = 0;
  last_host = none;
  last_path = none;
  capture_backend = [];
  oversized_packets = 0;
  gap_recoveries = 0;
  capture_drops = 0;
}

pub data CaptureEvent (F : Type 0) : Type 0 where
  status : Text → CaptureEvent F
  stats : CaptureStats → CaptureEvent F
  observation : Value F → CaptureEvent F
  stats_stream_ready : Text → CaptureEvent F
  player_stats_response : Text → ℕ → Option Text → Value F → CaptureEvent F
  error : Text → CaptureEvent F
  stopped : CaptureEvent F
