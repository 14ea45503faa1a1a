-- ===== src/Core/State.antt =====
-- crates/core/src/state.rs: the application state. Times are the numbers of a clock, and
-- `Utc::now()` is the argument `now`.
pub mod Activity
use arc_twitch_widget.Prelude.{
  ℕ, zero, suc, ◌+◌, ◌-◌, Bool, true, false, List, [], ◌∷◌, Option, none, some, is_empty, take,
  find, first?, or_else, unwrap_or, if◌then◌else◌,
}
use arc_twitch_widget.Prelude.Int.{ℤ, pos, sub_ℕ, clamp_i64}
use arc_twitch_widget.Prelude.Word.{saturating_sub}
use arc_twitch_widget.Text.{Text, codes, eq_text}
use arc_twitch_widget.BTreeMap
use arc_twitch_widget.BTreeMap.{BTreeMap, map_values}
use arc_twitch_widget.Core.Overlay.{OverlayStats, overlay_stats_default}

pub data GameKeylogStatus : Type 0 where
  unknown missing matches different : GameKeylogStatus

pub data CollectorPhase : Type 0 where
  starting waiting_for_launcher waiting_for_game capturing : CollectorPhase
  token_ready watching_rounds error : CollectorPhase

pub record ActivityItem : Type 0 where
  pub at : ℕ
  pub level : Text
  pub message : Text

pub record OverlaySnapshot : Type 0 where
  pub schema_version : ℕ
  pub updated_at : ℕ
  pub game_running : Bool
  pub stats : OverlayStats

pub record AppState : Type 0 where
  pub version : Text
  pub phase : CollectorPhase
  pub keylog_path : Text
  pub local_url : Text
  pub database_ready : Bool
  pub launcher_prepared : Bool
  pub game_running : Bool
  pub game_keylog : GameKeylogStatus
  pub stats_stream_ready : Bool
  pub packets_seen : ℕ
  pub tcp_443_segments : ℕ
  pub tcp_443_to_server : ℕ
  pub tcp_443_to_client : ℕ
  pub keylog_entries : ℕ
  pub tls_records : ℕ
  pub tls_records_to_server : ℕ
  pub tls_records_to_client : ℕ
  pub tls_client_hellos : ℕ
  pub tls_server_hellos : ℕ
  pub tls_keys_established : ℕ
  pub tls_client_hellos_with_keys : ℕ
  pub tls_key_errors : ℕ
  pub tls_decrypt_errors : ℕ
  pub last_tls_sni : Option Text
  pub last_embark_sni : Option Text
  pub regional_api_hosts : List Text
  pub decrypted_records : ℕ
  pub observations : ℕ
  pub active_capture_connections : ℕ
  pub capture_buffered_bytes : ℕ
  pub capture_connections_evicted : ℕ
  pub capture_backend : Text
  pub oversized_packets : ℕ
  pub overlay : OverlayStats
  pub last_update : ℕ
  pub activity : List ActivityItem

-- `AppState::new`
unfoldable pub app_state_new : ℕ → Text → Text → AppState
app_state_new now version keylog_path = record {
  version = version;
  phase = starting;
  keylog_path = keylog_path;
  local_url = codes "http://127.0.0.1:17842";
  database_ready = false;
  launcher_prepared = false;
  game_running = false;
  game_keylog = unknown;
  stats_stream_ready = false;
  packets_seen = 0;
  tcp_443_segments = 0;
  tcp_443_to_server = 0;
  tcp_443_to_client = 0;
  keylog_entries = 0;
  tls_records = 0;
  tls_records_to_server = 0;
  tls_records_to_client = 0;
  tls_client_hellos = 0;
  tls_server_hellos = 0;
  tls_keys_established = 0;
  tls_client_hellos_with_keys = 0;
  tls_key_errors = 0;
  tls_decrypt_errors = 0;
  last_tls_sni = none;
  last_embark_sni = none;
  regional_api_hosts = [];
  decrypted_records = 0;
  observations = 0;
  active_capture_connections = 0;
  capture_buffered_bytes = 0;
  capture_connections_evicted = 0;
  capture_backend = [];
  oversized_packets = 0;
  overlay = record overlay_stats_default {
    mode = codes "live";
    preset = codes "account";
    language = codes "ru";
    opacity = 55;
    background_preset = codes "smoke";
    background_color = (9, 16, 21);
    background_blur = 6;
  };
  last_update = now;
  activity = [];
}

-- `AppState::record`: the newest item stands in front, and one hundred are kept.
unfoldable pub record_activity : AppState → ℕ → Text → Text → AppState
record_activity s now level message = record s {
  last_update = now;
  activity = take 100 (record { at = now; level = level; message = message } ∷ s.activity);
}

-- `AppState::overlay_snapshot`
unfoldable pub overlay_snapshot : AppState → OverlaySnapshot
overlay_snapshot s = record {
  schema_version = 7;
  updated_at = s.last_update;
  game_running = s.game_running;
  stats = s.overlay;
}
