-- ===== src/Live/App/Events.antt =====
-- crates/arc-live/src/ui.rs: `drain_events`, the events of the collector and of the process monitor.
use arc_twitch_widget.Prelude.{
  ℕ, Bool, true, false, not, ◌||◌, List, [], ◌∷◌, ◌++◌, Option, none, some, and_then, unwrap_or,
  ltb, if◌then◌else◌,
}
use arc_twitch_widget.Prelude.Result.{Result, ok, err}
use arc_twitch_widget.Text.{Text, codes}
use arc_twitch_widget.Json
use arc_twitch_widget.Json.{Value, null}
use arc_twitch_widget.Core.State.{
  AppState, GameKeylogStatus, unknown, missing, matches, different, CollectorPhase, capturing,
  token_ready, waiting_for_game,
}
use arc_twitch_widget.Storage.{Storage, StorageError, Observation}
use arc_twitch_widget.Storage.Access.{insert_observation, as_u16}
use arc_twitch_widget.Capture.Report.{CaptureStats}
use arc_twitch_widget.Collector.{CollectorEvent}
use arc_twitch_widget.Live.App.{
  Host, Moment, App, record_in_state, notify, record_user_event, persist_stream_session,
}
use arc_twitch_widget.Live.App.Probe.{apply_probe}

-- The counters of the capture in the state.
unfoldable pub with_capture_stats : CaptureStats → AppState → AppState
with_capture_stats st a = record a {
  packets_seen = st.packets_seen;
  tcp_443_segments = st.tcp_443_segments;
  tcp_443_to_server = st.tcp_443_to_server;
  tcp_443_to_client = st.tcp_443_to_client;
  keylog_entries = st.keylog_entries;
  launcher_prepared = ltb 0 st.tls_keys_established || a.launcher_prepared;
  tls_records = st.tls_records;
  tls_records_to_server = st.tls_records_to_server;
  tls_records_to_client = st.tls_records_to_client;
  tls_client_hellos = st.tls_client_hellos;
  tls_server_hellos = st.tls_server_hellos;
  tls_keys_established = st.tls_keys_established;
  tls_client_hellos_with_keys = st.tls_client_hellos_with_keys;
  tls_key_errors = st.tls_key_errors;
  tls_decrypt_errors = st.tls_decrypt_errors;
  last_tls_sni = st.last_tls_sni;
  last_embark_sni = st.last_embark_sni;
  regional_api_hosts = st.regional_api_hosts;
  decrypted_records = st.decrypted_records;
  observations = st.observations;
  active_capture_connections = st.active_connections;
  capture_buffered_bytes = st.buffered_bytes;
  capture_connections_evicted = st.connections_evicted;
  capture_backend = st.capture_backend;
  oversized_packets = st.oversized_packets;
}

-- `value["key"].as_str()`, `value["key"].as_u64()` and `value["key"].clone()`
abbrev pub text_member : {F : Type 0} → Value F → Text → Option Text
text_member v k = and_then (Json.get v k) Json.as_str

abbrev pub number_member : {F : Type 0} → Value F → Text → Option ℕ
number_member v k = and_then (Json.get v k) Json.as_u64

unfoldable pub observation_of_value : {F : Type 0} → ℕ → Value F → Observation F
observation_of_value now v = record {
  id = 0;
  observed_at = now;
  direction = unwrap_or (text_member v (codes "direction")) (codes "unknown");
  host = unwrap_or (text_member v (codes "host")) (codes "unknown");
  method = text_member v (codes "method");
  path = text_member v (codes "path");
  status = as_u16 (number_member v (codes "status"));
  content_type = text_member v (codes "content_type");
  shape = unwrap_or (Json.get v (codes "body_shape")) null;
}

-- crates/arc-live/src/process_monitor.rs: the status of the game's process.
pub record GameStatus : Type 0 where
  pub running : Bool
  pub keylog : GameKeylogStatus
  pub keylog_path : Option Text

abbrev pub eq_keylog : GameKeylogStatus → GameKeylogStatus → Bool
eq_keylog unknown unknown = true
eq_keylog missing missing = true
eq_keylog matches matches = true
eq_keylog different different = true
eq_keylog _ _ = false

abbrev pub eq_bool : Bool → Bool → Bool
eq_bool true b = b
eq_bool false b = not b

abbrev pub set_phase : CollectorPhase → App → App
set_phase p s = record s { state = record s.state { phase = p } }

module _ {F : Type 0} (host : Host F) where
  open host use {codec, sha256_hex, storage_error_text}

  unfoldable pub observation_saved : Moment → Storage × Result StorageError ℕ → App → App
  observation_saved m (storage, ok _) s = record s { storage = storage }
  observation_saved m (storage, err x) s =
      record_in_state m (codes "error")
        (codes "Saving observation failed: " ++ storage_error_text x)
        (record s { storage = storage })

  -- The loss of the statistics after a success.
  unfoldable pub sync_lost : Moment → App → App
  sync_lost m s =
      if s.last_sync_succeeded
      then record (record_user_event host m (codes "warning")
          (codes "Связь со статистикой прервалась — ARC Live переподключится сама") s) {
            last_sync_succeeded = false;
          }
      else s

  unfoldable pub ready_received : Moment → Bool → App → App
  ready_received m stats_stream_ready s =
      let told = record s {
        collector_ready = stats_stream_ready;
        state = record s.state { stats_stream_ready = stats_stream_ready };
      } in
      if stats_stream_ready
      then record_in_state m (codes "success") (codes "Player statistics connection is ready")
          (set_phase token_ready told)
      else told

  -- One event of the collector.
  unfoldable pub on_collector_event : Moment → CollectorEvent F → App → App
  on_collector_event m (CollectorEvent.connected version privileged) s =
      record_in_state m (codes "success")
        (if privileged
          then codes "Capture service " ++ version ++ codes " connected"
          else codes "Portable capture " ++ version ++ codes " started")
        (record s { collector_privileged = privileged })
  on_collector_event m (CollectorEvent.status message) s =
      record_in_state m (codes "info") message (set_phase capturing s)
  on_collector_event m (CollectorEvent.stats st) s = record s {
    state = with_capture_stats st s.state;
  }
  on_collector_event m (CollectorEvent.ready stats_stream_ready) s =
      ready_received m stats_stream_ready s
  on_collector_event m (CollectorEvent.observation value) s =
      observation_saved m
        (insert_observation codec sha256_hex m.observations m.prunes
          (observation_of_value m.now value) s.storage)
        s
  on_collector_event m (CollectorEvent.probe p) s = apply_probe host m p s
  on_collector_event m (CollectorEvent.error message) s =
      sync_lost m (record_in_state m (codes "error") message (set_phase CollectorPhase.error s))
  on_collector_event m CollectorEvent.stopped s =
      let warned =
        record_in_state m (codes "warning") (codes "Capture stopped")
          (record s { collector_ready = false }) in
      record_user_event host m (codes "warning")
        (codes "Фоновый компонент захвата остановлен — перезапустите ARC Live")
        (record warned { state = record warned.state { stats_stream_ready = false } })

  -- The first loop of `drain_events`.
  unfoldable pub drain_collector : Moment → List (CollectorEvent F) → App → App
  drain_collector m [] s = s
  drain_collector m (e ∷ es) s =
      let t = on_collector_event m e s in
      drain_collector m es (record t { state = record t.state { last_update = m.now } })

  unfoldable pub missing_warned : Moment → GameKeylogStatus → App → App
  missing_warned m missing s =
      record_in_state m (codes "warning")
        (codes "The running game has no SSLKEYLOGFILE; its launcher predates the setup") s
  missing_warned m _ s = s

  unfoldable pub path_warned : Moment → Option Text → App → App
  path_warned m none s = s
  path_warned m (some path) s =
      record_in_state m (codes "warning")
        (codes "The game writes TLS keys to another file: " ++ path) s

  unfoldable pub keylog_changed : Moment → GameStatus → App → App
  keylog_changed m status s =
      if eq_keylog s.state.game_keylog status.keylog
      then s
      else path_warned m status.keylog_path (
          missing_warned m status.keylog
            (record s { state = record s.state { game_keylog = status.keylog } }))

  -- The game has started, or ended.
  unfoldable pub running_changed : Moment → Bool → App → App
  running_changed m true s =
      record_user_event host m (codes "success")
        (codes "Игра запущена — подключаем статистику автоматически")
        (record_in_state m (codes "success") (codes "ARC Raiders process detected")
          (set_phase capturing (record s { state = record s.state { game_running = true } })))
  running_changed m false s =
      let stopped = record s { state = record s.state { game_running = false } } in
      let phased =
        if s.state.launcher_prepared then set_phase waiting_for_game stopped else stopped in
      let told = record_in_state m (codes "info") (codes "ARC Raiders process stopped") phased in
      persist_stream_session host m told.state.overlay (
        record_user_event host m (codes "info")
          (codes "Игра закрыта — данные текущего стрима сохранены") told)

  -- One status of the process monitor.
  unfoldable pub on_process_status : Moment → GameStatus → App → App
  on_process_status m status s =
      let t = keylog_changed m status s in
      if eq_bool t.state.game_running status.running then t else running_changed m status.running t

  unfoldable pub drain_processes : Moment → List GameStatus → App → App
  drain_processes m [] s = s
  drain_processes m (x ∷ xs) s = drain_processes m xs (on_process_status m x s)

  -- `changed |= …` of the second loop.
  unfoldable pub statuses_change : List GameStatus → App → Moment → Bool
  statuses_change [] s m = false
  statuses_change (x ∷ xs) s m =
      let rest = statuses_change xs (on_process_status m x s) m in
      not (eq_keylog s.state.game_keylog x.keylog)
      || not (eq_bool s.state.game_running x.running)
      || rest

  abbrev pub some_event : List (CollectorEvent F) → Bool
  some_event [] = false
  some_event (e ∷ es) = true

  -- `drain_events`
  unfoldable pub drain_events : Moment → List (CollectorEvent F) → List GameStatus → App → App
  drain_events m events statuses s =
      let collected = drain_collector m events s in
      let drained = drain_processes m statuses collected in
      if some_event events || statuses_change statuses collected m then notify drained else drained
