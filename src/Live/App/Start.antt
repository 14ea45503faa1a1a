-- ===== src/Live/App/Start.antt =====
-- crates/arc-live/src/ui.rs: the start of the application, what it does whether or not its window is
-- drawn, and its end.
use arc_twitch_widget.Prelude.{false, List, [], Option, none, some, leb, if◌then◌else◌}
use arc_twitch_widget.Prelude.Result.{Result, ok, err}
use arc_twitch_widget.Text.{Text, codes, eq_text}
use arc_twitch_widget.Core.Overlay.{OverlayStats, apply_session_baseline, hydrate_legacy_raw_totals}
use arc_twitch_widget.Core.State.{AppState, record_activity}
use arc_twitch_widget.Core.WidgetPresets.{WidgetConfig}
use arc_twitch_widget.Core.WidgetConfig.{apply}
use arc_twitch_widget.Core.WidgetFile.{File}
use arc_twitch_widget.Core.Config.{AppConfig, disclaimer_revision, selected_update_feed_url}
use arc_twitch_widget.Storage.{Storage, StorageError, PersistedStreamSession}
use arc_twitch_widget.Storage.Access.{load_stream_session, user_events_for_day}
use arc_twitch_widget.Collector.{CollectorEvent}
use arc_twitch_widget.Live.Updates.Manager.{UpdateManager, UpdateEvent, manager_new}
use arc_twitch_widget.Live.Updates.Manager
use arc_twitch_widget.Live.App.{
  Host, Moment, App, Launcher, stream_page, record_user_event, persist_stream_session,
}
use arc_twitch_widget.Live.App.Stream.{events_or_none, rollover_day_if_needed}
use arc_twitch_widget.Live.App.Events.{GameStatus, drain_events}

-- What `ArcLiveApp::new` is given.
pub record Parts : Type 0 where
  pub config : AppConfig
  pub config_file : File
  pub widget_config : WidgetConfig
  pub widget_file : File
  pub storage : Storage
  pub state : AppState
  -- `session_setup::installed_launchers()`
  pub launchers : List Launcher

-- `storage.load_stream_session().ok().flatten()`
abbrev pub found :
    Result StorageError (Option PersistedStreamSession) → Option PersistedStreamSession
found (ok o) = o
found (err e) = none

-- `saved_session.filter(|session| session.local_day == stream_day)`
unfoldable pub of_day : Text → Option PersistedStreamSession → Option PersistedStreamSession
of_day day none = none
of_day day (some session) = if eq_text session.local_day day then some session else none

-- The overlay of a restored session, with the look of the configuration.
unfoldable pub restored_overlay :
    WidgetConfig → OverlayStats → PersistedStreamSession → OverlayStats
restored_overlay widgets current session =
    let overlay = apply widgets (
      apply_session_baseline (hydrate_legacy_raw_totals session.overlay)
        (hydrate_legacy_raw_totals session.baseline)) in
    record overlay {
      mode = codes "live";
      preset = current.preset;
      language = current.language;
      background_preset = current.background_preset;
      background_color = current.background_color;
      opacity = current.opacity;
      background_blur = current.background_blur;
    }

unfoldable pub updates_at_start : AppConfig → UpdateManager
updates_at_start c =
    if c.automatic_updates
    then (Manager.check (selected_update_feed_url c) manager_new).0
    else manager_new

module _ {F : Type 0} (host : Host F) where
  open host use {codec}

  -- The application before it restores a session.
  unfoldable pub app_of : Moment → Parts → App
  app_of m p = record {
    config = p.config;
    config_file = p.config_file;
    widget_config = p.widget_config;
    widget_file = p.widget_file;
    storage = p.storage;
    state = p.state;
    notified = [];
    monitored = p.config.game_process_names;
    collector_ready = false;
    collector_privileged = false;
    updates = updates_at_start p.config;
    session_baseline = none;
    stream_day = m.today;
    stream_started_at = none;
    user_events = events_or_none (user_events_for_day codec m.events m.now m.today 30 p.storage);
    last_sync_succeeded = false;
    widget_config_error = none;
    confirm_new_stream = false;
    last_totals = none;
    disclaimer_confirmed = false;
    launchers = p.launchers;
    page = stream_page;
    closing = false;
  }

  unfoldable pub with_session : Moment → PersistedStreamSession → App → App
  with_session m session s = record s {
    session_baseline = some (hydrate_legacy_raw_totals session.baseline);
    stream_started_at = some session.started_at;
    state =
        record_activity
          (record s.state { overlay = restored_overlay s.widget_config s.state.overlay session })
          m.now (codes "success") (codes "Today's stream restored from local storage");
  }

  -- The saved session, if there is one and if it is of the day, with what the user is told.
  unfoldable pub start_with :
      Moment → Option PersistedStreamSession → Option PersistedStreamSession → App → App
  start_with m saved (some session) s =
      record_user_event host m (codes "success") (codes "Статистика текущего стрима восстановлена")
        (with_session m session s)
  start_with m (some other) none s =
      record_user_event host m (codes "info")
        (codes "Начался новый день — счётчики стрима начнутся заново") s
  start_with m none none s = s

  -- `ArcLiveApp::new`
  unfoldable pub start : Moment → Parts → App
  start m p =
      let saved = found (load_stream_session codec m.sessions p.storage) in
      record_user_event host m (codes "info") (codes "ARC Live запущена")
        (start_with m saved (of_day m.today saved) (app_of m p))

  -- `ArcLiveApp::logic`, without the window.
  unfoldable pub logic :
      Moment → List UpdateEvent → List (CollectorEvent F) → List GameStatus → App → App
  logic m news events statuses s =
      let told = record s { updates = Manager.drain news s.updates } in
      drain_events host m events statuses (
        if leb disclaimer_revision told.config.disclaimer_accepted_revision
        then rollover_day_if_needed host m told
        else told)

  -- `ArcLiveApp::drop`
  unfoldable pub close : Moment → App → App
  close m s =
      record_user_event host m (codes "info") (codes "ARC Live закрыта — данные стрима сохранены") (
        if eq_text s.state.overlay.mode (codes "demo")
        then s
        else persist_stream_session host m s.state.overlay s)
