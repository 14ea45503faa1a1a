-- ===== src/Live/App.antt =====
-- crates/arc-live/src/ui.rs: the state of the application and what its operations share. The window
-- is left out; `notified` holds what was sent to the server's pages, the last in front.
pub mod Stream
pub mod Settings
pub mod Probe
pub mod Events
pub mod Actions
pub mod Start
pub mod Aside
pub mod Counted
pub mod Restored
pub mod Kept
pub mod Refined
mod Tests
use arc_twitch_widget.Prelude.{
  ℕ, Bool, true, false, List, [], ◌∷◌, ◌++◌, Option, none, some, take, unwrap_or, if◌then◌else◌,
}
use arc_twitch_widget.Prelude.Result.{Result, ok, err}
use arc_twitch_widget.Text.{Text, codes}
use arc_twitch_widget.Text.Utf8.{Bytes}
use arc_twitch_widget.Core.Overlay.{OverlayStats}
use arc_twitch_widget.Core.State.{AppState, record_activity}
use arc_twitch_widget.Core.WidgetPresets.{WidgetConfig}
use arc_twitch_widget.Core.WidgetFile
use arc_twitch_widget.Core.WidgetFile.{WidgetError, File}
use arc_twitch_widget.Core.Config
use arc_twitch_widget.Core.Config.{AppConfig, Build, ConfigError}
use arc_twitch_widget.Storage.{
  Storage, Codec, StorageError, UserEvent, PersistedStreamSession, stream_session_schema_version,
}
use arc_twitch_widget.Storage.Access.{insert_user_event, save_stream_session}
use arc_twitch_widget.Live.Updates.Manager.{UpdateManager}

-- What stands outside of this code: the codecs, the hash, the build, and the texts of errors.
pub record Host (F : Type 0) : Type 0 where
  pub codec : Codec F
  pub sha256_hex : Bytes → Text
  pub widget_serde : WidgetFile.Serde F
  pub config_serde : Config.Serde
  pub build : Build
  pub storage_error_text : StorageError → Text
  pub widget_error_text : WidgetError → Text
  pub config_error_text : ConfigError → Text

-- When an operation happens, which statements SQLite carries out then, and what the operating system
-- does.
pub record Moment : Type 0 where
  pub now : ℕ
  pub today : Text
  pub observations : Bool
  pub sessions : Bool
  pub events : Bool
  pub prunes : Bool
  -- Whether a process can be started, what the restart of a launcher gives, and the export.
  pub spawns : Bool
  pub restarted : Result Text (Unit {0})
  pub exported : Result Text Text

-- crates/arc-live/src/session_setup.rs: `Launcher`.
pub data Launcher : Type 0 where
  steam epic : Launcher

unfoldable pub title : Launcher → Text
title steam = codes "Steam"
title epic = codes "Epic Games Launcher"

-- crates/arc-live/src/view.rs: `Page`.
pub data Page : Type 0 where
  stream_page widget_page settings_page : Page

pub record App : Type 0 where
  pub config : AppConfig
  pub config_file : File
  pub widget_config : WidgetConfig
  pub widget_file : File
  pub storage : Storage
  pub state : AppState
  pub notified : List AppState
  -- The names that the process monitor looks for.
  pub monitored : List Text
  pub collector_ready : Bool
  pub collector_privileged : Bool
  pub updates : UpdateManager
  pub session_baseline : Option OverlayStats
  pub stream_day : Text
  pub stream_started_at : Option ℕ
  pub user_events : List UserEvent
  pub last_sync_succeeded : Bool
  pub widget_config_error : Option Text
  pub confirm_new_stream : Bool
  pub last_totals : Option OverlayStats
  pub disclaimer_confirmed : Bool
  pub launchers : List Launcher
  pub page : Page
  -- The window was told to close.
  pub closing : Bool

-- `self.state.write().record(level, message)`
unfoldable pub record_in_state : Moment → Text → Text → App → App
record_in_state m level message s = record s { state = record_activity s.state m.now level message }

-- `self.server.notify(&snapshot)` of the present state.
unfoldable pub notify : App → App
notify s = record s { notified = s.state ∷ s.notified }

-- An edit of the overlay.
abbrev pub edit_overlay : (OverlayStats → OverlayStats) → App → App
edit_overlay f s = record s { state = record s.state { overlay = f s.state.overlay } }

module _ {F : Type 0} (host : Host F) where
  open host use {codec, storage_error_text}

  unfoldable pub event_recorded : Moment → UserEvent → Storage × Result StorageError ℕ → App → App
  event_recorded m e (storage, ok _) s = record s {
    storage = storage;
    user_events = take 30 (e ∷ s.user_events);
  }
  event_recorded m e (storage, err x) s =
      record_in_state m (codes "error") (codes "Saving user event failed: " ++ storage_error_text x)
        (record s { storage = storage })

  -- `record_user_event`
  unfoldable pub record_user_event : Moment → Text → Text → App → App
  record_user_event m level message s =
      let e : UserEvent = record {
        at = m.now;
        local_day = s.stream_day;
        level = level;
        message = message;
      } in
      event_recorded m e (insert_user_event codec m.events m.prunes e s.storage) s

  unfoldable pub session_saved : Moment → Storage × Result StorageError (Unit {0}) → App → App
  session_saved m (storage, ok _) s = record s { storage = storage }
  session_saved m (storage, err x) s =
      record_in_state m (codes "error")
        (codes "Saving current stream failed: " ++ storage_error_text x)
        (record s { storage = storage })

  unfoldable pub persist_from : Moment → Option OverlayStats → OverlayStats → App → App
  persist_from m none overlay s = s
  persist_from m (some baseline) overlay s =
      let started_at = unwrap_or s.stream_started_at m.now in
      let session : PersistedStreamSession = record {
        schema_version = stream_session_schema_version;
        local_day = s.stream_day;
        started_at = started_at;
        updated_at = m.now;
        baseline = baseline;
        overlay = overlay;
      } in
      session_saved m (save_stream_session codec m.sessions session s.storage)
        (record s { stream_started_at = some started_at })

  -- `persist_stream_session`
  unfoldable pub persist_stream_session : Moment → OverlayStats → App → App
  persist_stream_session m overlay s = persist_from m s.session_baseline overlay s
