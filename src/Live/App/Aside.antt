-- ===== src/Live/App/Aside.antt =====
-- What the operations of crates/arc-live/src/ui.rs that write to the database leave alone.
use arc_twitch_widget.Prelude.{ℕ, Option, none, some, ◌≡◌, refl, unwrap_or}
use arc_twitch_widget.Prelude.Result.{Result, ok, err}
use arc_twitch_widget.Text.{Text}
use arc_twitch_widget.Core.Overlay.{OverlayStats}
use arc_twitch_widget.Core.State.{record_activity}
use arc_twitch_widget.Core.WidgetPresets.{WidgetConfig}
use arc_twitch_widget.Core.WidgetFile.{WidgetError, File}
use arc_twitch_widget.Storage.{Storage, StorageError, UserEvent}
use arc_twitch_widget.Live.App.{
  Host, Moment, App, record_in_state, notify, event_recorded, record_user_event, session_saved,
  persist_from, persist_stream_session,
}
use arc_twitch_widget.Live.App.Probe.{sync_saved, widgets_loaded}

-- The same overlay on the same stream, with the same settings.
pub record Same (s t : App) : Type 0 where
  pub overlay : t.state.overlay ≡ s.state.overlay
  pub baseline : t.session_baseline ≡ s.session_baseline
  pub day : t.stream_day ≡ s.stream_day
  pub config : t.config ≡ s.config

pub Same-then : {s t u : App} → Same s t → Same t u → Same s u
Same-then f g = record { overlay = cc; baseline = cc; day = cc; config = cc }

pub record_in_state-Same : (m : Moment) (l t : Text) (s : App) → Same s (record_in_state m l t s)
unfolding record_in_state record_activity
record_in_state-Same m l t s = record { overlay = refl; baseline = refl; day = refl; config = refl }

pub notify-Same : (s : App) → Same s (notify s)
unfolding notify
notify-Same s = record { overlay = refl; baseline = refl; day = refl; config = refl }

stored-Same : (storage : Storage) (s : App) → Same s (record s { storage = storage })
stored-Same storage s = record { overlay = refl; baseline = refl; day = refl; config = refl }

module _ {F : Type 0} (host : Host F) where
  event_recorded-Same :
      (m : Moment) (e : UserEvent) (r : Storage × Result StorageError ℕ) (s : App)
      → Same s (event_recorded host m e r s)
  unfolding event_recorded
  event_recorded-Same m e (storage, ok _) s = record {
    overlay = refl;
    baseline = refl;
    day = refl;
    config = refl;
  }
  event_recorded-Same m e (storage, err x) s =
      Same-then (stored-Same storage s) (record_in_state-Same m _ _ _)

  pub record_user_event-Same :
      (m : Moment) (l t : Text) (s : App) → Same s (record_user_event host m l t s)
  unfolding record_user_event
  record_user_event-Same m l t s = event_recorded-Same m _ _ s

  session_saved-Same :
      (m : Moment) (r : Storage × Result StorageError (Unit {0})) (s : App)
      → Same s (session_saved host m r s)
  unfolding session_saved
  session_saved-Same m (storage, ok _) s = stored-Same storage s
  session_saved-Same m (storage, err x) s =
      Same-then (stored-Same storage s) (record_in_state-Same m _ _ _)

  pub persist_stream_session-Same :
      (m : Moment) (o : OverlayStats) (s : App) → Same s (persist_stream_session host m o s)
  unfolding persist_stream_session
  persist_stream_session-Same m o s = of s.session_baseline
    where
      of : (b : Option OverlayStats) → Same s (persist_from host m b o s)
      of none =
          unfold persist_from in
          record { overlay = refl; baseline = refl; day = refl; config = refl }
      of (some b) =
          unfold persist_from in
          let started = record s {
            stream_started_at = some (unwrap_or s.stream_started_at m.now);
          } in
          Same-then {s = s} {t = started}
            (record { overlay = refl; baseline = refl; day = refl; config = refl })
            (session_saved-Same m _ started)

  pub sync_saved-Same :
      (m : Moment) (r : Storage × Result StorageError ℕ) (s : App) → Same s (sync_saved host m r s)
  unfolding sync_saved
  sync_saved-Same m (storage, ok _) s = stored-Same storage s
  sync_saved-Same m (storage, err x) s =
      Same-then (stored-Same storage s) (record_in_state-Same m _ _ _)

  pub widgets_loaded-Same :
      (m : Moment) (r : Result WidgetError WidgetConfig × File) (s : App)
      → Same s (widgets_loaded host m r s)
  unfolding widgets_loaded record_in_state record_activity
  widgets_loaded-Same m (ok w, file) s = record {
    overlay = refl;
    baseline = refl;
    day = refl;
    config = refl;
  }
  widgets_loaded-Same m (err x, file) s = record {
    overlay = refl;
    baseline = refl;
    day = refl;
    config = refl;
  }
