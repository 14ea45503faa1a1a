-- ===== src/Live/App/Kept.antt =====
-- What every operation of crates/arc-live/src/ui.rs keeps: the lists that the window shows stay short,
-- and the layout of the widget has passed its check.
pub mod Settings
pub mod Events
pub mod Actions
pub mod Turns
use arc_twitch_widget.Prelude.{
  ℕ, ◌≤◌, ◌≡◌, Bool, true, false, List, [], ◌∷◌, Option, none, some, min, length, length-take,
  length-map, arith, if_cases, retain,
}
use arc_twitch_widget.Prelude.Result.{Result, ok, err}
use arc_twitch_widget.Text.{Text, eq_text}
use arc_twitch_widget.Core.Overlay.{OverlayStats}
use arc_twitch_widget.Core.State.{record_activity}
use arc_twitch_widget.Core.WidgetPresets.{WidgetConfig}
use arc_twitch_widget.Core.WidgetFile
use arc_twitch_widget.Core.WidgetFile.{WidgetError, File}
use arc_twitch_widget.Core.WidgetFile.Valid.{IsValid}
use arc_twitch_widget.Core.WidgetFile.Load.{Loaded, load_or_create-Loaded}
use arc_twitch_widget.Storage.{Storage, StorageError, UserEvent}
use arc_twitch_widget.Storage.Access.{user_event_of, user_events_for_day}
use arc_twitch_widget.Storage.Tables.{limit_rows, order_by_id_desc}
use arc_twitch_widget.Storage.Newest.{limit_rows-take}
use arc_twitch_widget.Live.App.{
  Host, Moment, App, record_in_state, notify, event_recorded, record_user_event, session_saved,
  persist_from, persist_stream_session,
}
use arc_twitch_widget.Live.App.Stream.{
  events_or_none, rollover_day, rollover_day_if_needed, start_new_stream,
}
use arc_twitch_widget.Live.Updates.Manager.{UpdateManager}

-- At most a hundred lines of activity and thirty events, a valid layout, and what holds of the
-- manager of updates.
abbrev pub IsKept : (UpdateManager → Type 0) → App → Type 0
IsKept P s =
    (length s.state.activity ≤ 100)
    × (length s.user_events ≤ 30)
    × IsValid s.widget_config
    × P s.updates

module _ (P : UpdateManager → Type 0) where
  pub record_in_state-IsKept :
      (m : Moment) (l t : Text) (s : App) → IsKept P s → IsKept P (record_in_state m l t s)
  unfolding record_in_state record_activity
  record_in_state-IsKept m l t s (a, e, v, u) =
      (rw (length-take 99 s.state.activity) (omega arith), e, v, u)

  pub notify-IsKept : (s : App) → IsKept P s → IsKept P (notify s)
  unfolding notify
  notify-IsKept s h = h

module _ (P : UpdateManager → Type 0) {F : Type 0} (host : Host F) where
  open host use {codec}

  event_recorded-IsKept :
      (m : Moment) (e : UserEvent) (r : Storage × Result StorageError ℕ) (s : App)
      → IsKept P s
      → IsKept P (event_recorded host m e r s)
  unfolding event_recorded
  event_recorded-IsKept m e (storage, ok _) s (a, h, v, u) =
      (a, rw (length-take 29 s.user_events) (omega arith), v, u)
  event_recorded-IsKept m e (storage, err x) s h = record_in_state-IsKept P m _ _ _ h

  pub record_user_event-IsKept :
      (m : Moment) (l t : Text) (s : App) → IsKept P s → IsKept P (record_user_event host m l t s)
  unfolding record_user_event
  record_user_event-IsKept m l t s h = event_recorded-IsKept m _ _ s h

  session_saved-IsKept :
      (m : Moment) (r : Storage × Result StorageError (Unit {0})) (s : App)
      → IsKept P s
      → IsKept P (session_saved host m r s)
  unfolding session_saved
  session_saved-IsKept m (storage, ok _) s h = h
  session_saved-IsKept m (storage, err x) s h = record_in_state-IsKept P m _ _ _ h

  persist_from-IsKept :
      (m : Moment) (b : Option OverlayStats) (o : OverlayStats) (s : App)
      → IsKept P s
      → IsKept P (persist_from host m b o s)
  unfolding persist_from
  persist_from-IsKept m none o s h = h
  persist_from-IsKept m (some b) o s h = session_saved-IsKept m _ _ h

  pub persist_stream_session-IsKept :
      (m : Moment) (o : OverlayStats) (s : App)
      → IsKept P s
      → IsKept P (persist_stream_session host m o s)
  unfolding persist_stream_session
  persist_stream_session-IsKept m o s h = persist_from-IsKept m s.session_baseline o s h

  -- The events that are read back for the window.
  pub length-user_events_for_day :
      (works : Bool) (now : ℕ) (day : Text) (storage : Storage)
      → length (events_or_none (user_events_for_day codec works now day 30 storage)) ≤ 30
  unfolding user_events_for_day
  length-user_events_for_day false now day storage = omega arith
  length-user_events_for_day true now day storage =
      let rows =
        order_by_id_desc
          (retain (λ r. eq_text (r.1).local_day day) storage.database.user_events.rows) in
      rw (length-map (user_event_of codec now) (limit_rows 30 rows))
        (rw (limit_rows-take 30 rows (omega arith), length-take 30 rows) (omega arith))

  rollover_day-IsKept : (m : Moment) (s : App) → IsKept P s → IsKept P (rollover_day host m s)
  unfolding rollover_day
  rollover_day-IsKept m s (a, e, v, u) = record_user_event-IsKept m _ _ _ (
      notify-IsKept P _ (
        record_in_state-IsKept P m _ _ _
          (a, length-user_events_for_day m.events m.now m.today s.storage, v, u)))

  pub rollover_day_if_needed-IsKept :
      (m : Moment) (s : App) → IsKept P s → IsKept P (rollover_day_if_needed host m s)
  unfolding rollover_day_if_needed
  rollover_day_if_needed-IsKept m s h =
      if_cases (IsKept P) (eq_text m.today s.stream_day) {x = s} {y = rollover_day host m s}
        (λ e. h) (λ e. rollover_day-IsKept m s h)

  pub start_new_stream-IsKept :
      (m : Moment) (s : App) → IsKept P s → IsKept P (start_new_stream host m s)
  unfolding start_new_stream
  start_new_stream-IsKept m s h =
      record_user_event-IsKept m _ _ _
        (persist_stream_session-IsKept m _ _ (record_in_state-IsKept P m _ _ _ h))
