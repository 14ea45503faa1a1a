-- ===== src/Live/App/Stream.antt =====
-- crates/arc-live/src/ui.rs: the day and the stream.
use arc_twitch_widget.Prelude.{false, List, [], ◌∷◌, none, some, if◌then◌else◌}
use arc_twitch_widget.Prelude.Int.{pos}
use arc_twitch_widget.Prelude.Result.{Result, ok, err}
use arc_twitch_widget.Text.{codes, eq_text}
use arc_twitch_widget.Core.Overlay.{OverlayStats}
use arc_twitch_widget.Core.WidgetConfig.{apply}
use arc_twitch_widget.Storage.{StorageError, UserEvent}
use arc_twitch_widget.Storage.Access.{user_events_for_day}
use arc_twitch_widget.Live.App.{
  Host, Moment, App, record_in_state, notify, edit_overlay, record_user_event,
  persist_stream_session,
}

unfoldable pub zero_session : OverlayStats → OverlayStats
zero_session o = record o {
  session_downs = 0;
  session_extractions = 0;
  session_deaths = 0;
  session_loot_value = 0;
  session_money_delta = pos 0;
  session_raw_totals = [];
}

unfoldable pub zero_today : OverlayStats → OverlayStats
zero_today o = record o {
  today_extractions = 0;
  today_deaths = 0;
  today_available = false;
  today_raw_totals = [];
}

-- `.unwrap_or_default()`
abbrev pub events_or_none : Result StorageError (List UserEvent) → List UserEvent
events_or_none (ok es) = es
events_or_none (err e) = []

module _ {F : Type 0} (host : Host F) where
  open host use {codec}

  -- `rollover_day_if_needed`, where the day is another.
  unfoldable pub rollover_day : Moment → App → App
  rollover_day m s =
      let events = events_or_none (user_events_for_day codec m.events m.now m.today 30 s.storage) in
      let fresh =
        edit_overlay (λ o. apply s.widget_config (zero_today (zero_session o)))
          (record s {
            stream_day = m.today;
            session_baseline = none;
            stream_started_at = none;
            user_events = events;
          }) in
      record_user_event host m (codes "info")
        (codes "Начался новый день — счётчики стрима продолжат работу после синхронизации")
        (notify (
          record_in_state m (codes "info")
            (codes "A new local day started; stream baseline will be refreshed") fresh))

  unfoldable pub rollover_day_if_needed : Moment → App → App
  rollover_day_if_needed m s = if eq_text m.today s.stream_day then s else rollover_day m s

  -- `start_new_stream`
  unfoldable pub start_new_stream : Moment → App → App
  start_new_stream m s =
      let cleared =
        record_in_state m (codes "info")
          (codes "The stream statistics baseline was reset by the user")
          (edit_overlay
            (λ o. apply s.widget_config (zero_session (record o { mode = codes "live" }))) s) in
      let restarted = record cleared {
        session_baseline = some s.state.overlay;
        stream_started_at = some m.now;
        confirm_new_stream = false;
      } in
      let told =
        record_user_event host m (codes "success")
          (codes "Статистика стрима сброшена — счётчики обнулены")
          (persist_stream_session host m cleared.state.overlay restarted) in
      record told { notified = cleared.state ∷ told.notified }
