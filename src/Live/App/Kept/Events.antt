-- ===== src/Live/App/Kept/Events.antt =====
-- A response and the events of crates/arc-live/src/ui.rs: what the operations keep.
use arc_twitch_widget.Prelude.{
  ℕ, Bool, true, false, inl, inr, Bool-cases, List, [], ◌∷◌, Option, none, some, ◌||◌, if_cases,
}
use arc_twitch_widget.Prelude.Result.{Result, ok, err}
use arc_twitch_widget.Text.{Text}
use arc_twitch_widget.Core.Overlay.{OverlayStats}
use arc_twitch_widget.Core.State.{
  GameKeylogStatus, unknown, missing, matches, different, waiting_for_game,
}
use arc_twitch_widget.Core.WidgetPresets.{WidgetConfig}
use arc_twitch_widget.Core.WidgetFile.{WidgetError, File}
use arc_twitch_widget.Core.WidgetFile.Load.{Loaded, load_or_create-Loaded}
use arc_twitch_widget.Storage.{Storage, StorageError}
use arc_twitch_widget.Collector.{CollectorEvent, ProbePayload}
use arc_twitch_widget.Live.App.{Host, Moment, App, notify}
use arc_twitch_widget.Live.App.Probe.{
  Change, sync_saved, with_baseline, widgets_loaded, show_probe, apply_probe,
}
use arc_twitch_widget.Live.App.Events.{
  GameStatus, observation_saved, sync_lost, ready_received, on_collector_event, with_capture_stats,
  drain_collector, missing_warned, path_warned, keylog_changed, running_changed, on_process_status,
  drain_processes, drain_events, statuses_change, some_event, eq_keylog, eq_bool, set_phase,
}
use arc_twitch_widget.Live.App.Kept.{
  IsKept, record_in_state-IsKept, notify-IsKept, record_user_event-IsKept,
  persist_stream_session-IsKept,
}
use arc_twitch_widget.Live.Updates.Manager.{UpdateManager}

module _ (P : UpdateManager → Type 0) {F : Type 0} (host : Host F) where
  open host use {widget_serde}

  sync_saved-IsKept :
      (m : Moment) (r : Storage × Result StorageError ℕ) (s : App)
      → IsKept P s
      → IsKept P (sync_saved host m r s)
  unfolding sync_saved
  sync_saved-IsKept m (storage, ok _) s h = h
  sync_saved-IsKept m (storage, err x) s h = record_in_state-IsKept P m _ _ _ h

  with_baseline-IsKept :
      (m : Moment) (o : OverlayStats) (b : Option OverlayStats) (s : App)
      → IsKept P s
      → IsKept P (with_baseline host m o b s)
  unfolding with_baseline
  with_baseline-IsKept m o none s h = h
  with_baseline-IsKept m o (some b) s h = h

  widgets_loaded-IsKept :
      (m : Moment) (r : Result WidgetError WidgetConfig × File) (s : App)
      → Loaded widget_serde r
      → IsKept P s
      → IsKept P (widgets_loaded host m r s)
  unfolding widgets_loaded
  widgets_loaded-IsKept m (ok w, file) s l (a, e, v, u) = (a, e, l, u)
  widgets_loaded-IsKept m (err x, file) s l h = record_in_state-IsKept P m _ _ _ h

  show_probe-IsKept :
      (m : Moment) (p : ProbePayload F) (c : Option Change) (first : Bool) (s : App)
      → IsKept P s
      → IsKept P (show_probe host m p c first s)
  unfolding show_probe
  show_probe-IsKept m p c first s h =
      record_user_event-IsKept P host m _ _ _
        (persist_stream_session-IsKept P host m _ _ (record_in_state-IsKept P m _ _ _ h))

  apply_probe-IsKept :
      (m : Moment) (p : ProbePayload F) (s : App) → IsKept P s → IsKept P (apply_probe host m p s)
  unfolding apply_probe
  apply_probe-IsKept m p s h = show_probe-IsKept m p _ _ _ (
      widgets_loaded-IsKept m _ _ (load_or_create-Loaded widget_serde _)
        (with_baseline-IsKept m _ _ _ (sync_saved-IsKept m _ s h)))

  observation_saved-IsKept :
      (m : Moment) (r : Storage × Result StorageError ℕ) (s : App)
      → IsKept P s
      → IsKept P (observation_saved host m r s)
  unfolding observation_saved
  observation_saved-IsKept m (storage, ok _) s h = h
  observation_saved-IsKept m (storage, err x) s h = record_in_state-IsKept P m _ _ _ h

  sync_lost-IsKept : (m : Moment) (s : App) → IsKept P s → IsKept P (sync_lost host m s)
  unfolding sync_lost
  sync_lost-IsKept m s h = elim (Bool-cases s.last_sync_succeeded) [
    | inl e ↦ simp e (record_user_event-IsKept P host m _ _ s h)
    | inr e ↦ simp e h
  ]

  ready_received-IsKept :
      (m : Moment) (b : Bool) (s : App) → IsKept P s → IsKept P (ready_received host m b s)
  unfolding ready_received
  ready_received-IsKept m true s h = record_in_state-IsKept P m _ _ _ h
  ready_received-IsKept m false s h = h

  on_collector_event-IsKept :
      (m : Moment) (e : CollectorEvent F) (s : App)
      → IsKept P s
      → IsKept P (on_collector_event host m e s)
  unfolding on_collector_event with_capture_stats
  on_collector_event-IsKept m (CollectorEvent.connected version privileged) s h =
      record_in_state-IsKept P m _ _ _ h
  on_collector_event-IsKept m (CollectorEvent.status message) s h =
      record_in_state-IsKept P m _ _ _ h
  on_collector_event-IsKept m (CollectorEvent.stats st) s h = h
  on_collector_event-IsKept m (CollectorEvent.ready b) s h = ready_received-IsKept m b s h
  on_collector_event-IsKept m (CollectorEvent.observation v) s h = observation_saved-IsKept m _ s h
  on_collector_event-IsKept m (CollectorEvent.probe p) s h = apply_probe-IsKept m p s h
  on_collector_event-IsKept m (CollectorEvent.error message) s h =
      sync_lost-IsKept m _ (record_in_state-IsKept P m _ _ _ h)
  on_collector_event-IsKept m CollectorEvent.stopped s h =
      record_user_event-IsKept P host m _ _ _ (record_in_state-IsKept P m _ _ _ h)

  drain_collector-IsKept :
      (m : Moment) (es : List (CollectorEvent F)) (s : App)
      → IsKept P s
      → IsKept P (drain_collector host m es s)
  unfolding drain_collector
  drain_collector-IsKept m [] s h = h
  drain_collector-IsKept m (e ∷ es) s h =
      drain_collector-IsKept m es _ (on_collector_event-IsKept m e s h)

  missing_warned-IsKept :
      (m : Moment) (k : GameKeylogStatus) (s : App)
      → IsKept P s
      → IsKept P (missing_warned host m k s)
  unfolding missing_warned
  missing_warned-IsKept m unknown s h = h
  missing_warned-IsKept m missing s h = record_in_state-IsKept P m _ _ _ h
  missing_warned-IsKept m matches s h = h
  missing_warned-IsKept m different s h = h

  path_warned-IsKept :
      (m : Moment) (o : Option Text) (s : App) → IsKept P s → IsKept P (path_warned host m o s)
  unfolding path_warned
  path_warned-IsKept m none s h = h
  path_warned-IsKept m (some path) s h = record_in_state-IsKept P m _ _ _ h

  keylog_changed-IsKept :
      (m : Moment) (g : GameStatus) (s : App) → IsKept P s → IsKept P (keylog_changed host m g s)
  unfolding keylog_changed
  keylog_changed-IsKept m g s h = elim (Bool-cases (eq_keylog s.state.game_keylog g.keylog)) [
    | inl e ↦ rw e h
    | inr e ↦ rw e (path_warned-IsKept m _ _ (missing_warned-IsKept m _ _ h))
  ]

  running_changed-IsKept :
      (m : Moment) (b : Bool) (s : App) → IsKept P s → IsKept P (running_changed host m b s)
  unfolding running_changed
  running_changed-IsKept m true s h =
      record_user_event-IsKept P host m _ _ _ (record_in_state-IsKept P m _ _ _ h)
  running_changed-IsKept m false s h =
      let stopped = record s { state = record s.state { game_running = false } } in
      persist_stream_session-IsKept P host m _ _ (
        record_user_event-IsKept P host m _ _ _ (
          record_in_state-IsKept P m _ _ _ (
            if_cases (IsKept P) s.state.launcher_prepared {x = set_phase waiting_for_game stopped}
              {y = stopped} (λ e. h) (λ e. h))))

  on_process_status-IsKept :
      (m : Moment) (g : GameStatus) (s : App) → IsKept P s → IsKept P (on_process_status host m g s)
  unfolding on_process_status
  on_process_status-IsKept m g s h =
      let t = keylog_changed host m g s in
      let k = keylog_changed-IsKept m g s h in
      if_cases (IsKept P) (eq_bool t.state.game_running g.running) {x = t}
        {y = running_changed host m g.running t} (λ e. k)
        (λ e. running_changed-IsKept m g.running t k)

  drain_processes-IsKept :
      (m : Moment) (gs : List GameStatus) (s : App)
      → IsKept P s
      → IsKept P (drain_processes host m gs s)
  unfolding drain_processes
  drain_processes-IsKept m [] s h = h
  drain_processes-IsKept m (g ∷ gs) s h =
      drain_processes-IsKept m gs _ (on_process_status-IsKept m g s h)

  pub drain_events-IsKept :
      (m : Moment) (es : List (CollectorEvent F)) (gs : List GameStatus) (s : App)
      → IsKept P s
      → IsKept P (drain_events host m es gs s)
  unfolding drain_events
  drain_events-IsKept m es gs s h =
      let collected = drain_collector host m es s in
      let drained = drain_processes host m gs collected in
      let k = drain_processes-IsKept m gs collected (drain_collector-IsKept m es s h) in
      if_cases (IsKept P) (some_event host es || statuses_change host gs collected m)
        {x = notify drained} {y = drained} (λ e. notify-IsKept P drained k) (λ e. k)
