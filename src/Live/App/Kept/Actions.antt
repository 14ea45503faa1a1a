-- ===== src/Live/App/Kept/Actions.antt =====
-- The actions and the start of crates/arc-live/src/ui.rs: what they keep.
use arc_twitch_widget.Prelude.{
  ◌≤◌, true, false, Option, none, some, length, length-take, arith, if_cases,
}
use arc_twitch_widget.Prelude.Result.{Result, ok, err}
use arc_twitch_widget.Text.{Text}
use arc_twitch_widget.Core.Config.{AppConfig, ConfigError}
use arc_twitch_widget.Core.Overlay.{OverlayStats}
use arc_twitch_widget.Core.WidgetFile.{File}
use arc_twitch_widget.Core.WidgetFile.Valid.{IsValid}
use arc_twitch_widget.Core.State.{record_activity}
use arc_twitch_widget.Storage.{PersistedStreamSession}
use arc_twitch_widget.Live.Updates.{UpdateError}
use arc_twitch_widget.Live.Updates.Manager
use arc_twitch_widget.Live.Updates.Manager.{UpdateManager, UpdateEvent, manager_new}
use arc_twitch_widget.Live.App.{Host, Moment, App, Launcher}
use arc_twitch_widget.Live.App.Actions.{
  Action, show_edit, save_config, notice_saved, export_recorded, update_launched, restart_recorded,
  launcher_restarted, apply_action,
}
use arc_twitch_widget.Live.App.Start.{
  Parts, updates_at_start, app_of, with_session, start_with, start,
}
use arc_twitch_widget.Live.App.Kept.{
  IsKept, record_in_state-IsKept, notify-IsKept, record_user_event-IsKept,
  length-user_events_for_day, start_new_stream-IsKept,
}
use arc_twitch_widget.Live.App.Kept.Settings.{
  select_overlay_preset-IsKept, change_appearance-IsKept, reload_widget_config-IsKept,
  reload_configuration-IsKept,
}

-- What holds of the manager of updates whatever the window does with it.
pub record Closed (P : UpdateManager → Type 0) : Type 0 where
  pub checked : (feed_url : Text) (u : UpdateManager) → P u → P (Manager.check feed_url u).0
  pub downloading : (u : UpdateManager) → P u → P (Manager.download u).0
  pub cleared : (u : UpdateManager) → P u → P (record u { available = none; downloaded = none })
  pub failed : (e : UpdateError) (u : UpdateManager) → P u → P (record u { error = some e })
  pub new : P manager_new

module _ (P : UpdateManager → Type 0) (closed : Closed P) {F : Type 0} (host : Host F) where
  open host use {codec}

  show_edit-IsKept :
      (m : Moment) (t : Text) (f : OverlayStats → OverlayStats) (s : App)
      → IsKept P s
      → IsKept P (show_edit host m t f s)
  unfolding show_edit
  show_edit-IsKept m t f s h = notify-IsKept P _ (record_in_state-IsKept P m _ _ _ h)

  notice_saved-IsKept :
      (m : Moment) (r : Result ConfigError (Unit {0}) × File) (s : App)
      → IsKept P s
      → IsKept P (notice_saved host m r s)
  unfolding notice_saved
  notice_saved-IsKept m (ok _, file) s h = h
  notice_saved-IsKept m (err e, file) s h = record_in_state-IsKept P m _ _ _ h

  export_recorded-IsKept :
      (m : Moment) (r : Result Text Text) (s : App)
      → IsKept P s
      → IsKept P (export_recorded host m r s)
  unfolding export_recorded
  export_recorded-IsKept m (ok path) s h = record_in_state-IsKept P m _ _ _ h
  export_recorded-IsKept m (err e) s h = record_in_state-IsKept P m _ _ _ h

  update_launched-IsKept :
      (r : Result UpdateError Text) (s : App) → IsKept P s → IsKept P (update_launched host r s)
  unfolding update_launched
  update_launched-IsKept (ok path) s h = h
  update_launched-IsKept (err x) s (a, e, v, u) = (a, e, v, closed.failed x s.updates u)

  restart_recorded-IsKept :
      (m : Moment) (name : Text) (r : Result Text (Unit {0})) (s : App)
      → IsKept P s
      → IsKept P (restart_recorded host m name r s)
  unfolding restart_recorded
  restart_recorded-IsKept m name (ok _) s h =
      record_user_event-IsKept P host m _ _ _ (record_in_state-IsKept P m _ _ _ h)
  restart_recorded-IsKept m name (err e) s h =
      record_user_event-IsKept P host m _ _ _ (record_in_state-IsKept P m _ _ _ h)

  launcher_restarted-IsKept :
      (m : Moment) (o : Option Launcher) (s : App)
      → IsKept P s
      → IsKept P (launcher_restarted host m o s)
  unfolding launcher_restarted
  launcher_restarted-IsKept m none s h = h
  launcher_restarted-IsKept m (some launcher) s h = restart_recorded-IsKept m _ m.restarted s h

  pub apply_action-IsKept :
      (m : Moment) (a : Action) (s : App) → IsKept P s → IsKept P (apply_action host m a s)
  unfolding apply_action save_config
  apply_action-IsKept m (Action.select_preset id) s h = select_overlay_preset-IsKept P host m id s h
  apply_action-IsKept m Action.ask_reset s h = h
  apply_action-IsKept m Action.cancel_reset s h = h
  apply_action-IsKept m Action.confirm_reset s h = start_new_stream-IsKept P host m s h
  apply_action-IsKept m Action.reload_presets s h = reload_widget_config-IsKept P host m s h
  apply_action-IsKept m Action.reload_config s h = reload_configuration-IsKept P host m s h
  apply_action-IsKept m (Action.set_language l) s h = change_appearance-IsKept P host m _ s h
  apply_action-IsKept m (Action.set_appearance p c o b) s h =
      change_appearance-IsKept P host m _ s h
  apply_action-IsKept m (Action.set_demo true) s h = show_edit-IsKept m _ _ s h
  apply_action-IsKept m (Action.set_demo false) s h = show_edit-IsKept m _ _ s h
  apply_action-IsKept m Action.flip_demo_balance s h = show_edit-IsKept m _ _ s h
  apply_action-IsKept m (Action.set_auto_updates b) s h = h
  apply_action-IsKept m (Action.set_channel c) s (a, e, v, u) =
      (a, e, v, closed.cleared s.updates u)
  apply_action-IsKept m Action.check_updates s (a, e, v, u) =
      (a, e, v, closed.checked _ s.updates u)
  apply_action-IsKept m Action.download_update s (a, e, v, u) =
      (a, e, v, closed.downloading s.updates u)
  apply_action-IsKept m (Action.confirm_disclaimer b) s h = h
  apply_action-IsKept m Action.accept_disclaimer s h =
      record_user_event-IsKept P host m _ _ _ (notice_saved-IsKept m _ _ h)
  apply_action-IsKept m Action.decline_disclaimer s h = h
  apply_action-IsKept m (Action.goto page) s h = h
  apply_action-IsKept m Action.copy_obs_url s h = h
  apply_action-IsKept m Action.open_obs_preview s h = h
  apply_action-IsKept m Action.open_preset_file s h = h
  apply_action-IsKept m Action.open_data_folder s h = h
  apply_action-IsKept m Action.export_diagnostics s h = export_recorded-IsKept m _ s h
  apply_action-IsKept m Action.install_update s h = update_launched-IsKept _ s h
  apply_action-IsKept m (Action.restart_launcher index) s h = launcher_restarted-IsKept m _ s h

  with_session-IsKept :
      (m : Moment) (session : PersistedStreamSession) (s : App)
      → IsKept P s
      → IsKept P (with_session host m session s)
  unfolding with_session record_activity
  with_session-IsKept m session s (a, e, v, u) =
      (rw (length-take 99 s.state.activity) (omega arith), e, v, u)

  start_with-IsKept :
      (m : Moment) (saved today : Option PersistedStreamSession) (s : App)
      → IsKept P s
      → IsKept P (start_with host m saved today s)
  unfolding start_with
  start_with-IsKept m saved (some session) s h =
      record_user_event-IsKept P host m _ _ _ (with_session-IsKept m session s h)
  start_with-IsKept m (some other) none s h = record_user_event-IsKept P host m _ _ _ h
  start_with-IsKept m none none s h = h

  updates_at_start-Kept : (c : AppConfig) → P (updates_at_start c)
  unfolding updates_at_start
  updates_at_start-Kept c =
      if_cases P c.automatic_updates {y = manager_new}
        (λ e. closed.checked _ manager_new closed.new) (λ e. closed.new)

  pub start-IsKept :
      (m : Moment) (p : Parts)
      → length p.state.activity ≤ 100
      → IsValid p.widget_config
      → IsKept P (start host m p)
  unfolding start app_of
  start-IsKept m p few valid = record_user_event-IsKept P host m _ _ _ (
      start_with-IsKept m _ _ _ (
        few,
        length-user_events_for_day P host m.events m.now m.today p.storage,
        valid,
        updates_at_start-Kept p.config,
      ))
