-- ===== src/Live/App/Kept/Settings.antt =====
-- The presets and the files of settings of crates/arc-live/src/ui.rs: what the operations keep.
use arc_twitch_widget.Prelude.{Bool, true, false, not, List, if_cases, if◌then◌else◌, is_empty}
use arc_twitch_widget.Prelude.Result.{Result, ok, err}
use arc_twitch_widget.Text.{Text, eq_text}
use arc_twitch_widget.Core.Overlay.{OverlayStats}
use arc_twitch_widget.Core.WidgetPresets.{WidgetConfig}
use arc_twitch_widget.Core.WidgetConfig.{contains_preset}
use arc_twitch_widget.Core.WidgetFile.{WidgetError, File}
use arc_twitch_widget.Core.WidgetFile.Load.{Loaded, load_or_create-Loaded}
use arc_twitch_widget.Core.Config
use arc_twitch_widget.Core.Config.{AppConfig, ConfigError}
use arc_twitch_widget.Live.App.{Host, Moment, App, edit_overlay, record_user_event}
use arc_twitch_widget.Live.App.Settings.{
  preferences_saved, save_overlay_preferences, preset_selected, select_overlay_preset,
  change_appearance, widgets_reloaded, reload_widget_config, monitor_reloaded, appearance_reloaded,
  appearance_of, appearance_changed, eq_texts, widgets_reread, reload_finished, config_reread,
  reload_configuration,
}
use arc_twitch_widget.Live.App.Kept.{
  IsKept, record_in_state-IsKept, notify-IsKept, record_user_event-IsKept,
}
use arc_twitch_widget.Live.Updates.Manager.{UpdateManager}

module _ (P : UpdateManager → Type 0) {F : Type 0} (host : Host F) where
  open host use {widget_serde, config_serde, build}

  monitor_reloaded-IsKept :
      (c : AppConfig) (s : App) → IsKept P s → IsKept P (monitor_reloaded host c s)
  unfolding monitor_reloaded
  monitor_reloaded-IsKept c s h =
      if_cases (IsKept P) (eq_texts c.game_process_names s.config.game_process_names) {x = s}
        {y = record s { monitored = c.game_process_names }} (λ e. h) (λ e. h)

  appearance_reloaded-IsKept :
      (c : AppConfig) (s : App) → IsKept P s → IsKept P (appearance_reloaded host c s)
  unfolding appearance_reloaded
  appearance_reloaded-IsKept c s h =
      if_cases (IsKept P) (appearance_changed c s.config)
        {x = edit_overlay (appearance_of s.widget_config c) s} {y = s} (λ e. h) (λ e. h)

  preferences_saved-IsKept :
      (m : Moment) (r : Result ConfigError (Unit {0}) × File) (s : App)
      → IsKept P s
      → IsKept P (preferences_saved host m r s)
  unfolding preferences_saved
  preferences_saved-IsKept m (ok _, file) s h = h
  preferences_saved-IsKept m (err e, file) s h = record_in_state-IsKept P m _ _ _ h

  save_overlay_preferences-IsKept :
      (m : Moment) (o : OverlayStats) (s : App)
      → IsKept P s
      → IsKept P (save_overlay_preferences host m o s)
  unfolding save_overlay_preferences
  save_overlay_preferences-IsKept m o s h = preferences_saved-IsKept m _ _ h

  preset_selected-IsKept :
      (m : Moment) (t : Text) (s : App) → IsKept P s → IsKept P (preset_selected host m t s)
  unfolding preset_selected
  preset_selected-IsKept m t s h =
      save_overlay_preferences-IsKept m _ _ (notify-IsKept P _ (record_in_state-IsKept P m _ _ _ h))

  pub select_overlay_preset-IsKept :
      (m : Moment) (t : Text) (s : App) → IsKept P s → IsKept P (select_overlay_preset host m t s)
  unfolding select_overlay_preset
  select_overlay_preset-IsKept m t s h =
      if_cases (IsKept P) (not (contains_preset s.widget_config t)) {x = s} (λ e. h)
        (λ e.
          if_cases (IsKept P) (eq_text s.state.overlay.preset t) {x = s}
            {y = preset_selected host m t s} (λ e. h) (λ e. preset_selected-IsKept m t s h))

  pub change_appearance-IsKept :
      (m : Moment) (f : OverlayStats → OverlayStats) (s : App)
      → IsKept P s
      → IsKept P (change_appearance host m f s)
  unfolding change_appearance
  change_appearance-IsKept m f s h =
      save_overlay_preferences-IsKept m _ _ (notify-IsKept P _ (record_in_state-IsKept P m _ _ _ h))

  widgets_reloaded-IsKept :
      (m : Moment) (r : Result WidgetError WidgetConfig × File) (s : App)
      → Loaded widget_serde r
      → IsKept P s
      → IsKept P (widgets_reloaded host m r s)
  unfolding widgets_reloaded
  widgets_reloaded-IsKept m (ok w, file) s l (a, e, v, u) =
      record_user_event-IsKept P host m _ _ _ (
        save_overlay_preferences-IsKept m _ _
          (notify-IsKept P _ (record_in_state-IsKept P m _ _ _ (a, e, l, u))))
  widgets_reloaded-IsKept m (err x, file) s l h = record_in_state-IsKept P m _ _ _ h

  pub reload_widget_config-IsKept :
      (m : Moment) (s : App) → IsKept P s → IsKept P (reload_widget_config host m s)
  unfolding reload_widget_config
  reload_widget_config-IsKept m s h =
      widgets_reloaded-IsKept m _ s (load_or_create-Loaded widget_serde s.widget_file) h

  widgets_reread-IsKept :
      (m : Moment) (r : Result WidgetError WidgetConfig × File) (applied : List Text) (s : App)
      → Loaded widget_serde r
      → IsKept P s
      → IsKept P (widgets_reread host m r applied s).0
  unfolding widgets_reread
  widgets_reread-IsKept m (ok w, file) applied s l (a, e, v, u) = (a, e, l, u)
  widgets_reread-IsKept m (err x, file) applied s l h = record_user_event-IsKept P host m _ _ _ h

  reload_finished-IsKept :
      (m : Moment) (needs : List Text) (r : App × List Text)
      → IsKept P r.0
      → IsKept P (reload_finished host m needs r)
  unfolding reload_finished
  reload_finished-IsKept m needs (s, applied) h =
      of (is_empty needs) _ _ _ _ _ (notify-IsKept P _ (record_in_state-IsKept P m _ _ _ h))
    where
      of :
          (b : Bool) (l l' t t' : Text) (u : App)
          → IsKept P u
          → IsKept P
              (if b then record_user_event host m l t u else record_user_event host m l' t' u)
      of true l l' t t' u k = record_user_event-IsKept P host m l t u k
      of false l l' t t' u k = record_user_event-IsKept P host m l' t' u k

  config_reread-IsKept :
      (m : Moment) (r : Result ConfigError AppConfig × File) (s : App)
      → IsKept P s
      → IsKept P (config_reread host m r s)
  unfolding config_reread
  config_reread-IsKept m (err x, file) s h =
      record_user_event-IsKept P host m _ _ _ (record_in_state-IsKept P m _ _ _ h)
  config_reread-IsKept m (ok c, file) s h = reload_finished-IsKept m _ _ (
      widgets_reread-IsKept m _ _ _ (load_or_create-Loaded widget_serde _)
        (appearance_reloaded-IsKept c (monitor_reloaded host c s) (monitor_reloaded-IsKept c s h)))

  pub reload_configuration-IsKept :
      (m : Moment) (s : App) → IsKept P s → IsKept P (reload_configuration host m s)
  unfolding reload_configuration
  reload_configuration-IsKept m s h =
      config_reread-IsKept m (Config.load_or_create config_serde build s.config_file) s h
