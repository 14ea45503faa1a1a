-- ===== src/Live/App/Settings.antt =====
-- crates/arc-live/src/ui.rs: the presets, the two files of settings, and the look of the widget.
use arc_twitch_widget.Prelude.{
  ℕ, Bool, true, false, not, ◌||◌, ◌&&◌, List, [], ◌∷◌, ◌++◌, none, some, min, is_empty,
  if◌then◌else◌, ◌==◌,
}
use arc_twitch_widget.Prelude.Result.{Result, ok, err}
use arc_twitch_widget.Text.{Text, codes, eq_text}
use arc_twitch_widget.Core.Overlay.{OverlayStats}
use arc_twitch_widget.Core.WidgetPresets.{WidgetConfig}
use arc_twitch_widget.Core.WidgetConfig.{apply, contains_preset}
use arc_twitch_widget.Core.WidgetFile
use arc_twitch_widget.Core.WidgetFile.{WidgetError, File}
use arc_twitch_widget.Core.Config
use arc_twitch_widget.Core.Config.{AppConfig, ConfigError}
use arc_twitch_widget.Live.App.{
  Host, Moment, App, record_in_state, notify, edit_overlay, record_user_event,
}

-- The settings that follow the overlay.
unfoldable pub preferences_of : OverlayStats → AppConfig → AppConfig
preferences_of o c = record c {
  overlay_preset = o.preset;
  overlay_language = o.language;
  overlay_background_preset = o.background_preset;
  overlay_background_color = o.background_color;
  overlay_opacity = o.opacity;
  overlay_blur = o.background_blur;
}

abbrev pub eq_color : ℕ × ℕ × ℕ → ℕ × ℕ × ℕ → Bool
eq_color (r, g, b) (r', g', b') = r == r' && g == g' && b == b'

abbrev pub eq_texts : List Text → List Text → Bool
eq_texts [] [] = true
eq_texts (s ∷ ss) (t ∷ ts) = eq_text s t && eq_texts ss ts
eq_texts _ _ = false

-- `applied.join(", ")`
abbrev pub joined : List Text → Text
joined [] = []
joined (s ∷ []) = s
joined (s ∷ t ∷ ts) = s ++ codes ", " ++ joined (t ∷ ts)

unfoldable pub appearance_changed : AppConfig → AppConfig → Bool
appearance_changed new old =
    not (eq_text new.overlay_language old.overlay_language)
    || not (eq_text new.overlay_background_preset old.overlay_background_preset)
    || not (eq_color new.overlay_background_color old.overlay_background_color)
    || not (new.overlay_opacity == old.overlay_opacity)
    || not (new.overlay_blur == old.overlay_blur)
    || not (eq_text new.overlay_preset old.overlay_preset)

-- The look of a configuration that was read again.
unfoldable pub appearance_of : WidgetConfig → AppConfig → OverlayStats → OverlayStats
appearance_of widgets c o = record o {
  language = c.overlay_language;
  background_preset = c.overlay_background_preset;
  background_color = c.overlay_background_color;
  opacity = min c.overlay_opacity 100;
  background_blur = min c.overlay_blur 20;
  preset = if contains_preset widgets c.overlay_preset then c.overlay_preset else o.preset;
}

module _ {F : Type 0} (host : Host F) where
  open host use {widget_serde, config_serde, build, widget_error_text, config_error_text}

  unfoldable pub preferences_saved : Moment → Result ConfigError (Unit {0}) × File → App → App
  preferences_saved m (ok _, file) s = record s { config_file = file }
  preferences_saved m (err e, file) s =
      record_in_state m (codes "error")
        (codes "Saving widget settings failed: " ++ config_error_text e)
        (record s { config_file = file })

  -- `save_overlay_preferences`
  unfoldable pub save_overlay_preferences : Moment → OverlayStats → App → App
  save_overlay_preferences m overlay s =
      let c = preferences_of overlay s.config in
      preferences_saved m (Config.save config_serde c s.config_file) (record s { config = c })

  unfoldable pub preset_selected : Moment → Text → App → App
  preset_selected m preset s =
      let chosen =
        record_in_state m (codes "info") (codes "OBS widget preset changed to " ++ preset)
          (edit_overlay (λ o. record o { preset = preset }) s) in
      save_overlay_preferences m chosen.state.overlay (notify chosen)

  -- `select_overlay_preset`
  unfoldable pub select_overlay_preset : Moment → Text → App → App
  select_overlay_preset m preset s =
      if not (contains_preset s.widget_config preset)
      then s
      else if eq_text s.state.overlay.preset preset
      then s
      else preset_selected m preset s

  -- `change_appearance`
  unfoldable pub change_appearance : Moment → (OverlayStats → OverlayStats) → App → App
  change_appearance m edit s =
      let changed =
        record_in_state m (codes "info") (codes "Widget appearance changed")
          (edit_overlay edit s) in
      save_overlay_preferences m changed.state.overlay (notify changed)

  -- What `WidgetConfig::load_or_create` gave, in `reload_widget_config`.
  unfoldable pub widgets_reloaded : Moment → Result WidgetError WidgetConfig × File → App → App
  widgets_reloaded m (ok widgets, file) s =
      let applied = record_in_state m (codes "info") (codes "Widget presets reloaded from disk") (
        edit_overlay (apply widgets)
          (record s { widget_file = file; widget_config = widgets; widget_config_error = none })) in
      record_user_event host m (codes "success") (codes "Пресеты перечитаны из файла")
        (save_overlay_preferences m applied.state.overlay (notify applied))
  widgets_reloaded m (err e, file) s =
      record_in_state m (codes "error")
        (codes "Widget config reload failed: " ++ widget_error_text e)
        (record s { widget_file = file; widget_config_error = some (widget_error_text e) })

  -- `reload_widget_config`
  unfoldable pub reload_widget_config : Moment → App → App
  reload_widget_config m s =
      widgets_reloaded m (WidgetFile.load_or_create widget_serde s.widget_file) s

  -- The process monitor is started again where the names of the game's processes are others.
  unfoldable pub monitor_reloaded : AppConfig → App → App
  monitor_reloaded c s =
      if eq_texts c.game_process_names s.config.game_process_names
      then s
      else record s { monitored = c.game_process_names }

  unfoldable pub appearance_reloaded : AppConfig → App → App
  appearance_reloaded c s =
      if appearance_changed c s.config then edit_overlay (appearance_of s.widget_config c) s else s

  -- What was applied of a configuration, for the message.
  unfoldable pub applied_of : AppConfig → AppConfig → List Text
  applied_of new old =
      (if eq_texts new.game_process_names old.game_process_names
        then []
        else codes "список процессов игры" ∷ [])
      ++ (if appearance_changed new old then codes "оформление виджета" ∷ [] else [])
      ++ (codes "настройки обновлений" ∷ [])

  unfoldable pub needs_restart_of : AppConfig → AppConfig → List Text
  needs_restart_of new old =
      if new.local_port == old.local_port then [] else codes "порт локального сервера" ∷ []

  -- The second half of `reload_configuration`: the widget's file.
  unfoldable pub widgets_reread :
      Moment → Result WidgetError WidgetConfig × File → List Text → App → App × List Text
  widgets_reread m (ok widgets, file) applied s = (
    record s { widget_file = file; widget_config = widgets; widget_config_error = none },
    applied ++ (codes "пресеты виджета" ∷ []),
  )
  widgets_reread m (err e, file) applied s = (
    record_user_event host m (codes "error")
        (codes "widget-config.json не принят: " ++ widget_error_text e)
        (record s { widget_file = file; widget_config_error = some (widget_error_text e) }),
    applied,
  )

  unfoldable pub reload_finished : Moment → List Text → App × List Text → App
  reload_finished m needs_restart (s, applied) =
      let done = notify (
        record_in_state m (codes "info") (codes "Configuration reloaded from disk")
          (edit_overlay (apply s.widget_config) s)) in
      let message = codes "Правки применены: " ++ joined applied in
      if is_empty needs_restart
      then record_user_event host m (codes "success") message done
      else record_user_event host m (codes "warning")
          (message ++ codes ". Требует перезапуска: " ++ joined needs_restart) done

  -- What `AppConfig::load_or_create` gave.
  unfoldable pub config_reread : Moment → Result ConfigError AppConfig × File → App → App
  config_reread m (err e, file) s =
      record_user_event host m (codes "error")
        (codes "config.json не принят: " ++ config_error_text e)
        (record_in_state m (codes "error") (codes "Config reload failed: " ++ config_error_text e)
          (record s { config_file = file }))
  config_reread m (ok c, file) s =
      let shown = record (appearance_reloaded c (monitor_reloaded c s)) {
        config = c;
        config_file = file;
      } in
      reload_finished m (needs_restart_of c s.config) (
        widgets_reread m (WidgetFile.load_or_create widget_serde shown.widget_file)
          (applied_of c s.config) shown)

  -- `reload_configuration`
  unfoldable pub reload_configuration : Moment → App → App
  reload_configuration m s =
      config_reread m (Config.load_or_create config_serde build s.config_file) s
