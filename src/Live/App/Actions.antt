-- ===== src/Live/App/Actions.antt =====
-- crates/arc-live/src/ui.rs: what the user does in the window.
use arc_twitch_widget.Prelude.{ℕ, Bool, true, false, ◌++◌, Option, none, some, min, get_elem?}
use arc_twitch_widget.Prelude.Int.{ℤ, pos, negsuc}
use arc_twitch_widget.Prelude.Result.{Result, ok, err}
use arc_twitch_widget.Text.{Text, codes}
use arc_twitch_widget.BTreeMap
use arc_twitch_widget.Core.Overlay.{OverlayStats, overlay_stats_default}
use arc_twitch_widget.Core.WidgetConfig.{apply}
use arc_twitch_widget.Core.WidgetFile.{File}
use arc_twitch_widget.Core.Config
use arc_twitch_widget.Core.Config.{
  AppConfig, ConfigError, disclaimer_revision, selected_update_feed_url,
}
use arc_twitch_widget.Live.Updates.{UpdateError}
use arc_twitch_widget.Live.Updates.Manager.{UpdateManager}
use arc_twitch_widget.Live.Updates.Manager
use arc_twitch_widget.Live.App.{
  Host, Moment, App, Launcher, Page, title, record_in_state, notify, edit_overlay,
  record_user_event,
}
use arc_twitch_widget.Live.App.Stream.{start_new_stream}
use arc_twitch_widget.Live.App.Settings.{
  select_overlay_preset, change_appearance, reload_widget_config, reload_configuration,
}

-- crates/arc-live/src/view.rs: `Action`.
pub data Action : Type 0 where
  select_preset : Text → Action
  ask_reset cancel_reset confirm_reset reload_presets reload_config : Action
  set_language : Text → Action
  set_appearance : Text → ℕ × ℕ × ℕ → ℕ → ℕ → Action
  set_demo : Bool → Action
  flip_demo_balance : Action
  set_auto_updates : Bool → Action
  set_channel : Text → Action
  check_updates download_update : Action
  confirm_disclaimer : Bool → Action
  accept_disclaimer decline_disclaimer : Action
  goto : Page → Action
  copy_obs_url open_obs_preview open_preset_file open_data_folder : Action
  export_diagnostics install_update : Action
  restart_launcher : ℕ → Action

-- The numbers that `load_demo_stats` puts into the overlay.
unfoldable pub demo_totals : OverlayStats → OverlayStats
demo_totals o =
    let raw = BTreeMap.insert o.raw_totals (codes "event.200.target.995408715") 24 in
    let s1 = BTreeMap.insert o.session_raw_totals (codes "event.200.target.995408715") 6 in
    let s2 = BTreeMap.insert s1 (codes "event.101") 55600 in
    let s3 = BTreeMap.insert s2 (codes "event.101.target.995408715") 18700 in
    record o {
      mode = codes "demo";
      eliminations = 24;
      downs = 24;
      raider_damage = 28640;
      loot_value = 428750;
      session_downs = 6;
      session_extractions = 3;
      session_deaths = 2;
      session_loot_value = 128400;
      session_money_delta = negsuc 56099;
      today_extractions = 5;
      today_deaths = 3;
      today_available = true;
      raw_totals = BTreeMap.insert raw (codes "event.101") 28640;
      session_raw_totals = BTreeMap.insert s3 (codes "event.101.target.200993951") 900;
    }

-- The overlay that `clear_demo_stats` leaves.
unfoldable pub without_demo : OverlayStats → OverlayStats
without_demo o = record overlay_stats_default {
  mode = codes "live";
  preset = o.preset;
  language = o.language;
  background_preset = o.background_preset;
  background_color = o.background_color;
  opacity = o.opacity;
  background_blur = o.background_blur;
}

unfoldable pub flipped : ℤ → ℤ
flipped (pos n) = negsuc 56099
flipped (negsuc n) = pos 72300

unfoldable pub with_look : Text → ℕ × ℕ × ℕ → ℕ → ℕ → OverlayStats → OverlayStats
with_look preset color opacity blur o = record o {
  background_preset = preset;
  background_color = color;
  opacity = min opacity 100;
  background_blur = min blur 20;
}

module _ {F : Type 0} (host : Host F) where
  open host use {config_serde, config_error_text}

  -- An edit of the overlay that every page is told of.
  unfoldable pub show_edit : Moment → Text → (OverlayStats → OverlayStats) → App → App
  show_edit m message edit s = notify (
      record_in_state m (codes "info") message
        (edit_overlay (λ o. apply s.widget_config (edit o)) s))

  -- `let _ = self.config.save(…)`
  unfoldable pub save_config : AppConfig → App → App
  save_config c s = record s {
    config = c;
    config_file = (Config.save config_serde c s.config_file).1;
  }

  unfoldable pub notice_saved : Moment → Result ConfigError (Unit {0}) × File → App → App
  notice_saved m (ok _, file) s = record s { config_file = file }
  notice_saved m (err e, file) s =
      record_in_state m (codes "error")
        (codes "Saving the risk notice failed: " ++ config_error_text e)
        (record s { config_file = file })

  -- `export_diagnostics`, with what `arc_live_diagnostics::export` gave.
  unfoldable pub export_recorded : Moment → Result Text Text → App → App
  export_recorded m (ok path) s =
      record_in_state m (codes "success") (codes "Diagnostics exported: " ++ path) s
  export_recorded m (err e) s =
      record_in_state m (codes "error") (codes "Diagnostics export failed: " ++ e) s

  -- The window closes, and then the installer starts.
  unfoldable pub update_launched : Result UpdateError Text → App → App
  update_launched (ok path) s = record s { closing = true }
  update_launched (err e) s = record s { updates = record s.updates { error = some e } }

  -- What `restart_launcher_with_keylog` gave.
  unfoldable pub restart_recorded : Moment → Text → Result Text (Unit {0}) → App → App
  restart_recorded m name (ok _) s =
      record_user_event host m (codes "success")
        (name ++ codes " перезапущен — теперь можно запускать игру")
        (record_in_state m (codes "success") (name ++ codes " restarted with the key log variable")
          s)
  restart_recorded m name (err e) s =
      record_user_event host m (codes "error")
        (codes "Не удалось перезапустить " ++ name ++ codes ": " ++ e)
        (record_in_state m (codes "error") (codes "Launcher restart failed: " ++ e) s)

  unfoldable pub launcher_restarted : Moment → Option Launcher → App → App
  launcher_restarted m none s = s
  launcher_restarted m (some launcher) s = restart_recorded m (title launcher) m.restarted s

  -- `ArcLiveApp::apply`
  unfoldable pub apply_action : Moment → Action → App → App
  apply_action m (select_preset id) s = select_overlay_preset host m id s
  apply_action m ask_reset s = record s { confirm_new_stream = true }
  apply_action m cancel_reset s = record s { confirm_new_stream = false }
  apply_action m confirm_reset s = start_new_stream host m s
  apply_action m reload_presets s = reload_widget_config host m s
  apply_action m reload_config s = reload_configuration host m s
  apply_action m (set_language language) s =
      change_appearance host m (λ o. record o { language = language }) s
  apply_action m (set_appearance preset color opacity blur) s =
      change_appearance host m (with_look preset color opacity blur) s
  apply_action m (set_demo true) s = show_edit m (codes "OBS demo statistics loaded") demo_totals s
  apply_action m (set_demo false) s =
      show_edit m (codes "OBS demo statistics cleared") without_demo s
  apply_action m flip_demo_balance s =
      show_edit m (codes "OBS demo balance sign changed")
        (λ o. record o { session_money_delta = flipped o.session_money_delta }) s
  apply_action m (set_auto_updates enabled) s =
      save_config (record s.config { automatic_updates = enabled }) s
  apply_action m (set_channel channel) s =
      save_config (record s.config { update_channel = channel })
        (record s { updates = record s.updates { available = none; downloaded = none } })
  apply_action m check_updates s = record s {
    updates = (Manager.check (selected_update_feed_url s.config) s.updates).0;
  }
  apply_action m download_update s = record s { updates = (Manager.download s.updates).0 }
  apply_action m (confirm_disclaimer confirmed) s = record s { disclaimer_confirmed = confirmed }
  apply_action m accept_disclaimer s =
      let c = record s.config { disclaimer_accepted_revision = disclaimer_revision } in
      record_user_event host m (codes "info") (codes "Предупреждение о рисках принято")
        (notice_saved m (Config.save config_serde c s.config_file) (record s { config = c }))
  apply_action m decline_disclaimer s = record s { closing = true }
  apply_action m (goto page) s = record s { page = page }
  apply_action m copy_obs_url s = s
  apply_action m open_obs_preview s = s
  apply_action m open_preset_file s = s
  apply_action m open_data_folder s = s
  apply_action m export_diagnostics s = export_recorded m m.exported s
  apply_action m install_update s =
      update_launched (Manager.launch_downloaded_after_exit m.spawns s.updates) s
  apply_action m (restart_launcher index) s = launcher_restarted m (get_elem? s.launchers index) s
