-- ===== src/Core/Config.antt =====
-- crates/core/src/config.rs: the configuration of the program. Its file is that of
-- Core/WidgetFile, what `serde_json` does is a parameter, and `build` holds the feeds that the
-- build's environment may set.
pub mod Valid
pub mod Load
mod Tests
use arc_twitch_widget.Prelude.{
  ℕ, Bool, true, false, not, ◌&&◌, ◌||◌, List, [], ◌∷◌, Option, none, some, is_empty, unwrap_or,
  leb, if◌then◌else◌,
}
use arc_twitch_widget.Prelude.Result.{Result, ok, err, ensure, context, ◌>>=◌, ◌>>◌}
use arc_twitch_widget.Text.{Text, codes, eq_text, blank, starts_with}
use arc_twitch_widget.Text.Utf8.{Bytes}
use arc_twitch_widget.Core.WidgetFile.{File}

abbrev pub default_stable_update_feed_url : Text
default_stable_update_feed_url =
    codes "https://github.com/sokol-rc/ArcTwitchWidget/releases/latest/download/stable.json"

abbrev pub default_beta_update_feed_url : Text
default_beta_update_feed_url =
    codes "https://github.com/sokol-rc/ArcTwitchWidget/releases/download/beta/beta.json"

abbrev pub disclaimer_revision : ℕ
disclaimer_revision = 1

pub record AppConfig : Type 0 where
  pub local_port : ℕ
  pub overlay_width : ℕ
  pub overlay_height : ℕ
  pub overlay_preset : Text
  pub overlay_language : Text
  pub overlay_background_preset : Text
  pub overlay_background_color : ℕ × ℕ × ℕ
  pub overlay_opacity : ℕ
  pub overlay_blur : ℕ
  pub game_process_names : List Text
  pub onboarding_completed : Bool
  pub disclaimer_accepted_revision : ℕ
  pub update_channel : Text
  pub automatic_updates : Bool
  pub update_feed_url : Text
  pub beta_update_feed_url : Text

-- `option_env!` of the two feeds.
pub record Build : Type 0 where
  pub update_feed_url : Option Text
  pub beta_update_feed_url : Option Text

-- `AppConfig::default()`
unfoldable pub app_config_default : Build → AppConfig
app_config_default build = record {
  local_port = 17842;
  overlay_width = 700;
  overlay_height = 80;
  overlay_preset = codes "account";
  overlay_language = codes "ru";
  overlay_background_preset = codes "smoke";
  overlay_background_color = (9, 16, 21);
  overlay_opacity = 48;
  overlay_blur = 4;
  game_process_names =
      codes "PioneerGame.exe"
      ∷ codes "PioneerGame-Win64-Shipping.exe"
      ∷ codes "ArcRaiders.exe"
      ∷ codes "ArcRaiders-Win64-Shipping.exe"
      ∷ [];
  onboarding_completed = false;
  disclaimer_accepted_revision = 0;
  update_channel = codes "stable";
  automatic_updates = true;
  update_feed_url = unwrap_or build.update_feed_url default_stable_update_feed_url;
  beta_update_feed_url = unwrap_or build.beta_update_feed_url default_beta_update_feed_url;
}

pub data ConfigError : Type 0 where
  low_port narrow_overlay flat_overlay no_preset bad_language high_opacity high_blur : ConfigError
  bad_channel no_https no_process_names cannot_create cannot_read cannot_parse : ConfigError
  cannot_save : ConfigError

abbrev pub https : Text → Bool
https url = starts_with url (codes "https://")

-- `AppConfig::validate`
unfoldable pub validate : AppConfig → Result ConfigError (Unit {0})
validate c = do
  ensure (leb 1024 c.local_port) low_port
  ensure (leb 320 c.overlay_width) narrow_overlay
  ensure (leb 60 c.overlay_height) flat_overlay
  ensure (not (blank c.overlay_preset)) no_preset
  ensure (eq_text c.overlay_language (codes "ru") || eq_text c.overlay_language (codes "en"))
      bad_language
  ensure (leb c.overlay_opacity 100) high_opacity
  ensure (leb c.overlay_blur 20) high_blur
  ensure (eq_text c.update_channel (codes "stable") || eq_text c.update_channel (codes "beta"))
      bad_channel
  ensure (https c.update_feed_url && https c.beta_update_feed_url) no_https
  ensure (not (is_empty c.game_process_names)) no_process_names

-- `AppConfig::selected_update_feed_url`
unfoldable pub selected_update_feed_url : AppConfig → Text
selected_update_feed_url c =
    if eq_text c.update_channel (codes "beta") then c.beta_update_feed_url else c.update_feed_url

-- `serde_json` for the configuration.
pub record Serde : Type 0 where
  pub from_slice : Bytes → Option AppConfig
  pub to_vec_pretty : AppConfig → Option Bytes

-- The two placeholders that are filled in, and whether one was.
unfoldable pub migrate_stable : AppConfig → AppConfig × Bool
migrate_stable c =
    if blank c.update_feed_url
    then (record c { update_feed_url = default_stable_update_feed_url }, true)
    else (c, false)

unfoldable pub migrate_beta : AppConfig × Bool → AppConfig × Bool
migrate_beta (c, migrated) =
    if blank c.beta_update_feed_url
    then (record c { beta_update_feed_url = default_beta_update_feed_url }, true)
    else (c, migrated)

module _ (s : Serde) where
  -- `fs::write(path, serde_json::to_vec_pretty(c)?)`
  unfoldable pub write : ConfigError → AppConfig → File → Result ConfigError (Unit {0}) × File
  write e c file = elim (s.to_vec_pretty c) [
    | none ↦ (err e, file)
    | some b ↦ if file.writable then (ok tt, record file { content = some b }) else (err e, file)
  ]

  -- `AppConfig::save`
  unfoldable pub save_valid :
      Result ConfigError (Unit {0}) → AppConfig → File → Result ConfigError (Unit {0}) × File
  save_valid (err e) c file = (err e, file)
  save_valid (ok _) c file = write cannot_save c file

  unfoldable pub save : AppConfig → File → Result ConfigError (Unit {0}) × File
  save c file = save_valid (validate c) c file

  abbrev pub returning :
      AppConfig → Result ConfigError (Unit {0}) × File → Result ConfigError AppConfig × File
  returning c (ok _, file) = (ok c, file)
  returning c (err e, file) = (err e, file)

  -- The end of `load_or_create`: `config.validate()?; if migrated { config.save(path)?; }`
  unfoldable pub finish_load : AppConfig × Bool → File → Result ConfigError AppConfig × File
  finish_load (c, migrated) file = elim (validate c) [
    | err e ↦ (err e, file)
    | ok _ ↦ if migrated then returning c (save c file) else (ok c, file)
  ]

  unfoldable pub load_parsed : Option AppConfig → File → Result ConfigError AppConfig × File
  load_parsed none file = (err cannot_parse, file)
  load_parsed (some c) file = finish_load (migrate_beta (migrate_stable c)) file

  unfoldable pub load_from : Build → Option Bytes → File → Result ConfigError AppConfig × File
  load_from build none file =
      returning (app_config_default build) (write cannot_create (app_config_default build) file)
  load_from build (some b) file =
      if file.readable then load_parsed (s.from_slice b) file else (err cannot_read, file)

  -- `AppConfig::load_or_create`
  unfoldable pub load_or_create : Build → File → Result ConfigError AppConfig × File
  load_or_create build file = load_from build file.content file
