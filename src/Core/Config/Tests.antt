-- ===== src/Core/Config/Tests.antt =====
-- Runs of crates/core/src/config.rs on small inputs, and instances of its theorems.
use native.Mathlib.Decide.{ℕ_discrete}
use arc_twitch_widget.Prelude.{◌≡◌, refl, true, [], ◌∷◌, Option, none, some}
use arc_twitch_widget.Prelude.Result.{ok}
use arc_twitch_widget.Text.{eq_text, starts_with, trim}
use arc_twitch_widget.Text.Utf8.{Bytes}
use arc_twitch_widget.Core.WidgetFile.{File}
use arc_twitch_widget.Core.Config.{
  AppConfig, Build, Serde, app_config_default, validate, load_or_create, load_from, write,
  finish_load, migrate_stable, migrate_beta, load_parsed, save, save_valid,
}
use arc_twitch_widget.Core.Config.Load.{RoundTrips, load_or_create-IsValid}
use arc_twitch_widget.Core.Config.Valid.{IsValid}

AppConfig-discrete : Discrete AppConfig
AppConfig-discrete = hlevel (ℕ_discrete)

-- A build whose environment sets no feed.
abbrev build : Build
build = record { update_feed_url = none; beta_update_feed_url = none }

-- The text of the first configuration, and a text of one without feeds.
to_slice : AppConfig → Option Bytes
to_slice c = elim (AppConfig-discrete c (app_config_default build)) [
  | yes _ ↦ some (1 ∷ [])
  | no _ ↦ none
]

abbrev read_slice : Bytes → Option AppConfig
read_slice [] =
    some (record (app_config_default build) { update_feed_url = []; beta_update_feed_url = [] })
read_slice (b ∷ bs) = some (app_config_default build)

abbrev serde : Serde
serde = record { from_slice = read_slice; to_vec_pretty = to_slice }

written_back : (c : AppConfig) (b : Bytes) → to_slice c ≡ some b → read_slice b ≡ some c
unfolding to_slice
written_back c b h = of (AppConfig-discrete c (app_config_default build)) h
  where
    of :
        (d : Dec (c ≡ app_config_default build))
        → (elim d [ yes _ ↦ some (1 ∷ []) | no _ ↦ none ]) ≡ some b
        → read_slice b ≡ some c
    of (yes p) q = let same : 1 ∷ [] ≡ b = cc in rw (← same, p) refl
    of (no _) q = cc

serde-RoundTrips : RoundTrips serde
serde-RoundTrips = record { config = written_back }

abbrev old_file : File
old_file = record { content = some []; readable = true; writable = true }

abbrev new_file : File
new_file = record { content = some (1 ∷ []); readable = true; writable = true }

migrated : load_or_create serde build old_file ≡ (ok (app_config_default build), new_file)
unfolding load_or_create load_from load_parsed finish_load migrate_stable migrate_beta save
    save_valid write validate app_config_default eq_text starts_with trim to_slice
    AppConfig-discrete ℕ_discrete
migrated = refl

load_or_create-IsValid_example :
    IsValid (app_config_default build)
    × (load_or_create serde build new_file ≡ (ok (app_config_default build), new_file))
load_or_create-IsValid_example =
    load_or_create-IsValid serde build serde-RoundTrips old_file new_file []
      (app_config_default build) refl refl migrated
