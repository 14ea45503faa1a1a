-- ===== src/Core/WidgetPresets.antt =====
-- crates/core/src/widget_config.rs: the layout types and the presets that the program ships.
use arc_twitch_widget.Prelude.{ℕ, List, [], ◌∷◌}
use arc_twitch_widget.Text.{Text, codes}

abbrev pub widget_config_schema_version : ℕ
widget_config_schema_version = 2

abbrev pub max_presets : ℕ
max_presets = 12

abbrev pub max_cells_per_preset : ℕ
max_cells_per_preset = 4

abbrev pub cell_styles : List Text
cell_styles = codes "plain" ∷ codes "accent" ∷ codes "danger" ∷ codes "loot" ∷ codes "balance" ∷ []

pub record WidgetMetric : Type 0 where
  pub source : Text
  pub add : List Text
  pub subtract : List Text
  pub label_ru : Text
  pub label_en : Text
  pub style : Text

pub record WidgetPreset : Type 0 where
  pub id : Text
  pub name_ru : Text
  pub name_en : Text
  pub cells : List WidgetMetric

pub record WidgetConfig : Type 0 where
  pub schema_version : ℕ
  pub presets : List WidgetPreset

unfoldable pub metric : Text → Text → Text → Text → WidgetMetric
metric source label_ru label_en style = record {
  source = source;
  add = [];
  subtract = [];
  label_ru = label_ru;
  label_en = label_en;
  style = style;
}

-- The five presets, in the order of `?preset=1..5`.
unfoldable pub account_preset : WidgetPreset
unfolding metric
account_preset = record {
  id = codes "account";
  name_ru = codes "Статистика аккаунта";
  name_en = codes "Account totals";
  cells =
      metric (codes "account.event.200.target.995408715") (codes "Ноки игроков")
        (codes "Player knocks") (codes "plain")
      ∷ record {
        source = codes "account.event.101";
        add = [];
        subtract =
            codes "account.event.101.target.995408715"
            ∷ codes "account.event.101.target.200993951"
            ∷ [];
        label_ru = codes "Урон рейдерам";
        label_en = codes "Raider damage";
        style = codes "accent";
      }
      ∷ metric (codes "account.loot_value") (codes "Вынесено") (codes "Extracted value")
          (codes "loot")
      ∷ [];
}

unfoldable pub session_preset : WidgetPreset
unfolding metric
session_preset = record {
  id = codes "session";
  name_ru = codes "Текущий стрим";
  name_en = codes "Current stream";
  cells =
      metric (codes "session.event.200.target.995408715") (codes "Ноки за стрим")
        (codes "Stream knocks") (codes "plain")
      ∷ metric (codes "session.extractions") (codes "Успешные выходы") (codes "Successful exits")
          (codes "accent")
      ∷ metric (codes "session.money_delta") (codes "Баланс") (codes "Balance") (codes "balance")
      ∷ [];
}

unfoldable pub outcome_preset : WidgetPreset
unfolding metric
outcome_preset = record {
  id = codes "outcome";
  name_ru = codes "Победы | Поражения";
  name_en = codes "Win | Lose";
  cells =
      metric (codes "outcome.wins") (codes "Вышел живым") (codes "Extracted alive") (codes "accent")
      ∷ metric (codes "outcome.losses") (codes "Погиб") (codes "Knocked out") (codes "danger")
      ∷ [];
}

unfoldable pub pve_preset : WidgetPreset
unfolding metric
pve_preset = record {
  id = codes "pve";
  name_ru = codes "PvE · лут и ARC";
  name_en = codes "PvE · loot and ARC";
  cells =
      metric (codes "session.loot_value") (codes "Вынесено за стрим") (codes "Stream loot")
        (codes "loot")
      ∷ record {
        source = codes "session.event.101";
        add = [];
        subtract =
            codes "session.event.101.target.995408715"
            ∷ codes "session.event.101.target.200993951"
            ∷ [];
        label_ru = codes "Урон аркам";
        label_en = codes "ARC damage";
        style = codes "accent";
      }
      ∷ [];
}

unfoldable pub pvp_preset : WidgetPreset
unfolding metric
pvp_preset = record {
  id = codes "pvp";
  name_ru = codes "PvP · ноки и урон";
  name_en = codes "PvP · knocks and damage";
  cells =
      metric (codes "session.event.200.target.995408715") (codes "Ноки игроков")
        (codes "Player knocks") (codes "plain")
      ∷ record {
        source = codes "session.event.101.target.995408715";
        add = codes "session.event.101.target.200993951" ∷ [];
        subtract = [];
        label_ru = codes "Урон игрокам";
        label_en = codes "Player damage";
        style = codes "danger";
      }
      ∷ [];
}

unfoldable pub default_presets : List WidgetPreset
unfolding account_preset session_preset outcome_preset pve_preset pvp_preset
default_presets = account_preset ∷ session_preset ∷ outcome_preset ∷ pve_preset ∷ pvp_preset ∷ []

-- `WidgetConfig::default()`
unfoldable pub widget_config_default : WidgetConfig
unfolding default_presets
widget_config_default = record {
  schema_version = widget_config_schema_version;
  presets = default_presets;
}
