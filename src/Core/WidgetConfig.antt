-- ===== src/Core/WidgetConfig.antt =====
-- crates/core/src/widget_config.rs: the sources of a value, and the layout resolved to numbers.
pub mod Apply
pub mod Resolve
pub mod Sources
use arc_twitch_widget.Prelude.{
  ℕ, ◌+◌, ◌%◌, ◌^◌, Bool, true, false, not, ◌&&◌, ◌||◌, List, [], ◌∷◌, ◌++◌, Option, none, some,
  map, any, unwrap_or, if◌then◌else◌, ◌==◌, is_empty, min, first?,
}
use arc_twitch_widget.Prelude.Int.{ℤ, pos, ◌+ℤ◌, ◌-ℤ◌, clamp_i64}
use arc_twitch_widget.Prelude.Word.{i64_max}
use arc_twitch_widget.Text.{Text, codes, eq_text, split_once, starts_with, trim, blank}
use arc_twitch_widget.BTreeMap
use arc_twitch_widget.Core.Overlay.{OverlayStats, OverlayPreset, OverlayCell}
use arc_twitch_widget.Core.WidgetPresets.{WidgetMetric, WidgetPreset, WidgetConfig}

-- `source.split_once('.').unwrap_or(("account", source))`
unfoldable pub scope_and_name : Text → Text × Text
scope_and_name source = unwrap_or (split_once b'.' source) (codes "account", source)

-- `.min(i64::MAX as u64) as i64`
unfoldable pub i64_of : ℕ → ℤ
i64_of n = pos (min n i64_max)

unfoldable pub event_total : Text → Text → OverlayStats → ℕ
event_total scope name stats =
    let totals =
      if eq_text scope (codes "session")
      then stats.session_raw_totals
      else if eq_text scope (codes "today")
      then stats.today_raw_totals
      else stats.raw_totals in
    unwrap_or (BTreeMap.get totals name) 0

-- `session_extractions + session_deaths == 0 && today_available`; the sum wraps around.
unfoldable pub no_session_outcome : OverlayStats → Bool
no_session_outcome stats =
    (stats.session_extractions + stats.session_deaths) % 2 ^ 64 == 0 && stats.today_available

-- The names that the code matches with each scope.
unfoldable pub account_value : Text → OverlayStats → ℕ
account_value name stats =
    if eq_text name (codes "raids")
    then stats.raids
    else if eq_text name (codes "extractions")
    then stats.extractions
    else if eq_text name (codes "eliminations")
    then stats.eliminations
    else if eq_text name (codes "deaths")
    then stats.deaths
    else if eq_text name (codes "loot_value")
    then stats.loot_value
    else if eq_text name (codes "arc_eliminations")
    then stats.arc_eliminations
    else if eq_text name (codes "downs")
    then stats.downs
    else if eq_text name (codes "revives")
    then stats.revives
    else if eq_text name (codes "damage_by_enemy")
    then stats.damage_by_enemy
    else if eq_text name (codes "damage_by_weapon")
    then stats.damage_by_weapon
    else if eq_text name (codes "raider_damage")
    then stats.raider_damage
    else if eq_text name (codes "value_brought_in")
    then stats.value_brought_in
    else if eq_text name (codes "xp_gained")
    then stats.xp_gained
    else 0

unfoldable pub session_value : Text → OverlayStats → ℕ
session_value name stats =
    if eq_text name (codes "downs")
    then stats.session_downs
    else if eq_text name (codes "extractions")
    then stats.session_extractions
    else if eq_text name (codes "deaths")
    then stats.session_deaths
    else if eq_text name (codes "loot_value")
    then stats.session_loot_value
    else 0

unfoldable pub today_value : Text → OverlayStats → ℕ
today_value name stats =
    if eq_text name (codes "extractions")
    then stats.today_extractions
    else if eq_text name (codes "deaths")
    then stats.today_deaths
    else 0

unfoldable pub outcome_value : Text → OverlayStats → ℕ
outcome_value name stats =
    if eq_text name (codes "wins")
    then (if no_session_outcome stats then stats.today_extractions else stats.session_extractions)
    else if eq_text name (codes "losses")
    then (if no_session_outcome stats then stats.today_deaths else stats.session_deaths)
    else 0

unfoldable pub unsigned_value : Text → Text → OverlayStats → ℕ
unsigned_value scope name stats =
    if eq_text scope (codes "account")
    then account_value name stats
    else if eq_text scope (codes "session")
    then session_value name stats
    else if eq_text scope (codes "today")
    then today_value name stats
    else if eq_text scope (codes "outcome")
    then outcome_value name stats
    else 0

unfoldable pub resolve_name : Text → Text → OverlayStats → ℤ
resolve_name scope name stats =
    if starts_with name (codes "event.")
    then i64_of (event_total scope name stats)
    else if eq_text scope (codes "session") && eq_text name (codes "money_delta")
    then stats.session_money_delta
    else i64_of (unsigned_value scope name stats)

unfoldable pub resolve_source : Text → OverlayStats → ℤ
resolve_source source stats =
    let (scope, name) = scope_and_name source in resolve_name scope name stats

-- `.map(|source| resolve_source(source, stats)).sum::<i128>()`
unfoldable pub sum_sources : List Text → OverlayStats → ℤ
sum_sources [] stats = pos 0
sum_sources (source ∷ sources) stats = resolve_source source stats +ℤ sum_sources sources stats

-- `WidgetMetric::resolve`
unfoldable pub resolve : WidgetMetric → OverlayStats → ℤ
resolve m stats =
    clamp_i64
      (resolve_source m.source stats +ℤ sum_sources m.add stats -ℤ sum_sources m.subtract stats)

unfoldable pub cell_of : OverlayStats → WidgetMetric → OverlayCell
cell_of stats m = record {
  value = resolve m stats;
  label_ru = m.label_ru;
  label_en = m.label_en;
  style = if blank m.style then codes "plain" else trim m.style;
}

unfoldable pub preset_of : OverlayStats → WidgetPreset → OverlayPreset
preset_of stats p = record {
  id = trim p.id;
  name_ru = p.name_ru;
  name_en = p.name_en;
  cells = map (cell_of stats) p.cells;
}

-- The active preset, repaired if it was deleted.
unfoldable pub repaired : List OverlayPreset → Text → Text
repaired [] preset = preset
repaired (p ∷ ps) preset = if any (λ q. eq_text q.id preset) (p ∷ ps) then preset else p.id

-- `WidgetConfig::apply`
unfoldable pub apply : WidgetConfig → OverlayStats → OverlayStats
apply config stats =
    let presets = map (preset_of stats) config.presets in
    record stats { preset = repaired presets stats.preset; presets = presets }

-- `WidgetConfig::contains`
unfoldable pub contains_preset : WidgetConfig → Text → Bool
contains_preset config preset_id = any (λ p. eq_text p.id preset_id) config.presets
